-- ===== src/Manager/Keeps.antt =====
-- What holds of the manager whatever the disk does.
use mini_db.Prelude.{ℕ, ◌≡◌, refl, true, false, inl, inr, Bool-cases, Option, none, some}
use mini_db.Bytes.{Bytes, bytes_eq}
use mini_db.Result.{Result, ok, err, Error, wal_open}
use mini_db.Crc.{Crc32}
use mini_db.Storage.{Storage}
use mini_db.Map.{Map, get, insert, remove, contains_key}
use mini_db.Map.Keys.{IsMap, insert-IsMap, remove-IsMap}
use mini_db.Wal.{Wal}
use mini_db.Wal.Init.{init as init_wal, file_after}
use mini_db.Worker.{Query}
use mini_db.Manager.Directory.{Folder}
use mini_db.Manager.Paths.{log_path}
use mini_db.Manager.{
  default_db_name, Running, DbManager, spawn, open_wal, start_db, taken, run, created,
  spawn_db_worker, create_db, drop_db, ask, close,
}
use mini_db.Manager.Apart.{
  AreApart, AreApart-insert, AreApart-file, AreApart-remove, AreApart-again, contains_insert,
  contains-remove, contains_removed,
}

module _ ⦃crc : Crc32⦄ ⦃disk : Storage⦄ where
  open disk use {File}

  -- The default database runs, and each log has one worker at most.
  pub record IsManaged (m : DbManager) : Type 0 where
    pub default_runs : contains_key default_db_name m.db_map ≡ true
    pub distinct : IsMap m.db_map
    pub distinct_files : IsMap m.directory
    pub apart : AreApart m.db_map m.directory

  module _ ⦃folder : Folder disk⦄ where
    -- What an attempt to start a worker leaves.
    pub data Outcome (path name : Bytes) (dbs : Map Running) (files : Map File)
        : Result (Map Running) × Map File → Type 0 where
      started :
          (r : Running) → Outcome path name dbs files (ok (insert name r dbs), remove path files)
      not_opened : (e : Error) → Outcome path name dbs files (err e, files)
      not_read : (e : Error) (f : File) → Outcome path name dbs files (err e, insert path f files)

    module _ (interval : ℕ) (path name : Bytes) (dbs : Map Running) (files : Map File) where
      taken-Outcome :
          (f : File) (r : Result (Wal × Map Bytes))
          → Outcome path name dbs files (run interval name dbs (taken path files f r))
      taken-Outcome f (ok (w, m)) = started (spawn interval w m)
      taken-Outcome f (err e) = not_read e (file_after f)

      pub start_db-Outcome : Outcome path name dbs files (start_db interval path name dbs files)
      unfolding start_db open_wal
      start_db-Outcome = by_file (folder.open_file path (get path files)) refl
        where
          by_file :
              (o : Option File)
              → folder.open_file path (get path files) ≡ o
              → Outcome path name dbs files (start_db interval path name dbs files)
          by_file none e = rw (start_db, open_wal, e) (not_opened wal_open)
          by_file (some f) e = rw (start_db, open_wal, e) (taken-Outcome f (init_wal path f))

    created-IsManaged :
        (name : Bytes) (m : DbManager) (o : Result (Map Running) × Map File)
        → contains_key name m.db_map ≡ false
        → Outcome (log_path name) name m.db_map m.directory o
        → IsManaged m
        → IsManaged (created m o).1
    created-IsManaged name m _ absent (started r) h = record {
      default_runs = contains_insert name default_db_name r m.db_map h.default_runs;
      distinct = insert-IsMap name r m.db_map h.distinct;
      distinct_files = remove-IsMap (log_path name) m.directory h.distinct_files;
      apart = AreApart-insert m.db_map m.directory name r h.apart;
    }
    created-IsManaged name m _ absent (not_opened e) h = record {
      default_runs = h.default_runs;
      distinct = h.distinct;
      distinct_files = h.distinct_files;
      apart = h.apart;
    }
    created-IsManaged name m _ absent (not_read e f) h = record {
      default_runs = h.default_runs;
      distinct = h.distinct;
      distinct_files = insert-IsMap (log_path name) f m.directory h.distinct_files;
      apart = AreApart-file m.db_map m.directory name f absent h.apart;
    }

    pub create_db-IsManaged :
        (name : Bytes) (m : DbManager) → IsManaged m → IsManaged (create_db name m).1
    unfolding create_db spawn_db_worker
    create_db-IsManaged name m h = elim (Bool-cases (contains_key name m.db_map)) [
      | inl there ↦ rw (create_db, there) h
      | inr absent ↦
          rw (create_db, absent)
            (created-IsManaged name m _ absent
              (start_db-Outcome m.fsync_interval (log_path name) name m.db_map m.directory) h)
    ]

    pub drop_db-IsManaged :
        (name : Bytes) (m : DbManager) → IsManaged m → IsManaged (drop_db name m).1
    unfolding drop_db
    drop_db-IsManaged name m h = elim (Bool-cases (bytes_eq name default_db_name)) [
      | inl default ↦ rw (drop_db, default) h
      | inr other ↦ by_entry other (get name m.db_map) refl
    ]
      where
        still :
            bytes_eq name default_db_name ≡ false
            → contains_key default_db_name (remove name m.db_map) ≡ true
        still other = rw (contains-remove name default_db_name m.db_map, other) h.default_runs

        by_entry :
            bytes_eq name default_db_name ≡ false
            → (o : Option Running) → get name m.db_map ≡ o
            → IsManaged (drop_db name m).1
        by_entry other none e = rw (drop_db, other, e) h
        by_entry other (some r) e =
            elim (Bool-cases (folder.remove_file (log_path name) (close r))) [
              | inl removed ↦
                  rw (drop_db, other, e, removed)
                    (record {
                      default_runs = still other;
                      distinct = remove-IsMap name m.db_map h.distinct;
                      distinct_files = h.distinct_files;
                      apart = AreApart-remove m.db_map m.directory name h.apart;
                    })
              | inr kept ↦
                  rw (drop_db, other, e, kept)
                    (record {
                      default_runs = still other;
                      distinct = remove-IsMap name m.db_map h.distinct;
                      distinct_files =
                          insert-IsMap (log_path name) (close r) m.directory h.distinct_files;
                      apart =
                          AreApart-file (remove name m.db_map) m.directory name (close r)
                            (contains_removed m.db_map m.directory name)
                            (AreApart-remove m.db_map m.directory name h.apart);
                    })
            ]

    pub ask-IsManaged :
        (name : Bytes) (q : Query) (m : DbManager) → IsManaged m → IsManaged (ask name q m).1
    unfolding ask
    ask-IsManaged name q m h = by_entry (get name m.db_map) refl
      where
        by_entry : (o : Option Running) → get name m.db_map ≡ o → IsManaged (ask name q m).1
        by_entry none e = rw (ask, e) h
        by_entry (some r) e =
            rw (ask, e)
              (record {
                default_runs = contains_insert name default_db_name _ m.db_map h.default_runs;
                distinct = insert-IsMap name _ m.db_map h.distinct;
                distinct_files = h.distinct_files;
                apart = AreApart-again m.db_map m.directory name _ r e h.apart;
              })
