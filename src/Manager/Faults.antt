-- ===== src/Manager/Faults.antt =====
-- A DROP whose file cannot be removed: the database has left the map by then.
use mini_db.Prelude.{
  ◌≡◌, refl, sym, ap, ◌∙◌, false, inl, inr, Bool-cases, none, some, List, [], ◌∷◌, All,
}
use mathlib.Core.Path.{subst}
use mini_db.Prelude.Text.{codes}
use mini_db.Bytes.{Bytes, bytes_eq, bytes_eq_iff, bytes_eq_refl}
use mini_db.Result.{ok, err, remove_failed}
use mini_db.Crc.{Crc32}
use mini_db.Storage.{Storage, CanRecover, CanWrite}
use mini_db.Map.{get, insert, remove, get-remove}
use mini_db.Map.Keys.{get-head, remove-head, insert-IsMap, remove-IsMap}
use mini_db.Protocol.{okay}
use mini_db.Wal.History.{Write, IsLoggable}
use mini_db.Worker.Refines.{InStep}
use mini_db.Manager.Directory.{Folder}
use mini_db.Manager.Paths.{log_path}
use mini_db.Manager.{default_db_name, Running, DbManager, spawn_db_worker, drop_db, close}
use mini_db.Manager.Spec.{Histories, put, create, drop, perform, Stands, Represents}
use mini_db.Manager.Starts.{Started, start_db-opened}
use mini_db.Manager.Refines.{Stands-insert, Stands-remove, create_db-free}
use mini_db.Manager.Reopen.{contents-close}
use mini_db.Manager.Lifetime.{perform_all}

put_back :
    (h : Histories) (name k : Bytes) (ws : List Write)
    → h name ≡ some ws
    → put name (some ws) (put name none h) k ≡ h k
put_back h name k ws e = elim (Bool-cases (bytes_eq name k)) [
  | inl same ↦ rw same (sym e ∙ ap h ((bytes_eq_iff name k).0 same))
  | inr other ↦ rw other refl
]

module _ ⦃crc : Crc32⦄ ⦃disk : Storage⦄ ⦃folder : Folder disk⦄ where
  open disk use {File, contents}

  -- The manager after a DROP that could not remove the file.
  abbrev left_behind : Bytes → Running → DbManager → DbManager
  left_behind name r m = record m {
    db_map = remove name m.db_map;
    directory = (log_path name, close r) ∷ [];
  }

  drop_db-failed :
      (name : Bytes) (m : DbManager) (r : Running)
      → bytes_eq name default_db_name ≡ false
      → get name m.db_map ≡ some r
      → m.directory ≡ []
      → folder.remove_file (log_path name) (close r) ≡ false
      → drop_db name m ≡ (err remove_failed, left_behind name r m)
  unfolding drop_db insert
  drop_db-failed name m r other known empty kept = rw (drop_db, other, known, kept, empty) refl

  module _ (recovers : CanRecover disk) (writes : CanWrite disk) where
    -- The next CREATE of the name starts a worker on the old log.
    recreated :
        (name : Bytes) (m : DbManager) (ws : List Write) (r : Running) (f : File)
        → folder.open_file (log_path name) (some (close r)) ≡ some f
        → All IsLoggable ws
        → InStep ws r.worker
        → Started recovers name ws
            (remove name m.db_map)
            (spawn_db_worker name m.fsync_interval
              (remove name m.db_map)
              ((log_path name, close r) ∷ [])).0
          × ((spawn_db_worker name m.fsync_interval
                (remove name m.db_map)
                ((log_path name, close r) ∷ [])).1
              ≡ [])
    unfolding spawn_db_worker get
    recreated name m ws r f opened l i =
        let path = log_path name in
        let (started, left) =
          start_db-opened recovers m.fsync_interval path name (remove name m.db_map)
            ((path, close r) ∷ []) (some (close r)) f ws (get-head path (close r) []) opened l
            (folder.open-existing path (close r) f opened ∙ contents-close writes ws r i) in
        (started, left ∙ remove-head path (close r) [] refl)

    -- On a disk whose files can be written and recovered, where a database other than the default one
    -- runs with the writes `ws` and its log can be opened but not removed: DROP answers an error, and a CREATE of the same name afterwards
    -- answers that it has created the database, which has its old writes again.
    pub failed_drop_revives :
        (name : Bytes) (h : Histories) (m : DbManager) (ws : List Write)
        → bytes_eq name default_db_name ≡ false
        → h name ≡ some ws
        → ((f : File) → folder.remove_file (log_path name) f ≡ false)
        → ((f : File) → (g : File) × (folder.open_file (log_path name) (some f) ≡ some g))
        → Represents h m
        → ((perform_all (drop name ∷ create name ∷ []) m).0
            ≡ err remove_failed ∷ ok (okay (codes "Database created successfully")) ∷ [])
          × Represents h (perform_all (drop name ∷ create name ∷ []) m).1
    unfolding perform perform_all
    failed_drop_revives name h m ws other e kept opens rep =
        let (r, known, n, l, i) =
          subst (λ o. Stands name o (get name m.db_map)) e (rep.stands name) in
        let (f, opened) = opens (close r) in
        let ((r', started, i'), left) = recreated name m ws r f opened l i in
        let free : get name (remove name m.db_map) ≡ none =
          get-remove name name m.db_map ∙ rw (bytes_eq_refl name) refl in
        rw
          (
            perform_all,
            perform,
            drop_db-failed name m r other known rep.no_other_files (kept (close r)),
            create_db-free name (left_behind name r m) (insert name r' (remove name m.db_map)) free
                started,
          )
          (
            refl,
            record {
              stands = λ k.
                  subst (λ o. Stands k o (get k (insert name r' (remove name m.db_map))))
                    (put_back h name k ws e)
                    (Stands-insert (put name none h) (remove name m.db_map) name ws r' n l i'
                      (Stands-remove h m.db_map name rep.stands) k);
              distinct =
                  insert-IsMap name r' (remove name m.db_map)
                    (remove-IsMap name m.db_map rep.distinct);
              no_other_files = left;
            },
          )
