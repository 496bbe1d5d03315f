-- ===== src/Manager/Refines.antt =====
-- The manager against its specification, on a disk that works.
use mini_db.Prelude.{
  ◌≡◌, refl, sym, ap, ◌∙◌, Bool, true, false, inl, inr, Bool-cases, Option, none, some, List, [],
  ◌++◌, max, All, All-append,
}
use mathlib.Core.Path.{subst}
use mini_db.Bytes.{Bytes, bytes_eq, bytes_eq_iff}
use mini_db.Result.{Result, ok}
use mini_db.Crc.{Crc32}
use mini_db.Storage.{Storage, CanRecover, CanWrite}
use mini_db.Map.{Map, get, insert, remove, contains_key, get-insert, get-remove, get-nil}
use mini_db.Map.Keys.{insert-IsMap, remove-IsMap}
use mini_db.Prelude.Text.{codes}
use mini_db.Protocol.{Response, okay, db_not_found, db_already_exists}
use mini_db.Wal.History.{Write, IsLoggable, encode_all}
use mini_db.Worker.{Query, handle_query}
use mini_db.Worker.Spec.{logged}
use mini_db.Worker.Refines.{InStep, handle_query-refines}
use mini_db.Manager.Directory.{Folder, CanManage}
use mini_db.Manager.Paths.{log_path}
use mini_db.Manager.{
  default_db_name, Running, DbManager, spawn_db_worker, create_db, drop_db, get_db_handle, ask,
  close,
}
use mini_db.Manager.Spec.{
  Histories, put, IsStem, Command, create, drop, query, IsPossible, perform, reply_to, after,
  reply_create, reply_drop, reply_query, after_create, after_drop, after_query, Stands, Represents,
}
use mini_db.Manager.Starts.{start_db-opened}

module _ ⦃crc : Crc32⦄ ⦃disk : Storage⦄ where
  -- Putting a history and a worker under one name, or taking both away.
  pub Stands-insert :
      (h : Histories) (dbs : Map Running) (name : Bytes) (ws : List Write) (r : Running)
      → IsStem name
      → All IsLoggable ws
      → InStep ws r.worker
      → ((k : Bytes) → Stands k (h k) (get k dbs))
      → (k : Bytes) → Stands k (put name (some ws) h k) (get k (insert name r dbs))
  Stands-insert h dbs name ws r n l i stands k =
      subst (Stands k (put name (some ws) h k)) (sym (get-insert name k r dbs))
        (elim (Bool-cases (bytes_eq name k)) [
          | inl same ↦
              let e : name ≡ k = (bytes_eq_iff name k).0 same in
              rw same (r, refl, subst IsStem e n, l, i)
          | inr other ↦ rw other (stands k)
        ])

  pub Stands-remove :
      (h : Histories) (dbs : Map Running) (name : Bytes)
      → ((k : Bytes) → Stands k (h k) (get k dbs))
      → (k : Bytes) → Stands k (put name none h k) (get k (remove name dbs))
  Stands-remove h dbs name stands k =
      subst (Stands k (put name none h k)) (sym (get-remove name k dbs))
        (elim (Bool-cases (bytes_eq name k)) [
          | inl same ↦ rw same refl
          | inr other ↦ rw other (stands k)
        ])

  module _ ⦃folder : Folder disk⦄ where
    pub create_db-free :
        (name : Bytes) (m : DbManager) (dbs : Map Running)
        → get name m.db_map ≡ none
        → (spawn_db_worker name m.fsync_interval m.db_map m.directory).0 ≡ ok dbs
        → create_db name m ≡ (
          ok (okay (codes "Database created successfully")),
          record m {
            db_map = dbs;
            directory = (spawn_db_worker name m.fsync_interval m.db_map m.directory).1;
          },
        )
    unfolding create_db contains_key
    create_db-free name m dbs free spawned = rw (create_db, contains_key, free, spawned) refl

    create_db-taken :
        (name : Bytes) (m : DbManager) (r : Running)
        → get name m.db_map ≡ some r
        → create_db name m ≡ (ok (db_already_exists (codes "Database already exists")), m)
    unfolding create_db contains_key
    create_db-taken name m r taken = rw (create_db, contains_key, taken) refl

    drop_db-known :
        (name : Bytes) (m : DbManager) (r : Running)
        → bytes_eq name default_db_name ≡ false
        → get name m.db_map ≡ some r
        → folder.remove_file (log_path name) (close r) ≡ true
        → drop_db name m ≡ (
          ok (okay (codes "Database dropped successfully")),
          record m { db_map = remove name m.db_map },
        )
    unfolding drop_db
    drop_db-known name m r other known removed = rw (drop_db, other, known, removed) refl

    query-known :
        (name : Bytes) (q : Query) (m : DbManager) (r : Running)
        → get name m.db_map ≡ some r
        → let step = handle_query (max r.worker.fsync_interval 1) q r.writes_executed r.worker in
          perform (query name q) m ≡ (
            step.0,
            record m {
              db_map = insert name (record { worker = step.2; writes_executed = step.1 }) m.db_map;
            },
          )
    unfolding perform get_db_handle ask
    query-known name q m r known = rw (perform, get_db_handle, known, ask, known) refl

    query-unknown :
        (name : Bytes) (q : Query) (m : DbManager)
        → get name m.db_map ≡ none
        → perform (query name q) m ≡ (ok (db_not_found (codes "Database not found")), m)
    unfolding perform get_db_handle
    query-unknown name q m unknown = rw (perform, get_db_handle, unknown) refl

    abbrev Refined : Histories → Result Response → Result Response × DbManager → Type 0
    Refined h reply outcome = (outcome.0 ≡ reply) × Represents h outcome.1

  module _ ⦃folder : Folder disk⦄ (recovers : CanRecover disk)
      (manages : CanManage disk folder) where
    create-refines :
        (name : Bytes) (h : Histories) (m : DbManager) (o : Option (List Write))
        → h name ≡ o
        → IsStem name
        → Represents h m
        → Refined (after_create name h o) (reply_create o) (create_db name m)
    unfolding spawn_db_worker encode_all remove
    create-refines name h m none e n rep =
        let free : get name m.db_map ≡ none =
          subst (λ o. Stands name o (get name m.db_map)) e (rep.stands name) in
        let (f, opened) = manages.open_works (log_path name) none in
        let ((r, started, instep), left) =
          start_db-opened recovers m.fsync_interval (log_path name) name m.db_map m.directory none f
            [] (ap (get (log_path name)) rep.no_other_files ∙ get-nil (log_path name)) opened tt
            (folder.open-new (log_path name) f opened) in
        rw (create_db-free name m (insert name r m.db_map) free started) (
          refl,
          record {
            stands = Stands-insert h m.db_map name [] r n tt instep rep.stands;
            distinct = insert-IsMap name r m.db_map rep.distinct;
            no_other_files = left ∙ ap (remove (log_path name)) rep.no_other_files;
          },
        )
    create-refines name h m (some ws) e n rep =
        let (r, taken, _, _, _) =
          subst (λ o. Stands name o (get name m.db_map)) e (rep.stands name) in
        rw (create_db-taken name m r taken) (refl, rep)

    drop-refines :
        (name : Bytes) (h : Histories) (m : DbManager) (b : Bool) (o : Option (List Write))
        → bytes_eq name default_db_name ≡ b
        → h name ≡ o
        → Represents h m
        → Refined (after_drop name h b o) (reply_drop name b o) (drop_db name m)
    unfolding drop_db
    drop-refines name h m true o default e rep = rw (drop_db, default) (refl, rep)
    drop-refines name h m false none other e rep =
        let unknown : get name m.db_map ≡ none =
          subst (λ o. Stands name o (get name m.db_map)) e (rep.stands name) in
        rw (drop_db, other, unknown) (refl, rep)
    drop-refines name h m false (some ws) other e rep =
        let (r, known, _, _, _) =
          subst (λ o. Stands name o (get name m.db_map)) e (rep.stands name) in
        rw (drop_db-known name m r other known (manages.remove_works (log_path name) (close r))) (
          refl,
          record {
            stands = Stands-remove h m.db_map name rep.stands;
            distinct = remove-IsMap name m.db_map rep.distinct;
            no_other_files = rep.no_other_files;
          },
        )

    module _ (writes : CanWrite disk) where
      query-refines :
          (name : Bytes) (q : Query) (h : Histories) (m : DbManager) (o : Option (List Write))
          → h name ≡ o
          → All IsLoggable (logged q)
          → Represents h m
          → Refined (after_query name q h o) (reply_query q o) (perform (query name q) m)
      query-refines name q h m none e l rep =
          let unknown : get name m.db_map ≡ none =
            subst (λ o. Stands name o (get name m.db_map)) e (rep.stands name) in
          rw (query-unknown name q m unknown) (refl, rep)
      query-refines name q h m (some ws) e l rep =
          let (r, known, n, lw, instep) =
            subst (λ o. Stands name o (get name m.db_map)) e (rep.stands name) in
          let (reply, instep') =
            handle_query-refines writes recovers.sync_all_works (max r.worker.fsync_interval 1)
              r.writes_executed ws r.worker q l instep in
          rw (query-known name q m r known) (
            reply,
            record {
              stands =
                  Stands-insert h m.db_map name (ws ++ logged q) _ n
                    (All-append IsLoggable ws (logged q) lw l) instep' rep.stands;
              distinct = insert-IsMap name _ m.db_map rep.distinct;
              no_other_files = rep.no_other_files;
            },
          )

      -- On a disk that works, and where the directory holds nothing but the logs of the databases: the
      -- manager answers a command, whose new name is not empty and UTF-8 and whose write is loggable,
      -- as the histories of its databases say, and afterwards runs the databases of the histories
      -- after the command. CREATE adds an empty history, DROP takes one away, but not the
      -- default one, and a query is answered by the history of its database, which it extends.
      pub perform-Represents :
          (c : Command) (h : Histories) (m : DbManager)
          → IsPossible c
          → Represents h m
          → ((perform c m).0 ≡ reply_to c h) × Represents (after c h) (perform c m).1
      unfolding perform
      perform-Represents (create name) h m n rep = create-refines name h m (h name) refl n rep
      perform-Represents (drop name) h m n rep =
          drop-refines name h m (bytes_eq name default_db_name) (h name) refl refl rep
      perform-Represents (query name q) h m l rep = query-refines name q h m (h name) refl l rep
