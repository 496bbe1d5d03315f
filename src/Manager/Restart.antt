-- ===== src/Manager/Restart.antt =====
-- A shutdown and the next start: the logs that the workers have closed are opened again.
use mini_db.Prelude.{
  ℕ, ◌≡◌, refl, sym, ap, ◌∙◌, Bool, true, false, Option, none, some, List, [], ◌∷◌, if◌then◌else◌,
}
use mathlib.Core.Path.{subst}
use mini_db.Bytes.{Bytes, bytes_eq, bytes_eq_iff}
use mini_db.Result.{ok}
use mini_db.Crc.{Crc32}
use mini_db.Storage.{Storage, CanRecover, CanWrite}
use mini_db.Map.{Map, get, contains_key, get-nil}
use mini_db.Map.Keys.{Entries, Entries-get}
use mini_db.Wal.History.{Write}
use mini_db.Worker.Refines.{InStep}
use mini_db.Manager.Directory.{Folder, CanManage}
use mini_db.Manager.{
  default_db_name, Running, DbManager, close_all, names, index_entries, with_default, then_default,
  made, init, shutdown_all_workers,
}
use mini_db.Manager.Spec.{Histories, put, Stands, Represents}
use mini_db.Manager.Reopen.{over, IsDb, reopen}

some_inj : {A : Type 0} (a b : A) → some a ≡ some b → a ≡ b
some_inj a b h = cc

module _ ⦃crc : Crc32⦄ ⦃disk : Storage⦄ where
  open disk use {File, contents}

  module _ (writes : CanWrite disk) where
    module _ ⦃folder : Folder disk⦄ (recovers : CanRecover disk)
        (manages : CanManage disk folder) where
      -- Every history of `h` stands in the list of its databases.
      abbrev choose :
          Option Running → Option (List Write) → Option (List Write) → Option (List Write)
      choose none x y = x
      choose (some r) x y = y

      choose_put :
          (h : Histories) (name k : Bytes) (r : Running) (x : Option (List Write)) (b : Bool)
          (o : Option Running)
          → bytes_eq name k ≡ b
          → choose o (if b then h name else x) (h k) ≡ choose (if b then some r else o) x (h k)
      choose_put h name k r x true none e = ap h ((bytes_eq_iff name k).0 e)
      choose_put h name k r x true (some r') e = refl
      choose_put h name k r x false o e = refl

      over_all :
          (h : Histories) (dbs : Map Running) (g : Histories) (k : Bytes)
          → over h dbs g k ≡ choose (get k dbs) (g k) (h k)
      unfolding get
      over_all h [] g k = refl
      over_all h ((name, r) ∷ dbs) g k =
          over_all h dbs (put name (h name) g) k
          ∙ choose_put h name k r (g k) (bytes_eq name k) (get k dbs) refl

      -- The histories that the manager represents are those of the list of its databases.
      over-Stands :
          (h : Histories) (m : DbManager) (k : Bytes) (o : Option (List Write))
          → h k ≡ o
          → Stands k o (get k m.db_map)
          → over h m.db_map (λ k. none) k ≡ o
      over-Stands h m k none e absent = over_all h m.db_map (λ k. none) k ∙ rw absent refl
      over-Stands h m k (some ws) e (r, here, _, _, _) =
          over_all h m.db_map (λ k. none) k ∙ rw here e

      represented : (h : Histories) (m : DbManager) → Represents h m → Entries (IsDb h) m.db_map
      represented h m rep =
          Entries-get (IsDb h) m.db_map rep.distinct
            λ k r found. by_history k r found (h k) refl (rep.stands k)
        where
          by_history :
              (k : Bytes) (r : Running)
              → get k m.db_map ≡ some r
              → (o : Option (List Write)) → h k ≡ o
              → Stands k o (get k m.db_map)
              → IsDb h k r
          by_history k r found none e absent =
              let clash : none ≡ some r = sym absent ∙ found in absurd (cc)
          by_history k r found (some ws) e (r', here, n, l, i) =
              let same : some r' ≡ some r = sym here ∙ found in
              (ws, e, n, l, subst (λ (q : Running). InStep ws q.worker) (some_inj r' r same) i)

      with_default-known :
          (interval : ℕ) (dbs : Map Running) (files : Map File) (r : Running)
          → get default_db_name dbs ≡ some r
          → with_default interval dbs files ≡ (ok dbs, files)
      unfolding with_default contains_key
      with_default-known interval dbs files r e = rw (with_default, contains_key, e) refl

      init-indexed :
          (interval queue : ℕ) (files : Map File) (dbs : Map Running) (r : Running)
          → index_entries interval (names files) [] files ≡ (ok dbs, [])
          → get default_db_name dbs ≡ some r
          → init interval queue files ≡ (
            ok (record {
              fsync_interval = interval;
              max_queue_size = queue;
              db_map = dbs;
              directory = [];
            }),
            [],
          )
      unfolding init
      init-indexed interval queue files dbs r indexed default =
          rw (init, manages.works)
            (ap (λ p. made interval queue (then_default interval p)) indexed
              ∙ ap (made interval queue) (with_default-known interval dbs [] r default))

      -- On a disk that works: after the shutdown of a manager with a default database, whose directory
      -- holds no file but the logs of its databases, `init` on the directory starts a manager of the
      -- same histories and takes over all files.
      pub init-shutdown_all_workers :
          (interval queue : ℕ) (h : Histories) (m : DbManager) (ws : List Write)
          → h default_db_name ≡ some ws
          → Represents h m
          → (m' : DbManager) × (init interval queue (shutdown_all_workers m).directory
              ≡ (ok m', []))
            × Represents h m'
      unfolding shutdown_all_workers
      init-shutdown_all_workers interval queue h m ws e rep =
          let files = rep.no_other_files in
          let (dbs', indexed, d', stands) =
            reopen writes recovers manages interval h m.db_map (λ k. none) [] rep.distinct
              (represented h m rep) tt (λ k. get-nil k) in
          let same = λ (k : Bytes). over-Stands h m k (h k) refl (rep.stands k) in
          let stands' = λ (k : Bytes). subst (λ o. Stands k o (get k dbs')) (same k) (stands k) in
          let (r, default, _, _, _) =
            subst (λ o. Stands default_db_name o (get default_db_name dbs')) e
              (stands' default_db_name) in
          rw files (
            record {
              fsync_interval = interval;
              max_queue_size = queue;
              db_map = dbs';
              directory = [];
            },
            init-indexed interval queue (close_all m.db_map []) dbs' r indexed default,
            record { stands = stands'; distinct = d'; no_other_files = refl },
          )
