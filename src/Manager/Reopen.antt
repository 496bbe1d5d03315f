-- ===== src/Manager/Reopen.antt =====
-- The loop of `init` on the logs that the workers have closed.
use mini_db.Prelude.{
  ℕ, ◌≡◌, refl, sym, ap, ◌∙◌, true, false, inl, inr, Bool-cases, none, some, List, [], ◌∷◌, All,
}
use mathlib.Core.Path.{subst}
use mini_db.Prelude.Text.{codes}
use mini_db.Bytes.{Bytes, bytes_eq, bytes_eq_iff, bytes_eq_refl}
use mini_db.Result.{ok}
use mini_db.Crc.{Crc32}
use mini_db.Storage.{Storage, CanRecover, CanWrite}
use mini_db.Map.{Map, get, insert}
use mini_db.Map.Keys.{IsMap, Entries, insert-IsMap, get-head, remove-head}
use mini_db.Wal.History.{Write, IsLoggable, encode_all}
use mini_db.Wal.Synced.Fsync.{fsync-IsSynced}
use mini_db.Worker.Refines.{InStep}
use mini_db.Manager.Directory.{Folder, CanManage}
use mini_db.Manager.Paths.{log_path, file_parts-log_path, is_log, log_path_inj}
use mini_db.Manager.{Running, close, close_all, names, start_db, index_entry, index_entries}
use mini_db.Manager.Spec.{Histories, put, IsStem, Stands}
use mini_db.Manager.Starts.{start_db-opened}
use mini_db.Manager.Refines.{Stands-insert}

some_inj : {A : Type 0} (a b : A) → some a ≡ some b → a ≡ b
some_inj a b h = cc

module _ ⦃crc : Crc32⦄ ⦃disk : Storage⦄ where
  open disk use {File, contents}

  -- The path of a database that is not there is free, once all is closed.
  get-close_all :
      (name : Bytes) (dbs : Map Running)
      → get name dbs ≡ none
      → get (log_path name) (close_all dbs []) ≡ none
  unfolding get
  get-close_all name [] h = refl
  get-close_all name ((n, r) ∷ dbs) h = elim (Bool-cases (bytes_eq n name)) [
    | inl same ↦ let clash : some r ≡ none = rw same at h in absurd (cc)
    | inr other ↦ elim (Bool-cases (bytes_eq (log_path n) (log_path name))) [
      | inl paths ↦
          let e : n ≡ name =
            log_path_inj n name ((bytes_eq_iff (log_path n) (log_path name)).0 paths) in
          let clash : true ≡ false = sym ((bytes_eq_iff n name).1 e) ∙ other in absurd (cc)
      | inr apart ↦
          let h' : get name dbs ≡ none = rw other at h in rw apart (get-close_all name dbs h')
    ]
  ]

  -- The histories of the databases of a list, over others.
  abbrev pub over : Histories → Map Running → Histories → Histories
  over h [] g = g
  over h ((name, r) ∷ dbs) g = over h dbs (put name (h name) g)

  -- A database of `h`, in step.
  abbrev pub IsDb : Histories → Bytes → Running → Type 0
  IsDb h name r =
      (ws : List Write) × (h name ≡ some ws) × IsStem name × All IsLoggable ws × InStep ws r.worker

  module _ (writes : CanWrite disk) where
    -- A worker leaves the log of its writes.
    pub contents-close :
        (ws : List Write) (r : Running) → InStep ws r.worker → contents (close r) ≡ encode_all ws
    unfolding close
    contents-close ws r i =
        (fsync-IsSynced ws r.worker.wal (writes.flush_works r.worker.wal.file) i.synced).on_file

    module _ ⦃folder : Folder disk⦄ (recovers : CanRecover disk)
        (manages : CanManage disk folder) where
      index_entry-log_path :
          (interval : ℕ) (name : Bytes) (dbs : Map Running) (files : Map File) (f : File)
          → IsStem name
          → get (log_path name) files ≡ some f
          → index_entry interval (log_path name) dbs files
            ≡ start_db interval (log_path name) name dbs files
      unfolding index_entry is_log
      index_entry-log_path interval name dbs files f n found =
          rw
            (
              index_entry,
              file_parts-log_path name n.0,
              is_log,
              bytes_eq_refl (codes "log"),
              n.1,
              found,
              manages.metadata_works (log_path name) f,
            )
            refl

      -- What the loop of `init` makes of the closed logs of `dbs`, on top of the databases `acc`.
      abbrev pub Reopened : ℕ → Histories → Map Running → Histories → Map Running → Type 0
      Reopened interval h dbs g acc =
          (dbs' : Map Running) × (index_entries interval (names (close_all dbs [])) acc
              (close_all dbs [])
            ≡ (ok dbs', []))
          × IsMap dbs'
          × ((k : Bytes) → Stands k (over h dbs g k) (get k dbs'))

      step_entries :
          (interval : ℕ) (entry : Bytes) (entries : List Bytes) (acc dbs' : Map Running)
          (files files' : Map File)
          → (index_entry interval entry acc files).0 ≡ ok dbs'
          → (index_entry interval entry acc files).1 ≡ files'
          → index_entries interval (entry ∷ entries) acc files
            ≡ index_entries interval entries dbs' files'
      unfolding index_entries
      step_entries interval entry entries acc dbs' files files' e left =
          rw (index_entries, manages.entries_work (entry ∷ entries), e)
            (ap (index_entries interval entries dbs') left)

      no_entries :
          (interval : ℕ) (acc : Map Running) (files : Map File)
          → index_entries interval [] acc files ≡ (ok acc, files)
      unfolding index_entries
      no_entries interval acc files = rw (index_entries, manages.entries_work []) refl

      pub reopen :
          (interval : ℕ) (h : Histories) (dbs : Map Running) (g : Histories) (acc : Map Running)
          → IsMap dbs
          → Entries (IsDb h) dbs
          → IsMap acc
          → ((k : Bytes) → Stands k (g k) (get k acc))
          → Reopened interval h dbs g acc
      reopen interval h [] g acc d es da stands = (acc, no_entries interval acc [], da, stands)
      reopen interval h ((name, r) ∷ dbs) g acc d ((ws, e, n, l, i), es) da stands =
          let path = log_path name in
          let others = close_all dbs [] in
          let (f, opened) = manages.open_works path (some (close r)) in
          let found = get-head path (close r) others in
          let ((r', started, i'), left) =
            start_db-opened recovers interval path name acc ((path, close r) ∷ others)
              (some (close r)) f ws found opened l
              (folder.open-existing path (close r) f opened ∙ contents-close ws r i) in
          let same =
            index_entry-log_path interval name acc ((path, close r) ∷ others) (close r) n found in
          let (dbs', rest, d', stands') =
            reopen interval h dbs (put name (h name) g) (insert name r' acc) d.1 es
              (insert-IsMap name r' acc da)
              (subst (λ o. (k : Bytes) → Stands k (put name o g k) (get k (insert name r' acc)))
                (sym e) (Stands-insert g acc name ws r' n l i' stands)) in
          (
            dbs',
            step_entries interval path (names others) acc (insert name r' acc)
                  ((path, close r) ∷ others) others (ap (λ p. p.0) same ∙ started)
                  (ap (λ p. p.1) same
                    ∙ left
                    ∙ remove-head path (close r) others (get-close_all name dbs d.0))
                ∙ rest,
            d',
            stands',
          )
