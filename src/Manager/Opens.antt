-- ===== src/Manager/Opens.antt =====
-- What `init` returns, whatever is in its directory and whatever the disk does.
use mini_db.Prelude.{ℕ, ◌≡◌, refl, sym, ap, ◌∙◌, true, ◌&&◌, inl, inr, Bool-cases, List, [], ◌∷◌}
use mathlib.Core.Path.{subst}
use mini_db.Bytes.{Bytes, bytes_eq_refl}
use mini_db.Result.{Result, ok, err, dir_failed}
use mini_db.Crc.{Crc32}
use mini_db.Storage.{Storage}
use mini_db.Map.{Map, get, contains_key}
use mini_db.Map.Keys.{IsMap, insert-IsMap, remove-IsMap}
use mini_db.Server.Names.{is_utf8}
use mini_db.Manager.Directory.{Folder}
use mini_db.Manager.Paths.{log_path, file_parts, is_log, file_parts_inv}
use mini_db.Manager.{
  default_db_name, Running, DbManager, start_db, spawn_db_worker, has_metadata, index_entry,
  index_entries, with_default, then_default, made, init, names,
}
use mini_db.Manager.Apart.{AreApart, AreApart-insert, contains-insert}
use mini_db.Manager.Keeps.{IsManaged, Outcome, started, not_opened, not_read, start_db-Outcome}

ok_inj : {A : Type 0} (a b : A) → ok a ≡ ok b → a ≡ b
ok_inj a b h = cc

module _ ⦃crc : Crc32⦄ ⦃disk : Storage⦄ where
  open disk use {File}

  record IsOpen (dbs : Map Running) (files : Map File) : Type 0 where
    pub distinct : IsMap dbs
    pub distinct_files : IsMap files
    pub apart : AreApart dbs files

  -- Where a step returns databases, these and the files left are well formed.
  abbrev Opened : Result (Map Running) × Map File → Type 0
  Opened (err e, files) = Unit
  Opened (ok dbs, files) = IsOpen dbs files

  module _ ⦃folder : Folder disk⦄ where
    open folder use {create_dir_all, read_dir, next_entry}

    outcome-Opened :
        (name : Bytes) (dbs : Map Running) (files : Map File) (o : Result (Map Running) × Map File)
        → IsOpen dbs files
        → Outcome (log_path name) name dbs files o
        → Opened o
    outcome-Opened name dbs files _ h (started r) = record {
      distinct = insert-IsMap name r dbs h.distinct;
      distinct_files = remove-IsMap (log_path name) files h.distinct_files;
      apart = AreApart-insert dbs files name r h.apart;
    }
    outcome-Opened name dbs files _ h (not_opened e) = tt
    outcome-Opened name dbs files _ h (not_read e f) = tt

    start_db-Opened :
        (interval : ℕ) (path name : Bytes) (dbs : Map Running) (files : Map File)
        → log_path name ≡ path
        → IsOpen dbs files
        → Opened (start_db interval path name dbs files)
    start_db-Opened interval path name dbs files e h =
        subst (λ p. Opened (start_db interval p name dbs files)) e
          (outcome-Opened name dbs files _ h
            (start_db-Outcome interval (log_path name) name dbs files))

    index_entry-Opened :
        (interval : ℕ) (entry : Bytes) (dbs : Map Running) (files : Map File)
        → IsOpen dbs files
        → Opened (index_entry interval entry dbs files)
    unfolding index_entry
    index_entry-Opened interval entry dbs files h =
        elim (Bool-cases (is_log (file_parts entry).1)) [
          | inr other ↦ rw (index_entry, other) h
          | inl log ↦ elim (Bool-cases (is_utf8 (file_parts entry).0)) [
            | inr bad ↦ rw (index_entry, log, bad) tt
            | inl utf8 ↦ elim (Bool-cases (has_metadata entry (get entry files))) [
              | inr fails ↦ rw (index_entry, log, utf8, fails) tt
              | inl there ↦
                  rw (index_entry, log, utf8, there)
                    (start_db-Opened interval entry (file_parts entry).0 dbs files
                      (file_parts_inv entry log) h)
            ]
          ]
        ]

    index_entries-Opened :
        (interval : ℕ) (entries : List Bytes) (dbs : Map Running) (files : Map File)
        → IsOpen dbs files
        → Opened (index_entries interval entries dbs files)
    unfolding index_entries
    index_entries-Opened interval [] dbs files h = elim (Bool-cases (next_entry [])) [
      | inl done ↦ rw (index_entries, done) h
      | inr fails ↦ rw (index_entries, fails) tt
    ]
    index_entries-Opened interval (entry ∷ entries) dbs files h =
        elim (Bool-cases (next_entry (entry ∷ entries))) [
          | inl listed ↦
              by_entry listed (index_entries-Opened interval entries)
                (index_entry interval entry dbs files) refl
                (index_entry-Opened interval entry dbs files h)
          | inr fails ↦ rw (index_entries, fails) tt
        ]
      where
        by_entry :
            next_entry (entry ∷ entries) ≡ true
            → ((dbs : Map Running) (files : Map File)
                → IsOpen dbs files
                → Opened (index_entries interval entries dbs files))
            → (o : Result (Map Running) × Map File) → index_entry interval entry dbs files ≡ o
            → Opened o
            → Opened (index_entries interval (entry ∷ entries) dbs files)
        by_entry listed rest (err e, files') found h' = rw (index_entries, listed, found) tt
        by_entry listed rest (ok dbs', files') found h' =
            rw (index_entries, listed, found)
              (subst (λ fs. Opened (index_entries interval entries dbs' fs))
                (sym (ap (λ p. p.1) found)) (rest dbs' files' h'))

    -- The same with the default database.
    abbrev Ready : Result (Map Running) × Map File → Type 0
    Ready (err e, files) = Unit
    Ready (ok dbs, files) = IsOpen dbs files × (contains_key default_db_name dbs ≡ true)

    outcome-Ready :
        (dbs : Map Running) (files : Map File) (o : Result (Map Running) × Map File)
        → IsOpen dbs files
        → Outcome (log_path default_db_name) default_db_name dbs files o
        → Ready o
    outcome-Ready dbs files _ h (started r) = (
      outcome-Opened default_db_name dbs files _ h (started r),
      contains-insert default_db_name default_db_name r dbs
          ∙ rw (bytes_eq_refl default_db_name) refl,
    )
    outcome-Ready dbs files _ h (not_opened e) = tt
    outcome-Ready dbs files _ h (not_read e f) = tt

    then_default-Ready :
        (interval : ℕ) (o : Result (Map Running) × Map File)
        → Opened o
        → Ready (then_default interval o)
    unfolding with_default spawn_db_worker
    then_default-Ready interval (err e, files) h = tt
    then_default-Ready interval (ok dbs, files) h =
        elim (Bool-cases (contains_key default_db_name dbs)) [
          | inl there ↦ rw (with_default, there) (h, there)
          | inr absent ↦
              rw (with_default, absent)
                (outcome-Ready dbs files _ h
                  (start_db-Outcome interval (log_path default_db_name) default_db_name dbs files))
        ]

    made-IsManaged :
        (interval queue : ℕ) (o : Result (Map Running) × Map File) (m : DbManager)
        → Ready o
        → (made interval queue o).0 ≡ ok m
        → IsManaged m
    made-IsManaged interval queue (err e, files) m h same = cc
    made-IsManaged interval queue (ok dbs, files) m (h, default) same =
        subst IsManaged (ok_inj _ m same) (record {
          default_runs = default;
          distinct = h.distinct;
          distinct_files = h.distinct_files;
          apart = h.apart;
        })

    -- On a directory whose files have distinct names, and whatever the disk does: where `init`
    -- returns a manager, its default database runs, it has one worker for a name at most, and none on
    -- a file that lies in the directory as well.
    pub init-IsManaged :
        (interval queue : ℕ) (files : Map File) (m : DbManager)
        → IsMap files
        → (init interval queue files).0 ≡ ok m
        → IsManaged m
    unfolding init contains_key
    init-IsManaged interval queue files m d h = elim (Bool-cases (create_dir_all && read_dir)) [
      | inr fails ↦ let clash : err dir_failed ≡ ok m = rw (init, fails) at h in absurd (cc)
      | inl works ↦
          made-IsManaged interval queue _ m
            (then_default-Ready interval _ (
              index_entries-Opened interval (names files) [] files (record {
                distinct = tt;
                distinct_files = d;
                apart = λ k c. absurd (nothing_runs k c);
              })))
            (rw (init, works) at h)
    ]
      where
        nothing_runs : (k : Bytes) → contains_key {V = Running} k [] ≡ true → ⊥
        nothing_runs k c = cc
