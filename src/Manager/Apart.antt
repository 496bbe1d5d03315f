-- ===== src/Manager/Apart.antt =====
-- The files that the workers have open, and those in the directory: no file is among both.
use mini_db.Prelude.{
  ◌≡◌, refl, sym, ap, ◌∙◌, true, false, inl, inr, Bool-cases, none, some, arith, if◌then◌else◌,
}
use mathlib.Core.Path.{subst}
use mini_db.Bytes.{Bytes, bytes_eq, bytes_eq_iff, bytes_eq_refl}
use mini_db.Crc.{Crc32}
use mini_db.Storage.{Storage}
use mini_db.Map.{Map, get, insert, remove, contains_key, get-insert, get-remove}
use mini_db.Manager.Paths.{log_path, log_path_inj}
use mini_db.Manager.{Running}

module _ ⦃crc : Crc32⦄ ⦃disk : Storage⦄ where
  open disk use {File}

  -- No file that a worker has open lies in the directory as well, where it could be opened again.
  abbrev pub AreApart : Map Running → Map File → Type 0
  AreApart dbs files =
      (name : Bytes) → contains_key name dbs ≡ true → get (log_path name) files ≡ none

  pub contains-insert :
      (name k : Bytes) (r : Running) (dbs : Map Running)
      → contains_key k (insert name r dbs) ≡ (if bytes_eq name k then true else contains_key k dbs)
  unfolding contains_key
  contains-insert name k r dbs = rw (contains_key, get-insert name k r dbs) (ground arith)

  pub contains-remove :
      (name k : Bytes) (dbs : Map Running)
      → contains_key k (remove name dbs) ≡ (if bytes_eq name k then false else contains_key k dbs)
  unfolding contains_key
  contains-remove name k dbs = rw (contains_key, get-remove name k dbs) (ground arith)

  pub contains_insert :
      (name k : Bytes) (r : Running) (dbs : Map Running)
      → contains_key k dbs ≡ true
      → contains_key k (insert name r dbs) ≡ true
  contains_insert name k r dbs h = ground (arith, contains-insert name k r dbs)

  path_eq : (a b : Bytes) → bytes_eq (log_path a) (log_path b) ≡ true → bytes_eq a b ≡ true
  path_eq a b h =
      (bytes_eq_iff a b).1 (log_path_inj a b ((bytes_eq_iff (log_path a) (log_path b)).0 h))

  module _ (dbs : Map Running) (files : Map File) (name : Bytes) where
    -- A database comes in, and its file leaves the directory.
    pub AreApart-insert :
        (r : Running)
        → AreApart dbs files
        → AreApart (insert name r dbs) (remove (log_path name) files)
    AreApart-insert r h k c = ground (
      arith,
      contains-insert name k r dbs,
      get-remove (log_path name) (log_path k) files,
      h k,
      bytes_eq_iff name k,
      bytes_eq_refl (log_path k),
      bytes_eq_iff (log_path name) (log_path k),
    )

    -- A file comes into the directory whose database does not run.
    pub AreApart-file :
        (f : File)
        → contains_key name dbs ≡ false
        → AreApart dbs files
        → AreApart dbs (insert (log_path name) f files)
    AreApart-file f absent h k c =
        get-insert (log_path name) (log_path k) f files
        ∙ (elim (Bool-cases (bytes_eq (log_path name) (log_path k))) [
          | inl same ↦
              let e : name ≡ k = (bytes_eq_iff name k).0 (path_eq name k same) in
              let clash : false ≡ true = sym absent ∙ ap (λ n. contains_key n dbs) e ∙ c in
              absurd (cc)
          | inr other ↦ rw other (h k c)
        ])

    pub AreApart-remove : AreApart dbs files → AreApart (remove name dbs) files
    AreApart-remove h k c = ground (arith, contains-remove name k dbs, h k)

    -- The worker of a running database is replaced.
    pub AreApart-again :
        (r old : Running)
        → get name dbs ≡ some old
        → AreApart dbs files
        → AreApart (insert name r dbs) files
    unfolding contains_key
    AreApart-again r old known h k c = elim (Bool-cases (bytes_eq name k)) [
      | inl same ↦
          let e : name ≡ k = (bytes_eq_iff name k).0 same in
          subst (λ n. get (log_path n) files ≡ none) e (h name (rw (contains_key, known) refl))
      | inr other ↦ h k (sym (rw (contains-insert name k r dbs, other) refl) ∙ c)
    ]

    pub contains_removed : contains_key name (remove name dbs) ≡ false
    contains_removed = ground (arith, contains-remove name name dbs, bytes_eq_refl name)
