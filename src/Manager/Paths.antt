-- ===== src/Manager/Paths.antt =====
-- Names of log files: `name.log`, and `Path::extension` and `Path::file_stem` on a file's name. A
-- directory lists neither `.` nor `..`.
use mini_db.Prelude.{
  Bool-cases, inl, inr, ◌≡◌, ◌≢◌, refl, ap, sym, ◌∙◌, Bool, true, false, Option, none, some, [],
  ◌∷◌, ◌++◌, ◌==◌, if◌then◌else◌, arith,
}
use mini_db.Prelude.Text.{codes}
use mini_db.Bytes.{Bytes, is_empty, bytes_eq, bytes_eq_iff}

abbrev pub dot_log : Bytes
dot_log = codes ".log"

-- `format!("{name}.log")`
abbrev pub log_path : Bytes → Bytes
log_path name = name ++ dot_log

-- What stands before and behind the last dot.
pub split_last_dot : Bytes → Option (Bytes × Bytes)
split_last_dot [] = none
split_last_dot (b ∷ bs) = elim (split_last_dot bs) [
  | some (stem, ext) ↦ some (b ∷ stem, ext)
  | none ↦ if b == 46 then some ([], bs) else none
]

-- `file_stem` and `extension`: a name that starts with its only dot has no extension.
unfoldable pub file_parts : Bytes → Bytes × Option Bytes
unfolding split_last_dot
file_parts file = elim (split_last_dot file) [
  | none ↦ (file, none)
  | some (stem, ext) ↦ if is_empty stem then (file, none) else (stem, some ext)
]

-- `path.extension() == Some("log")`
unfoldable pub is_log : Option Bytes → Bool
is_log none = false
is_log (some ext) = bytes_eq ext (codes "log")

split_last_dot-log_path : (name : Bytes) → split_last_dot (log_path name) ≡ some (name, codes "log")
unfolding split_last_dot
split_last_dot-log_path [] = refl
split_last_dot-log_path (b ∷ bs) = rw (split_last_dot-log_path bs) refl

-- The name of a database is read back from its log's path.
pub file_parts-log_path :
    (name : Bytes) → name ≢ [] → file_parts (log_path name) ≡ (name, some (codes "log"))
unfolding file_parts
file_parts-log_path [] h = absurd (h refl)
file_parts-log_path (b ∷ bs) h = rw (split_last_dot-log_path (b ∷ bs)) refl

abbrev stem_of : Option (Bytes × Bytes) → Bytes
stem_of none = []
stem_of (some p) = p.0

pub log_path_inj : (a b : Bytes) → log_path a ≡ log_path b → a ≡ b
log_path_inj a b e =
    ap stem_of (sym (split_last_dot-log_path a) ∙ ap split_last_dot e ∙ split_last_dot-log_path b)

abbrev joined : Bytes → Option (Bytes × Bytes) → Bytes
joined file none = file
joined file (some (stem, ext)) = stem ++ 46 ∷ ext

split_last_dot_inv : (file : Bytes) → joined file (split_last_dot file) ≡ file
unfolding split_last_dot
split_last_dot_inv [] = refl
split_last_dot_inv (b ∷ bs) = by_rest (split_last_dot_inv bs) (split_last_dot bs) refl
  where
    by_rest :
        joined bs (split_last_dot bs) ≡ bs
        → (o : Option (Bytes × Bytes)) → split_last_dot bs ≡ o
        → joined (b ∷ bs) (split_last_dot (b ∷ bs)) ≡ b ∷ bs
    by_rest ih (some (s, e)) found =
        let rest : s ++ 46 ∷ e ≡ bs = ap (joined bs) (sym found) ∙ ih in
        rw found (ap (λ t. b ∷ t) rest)
    by_rest ih none found = rw found (elim (Bool-cases (b == 46)) [
      | inl dot ↦ rw dot (ap (λ c. c ∷ bs) (sym (ground arith)))
      | inr other ↦ rw other refl
    ])

-- A file with the extension of a log is the log of its stem.
pub file_parts_inv :
    (file : Bytes) → is_log (file_parts file).1 ≡ true → log_path (file_parts file).0 ≡ file
unfolding file_parts is_log
file_parts_inv file log = by_split (split_last_dot file) refl
  where
    by_split :
        (o : Option (Bytes × Bytes)) → split_last_dot file ≡ o → log_path (file_parts file).0 ≡ file
    by_split none e = let clash : false ≡ true = rw (file_parts, e) at log in absurd (cc)
    by_split (some (stem, ext)) e = elim (Bool-cases (is_empty stem)) [
      | inl empty ↦ let clash : false ≡ true = rw (file_parts, e, empty) at log in absurd (cc)
      | inr there ↦
          let same : bytes_eq ext (codes "log") ≡ true = rw (file_parts, e, there) at log in
          rw (file_parts, e, there)
            (ap (λ x. stem ++ 46 ∷ x) (sym ((bytes_eq_iff ext (codes "log")).0 same))
              ∙ ap (joined file) (sym e)
              ∙ split_last_dot_inv file)
    ]
