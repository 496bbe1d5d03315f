-- ===== src/Map/Keys.antt =====
-- Maps whose keys are distinct, as those of a hash map are.
use mini_db.Prelude.{
  ◌≡◌, refl, sym, ap, ◌∙◌, Bool-cases, inl, inr, none, some, [], ◌∷◌, arith, if◌then◌else◌,
}
use mini_db.Bytes.{Bytes, bytes_eq, bytes_eq_iff, bytes_eq_refl}
use mini_db.Map.{Map, get, insert, remove, get-insert, get-remove}

module _ {ℓ} {V : Type ℓ} where
  abbrev pub IsMap : Map V → Type ℓ
  IsMap [] = Unit
  IsMap ((k, v) ∷ m) = (get k m ≡ none) × IsMap m

  pub insert-IsMap : (k : Bytes) (v : V) (m : Map V) → IsMap m → IsMap (insert k v m)
  unfolding insert get
  insert-IsMap k v [] h = (refl, tt)
  insert-IsMap k v ((j, w) ∷ m) h =
      ground (arith, bytes_eq_iff k j, bytes_eq_iff j k, insert-IsMap k v m h.1, get-insert k j v m)

  pub remove-IsMap : (k : Bytes) (m : Map V) → IsMap m → IsMap (remove k m)
  unfolding remove
  remove-IsMap k [] h = tt
  remove-IsMap k ((j, w) ∷ m) h = ground (arith, remove-IsMap k m h.1, get-remove k j m)

  -- To take out a key that is not there changes nothing.
  pub remove_absent : (k : Bytes) (m : Map V) → get k m ≡ none → remove k m ≡ m
  unfolding remove get
  remove_absent k [] h = refl
  remove_absent k ((j, w) ∷ m) h = ground (arith, remove_absent k m)

  -- What holds of every key and its value holds of every entry.
  abbrev pub Entries {κ} : (Bytes → V → Type κ) → Map V → Type κ
  Entries P [] = Unit
  Entries P ((k, v) ∷ m) = P k v × Entries P m

  pub Entries-get {κ} :
      (P : Bytes → V → Type κ) (m : Map V)
      → IsMap m
      → ((k : Bytes) (v : V) → get k m ≡ some v → P k v)
      → Entries P m
  unfolding get
  Entries-get P [] d h = tt
  Entries-get P ((k, v) ∷ m) d h = (
    h k v (rw (bytes_eq_refl k) refl),
    Entries-get P m d.1 λ j w found. h j w (elsewhere j w found),
  )
    where
      elsewhere :
          (j : Bytes) (w : V)
          → get j m ≡ some w
          → (if bytes_eq k j then some v else get j m) ≡ some w
      elsewhere j w found = elim (Bool-cases (bytes_eq k j)) [
        | inl same ↦
            let e : k ≡ j = (bytes_eq_iff k j).0 same in
            let clash : none ≡ some w = sym d.0 ∙ ap (λ i. get i m) e ∙ found in absurd (cc)
        | inr other ↦ rw other found
      ]

  pub get-head : (k : Bytes) (v : V) (m : Map V) → get k ((k, v) ∷ m) ≡ some v
  unfolding get
  get-head k v m = rw (bytes_eq_refl k) refl

  pub remove-head : (k : Bytes) (v : V) (m : Map V) → get k m ≡ none → remove k ((k, v) ∷ m) ≡ m
  unfolding remove
  remove-head k v m h = rw (bytes_eq_refl k) (remove_absent k m h)
