-- ===== src/Bench/Summary/Places.antt =====
-- Which sample of some has a rank, told by counting, and the place of it in the sorted samples.
use mini_db.Prelude.{
  ℕ, zero, suc, ◌+◌, ◌<◌, ◌≤◌, ◌≡◌, refl, some, List, [], ◌∷◌, length, get_elem?, All, arith, leb,
  ltb, if◌then◌else◌,
}
use mathlib.Core.Path.{subst}
use mathlib.Core.List.{Permᴰ}
use mini_db.Prelude.Perms.{sum_by, sum_by-perm}
use mini_db.Bench.Summary.{IsSorted}

-- Entries of a sorted list, by their places.
above : (x : ℕ) (xs : List ℕ) (i y : ℕ) → All (λ z. x ≤ z) xs → get_elem? xs i ≡ some y → x ≤ y
above x [] i y a e = cc
above x (z ∷ xs) zero y a e = ground (arith, a.0)
above x (z ∷ xs) (suc i) y a e = above x xs i y a.1 e

pub there : (xs : List ℕ) (i : ℕ) → i < length xs → (x : ℕ) × (get_elem? xs i ≡ some x)
there [] i h = absurd (omega arith)
there (x ∷ xs) zero h = (x, refl)
there (x ∷ xs) (suc i) h = there xs i (omega arith)

pub IsSorted-le :
    (xs : List ℕ) (i j x y : ℕ)
    → IsSorted xs
    → i ≤ j
    → get_elem? xs i ≡ some x
    → get_elem? xs j ≡ some y
    → x ≤ y
IsSorted-le [] i j x y s h a b = cc
IsSorted-le (z ∷ xs) zero zero x y s h a b = ground arith
IsSorted-le (z ∷ xs) zero (suc j) x y s h a b = ground (arith, above z xs j y s.0 b)
IsSorted-le (z ∷ xs) (suc i) zero x y s h a b = absurd (omega (arith, h))
IsSorted-le (z ∷ xs) (suc i) (suc j) x y s h a b = IsSorted-le xs i j x y s.1 (omega (arith, h)) a b

pub within : (xs : List ℕ) (i x : ℕ) → get_elem? xs i ≡ some x → i < length xs
within [] i x e = cc
within (y ∷ xs) zero x e = omega arith
within (y ∷ xs) (suc i) x e = omega (arith, within xs i x e)

pub All-places :
    (P : ℕ → Type 0) (xs : List ℕ) → ((i x : ℕ) → get_elem? xs i ≡ some x → P x) → All P xs
All-places P [] h = tt
All-places P (x ∷ xs) h = (h 0 x refl, All-places P xs (λ i y e. h (suc i) y e))

-- How many of some numbers are at most `v`, and how many are below it.
abbrev pub at_most : ℕ → List ℕ → ℕ
at_most v xs = sum_by (λ x. if leb x v then 1 else 0) xs

abbrev pub below : ℕ → List ℕ → ℕ
below v xs = sum_by (λ x. if ltb x v then 1 else 0) xs

-- `v` is the number of rank `k` among some, the ranks counted from 1 on, equal numbers apart.
pub record IsOfRank (k v : ℕ) (xs : List ℕ) : Type 0 where
  pub enough : k ≤ at_most v xs
  pub not_before : below v xs < k

none_below : (x : ℕ) (xs : List ℕ) → All (λ y. x ≤ y) xs → below x xs ≡ 0
none_below x [] a = refl
none_below x (y ∷ xs) a = ground (arith, a.0, none_below x xs a.1)

IsSorted-IsOfRank :
    (xs : List ℕ) (i v : ℕ) → IsSorted xs → get_elem? xs i ≡ some v → IsOfRank (i + 1) v xs
IsSorted-IsOfRank [] i v s e = cc
IsSorted-IsOfRank (x ∷ xs) zero v s e =
    let same : x ≡ v = cc in
    let none = none_below x xs s.0 in
    subst (λ v. IsOfRank 1 v (x ∷ xs)) same
      (record { enough = ground arith; not_before = ground (arith, none) })
IsSorted-IsOfRank (x ∷ xs) (suc i) v s e =
    let h = IsSorted-IsOfRank xs i v s.1 e in
    let low = above x xs i v s.0 e in
    record { enough = ground (arith, h.enough, low); not_before = ground (arith, h.not_before) }

-- Behind a sort, the samples' entry at a place has the rank that is one more.
pub IsOfRank-perm :
    {xs ys : List ℕ} (i k v : ℕ)
    → Permᴰ xs ys
    → IsSorted xs
    → get_elem? xs i ≡ some v
    → k ≡ i + 1
    → IsOfRank k v ys
IsOfRank-perm {xs} {ys} i k v p s e same =
    let h = IsSorted-IsOfRank xs i v s e in
    record {
      enough = omega (arith, h.enough, same, sum_by-perm (λ x. if leb x v then 1 else 0) p);
      not_before = omega (arith, h.not_before, same, sum_by-perm (λ x. if ltb x v then 1 else 0) p);
    }
