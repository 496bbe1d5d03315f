-- ===== src/Worker/Sizes.antt =====
-- The numbers of an INFO reply.
use mini_db.Prelude.{
  ℕ, ◌+◌, ◌*◌, ◌/◌, ◌^◌, ◌≤◌, ◌<◌, ◌≡◌, refl, [], ◌∷◌, length, min, max, arith, false, lt→ltb, ◌==◌,
}
use mini_db.Bytes.{Bytes, as_u32}
use mini_db.Map.{Map}
use mini_db.Worker.{KeySizes, fold_key_sizes, info_packet, usize_max}

-- Each key's length lies between two numbers.
abbrev pub KeysBetween : ℕ → ℕ → Map Bytes → Type 0
KeysBetween lo hi [] = Unit {0}
KeysBetween lo hi ((k, v) ∷ m) = ((lo ≤ length k) × (length k ≤ hi)) × KeysBetween lo hi m

KeysBetween-mono :
    (lo lo' hi hi' : ℕ) (m : Map Bytes)
    → lo' ≤ lo
    → hi ≤ hi'
    → KeysBetween lo hi m
    → KeysBetween lo' hi' m
KeysBetween-mono lo lo' hi hi' [] a b h = tt
KeysBetween-mono lo lo' hi hi' ((k, v) ∷ m) a b h =
    (omega arith, KeysBetween-mono lo lo' hi hi' m a b h.1)

fold_le :
    (m : Map Bytes) (acc : KeySizes)
    → ((fold_key_sizes m acc).smallest ≤ acc.smallest)
      × (acc.largest ≤ (fold_key_sizes m acc).largest)
unfolding fold_key_sizes
fold_le [] acc = omega arith
fold_le ((k, v) ∷ m) acc = omega (
  arith,
  fold_le m (record {
    smallest = min acc.smallest (length k);
    largest = max acc.largest (length k);
    total = acc.total + length k;
  }),
)

fold_between :
    (m : Map Bytes) (acc : KeySizes)
    → KeysBetween (fold_key_sizes m acc).smallest (fold_key_sizes m acc).largest m
unfolding fold_key_sizes
fold_between [] acc = tt
fold_between ((k, v) ∷ m) acc =
    let acc' : KeySizes = record {
      smallest = min acc.smallest (length k);
      largest = max acc.largest (length k);
      total = acc.total + length k;
    } in
    (omega (arith, fold_le m acc'), fold_between m acc')

smallest-le-largest :
    (m : Map Bytes) (acc : KeySizes)
    → 0 < length m
    → (fold_key_sizes m acc).smallest ≤ (fold_key_sizes m acc).largest
unfolding fold_key_sizes
smallest-le-largest [] acc h = absurd (omega arith)
smallest-le-largest ((k, v) ∷ m) acc h = omega (
  arith,
  fold_le m (record {
    smallest = min acc.smallest (length k);
    largest = max acc.largest (length k);
    total = acc.total + length k;
  }),
)

-- With keys below `n` bytes, the fold's maximum stays below `n`, and its sum between the bounds.
fold_largest :
    (n : ℕ) (m : Map Bytes) (acc : KeySizes)
    → KeysBetween 0 n m
    → acc.largest ≤ n
    → (fold_key_sizes m acc).largest ≤ n
unfolding fold_key_sizes
fold_largest n [] acc h a = a
fold_largest n ((k, v) ∷ m) acc h a = fold_largest n m _ h.1 (omega arith)

fold_total :
    (lo hi : ℕ) (m : Map Bytes) (acc : KeySizes)
    → KeysBetween lo hi m
    → (acc.total + length m * lo ≤ (fold_key_sizes m acc).total)
      × ((fold_key_sizes m acc).total ≤ acc.total + length m * hi)
unfolding fold_key_sizes
fold_total lo hi [] acc h = omega arith
fold_total lo hi ((k, v) ∷ m) acc h = grind (
  arith,
  h.0,
  fold_total lo hi m
      (record {
        smallest = min acc.smallest (length k);
        largest = max acc.largest (length k);
        total = acc.total + length k;
      })
      h.1,
)

mean_between :
    (n lo hi total : ℕ)
    → 0 < n
    → n * lo ≤ total
    → total ≤ n * hi
    → (lo ≤ total / n) × (total / n ≤ hi)
mean_between n lo hi total pos low high = grind arith

-- An index that is not empty, of fewer than 2^32 keys of at most `n` bytes, where `n` fits a u32:
-- the packet counts the keys, every key's length lies between its minimum and its maximum, and its
-- mean lies between them too.
pub info_packet_bounds :
    (n log_size : ℕ) (m : Map Bytes)
    → n < 2 ^ 32
    → 0 < length m
    → length m < 2 ^ 32
    → KeysBetween 0 n m
    → let p = info_packet log_size m in
      (p.key_count ≡ length m)
      × KeysBetween p.min_key_size p.max_key_size m
      × (p.min_key_size ≤ p.mean_key_size)
      × (p.mean_key_size ≤ p.max_key_size)
unfolding info_packet
info_packet_bounds n log_size m fits some_keys few h =
    let start : KeySizes = record { smallest = usize_max; largest = 0; total = 0 } in
    let sizes = fold_key_sizes m start in
    let between = fold_between m start in
    let largest = fold_largest n m start h (omega arith) in
    let totals = fold_total sizes.smallest sizes.largest m start between in
    let ordered = smallest-le-largest m start some_keys in
    let count : as_u32 (length m) ≡ length m = omega arith in
    let lowest : as_u32 sizes.smallest ≡ sizes.smallest = omega arith in
    let highest : as_u32 sizes.largest ≡ sizes.largest = omega arith in
    let mean =
      mean_between (length m) sizes.smallest sizes.largest sizes.total some_keys (omega arith)
        (omega arith) in
    let average : as_u32 (sizes.total / length m) ≡ sizes.total / length m = omega arith in
    let nonzero : (length m == 0) ≡ false = ground arith in
    rw (count, lt→ltb 0 (length m) some_keys, lowest, highest, nonzero, average)
      (refl, between, mean.0, mean.1)
