-- ===== src/Bench/Shares.antt =====
-- The shares of a benchmark's clients, and the slices of its key space.
use mini_db.Prelude.{
  ℕ, zero, suc, ◌+◌, ◌*◌, ◌/◌, ◌%◌, ◌≤◌, ◌<◌, ◌≡◌, refl, ap, ◌∙◌, some, length, take, drop, le→leb,
  min, length-take, length-drop, arith,
}
use mini_db.Bytes.{Bytes}
use mini_db.Bench.{share_workload, KeySpace, get_key, get_value, len, slice_at}

-- The sum of the shares of the clients below `n`.
abbrev pub shares : ℕ → ℕ → ℕ → ℕ
shares total clients zero = 0
shares total clients (suc n) = shares total clients n + share_workload total clients n

shares_below :
    (total clients n : ℕ) → shares total clients n ≡ n * (total / clients) + min n (total % clients)
unfolding share_workload
shares_below total clients zero = omega arith
shares_below total clients (suc n) = ground (arith, shares_below total clients n)

-- The shares of all clients, of which there are some, add up to the work.
pub shares-share_workload : (total clients : ℕ) → 0 < clients → shares total clients clients ≡ total
shares-share_workload total clients pos = shares_below total clients clients ∙ grind arith

pub slice_some :
    (bytes : Bytes) (start size : ℕ)
    → start + size ≤ length bytes
    → slice_at bytes start size ≡ some (take size (drop start bytes))
unfolding slice_at
slice_some bytes start size h = rw (slice_at, le→leb (start + size) (length bytes) h) refl

slice_fits :
    (bytes : Bytes) (start size : ℕ)
    → start + size ≤ length bytes
    → (b : Bytes) × (slice_at bytes start size ≡ some b) × (length b ≡ size)
slice_fits bytes start size h = (
  take size (drop start bytes),
  slice_some bytes start size h,
  omega (arith, length-take size (drop start bytes), length-drop start bytes),
)

pub row_fits : (i n size : ℕ) → i < n → i * size + size ≤ n * size
row_fits i n size h = grind arith

pub rows : (n size : ℕ) → 0 < size → n * size / size ≡ n
rows n size pos = grind arith

-- With keys and values of some bytes each, and one value for every key, every index below `len`
-- gives a key and a value of the sizes chosen, without a panic.
pub get_key-len :
    (space : KeySpace) (i n : ℕ)
    → 0 < space.key_size
    → length space.keys ≡ n * space.key_size
    → length space.values ≡ n * space.value_size
    → i < len space
    → ((k : Bytes) × (get_key space i ≡ some k) × (length k ≡ space.key_size))
      × ((v : Bytes) × (get_value space i ≡ some v) × (length v ≡ space.value_size))
unfolding len get_key get_value
get_key-len space i n pos ks vs h =
    let below : i < n =
      omega (arith, h, rows n space.key_size pos, ap (λ l. l / space.key_size) ks) in
    (
      slice_fits space.keys (i * space.key_size) space.key_size
          (omega (arith, ks, row_fits i n space.key_size below)),
      slice_fits space.values (i * space.value_size) space.value_size
          (omega (arith, vs, row_fits i n space.value_size below)),
    )
