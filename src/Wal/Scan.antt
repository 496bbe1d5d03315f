-- ===== src/Wal/Scan.antt =====
-- The loop of `Wal::init` that reads a log file: entry after entry, until one is cut off, malformed
-- or fails its checksum. `panic` stands for a Rust index out of range.
pub mod Read
pub mod Replays
pub mod Stops
pub mod Sound
use mini_db.Prelude.{
  ℕ, zero, suc, ◌+◌, Bool, true, false, not, ◌&&◌, Option, none, some, [], ◌∷◌, length, take, drop,
  get_elem?, leb, ltb, ◌==◌, if◌then◌else◌, ◌-◌,
}
use mini_db.Bytes.{Bytes, from_le_bytes}
use mini_db.Map.{Map, insert, remove}
use mini_db.Crc.{Crc32}
use mini_db.Wal.{header_len, crc_len, op_set, op_delete, crc_hash}

-- A step of the loop's body: it goes on, breaks with a hasher, or panics.
pub data Scan {ℓ} (H : Type 0) (A : Type ℓ) : Type ℓ where
  next : A → Scan H A
  stop : H → Scan H A
  panic : Scan H A

infixl 5 ◌>>=◌ ◌>>◌
abbrev pub ◌>>=◌ {ℓ κ} :
    {H : Type 0} {A : Type ℓ} {B : Type κ} → Scan H A → (A → Scan H B) → Scan H B
next a >>= f = f a
stop h >>= f = stop h
panic >>= f = panic

abbrev pub ◌>>◌ {ℓ} : {H : Type 0} {B : Type ℓ} → Scan H (Unit {0}) → Scan H B → Scan H B
m >> k = m >>= λ _. k

module _ {H : Type 0} where
  -- `data[i]`
  pub index : Bytes → ℕ → Scan H ℕ
  index bytes i = elim (get_elem? bytes i) [ none ↦ panic | some b ↦ next b ]

  -- `&data[a..b]`
  pub slice : Bytes → ℕ → ℕ → Scan H Bytes
  slice bytes a b =
      if leb a b && leb b (length bytes) then next (take (b - a) (drop a bytes)) else panic

  -- `u32::from_le_bytes([data[i], data[i + 1], data[i + 2], data[i + 3]])`
  pub u32_at : Bytes → ℕ → Scan H ℕ
  unfolding index
  u32_at bytes i = do
    a ← index bytes i
    b ← index bytes (i + 1)
    c ← index bytes (i + 2)
    d ← index bytes (i + 3)
    next (from_le_bytes a b c d)

  abbrev pub stop_if : Bool → H → Scan H (Unit {0})
  stop_if true h = stop h
  stop_if false h = next tt

-- `match op { OP_SET => insert, OP_DELETE => remove, _ => break }`
pub update_index : ℕ → Bytes → Bytes → Map Bytes → Option (Map Bytes)
update_index op key value map_index =
    if op == op_set
    then some (insert key value map_index)
    else if op == op_delete
    then some (remove key map_index)
    else none

module _ ⦃crc : Crc32⦄ where
  open crc use {Hasher}

  pub record Entry : Type 0 where
    pub op : ℕ
    pub key : Bytes
    pub value : Bytes
    pub total_len : ℕ
    pub hasher : Hasher

  -- The body of the loop, up to the update of the index.
  pub read_entry : Hasher → Bytes → ℕ → Scan Hasher Entry
  unfolding index u32_at slice
  read_entry hasher bytes offset = do
    op ← index bytes offset
    stop_if (not (op == op_set) && not (op == op_delete)) hasher
    klen ← u32_at bytes (offset + 1)
    vlen ← u32_at bytes (offset + 5)
    stop_if (klen == 0) hasher
    stop_if (op == op_delete && not (vlen == 0)) hasher
    let total_len = header_len + klen + vlen + crc_len
    stop_if (ltb (length bytes) (offset + total_len)) hasher
    let key_start = offset + header_len
    let value_start = key_start + klen
    let crc_start = value_start + vlen
    stored_crc ← u32_at bytes crc_start
    key ← slice bytes key_start value_start
    value ← slice bytes value_start crc_start
    let (computed_crc, h) = crc_hash hasher op klen vlen key value
    stop_if (not (stored_crc == computed_crc)) h
    next (record { op = op; key = key; value = value; total_len = total_len; hasher = h })

  pub record Recovered : Type 0 where
    pub offset : ℕ
    pub count : ℕ
    pub hasher : Hasher
    pub map_index : Map Bytes

  -- How the loop ends. `out_of_fuel` is no behaviour of the program.
  pub data Outcome : Type 0 where
    done : Recovered → Outcome
    panicked out_of_fuel : Outcome

  pub scan_loop : ℕ → Bytes → Recovered → Outcome
  unfolding read_entry update_index
  scan_loop zero bytes r = out_of_fuel
  scan_loop (suc fuel) bytes r = elim (leb (r.offset + (header_len + crc_len)) (length bytes)) [
    | false ↦ done r
    | true ↦ elim (read_entry r.hasher bytes r.offset) [
      | panic ↦ panicked
      | stop h ↦ done (record r { hasher = h })
      | next e ↦ elim (update_index e.op e.key e.value r.map_index) [
        | none ↦ done (record r { hasher = e.hasher })
        | some m ↦ scan_loop fuel bytes (record {
          offset = r.offset + e.total_len;
          count = r.count + 1;
          hasher = e.hasher;
          map_index = m;
        })
      ]
    ]
  ]

  -- The loop from its start. Each round passes at least 13 bytes.
  pub scan : Bytes → Outcome
  unfolding scan_loop
  scan bytes =
      scan_loop (suc (length bytes)) bytes
        (record { offset = 0; count = 0; hasher = crc.default; map_index = [] })
