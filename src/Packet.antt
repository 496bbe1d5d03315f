-- ===== src/Packet.antt =====
-- The two packets of protocol.rs. An `f64` is its 64-bit pattern, which `put_f64_le` and `get_f64_le`
-- copy. A `get` past the end of a buffer panics, which is `none`.
pub mod RoundTrip
use mini_db.Prelude.{ℕ, ◌+◌, ◌*◌, ◌/◌, ◌%◌, ◌^◌, Option, none, some, [], ◌∷◌, ◌++◌}
use mini_db.Bytes.{Bytes, to_le_bytes, from_le_bytes}

-- `put_u64_le` of the bits of an `f64`
abbrev pub put_u64_le : ℕ → Bytes
put_u64_le n = to_le_bytes (n % 2 ^ 32) ++ to_le_bytes (n / 2 ^ 32)

pub record StatsPacket : Type 0 where
  pub uptime_hrs : ℕ
  pub total_dbs : ℕ
  pub total_active_connections : ℕ

pub record InfoPacket : Type 0 where
  pub size_on_disk : ℕ
  pub size_in_memory : ℕ
  pub min_key_size : ℕ
  pub mean_key_size : ℕ
  pub max_key_size : ℕ
  pub key_count : ℕ

-- The packet's bytes, and the buffer after `clear`, the puts and `split`.
unfoldable pub stats_to_bytes : StatsPacket → Bytes → Bytes × Bytes
stats_to_bytes p write_buf =
    let cleared : Bytes = [] in
    let b1 = cleared ++ put_u64_le p.uptime_hrs in
    let b2 = b1 ++ to_le_bytes p.total_dbs in
    let b3 = b2 ++ to_le_bytes p.total_active_connections in (b3, [])

unfoldable pub info_to_bytes : InfoPacket → Bytes → Bytes × Bytes
info_to_bytes p write_buf =
    let cleared : Bytes = [] in
    let b1 = cleared ++ to_le_bytes p.size_on_disk in
    let b2 = b1 ++ to_le_bytes p.size_in_memory in
    let b3 = b2 ++ to_le_bytes p.min_key_size in
    let b4 = b3 ++ to_le_bytes p.mean_key_size in
    let b5 = b4 ++ to_le_bytes p.max_key_size in let b6 = b5 ++ to_le_bytes p.key_count in (b6, [])

-- `get_u32_le`, which panics (`none`) on a buffer of less than four bytes
abbrev pub get_u32_le : Bytes → Option (ℕ × Bytes)
get_u32_le (a ∷ b ∷ c ∷ d ∷ rest) = some (from_le_bytes a b c d, rest)
get_u32_le _ = none

infixl 5 ◌>>=◌
abbrev ◌>>=◌ : {A B : Type 0} → Option A → (A → Option B) → Option B
none >>= f = none
some a >>= f = f a

abbrev pub get_u64_le : Bytes → Option (ℕ × Bytes)
get_u64_le b = do (lo, b1) ← get_u32_le b; (hi, b2) ← get_u32_le b1; some (lo + hi * 2 ^ 32, b2)

-- The packet that is read, and the buffer, which is cleared.
pub stats_from_bytes : Bytes → Option (StatsPacket × Bytes)
stats_from_bytes read_buf = do
  (uptime, b1) ← get_u64_le read_buf
  (dbs, b2) ← get_u32_le b1
  (conns, b3) ← get_u32_le b2
  some (record { uptime_hrs = uptime; total_dbs = dbs; total_active_connections = conns }, [])

pub info_from_bytes : Bytes → Option (InfoPacket × Bytes)
info_from_bytes read_buf = do
  (disk, b1) ← get_u32_le read_buf
  (memory, b2) ← get_u32_le b1
  (min, b3) ← get_u32_le b2
  (mean, b4) ← get_u32_le b3
  (max, b5) ← get_u32_le b4
  (count, b6) ← get_u32_le b5
  some (
    record {
      size_on_disk = disk;
      size_in_memory = memory;
      min_key_size = min;
      mean_key_size = mean;
      max_key_size = max;
      key_count = count;
    },
    [],
  )
