-- ===== src/Crc.antt =====
-- The interface to the crate `crc32fast`: a hasher that is fed byte strings, gives a 32-bit
-- checksum, and is put back to its first state by `reset`.
use mini_db.Prelude.{ℕ, ◌^◌, ◌<◌, ◌≡◌}
use mini_db.Bytes.{Bytes}

pub record Crc32 : Type 1 where
  pub Hasher : Type 0
  pub default : Hasher
  pub update : Hasher → Bytes → Hasher
  pub finalize : Hasher → ℕ
  pub reset : Hasher → Hasher
  -- `finalize` returns a u32
  pub finalize-lt : (h : Hasher) → finalize h < 2 ^ 32
  -- `reset` puts the hasher in the state of a new one
  pub reset-eq : (h : Hasher) → reset h ≡ default
