-- ===== src/Bench.antt =====
-- The parts of bench/bench.rs that compute: the clients' shares of the work, the key space, and the
-- requests that its clients send. Random bytes and numbers, and what the clocks measure, are
-- arguments. Bench/Measure puts the parts together as `main` does.
pub mod Shares
pub mod Requests
pub mod Args
pub mod Load
pub mod Prefill
pub mod Asked
pub mod Runs
pub mod Summary
pub mod Measure
pub mod Screen
use mini_db.Prelude.{
  ℕ, ◌+◌, ◌*◌, ◌/◌, ◌%◌, Bool, true, false, not, ◌&&◌, [], ◌∷◌, ◌++◌, length, take, drop, ltb, leb,
  ◌==◌, if◌then◌else◌, Option, some, none,
}
use mini_db.Bytes.{Bytes, as_u32, to_le_bytes}
use mini_db.Protocol.{get, set, to_u8, Response, okay, key_value}

-- `usize::from(b)`
abbrev pub from_bool : Bool → ℕ
from_bool true = 1
from_bool false = 0

unfoldable pub share_workload : ℕ → ℕ → ℕ → ℕ
share_workload total clients id = total / clients + from_bool (ltb id (total % clients))

pub record KeySpace : Type 0 where
  pub keys : Bytes
  pub key_size : ℕ
  pub values : Bytes
  pub value_size : ℕ

-- `&bytes[start..start + size]`, where a panic is `none`
unfoldable pub slice_at : Bytes → ℕ → ℕ → Option Bytes
slice_at bytes start size =
    if leb (start + size) (length bytes) then some (take size (drop start bytes)) else none

unfoldable pub get_key : KeySpace → ℕ → Option Bytes
get_key space i = slice_at space.keys (i * space.key_size) space.key_size

unfoldable pub get_value : KeySpace → ℕ → Option Bytes
get_value space i = slice_at space.values (i * space.value_size) space.value_size

unfoldable pub len : KeySpace → ℕ
len space = length space.keys / space.key_size

-- The buffer is cleared first.
unfoldable pub encode_get : Bytes → Bytes → Bytes
encode_get db_name key =
    let buffer : Bytes = [] in
    let b1 = buffer ++ (to_u8 get ∷ []) in
    let b2 = b1 ++ ((length db_name % 256) ∷ []) in
    let b3 = b2 ++ to_le_bytes (as_u32 (length key)) in let b4 = b3 ++ db_name in b4 ++ key

unfoldable pub encode_set : Bytes → Bytes → Bytes → Bytes
encode_set db_name key value =
    let buffer : Bytes = [] in
    let b1 = buffer ++ (to_u8 set ∷ []) in
    let b2 = b1 ++ ((length db_name % 256) ∷ []) in
    let b3 = b2 ++ to_le_bytes (as_u32 (length key)) in
    let b4 = b3 ++ to_le_bytes (as_u32 (length value)) in
    let b5 = b4 ++ db_name in let b6 = b5 ++ key in b6 ++ value

-- Whether `check_response` takes a response.
unfoldable pub is_expected : Response → Bool → Bool
is_expected (okay p) is_get = not is_get
is_expected (key_value p) is_get = is_get
is_expected _ is_get = false
