-- ===== src/Protocol/Codes.antt =====
-- Operation codes.
use mini_db.Prelude.{ℕ, ◌≤◌, ◌≡◌, ◌↔◌, some, none, arith}
use mini_db.Protocol.{Operation, stats, from_u8, to_u8}

-- A byte is read as an operation exactly when it is that operation's code.
pub from_u8_iff : (n : ℕ) (op : Operation) → (from_u8 n ≡ some op) ↔ (n ≡ to_u8 op)
unfolding from_u8 to_u8
from_u8_iff n stats = ground arith
from_u8_iff n _ = ground arith

-- A byte names no operation exactly when it is above the last code.
pub from_u8-none_iff : (n : ℕ) → (from_u8 n ≡ none) ↔ (9 ≤ n)
unfolding from_u8
from_u8-none_iff n = ground arith
