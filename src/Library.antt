-- ===== src/Library.antt =====
-- The functions of src/lib.rs. `f64` is a parameter: a quotient in hours, as a bit pattern, and the text
-- of a quotient with three decimals.
use mini_db.Prelude.{ℕ, ◌-◌, ◌++◌, Option, none, some, leb, if◌then◌else◌}
use mini_db.Prelude.Text.{codes}
use mini_db.Bytes.{Bytes}

-- `start_time` is START_TIME, if it is set; the clock is in milliseconds. The bits of 0.0 are 0.
unfoldable pub get_uptime_hrs : (ℕ → ℕ) → Option ℕ → ℕ → ℕ
get_uptime_hrs hours none now = 0
get_uptime_hrs hours (some start_time) now = hours (now - start_time)

-- `fixed n d` is `{:.3}` of `n as f64 / d`, and `display n` is `n` itself, which takes no decimals.
unfoldable pub fmt_bytes : (ℕ → ℕ → Bytes) → (ℕ → Bytes) → ℕ → Bytes
fmt_bytes fixed display bytes =
    if leb 1073741824 bytes
    then fixed bytes 1073741824 ++ codes " GB"
    else if leb 1048576 bytes
    then fixed bytes 1048576 ++ codes " MB"
    else if leb 1024 bytes
    then fixed bytes 1024 ++ codes " KB"
    else display bytes ++ codes " B"
