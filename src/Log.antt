-- ===== src/Log.antt =====
-- src/log.rs: the level of a process, which the first line or the first `set` fixes, and the lines that
-- are printed. Colours are left out.
pub mod Macros
pub mod Filter
use mini_db.Prelude.{
  ℕ, ◌≤◌, ◌++◌, Bool, true, false, Option, none, some, List, [], ◌∷◌, leb, if◌then◌else◌,
}
use mini_db.Prelude.Text.{codes}
use mini_db.Bytes.{Bytes}

pub data Level : Type 0 where
  trace debug info warn error : Level

-- The discriminants, by which the derived order goes.
unfoldable pub to_number : Level → ℕ
to_number trace = 0
to_number debug = 1
to_number info = 2
to_number warn = 3
to_number error = 4

unfoldable pub level_str : Level → Bytes
level_str trace = codes "TRACE"
level_str debug = codes "DEBUG"
level_str info = codes "INFO"
level_str warn = codes "WARN"
level_str error = codes "ERROR"

-- The `OnceLock` LOG_LEVEL, and what was printed.
pub record Console : Type 0 where
  pub log_level : Option Level
  pub printed : List Bytes

-- `LOG_LEVEL.set(level)`: whether it was free.
unfoldable pub set_level : Level → Console → Bool × Console
set_level level c = elim c.log_level [
  | none ↦ (true, record c { log_level = some level })
  | some _ ↦ (false, c)
]

-- `LOG_LEVEL.get_or_init(|| Level::Info)`
abbrev pub get_or_init : Option Level → Level
get_or_init none = info
get_or_init (some level) = level

-- `should_log`, and LOG_LEVEL behind it.
unfoldable pub should_log : Level → Option Level → Bool × Option Level
should_log level log_level =
    let current = get_or_init log_level in (leb (to_number current) (to_number level), some current)

-- `[{now}][{level_str}] {msg}`
unfoldable pub line : Bytes → Level → Bytes → Bytes
line now level msg = codes "[" ++ now ++ codes "][" ++ level_str level ++ codes "] " ++ msg

unfoldable pub log : Bytes → Level → Bytes → Console → Console
log now level msg c =
    let (shown, current) = should_log level c.log_level in
    record {
      log_level = current;
      printed = if shown then c.printed ++ line now level msg ∷ [] else c.printed;
    }
