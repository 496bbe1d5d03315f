-- ===== src/Log/Filter.antt =====
-- What a process prints, by what it logs.
use mini_db.Prelude.{
  ◌≡◌, refl, sym, ◌∙◌, ◌++◌, inl, inr, Bool-cases, none, some, List, [], ◌∷◌, leb, if◌then◌else◌,
  append-nil, append_assoc,
}
use mini_db.Bytes.{Bytes}
use mini_db.Log.{Level, info, Console, to_number, line, log, set_level, should_log}

-- A process sets its level, or logs a text at some time.
pub data Event : Type 0 where
  sets : Level → Event
  logs : Bytes → Level → Bytes → Event

unfoldable pub after : List Event → Console → Console
after [] c = c
after (sets level ∷ es) c = after es (set_level level c).1
after (logs now level msg ∷ es) c = after es (log now level msg c)

-- The lines of the texts at a level or above it.
abbrev pub lines_from : Level → List Event → List Bytes
lines_from least [] = []
lines_from least (sets level ∷ es) = lines_from least es
lines_from least (logs now level msg ∷ es) =
    let others = lines_from least es in
    if leb (to_number least) (to_number level) then line now level msg ∷ others else others

-- The level that holds from the first event on.
abbrev pub first_level : List Event → Level
first_level (sets level ∷ es) = level
first_level _ = info

after-level :
    (es : List Event) (level : Level) (lines : List Bytes)
    → (after es (record { log_level = some level; printed = lines })).printed
      ≡ lines ++ lines_from level es
unfolding after set_level log should_log
after-level [] level lines = sym (append-nil lines)
after-level (sets l ∷ es) level lines = after-level es level lines
after-level (logs now l msg ∷ es) level lines =
    elim (Bool-cases (leb (to_number level) (to_number l))) [
      | inl shown ↦
          rw (after, shown)
            (after-level es level (lines ++ line now l msg ∷ [])
              ∙ append_assoc lines (line now l msg ∷ []) (lines_from level es))
      | inr hidden ↦ rw (after, hidden) (after-level es level lines)
    ]

-- A process that starts with no level prints, of all that it logs, the lines of one level and
-- above, in order: the level of the `set` if this comes first, and else `Info`, whatever is set later.
pub after-first_level :
    (es : List Event)
    → (after es (record { log_level = none; printed = [] })).printed
      ≡ lines_from (first_level es) es
unfolding after set_level log should_log
after-first_level [] = refl
after-first_level (sets level ∷ es) = after-level es level []
after-first_level (logs now l msg ∷ es) = after-level (logs now l msg ∷ es) info []
