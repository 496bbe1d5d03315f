-- ===== src/Tests/Printed.antt =====
-- A process that logs before its level is set.
use mini_db.Prelude.{◌≡◌, none, List, [], ◌∷◌}
use mini_db.Prelude.Text.{codes}
use mini_db.Log.{trace, info, warn}
use mini_db.Log.Filter.{Event, sets, logs, after, lines_from, after-first_level}

abbrev early : List Event
early =
    logs (codes "10:00:00") info (codes "started")
    ∷ sets trace
    ∷ logs (codes "10:00:01") trace (codes "accepted")
    ∷ logs (codes "10:00:02") warn (codes "slow")
    ∷ []

after-first_level_example :
    (after early (record { log_level = none; printed = [] })).printed ≡ lines_from info early
after-first_level_example = after-first_level early
