-- ===== src/Server/Service/Counts.antt =====
-- The counter of `run_server` counts the connections, and the shutdown waits for them.
use mini_db.Prelude.{
  ℕ, suc, ◌%◌, ◌^◌, ◌<◌, ◌≡◌, refl, sym, ap, ◌∙◌, List, [], ◌∷◌, ◌++◌, length, length-append, arith,
}
use mini_db.Bytes.{Bytes}
use mini_db.Result.{Error}
use mini_db.Stream.{Stream}
use mini_db.Server.{Manager}
use mini_db.Server.Service.{
  accepting, stopped, Task, serving, finished, Service, listening, accept, serve_round, leave,
  stop_accepting, shut_down, Step, accepts, interrupted, serves, leaves, drained, Steps, here, step,
}

module _ ⦃net : Stream⦄ ⦃dbs : Manager⦄ where
  -- The counter is the number of the tasks, modulo its range.
  abbrev pub Counts : Service → Type 0
  Counts s = s.active_connections ≡ length s.tasks % 2 ^ 32

module _ ⦃net : Stream⦄ ⦃dbs : Manager⦄ (display : Error → Bytes)
    (max_key_size max_value_size : ℕ) where
  abbrev Move : Service → Service → Type 0
  Move = Step display max_key_size max_value_size

  abbrev Moves : ℕ → Service → Service → Type 0
  Moves = Steps display max_key_size max_value_size

  length_around :
      (before behind : List Task) (t : Task)
      → length (before ++ t ∷ behind) ≡ suc (length (before ++ behind))
  length_around before behind t =
      length-append before (t ∷ behind) ∙ omega (arith, length-append before behind)

  step-Counts : (s t : Service) → Move s t → Counts s → Counts t
  unfolding accept serve_round leave stop_accepting shut_down
  step-Counts s _ (accepts socket p) h = omega (arith, h)
  step-Counts s _ (interrupted p) h = h
  step-Counts s _ (serves uptime before socket behind p e) h =
      h
      ∙ ap (λ n. n % 2 ^ 32)
          (ap length e
            ∙ length_around before behind (serving socket)
            ∙ sym (length_around before behind _))
  step-Counts s _ (leaves before behind r p e) h =
      let n : length s.tasks ≡ suc (length (before ++ behind)) =
        ap length e ∙ length_around before behind (finished r) in
      omega (arith, h, n)
  step-Counts s _ (drained p e) h = h

  pub Steps-Counts : (n : ℕ) (s t : Service) → Moves n s t → Counts s → Counts t
  Steps-Counts _ s _ here h = h
  Steps-Counts _ s u (step {n} {t = t} one more) h = Steps-Counts n t u more (step-Counts s t one h)

  -- In whatever order connections are accepted, served and end: the counter is the number of the
  -- connections' tasks, modulo 2 ^ 32.
  pub active_connections-tasks :
      (n : ℕ) (m : dbs.State) (s : Service)
      → Moves n (listening m) s
      → s.active_connections ≡ length s.tasks % 2 ^ 32
  active_connections-tasks n m s run = Steps-Counts n (listening m) s run refl

  -- No task is left behind a stop.
  abbrev Waits : Service → Type 0
  Waits s = s.phase ≡ stopped → length s.tasks < 2 ^ 32 → s.tasks ≡ []

  none_left : (ts : List Task) → length ts < 2 ^ 32 → length ts % 2 ^ 32 ≡ 0 → ts ≡ []
  none_left [] h e = refl
  none_left (t ∷ ts) h e = absurd (omega arith)

  step-Waits : (s t : Service) → Move s t → Counts s → Waits s → Waits t
  unfolding accept serve_round leave stop_accepting shut_down
  step-Waits s _ (accepts socket p) c h q =
      let clash : accepting ≡ stopped = sym p ∙ q in absurd (cc)
  step-Waits s _ (interrupted p) c h q = absurd (cc)
  step-Waits s _ (serves uptime before socket behind p e) c h q = absurd (p q)
  step-Waits s _ (leaves before behind r p e) c h q = absurd (p q)
  step-Waits s _ (drained p e) c h q = λ few. none_left s.tasks few (sym c ∙ e)

  Steps-Waits : (n : ℕ) (s t : Service) → Moves n s t → Counts s → Waits s → Waits t
  Steps-Waits _ s _ here c h = h
  Steps-Waits _ s u (step {n} {t = t} one more) c h =
      Steps-Waits n t u more (step-Counts s t one c) (step-Waits s t one c h)

  -- In whatever order connections are accepted, served and end: where the server has stopped, and
  -- fewer than 2 ^ 32 tasks are there, no connection is left, so that the workers were not shut down
  -- under one.
  pub stop_waits :
      (n : ℕ) (m : dbs.State) (s : Service)
      → Moves n (listening m) s
      → s.phase ≡ stopped
      → length s.tasks < 2 ^ 32
      → s.tasks ≡ []
  stop_waits n m s run = Steps-Waits n (listening m) s run refl λ q. absurd (cc)
