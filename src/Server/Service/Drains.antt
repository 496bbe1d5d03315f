-- ===== src/Server/Service/Drains.antt =====
-- Behind Ctrl-C: the server stops, whatever the order in which its tasks run.
use mini_db.Prelude.{
  ℕ, suc, ◌+◌, ◌%◌, ◌^◌, ◌<◌, ◌≤◌, ◌≡◌, ◌≢◌, ◌⊎◌, inl, inr, refl, sym, ap, ◌∙◌, List, [], ◌∷◌, ◌++◌,
  length, arith,
}
use mini_db.Bytes.{Bytes}
use mini_db.Result.{Error, Result, ok, err}
use mini_db.Stream.{Stream}
use mini_db.Stream.Shrinks.{left}
use mini_db.Server.{Manager, Flow, goes_on, closed, handle_request}
use mini_db.Server.Ends.{round_takes}
use mini_db.Server.Service.{
  accepting, draining, stopped, Task, serving, finished, task_after, Service, listening, accept,
  serve_round, leave, stop_accepting, shut_down, Step, accepts, interrupted, serves, leaves,
  drained, Steps, here, step,
}
use mini_db.Server.Service.Counts.{Counts, Steps-Counts}

module _ ⦃net : Stream⦄ ⦃dbs : Manager⦄ (display : Error → Bytes)
    (max_key_size max_value_size : ℕ) where
  open net use {Socket}

  abbrev Move : Service → Service → Type 0
  Move = Step display max_key_size max_value_size

  abbrev Moves : ℕ → Service → Service → Type 0
  Moves = Steps display max_key_size max_value_size

  -- The steps that the tasks have before them at most: a round for each byte that comes in, one that
  -- finds no more, and the last one.
  abbrev task_work : Task → ℕ
  task_work (serving socket) = left socket + 2
  task_work (finished r) = 1

  abbrev pub work : List Task → ℕ
  work [] = 0
  work (t ∷ ts) = task_work t + work ts

  work-around :
      (before behind : List Task) (t : Task)
      → work (before ++ t ∷ behind) ≡ task_work t + work (before ++ behind)
  work-around [] behind t = refl
  work-around (x ∷ before) behind t = omega (arith, work-around before behind t)

  task_after-work :
      (uptime count : ℕ) (socket : Socket) (m : dbs.State) (r : Result Flow)
      → (handle_request display uptime count max_key_size max_value_size socket m).0 ≡ r
      → task_work (
          task_after r (handle_request display uptime count max_key_size max_value_size socket m).1)
        < left socket + 2
  task_after-work uptime count socket m (ok goes_on) e = omega (
    arith,
    round_takes display uptime count max_key_size max_value_size socket m (net.read_u8 socket).0
        refl e,
  )
  task_after-work uptime count socket m (ok closed) e = omega arith
  task_after-work uptime count socket m (err x) e = omega arith

  -- A step while the server drains: less work is left, or it has stopped.
  abbrev Lessens : Service → Service → Type 0
  Lessens s t = ((t.phase ≡ draining) × (work t.tasks < work s.tasks)) ⊎ (t.phase ≡ stopped)

  step-Lessens : (s t : Service) → Move s t → s.phase ≡ draining → Lessens s t
  unfolding accept serve_round leave stop_accepting shut_down
  step-Lessens s _ (accepts socket p) d =
      let clash : accepting ≡ draining = sym p ∙ d in absurd (cc)
  step-Lessens s _ (interrupted p) d = let clash : accepting ≡ draining = sym p ∙ d in absurd (cc)
  step-Lessens s _ (serves uptime before socket behind p e) d = inl (
    d,
    omega (
      arith,
      ap work e,
      work-around before behind (serving socket),
      work-around before behind (task_after _ _),
      task_after-work uptime s.active_connections socket s.db_manager _ refl,
    ),
  )
  step-Lessens s _ (leaves before behind r p e) d =
      inl (d, omega (arith, ap work e, work-around before behind (finished r)))
  step-Lessens s _ (drained p e) d = inr refl

  stopped_stays : (s t : Service) → Move s t → s.phase ≢ stopped
  stopped_stays s _ (accepts socket p) q = let clash : accepting ≡ stopped = sym p ∙ q in cc
  stopped_stays s _ (interrupted p) q = let clash : accepting ≡ stopped = sym p ∙ q in cc
  stopped_stays s _ (serves uptime before socket behind p e) q = p q
  stopped_stays s _ (leaves before behind r p e) q = p q
  stopped_stays s _ (drained p e) q = let clash : draining ≡ stopped = sym p ∙ q in cc

  goes_on_draining : (s : Service) → s.phase ≡ draining → Counts s → (t : Service) × Move s t
  goes_on_draining s d c = by_tasks s.tasks refl
    where
      running : s.phase ≢ stopped
      running q = let clash : draining ≡ stopped = sym d ∙ q in cc

      by_tasks : (ts : List Task) → s.tasks ≡ ts → (t : Service) × Move s t
      by_tasks [] e = (_, drained d (c ∙ ap (λ ts. length ts % 2 ^ 32) e))
      by_tasks (serving socket ∷ ts) e = (_, serves 0 [] socket ts running e)
      by_tasks (finished r ∷ ts) e = (_, leaves [] ts r running e)

  -- Behind a stop there is no step.
  none_more :
      (k : ℕ) (t u : Service) → Moves k t u → t.phase ≡ stopped → (k ≡ 0) × (u.phase ≡ stopped)
  none_more _ t _ here q = (refl, q)
  none_more _ t u (step {t = v} next rest) q = absurd (stopped_stays t v next q)

  -- What is left of a run that has begun to drain, or has stopped.
  abbrev Drained : ℕ → Service → Service → Type 0
  Drained n s t =
      (n ≤ work s.tasks + 1)
      × ((t.phase ≡ stopped) ⊎ ((t.phase ≡ draining) × ((u : Service) × Move t u)))

  Steps-Drained :
      (n : ℕ) (s t : Service) → Moves n s t → Counts s → s.phase ≡ draining → Drained n s t
  Steps-Drained _ s _ here c d = (omega arith, inr (d, goes_on_draining s d c))
  Steps-Drained _ s u (step {n} {t = t} one more) c d =
      after_one (step-Lessens s t one d) more (λ d'.
        Steps-Drained n t u more
          (Steps-Counts display max_key_size max_value_size 1 s t (step one here) c) d')
    where
      after_one :
          Lessens s t → Moves n t u → (t.phase ≡ draining → Drained n t u) → Drained (suc n) s u
      after_one (inl (d', less)) rest again =
          let (few, ends) = again d' in (omega (arith, few, less), ends)
      after_one (inr q) rest again =
          let (none, q') = none_more n t u rest q in (omega (arith, none), inl q')

  -- Once Ctrl-C has come, and whatever the order in which the connections are served and end: a run
  -- of the server has at most as many steps as bytes still come in, two more for each connection and
  -- one, and unless it has stopped by then it can go on.
  pub drains :
      (k n : ℕ) (m : dbs.State) (s t : Service)
      → Moves k (listening m) s
      → s.phase ≡ draining
      → Moves n s t
      → (n ≤ work s.tasks + 1)
        × ((t.phase ≡ stopped) ⊎ ((t.phase ≡ draining) × ((u : Service) × Move t u)))
  drains k n m s t start d run =
      Steps-Drained n s t run
        (Steps-Counts display max_key_size max_value_size k (listening m) s start refl) d
