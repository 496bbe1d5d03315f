-- ===== src/Server/Service.antt =====
-- The loop of `run_server`: connections are accepted and served by tasks of their own, until Ctrl-C;
-- then the server waits for `active_connections` to reach 0 and shuts the workers down. The tasks
-- interleave by whole rounds of `handle_client`, in any order.
pub mod Counts
pub mod Drains
pub mod Whole
pub mod Commands
pub mod Applied
pub mod Lives
pub mod Answers
pub mod Start
use mini_db.Prelude.{ℕ, suc, ◌+◌, ◌%◌, ◌^◌, ◌-◌, ◌≡◌, ◌≢◌, List, [], ◌∷◌, ◌++◌}
use mini_db.Bytes.{Bytes}
use mini_db.Result.{Error, Result, ok, err}
use mini_db.Stream.{Stream}
use mini_db.Server.{Manager, Flow, goes_on, closed, handle_request}

pub data Phase : Type 0 where
  accepting draining stopped : Phase

module _ ⦃net : Stream⦄ ⦃dbs : Manager⦄ where
  open net use {Socket}
  open dbs use {State}

  -- The task of a connection: in its loop, or behind it, before `fetch_sub`.
  pub data Task : Type 0 where
    serving : Socket → Task
    finished : Result (Unit {0}) → Task

  pub record Service : Type 0 where
    pub phase : Phase
    pub active_connections : ℕ
    pub tasks : List Task
    pub db_manager : State

  -- `run_server` behind the initialization.
  abbrev pub listening : State → Service
  listening db_manager = record {
    phase = accepting;
    active_connections = 0;
    tasks = [];
    db_manager = db_manager;
  }

  -- `fetch_add(1)` and `fetch_sub(1)` on the `AtomicU32`, which wrap around.
  abbrev pub fetch_add : ℕ → ℕ
  fetch_add n = (n + 1) % 2 ^ 32

  abbrev pub fetch_sub : ℕ → ℕ
  fetch_sub n = (n + (2 ^ 32 - 1)) % 2 ^ 32

  -- `Ok((socket, addr))` from `accept`
  unfoldable pub accept : Socket → Service → Service
  accept socket s = record s {
    active_connections = fetch_add s.active_connections;
    tasks = serving socket ∷ s.tasks;
  }

  -- The task after a round of its loop.
  abbrev pub task_after : Result Flow → Socket → Task
  task_after (ok goes_on) socket = serving socket
  task_after (ok closed) socket = finished (ok tt)
  task_after (err e) socket = finished (err e)

  module _ (display : Error → Bytes) (max_key_size max_value_size : ℕ) where
    -- A round of the task between `before` and `behind`.
    unfoldable pub serve_round : ℕ → List Task → Socket → List Task → Service → Service
    serve_round uptime_hrs before socket behind s =
        let (flow, socket', db_manager) =
          handle_request display uptime_hrs s.active_connections max_key_size max_value_size socket
            s.db_manager in
        record s { tasks = before ++ task_after flow socket' ∷ behind; db_manager = db_manager }

    -- The end of a task.
    unfoldable pub leave : List Task → List Task → Service → Service
    leave before behind s = record s {
      active_connections = fetch_sub s.active_connections;
      tasks = before ++ behind;
    }

    -- `break`, behind Ctrl-C
    unfoldable pub stop_accepting : Service → Service
    stop_accepting s = record s { phase = draining }

    -- Behind the wait for the connections.
    unfoldable pub shut_down : Service → Service
    shut_down s = record s { phase = stopped; db_manager = dbs.shutdown_all_workers s.db_manager }

    pub data Step (s : Service) : Service → Type 0 where
      accepts : (socket : Socket) → s.phase ≡ accepting → Step s (accept socket s)
      interrupted : s.phase ≡ accepting → Step s (stop_accepting s)
      serves :
          (uptime_hrs : ℕ) (before : List Task) (socket : Socket) (behind : List Task)
          → s.phase ≢ stopped
          → s.tasks ≡ before ++ serving socket ∷ behind
          → Step s (serve_round uptime_hrs before socket behind s)
      leaves :
          (before behind : List Task) (r : Result (Unit {0}))
          → s.phase ≢ stopped
          → s.tasks ≡ before ++ finished r ∷ behind
          → Step s (leave before behind s)
      drained : s.phase ≡ draining → s.active_connections ≡ 0 → Step s (shut_down s)

    -- A number of steps.
    pub data Steps : ℕ → Service → Service → Type 0 where
      here : {s : Service} → Steps 0 s s
      step : {n : ℕ} {s t u : Service} → Step s t → Steps n t u → Steps (suc n) s u
