-- ===== src/Tests/Serving.antt =====
-- A server with one connection, which its client closes before Ctrl-C comes.
use mini_db.Prelude.{ℕ, ◌+◌, ◌<◌, ◌≤◌, ◌^◌, ◌≡◌, ◌≢◌, ◌⊎◌, refl, ap, [], length, arith}
use mini_db.Result.{ok}
use mini_db.Server.{handle_request}
use mini_db.Server.Service.{
  draining, stopped, Service, listening, accept, serve_round, leave, stop_accepting, shut_down,
  Step, accepts, interrupted, serves, leaves, drained, Steps, here, step,
}
use mini_db.Server.Service.Counts.{stop_waits}
use mini_db.Server.Service.Drains.{work, drains}
use mini_db.Server.Service.Whole.{service-IsManaged}
use mini_db.Manager.{manager}
use mini_db.Manager.Keeps.{IsManaged}
use mini_db.Tests.Sim.{sim_net, sim_crc}
use mini_db.Tests.Requests.{one_db, no_text, quiet}
use mini_db.Tests.Databases.{disk, folder, default_log, default_log-IsMap, restarted}

abbrev Move : Service → Service → Type 0
Move = Step no_text 4096 16384

abbrev Moves : ℕ → Service → Service → Type 0
Moves = Steps no_text 4096 16384

abbrev idle : Service
idle = listening []

abbrev busy : Service
busy = accept quiet idle

abbrev served : Service
served = serve_round no_text 4096 16384 7 [] quiet [] busy

abbrev empty : Service
empty = leave no_text 4096 16384 [] [] served

abbrev at_end : Service
at_end = shut_down no_text 4096 16384 (stop_accepting no_text 4096 16384 empty)

-- The client is still there when Ctrl-C comes.
abbrev interrupted_early : Service
interrupted_early = stop_accepting no_text 4096 16384 busy

one_accepted : Moves 1 idle busy
one_accepted = step (accepts quiet refl) here

runs_to_the_end : Moves 5 idle at_end
unfolding accept serve_round handle_request leave stop_accepting
runs_to_the_end = step (accepts quiet refl) (
    step (serves 7 [] quiet [] (λ e. cc) refl) (
      step (leaves [] [] (ok tt) (λ e. cc) refl)
        (step (interrupted refl) (step (drained refl refl) here))))

runs_to_the_interrupt : Moves 2 idle interrupted_early
unfolding accept
runs_to_the_interrupt = step (accepts quiet refl) (step (interrupted refl) here)

served_behind :
    Moves 1 interrupted_early (serve_round no_text 4096 16384 8 [] quiet [] interrupted_early)
unfolding accept stop_accepting
served_behind = step (serves 8 [] quiet [] (λ e. cc) refl) here

at_end-stopped : (at_end.phase ≡ stopped) × (length at_end.tasks < 2 ^ 32)
unfolding accept serve_round handle_request leave stop_accepting shut_down
at_end-stopped = (refl, omega arith)

stop_waits_example : at_end.tasks ≡ []
stop_waits_example =
    stop_waits no_text 4096 16384 5 [] at_end runs_to_the_end at_end-stopped.0 at_end-stopped.1

early-draining : interrupted_early.phase ≡ draining
unfolding stop_accepting
early-draining = refl

abbrev last : Service
last = serve_round no_text 4096 16384 8 [] quiet [] interrupted_early

drains_example :
    (1 ≤ work no_text 4096 16384 interrupted_early.tasks + 1)
    × ((last.phase ≡ stopped) ⊎ ((last.phase ≡ draining) × ((u : Service) × Move last u)))
drains_example =
    drains no_text 4096 16384 2 1 [] interrupted_early last runs_to_the_interrupt early-draining
      served_behind

abbrev started_service : Service ⦃dbs = manager folder⦄
started_service = listening ⦃dbs = manager folder⦄ restarted.0

accepted_runs : (accept ⦃dbs = manager folder⦄ quiet started_service).phase ≢ stopped
unfolding accept
accepted_runs e = cc

service-IsManaged_example :
    IsManaged (accept ⦃dbs = manager folder⦄ quiet started_service).db_manager
service-IsManaged_example =
    service-IsManaged 2 8 4096 16384 1 no_text default_log restarted.0
      (accept ⦃dbs = manager folder⦄ quiet started_service) default_log-IsMap
      (ap (λ p. p.0) restarted.1) (step (accepts quiet refl) here) accepted_runs
