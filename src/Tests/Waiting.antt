-- ===== src/Tests/Waiting.antt =====
-- Two connections at a queue of one place, and the main sender dropped between them.
use mini_db.Prelude.{◌≡◌, refl, true, false, none, [], ◌∷◌, length, arith}
use mini_db.Prelude.Text.{codes}
use mini_db.Storage.{Storage}
use mini_db.Worker.{Query, get_key, set_key, execute_queries}
use mini_db.Manager.{Running, spawn, close}
use mini_db.Channel.{
  Channel, opened, serve, take_handle, send, answer, let_go, drop_sender, finish, holding, Steps,
  here, then_step, takes, sends, answers, lets_go, drops, finishes,
}
use mini_db.Channel.Serves.{Serves, Steps-Serves}
use mini_db.Channel.Ends.{Ends, Steps-ended, Steps-Ends}
use mini_db.Tests.Sim.{sim_crc, sim_disk, sim_can_write}
use mini_db.Tests.Log.{empty_log, empty_log-IsSynced}
use mini_db.Wal.History.{replay}
use mini_db.Worker.{init}
use mini_db.Worker.Refines.{InStep}
use mini_db.Channel.Histories.{Linearized, Steps-Linearized}

instance abbrev disk : Storage
disk = sim_disk none true

abbrev started : Running
unfolding spawn
started = spawn 2 empty_log []

abbrev first : Query
first = set_key (codes "a") (codes "1")

abbrev second : Query
second = get_key (codes "a")

-- Both have the sender, the first has sent, and a DROP drops the main sender.
abbrev both : Channel
unfolding take_handle
both = take_handle second (take_handle first (opened started))

abbrev one_sent : Channel
unfolding send
one_sent = send (holding second ∷ []) first [] both

abbrev dropped : Channel
unfolding drop_sender
dropped = drop_sender one_sent

abbrev to_dropped : Steps 1 (opened started) 4 (first ∷ []) [] dropped
unfolding take_handle send drop_sender
to_dropped =
    then_step
      (then_step (then_step (then_step here (takes first refl)) (takes second refl))
        (sends (holding second ∷ []) first [] refl (omega arith)))
      (drops refl)

Steps-Serves_example : Serves 1 started dropped (first ∷ []) []
Steps-Serves_example = Steps-Serves 1 started 4 (first ∷ []) [] dropped to_dropped

Steps-Ends_example : Ends 1 dropped
unfolding dropped
Steps-Ends_example = Steps-Ends 1 started (omega arith) 4 (first ∷ []) [] dropped to_dropped refl

-- The worker behind the first query, and behind both.
abbrev second_turn : Running
second_turn = (serve first started).1

abbrev last_turn : Running
last_turn = (serve second second_turn).1

abbrev answered : Channel
unfolding answer
answered = answer 0 first [] started dropped

abbrev one_left : Channel
unfolding let_go
one_left = let_go (holding second ∷ []) [] answered

abbrev two_sent : Channel
unfolding send
two_sent = send [] second [] one_left

abbrev all_answered : Channel
unfolding answer
all_answered = answer 1 second [] second_turn two_sent

abbrev at_end : Channel
unfolding let_go finish
at_end = finish last_turn (let_go [] [] all_answered)

abbrev to_end :
    Steps 1
      (opened started)
      10
      (first ∷ second ∷ [])
      ((serve first started).0 ∷ (serve second second_turn).0 ∷ [])
      at_end
unfolding take_handle send drop_sender answer let_go finish
to_end =
    then_step
      (then_step
        (then_step
          (then_step
            (then_step (then_step to_dropped (answers 0 first [] started refl refl))
              (lets_go (holding second ∷ []) [] 0 first (serve first started).0 refl))
            (sends [] second [] refl (omega arith)))
          (answers 1 second [] second_turn refl refl))
        (lets_go [] [] 1 second (serve second second_turn).0 refl))
      (finishes last_turn refl refl refl refl)

Steps-ended_example :
    (at_end.main_sender ≡ false)
    × (at_end.holders ≡ [])
    × (at_end.queue ≡ [])
    × (length ((serve first started).0 ∷ (serve second second_turn).0 ∷ []) ≡ 2)
    × (((serve first started).0 ∷ (serve second second_turn).0 ∷ [])
        ≡ (execute_queries (first ∷ second ∷ []) started.worker).0)
    × (close last_turn ≡ (execute_queries (first ∷ second ∷ []) started.worker).1.wal.file)
unfolding at_end started
Steps-ended_example =
    Steps-ended 1 2 empty_log [] 10 (first ∷ second ∷ [])
      ((serve first started).0 ∷ (serve second second_turn).0 ∷ []) at_end (close last_turn) to_end
      refl

started-InStep : InStep [] started.worker
unfolding started spawn init replay
started-InStep = record { synced = empty_log-IsSynced; indexed = refl }

Steps-Linearized_example :
    Linearized [] at_end
      (first ∷ second ∷ [])
      ((serve first started).0 ∷ (serve second second_turn).0 ∷ [])
unfolding started
Steps-Linearized_example =
    Steps-Linearized (sim_can_write true) 1 2 empty_log [] [] 10 (first ∷ second ∷ [])
      ((serve first started).0 ∷ (serve second second_turn).0 ∷ []) at_end (λ f. refl) (omega arith)
      started-InStep to_end
