-- ===== src/Tests/Queries.antt =====
-- A worker on a disk that works.
use mini_db.Prelude.{◌≤◌, ◌≡◌, refl, true, none, List, [], ◌∷◌, ◌++◌, arith}
use mini_db.Prelude.Text.{codes}
use mini_db.Bytes.{Bytes}
use mini_db.Map.{Map, get}
use mini_db.Storage.{Storage}
use mini_db.Wal.History.{replay}
use mini_db.Worker.{
  Query, info, get_key, set_key, delete_key, Worker, init, handle_query, execute_queries,
  info_packet,
}
use mini_db.Worker.Replies.{held_after, get-handle_query}
use mini_db.Worker.Refines.{InStep, execute_queries-refines}
use mini_db.Worker.Spec.{all_logged, replies_after}
use mini_db.Worker.Sizes.{KeysBetween, info_packet_bounds}
use mini_db.Tests.Sim.{sim_crc, sim_disk, sim_can_write}
use mini_db.Tests.Log.{empty_log, empty_log-IsSynced}

instance abbrev disk : Storage
disk = sim_disk none true

-- A worker that fsyncs behind every second write.
abbrev pub worker : Worker
unfolding init
worker = init empty_log 2 []

pub worker-InStep : InStep [] worker
unfolding init replay
worker-InStep = record { synced = empty_log-IsSynced; indexed = refl }

abbrev queue : List Query
queue =
    set_key (codes "a") (codes "1")
    ∷ set_key (codes "a") (codes "2")
    ∷ get_key (codes "a")
    ∷ info
    ∷ delete_key (codes "a")
    ∷ delete_key (codes "a")
    ∷ []

execute_queries-refines_example :
    ((execute_queries queue worker).0 ≡ replies_after [] queue)
    × InStep ([] ++ all_logged queue) (execute_queries queue worker).1
execute_queries-refines_example =
    execute_queries-refines (sim_can_write true) (λ f. refl) queue [] worker (omega arith)
      worker-InStep

get-handle_query_example :
    get (codes "a") (handle_query 2 (set_key (codes "a") (codes "1")) 0 worker).2.memory_index
    ≡ held_after
        (set_key (codes "a") (codes "1"))
        (handle_query 2 (set_key (codes "a") (codes "1")) 0 worker).0
        (codes "a")
        (get (codes "a") worker.memory_index)
get-handle_query_example = get-handle_query 2 (set_key (codes "a") (codes "1")) 0 worker (codes "a")

abbrev two_keys : Map Bytes
two_keys = (codes "a", codes "1") ∷ (codes "bcd", codes "2") ∷ []

info_packet_bounds_example :
    ((info_packet 40 two_keys).key_count ≡ 2)
    × KeysBetween
        (info_packet 40 two_keys).min_key_size
        (info_packet 40 two_keys).max_key_size
        two_keys
    × ((info_packet 40 two_keys).min_key_size ≤ (info_packet 40 two_keys).mean_key_size)
    × ((info_packet 40 two_keys).mean_key_size ≤ (info_packet 40 two_keys).max_key_size)
info_packet_bounds_example =
    info_packet_bounds 255 40 two_keys (omega arith) (omega arith) (omega arith) (omega arith)
