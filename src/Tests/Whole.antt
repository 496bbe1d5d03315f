-- ===== src/Tests/Whole.antt =====
-- A client's SET on the default database, through the server to the log and back, and a server that
-- creates a database.
use mini_db.Prelude.{◌≡◌, ◌≢◌, ◌<◌, ◌^◌, true, refl, [], ◌++◌, none, drop, length, arith}
use mini_db.Prelude.Text.{codes}
use mini_db.Bytes.{bytes_eq}
use mini_db.Result.{ok}
use mini_db.Protocol.{Response, okay, code_and_payload, read_response}
use mini_db.Client.{send_set, send_create}
use mini_db.Server.{handle_request}
use mini_db.Server.Names.{all_name_bytes, is_name_byte}
use mini_db.Server.Agrees.{IsServed, send_request}
use mini_db.Server.Service.{
  stopped, Service, listening, accept, serve_round, here, step, accepts, serves,
}
use mini_db.Server.Service.Lives.{Runs, Kept, commands, service_keeps_histories}
use mini_db.Server.Service.Answers.{request_of, request_answered}
use mini_db.Manager.{DbManager, manager, init}
use mini_db.Manager.Spec.{after, reply_to, Represents}
use mini_db.Manager.Lifetime.{
  first, after_all, replies_to_all, perform_all, restart_keeps_histories,
}
use mini_db.Tests.Sim.{sim_net, sim_crc, sim_can_write, sim_can_recover, SimSocket}
use mini_db.Tests.Requests.{no_text, quiet}
use mini_db.Tests.Databases.{
  disk, folder, sim-CanManage, started, started-Represents, write_default,
}

abbrev arrived : SimSocket
arrived = record {
  inbox = drop 0 (send_request (request_of write_default) quiet).1.outbox ++ [];
  outbox = [];
}

abbrev done : Response
done = okay (codes "OK")

allowed : IsServed 4096 16384 (request_of write_default)
unfolding all_name_bytes is_name_byte
allowed = (
  record { not_empty = omega arith; short = omega arith; safe = refl },
  record { not_zero = omega arith; at_most = omega arith; fits = omega arith },
  record { not_zero = omega arith; at_most = omega arith; fits = omega arith },
)

-- The client's end, at which the bytes that the round has sent come in.
abbrev back : SimSocket
back = record {
  inbox =
      drop 0 (handle_request ⦃dbs = manager folder⦄ no_text 0 1 4096 16384 arrived started).1.outbox
      ++ [];
  outbox = [];
}

short : length (code_and_payload done).1 < 2 ^ 32
unfolding code_and_payload
short = omega arith

sent_whole : (send_request (request_of write_default) quiet).0 ≡ ok tt
unfolding send_set
sent_whole = refl

replied : reply_to write_default first ≡ ok done
unfolding bytes_eq
replied = refl

request_answered_example :
    ((read_response back).0 ≡ ok done)
    × ((read_response back).1.inbox ≡ [])
    × Represents
        (after write_default first)
        (handle_request ⦃dbs = manager folder⦄ no_text 0 1 4096 16384 arrived started).2
request_answered_example =
    request_answered (λ s b. refl) no_text 0 1 4096 16384 (sim_can_recover none) sim-CanManage
      (sim_can_write true) write_default done first started quiet arrived back [] [] allowed
      sent_whole refl started-Represents replied short refl

-- The first start of a manager.
abbrev begun : (m : DbManager) × (init 2 8 [] ≡ (ok m, []))
begun =
    let started_up =
      restart_keeps_histories (sim_can_recover none) sim-CanManage (sim_can_write true) 2 8 [] tt in
    (started_up.0, started_up.1)

abbrev creating : SimSocket
creating = record { inbox = (send_create (codes "logs") quiet).1.outbox; outbox = [] }

abbrev idle : Service ⦃dbs = manager folder⦄
idle = listening ⦃dbs = manager folder⦄ begun.0

abbrev busy : Service ⦃dbs = manager folder⦄
busy = accept ⦃dbs = manager folder⦄ creating idle

abbrev created : Service ⦃dbs = manager folder⦄
created = serve_round ⦃dbs = manager folder⦄ no_text 4096 16384 7 [] creating [] busy

serves_on : idle.phase ≢ stopped
serves_on e = cc

abbrev one_round : Runs no_text 4096 16384 2 idle created
unfolding accept
one_round = step (accepts creating refl) (step (serves 7 [] creating [] serves_on refl) here)

service_keeps_histories_example :
    ((perform_all (commands no_text 4096 16384 one_round) begun.0).0
      ≡ replies_to_all (commands no_text 4096 16384 one_round) first)
    × Kept 2 8 created (after_all (commands no_text 4096 16384 one_round) first)
service_keeps_histories_example =
    service_keeps_histories no_text 4096 16384 (omega arith) (omega arith) (sim_can_recover none)
      sim-CanManage (sim_can_write true) 2 8 2 begun.0 created begun.1 one_round
