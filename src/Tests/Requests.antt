-- ===== src/Tests/Requests.antt =====
-- A client and a server, with a manager of one database that answers every query.
use mini_db.Prelude.{true, ◌≡◌, ◌↔◌, refl, some, List, [], ◌∷◌, ◌++◌, drop, arith, if◌then◌else◌}
use mini_db.Prelude.Text.{codes}
use mini_db.Bytes.{Bytes, bytes_eq}
use mini_db.Result.{Error, Result, ok}
use mini_db.Protocol.{okay, db_not_found}
use mini_db.Worker.{Query}
use mini_db.Client.{send_set}
use mini_db.Server.{Manager, found, missing, answered, handle_request}
use mini_db.Server.Agrees.{
  Request, set, IsServed, serve, Serves, send_request, handle_request-send_request,
}
use mini_db.Server.Names.{all_name_bytes, is_name_byte}
use mini_db.Server.Checks.{validate_db_name}
use mini_db.Server.Connection.{ended, handle_client}
use mini_db.Server.Ends.{handle_client_ends}
use mini_db.Server.Accepts.{IsPlainName, validate_db_name_iff}
use mini_db.Tests.Sim.{sim_net, SimSocket}

-- The state is the list of the queries that were asked.
instance abbrev pub one_db : Manager
one_db = record {
  State = List Query;
  Handle = Unit {0};
  db_count = λ m. 1;
  create_db = λ name m. (ok (okay (codes "Database created successfully")), m);
  drop_db = λ name m. (ok (okay (codes "Database dropped successfully")), m);
  get_db_handle = λ name m.
      if bytes_eq name (codes "default")
      then found tt
      else missing (db_not_found (codes "Database not found"));
  ask = λ h q m. (answered (some (ok (okay (codes "OK")))), q ∷ m);
  shutdown_all_workers = λ m. [];
}

abbrev pub no_text : Error → Bytes
no_text e = []

abbrev a_set : Request
a_set = set (codes "default") (codes "k") (codes "v")

abbrev pub quiet : SimSocket
quiet = record { inbox = []; outbox = [] }

abbrev arrived : SimSocket
arrived = record { inbox = drop 0 (send_request a_set quiet).1.outbox ++ 1 ∷ []; outbox = [] }

served : IsServed 4096 16384 a_set
unfolding all_name_bytes is_name_byte
served = (
  record { not_empty = omega arith; short = omega arith; safe = refl },
  record { not_zero = omega arith; at_most = omega arith; fits = omega arith },
  record { not_zero = omega arith; at_most = omega arith; fits = omega arith },
)

handle_request-send_request_example :
    Serves no_text 0 1 4096 16384 arrived
      (1 ∷ [])
      []
      (serve no_text 0 1 4096 16384 a_set)
      (handle_request no_text 0 1 4096 16384 arrived [])
unfolding send_set
handle_request-send_request_example =
    handle_request-send_request no_text 0 1 4096 16384 a_set quiet arrived (1 ∷ []) [] served refl
      refl

validate_db_name_iff_example :
    (validate_db_name (codes "../etc") quiet ≡ (ok (codes "../etc"), quiet))
    ↔ IsPlainName (codes "../etc")
validate_db_name_iff_example = validate_db_name_iff (codes "../etc") quiet

-- A client that sends PING and CLOSE.
abbrev ping_and_close : SimSocket
ping_and_close = record { inbox = 1 ∷ 2 ∷ []; outbox = [] }

handle_client_ends_example :
    (r : Result (Unit {0})) × ((handle_client no_text
        (λ n. 0)
        (λ n. 1)
        4096
        16384
        (ok true)
        3
        0
        ping_and_close
        []).0
      ≡ ended r)
handle_client_ends_example =
    handle_client_ends no_text (λ n. 0) (λ n. 1) 4096 16384 (ok true) 3 0 ping_and_close []
      (omega arith)
