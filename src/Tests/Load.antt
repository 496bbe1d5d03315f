-- ===== src/Tests/Load.antt =====
-- A benchmark of three clients, and a key space of two keys.
use mini_db.Prelude.{ℕ, zero, suc, ap, List, ◌∷◌, All, ◌≡◌, refl, [], ◌++◌, length, arith}
use mini_db.Prelude.Text.{codes}
use mini_db.Bytes.{Bytes}
use mini_db.Bench.{KeySpace, len}
use mini_db.Result.{ok, err, request_failed}
use mini_db.Protocol.{okay, key_value, key_not_found, code_and_payload}
use mini_db.Bench.Args.{Args, read_overwrite, validate}
use mini_db.Bench.Load.{init, fill_db_server, run}
use mini_db.Bench.Prefill.{Fits, oks, set_rows, fill_db_server-set_rows}
use mini_db.Bench.Asked.{Operated, IsMade, a_get, a_set, under, from, draws, all_responses}
use mini_db.Bench.Runs.{run-all_requests}
use mini_db.Stream.Does.{ComesTo}
use mini_db.Tests.Sim.{sim_net, SimSocket}

abbrev two_rows : KeySpace
two_rows = record { keys = codes "abcd"; key_size = 2; values = codes "123456"; value_size = 3 }

two_rows-len : len two_rows ≡ 2
unfolding len
two_rows-len = refl

abbrev quiet : SimSocket
quiet = record { inbox = []; outbox = [] }

-- Arguments that pass the check, and a generator that gives the same byte over and over.
abbrev pub arguments : Args
arguments = record {
  clients = 3;
  operations = 128;
  db_name = codes "default";
  keyspace = 4096;
  key_size = 2;
  value_size = 3;
  warmup = 6;
  workload = read_overwrite;
  read_percent = 80;
}

abbrev pub repeat : {A : Type 0} → A → ℕ → List A
repeat a zero = []
repeat a (suc n) = a ∷ repeat a n

pub length-repeat : {A : Type 0} (a : A) (n : ℕ) → length (repeat a n) ≡ n
length-repeat a zero = refl
length-repeat a (suc n) = ap suc (length-repeat a n)

pub repeat-Fits : (n : ℕ) → All Fits (repeat [] n)
repeat-Fits zero = tt
repeat-Fits (suc n) = (omega arith, repeat-Fits n)

pub arguments_pass : validate arguments ≡ ok tt
unfolding validate
arguments_pass = refl

abbrev answers : List Bytes
answers = repeat [] 4096

abbrev prefilled : SimSocket
prefilled = record { inbox = oks answers ++ []; outbox = [] }

abbrev row_space : KeySpace
row_space = init (repeat 7) (repeat 8) 4096 2 3

fill_db_server-set_rows_example :
    ((fill_db_server (codes "default") row_space prefilled).0 ≡ ok tt)
    × ((fill_db_server (codes "default") row_space prefilled).1.outbox
        ≡ [] ++ set_rows (codes "default") row_space 0 4096)
fill_db_server-set_rows_example =
    fill_db_server-set_rows (λ s b. refl) arguments (repeat 7) (repeat 8) answers prefilled []
      arguments_pass (length-repeat 7) (length-repeat 8) (length-repeat {A = Bytes} [] 4096)
      (repeat-Fits 4096) refl

-- Operations on the space of two rows: a GET and a SET that are answered.
abbrev get_then_set : List Operated
get_then_set =
    record {
      draw = record { key_index = 1; percent = 5; value_index = 0; elapsed = 7 };
      asked = a_get;
      response = key_value (codes "456");
    }
    ∷ record {
      draw = record { key_index = 0; percent = 90; value_index = 1; elapsed = 5 };
      asked = a_set;
      response = okay (codes "OK");
    }
    ∷ []

get_then_set-IsMade : All (IsMade read_overwrite 80 2) get_then_set
unfolding code_and_payload
get_then_set-IsMade = (
  record {
    key_there = omega arith;
    value_there = omega arith;
    asks = under (omega arith);
    fits = omega arith;
  },
  (
    record {
      key_there = omega arith;
      value_there = omega arith;
      asks = from (omega arith);
      fits = omega arith;
    },
    tt,
  ),
)

abbrev running : SimSocket
running = record { inbox = all_responses get_then_set ++ []; outbox = [] }

run-all_requests_example :
    ComesTo
      (run two_rows (codes "default") read_overwrite 80 (draws get_then_set))
      running
      ((6 ∷ 7 ∷ 2 ∷ 0 ∷ 0 ∷ 0 ∷ codes "defaultcd")
        ++ (7 ∷ 7 ∷ 2 ∷ 0 ∷ 0 ∷ 0 ∷ 3 ∷ 0 ∷ 0 ∷ 0 ∷ codes "defaultab456"))
      []
      (ok (7 ∷ 5 ∷ []))
run-all_requests_example =
    run-all_requests two_rows (codes "default") read_overwrite 80 (λ s b. refl) 2 refl refl
      get_then_set running [] get_then_set-IsMade refl

-- A GET whose key is not found, and the answered ones behind it.
abbrev get_refused : Operated
get_refused = record {
  draw = record { key_index = 1; percent = 79; value_index = 0; elapsed = 7 };
  asked = a_get;
  response = key_not_found (codes "none");
}

get_refused-IsMade : IsMade read_overwrite 80 2 get_refused
unfolding code_and_payload
get_refused-IsMade = record {
  key_there = omega arith;
  value_there = omega arith;
  asks = under (omega arith);
  fits = omega arith;
}

abbrev stopping : SimSocket
stopping = record { inbox = all_responses (get_refused ∷ get_then_set) ++ []; outbox = [] }

refused_run :
    ComesTo
      (run two_rows (codes "default") read_overwrite 80 (draws (get_refused ∷ get_then_set)))
      stopping
      (6 ∷ 7 ∷ 2 ∷ 0 ∷ 0 ∷ 0 ∷ codes "defaultcd")
      (all_responses get_then_set ++ [])
      (err request_failed)
refused_run =
    run-all_requests two_rows (codes "default") read_overwrite 80 (λ s b. refl) 2 refl refl
      (get_refused ∷ get_then_set) stopping [] (get_refused-IsMade, get_then_set-IsMade) refl
