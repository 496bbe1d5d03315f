-- ===== src/Bench/Asked.antt =====
-- What the operations of a benchmark's client ask for and how they end: a description of the run of
-- bench/bench.rs by the bytes on the wire and by the workloads, without the code's own functions.
use mini_db.Prelude.{
  ℕ, ◌<◌, ◌≤◌, ◌%◌, ◌^◌, ◌-◌, ◌≡◌, min, Bool, true, false, List, [], ◌∷◌, ◌++◌, length,
}
use mini_db.Bytes.{Bytes, as_u32, to_le_bytes}
use mini_db.Result.{Result, ok, err, request_failed}
use mini_db.Stream.Does.{map_ok}
use mini_db.Protocol.{Response, okay, key_value, code_and_payload}
use mini_db.Protocol.Frames.{frame}
use mini_db.Bench.{KeySpace}
use mini_db.Bench.Args.{Workload, read, write, read_overwrite}
use mini_db.Bench.Load.{Draw}
use mini_db.Bench.Prefill.{key_at, value_at}

pub data Asked : Type 0 where
  a_get a_set : Asked

-- What an operation asks for: reads only, writes only, or reads for the percents under a bound.
pub data Asks (read_percent : ℕ) (draw : Draw) : Workload → Asked → Type 0 where
  reads : Asks read_percent draw read a_get
  writes : Asks read_percent draw write a_set
  under : draw.percent < read_percent → Asks read_percent draw read_overwrite a_get
  from : read_percent ≤ draw.percent → Asks read_percent draw read_overwrite a_set

-- The value of a key answers a GET, and OK a SET.
abbrev pub is_answer : Asked → Response → Bool
is_answer a_get (key_value value) = true
is_answer a_set (okay message) = true
is_answer asked response = false

-- An operation: what the generator gives for it, what it asks for, and the response that comes in.
pub record Operated : Type 0 where
  pub draw : Draw
  pub asked : Asked
  pub response : Response

-- A GET has the code 6, and a SET the code 7.
abbrev pub get_bytes : Bytes → Bytes → Bytes
get_bytes db_name key =
    6 ∷ (length db_name % 256) ∷ (to_le_bytes (as_u32 (length key)) ++ (db_name ++ key))

abbrev pub set_bytes : Bytes → Bytes → Bytes → Bytes
set_bytes db_name key value =
    7
    ∷ (length db_name % 256)
    ∷ (to_le_bytes (as_u32 (length key))
        ++ (to_le_bytes (as_u32 (length value)) ++ (db_name ++ (key ++ value))))

abbrev pub request_for : KeySpace → Bytes → Draw → Asked → Bytes
request_for space db_name draw a_get = get_bytes db_name (key_at space draw.key_index)
request_for space db_name draw a_set =
    set_bytes db_name (key_at space draw.key_index) (value_at space draw.value_index)

abbrev pub draws : List Operated → List Draw
draws [] = []
draws (o ∷ os) = o.draw ∷ draws os

abbrev pub all_responses : List Operated → Bytes
all_responses [] = []
all_responses (o ∷ os) = frame o.response ++ all_responses os

-- What the clock measures, as far as it fits a u64.
abbrev pub sample_of : Operated → ℕ
sample_of o = min o.draw.elapsed (2 ^ 64 - 1)

abbrev pub samples : List Operated → List ℕ
samples [] = []
samples (o ∷ os) = sample_of o ∷ samples os

-- A result that counts only behind an answer.
abbrev pub if_answered : Bool → Result (List ℕ) → Result (List ℕ)
if_answered true r = r
if_answered false r = err request_failed

abbrev pub choose : Bool → Bytes → Bytes → Bytes
choose true a b = a
choose false a b = b

-- The samples of all operations, or the failure of one whose response is no answer.
abbrev pub outcome : List Operated → Result (List ℕ)
outcome [] = ok []
outcome (o ∷ os) =
    if_answered (is_answer o.asked o.response) (map_ok (λ xs. sample_of o ∷ xs) (outcome os))

-- The responses behind the first that is no answer.
abbrev pub unread : List Operated → Bytes
unread [] = []
unread (o ∷ os) = choose (is_answer o.asked o.response) (unread os) (all_responses os)

-- The requests up to the first whose response is no answer.
abbrev pub all_requests : KeySpace → Bytes → List Operated → Bytes
all_requests space db_name [] = []
all_requests space db_name (o ∷ os) =
    request_for space db_name o.draw o.asked
    ++ choose (is_answer o.asked o.response) (all_requests space db_name os) []

module _ (workload : Workload) (read_percent : ℕ) where
  -- The draws lie in a space of `rows` rows, and the response is one that fits its length field.
  pub record IsMade (rows : ℕ) (o : Operated) : Type 0 where
    pub key_there : o.draw.key_index < rows
    pub value_there : o.draw.value_index < rows
    pub asks : Asks read_percent o.draw workload o.asked
    pub fits : length (code_and_payload o.response).1 < 2 ^ 32

  -- And the response is an answer.
  pub record IsOperated (rows : ℕ) (o : Operated) : Type 0 where
    pub made : IsMade rows o
    pub expected : is_answer o.asked o.response ≡ true
