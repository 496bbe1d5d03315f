-- ===== src/Bench/Runs.antt =====
-- The run of a benchmark's client (`run` and `check_response` of bench/bench.rs) against Bench/Asked.
use mini_db.Prelude.{
  ℕ, ◌<◌, ◌^◌, ◌*◌, ◌≡◌, refl, sym, ap, ◌∙◌, Bool, true, false, inl, inr, Bool-cases, List, [], ◌∷◌,
  ◌++◌, length, append-nil, append_assoc, All, arith,
}
use mathlib.Core.Path.{subst}
use mini_db.Bytes.{Bytes}
use mini_db.Stream.Io.{pure, ◌>>=◌}
use mini_db.Result.{ok, err, Result, request_failed}
use mini_db.Stream.{Stream}
use mini_db.Stream.Does.{
  WritesWork, ComesTo, Does-both, ComesTo-writes_all, ComesTo-map, map_ok, writes_all,
}
use mini_db.Protocol.{
  Response, okay, pong, db_not_found, db_already_exists, key_value, key_not_found, invalid_request,
  payload_too_large, internal_error, to_u8, code_and_payload,
}
use mini_db.Protocol.Frames.{frame, read_response_back}
use mini_db.Bench.{KeySpace, encode_get, encode_set, is_expected}
use mini_db.Bench.Args.{Workload}
use mini_db.Bench.Load.{Draw, is_get, check_response, encode, operate, run}
use mini_db.Bench.Prefill.{key_at, value_at, slices}
use mini_db.Bench.Asked.{
  Asked, a_get, a_set, Asks, reads, writes, under, from, is_answer, Operated, get_bytes, set_bytes,
  request_for, draws, all_responses, samples, outcome, unread, all_requests, IsMade, IsOperated,
  sample_of,
}

abbrev gets : Asked → Bool
gets a_get = true
gets a_set = false

is_get-Asks :
    (workload : Workload) (read_percent : ℕ) (draw : Draw) (asked : Asked)
    → Asks read_percent draw workload asked
    → is_get workload read_percent draw ≡ gets asked
unfolding is_get
is_get-Asks _ read_percent draw _ reads = refl
is_get-Asks _ read_percent draw _ writes = refl
is_get-Asks _ read_percent draw _ (under h) = ground (arith, h)
is_get-Asks _ read_percent draw _ (from h) = ground (arith, h)

is_expected-is_answer :
    (asked : Asked) (r : Response) → is_expected r (gets asked) ≡ is_answer asked r
unfolding is_expected
is_expected-is_answer a_get (okay p) = refl
is_expected-is_answer a_get (pong p) = refl
is_expected-is_answer a_get (db_not_found p) = refl
is_expected-is_answer a_get (db_already_exists p) = refl
is_expected-is_answer a_get (key_value p) = refl
is_expected-is_answer a_get (key_not_found p) = refl
is_expected-is_answer a_get (invalid_request p) = refl
is_expected-is_answer a_get (payload_too_large p) = refl
is_expected-is_answer a_get (internal_error p) = refl
is_expected-is_answer a_set (okay p) = refl
is_expected-is_answer a_set (pong p) = refl
is_expected-is_answer a_set (db_not_found p) = refl
is_expected-is_answer a_set (db_already_exists p) = refl
is_expected-is_answer a_set (key_value p) = refl
is_expected-is_answer a_set (key_not_found p) = refl
is_expected-is_answer a_set (invalid_request p) = refl
is_expected-is_answer a_set (payload_too_large p) = refl
is_expected-is_answer a_set (internal_error p) = refl

encode_get-get_bytes : (db_name key : Bytes) → encode_get db_name key ≡ get_bytes db_name key
unfolding encode_get to_u8
encode_get-get_bytes db_name key = refl

encode_set-set_bytes :
    (db_name key value : Bytes) → encode_set db_name key value ≡ set_bytes db_name key value
unfolding encode_set to_u8
encode_set-set_bytes db_name key value = rw (append_assoc db_name key value) refl

abbrev checked_as : Bool → Result (Unit {0})
checked_as true = ok tt
checked_as false = err request_failed

-- The outcome of operations that are all answered.
pub outcome-samples :
    (workload : Workload) (read_percent rows : ℕ) (os : List Operated)
    → All (IsOperated workload read_percent rows) os
    → (outcome os ≡ ok (samples os)) × (unread os ≡ []) × All (IsMade workload read_percent rows) os
outcome-samples workload read_percent rows [] h = (refl, refl, tt)
outcome-samples workload read_percent rows (o ∷ os) (first, h) =
    let (came, none_left, made) = outcome-samples workload read_percent rows os h in
    (rw (first.expected, came) refl, rw first.expected none_left, (first.made, made))

module _ (space : KeySpace) (db_name : Bytes) (workload : Workload) (read_percent : ℕ) where
  module _ ⦃net : Stream⦄ (writes : WritesWork) (rows : ℕ)
      (has_keys : length space.keys ≡ rows * space.key_size)
      (has_values : length space.values ≡ rows * space.value_size) where
    open net use {Socket, incoming, sent}

    checked :
        (asked : Asked) (r : Response) (t : Socket) (rest : Bytes)
        → length (code_and_payload r).1 < 2 ^ 32
        → incoming t ≡ frame r ++ rest
        → ComesTo (check_response (gets asked)) t [] rest (checked_as (is_answer asked r))
    unfolding check_response
    checked asked r t rest fits arrives =
        let (value, left, quiet) = read_response_back r t rest fits arrives in
        let same = is_expected-is_answer asked r in
        elim (Bool-cases (is_answer asked r)) [
          | inl answered ↦ record {
            result_is = rw (check_response, value, same, answered) refl;
            leaves = rw (check_response, value, same, answered) left;
            sends = rw (check_response, value, same, answered) (quiet ∙ sym (append-nil (sent t)));
          }
          | inr refused ↦ record {
            result_is = rw (check_response, value, same, refused) refl;
            leaves = rw (check_response, value, same, refused) left;
            sends = rw (check_response, value, same, refused) (quiet ∙ sym (append-nil (sent t)));
          }
        ]

    written :
        (b : Bytes) (asked : Asked) (r : Response) (s : Socket) (rest : Bytes)
        → length (code_and_payload r).1 < 2 ^ 32
        → incoming s ≡ frame r ++ rest
        → ComesTo
            (writes_all (b ∷ []) (check_response (gets asked)))
            s
            b
            rest
            (checked_as (is_answer asked r))
    written b asked r s rest fits arrives =
        subst
          (λ out.
            ComesTo (writes_all (b ∷ []) (check_response (gets asked))) s out rest
              (checked_as (is_answer asked r)))
          (append-nil b)
          (ComesTo-writes_all (b ∷ []) (check_response (gets asked)) s rest (frame r ++ rest)
            (checked_as (is_answer asked r)) writes arrives (λ t e. checked asked r t rest fits e))

    asked-ComesTo :
        (draw : Draw) (asked : Asked) (r : Response) (s : Socket) (rest : Bytes)
        → IsMade workload read_percent rows (record { draw = draw; asked = asked; response = r })
        → incoming s ≡ frame r ++ rest
        → ComesTo
            (operate space db_name workload read_percent draw)
            s
            (request_for space db_name draw asked)
            rest
            (checked_as (is_answer asked r))
    unfolding operate encode
    asked-ComesTo draw a_get r s rest h arrives =
        let (k, _) = slices space draw.key_index rows has_keys has_values h.key_there in
        let kind = is_get-Asks workload read_percent draw a_get h.asks in
        rw (operate, k, kind, encode, ← encode_get-get_bytes db_name (key_at space draw.key_index))
          (written (encode_get db_name (key_at space draw.key_index)) a_get r s rest h.fits arrives)
    asked-ComesTo draw a_set r s rest h arrives =
        let (k, _) = slices space draw.key_index rows has_keys has_values h.key_there in
        let (_, v) = slices space draw.value_index rows has_keys has_values h.value_there in
        let kind = is_get-Asks workload read_percent draw a_set h.asks in
        rw
          (
            operate,
            k,
            kind,
            encode,
            v,
            ← encode_set-set_bytes db_name (key_at space draw.key_index)
                (value_at space draw.value_index),
          )
          (written
            (encode_set db_name (key_at space draw.key_index) (value_at space draw.value_index))
            a_set r s rest h.fits arrives)

    -- Where every write succeeds, the draws lie in a key space of as many rows, and a response
    -- comes in for each operation, whichever it is: a run in which a value comes in for every GET
    -- and OK for every SET succeeds with the sample of each operation and has sent the request of
    -- each, in order; any other run fails at the first operation that has another response, has
    -- sent the requests up to this one, and leaves the later responses unread. A GET is asked for
    -- by a workload of reads, a SET by one of writes, and by a mixed one a GET for the percents
    -- that are drawn below the bound.
    pub run-all_requests :
        (os : List Operated) (s : Socket) (rest : Bytes)
        → All (IsMade workload read_percent rows) os
        → incoming s ≡ all_responses os ++ rest
        → ComesTo
            (run space db_name workload read_percent (draws os))
            s
            (all_requests space db_name os)
            (unread os ++ rest)
            (outcome os)
    unfolding run
    run-all_requests [] s rest h arrives = record {
      result_is = refl;
      leaves = arrives;
      sends = sym (append-nil (sent s));
    }
    run-all_requests (o ∷ os) s rest h arrives =
        let first =
          asked-ComesTo o.draw o.asked o.response s (all_responses os ++ rest) h.0
            (arrives ∙ append_assoc (frame o.response) (all_responses os) rest) in
        let request = request_for space db_name o.draw o.asked in
        let result = first.result_is in
        elim (Bool-cases (is_answer o.asked o.response)) [
          | inl answered ↦
              let tail = run-all_requests os _ rest h.1 first.leaves in
              rw (run, answered)
                (Does-both (operate space db_name workload read_percent o.draw)
                  (run space db_name workload read_percent (draws os) >>= λ xs.
                    pure (sample_of o ∷ xs))
                  s request (all_requests space db_name os) (all_responses os ++ rest)
                  (unread os ++ rest) (map_ok (λ xs. sample_of o ∷ xs) (outcome os))
                  (subst
                    (λ r.
                      ComesTo (operate space db_name workload read_percent o.draw) s request
                        (all_responses os ++ rest) r)
                    (ap checked_as answered) first)
                  (ComesTo-map _ (λ xs. sample_of o ∷ xs) _ _ _ _ tail))
          | inr refused ↦
              let failed : (operate space db_name workload read_percent o.draw s).0
                  ≡ err request_failed =
                result ∙ ap checked_as refused in
              record {
                result_is = rw (run, failed, refused) refl;
                leaves = rw (run, failed, refused) first.leaves;
                sends = rw (run, failed, refused, append-nil request) first.sends;
              }
        ]
