-- ===== src/Server/Ends.antt =====
-- A connection ends: every round of its loop takes at least one byte off the socket.
use mini_db.Prelude.{Bool, ℕ, zero, suc, ◌+◌, ◌≤◌, ◌<◌, ◌≡◌, refl, Option, some, none, arith}
use mini_db.Bytes.{Bytes}
use mini_db.Result.{
  Error, io, queue_closed, no_database, Result, ok, err, unexpected_eof, connection_reset, other,
}
use mini_db.Stream.{Stream, Outcome, got, failed}
use mini_db.Stream.Io.{Io}
use mini_db.Stream.Shrinks.{left, Shrinks, read_u8_takes}
use mini_db.Protocol.{
  Operation, stats, ping, close, create, info, drop, get, set, delete, Response, send_response,
  from_u8,
}
use mini_db.Worker.{Query}
use mini_db.Server.Checks.{refuse, read_name, send_db_result_to_client}
use mini_db.Server.{
  Manager, Lookup, found, missing, Asked, refused, answered, Flow, goes_on, closed, Act, ◌>>=◌,
  ◌>>◌, pure, on_socket, on_manager, query_db, handle_operation, handle_code, handle_request,
}
use mini_db.Server.Connection.{Ended, ended, rounds, handle_client}
use mini_db.Server.Takes.{
  Shrinks-send_response, Shrinks-refuse, Shrinks-read_name, Shrinks-read_name_and_key,
  Shrinks-read_name_key_and_value, Shrinks-send_db_result_to_client,
}

-- Where an action succeeds, no more comes in behind it than before it.
module _ ⦃net : Stream⦄ ⦃dbs : Manager⦄ where
  open net use {Socket}
  open dbs use {State}

  record Lessens {A : Type 0} (act : Act A) : Type 0 where
    lessens : (s : Socket) (m : State) (a : A) → (act s m).0 ≡ ok a → left (act s m).1 ≤ left s

  Lessens-pure : {A : Type 0} (a : A) → Lessens (pure a)
  Lessens-pure a = record { lessens = λ s m b h. omega arith }

  Lessens-on_socket : {A : Type 0} (act : Io A) → Shrinks act → Lessens (on_socket act)
  Lessens-on_socket act h = record { lessens = λ s m a e. h.shrinks s a e }

  Lessens-on_manager : {A : Type 0} (f : State → Result A × State) → Lessens (on_manager f)
  Lessens-on_manager f = record { lessens = λ s m a e. omega arith }

  Lessens-then :
      {A B : Type 0} (act : Act A) (f : A → Act B)
      → Lessens act
      → ((a : A) → Lessens (f a))
      → Lessens (act >>= f)
  Lessens-then {A} {B} act f first second = record {
    lessens = λ s m b h. both s m b (act s m).0 refl h;
  }
    where
      both :
          (s : Socket) (m : State) (b : B) (r : Result A)
          → (act s m).0 ≡ r
          → ((act >>= f) s m).0 ≡ ok b
          → left ((act >>= f) s m).1 ≤ left s
      both s m b (ok a) e h =
          let done : (f a (act s m).1 (act s m).2).0 ≡ ok b = rw e at h in
          rw e (
            omega (arith, first.lessens s m a e, (second a).lessens (act s m).1 (act s m).2 b done))
      both s m b (err x) e h = let failure : err x ≡ ok b = rw e at h in absurd (cc)

  module _ (display : Error → Bytes) where
    Lessens-query_db : (name : Bytes) (q : Query) → Lessens (query_db display name q)
    unfolding query_db
    Lessens-query_db name q = record {
      lessens = λ s m a h. by_lookup s m a (dbs.get_db_handle name m) refl h;
    }
      where
        by_asked :
            (s : Socket) (m : State) (a : Unit {0}) (hd : dbs.Handle) (r : Asked)
            → dbs.get_db_handle name m ≡ found hd
            → (dbs.ask hd q m).0 ≡ r
            → (query_db display name q s m).0 ≡ ok a
            → left (query_db display name q s m).1 ≤ left s
        by_asked s m a hd refused e e' h =
            let failure : err queue_closed ≡ ok a = rw (query_db, e, e') at h in absurd (cc)
        by_asked s m a hd (answered reply) e e' h =
            let h' : (send_db_result_to_client display reply s).0 ≡ ok a =
              rw (query_db, e, e') at h in
            rw (query_db, e, e') ((Shrinks-send_db_result_to_client display reply).shrinks s a h')

        by_lookup :
            (s : Socket) (m : State) (a : Unit {0}) (l : Lookup dbs.Handle)
            → dbs.get_db_handle name m ≡ l
            → (query_db display name q s m).0 ≡ ok a
            → left (query_db display name q s m).1 ≤ left s
        by_lookup s m a (missing r) e h =
            let h' : (refuse {A = Unit {0}} r (no_database name) s).0 ≡ ok a =
              rw (query_db, e) at h in
            rw (query_db, e) ((Shrinks-refuse r (no_database name)).shrinks s a h')
        by_lookup s m a (found hd) e h = by_asked s m a hd (dbs.ask hd q m).0 e refl h

    module _ (uptime_hrs active_connections max_key_size max_value_size : ℕ) where
      query_round : (name : Bytes) (q : Query) → Lessens (query_db display name q >> pure goes_on)
      query_round name q = Lessens-then _ _ (Lessens-query_db name q) λ u. Lessens-pure goes_on

      reply_round : (r : Response) → Lessens (on_socket (send_response r) >> pure goes_on)
      reply_round r =
          Lessens-then _ _ (Lessens-on_socket _ (Shrinks-send_response r)) λ u. Lessens-pure goes_on

      Lessens-handle_operation :
          (op : Operation)
          → Lessens (
              handle_operation display uptime_hrs active_connections max_key_size max_value_size op)
      unfolding handle_operation
      Lessens-handle_operation stats = record {
        lessens = λ s m a h. (reply_round _).lessens s m a h;
      }
      Lessens-handle_operation ping = reply_round _
      Lessens-handle_operation close = Lessens-pure closed
      Lessens-handle_operation create =
          Lessens-then _ _ (Lessens-on_socket read_name Shrinks-read_name)
            λ name. Lessens-then _ _ (Lessens-on_manager (dbs.create_db name)) reply_round
      Lessens-handle_operation info =
          Lessens-then _ _ (Lessens-on_socket read_name Shrinks-read_name)
            λ name. query_round name _
      Lessens-handle_operation drop =
          Lessens-then _ _ (Lessens-on_socket read_name Shrinks-read_name)
            λ name. Lessens-then _ _ (Lessens-on_manager (dbs.drop_db name)) reply_round
      Lessens-handle_operation get =
          Lessens-then _ _ (Lessens-on_socket _ (Shrinks-read_name_and_key max_key_size))
            λ f. query_round _ _
      Lessens-handle_operation set =
          Lessens-then _ _
            (Lessens-on_socket _ (Shrinks-read_name_key_and_value max_key_size max_value_size))
            λ f. query_round _ _
      Lessens-handle_operation delete =
          Lessens-then _ _ (Lessens-on_socket _ (Shrinks-read_name_and_key max_key_size))
            λ f. query_round _ _

      Lessens-handle_code :
          (op : Option Operation)
          → Lessens
              (handle_code display uptime_hrs active_connections max_key_size max_value_size op)
      unfolding handle_code
      Lessens-handle_code (some op) = Lessens-handle_operation op
      Lessens-handle_code none = Lessens-on_socket _ (Shrinks-refuse _ _)

      abbrev pub round : Act Flow
      round = handle_request display uptime_hrs active_connections max_key_size max_value_size

      pub round_takes :
          (s : Socket) (m : State) (o : Outcome ℕ)
          → (net.read_u8 s).0 ≡ o
          → (round s m).0 ≡ ok goes_on
          → left (round s m).1 < left s
      unfolding handle_request
      round_takes s m (failed unexpected_eof) e h =
          let stopped : ok closed ≡ ok goes_on = rw (handle_request, e) at h in absurd (cc)
      round_takes s m (failed connection_reset) e h =
          let stopped : err (io connection_reset) ≡ ok goes_on = rw (handle_request, e) at h in
          absurd (cc)
      round_takes s m (failed other) e h =
          let stopped : err (io other) ≡ ok goes_on = rw (handle_request, e) at h in absurd (cc)
      round_takes s m (got n) e h =
          let code =
            handle_code display uptime_hrs active_connections max_key_size max_value_size
              (from_u8 n) in
          let h' : (code (net.read_u8 s).1 m).0 ≡ ok goes_on = rw (handle_request, e) at h in
          rw (handle_request, e)
            (omega (
              arith,
              read_u8_takes s n e,
              (Lessens-handle_code (from_u8 n)).lessens (net.read_u8 s).1 m goes_on h',
            ))

  module _ (display : Error → Bytes) (uptime_hrs active_connections : ℕ → ℕ)
      (max_key_size max_value_size : ℕ) where
    abbrev connection : ℕ → ℕ → Socket → State → Ended × Socket × State
    connection = rounds display uptime_hrs active_connections max_key_size max_value_size

    rounds_end :
        (fuel n : ℕ) (s : Socket) (m : State)
        → left s < fuel
        → (r : Result (Unit {0})) × ((connection fuel n s m).0 ≡ ended r)
    unfolding rounds
    rounds_end zero n s m h = absurd (omega (arith, h))
    rounds_end (suc fuel) n s m h =
        by_flow (λ less. rounds_end fuel (n + 1) step.1 step.2 less) step.0 refl
      where
        step : Result Flow × Socket × State
        step = round display (uptime_hrs n) (active_connections n) max_key_size max_value_size s m

        by_flow :
            (left step.1 < fuel
              → (r : Result (Unit {0})) × ((connection fuel (n + 1) step.1 step.2).0 ≡ ended r))
            → (r : Result Flow) → step.0 ≡ r
            → (r : Result (Unit {0})) × ((connection (suc fuel) n s m).0 ≡ ended r)
        by_flow again (ok goes_on) e =
            let takes =
              round_takes display (uptime_hrs n) (active_connections n) max_key_size max_value_size
                s m (net.read_u8 s).0 refl e in
            let (r, rest) = again (omega (arith, h, takes)) in (r, rw (rounds, e) rest)
        by_flow again (ok closed) e = (ok tt, rw (rounds, e) refl)
        by_flow again (err x) e = (err x, rw (rounds, e) refl)

    -- A connection ends, with a result, within as many rounds as bytes come in and one more,
    -- whatever the read of the socket's nodelay option gives, whatever the client sends and
    -- whatever the manager answers.
    pub handle_client_ends :
        (nodelay : Result Bool) (fuel n : ℕ) (s : Socket) (m : State)
        → left s < fuel
        → (r : Result (Unit {0})) × ((handle_client display uptime_hrs active_connections
              max_key_size max_value_size nodelay fuel n s m).0
            ≡ ended r)
    unfolding handle_client
    handle_client_ends (err e) fuel n s m h = (err e, refl)
    handle_client_ends (ok nodelay) fuel n s m h = rounds_end fuel n s m h
