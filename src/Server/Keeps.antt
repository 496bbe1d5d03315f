-- ===== src/Server/Keeps.antt =====
-- What the operations of the manager keep, a connection keeps.
use mini_db.Prelude.{ℕ, ◌≡◌, refl, Option, none, some}
use mini_db.Bytes.{Bytes}
use mini_db.Result.{Error, unexpected_eof, connection_reset, other, Result, ok, err}
use mini_db.Stream.{Stream, Outcome, got, failed}
use mini_db.Stream.Io.{Io}
use mini_db.Server.Checks.{read_name}
use mini_db.Protocol.{
  Response, send_response, Operation, stats, ping, close, create, info, drop, get, set, delete,
  from_u8,
}
use mini_db.Worker.{Query, get_key, set_key, delete_key}
use mini_db.Server.{
  Manager, Lookup, found, missing, Asked, refused, answered, Flow, Act, ◌>>=◌, ◌>>◌, pure, current,
  on_socket, on_manager, query_db, handle_operation, handle_code, handle_request,
}

module _ ⦃net : Stream⦄ ⦃dbs : Manager⦄ (P : dbs.State → Type 0) where
  open net use {Socket}
  open dbs use {State}

  -- The manager's operations keep `P`.
  pub record AllKeep : Type 0 where
    pub creates : (name : Bytes) (m : State) → P m → P (dbs.create_db name m).1
    pub drops : (name : Bytes) (m : State) → P m → P (dbs.drop_db name m).1
    pub asks : (h : dbs.Handle) (q : Query) (m : State) → P m → P (dbs.ask h q m).1

  record Keeps {A : Type 0} (act : Act A) : Type 0 where
    pub keeps : (s : Socket) (m : State) → P m → P (act s m).2

  Keeps-pure : {A : Type 0} (a : A) → Keeps (pure a)
  Keeps-pure a = record { keeps = λ s m p. p }

  Keeps-on_socket : {A : Type 0} (io : Io A) → Keeps (on_socket io)
  Keeps-on_socket io = record { keeps = λ s m p. p }

  Keeps-then :
      {A B : Type 0} (act : Act A) (f : A → Act B)
      → Keeps act
      → ((a : A) → Keeps (f a))
      → Keeps (act >>= f)
  Keeps-then {A} {B} act f first second = record { keeps = λ s m p. both s m p (act s m).0 refl }
    where
      both :
          (s : Socket) (m : State) → P m → (r : Result A) → (act s m).0 ≡ r → P ((act >>= f) s m).2
      both s m p (ok a) e = rw e ((second a).keeps (act s m).1 (act s m).2 (first.keeps s m p))
      both s m p (err x) e = rw e (first.keeps s m p)

  module _ (all : AllKeep) (display : Error → Bytes) where
    Keeps-query_db : (name : Bytes) (q : Query) → Keeps (query_db display name q)
    unfolding query_db
    Keeps-query_db name q = record {
      keeps = λ s m p. by_handle s m p (dbs.get_db_handle name m) refl;
    }
      where
        by_reply :
            (s : Socket) (m : State) (h : dbs.Handle)
            → P (dbs.ask h q m).1
            → dbs.get_db_handle name m ≡ found h
            → (a : Asked) → (dbs.ask h q m).0 ≡ a
            → P (query_db display name q s m).2
        by_reply s m h p e refused r = rw (query_db, e, r) p
        by_reply s m h p e (answered reply) r = rw (query_db, e, r) p

        by_handle :
            (s : Socket) (m : State)
            → P m
            → (l : Lookup dbs.Handle) → dbs.get_db_handle name m ≡ l
            → P (query_db display name q s m).2
        by_handle s m p (missing rsp) e = rw (query_db, e) p
        by_handle s m p (found h) e = by_reply s m h (all.asks h q m p) e (dbs.ask h q m).0 refl

    module _ (uptime_hrs active_connections max_key_size max_value_size : ℕ) where
      abbrev operate : Operation → Act Flow
      operate = handle_operation display uptime_hrs active_connections max_key_size max_value_size

      then_goes_on : {A : Type 0} (io : Io A) → Keeps (on_socket io >> pure Flow.goes_on)
      then_goes_on io =
          Keeps-then (on_socket io) _ (Keeps-on_socket io) (λ a. Keeps-pure Flow.goes_on)

      then_query : (name : Bytes) (q : Query) → Keeps (query_db display name q >> pure Flow.goes_on)
      then_query name q =
          Keeps-then (query_db display name q) _ (Keeps-query_db name q)
            (λ a. Keeps-pure Flow.goes_on)

      then_reply :
          (f : Bytes → State → Result Response × State)
          → ((name : Bytes) (m : State) → P m → P (f name m).1)
          → Keeps (
              on_socket read_name >>= λ name.
              on_manager (f name) >>= λ rsp. on_socket (send_response rsp) >> pure Flow.goes_on)
      then_reply f keeps = Keeps-then (on_socket read_name) _ (Keeps-on_socket read_name) λ name.
          Keeps-then (on_manager (f name)) _ (record { keeps = λ s m p. keeps name m p })
            λ rsp. then_goes_on (send_response rsp)

      Keeps-operate : (op : Operation) → Keeps (operate op)
      unfolding handle_operation
      Keeps-operate stats =
          Keeps-then current _ (record { keeps = λ s m p. p }) (λ m. then_goes_on _)
      Keeps-operate ping = then_goes_on _
      Keeps-operate close = Keeps-pure _
      Keeps-operate create = then_reply dbs.create_db all.creates
      Keeps-operate info = Keeps-then _ _ (Keeps-on_socket _) λ name. then_query name Query.info
      Keeps-operate drop = then_reply dbs.drop_db all.drops
      Keeps-operate get = Keeps-then _ _ (Keeps-on_socket _) λ a. then_query a.0 (get_key a.1)
      Keeps-operate set = Keeps-then _ _ (Keeps-on_socket _) λ a. then_query a.0 (set_key a.1 a.2)
      Keeps-operate delete = Keeps-then _ _ (Keeps-on_socket _) λ a. then_query a.0 (delete_key a.1)

      abbrev round : Act Flow
      round = handle_request display uptime_hrs active_connections max_key_size max_value_size

      -- Whatever comes in: one round of a connection keeps what every operation of the manager keeps.
      pub handle_request-Keeps : (s : Socket) (m : State) → P m → P (round s m).2
      unfolding handle_request handle_code
      handle_request-Keeps s m p = by_read (net.read_u8 s).0 refl
        where
          by_code :
              (n : ℕ) (o : Option Operation)
              → (net.read_u8 s).0 ≡ got n
              → from_u8 n ≡ o
              → P (round s m).2
          by_code n (some op) e known =
              rw (handle_request, e, handle_code, known)
                ((Keeps-operate op).keeps (net.read_u8 s).1 m p)
          by_code n none e unknown = rw (handle_request, e, handle_code, unknown) p

          by_read : (o : Outcome ℕ) → (net.read_u8 s).0 ≡ o → P (round s m).2
          by_read (failed unexpected_eof) e = rw (handle_request, e) p
          by_read (failed connection_reset) e = rw (handle_request, e) p
          by_read (failed other) e = rw (handle_request, e) p
          by_read (got n) e = by_code n (from_u8 n) e refl
