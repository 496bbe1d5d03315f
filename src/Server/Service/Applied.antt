-- ===== src/Server/Service/Applied.antt =====
-- A round of a connection with the manager of manager.rs performs the command that comes in.
use mini_db.Prelude.{ℕ, ◌≡◌, refl, ◌∙◌, Option, none, some, []}
use mini_db.Prelude.Text.{codes}
use mini_db.Bytes.{Bytes, as_u32}
use mini_db.Packet.{stats_to_bytes}
use mini_db.Result.{Error, unexpected_eof, connection_reset, other, Result, ok, err}
use mini_db.Crc.{Crc32}
use mini_db.Storage.{Storage}
use mini_db.Stream.{Stream, Outcome, got, failed}
use mini_db.Stream.Io.{Io}
use mini_db.Protocol.{
  Response, okay, pong, send_response, Operation, stats, ping, close, create, info, drop, get, set,
  delete, from_u8,
}
use mini_db.Worker.{Query, get_key, set_key, delete_key}
use mini_db.Server.{
  Manager, Lookup, found, missing, Asked, refused, answered, Flow, Act, ◌>>=◌, ◌>>◌, pure, current,
  on_socket, on_manager, query_db, handle_operation, handle_code, handle_request,
}
use mini_db.Server.Checks.{read_name, read_name_and_key, read_name_key_and_value}
use mini_db.Manager.Directory.{Folder}
use mini_db.Manager.{DbManager, manager, get_db_handle, ask}
use mini_db.Manager.Spec.{Command, perform}
use mini_db.Server.Service.Commands.{of_ok, command_of, command_in}

module _ ⦃net : Stream⦄ ⦃crc : Crc32⦄ ⦃disk : Storage⦄ ⦃folder : Folder disk⦄ where
  open net use {Socket}

  abbrev pub applied : Option Command → DbManager → DbManager
  applied none m = m
  applied (some c) m = (perform c m).1

  instance abbrev dbs : Manager
  dbs = manager folder

  -- A part that leaves the manager alone.
  record Quiet {A : Type 0} (act : Act A) : Type 0 where
    pub quiet : (s : Socket) (m : DbManager) → (act s m).2 ≡ m

  then-Quiet :
      {A B : Type 0} (act : Act A) (f : A → Act B) (s : Socket) (m : DbManager)
      → ((a : A) → Quiet (f a))
      → ((act >>= f) s m).2 ≡ (act s m).2
  then-Quiet {A} {B} act f s m q = by_result (act s m).0 refl
    where
      by_result : (r : Result A) → (act s m).0 ≡ r → ((act >>= f) s m).2 ≡ (act s m).2
      by_result (ok a) e = rw e ((q a).quiet (act s m).1 (act s m).2)
      by_result (err x) e = rw e refl

  Quiet-then :
      {A B : Type 0} (act : Act A) (f : A → Act B)
      → Quiet act
      → ((a : A) → Quiet (f a))
      → Quiet (act >>= f)
  Quiet-then act f first rest = record {
    quiet = λ s m. then-Quiet act f s m rest ∙ first.quiet s m;
  }

  Quiet-pure : {A : Type 0} (a : A) → Quiet (pure a)
  Quiet-pure a = record { quiet = λ s m. refl }

  Quiet-on_socket : {A : Type 0} (io : Io A) → Quiet (on_socket io)
  Quiet-on_socket io = record { quiet = λ s m. refl }

  sends_on : (r : Response) → Quiet (on_socket (send_response r) >> pure Flow.goes_on)
  sends_on r = Quiet-then _ _ (Quiet-on_socket (send_response r)) (λ _. Quiet-pure Flow.goes_on)

  -- Behind the fields of a request, a part that performs the command.
  fields-applied :
      {A B : Type 0} (io : Io A) (g : A → Command) (f : A → Act B) (s : Socket) (m : DbManager)
      → ((a : A) (t : Socket) → (f a t m).2 ≡ (perform (g a) m).1)
      → ((on_socket io >>= f) s m).2 ≡ applied (of_ok g (io s).0) m
  fields-applied {A} io g f s m h = by_result (io s).0 refl
    where
      by_result :
          (r : Result A) → (io s).0 ≡ r → ((on_socket io >>= f) s m).2 ≡ applied (of_ok g r) m
      by_result (ok a) e = rw e (h a (io s).1)
      by_result (err x) e = rw e refl

  module _ (display : Error → Bytes) where
    pub query_db-applied :
        (name : Bytes) (q : Query) (s : Socket) (m : DbManager)
        → (query_db display name q s m).2 ≡ (perform (Command.query name q) m).1
    unfolding query_db perform
    query_db-applied name q s m = by_handle (get_db_handle name m) refl
      where
        by_reply :
            (h : Bytes) (a : Asked)
            → get_db_handle name m ≡ found h
            → (ask h q m).0 ≡ a
            → (query_db display name q s m).2 ≡ (perform (Command.query name q) m).1
        by_reply h refused e r = rw (query_db, perform, e, r) refl
        by_reply h (answered reply) e r = rw (query_db, perform, e, r) refl

        by_handle :
            (l : Lookup Bytes)
            → get_db_handle name m ≡ l
            → (query_db display name q s m).2 ≡ (perform (Command.query name q) m).1
        by_handle (missing rsp) e = rw (query_db, perform, e) refl
        by_handle (found h) e = by_reply h (ask h q m).0 e refl

    then_query :
        (name : Bytes) (q : Query) (s : Socket) (m : DbManager)
        → ((query_db display name q >> pure Flow.goes_on) s m).2
          ≡ (perform (Command.query name q) m).1
    then_query name q s m =
        then-Quiet (query_db display name q) _ s m (λ _. Quiet-pure Flow.goes_on)
        ∙ query_db-applied name q s m

    module _ (uptime_hrs active_connections max_key_size max_value_size : ℕ) where
      operation-applied :
          (op : Operation) (s : Socket) (m : DbManager)
          → (handle_operation display uptime_hrs active_connections max_key_size max_value_size op s
              m).2
            ≡ applied (command_of max_key_size max_value_size op s) m
      unfolding handle_operation command_of perform
      operation-applied stats s m = then-Quiet current _ s m λ now. sends_on (
          okay
            (stats_to_bytes
              (record {
                uptime_hrs = uptime_hrs;
                total_dbs = as_u32 (dbs.db_count now);
                total_active_connections = active_connections;
              })
              []).0)
      operation-applied ping s m = (sends_on (pong (codes "PONG"))).quiet s m
      operation-applied close s m = refl
      operation-applied create s m =
          fields-applied read_name Command.create _ s m
            λ name t. then-Quiet (on_manager (dbs.create_db name)) _ t m sends_on
      operation-applied drop s m =
          fields-applied read_name Command.drop _ s m
            λ name t. then-Quiet (on_manager (dbs.drop_db name)) _ t m sends_on
      operation-applied info s m =
          fields-applied read_name (λ name. Command.query name Query.info) _ s m
            λ name t. then_query name Query.info t m
      operation-applied get s m =
          fields-applied (read_name_and_key max_key_size) (λ a. Command.query a.0 (get_key a.1)) _ s
            m λ a t. then_query a.0 (get_key a.1) t m
      operation-applied set s m =
          fields-applied (read_name_key_and_value max_key_size max_value_size)
            (λ a. Command.query a.0 (set_key a.1 a.2)) _ s m
            λ a t. then_query a.0 (set_key a.1 a.2) t m
      operation-applied delete s m =
          fields-applied (read_name_and_key max_key_size) (λ a. Command.query a.0 (delete_key a.1))
            _ s m λ a t. then_query a.0 (delete_key a.1) t m

      abbrev round : Act Flow
      round = handle_request display uptime_hrs active_connections max_key_size max_value_size

      -- A round leaves the manager behind the command that comes in, or as it was if none does.
      pub handle_request-applied :
          (s : Socket) (m : DbManager)
          → (round s m).2 ≡ applied (command_in max_key_size max_value_size s) m
      unfolding handle_request handle_code command_in
      handle_request-applied s m = by_read (net.read_u8 s).0 refl
        where
          by_code :
              (n : ℕ) (o : Option Operation)
              → (net.read_u8 s).0 ≡ got n
              → from_u8 n ≡ o
              → (round s m).2 ≡ applied (command_in max_key_size max_value_size s) m
          by_code n (some op) e known =
              rw (handle_request, command_in, e, handle_code, known)
                (operation-applied op (net.read_u8 s).1 m)
          by_code n none e unknown = rw (handle_request, command_in, e, handle_code, unknown) refl

          by_read :
              (o : Outcome ℕ)
              → (net.read_u8 s).0 ≡ o
              → (round s m).2 ≡ applied (command_in max_key_size max_value_size s) m
          by_read (failed unexpected_eof) e = rw (handle_request, command_in, e) refl
          by_read (failed connection_reset) e = rw (handle_request, command_in, e) refl
          by_read (failed other) e = rw (handle_request, command_in, e) refl
          by_read (got n) e = by_code n (from_u8 n) e refl
