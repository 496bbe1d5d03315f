-- ===== src/Server/Agrees.antt =====
-- The client's requests and the server: what bin/client.rs sends is what bin/main.rs serves.
use mini_db.Prelude.{ℕ, ◌≡◌, refl, ap, ◌∙◌, [], ◌∷◌, ◌++◌, some, length, drop, drop-append_length}
use mini_db.Prelude.Text.{codes}
use mini_db.Bytes.{Bytes, as_u32}
use mini_db.Result.{Error, Result, ok}
use mini_db.Stream.{Stream, got}
use mini_db.Stream.Io.{Io}
use mini_db.Stream.Exchange.{Sends, Reads, Sends-write_all}
use mini_db.Packet.{stats_to_bytes}
use mini_db.Protocol.{Operation, okay, pong, send_response, from_u8, to_u8}
use mini_db.Protocol.Codes.{from_u8_iff}
use mini_db.Client.{
  send_ping, send_close, send_stats, send_create, send_info, send_drop, send_get, send_set,
  send_delete,
}
use mini_db.Client.Sends.{
  name_fields, key_fields, set_fields, Sends-send_db_op, Sends-send_get, Sends-send_set,
  Sends-send_delete,
}
use mini_db.Worker.{get_key, set_key, delete_key}
use mini_db.Worker
use mini_db.Server.{
  Manager, Flow, goes_on, closed, Act, ◌>>=◌, ◌>>◌, pure, on_socket, on_manager, query_db,
  handle_operation, handle_code, handle_request,
}
use mini_db.Server.Fields.{
  IsName, IsSize, Reads-read_name, Reads-read_name_and_key, Reads-read_name_key_and_value,
}

-- A request as the client's user means it.
pub data Request : Type 0 where
  stats ping close : Request
  create info drop_db : Bytes → Request
  get delete : Bytes → Bytes → Request
  set : Bytes → Bytes → Bytes → Request

abbrev pub op_of : Request → Operation
op_of stats = Operation.stats
op_of ping = Operation.ping
op_of close = Operation.close
op_of (create n) = Operation.create
op_of (info n) = Operation.info
op_of (drop_db n) = Operation.drop
op_of (get n k) = Operation.get
op_of (delete n k) = Operation.delete
op_of (set n k v) = Operation.set

abbrev pub fields : Request → Bytes
fields stats = []
fields ping = []
fields close = []
fields (create n) = name_fields n
fields (info n) = name_fields n
fields (drop_db n) = name_fields n
fields (get n k) = key_fields n k
fields (delete n k) = key_fields n k
fields (set n k v) = set_fields n k v

-- The request's name and sizes are such as a server with these limits takes.
abbrev pub IsServed : ℕ → ℕ → Request → Type 0
IsServed mk mv stats = Unit {0}
IsServed mk mv ping = Unit {0}
IsServed mk mv close = Unit {0}
IsServed mk mv (create n) = IsName n
IsServed mk mv (info n) = IsName n
IsServed mk mv (drop_db n) = IsName n
IsServed mk mv (get n k) = IsName n × IsSize mk (length k)
IsServed mk mv (delete n k) = IsName n × IsSize mk (length k)
IsServed mk mv (set n k v) = IsName n × IsSize mk (length k) × IsSize mv (length v)

module _ ⦃net : Stream⦄ where
  -- What the client calls for a request.
  abbrev pub send_request : Request → Io (Unit {0})
  send_request stats = send_stats
  send_request ping = send_ping
  send_request close = send_close
  send_request (create n) = send_create n
  send_request (info n) = send_info n
  send_request (drop_db n) = send_drop n
  send_request (get n k) = send_get n k
  send_request (delete n k) = send_delete n k
  send_request (set n k v) = send_set n k v

  pub Sends-send_request : (r : Request) → Sends (send_request r) (to_u8 (op_of r) ∷ fields r)
  unfolding send_stats send_ping send_close send_create send_info send_drop
  Sends-send_request stats = Sends-write_all _
  Sends-send_request ping = Sends-write_all _
  Sends-send_request close = Sends-write_all _
  Sends-send_request (create n) = Sends-send_db_op Operation.create n
  Sends-send_request (info n) = Sends-send_db_op Operation.info n
  Sends-send_request (drop_db n) = Sends-send_db_op Operation.drop n
  Sends-send_request (get n k) = Sends-send_get n k
  Sends-send_request (delete n k) = Sends-send_delete n k
  Sends-send_request (set n k v) = Sends-send_set n k v

module _ ⦃net : Stream⦄ ⦃dbs : Manager⦄ (display : Error → Bytes)
    (uptime_hrs active_connections max_key_size max_value_size : ℕ) where
  open net use {Socket, incoming, sent}
  open dbs use {State}

  -- What a request comes to, once it is read: the manager's answer, sent to the client.
  abbrev pub serve : Request → Act Flow
  serve stats s m =
      (on_socket (
            send_response (
              okay
                (stats_to_bytes
                  (record {
                    uptime_hrs = uptime_hrs;
                    total_dbs = as_u32 (dbs.db_count m);
                    total_active_connections = active_connections;
                  })
                  []).0))
          >> pure goes_on)
        s m
  serve ping s m = (on_socket (send_response (pong (codes "PONG"))) >> pure goes_on) s m
  serve close s m = pure closed s m
  serve (create n) s m =
      (on_manager (dbs.create_db n) >>= λ rsp. on_socket (send_response rsp) >> pure goes_on) s m
  serve (info n) s m = (query_db display n Worker.info >> pure goes_on) s m
  serve (drop_db n) s m =
      (on_manager (dbs.drop_db n) >>= λ rsp. on_socket (send_response rsp) >> pure goes_on) s m
  serve (get n k) s m = (query_db display n (get_key k) >> pure goes_on) s m
  serve (delete n k) s m = (query_db display n (delete_key k) >> pure goes_on) s m
  serve (set n k v) s m = (query_db display n (set_key k v) >> pure goes_on) s m

  -- The round on `t` does what `act` does behind the request's bytes.
  abbrev pub Serves : Socket → Bytes → State → Act Flow → Result Flow × Socket × State → Type 0
  Serves t rest m act outcome =
      (t' : Socket) × (incoming t' ≡ rest) × (sent t' ≡ sent t) × (outcome ≡ act t' m)

  abbrev operate : Operation → Act Flow
  operate = handle_operation display uptime_hrs active_connections max_key_size max_value_size

  behind :
      {A : Type 0} (io : Io A) (f : A → Act Flow) (b : Bytes) (x : A) (t : Socket) (rest : Bytes)
      (m : State)
      → Reads io b x
      → incoming t ≡ b ++ rest
      → Serves t rest m (f x) ((on_socket io >>= f) t m)
  behind io f b x t rest m reads h =
      let (r, i, s) = reads.reads t rest h in ((io t).1, i, s, rw r refl)

  operate-fields :
      (r : Request) (t : Socket) (rest : Bytes) (m : State)
      → IsServed max_key_size max_value_size r
      → incoming t ≡ fields r ++ rest
      → Serves t rest m (serve r) (operate (op_of r) t m)
  unfolding handle_operation
  operate-fields stats t rest m v h = (t, h, refl, refl)
  operate-fields ping t rest m v h = (t, h, refl, refl)
  operate-fields close t rest m v h = (t, h, refl, refl)
  operate-fields (create n) t rest m v h = behind _ _ _ n t rest m (Reads-read_name n v) h
  operate-fields (info n) t rest m v h = behind _ _ _ n t rest m (Reads-read_name n v) h
  operate-fields (drop_db n) t rest m v h = behind _ _ _ n t rest m (Reads-read_name n v) h
  operate-fields (get n k) t rest m v h =
      behind _ _ _ (n, k) t rest m (Reads-read_name_and_key n v.0 max_key_size k v.1) h
  operate-fields (delete n k) t rest m v h =
      behind _ _ _ (n, k) t rest m (Reads-read_name_and_key n v.0 max_key_size k v.1) h
  operate-fields (set n k x) t rest m v h =
      behind _ _ _ (n, k, x) t rest m
        (Reads-read_name_key_and_value n v.0 max_key_size k v.1 max_value_size x v.2) h

  dispatch :
      (n : ℕ) (op : Operation) (t : Socket) (m : State)
      → (net.read_u8 t).0 ≡ got n
      → from_u8 n ≡ some op
      → handle_request display uptime_hrs active_connections max_key_size max_value_size t m
        ≡ operate op (net.read_u8 t).1 m
  unfolding handle_request handle_code
  dispatch n op t m first known = rw (handle_request, first, handle_code, known) refl

  -- A request that the client has sent without an error and that the server's limits allow is served
  -- as it was meant: where what comes in at the server begins with the bytes that the client sent,
  -- one round takes exactly these off the socket, sends nothing for reading them, and then does with
  -- the manager and the socket what the request asks for.
  pub handle_request-send_request :
      (r : Request) (s t : Socket) (rest : Bytes) (m : State)
      → IsServed max_key_size max_value_size r
      → (send_request r s).0 ≡ ok tt
      → incoming t ≡ drop (length (sent s)) (sent (send_request r s).1) ++ rest
      → Serves t rest m
          (serve r)
          (handle_request display uptime_hrs active_connections max_key_size max_value_size t m)
  handle_request-send_request r s t rest m v done h =
      let arrives : incoming t ≡ to_u8 (op_of r) ∷ (fields r ++ rest) =
        h
        ∙ ap (λ b. drop (length (sent s)) b ++ rest) ((Sends-send_request r).sends s done)
        ∙ ap (λ b. b ++ rest) (drop-append_length (sent s) (to_u8 (op_of r) ∷ fields r)) in
      let (first, left) = net.read_u8-got t (to_u8 (op_of r)) (fields r ++ rest) arrives in
      let (t', i, quiet, e) = operate-fields r (net.read_u8 t).1 rest m v left in
      (
        t',
        i,
        quiet ∙ net.sent-read_u8 t,
        dispatch (to_u8 (op_of r)) (op_of r) t m first
              ((from_u8_iff (to_u8 (op_of r)) (op_of r)).1 refl)
            ∙ e,
      )
