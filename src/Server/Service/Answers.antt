-- ===== src/Server/Service/Answers.antt =====
-- A request from the client to the log of a database, and its reply on the way back.
use mini_db.Prelude.{
  ℕ, ◌≡◌, refl, sym, ap, ◌∙◌, ◌<◌, ◌^◌, none, some, ◌++◌, length, drop, drop-append_length, arith,
}
use mathlib.Core.Path.{subst}
use mini_db.Bytes.{Bytes}
use mini_db.Result.{Error, Result, ok, err}
use mini_db.Crc.{Crc32}
use mini_db.Storage.{Storage, CanRecover, CanWrite}
use mini_db.Stream.{Stream}
use mini_db.Stream.Does.{WritesWork}
use mini_db.Protocol.{Response, code_and_payload, send_response, read_response}
use mini_db.Protocol.Frames.{frame, sent-send_response, read_response_back}
use mini_db.Worker.{Query, get_key, set_key, delete_key}
use mini_db.Server.{
  Manager, Lookup, found, missing, Asked, refused, answered, Flow, Act, ◌>>=◌, ◌>>◌, pure,
  on_socket, on_manager, query_db, handle_request,
}
use mini_db.Server.Checks.{send_db_result_to_client}
use mini_db.Server.Agrees.{
  Request, create, info, drop_db, get, set, delete, IsServed, send_request, serve,
  handle_request-send_request,
}
use mini_db.Server.Service.Commands.{stem}
use mini_db.Server.Service.Applied.{query_db-applied}
use mini_db.Manager.Directory.{Folder, CanManage}
use mini_db.Manager.{DbManager, manager, get_db_handle, ask}
use mini_db.Manager.Spec.{
  Histories, Command, IsPossible, reply_of, perform, reply_to, after, Represents,
}
use mini_db.Manager.Refines.{perform-Represents}

-- The request that a client sends for a command.
abbrev pub request_of : Command → Request
request_of (Command.create n) = create n
request_of (Command.drop n) = drop_db n
request_of (Command.query n Query.info) = info n
request_of (Command.query n (get_key k)) = get n k
request_of (Command.query n (set_key k v)) = set n k v
request_of (Command.query n (delete_key k)) = delete n k

served-IsPossible :
    (max_key_size max_value_size : ℕ) (c : Command)
    → IsServed max_key_size max_value_size (request_of c)
    → IsPossible c
served-IsPossible mk mv (Command.create n) h = stem n h
served-IsPossible mk mv (Command.drop n) h = tt
served-IsPossible mk mv (Command.query n Query.info) h = tt
served-IsPossible mk mv (Command.query n (get_key k)) h = tt
served-IsPossible mk mv (Command.query n (set_key k v)) h =
    (record { has_key = h.1.not_zero; key_fits = h.1.fits; value_fits = h.2.fits }, tt)
served-IsPossible mk mv (Command.query n (delete_key k)) h =
    (record { has_key = h.1.not_zero; key_fits = h.1.fits; value_fits = omega arith }, tt)

module _ ⦃net : Stream⦄ ⦃crc : Crc32⦄ ⦃disk : Storage⦄ ⦃folder : Folder disk⦄ (sends : WritesWork)
    (display : Error → Bytes) where
  open net use {Socket, incoming, sent}

  instance abbrev dbs : Manager
  dbs = manager folder

  response_goes : (r : Response) (t : Socket) → (send_response r t).0 ≡ ok tt
  unfolding send_response
  response_goes r t = rw (send_response, sends t (frame r)) refl

  response_sent : (r : Response) (t : Socket) → sent (send_response r t).1 ≡ sent t ++ frame r
  response_sent r t = sent-send_response r t (response_goes r t)

  performed :
      (name : Bytes) (q : Query) (m : DbManager) (h : Bytes) (a : Asked)
      → get_db_handle name m ≡ found h
      → (ask h q m).0 ≡ a
      → (perform (Command.query name q) m).0 ≡ reply_of a
  unfolding perform
  performed name q m h a e r = rw (perform, e, r) refl

  not_performed :
      (name : Bytes) (q : Query) (m : DbManager) (rsp : Response)
      → get_db_handle name m ≡ missing rsp
      → (perform (Command.query name q) m).0 ≡ ok rsp
  unfolding perform
  not_performed name q m rsp e = rw (perform, e) refl

  -- What a query sends where the manager has a response to it.
  query_db-sent :
      (name : Bytes) (q : Query) (t : Socket) (m : DbManager) (response : Response)
      → (perform (Command.query name q) m).0 ≡ ok response
      → sent (query_db display name q t m).1 ≡ sent t ++ frame response
  unfolding query_db send_db_result_to_client
  query_db-sent name q t m response replied = by_handle (get_db_handle name m) refl
    where
      by_reply :
          (h : Bytes) (a : Asked)
          → get_db_handle name m ≡ found h
          → (ask h q m).0 ≡ a
          → reply_of a ≡ ok response
          → sent (query_db display name q t m).1 ≡ sent t ++ frame response
      by_reply h refused e r same = cc
      by_reply h (answered none) e r same = cc
      by_reply h (answered (some (err x))) e r same = cc
      by_reply h (answered (some (ok rsp))) e r same =
          rw (query_db, e, r)
            (response_sent rsp t ∙ ap (λ x. sent t ++ frame x) {x = rsp} {y = response} (cc))

      by_handle :
          (l : Lookup Bytes)
          → get_db_handle name m ≡ l
          → sent (query_db display name q t m).1 ≡ sent t ++ frame response
      by_handle (missing rsp) e =
          let same : rsp ≡ response = cc (not_performed name q m rsp e) in
          rw (query_db, e, response_goes rsp t)
            (response_sent rsp t ∙ ap (λ x. sent t ++ frame x) same)
      by_handle (found h) e =
          by_reply h (ask h q m).0 e refl
            (sym (performed name q m h (ask h q m).0 e refl) ∙ replied)

  then_pure :
      (act : Act (Unit {0})) (t : Socket) (m : DbManager)
      → (((act >> pure Flow.goes_on) t m).1 ≡ (act t m).1)
        × (((act >> pure Flow.goes_on) t m).2 ≡ (act t m).2)
  then_pure act t m = by_result (act t m).0 refl
    where
      by_result :
          (r : Result (Unit {0}))
          → (act t m).0 ≡ r
          → (((act >> pure Flow.goes_on) t m).1 ≡ (act t m).1)
            × (((act >> pure Flow.goes_on) t m).2 ≡ (act t m).2)
      by_result (ok a) e = rw e (refl, refl)
      by_result (err x) e = rw e (refl, refl)

  -- What the part behind a request's fields does, where the manager has a response.
  abbrev Answered :
      Socket → DbManager → Command → Response → Result Flow × Socket × DbManager → Type 0
  Answered t m c response outcome =
      (sent outcome.1 ≡ sent t ++ frame response) × (outcome.2 ≡ (perform c m).1)

  query-Answered :
      (name : Bytes) (q : Query) (t : Socket) (m : DbManager) (response : Response)
      → (perform (Command.query name q) m).0 ≡ ok response
      → Answered t m
          (Command.query name q)
          response
          ((query_db display name q >> pure Flow.goes_on) t m)
  query-Answered name q t m response replied =
      let (socket, state) = then_pure (query_db display name q) t m in
      (
        ap sent socket ∙ query_db-sent name q t m response replied,
        state ∙ query_db-applied display name q t m,
      )

  direct-Answered :
      (f : DbManager → Result Response × DbManager) (t : Socket) (m : DbManager)
      (response : Response)
      → (f m).0 ≡ ok response
      → let outcome =
          (on_manager f >>= λ rsp. on_socket (send_response rsp) >> pure Flow.goes_on) t m in
        (sent outcome.1 ≡ sent t ++ frame response) × (outcome.2 ≡ (f m).1)
  direct-Answered f t m response replied =
      rw (replied, response_goes response t) (response_sent response t, refl)

  module _ (uptime_hrs active_connections max_key_size max_value_size : ℕ) where
    abbrev served : Command → Act Flow
    served c =
        serve display uptime_hrs active_connections max_key_size max_value_size (request_of c)

    served-Answered :
        (c : Command) (t : Socket) (m : DbManager) (response : Response)
        → (perform c m).0 ≡ ok response
        → Answered t m c response (served c t m)
    unfolding perform
    served-Answered (Command.create n) t m response = direct-Answered (dbs.create_db n) t m response
    served-Answered (Command.drop n) t m response = direct-Answered (dbs.drop_db n) t m response
    served-Answered (Command.query n Query.info) t m response =
        query-Answered n Query.info t m response
    served-Answered (Command.query n (get_key k)) t m response =
        query-Answered n (get_key k) t m response
    served-Answered (Command.query n (set_key k v)) t m response =
        query-Answered n (set_key k v) t m response
    served-Answered (Command.query n (delete_key k)) t m response =
        query-Answered n (delete_key k) t m response

    abbrev round : Act Flow
    round = handle_request display uptime_hrs active_connections max_key_size max_value_size

    -- From the client to the log and back, on a disk that works and where the server's writes to its
    -- socket succeed: the client has sent the request for a command without an error, the limits
    -- allow it, what comes in at the server begins with its bytes, the databases are those of some
    -- histories, and these have a response to the command, whose payload's length fits a u32. Then,
    -- behind the server's round, where what comes in at the client begins with the bytes that the
    -- round has sent, the client reads exactly that response, what follows is left, and the
    -- databases are those of the histories after the command.
    pub request_answered :
        (recovers : CanRecover disk) (manages : CanManage disk folder) (writes : CanWrite disk)
        (c : Command) (response : Response) (h : Histories) (m : DbManager) (s t u : Socket)
        (rest left : Bytes)
        → IsServed max_key_size max_value_size (request_of c)
        → (send_request (request_of c) s).0 ≡ ok tt
        → incoming t ≡ drop (length (sent s)) (sent (send_request (request_of c) s).1) ++ rest
        → Represents h m
        → reply_to c h ≡ ok response
        → length (code_and_payload response).1 < 2 ^ 32
        → incoming u ≡ drop (length (sent t)) (sent (round t m).1) ++ left
        → ((read_response u).0 ≡ ok response)
          × (incoming (read_response u).1 ≡ left)
          × Represents (after c h) (round t m).2
    request_answered recovers manages writes c response h m s t u rest left allowed done arrives rep
          replied fits comes_back =
        let (reply, rep') =
          perform-Represents recovers manages writes c h m
            (served-IsPossible max_key_size max_value_size c allowed) rep in
        let (t', _, silent, outcome) =
          handle_request-send_request display uptime_hrs active_connections max_key_size
            max_value_size (request_of c) s t rest m allowed done arrives in
        let (answer, state) = served-Answered c t' m response (reply ∙ replied) in
        let goes : sent (round t m).1 ≡ sent t ++ frame response =
          ap (λ o. sent o.1) outcome ∙ answer ∙ ap (λ b. b ++ frame response) silent in
        let reads : incoming u ≡ frame response ++ left =
          comes_back
          ∙ ap (λ b. drop (length (sent t)) b ++ left) goes
          ∙ ap (λ b. b ++ left) (drop-append_length (sent t) (frame response)) in
        let (value, others, _) = read_response_back response u left fits reads in
        (value, others, subst (Represents (after c h)) (sym (ap (λ o. o.2) outcome ∙ state)) rep')
