-- ===== src/Client/Script.antt =====
-- A session with the client: the user's lines, the responses that come in, and what the client sends
-- and prints.
use mini_db.Prelude.{
  ℕ, zero, suc, ◌<◌, ◌^◌, ◌≡◌, refl, ap, sym, ◌∙◌, true, false, List, [], ◌∷◌, ◌++◌, length,
  append_assoc, All, arith,
}
use mathlib.Core.Path.{subst}
use mini_db.Bytes.{Bytes}
use mini_db.Result.{ok}
use mini_db.Stream.{Stream}
use mini_db.Stream.Io.{Io, write_all, ◌>>◌}
use mini_db.Stream.Does.{WritesWork, Does}
use mini_db.Protocol.{read_response, Operation, Response, code_and_payload, to_u8}
use mini_db.Protocol.Frames.{frame, read_response_back}
use mini_db.Server.Names.{is_utf8, utf8_from, utf8_lead}
use mini_db.Server.Agrees.{
  Request, stats, ping, close, create, info, drop_db, get, delete, set, send_request, op_of, fields,
  Sends-send_request,
}
use mini_db.Client.{
  send_ping, send_close, send_stats, send_db_op, send_create, send_info, send_drop, send_get,
  send_set, send_delete,
}
use mini_db.Client.Words.{Text}
use mini_db.Client.Screen.{Line}
use mini_db.Client.Repl.{prompts, exchange, run_line, repl, run_client, health_check}
use mini_db.Client.Typed.{line_of, IsTyped, show, asks, run_line-line_of}

-- The line for `read_line`, with its end.
abbrev entered : Request → Bytes
entered r = line_of r ++ 10 ∷ []

module _ ⦃net : Stream⦄ where
  open net use {Socket, incoming, sent}

  -- A request of the user, the response that comes in, and what is printed of it.
  pub record Turn : Type 0 where
    pub request : Request
    pub response : Response
    pub line : Line

  abbrev IsOpen : Request → Type 0
  IsOpen close = ⊥
  IsOpen _ = Unit {0}

  pub record IsTurn (current_db : Bytes) (t : Turn) : Type 0 where
    pub typed : IsTyped current_db t.request
    pub stays_open : IsOpen t.request
    pub utf8 : is_utf8 (entered t.request) ≡ true
    pub fits : length (code_and_payload t.response).1 < 2 ^ 32
    pub prints : show t.request t.response ≡ ok t.line

  -- The lines, with a last one that quits, the responses, the requests and the output.
  abbrev pub typed_lines : List Turn → List Bytes
  typed_lines [] = entered close ∷ []
  typed_lines (t ∷ ts) = entered t.request ∷ typed_lines ts

  abbrev pub responses : List Turn → Bytes
  responses [] = []
  responses (t ∷ ts) = frame t.response ++ responses ts

  abbrev pub requests : List Turn → Bytes
  requests [] = to_u8 (op_of close) ∷ []
  requests (t ∷ ts) = (to_u8 (op_of t.request) ∷ fields t.request) ++ requests ts

  abbrev pub printed : List Turn → List Line
  printed [] = []
  printed (t ∷ ts) = t.line ∷ printed ts

  module _ (writes : WritesWork) where
    -- The code succeeds, and what comes in stays.
    record Works (m : Io (Unit {0})) : Type 0 where
      pub works : (s : Socket) → ((m s).0 ≡ ok tt) × (incoming (m s).1 ≡ incoming s)

    Works-write_all : (b : Bytes) → Works (write_all b)
    Works-write_all b = record { works = λ s. (rw (writes s b) refl, net.incoming-write_all s b) }

    Works-then : (m k : Io (Unit {0})) → Works m → Works k → Works (m >> k)
    Works-then m k first second = record {
      works = λ s.
          let (done, left) = first.works s in
          let (done', left') = second.works (m s).1 in rw done (done', left' ∙ left);
    }

    write_then : (a : Bytes) (k : Io (Unit {0})) → Works k → Works (write_all a >> k)
    write_then a k h = Works-then (write_all a) k (Works-write_all a) h

    Works-send_db_op : (op : Operation) (n : Bytes) → Works (send_db_op op n)
    unfolding send_db_op
    Works-send_db_op op n = write_then _ _ (write_then _ _ (Works-write_all n))

    Works-send_request : (r : Request) → Works (send_request r)
    unfolding send_stats send_ping send_close send_create send_info send_drop send_get send_set
        send_delete
    Works-send_request stats = Works-write_all _
    Works-send_request ping = Works-write_all _
    Works-send_request close = Works-write_all _
    Works-send_request (create n) = Works-send_db_op _ n
    Works-send_request (info n) = Works-send_db_op _ n
    Works-send_request (drop_db n) = Works-send_db_op _ n
    Works-send_request (get n k) =
        write_then _ _ (write_then _ _ (write_then _ _ (write_then _ _ (Works-write_all k))))
    Works-send_request (delete n k) =
        write_then _ _ (write_then _ _ (write_then _ _ (write_then _ _ (Works-write_all k))))
    Works-send_request (set n k v) = write_then _ _ (
        write_then _ _
          (write_then _ _ (write_then _ _ (write_then _ _ (write_then _ _ (Works-write_all v))))))

    module _ ⦃text : Text⦄ where
      exchange-Does :
          (current_db : Bytes) (t : Turn) (s : Socket) (rest : Bytes)
          → IsTurn current_db t
          → incoming s ≡ frame t.response ++ rest
          → Does
              (exchange current_db (send_request t.request) (show t.request))
              s
              (to_u8 (op_of t.request) ∷ fields t.request)
              rest
              (prompts current_db (t.line ∷ []))
      exchange-Does current_db t s rest h arrives =
          let (done, left) = (Works-send_request t.request).works s in
          let (read, left', quiet) =
            read_response_back t.response (send_request t.request s).1 rest h.fits
              (left ∙ arrives) in
          record {
            result_is = rw (done, read, h.prints) refl;
            leaves = rw (done, read, h.prints) left';
            sends = rw (done, read, h.prints) (quiet ∙ (Sends-send_request t.request).sends s done);
          }

      asks_open :
          (current_db : Bytes) (r : Request)
          → IsOpen r
          → asks current_db r ≡ exchange current_db (send_request r) (show r)
      asks_open db stats h = refl
      asks_open db ping h = refl
      asks_open db close h = absurd h
      asks_open db (create n) h = refl
      asks_open db (info n) h = refl
      asks_open db (drop_db n) h = refl
      asks_open db (get n k) h = refl
      asks_open db (delete n k) h = refl
      asks_open db (set n k v) h = refl

      turn-Does :
          (current_db : Bytes) (t : Turn) (s : Socket) (rest : Bytes)
          → IsTurn current_db t
          → incoming s ≡ frame t.response ++ rest
          → Does
              (run_line (entered t.request) current_db)
              s
              (to_u8 (op_of t.request) ∷ fields t.request)
              rest
              (prompts current_db (t.line ∷ []))
      turn-Does current_db t s rest h arrives =
          subst
            (λ io.
              Does io s (to_u8 (op_of t.request) ∷ fields t.request) rest
                (prompts current_db (t.line ∷ [])))
            (sym (
              run_line-line_of t.request current_db h.typed h.utf8
              ∙ asks_open current_db t.request h.stays_open))
            (exchange-Does current_db t s rest h arrives)

      close_utf8 : is_utf8 (entered close) ≡ true
      unfolding is_utf8 utf8_from utf8_lead
      close_utf8 = refl

      -- With more fuel than there are requests, the loop ends at the QUIT behind them.
      repl-typed_lines :
          (ts : List Turn) (fuel : ℕ) (current_db : Bytes) (s : Socket) (rest : Bytes)
          → length ts < fuel
          → All (IsTurn current_db) ts
          → incoming s ≡ responses ts ++ rest
          → ((repl fuel (typed_lines ts) current_db s).0
              ≡ ok (record { shown = printed ts; finished = true }))
            × (sent (repl fuel (typed_lines ts) current_db s).1 ≡ sent s ++ requests ts)
      unfolding repl
      repl-typed_lines ts zero db s rest enough h arrives = absurd (omega arith)
      repl-typed_lines [] (suc fuel) db s rest enough h arrives =
          let (done, left) = (Works-send_request close).works s in
          rw (repl, run_line-line_of close db tt close_utf8, done)
            (refl, (Sends-send_request close).sends s done)
      repl-typed_lines (t ∷ ts) (suc fuel) db s rest enough h arrives =
          let step =
            turn-Does db t s (responses ts ++ rest) h.0
              (arrives ∙ append_assoc (frame t.response) (responses ts) rest) in
          let s' = (run_line (entered t.request) db s).1 in
          let (ends, all) = repl-typed_lines ts fuel db s' rest (omega arith) h.1 step.leaves in
          rw (repl, step.result_is, ends)
            (
              refl,
              all
                  ∙ ap (λ b. b ++ requests ts) step.sends
                  ∙ append_assoc (sent s) (to_u8 (op_of t.request) ∷ fields t.request)
                      (requests ts),
            )

      -- Where every write succeeds, and a response to the ping and the responses to a user's requests
      -- come in: a client with more fuel than there are requests ends at the QUIT behind them, has
      -- sent the ping, every request and the close, in this order, and printed the line of every
      -- response.
      pub run_client-typed_lines :
          (r : Response) (ts : List Turn) (fuel : ℕ) (current_db : Bytes) (s : Socket)
          (rest : Bytes)
          → length (code_and_payload r).1 < 2 ^ 32
          → length ts < fuel
          → All (IsTurn current_db) ts
          → incoming s ≡ frame r ++ (responses ts ++ rest)
          → ((run_client fuel (typed_lines ts) current_db s).0
              ≡ ok (record { shown = printed ts; finished = true }))
            × (sent (run_client fuel (typed_lines ts) current_db s).1
                ≡ sent s ++ (to_u8 (op_of ping) ∷ requests ts))
      unfolding run_client health_check
      run_client-typed_lines r ts fuel db s rest fits enough h arrives =
          let (done, same) = (Works-send_request ping).works s in
          let (read, left, quiet) =
            read_response_back r (send_ping s).1 (responses ts ++ rest) fits (same ∙ arrives) in
          let s' = (read_response (send_ping s).1).1 in
          let (ends, all) = repl-typed_lines ts fuel db s' rest enough h left in
          rw (run_client, health_check, done, read, ends)
            (
              refl,
              all
                  ∙ ap (λ b. b ++ requests ts) (quiet ∙ (Sends-send_request ping).sends s done)
                  ∙ append_assoc (sent s) (to_u8 (op_of ping) ∷ []) (requests ts),
            )

  module _ ⦃text : Text⦄ where
    -- At the end of the user's input the loop goes on for ever, whatever the fuel: it never
    -- finishes, prints nothing and leaves the connection alone.
    pub repl_past_end :
        (fuel : ℕ) (current_db : Bytes) (s : Socket)
        → repl fuel [] current_db s ≡ (ok (record { shown = []; finished = false }), s)
    unfolding repl run_line is_utf8 utf8_from
    repl_past_end zero db s = refl
    repl_past_end (suc fuel) db s =
        rw (repl, run_line, text.trim-empty, repl_past_end fuel db s) refl
