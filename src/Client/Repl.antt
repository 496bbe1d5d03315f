-- ===== src/Client/Repl.antt =====
-- `main` of bin/client.rs behind the connect: the health check and the loop over the lines of the
-- user. The prompt, the banner, and the flush and shutdown at the end leave nothing that the model
-- keeps.
use mini_db.Prelude.{
  ℕ, zero, suc, Bool, true, false, List, [], ◌∷◌, ◌++◌, length, ltb, if◌then◌else◌,
}
use mini_db.Prelude.Text.{codes}
use mini_db.Bytes.{Bytes, is_empty}
use mini_db.Result.{Result, ok, err, bad_line}
use mini_db.Stream.{Stream}
use mini_db.Stream.Io.{Io, pure, raise, ◌>>=◌, ◌>>◌}
use mini_db.Protocol.{Response, read_response}
use mini_db.Server.Names.{is_utf8}
use mini_db.Client.{
  send_ping, send_close, send_stats, send_create, send_info, send_drop, send_get, send_set,
  send_delete,
}
use mini_db.Client.Words.{
  Text, splitn, Word, quit, ping, get, set, del, stats, create, info, drop, use_db, other, word_of,
}
use mini_db.Client.Screen.{
  Line, usage, switched, unknown, name_too_long, print_response, print_stats_response,
  print_info_response,
}

-- Where a line leads: the end, or the next prompt, its database and what was printed before.
pub data Next : Type 0 where
  quits : Next
  prompts : Bytes → List Line → Next

pub record Session : Type 0 where
  pub shown : List Line
  pub finished : Bool

-- A failed read is no answer.
abbrev reply_to_ping : Result Response → Bool
reply_to_ping (ok resp) = true
reply_to_ping (err e) = false

module _ ⦃net : Stream⦄ where
  -- Whether the ping is answered. A failed read ends the client without an error.
  unfoldable pub health_check : Io Bool
  health_check = do send_ping; λ s. (ok (reply_to_ping (read_response s).0), (read_response s).1)

  -- One request, its response, and what is printed of it.
  abbrev pub exchange : Bytes → Io (Unit {0}) → (Response → Result Line) → Io Next
  exchange current_db send show = do
    send
    resp ← read_response
    line ← λ s. (show resp, s)
    pure (prompts current_db (line ∷ []))

  abbrev pub show_response : Response → Result Line
  show_response resp = ok (print_response resp)

  -- `println!` and `continue`
  abbrev pub says : Bytes → Line → Io Next
  says current_db line = pure (prompts current_db (line ∷ []))

  -- The check of a name's length before it is sent.
  abbrev pub with_name : Bytes → Bytes → Io Next → Io Next
  with_name current_db db_name send =
      if ltb 255 (length db_name) then says current_db name_too_long else send

  unfoldable pub request_info : Bytes → Bytes → Io Next
  request_info current_db db_name =
      with_name current_db db_name
        (exchange current_db (send_info db_name) (print_info_response db_name))

  -- The arms of the `match`, on the parts of the line.
  unfoldable pub run_command : Word → List Bytes → Bytes → Io Next
  run_command quit parts current_db = do send_close; pure quits
  run_command ping parts current_db = exchange current_db send_ping show_response
  run_command get (cmd ∷ key ∷ rest) current_db =
      exchange current_db (send_get current_db key) show_response
  run_command get _ current_db = says current_db (usage (codes "GET <key>"))
  run_command set (cmd ∷ key ∷ value ∷ rest) current_db =
      exchange current_db (send_set current_db key value) show_response
  run_command set _ current_db = says current_db (usage (codes "SET <key> <value>"))
  run_command del (cmd ∷ key ∷ rest) current_db =
      exchange current_db (send_delete current_db key) show_response
  run_command del _ current_db = says current_db (usage (codes "DEL <key>"))
  run_command stats parts current_db = exchange current_db send_stats print_stats_response
  run_command create (cmd ∷ db_name ∷ rest) current_db =
      with_name current_db db_name (exchange current_db (send_create db_name) show_response)
  run_command create _ current_db = says current_db (usage (codes "CREATE <db_name>"))
  run_command info (cmd ∷ db_name ∷ rest) current_db = request_info current_db db_name
  run_command info _ current_db = request_info current_db current_db
  run_command drop (cmd ∷ db_name ∷ rest) current_db =
      with_name current_db db_name (exchange current_db (send_drop db_name) show_response)
  run_command drop _ current_db = says current_db (usage (codes "DROP <db_name>"))
  run_command use_db (cmd ∷ db_name ∷ rest) current_db = says db_name (switched db_name)
  run_command use_db _ current_db = says current_db (usage (codes "USE <db_name>"))
  run_command other (cmd ∷ rest) current_db = says current_db (unknown cmd)
  run_command other [] current_db = says current_db (unknown [])

  module _ ⦃text : Text⦄ where
    -- A trimmed line that is not empty. `parts[0]` is there.
    abbrev pub run_parts : List Bytes → Bytes → Io Next
    run_parts [] current_db = run_command other [] current_db
    run_parts (cmd ∷ rest) current_db =
        run_command (word_of (text.to_uppercase cmd)) (cmd ∷ rest) current_db

    -- The body of the loop on the line that `read_line` has read.
    unfoldable pub run_line : Bytes → Bytes → Io Next
    run_line line current_db =
        let input = text.trim line in
        if is_utf8 line
        then (if is_empty input
            then pure (prompts current_db [])
            else run_parts (splitn 3 input) current_db)
        else raise bad_line

    abbrev session_after : (Bytes → Io Session) → Next → Io Session
    session_after rest quits = pure (record { shown = []; finished = true })
    session_after rest (prompts current_db lines) = do
      session ← rest current_db
      pure (record { shown = lines ++ session.shown; finished = session.finished })

    -- `read_line`: the next line, or nothing, again and again, at the end of the input.
    abbrev pub next_line : List Bytes → Bytes × List Bytes
    next_line [] = ([], [])
    next_line (line ∷ lines) = (line, lines)

    -- The loop, for as many rounds as there is fuel.
    unfoldable pub repl : ℕ → List Bytes → Bytes → Io Session
    repl zero lines current_db = pure (record { shown = []; finished = false })
    repl (suc fuel) lines current_db = do
      next ← run_line (next_line lines).0 current_db
      session_after (repl fuel (next_line lines).1) next

    abbrev start : ℕ → List Bytes → Bytes → Bool → Io Session
    start fuel lines db_name false = pure (record { shown = []; finished = true })
    start fuel lines db_name true = repl fuel lines db_name

    -- `main`, once connected.
    unfoldable pub run_client : ℕ → List Bytes → Bytes → Io Session
    run_client fuel lines db_name = do healthy ← health_check; start fuel lines db_name healthy
