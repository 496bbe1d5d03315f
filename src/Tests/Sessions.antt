-- ===== src/Tests/Sessions.antt =====
-- A user of the client, on a connection that works.
use mini_db.Prelude.{
  ℕ, zero, suc, ◌≡◌, refl, ap, true, false, [], ◌∷◌, ◌++◌, List, All, ◌==◌, if◌then◌else◌, arith,
}
use mini_db.Prelude.Text.{codes}
use mini_db.Bytes.{Bytes}
use mini_db.Result.{ok}
use mini_db.Protocol.Frames.{frame}
use mini_db.Protocol.{pong, Operation, to_u8, okay, key_value, code_and_payload}
use mini_db.Server.Names.{is_utf8, utf8_from, utf8_lead}
use mini_db.Server.Agrees.{Request, get, set}
use mini_db.Client.Words.{Text, use_db, ascii_uppercase, ends_graphic, is_graphic}
use mini_db.Client.Screen.{switched, plain, quoted, print_response}
use mini_db.Client.Repl.{run_client, says, run_command, repl}
use mini_db.Client.Typed.{line_of, IsTyped}
use mini_db.Client.Script.{
  Turn, IsTurn, typed_lines, responses, requests, printed, run_client-typed_lines, repl_past_end,
}
use mini_db.Client.{send_get}
use mini_db.Client.Sends.{key_fields}
use mini_db.Client.LongName.{use_long_name}
use mini_db.Tests.Sim.{sim_net, SimSocket}

-- The line without its end.
abbrev chomp : Bytes → Bytes
chomp [] = []
chomp (b ∷ []) = if b == 10 then [] else b ∷ []
chomp (b ∷ c ∷ bs) = b ∷ chomp (c ∷ bs)

chomp_line : (b : Bytes) → chomp (b ++ 10 ∷ []) ≡ b
chomp_line [] = refl
chomp_line (x ∷ []) = refl
chomp_line (x ∷ y ∷ b) = ap (λ t. x ∷ t) (chomp_line (y ∷ b))

instance abbrev ascii_text : Text
ascii_text = record {
  trim = chomp;
  to_uppercase = ascii_uppercase;
  trim-empty = refl;
  trim-line = λ b h k. chomp_line b;
  to_uppercase-ascii = λ b h. refl;
}

abbrev set_request : Request
set_request = set (codes "default") (codes "k") (codes "a b")

abbrev get_request : Request
get_request = get (codes "default") (codes "k")

set_request-utf8 : is_utf8 (line_of set_request ++ 10 ∷ []) ≡ true
unfolding is_utf8 utf8_from utf8_lead
set_request-utf8 = refl

get_request-utf8 : is_utf8 (line_of get_request ++ 10 ∷ []) ≡ true
unfolding is_utf8 utf8_from utf8_lead
get_request-utf8 = refl

set_request-IsTyped : IsTyped (codes "default") set_request
unfolding ends_graphic is_graphic
set_request-IsTyped = (refl, refl, refl)

get_request-IsTyped : IsTyped (codes "default") get_request
unfolding ends_graphic is_graphic
get_request-IsTyped = (refl, (refl, refl))

abbrev turns : List Turn
turns =
    record { request = set_request; response = okay (codes "OK"); line = plain (codes "OK") }
    ∷ record {
      request = get_request;
      response = key_value (codes "a b");
      line = quoted (codes "a b");
    }
    ∷ []

turns_are_turns : All (IsTurn (codes "default")) turns
unfolding code_and_payload print_response
turns_are_turns = (
  record {
    typed = set_request-IsTyped;
    stays_open = tt;
    utf8 = set_request-utf8;
    fits = omega arith;
    prints = refl;
  },
  (
    record {
      typed = get_request-IsTyped;
      stays_open = tt;
      utf8 = get_request-utf8;
      fits = omega arith;
      prints = refl;
    },
    tt,
  ),
)

abbrev connected : SimSocket
connected = record { inbox = frame (pong (codes "PONG")) ++ (responses turns ++ []); outbox = [] }

run_client-typed_lines_example :
    ((run_client 3 (typed_lines turns) (codes "default") connected).0
      ≡ ok (record { shown = printed turns; finished = true }))
    × ((run_client 3 (typed_lines turns) (codes "default") connected).1.outbox
        ≡ [] ++ (to_u8 Operation.ping ∷ requests turns))
unfolding code_and_payload
run_client-typed_lines_example =
    run_client-typed_lines (λ s b. refl) (pong (codes "PONG")) turns 3 (codes "default") connected
      [] (omega arith) (omega arith) turns_are_turns refl

repl_past_end_example :
    repl 5 [] (codes "default") connected
    ≡ (ok (record { shown = []; finished = false }), connected)
repl_past_end_example = repl_past_end 5 (codes "default") connected

-- A name of 256 + 7 bytes: `default`, a key, and the rest.
abbrev dots : ℕ → Bytes
dots zero = []
dots (suc n) = 46 ∷ dots n

abbrev new_connection : SimSocket
new_connection = record { inbox = []; outbox = [] }

use_long_name_example :
    (run_command use_db
        (codes "k" ∷ (codes "default" ++ (codes "x" ++ dots 255)) ∷ [])
        (codes "default")
        new_connection
      ≡ says
          (codes "default" ++ (codes "x" ++ dots 255))
          (switched (codes "default" ++ (codes "x" ++ dots 255)))
          new_connection)
    × ((send_get (codes "default" ++ (codes "x" ++ dots 255)) (codes "k") new_connection).1.outbox
        ≡ []
          ++ (to_u8 Operation.get ∷ key_fields (codes "default") (codes "x"))
          ++ (dots 255 ++ codes "k"))
unfolding send_get
use_long_name_example =
    use_long_name (codes "default") (codes "x") (dots 255) (codes "k") (codes "default") []
      new_connection (omega arith) refl refl refl
