-- ===== src/Client/Typed.antt =====
-- The lines that a user types for the client's requests.
use mini_db.Prelude.{
  ◌≡◌, refl, ap, ◌∙◌, Bool, true, false, ◌&&◌, not, List, [], ◌∷◌, ◌++◌, length, ◌≤◌, ltb, arith,
}
use mini_db.Prelude.Text.{codes}
use mini_db.Bytes.{Bytes, is_empty, bytes_eq, bytes_eq_iff}
use mini_db.Result.{Result, ok}
use mini_db.Stream.{Stream}
use mini_db.Stream.Io.{Io, pure, ◌>>◌}
use mini_db.Protocol.{Response}
use mini_db.Server.Names.{is_utf8}
use mini_db.Server.Agrees.{
  Request, stats, ping, close, create, info, drop_db, get, delete, set, send_request,
}
use mini_db.Client.Words.{
  Text, splitn, word_of, has_space, starts_graphic, ends_graphic, is_graphic, split_once_word,
  split_once-none, ends_graphic-append, ascii_uppercase, all_ascii,
}
use mini_db.Client.Screen.{Line, print_response, print_stats_response, print_info_response}
use mini_db.Client.Repl.{Next, quits, exchange, run_command, request_info, run_parts, run_line}

-- What is typed behind the word of the command.
abbrev words : Bytes → Bytes → Bytes
words a b = a ++ 32 ∷ b

abbrev pub line_of : Request → Bytes
line_of stats = codes "STATS"
line_of ping = codes "PING"
line_of close = codes "QUIT"
line_of (create n) = words (codes "CREATE") n
line_of (info n) = words (codes "INFO") n
line_of (drop_db n) = words (codes "DROP") n
line_of (get n k) = words (codes "GET") k
line_of (delete n k) = words (codes "DEL") k
line_of (set n k v) = words (codes "SET") (words k v)

-- A word without a space that ends in a visible character.
abbrev pub IsWord : Bytes → Type 0
IsWord w = (has_space w ≡ false) × (ends_graphic w ≡ true)

-- A request that the user of the database `current_db` can type.
abbrev pub IsTyped : Bytes → Request → Type 0
IsTyped current_db stats = Unit {0}
IsTyped current_db ping = Unit {0}
IsTyped current_db close = Unit {0}
IsTyped current_db (create n) = IsWord n × (length n ≤ 255)
IsTyped current_db (info n) = IsWord n × (length n ≤ 255)
IsTyped current_db (drop_db n) = IsWord n × (length n ≤ 255)
IsTyped current_db (get n k) = (current_db ≡ n) × IsWord k
IsTyped current_db (delete n k) = (current_db ≡ n) × IsWord k
IsTyped current_db (set n k v) = (current_db ≡ n) × (has_space k ≡ false) × (ends_graphic v ≡ true)

splitn_one : (a : Bytes) → has_space a ≡ false → splitn 3 a ≡ a ∷ []
unfolding splitn
splitn_one a h = rw (splitn, split_once-none a h) refl

splitn_two :
    (a b : Bytes) → has_space a ≡ false → has_space b ≡ false → splitn 3 (words a b) ≡ a ∷ b ∷ []
unfolding splitn
splitn_two a b h k = rw (splitn, split_once_word a b h, split_once-none b k) refl

splitn_three :
    (a b c : Bytes)
    → has_space a ≡ false
    → has_space b ≡ false
    → splitn 3 (words a (words b c)) ≡ a ∷ b ∷ c ∷ []
unfolding splitn
splitn_three a b c h k = rw (splitn, split_once_word a (words b c) h, split_once_word b c k) refl

ends-words : (a b : Bytes) → ends_graphic b ≡ true → ends_graphic (words a b) ≡ true
unfolding ends_graphic
ends-words a [] h = cc
ends-words a (x ∷ b) h = ends_graphic-append a (32 ∷ x ∷ b) h

starts_nonempty : (b : Bytes) → starts_graphic b ≡ true → is_empty b ≡ false
starts_nonempty [] h = cc
starts_nonempty (x ∷ b) h = refl

starts-append : (a b : Bytes) → starts_graphic a ≡ true → starts_graphic (a ++ b) ≡ true
starts-append [] b h = cc
starts-append (x ∷ a) b h = h

name_passes : (n : Bytes) → length n ≤ 255 → ltb 255 (length n) ≡ false
name_passes n h = ground arith

-- A word that is compared with the line's first one.
abbrev is_command : Bytes → Bool
is_command cmd =
    starts_graphic cmd
    && ends_graphic cmd
    && all_ascii cmd
    && bytes_eq (ascii_uppercase cmd) cmd
    && not (has_space cmd)

record IsCommand (cmd : Bytes) : Type 0 where
  pub starts : starts_graphic cmd ≡ true
  pub ends : ends_graphic cmd ≡ true
  pub is_ascii : all_ascii cmd ≡ true
  pub is_upper : ascii_uppercase cmd ≡ cmd
  pub is_word : has_space cmd ≡ false

command : (cmd : Bytes) → is_command cmd ≡ true → IsCommand cmd
command cmd h = record {
  starts = ground arith;
  ends = ground arith;
  is_ascii = ground arith;
  is_upper = ground (arith, bytes_eq_iff (ascii_uppercase cmd) cmd);
  is_word = ground arith;
}

module _ ⦃net : Stream⦄ where
  abbrev pub show : Request → Response → Result Line
  show stats resp = print_stats_response resp
  show (info n) resp = print_info_response n resp
  show _ resp = ok (print_response resp)

  -- A request, its response, and what is printed of it.
  abbrev pub asks : Bytes → Request → Io Next
  asks current_db close = do send_request close; pure quits
  asks current_db r = exchange current_db (send_request r) (show r)

  module _ ⦃text : Text⦄ where
    run_line-parts :
        (b : Bytes) (current_db : Bytes)
        → starts_graphic b ≡ true
        → ends_graphic b ≡ true
        → is_utf8 (b ++ 10 ∷ []) ≡ true
        → run_line (b ++ 10 ∷ []) current_db ≡ run_parts (splitn 3 b) current_db
    unfolding run_line
    run_line-parts b current_db starts ends utf8 =
        rw (run_line, text.trim-line b starts ends, utf8, starts_nonempty b starts) refl

    typed :
        (cmd : Bytes) (rest : List Bytes) (b current_db : Bytes)
        → IsCommand cmd
        → starts_graphic b ≡ true
        → ends_graphic b ≡ true
        → splitn 3 b ≡ cmd ∷ rest
        → is_utf8 (b ++ 10 ∷ []) ≡ true
        → run_line (b ++ 10 ∷ []) current_db ≡ run_command (word_of cmd) (cmd ∷ rest) current_db
    typed cmd rest b current_db c starts ends parts utf8 =
        run_line-parts b current_db starts ends utf8
        ∙ ap (λ p. run_parts p current_db) parts
        ∙ ap (λ w. run_command (word_of w) (cmd ∷ rest) current_db)
            (text.to_uppercase-ascii cmd c.is_ascii ∙ c.is_upper)

    module _ (cmd current_db : Bytes) (c : IsCommand cmd) where
      typed_one :
          is_utf8 (cmd ++ 10 ∷ []) ≡ true
          → run_line (cmd ++ 10 ∷ []) current_db ≡ run_command (word_of cmd) (cmd ∷ []) current_db
      typed_one utf8 = typed cmd [] cmd current_db c c.starts c.ends (splitn_one cmd c.is_word) utf8

      typed_two :
          (w : Bytes)
          → IsWord w
          → is_utf8 (words cmd w ++ 10 ∷ []) ≡ true
          → run_line (words cmd w ++ 10 ∷ []) current_db
            ≡ run_command (word_of cmd) (cmd ∷ w ∷ []) current_db
      typed_two w h utf8 =
          typed cmd (w ∷ []) (words cmd w) current_db c (starts-append cmd (32 ∷ w) c.starts)
            (ends-words cmd w h.1) (splitn_two cmd w c.is_word h.0) utf8

      typed_three :
          (k v : Bytes)
          → has_space k ≡ false
          → ends_graphic v ≡ true
          → is_utf8 (words cmd (words k v) ++ 10 ∷ []) ≡ true
          → run_line (words cmd (words k v) ++ 10 ∷ []) current_db
            ≡ run_command (word_of cmd) (cmd ∷ k ∷ v ∷ []) current_db
      typed_three k v h ends utf8 =
          typed cmd (k ∷ v ∷ []) (words cmd (words k v)) current_db c
            (starts-append cmd (32 ∷ words k v) c.starts)
            (ends-words cmd (words k v) (ends-words k v ends)) (splitn_three cmd k v c.is_word h)
            utf8

    -- The line of a request that can be typed, in UTF-8 and with the end of the line, makes the client
    -- send the request, read one response and print it; that of a close makes it send that and end.
    pub run_line-line_of :
        (r : Request) (current_db : Bytes)
        → IsTyped current_db r
        → is_utf8 (line_of r ++ 10 ∷ []) ≡ true
        → run_line (line_of r ++ 10 ∷ []) current_db ≡ asks current_db r
    unfolding run_command request_info word_of bytes_eq is_graphic ends_graphic
    run_line-line_of stats db h u = typed_one (codes "STATS") db (command (codes "STATS") refl) u
    run_line-line_of ping db h u = typed_one (codes "PING") db (command (codes "PING") refl) u
    run_line-line_of close db h u = typed_one (codes "QUIT") db (command (codes "QUIT") refl) u
    run_line-line_of (create n) db (w, short) u =
        typed_two (codes "CREATE") db (command (codes "CREATE") refl) n w u
        ∙ rw (name_passes n short) refl
    run_line-line_of (info n) db (w, short) u =
        typed_two (codes "INFO") db (command (codes "INFO") refl) n w u
        ∙ rw (name_passes n short) refl
    run_line-line_of (drop_db n) db (w, short) u =
        typed_two (codes "DROP") db (command (codes "DROP") refl) n w u
        ∙ rw (name_passes n short) refl
    run_line-line_of (get n k) db (e, w) u =
        typed_two (codes "GET") db (command (codes "GET") refl) k w u ∙ rw e refl
    run_line-line_of (delete n k) db (e, w) u =
        typed_two (codes "DEL") db (command (codes "DEL") refl) k w u ∙ rw e refl
    run_line-line_of (set n k v) db (e, h, ends) u =
        typed_three (codes "SET") db (command (codes "SET") refl) k v h ends u ∙ rw e refl
