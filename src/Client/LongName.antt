-- ===== src/Client/LongName.antt =====
-- USE with a name whose length does not fit a byte.
use mini_db.Prelude.{
  ◌%◌, ◌<◌, ◌≡◌, refl, ap, sym, ◌∙◌, List, ◌∷◌, ◌++◌, length, length-append, append_assoc, arith,
}
use mini_db.Bytes.{Bytes, as_u32, to_le_bytes}
use mini_db.Result.{ok}
use mini_db.Stream.{Stream}
use mini_db.Protocol.{get, to_u8}
use mini_db.Client.{send_get}
use mini_db.Client.Sends.{name_len, key_fields, Sends-send_get}
use mini_db.Client.Words.{use_db}
use mini_db.Client.Screen.{switched}
use mini_db.Client.Repl.{says, run_command}

-- The first of two parts of a name, where the length of the second one is lost in a byte.
name_len_short :
    (a b : Bytes) → length a < 256 → length b % 256 ≡ 0 → name_len (a ++ b) ≡ name_len a
name_len_short a b h e = ap (λ n. n % 256) (length-append a b) ∙ omega arith

regroup : (a b c d : Bytes) → (a ++ (b ++ c)) ++ d ≡ (a ++ b) ++ (c ++ d)
regroup a b c d =
    append_assoc a (b ++ c) d
    ∙ ap (λ t. a ++ t) (append_assoc b c d)
    ∙ sym (append_assoc a b (c ++ d))

fields_of_long :
    (db k y key : Bytes)
    → length db < 256
    → length k ≡ length key
    → length (k ++ y) % 256 ≡ 0
    → key_fields (db ++ (k ++ y)) key ≡ key_fields db k ++ (y ++ key)
fields_of_long db k y key short same lost =
    rw (name_len_short db (k ++ y) short lost, same)
      (ap (λ t. name_len db ∷ (to_le_bytes (as_u32 (length key)) ++ t)) (regroup db k y key))

module _ ⦃net : Stream⦄ where
  open net use {Socket, sent}

  -- The client switches to a name of any length. If 256 divides the length of the part `k ++ y` of
  -- the name `db ++ k ++ y`, a GET of a key as long as `k` sends the request for the key `k` of the
  -- database `db`, and behind it the rest of the name and the key; `db` is shorter than 256 bytes,
  -- and the GET is sent without an error.
  pub use_long_name :
      (db k y key current_db : Bytes) (parts : List Bytes) (s : Socket)
      → length db < 256
      → length k ≡ length key
      → length (k ++ y) % 256 ≡ 0
      → (send_get (db ++ (k ++ y)) key s).0 ≡ ok tt
      → (run_command use_db (key ∷ (db ++ (k ++ y)) ∷ parts) current_db s
          ≡ says (db ++ (k ++ y)) (switched (db ++ (k ++ y))) s)
        × (sent (send_get (db ++ (k ++ y)) key s).1
            ≡ sent s ++ (to_u8 get ∷ key_fields db k) ++ (y ++ key))
  unfolding run_command
  use_long_name db k y key current_db parts s short same lost done = (
    refl,
    (Sends-send_get (db ++ (k ++ y)) key).sends s done
        ∙ ap (λ b. sent s ++ (to_u8 get ∷ b)) (fields_of_long db k y key short same lost)
        ∙ sym (append_assoc (sent s) (to_u8 get ∷ key_fields db k) (y ++ key)),
  )
