-- ===== src/Bench/Prefill.antt =====
-- The filling of the database: one SET for every row of the key space.
use mini_db.Prelude.{
  ℕ, zero, suc, ◌+◌, ◌*◌, ◌/◌, ◌<◌, ◌^◌, ◌≡◌, refl, sym, ap, ◌∙◌, some, List, [], ◌∷◌, ◌++◌, length,
  take, drop, append-nil, append_assoc, All, arith,
}
use mathlib.Core.Path.{subst}
use mini_db.Bytes.{Bytes, as_u32, to_le_bytes}
use mini_db.Result.{ok}
use mini_db.Stream.{Stream}
use mini_db.Stream.Io.{◌>>=◌}
use mini_db.Stream.Does.{WritesWork, Does, Does-both, Does-writes_all, writes_all}
use mini_db.Protocol.{okay, set, to_u8, code_and_payload, read_response}
use mini_db.Protocol.Frames.{frame, read_response_back}
use mini_db.Client.Sends.{name_len, set_fields}
use mini_db.Bench.{KeySpace, get_key, get_value, len}
use mini_db.Bench.Shares.{slice_some, row_fits, rows}
use mini_db.Bench.Args.{Args, validate, validate-IsValid}
use mini_db.Bench.Load.{init, prefilled, fill_row, fill_rows, fill_db_server}

-- The request for a row.
abbrev pub key_at : KeySpace → ℕ → Bytes
key_at space i = take space.key_size (drop (i * space.key_size) space.keys)

abbrev pub value_at : KeySpace → ℕ → Bytes
value_at space i = take space.value_size (drop (i * space.value_size) space.values)

abbrev pub set_rows : Bytes → KeySpace → ℕ → ℕ → Bytes
set_rows db_name space i zero = []
set_rows db_name space i (suc n) =
    (to_u8 set ∷ set_fields db_name (key_at space i) (value_at space i))
    ++ set_rows db_name space (i + 1) n

-- The responses to the requests.
abbrev pub oks : List Bytes → Bytes
oks [] = []
oks (payload ∷ payloads) = frame (okay payload) ++ oks payloads

abbrev pub Fits : Bytes → Type 0
Fits payload = length payload < 2 ^ 32

pub slices :
    (space : KeySpace) (i n : ℕ)
    → length space.keys ≡ n * space.key_size
    → length space.values ≡ n * space.value_size
    → i < n
    → (get_key space i ≡ some (key_at space i)) × (get_value space i ≡ some (value_at space i))
unfolding get_key get_value
slices space i n ks vs h = (
  slice_some space.keys (i * space.key_size) space.key_size
      (omega (arith, ks, row_fits i n space.key_size h)),
  slice_some space.values (i * space.value_size) space.value_size
      (omega (arith, vs, row_fits i n space.value_size h)),
)

module _ ⦃net : Stream⦄ (writes : WritesWork) where
  open net use {Socket, incoming, sent}

  -- The response of a row.
  answered :
      (i : ℕ) (t : Socket) (payload rest : Bytes)
      → Fits payload
      → incoming t ≡ frame (okay payload) ++ rest
      → Does (read_response >>= prefilled i) t [] rest tt
  unfolding code_and_payload
  answered i t payload rest fits arrives =
      let (value, left, quiet) = read_response_back (okay payload) t rest fits arrives in
      record {
        result_is = rw value refl;
        leaves = rw value left;
        sends = rw value (quiet ∙ sym (append-nil (sent t)));
      }

  fill_row-Does :
      (db_name : Bytes) (space : KeySpace) (i : ℕ) (s : Socket) (payload rest : Bytes)
      → get_key space i ≡ some (key_at space i)
      → get_value space i ≡ some (value_at space i)
      → Fits payload
      → incoming s ≡ frame (okay payload) ++ rest
      → Does
          (fill_row db_name space i)
          s
          (to_u8 set ∷ set_fields db_name (key_at space i) (value_at space i))
          rest
          tt
  unfolding fill_row
  fill_row-Does db_name space i s payload rest k v fits arrives =
      let key = key_at space i in
      let value = value_at space i in
      let key_len = to_le_bytes (as_u32 (length key)) in
      let value_len = to_le_bytes (as_u32 (length value)) in
      let parts : List Bytes =
        (to_u8 set ∷ [])
        ∷ (name_len db_name ∷ [])
        ∷ key_len
        ∷ value_len
        ∷ db_name
        ∷ key
        ∷ value
        ∷ [] in
      rw (fill_row, k, v)
        (subst
          (λ end.
            Does (writes_all parts (read_response >>= prefilled i)) s
              (to_u8 set ∷ name_len db_name ∷ (key_len ++ (value_len ++ (db_name ++ (key ++ end)))))
              rest tt)
          (append-nil value)
          (Does-writes_all parts (read_response >>= prefilled i) s rest
            (frame (okay payload) ++ rest) tt writes arrives
            (λ t e. answered i t payload rest fits e)))

  fill_rows-Does :
      (db_name : Bytes) (space : KeySpace) (i : ℕ) (payloads : List Bytes) (s : Socket)
      (rest : Bytes)
      → ((j : ℕ)
          → j < i + length payloads
          → (get_key space j ≡ some (key_at space j))
            × (get_value space j ≡ some (value_at space j)))
      → All Fits payloads
      → incoming s ≡ oks payloads ++ rest
      → Does
          (fill_rows db_name space i (length payloads))
          s
          (set_rows db_name space i (length payloads))
          rest
          tt
  unfolding fill_rows
  fill_rows-Does db_name space i [] s rest rows fits arrives = record {
    result_is = refl;
    leaves = arrives;
    sends = sym (append-nil (sent s));
  }
  fill_rows-Does db_name space i (payload ∷ payloads) s rest rows fits arrives =
      let (k, v) = rows i (omega arith) in
      let first =
        fill_row-Does db_name space i s payload (oks payloads ++ rest) k v fits.0
          (arrives ∙ append_assoc (frame (okay payload)) (oks payloads) rest) in
      Does-both (fill_row db_name space i) (fill_rows db_name space (i + 1) (length payloads)) s
        (to_u8 set ∷ set_fields db_name (key_at space i) (value_at space i))
        (set_rows db_name space (i + 1) (length payloads)) (oks payloads ++ rest) rest (ok tt) first
        (fill_rows-Does db_name space (i + 1) payloads (fill_row db_name space i s).1 rest
          (λ j less. rows j (omega arith)) fits.1 first.leaves)

  -- Where the arguments pass the check, the random bytes are as many as are asked for, every write
  -- succeeds and an OK comes in for each key: the filling of the database succeeds, without a panic,
  -- and has sent one SET for each row of the key space, in order.
  pub fill_db_server-set_rows :
      (args : Args) (fill_keys fill_values : ℕ → Bytes) (payloads : List Bytes) (s : Socket)
      (rest : Bytes)
      → validate args ≡ ok tt
      → ((n : ℕ) → length (fill_keys n) ≡ n)
      → ((n : ℕ) → length (fill_values n) ≡ n)
      → length payloads ≡ args.keyspace
      → All Fits payloads
      → incoming s ≡ oks payloads ++ rest
      → let space = init fill_keys fill_values args.keyspace args.key_size args.value_size in
        ((fill_db_server args.db_name space s).0 ≡ ok tt)
        × (sent (fill_db_server args.db_name space s).1
            ≡ sent s ++ set_rows args.db_name space 0 args.keyspace)
  unfolding fill_db_server init len
  fill_db_server-set_rows args fill_keys fill_values payloads s rest valid ks vs count fits
        arrives =
      let space = init fill_keys fill_values args.keyspace args.key_size args.value_size in
      let v = validate-IsValid args valid in
      let all : len space ≡ length payloads =
        ap (λ l. l / args.key_size) (ks (args.keyspace * args.key_size))
        ∙ rows args.keyspace args.key_size v.some_key
        ∙ sym count in
      let there = λ (j : ℕ) (less : j < 0 + length payloads).
        slices space j args.keyspace (ks (args.keyspace * args.key_size))
          (vs (args.keyspace * args.value_size)) (omega (arith, less, count)) in
      let done = fill_rows-Does args.db_name space 0 payloads s rest there fits arrives in
      rw (fill_db_server, all)
        (done.result_is, done.sends ∙ ap (λ n. sent s ++ set_rows args.db_name space 0 n) count)
