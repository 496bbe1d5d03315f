-- ===== src/Bench/Load.antt =====
-- The load of bench/bench.rs: filling the database, and the run of a client.
use mini_db.Prelude.{
  ℕ, zero, suc, ◌+◌, ◌*◌, ◌%◌, Bool, true, false, Option, none, some, List, [], ◌∷◌, length, ltb,
  min, ◌^◌, ◌-◌, if◌then◌else◌,
}
use mini_db.Bytes.{Bytes, as_u32}
use mini_db.Result.{slice_panic, prefill_failed, request_failed}
use mini_db.Stream.{Stream}
use mini_db.Stream.Io.{Io, pure, raise, write_u8, write_u32_le, write_all, ◌>>=◌, ◌>>◌}
use mini_db.Protocol.{Response, okay, set, to_u8, read_response}
use mini_db.Bench.{KeySpace, get_key, get_value, len, encode_get, encode_set, is_expected}
use mini_db.Bench.Args.{Workload, read, write, read_overwrite}

-- `KeySpace::init`, with the bytes that the generator fills in: some of a given number each.
unfoldable pub init : (ℕ → Bytes) → (ℕ → Bytes) → ℕ → ℕ → ℕ → KeySpace
init fill_keys fill_values keyspace key_size value_size = record {
  keys = fill_keys (keyspace * key_size);
  key_size = key_size;
  values = fill_values (keyspace * value_size);
  value_size = value_size;
}

-- What the generator gives for an operation, and the nanoseconds that the clock measures for it.
pub record Draw : Type 0 where
  pub key_index : ℕ
  pub percent : ℕ
  pub value_index : ℕ
  pub elapsed : ℕ

-- `min(u128::from(u64::MAX)) as u64`
abbrev pub sample : ℕ → ℕ
sample elapsed = min elapsed (2 ^ 64 - 1)

unfoldable pub is_get : Workload → ℕ → Draw → Bool
is_get read read_percent draw = true
is_get write read_percent draw = false
is_get read_overwrite read_percent draw = ltb draw.percent read_percent

module _ ⦃net : Stream⦄ where
  -- A slice outside the space panics.
  abbrev pub sliced : Option Bytes → Io Bytes
  sliced none = raise slice_panic
  sliced (some bytes) = pure bytes

  abbrev pub prefilled : ℕ → Response → Io (Unit {0})
  prefilled i (okay payload) = pure tt
  prefilled i _ = raise (prefill_failed i)

  -- The SET of one row, and its response.
  unfoldable pub fill_row : Bytes → KeySpace → ℕ → Io (Unit {0})
  fill_row db_name space i = do
    key ← sliced (get_key space i)
    value ← sliced (get_value space i)
    write_u8 (to_u8 set)
    write_u8 (length db_name % 256)
    write_u32_le (as_u32 (length key))
    write_u32_le (as_u32 (length value))
    write_all db_name
    write_all key
    write_all value
    response ← read_response
    prefilled i response

  -- The rows from `i` on, `n` of them.
  unfoldable pub fill_rows : Bytes → KeySpace → ℕ → ℕ → Io (Unit {0})
  fill_rows db_name space i zero = pure tt
  fill_rows db_name space i (suc n) = do fill_row db_name space i; fill_rows db_name space (i + 1) n

  unfoldable pub fill_db_server : Bytes → KeySpace → Io (Unit {0})
  fill_db_server db_name space = fill_rows db_name space 0 (len space)

  unfoldable pub check_response : Bool → Io (Unit {0})
  check_response is_get = do
    response ← read_response
    if is_expected response is_get then pure tt else raise request_failed

  -- `read_buf` for a draw.
  unfoldable pub encode : KeySpace → Bytes → Draw → Bytes → Bool → Io Bytes
  encode space db_name draw key true = pure (encode_get db_name key)
  encode space db_name draw key false = do
    value ← sliced (get_value space draw.value_index)
    pure (encode_set db_name key value)

  -- One operation, of which a sample is taken.
  unfoldable pub operate : KeySpace → Bytes → Workload → ℕ → Draw → Io (Unit {0})
  operate space db_name workload read_percent draw = do
    key ← sliced (get_key space draw.key_index)
    read_buf ← encode space db_name draw key (is_get workload read_percent draw)
    write_all read_buf
    check_response (is_get workload read_percent draw)

  -- `Client::run`, for the draws of its operations: the samples.
  unfoldable pub run : KeySpace → Bytes → Workload → ℕ → List Draw → Io (List ℕ)
  run space db_name workload read_percent [] = pure []
  run space db_name workload read_percent (draw ∷ draws) = do
    operate space db_name workload read_percent draw
    samples ← run space db_name workload read_percent draws
    pure (sample draw.elapsed ∷ samples)
