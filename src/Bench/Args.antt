-- ===== src/Bench/Args.antt =====
-- The arguments of bench/bench.rs and their check.
use mini_db.Prelude.{ℕ, Bool, true, false, not, ◌&&◌, length, ltb, leb, ◌<◌, ◌≤◌, ◌≡◌, refl, arith}
use mini_db.Bytes.{Bytes, is_empty}
use mini_db.Result.{
  Error, Result, ok, err, ◌>>=◌, no_clients, few_operations, long_db_name, few_keys, no_key_size,
  no_value_size, bad_percent, no_db_name,
}

pub data Workload : Type 0 where
  read write read_overwrite : Workload

-- The arguments, without the server's address.
pub record Args : Type 0 where
  pub clients : ℕ
  pub operations : ℕ
  pub db_name : Bytes
  pub keyspace : ℕ
  pub key_size : ℕ
  pub value_size : ℕ
  pub warmup : ℕ
  pub workload : Workload
  pub read_percent : ℕ

-- `ensure!(test, …)`
abbrev pub ensure : Bool → Error → Result (Unit {0})
ensure true e = ok tt
ensure false e = err e

unfoldable pub validate : Args → Result (Unit {0})
validate args = do
  clients ← ensure (ltb 0 args.clients) no_clients
  operations ← ensure (leb 128 args.operations) few_operations
  short ← ensure (leb (length args.db_name) 255) long_db_name
  keys ← ensure (leb 4096 args.keyspace) few_keys
  key_size ← ensure (ltb 0 args.key_size) no_key_size
  value_size ← ensure (ltb 0 args.value_size) no_value_size
  percent ← ensure (ltb args.read_percent 100 && ltb 0 args.read_percent) bad_percent
  ensure (not (is_empty args.db_name)) no_db_name

-- What the check lets pass.
pub record IsValid (args : Args) : Type 0 where
  pub some_clients : 0 < args.clients
  pub enough_operations : 128 ≤ args.operations
  pub short_name : length args.db_name ≤ 255
  pub enough_keys : 4096 ≤ args.keyspace
  pub some_key : 0 < args.key_size
  pub some_value : 0 < args.value_size
  pub some_reads : 0 < args.read_percent
  pub some_writes : args.read_percent < 100
  pub named : is_empty args.db_name ≡ false

ensured_then :
    (b : Bool) (e : Error) (k : Result (Unit {0}))
    → (ensure b e >>= λ _. k) ≡ ok tt
    → (b ≡ true) × (k ≡ ok tt)
ensured_then true e k h = (refl, h)
ensured_then false e k h = cc

ensured : (b : Bool) (e : Error) → ensure b e ≡ ok tt → b ≡ true
ensured true e h = refl
ensured false e h = cc

pub validate-IsValid : (args : Args) → validate args ≡ ok tt → IsValid args
unfolding validate
validate-IsValid args h =
    let (t1, h1) = ensured_then (ltb 0 args.clients) no_clients _ h in
    let (t2, h2) = ensured_then (leb 128 args.operations) few_operations _ h1 in
    let (t3, h3) = ensured_then (leb (length args.db_name) 255) long_db_name _ h2 in
    let (t4, h4) = ensured_then (leb 4096 args.keyspace) few_keys _ h3 in
    let (t5, h5) = ensured_then (ltb 0 args.key_size) no_key_size _ h4 in
    let (t6, h6) = ensured_then (ltb 0 args.value_size) no_value_size _ h5 in
    let (t7, h7) =
      ensured_then (ltb args.read_percent 100 && ltb 0 args.read_percent) bad_percent _ h6 in
    let t8 = ensured (not (is_empty args.db_name)) no_db_name h7 in
    record {
      some_clients = ground (arith, t1);
      enough_operations = ground (arith, t2);
      short_name = ground (arith, t3);
      enough_keys = ground (arith, t4);
      some_key = ground (arith, t5);
      some_value = ground (arith, t6);
      some_reads = ground (arith, t7);
      some_writes = ground (arith, t7);
      named = ground (arith, t8);
    }
