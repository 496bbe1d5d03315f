-- ===== src/Result.antt =====
-- `anyhow::Result`, with an error value for each place that raises one.
use mini_db.Prelude.{ℕ, List}

-- `std::io::ErrorKind`, as far as the program tells kinds apart.
pub data IoError : Type 0 where
  unexpected_eof connection_reset other : IoError

pub data Error : Type 0 where
  -- a failed read or write of a socket
  io : IoError → Error
  -- wal.rs
  bad_op : ℕ → Error
  empty_key delete_value wal_write wal_flush wal_fsync : Error
  wal_seek wal_map wal_panic wal_set_len wal_truncate : Error
  -- bin/main.rs
  name_empty name_too_long name_unsafe name_not_utf8 : Error
  key_size_zero value_size_zero : Error
  key_too_large value_too_large : ℕ → ℕ → Error
  unknown_operation queue_closed reply_lost : Error
  no_database : List ℕ → Error
  internal : Error → Error
  -- manager.rs
  dir_failed wal_open bad_file_name metadata_failed remove_failed : Error
  db_missing : List ℕ → Error
  -- bin/client.rs
  packet_panic bad_line : Error
  -- bench.rs
  no_clients few_operations long_db_name few_keys no_key_size no_value_size bad_percent : Error
  no_db_name slice_panic : Error
  prefill_failed : ℕ → Error
  request_failed miscounted mean_panic index_panic : Error

pub data Result {ℓ} (A : Type ℓ) : Type ℓ where
  ok : A → Result A
  err : Error → Result A

-- The value of a successful result goes on; an error ends the function, as `?` does.
infixl 5 ◌>>=◌
abbrev pub ◌>>=◌ {ℓ κ} : {A : Type ℓ} {B : Type κ} → Result A → (A → Result B) → Result B
ok a >>= f = f a
err e >>= f = err e
