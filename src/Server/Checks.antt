-- ===== src/Server/Checks.antt =====
-- The reads and the checks of bin/main.rs with which a request's fields come off a socket. A check
-- that fails answers the client and ends the connection with an error.
use mini_db.Prelude.{ℕ, Option, none, some, ltb, ◌==◌, not, if◌then◌else◌, length, ◌++◌}
use mini_db.Prelude.Text.{codes}
use mini_db.Bytes.{Bytes, is_empty}
use mini_db.Result.{
  Error, name_empty, name_too_long, name_unsafe, name_not_utf8, key_size_zero, value_size_zero,
  key_too_large, value_too_large, reply_lost, internal, Result, ok, err,
}
use mini_db.Stream.{Stream}
use mini_db.Stream.Io.{Io, pure, raise, read_u8, read_u32_le, read_exact, ◌>>=◌, ◌>>◌}
use mini_db.Protocol.{Response, invalid_request, payload_too_large, internal_error, send_response}
use mini_db.Server.Names.{max_db_name_len, all_name_bytes, is_utf8}

module _ ⦃net : Stream⦄ where
  -- The buffer is made `len` bytes long and filled; the caller splits all of it off.
  abbrev pub read_exact_reuse_buf : ℕ → Io Bytes
  read_exact_reuse_buf len = read_exact len

  -- A response is sent, and the error returned.
  abbrev pub refuse {ℓ} : {A : Type ℓ} → Response → Error → Io A
  refuse response e = send_response response >> raise e

  unfoldable pub validate_db_name : Bytes → Io Bytes
  validate_db_name name_buf =
      if is_empty name_buf
      then refuse (invalid_request (codes "Database name cannot be empty")) name_empty
      else if ltb max_db_name_len (length name_buf)
      then refuse (payload_too_large (codes "Database name too long")) name_too_long
      else if not (all_name_bytes name_buf)
      then refuse (invalid_request (codes "Invalid characters in database name")) name_unsafe
      else if is_utf8 name_buf
      then pure name_buf
      else refuse (invalid_request (codes "Database name must be valid UTF-8")) name_not_utf8

  unfoldable pub validate_key : ℕ → ℕ → Io (Unit {0})
  validate_key key_size max_key_size =
      if key_size == 0
      then refuse (invalid_request (codes "Key size cannot be zero")) key_size_zero
      else if ltb max_key_size key_size
      then refuse (payload_too_large (codes "Key too large")) (key_too_large key_size max_key_size)
      else pure tt

  unfoldable pub validate_value : ℕ → ℕ → Io (Unit {0})
  validate_value value_size max_value_size =
      if value_size == 0
      then refuse (invalid_request (codes "Value cannot be empty")) value_size_zero
      else if ltb max_value_size value_size
      then refuse (payload_too_large (codes "Value too large"))
          (value_too_large value_size max_value_size)
      else pure tt

  -- The fields of a CREATE, INFO or DROP.
  unfoldable pub read_name : Io Bytes
  read_name = do
    db_name_len ← read_u8
    db_name_buf ← read_exact_reuse_buf db_name_len
    validate_db_name db_name_buf

  -- The fields of a GET or DELETE.
  unfoldable pub read_name_and_key : ℕ → Io (Bytes × Bytes)
  read_name_and_key max_key_size = do
    db_name_len ← read_u8
    key_size ← read_u32_le
    db_name_buf ← read_exact_reuse_buf db_name_len
    db_name ← validate_db_name db_name_buf
    validate_key key_size max_key_size
    key ← read_exact_reuse_buf key_size
    pure (db_name, key)

  -- The fields of a SET.
  unfoldable pub read_name_key_and_value : ℕ → ℕ → Io (Bytes × Bytes × Bytes)
  read_name_key_and_value max_key_size max_value_size = do
    db_name_len ← read_u8
    key_size ← read_u32_le
    value_size ← read_u32_le
    db_name_buf ← read_exact_reuse_buf db_name_len
    db_name ← validate_db_name db_name_buf
    validate_key key_size max_key_size
    validate_value value_size max_value_size
    key ← read_exact_reuse_buf key_size
    value ← read_exact_reuse_buf value_size
    pure (db_name, key, value)

  -- `display` is the text of an error, and `none` the receiver's error when the reply never comes.
  unfoldable pub send_db_result_to_client :
      (Error → Bytes) → Option (Result Response) → Io (Unit {0})
  send_db_result_to_client display (some (ok response)) = send_response response
  send_db_result_to_client display (some (err e)) =
      refuse (internal_error (codes "Something went terribly wrong: " ++ display e)) (internal e)
  send_db_result_to_client display none =
      refuse (internal_error (codes "Failed to receive response from worker")) reply_lost
