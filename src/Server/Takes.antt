-- ===== src/Server/Takes.antt =====
-- The reads and checks of a request's fields take bytes off the socket and put none back.
use mini_db.Prelude.{ℕ, Option, some, none, not, ltb, ◌==◌, length}
use mini_db.Bytes.{Bytes, is_empty}
use mini_db.Server.Names.{max_db_name_len, all_name_bytes, is_utf8}
use mini_db.Result.{Error, Result, ok, err}
use mini_db.Stream.{Stream}
use mini_db.Stream.Shrinks.{
  Shrinks, Shrinks-pure, Shrinks-raise, Shrinks-then, Shrinks-if, Shrinks-write_all,
  Shrinks-read_u8, Shrinks-read_u32_le, Shrinks-read_exact,
}
use mini_db.Protocol.{Response, send_response}
use mini_db.Server.Checks.{
  refuse, validate_db_name, validate_key, validate_value, read_name, read_name_and_key,
  read_name_key_and_value, send_db_result_to_client,
}

module _ ⦃net : Stream⦄ where
  pub Shrinks-send_response : (r : Response) → Shrinks (send_response r)
  unfolding send_response
  Shrinks-send_response r = Shrinks-write_all _

  pub Shrinks-refuse : {A : Type 0} (r : Response) (e : Error) → Shrinks (refuse {A = A} r e)
  Shrinks-refuse r e = Shrinks-then _ _ (Shrinks-send_response r) λ u. Shrinks-raise e

  pub Shrinks-validate_db_name : (b : Bytes) → Shrinks (validate_db_name b)
  unfolding validate_db_name
  Shrinks-validate_db_name b = Shrinks-if (is_empty b) _ _ (Shrinks-refuse _ _) (
      Shrinks-if (ltb max_db_name_len (length b)) _ _ (Shrinks-refuse _ _) (
        Shrinks-if (not (all_name_bytes b)) _ _ (Shrinks-refuse _ _)
          (Shrinks-if (is_utf8 b) _ _ (Shrinks-pure b) (Shrinks-refuse _ _))))

  pub Shrinks-validate_key : (size limit : ℕ) → Shrinks (validate_key size limit)
  unfolding validate_key
  Shrinks-validate_key size limit =
      Shrinks-if (size == 0) _ _ (Shrinks-refuse _ _)
        (Shrinks-if (ltb limit size) _ _ (Shrinks-refuse _ _) (Shrinks-pure tt))

  pub Shrinks-validate_value : (size limit : ℕ) → Shrinks (validate_value size limit)
  unfolding validate_value
  Shrinks-validate_value size limit =
      Shrinks-if (size == 0) _ _ (Shrinks-refuse _ _)
        (Shrinks-if (ltb limit size) _ _ (Shrinks-refuse _ _) (Shrinks-pure tt))

  pub Shrinks-read_name : Shrinks read_name
  unfolding read_name
  Shrinks-read_name =
      Shrinks-then _ _ Shrinks-read_u8
        λ len. Shrinks-then _ _ (Shrinks-read_exact len) Shrinks-validate_db_name

  pub Shrinks-read_name_and_key : (mk : ℕ) → Shrinks (read_name_and_key mk)
  unfolding read_name_and_key
  Shrinks-read_name_and_key mk = Shrinks-then _ _ Shrinks-read_u8 λ len.
      Shrinks-then _ _ Shrinks-read_u32_le λ size. Shrinks-then _ _ (Shrinks-read_exact len) λ buf.
        Shrinks-then _ _ (Shrinks-validate_db_name buf) λ name.
          Shrinks-then _ _ (Shrinks-validate_key size mk)
            λ u. Shrinks-then _ _ (Shrinks-read_exact size) λ key. Shrinks-pure (name, key)

  pub Shrinks-read_name_key_and_value : (mk mv : ℕ) → Shrinks (read_name_key_and_value mk mv)
  unfolding read_name_key_and_value
  Shrinks-read_name_key_and_value mk mv = Shrinks-then _ _ Shrinks-read_u8 λ len.
      Shrinks-then _ _ Shrinks-read_u32_le λ size. Shrinks-then _ _ Shrinks-read_u32_le λ vsize.
        Shrinks-then _ _ (Shrinks-read_exact len) λ buf.
          Shrinks-then _ _ (Shrinks-validate_db_name buf) λ name.
            Shrinks-then _ _ (Shrinks-validate_key size mk) λ u.
              Shrinks-then _ _ (Shrinks-validate_value vsize mv) λ u'.
                Shrinks-then _ _ (Shrinks-read_exact size) λ key.
                  Shrinks-then _ _ (Shrinks-read_exact vsize)
                    λ value. Shrinks-pure (name, key, value)

  pub Shrinks-send_db_result_to_client :
      (display : Error → Bytes) (r : Option (Result Response))
      → Shrinks (send_db_result_to_client display r)
  unfolding send_db_result_to_client
  Shrinks-send_db_result_to_client display (some (ok r)) = Shrinks-send_response r
  Shrinks-send_db_result_to_client display (some (err e)) = Shrinks-refuse _ _
  Shrinks-send_db_result_to_client display none = Shrinks-refuse _ _
