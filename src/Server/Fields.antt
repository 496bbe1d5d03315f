-- ===== src/Server/Fields.antt =====
-- The checks of a request's fields, and the fields that pass them.
use mini_db.Prelude.{
  ℕ, ◌≤◌, ◌<◌, ◌^◌, ◌≡◌, refl, sym, true, false, [], ◌∷◌, length, arith, le→ltb, ◌==◌,
}
use mathlib.Core.Path.{subst}
use mini_db.Bytes.{Bytes, as_u32, to_le_bytes}
use mini_db.Stream.{Stream}
use mini_db.Stream.Io.{pure, read_u8, read_u32_le, read_exact}
use mini_db.Stream.Exchange.{
  Reads, Reads-then, Reads-last, Reads-check, Reads-read_u8, Reads-read_u32_le, Reads-read_exact,
}
use mini_db.Server.Names.{max_db_name_len, all_name_bytes, is_utf8-all_name_bytes}
use mini_db.Server.Checks.{
  validate_db_name, validate_key, validate_value, read_name, read_name_and_key,
  read_name_key_and_value,
}
use mini_db.Client.Sends.{name_len, name_fields, key_fields, set_fields}

-- A name of 1 to 64 letters, digits, `_` and `-`.
pub record IsName (db_name : Bytes) : Type 0 where
  pub not_empty : 0 < length db_name
  pub short : length db_name ≤ max_db_name_len
  pub safe : all_name_bytes db_name ≡ true

-- A size that the server takes, under its limit, which a u32 can count.
pub record IsSize (limit size : ℕ) : Type 0 where
  pub not_zero : 0 < size
  pub at_most : size ≤ limit
  pub fits : size < 2 ^ 32

module _ ⦃net : Stream⦄ where
  pub accepted : (db_name : Bytes) → IsName db_name → validate_db_name db_name ≡ pure db_name
  unfolding validate_db_name
  accepted [] n = absurd (omega (arith, n.not_empty))
  accepted (b ∷ bs) n =
      rw
        (
          le→ltb max_db_name_len (length (b ∷ bs)) n.short,
          n.safe,
          is_utf8-all_name_bytes (b ∷ bs) n.safe,
        )
        refl

  key_accepted : (limit size : ℕ) → IsSize limit size → validate_key size limit ≡ pure tt
  unfolding validate_key
  key_accepted limit size h =
      let nonzero : (size == 0) ≡ false = ground (arith, h.not_zero) in
      rw (nonzero, le→ltb limit size h.at_most) refl

  value_accepted : (limit size : ℕ) → IsSize limit size → validate_value size limit ≡ pure tt
  unfolding validate_value
  value_accepted limit size h =
      let nonzero : (size == 0) ≡ false = ground (arith, h.not_zero) in
      rw (nonzero, le→ltb limit size h.at_most) refl

  name_len-IsName : (db_name : Bytes) → IsName db_name → name_len db_name ≡ length db_name
  name_len-IsName db_name n = omega (arith, n.short)

  as_u32-IsSize : (limit size : ℕ) → IsSize limit size → as_u32 size ≡ size
  as_u32-IsSize limit size h = omega (arith, h.fits)

  read_len :
      (db_name : Bytes) → IsName db_name → Reads read_u8 (name_len db_name ∷ []) (length db_name)
  read_len db_name n =
      subst (λ k. Reads read_u8 (name_len db_name ∷ []) k) (name_len-IsName db_name n)
        (Reads-read_u8 (name_len db_name))

  read_size :
      (limit : ℕ) (field : Bytes)
      → IsSize limit (length field)
      → Reads read_u32_le (to_le_bytes (as_u32 (length field))) (length field)
  read_size limit field h =
      let e = as_u32-IsSize limit (length field) h in
      subst (λ k. Reads read_u32_le (to_le_bytes k) (length field)) (sym e)
        (Reads-read_u32_le (length field) h.fits)

  module _ (db_name : Bytes) (n : IsName db_name) where
    pub Reads-read_name : Reads read_name (name_fields db_name) db_name
    unfolding read_name
    Reads-read_name =
        Reads-then read_u8 _ (name_len db_name ∷ []) db_name (length db_name) db_name
          (read_len db_name n)
          (Reads-last (read_exact (length db_name)) _ db_name db_name db_name
            (Reads-read_exact db_name) (accepted db_name n))

    module _ (max_key_size : ℕ) (key : Bytes) (k : IsSize max_key_size (length key)) where
      pub Reads-read_name_and_key :
          Reads (read_name_and_key max_key_size) (key_fields db_name key) (db_name, key)
      unfolding read_name_and_key
      Reads-read_name_and_key =
          Reads-then read_u8 _ (name_len db_name ∷ []) _ (length db_name) _ (read_len db_name n) (
            Reads-then read_u32_le _ (to_le_bytes (as_u32 (length key))) _ (length key) _
              (read_size max_key_size key k)
              (Reads-then (read_exact (length db_name)) _ db_name _ db_name _
                (Reads-read_exact db_name)
                (Reads-check (validate_db_name db_name) _ _ db_name _ (accepted db_name n) (
                  Reads-check (validate_key (length key) max_key_size) _ _ tt _
                    (key_accepted max_key_size (length key) k)
                    (Reads-last (read_exact (length key)) _ key key (db_name, key)
                      (Reads-read_exact key) refl)))))

      module _ (max_value_size : ℕ) (value : Bytes) (v : IsSize max_value_size (length value)) where
        pub Reads-read_name_key_and_value :
            Reads
              (read_name_key_and_value max_key_size max_value_size)
              (set_fields db_name key value)
              (db_name, key, value)
        unfolding read_name_key_and_value
        Reads-read_name_key_and_value =
            Reads-then read_u8 _ (name_len db_name ∷ []) _ (length db_name) _ (read_len db_name n) (
              Reads-then read_u32_le _ (to_le_bytes (as_u32 (length key))) _ (length key) _
                (read_size max_key_size key k)
                (Reads-then read_u32_le _ (to_le_bytes (as_u32 (length value))) _ (length value) _
                  (read_size max_value_size value v)
                  (Reads-then (read_exact (length db_name)) _ db_name _ db_name _
                    (Reads-read_exact db_name)
                    (Reads-check (validate_db_name db_name) _ _ db_name _ (accepted db_name n) (
                      Reads-check (validate_key (length key) max_key_size) _ _ tt _
                        (key_accepted max_key_size (length key) k)
                        (Reads-check (validate_value (length value) max_value_size) _ _ tt _
                          (value_accepted max_value_size (length value) v)
                          (Reads-then (read_exact (length key)) _ key _ key _ (Reads-read_exact key)
                            (Reads-last (read_exact (length value)) _ value value
                              (db_name, key, value) (Reads-read_exact value) refl))))))))
