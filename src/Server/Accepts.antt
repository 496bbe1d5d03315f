-- ===== src/Server/Accepts.antt =====
-- Which names and sizes the checks of bin/main.rs let through.
use mini_db.Prelude.{
  ℕ, ◌<◌, ◌≤◌, ◌==◌, ◌≡◌, ◌↔◌, ◌⊎◌, ap, refl, inl, inr, true, Bool-cases, [], ◌∷◌, length, arith,
  ltb, All,
}
use mini_db.Bytes.{Bytes}
use mini_db.Result.{Error, Result, ok, err}
use mini_db.Stream.{Stream}
use mathlib.Core.Path.{subst}
use mini_db.Stream.Io.{continue, read_u8, read_u32_le, read_exact}
use mini_db.Stream.Yields.{Yields, Yields-any, pure-Yields, Yields-then, read_exact-Yields}
use mini_db.Protocol.{Response, send_response}
use mini_db.Server.Names.{
  max_db_name_len, is_name_byte, all_name_bytes, is_utf8-all_name_bytes, and_true,
}
use mini_db.Server.Checks.{
  refuse, validate_db_name, validate_key, validate_value, read_name, read_name_and_key,
  read_name_key_and_value,
}
use mini_db.Server.Fields.{IsName, accepted}

-- A key under the limit.
abbrev pub IsKey : ℕ → Bytes → Type 0
IsKey limit key = (0 < length key) × (length key ≤ limit)

-- The codes of the ASCII digits, capitals and small letters, of `_` and of `-`.
abbrev pub IsPlain : ℕ → Type 0
IsPlain b =
    ((48 ≤ b) × (b ≤ 57))
    ⊎ (((65 ≤ b) × (b ≤ 90)) ⊎ (((97 ≤ b) × (b ≤ 122)) ⊎ ((b ≡ 95) ⊎ (b ≡ 45))))

-- The names that a database may have.
pub record IsPlainName (db_name : Bytes) : Type 0 where
  pub not_empty : 1 ≤ length db_name
  pub at_most_64 : length db_name ≤ 64
  pub plain : All IsPlain db_name

is_name_byte_iff : (b : ℕ) → (is_name_byte b ≡ true) ↔ IsPlain b
unfolding is_name_byte
is_name_byte_iff b = (λ h. ground (arith, h), λ h. ground (arith, h))

all_name_bytes_iff : (bs : Bytes) → (all_name_bytes bs ≡ true) ↔ All IsPlain bs
unfolding all_name_bytes
all_name_bytes_iff [] = (λ h. tt, λ h. refl)
all_name_bytes_iff (b ∷ bs) = (
  λ h.
      let (first, rest) = and_true (is_name_byte b) (all_name_bytes bs) h in
      ((is_name_byte_iff b).0 first, (all_name_bytes_iff bs).0 rest),
  λ a. rw ((is_name_byte_iff b).1 a.0, (all_name_bytes_iff bs).1 a.1) refl,
)

-- The names that are accepted are the plain ones.
IsName-iff : (db_name : Bytes) → IsName db_name ↔ IsPlainName db_name
IsName-iff db_name = (
  λ n. record {
    not_empty = omega (arith, n.not_empty);
    at_most_64 = n.short;
    plain = (all_name_bytes_iff db_name).0 n.safe;
  },
  λ n. record {
    not_empty = omega (arith, n.not_empty);
    short = n.at_most_64;
    safe = (all_name_bytes_iff db_name).1 n.plain;
  },
)

module _ ⦃net : Stream⦄ where
  open net use {Socket}

  -- A refusal is an error, whether its response goes out or not.
  refuse-err :
      {A : Type 0} (r : Response) (e : Error) (s : Socket) (a : A) → (refuse r e s).0 ≡ ok a → ⊥
  refuse-err {A} r e s a = by_sending (send_response r s).0
    where
      by_sending :
          (sent : Result (Unit {0}))
          → (continue sent (λ _ s'. (err e, s')) (send_response r s).1).0 ≡ ok a
          → ⊥
      by_sending (ok u) h = cc
      by_sending (err e') h = cc

  passes : (b a : Bytes) (s : Socket) → (validate_db_name b s).0 ≡ ok a → IsName b × (b ≡ a)
  unfolding validate_db_name
  passes [] a s h = absurd (refuse-err _ _ s a h)
  passes (b ∷ bs) a s h = elim (Bool-cases (ltb max_db_name_len (length (b ∷ bs)))) [
    | inl long ↦ let h' : (refuse _ _ s).0 ≡ ok a = rw long at h in absurd (refuse-err _ _ s a h')
    | inr short ↦ elim (Bool-cases (all_name_bytes (b ∷ bs))) [
      | inl safe ↦
          let h' : ok (b ∷ bs) ≡ ok a =
            rw (short, safe, is_utf8-all_name_bytes (b ∷ bs) safe) at h in
          (record { not_empty = omega arith; short = ground (arith, short); safe = safe }, cc)
      | inr bad ↦
          let h' : (refuse _ _ s).0 ≡ ok a = rw (short, bad) at h in absurd (refuse-err _ _ s a h')
    ]
  ]

  -- The check of a database's name passes, with the name as it came and nothing sent, exactly if the
  -- name has 1 to 64 bytes, each of them the code of an ASCII letter, an ASCII digit, `_` or `-`.
  pub validate_db_name_iff :
      (b : Bytes) (s : Socket) → (validate_db_name b s ≡ (ok b, s)) ↔ IsPlainName b
  validate_db_name_iff b s = (
    λ h. (IsName-iff b).0 (passes b b s (ap (λ r. r.0) h)).0,
    λ n. ap (λ io. io s) (accepted b ((IsName-iff b).1 n)),
  )

  pub validate_db_name-Yields : (b : Bytes) → Yields (validate_db_name b) IsName
  validate_db_name-Yields b = record {
    yields = λ s a e. let (n, same) = passes b a s e in subst IsName same n;
  }

  pub validate_key-Yields :
      (size limit : ℕ) → Yields (validate_key size limit) (λ _. (0 < size) × (size ≤ limit))
  unfolding validate_key
  validate_key-Yields size limit = record {
    yields = λ s a e. elim (Bool-cases (size == 0)) [
      | inl empty ↦
          let e' : (refuse _ _ s).0 ≡ ok a = rw empty at e in absurd (refuse-err _ _ s a e')
      | inr some_key ↦ elim (Bool-cases (ltb limit size)) [
        | inl large ↦
            let e' : (refuse _ _ s).0 ≡ ok a = rw (some_key, large) at e in
            absurd (refuse-err _ _ s a e')
        | inr fits ↦ ground (arith, some_key, fits)
      ]
    ];
  }

  pub validate_value-Yields :
      (size limit : ℕ) → Yields (validate_value size limit) (λ _. size ≤ limit)
  unfolding validate_value
  validate_value-Yields size limit = record {
    yields = λ s a e. elim (Bool-cases (size == 0)) [
      | inl empty ↦
          let e' : (refuse _ _ s).0 ≡ ok a = rw empty at e in absurd (refuse-err _ _ s a e')
      | inr some_value ↦ elim (Bool-cases (ltb limit size)) [
        | inl large ↦
            let e' : (refuse _ _ s).0 ≡ ok a = rw (some_value, large) at e in
            absurd (refuse-err _ _ s a e')
        | inr fits ↦ ground (arith, fits)
      ]
    ];
  }

  pub read_name-Yields : Yields read_name IsName
  unfolding read_name
  read_name-Yields =
      Yields-then read_u8 _ (Yields-any read_u8)
        λ n _. Yields-then (read_exact n) _ (read_exact-Yields n) λ b _. validate_db_name-Yields b

  pub read_name_and_key-Yields :
      (limit : ℕ) → Yields (read_name_and_key limit) (λ a. IsName a.0 × IsKey limit a.1)
  unfolding read_name_and_key
  read_name_and_key-Yields limit = Yields-then read_u8 _ (Yields-any read_u8) λ n _.
      Yields-then read_u32_le _ (Yields-any read_u32_le) λ size _.
        Yields-then (read_exact n) _ (read_exact-Yields n) λ b _.
          Yields-then (validate_db_name b) _ (validate_db_name-Yields b) λ name named.
            Yields-then (validate_key size limit) _ (validate_key-Yields size limit) λ _ fits.
              Yields-then (read_exact size) _ (read_exact-Yields size) λ key long.
                pure-Yields _ (name, key)
                  (named, (omega (arith, long, fits.0), omega (arith, long, fits.1)))

  pub read_name_key_and_value-Yields :
      (limit value_limit : ℕ)
      → Yields
          (read_name_key_and_value limit value_limit)
          (λ a. IsName a.0 × IsKey limit a.1 × (length a.2 ≤ value_limit))
  unfolding read_name_key_and_value
  read_name_key_and_value-Yields limit value_limit =
      Yields-then read_u8 _ (Yields-any read_u8) λ n _.
        Yields-then read_u32_le _ (Yields-any read_u32_le) λ size _.
          Yields-then read_u32_le _ (Yields-any read_u32_le) λ value_size _.
            Yields-then (read_exact n) _ (read_exact-Yields n) λ b _.
              Yields-then (validate_db_name b) _ (validate_db_name-Yields b) λ name named.
                Yields-then (validate_key size limit) _ (validate_key-Yields size limit) λ _ fits.
                  Yields-then (validate_value value_size value_limit) _
                    (validate_value-Yields value_size value_limit)
                    λ _ small. Yields-then (read_exact size) _ (read_exact-Yields size) λ key long.
                      Yields-then (read_exact value_size) _ (read_exact-Yields value_size)
                        λ value wide.
                          pure-Yields _ (name, key, value)
                            (
                              named,
                              (omega (arith, long, fits.0), omega (arith, long, fits.1)),
                              omega (arith, wide, small),
                            )
