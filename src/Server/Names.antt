-- ===== src/Server/Names.antt =====
-- The bytes that bin/main.rs accepts in the name of a database, and `str::from_utf8` as a test.
use mini_db.Prelude.{
  ℕ, zero, suc, ◌≡◌, refl, Bool, true, false, ◌&&◌, ◌||◌, Option, none, some, [], ◌∷◌, arith, leb,
  ◌==◌, if◌then◌else◌,
}
use mini_db.Bytes.{Bytes}

-- MAX_DB_NAME_LEN
abbrev pub max_db_name_len : ℕ
max_db_name_len = 64

abbrev pub between : ℕ → ℕ → ℕ → Bool
between lo hi b = leb lo b && leb b hi

-- `b.is_ascii_alphanumeric() || *b == b'_' || *b == b'-'`
unfoldable pub is_name_byte : ℕ → Bool
is_name_byte b = between 48 57 b || between 65 90 b || between 97 122 b || b == 95 || b == 45

unfoldable pub all_name_bytes : Bytes → Bool
all_name_bytes [] = true
all_name_bytes (b ∷ bs) = is_name_byte b && all_name_bytes bs

-- What a lead byte asks for: how many bytes follow it, and the range of the first of these.
unfoldable pub utf8_lead : ℕ → Option (ℕ × ℕ × ℕ)
utf8_lead b =
    if leb b 127
    then some (0, 128, 191)
    else if between 194 223 b
    then some (1, 128, 191)
    else if b == 224
    then some (2, 160, 191)
    else if b == 237
    then some (2, 128, 159)
    else if between 225 239 b
    then some (2, 128, 191)
    else if b == 240
    then some (3, 144, 191)
    else if between 241 243 b
    then some (3, 128, 191)
    else if b == 244
    then some (3, 128, 143)
    else none

-- The bytes are UTF-8, `pending` continuation bytes being due, the first in the range.
unfoldable pub utf8_from : ℕ → ℕ → ℕ → Bytes → Bool
unfolding utf8_lead
utf8_from zero lo hi [] = true
utf8_from (suc pending) lo hi [] = false
utf8_from (suc pending) lo hi (b ∷ bs) = between lo hi b && utf8_from pending 128 191 bs
utf8_from zero lo hi (b ∷ bs) = elim (utf8_lead b) [
  | none ↦ false
  | some (n, lo', hi') ↦ utf8_from n lo' hi' bs
]

-- `core::str::from_utf8(bytes).is_ok()`
unfoldable pub is_utf8 : Bytes → Bool
unfolding utf8_from
is_utf8 = utf8_from 0 128 191

ascii-is_name_byte : (b : ℕ) → is_name_byte b ≡ true → leb b 127 ≡ true
unfolding is_name_byte
ascii-is_name_byte b h = ground arith

utf8_lead-is_name_byte : (b : ℕ) → is_name_byte b ≡ true → utf8_lead b ≡ some (0, 128, 191)
unfolding utf8_lead
utf8_lead-is_name_byte b h = rw (ascii-is_name_byte b h) refl

pub and_true : (a b : Bool) → (a && b) ≡ true → (a ≡ true) × (b ≡ true)
and_true true true h = (refl, refl)
and_true true false h = (refl, h)
and_true false b h = absurd (cc)

-- A name whose bytes pass the check is UTF-8.
pub is_utf8-all_name_bytes : (bs : Bytes) → all_name_bytes bs ≡ true → is_utf8 bs ≡ true
unfolding is_utf8 utf8_from all_name_bytes
is_utf8-all_name_bytes [] h = refl
is_utf8-all_name_bytes (b ∷ bs) h =
    let (first, rest) = and_true (is_name_byte b) (all_name_bytes bs) h in
    rw (is_utf8, utf8_from, utf8_lead-is_name_byte b first) (is_utf8-all_name_bytes bs rest)
