-- ===== src/Wal/History.antt =====
-- The abstract view of a log: the writes in it, the bytes of their entries by the documented format
-- `(1 B OP | 4B KLEN | 4B VLEN | key | value | 4B CRC32)`, and the map that they build.
use mini_db.Prelude.{
  ℕ, ◌+◌, ◌%◌, ◌/◌, ◌^◌, ◌<◌, ◌≡◌, refl, ap, sym, ◌∙◌, List, [], ◌∷◌, ◌++◌, length, length-append,
  append_assoc, arith, Option, none, some, if◌then◌else◌,
}
use mini_db.Bytes.{Bytes, as_u32, to_le_bytes, from_le_bytes, bytes_eq}
use mini_db.Map.{Map, get, insert, remove, get-insert, get-remove}
use mini_db.Crc.{Crc32}
use mini_db.Wal.{header_len, crc_len, op_set, op_delete, crc_hash}

pub data Write : Type 0 where
  set : Bytes → Bytes → Write
  delete : Bytes → Write

abbrev pub op_of : Write → ℕ
op_of (set key value) = op_set
op_of (delete key) = op_delete

abbrev pub key_of : Write → Bytes
key_of (set key value) = key
key_of (delete key) = key

abbrev pub value_of : Write → Bytes
value_of (set key value) = value
value_of (delete key) = []

-- What `append` accepts without losing a bit of the lengths.
pub record IsLoggable (w : Write) : Type 0 where
  pub has_key : 0 < length (key_of w)
  pub key_fits : length (key_of w) < 2 ^ 32
  pub value_fits : length (value_of w) < 2 ^ 32

unfoldable pub entry_len : Write → ℕ
entry_len w = header_len + length (key_of w) + length (value_of w) + crc_len

-- The effect of a write on the index.
unfoldable pub apply : Write → Map Bytes → Map Bytes
apply (set key value) m = insert key value m
apply (delete key) m = remove key m

unfoldable pub replay : List Write → Map Bytes → Map Bytes
replay [] m = m
replay (w ∷ ws) m = replay ws (apply w m)

-- The last write of a key decides what it holds.
unfoldable pub latest : Bytes → List Write → Option Bytes → Option Bytes
latest k [] found = found
latest k (set j v ∷ ws) found = latest k ws (if bytes_eq j k then some v else found)
latest k (delete j ∷ ws) found = latest k ws (if bytes_eq j k then none else found)

pub get-replay :
    (k : Bytes) (ws : List Write) (m : Map Bytes) → get k (replay ws m) ≡ latest k ws (get k m)
unfolding replay latest apply
get-replay k [] m = refl
get-replay k (set j v ∷ ws) m =
    get-replay k ws (insert j v m) ∙ ap (latest k ws) (get-insert j k v m)
get-replay k (delete j ∷ ws) m = get-replay k ws (remove j m) ∙ ap (latest k ws) (get-remove j k m)

pub replay-append :
    (ws vs : List Write) (m : Map Bytes) → replay (ws ++ vs) m ≡ replay vs (replay ws m)
unfolding replay
replay-append [] vs m = refl
replay-append (w ∷ ws) vs m = replay-append ws vs (apply w m)

module _ ⦃crc : Crc32⦄ where
  open crc use {Hasher, default}

  -- The checksum of an entry by a fresh hasher.
  unfoldable pub checksum : ℕ → Bytes → Bytes → ℕ
  unfolding crc_hash
  checksum op key value = (crc_hash default op (length key) (length value) key value).0

  abbrev pub frame : ℕ → Bytes → Bytes → ℕ → Bytes
  frame op key value sum =
      op ∷ to_le_bytes (as_u32 (length key))
      ++ (to_le_bytes (as_u32 (length value)) ++ (key ++ (value ++ to_le_bytes sum)))

  unfoldable pub encode : Write → Bytes
  encode w = frame (op_of w) (key_of w) (value_of w) (checksum (op_of w) (key_of w) (value_of w))

  unfoldable pub encode_all : List Write → Bytes
  encode_all [] = []
  encode_all (w ∷ ws) = encode w ++ encode_all ws

  pub encode_all-append :
      (ws vs : List Write) → encode_all (ws ++ vs) ≡ encode_all ws ++ encode_all vs
  unfolding encode_all
  encode_all-append [] vs = refl
  encode_all-append (w ∷ ws) vs =
      ap (λ t. encode w ++ t) (encode_all-append ws vs)
      ∙ sym (append_assoc (encode w) (encode_all ws) (encode_all vs))

  pub length-encode : (w : Write) → length (encode w) ≡ entry_len w
  unfolding encode entry_len
  length-encode w =
      let sum = to_le_bytes (checksum (op_of w) (key_of w) (value_of w)) in
      omega (arith, length-append (key_of w) (value_of w ++ sum), length-append (value_of w) sum)

  pub checksum-lt : (op : ℕ) (key value : Bytes) → checksum op key value < 2 ^ 32
  unfolding checksum
  checksum-lt op key value = crc.finalize-lt _

  -- Whatever hasher it started from, `crc_hash` leaves a fresh one.
  pub crc_hash-reset :
      (h : Hasher) (op klen vlen : ℕ) (key value : Bytes)
      → (crc_hash h op klen vlen key value).1 ≡ default
  unfolding crc_hash
  crc_hash-reset h op klen vlen key value = crc.reset-eq _

pub from_le_bytes-as_u32 :
    (n : ℕ)
    → n < 2 ^ 32
    → from_le_bytes
        (as_u32 n % 256)
        (as_u32 n / 256 % 256)
        (as_u32 n / 65536 % 256)
        (as_u32 n / 16777216 % 256)
      ≡ n
from_le_bytes-as_u32 n h = omega arith
