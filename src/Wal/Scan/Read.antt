-- ===== src/Wal/Scan/Read.antt =====
-- What one round of the loop does at a position, told by the bytes from there on.
use mini_db.Prelude.{
  ℕ, suc, ◌+◌, ◌<◌, ◌≡◌, refl, sym, ap, ◌∙◌, Bool, not, ◌&&◌, ◌||◌, List, [], ◌∷◌, ◌++◌, length,
  take, drop, get_elem?, ltb, ◌==◌, if◌then◌else◌, arith, length-append, drop-append_length,
  take-append_length, le→leb, lt→ltb, le→ltb, append_assoc,
}
use mini_db.Bytes.{Bytes, from_le_bytes}
use mini_db.Crc.{Crc32}
use mini_db.Wal.{header_len, crc_len, op_set, op_delete, crc_hash}
use mini_db.Wal.Scan.{
  Scan, next, stop, ◌>>=◌, ◌>>◌, index, slice, u32_at, stop_if, Entry, read_entry,
}

get_elem?-append {ℓ} :
    {A : Type ℓ} (pre s : List A) (i : ℕ) → get_elem? (pre ++ s) (length pre + i) ≡ get_elem? s i
get_elem?-append [] s i = ap (get_elem? s) (omega arith)
get_elem?-append (x ∷ pre) s i =
    ap (get_elem? (x ∷ pre ++ s)) {y = suc (length pre + i)} (omega arith)
    ∙ get_elem?-append pre s i

drop-append {ℓ} :
    {A : Type ℓ} (pre s : List A) (i : ℕ) → drop (length pre + i) (pre ++ s) ≡ drop i s
drop-append [] s i = ap (λ k. drop k s) (omega arith)
drop-append (x ∷ pre) s i =
    ap (λ k. drop k (x ∷ pre ++ s)) {y = suc (length pre + i)} (omega arith) ∙ drop-append pre s i

module _ {H : Type 0} where
  index-append :
      (pre s : Bytes) (i j : ℕ) → j ≡ length pre + i → index {H = H} (pre ++ s) j ≡ index s i
  unfolding index
  index-append pre s i j e = rw e (rw (get_elem?-append, index))

  pub u32_at-append :
      (pre s : Bytes) (i j : ℕ) → j ≡ length pre + i → u32_at {H = H} (pre ++ s) j ≡ u32_at s i
  unfolding u32_at
  u32_at-append pre s i j e = rw (
    index-append pre s i j e,
    index-append pre s (i + 1) (j + 1) (omega arith),
    index-append pre s (i + 2) (j + 2) (omega arith),
    index-append pre s (i + 3) (j + 3) (omega arith),
  )

  u32_at-start :
      (a b c d : ℕ) (s : Bytes)
      → u32_at {H = H} (a ∷ b ∷ c ∷ d ∷ s) 0 ≡ next (from_le_bytes a b c d)
  unfolding u32_at
  u32_at-start a b c d s = refl

  -- A slice that starts behind `pre`, over `mid`.
  pub slice-append :
      (pre mid s : Bytes) (a b : ℕ)
      → a ≡ length pre
      → b ≡ length pre + length mid
      → slice {H = H} (pre ++ (mid ++ s)) a b ≡ next mid
  unfolding slice
  slice-append pre mid s a b ea eb =
      rw (ea, eb)
        (rw
          (
            le→leb (length pre) (length pre + length mid) (omega arith),
            le→leb (length pre + length mid) (length (pre ++ (mid ++ s)))
                (omega (arith, length-append pre (mid ++ s), length-append mid s)),
            drop-append_length,
          )
          (ap (λ n. next (take n (mid ++ s))) {y = length mid} (omega arith)
            ∙ ap next (take-append_length mid s)))

-- The tests of the header that end the loop before the entry's length is looked at.
abbrev pub malformed : ℕ → ℕ → ℕ → Bool
malformed op klen vlen =
    (not (op == op_set) && not (op == op_delete))
    || (klen == 0)
    || (op == op_delete && not (vlen == 0))

module _ ⦃crc : Crc32⦄ where
  open crc use {Hasher}

  -- The test of the checksum, on an entry that is all there.
  unfoldable pub verdict : Hasher → ℕ → Bytes → Bytes → ℕ → Scan Hasher Entry
  verdict hasher op key value stored_crc =
      let (computed_crc, h) = crc_hash hasher op (length key) (length value) key value in
      if stored_crc == computed_crc
      then next (record {
        op = op;
        key = key;
        value = value;
        total_len = header_len + length key + length value + crc_len;
        hasher = h;
      })
      else stop h

  abbrev pub header : ℕ → ℕ → ℕ → ℕ → ℕ → ℕ → ℕ → ℕ → ℕ → Bytes → Bytes
  header op k0 k1 k2 k3 v0 v1 v2 v3 body = op ∷ k0 ∷ k1 ∷ k2 ∷ k3 ∷ v0 ∷ v1 ∷ v2 ∷ v3 ∷ body

  module _ (hasher : Hasher) (pre body : Bytes) (op k0 k1 k2 k3 v0 v1 v2 v3 : ℕ) where
    abbrev here : Bytes
    here = header op k0 k1 k2 k3 v0 v1 v2 v3 body

    -- The rest of the body of the loop, once the header is read.
    abbrev after_header : Bytes → ℕ → ℕ → ℕ → Scan Hasher Entry
    after_header bytes offset klen vlen = do
      stop_if (not (op == op_set) && not (op == op_delete)) hasher
      stop_if (klen == 0) hasher
      stop_if (op == op_delete && not (vlen == 0)) hasher
      let total_len = header_len + klen + vlen + crc_len
      stop_if (ltb (length bytes) (offset + total_len)) hasher
      let key_start = offset + header_len
      let value_start = key_start + klen
      let crc_start = value_start + vlen
      stored_crc ← u32_at bytes crc_start
      key ← slice bytes key_start value_start
      value ← slice bytes value_start crc_start
      let (computed_crc, h) = crc_hash hasher op klen vlen key value
      stop_if (not (stored_crc == computed_crc)) h
      next (record { op = op; key = key; value = value; total_len = total_len; hasher = h })

    read_entry-header :
        read_entry hasher (pre ++ here) (length pre)
        ≡ after_header
            (pre ++ here)
            (length pre)
            (from_le_bytes k0 k1 k2 k3)
            (from_le_bytes v0 v1 v2 v3)
    unfolding read_entry
    read_entry-header = rw (
      index-append pre here 0 (length pre) (omega arith),
      u32_at-append pre here 1 (length pre + 1) (omega arith),
      u32_at-append pre here 5 (length pre + 5) (omega arith),
    )

    -- An entry that the bytes do not hold whole ends the loop.
    pub read_entry-cut :
        length body < from_le_bytes k0 k1 k2 k3 + from_le_bytes v0 v1 v2 v3 + crc_len
        → read_entry hasher (pre ++ here) (length pre) ≡ stop hasher
    read_entry-cut h = rw read_entry-header (
        rw
          (lt→ltb (length (pre ++ here))
            (length pre
              + (header_len + from_le_bytes k0 k1 k2 k3 + from_le_bytes v0 v1 v2 v3 + crc_len))
            (omega (arith, length-append pre here)))
          (ground arith))

  -- An entry that is there whole: its header is tested, then its checksum.
  pub read_entry-frame :
      (hasher : Hasher) (pre tail key value : Bytes) (op k0 k1 k2 k3 v0 v1 v2 v3 c0 c1 c2 c3 : ℕ)
      → from_le_bytes k0 k1 k2 k3 ≡ length key
      → from_le_bytes v0 v1 v2 v3 ≡ length value
      → read_entry hasher
          (pre ++ header op k0 k1 k2 k3 v0 v1 v2 v3 (key ++ (value ++ c0 ∷ c1 ∷ c2 ∷ c3 ∷ tail)))
          (length pre)
        ≡ (if malformed op (length key) (length value)
            then stop hasher
            else verdict hasher op key value (from_le_bytes c0 c1 c2 c3))
  unfolding verdict
  read_entry-frame hasher pre tail key value op k0 k1 k2 k3 v0 v1 v2 v3 c0 c1 c2 c3 ek ev =
      rw (read_entry-header hasher pre (key ++ (value ++ sum)) op k0 k1 k2 k3 v0 v1 v2 v3) (
        rw (ek, ev)
          (rw
            (
              le→ltb (length (pre ++ bytes))
                  (length pre + (header_len + length key + length value + crc_len))
                  (omega (arith, length-append pre bytes, lengths)),
              at_sum,
              at_key,
              at_value,
            )
            (ground arith)))
    where
      sum : Bytes
      sum = c0 ∷ c1 ∷ c2 ∷ c3 ∷ tail

      bytes : Bytes
      bytes = header op k0 k1 k2 k3 v0 v1 v2 v3 (key ++ (value ++ sum))

      front : Bytes
      front = header op k0 k1 k2 k3 v0 v1 v2 v3 []

      lengths : length (key ++ (value ++ sum)) ≡ length key + length value + 4 + length tail
      lengths = omega (arith, length-append key (value ++ sum), length-append value sum)

      at_key :
          slice {H = Hasher}
            (pre ++ bytes)
            (length pre + header_len)
            (length pre + header_len + length key)
          ≡ next key
      at_key =
          ap (λ b. slice b (length pre + header_len) (length pre + header_len + length key))
            (sym (append_assoc pre front (key ++ (value ++ sum))))
          ∙ slice-append (pre ++ front) key (value ++ sum) _ _
              (omega (arith, length-append pre front)) (omega (arith, length-append pre front))

      at_value :
          slice {H = Hasher}
            (pre ++ bytes)
            (length pre + header_len + length key)
            (length pre + header_len + length key + length value)
          ≡ next value
      at_value =
          ap
            (λ b.
              slice b (length pre + header_len + length key)
                (length pre + header_len + length key + length value))
            (sym (append_assoc pre (front ++ key) (value ++ sum)))
          ∙ slice-append (pre ++ (front ++ key)) value sum _ _
              (omega (arith, length-append pre (front ++ key)))
              (omega (arith, length-append pre (front ++ key)))

      at_sum :
          u32_at {H = Hasher} (pre ++ bytes) (length pre + header_len + length key + length value)
          ≡ next (from_le_bytes c0 c1 c2 c3)
      at_sum =
          ap
            (λ b.
              u32_at (pre ++ (front ++ b)) (length pre + header_len + length key + length value))
            (sym (append_assoc key value sum))
          ∙ ap (λ b. u32_at b (length pre + header_len + length key + length value))
              (sym (append_assoc pre (front ++ (key ++ value)) sum))
          ∙ u32_at-append (pre ++ (front ++ (key ++ value))) sum 0 _
              (omega (arith, length-append pre (front ++ (key ++ value)), length-append key value))
          ∙ u32_at-start c0 c1 c2 c3 tail
