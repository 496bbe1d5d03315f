-- ===== src/Wal/Scan/Stops.antt =====
-- The tails at which recovery stops: cut off, malformed, or with a wrong checksum.
use mini_db.Prelude.{
  ℕ, suc, ◌+◌, ◌-◌, ◌%◌, ◌/◌, ◌<◌, ◌≡◌, ◌≢◌, true, inl, inr, ◌∷◌, ◌++◌, length, take, ltb, ltb→lt,
  leb, Bool-cases, arith, All, List, [], ◌∙◌, length-append, length-take, lt→leb,
}
use mini_db.Bytes.{Bytes, as_u32, to_le_bytes, from_le_bytes}
use mini_db.Crc.{Crc32}
use mini_db.Wal.{crc_len}
use mini_db.Wal.History.{
  Write, op_of, key_of, value_of, IsLoggable, entry_len, checksum, encode, encode_all, replay,
  crc_hash-reset, from_le_bytes-as_u32,
}
use mini_db.Wal.Scan.{scan_loop, scan, done, read_entry, stop}
use mini_db.Wal.Scan.Read.{header, malformed, verdict, read_entry-frame, read_entry-cut}
use mini_db.Wal.Scan.Replays.{Ends, state, scan-encode_all}

module _ ⦃crc : Crc32⦄ where
  open crc use {default}

  pub Ends-short : (tail : Bytes) → length tail < 13 → Ends tail
  unfolding scan_loop
  Ends-short tail h pre fuel count m = rw (
    lt→leb (length pre + 13) (length (pre ++ tail)) (omega (arith, length-append pre tail)),
    scan_loop,
  )

  -- The loop ends in front of bytes at which a round stops.
  Ends-of_stop :
      (s : Bytes)
      → ((pre : Bytes) → read_entry default (pre ++ s) (length pre) ≡ stop default)
      → Ends s
  unfolding scan_loop
  Ends-of_stop s stops pre fuel count m =
      elim (Bool-cases (leb (length pre + 13) (length (pre ++ s)))) [
        | inl fits ↦ rw (fits, stops pre, scan_loop)
        | inr over ↦ rw (over, scan_loop)
      ]

  -- A whole header, with less behind it than it announces.
  pub Ends-cut :
      (body : Bytes) (op k0 k1 k2 k3 v0 v1 v2 v3 : ℕ)
      → length body < from_le_bytes k0 k1 k2 k3 + from_le_bytes v0 v1 v2 v3 + crc_len
      → Ends (header op k0 k1 k2 k3 v0 v1 v2 v3 body)
  Ends-cut body op k0 k1 k2 k3 v0 v1 v2 v3 short =
      Ends-of_stop (header op k0 k1 k2 k3 v0 v1 v2 v3 body)
        (λ pre. read_entry-cut default pre body op k0 k1 k2 k3 v0 v1 v2 v3 short)

  Ends-take_past_header :
      (w : Write) (k : ℕ)
      → IsLoggable w
      → k + 9 < entry_len w
      → Ends (take (suc (suc (suc (suc (suc (suc (suc (suc (suc k))))))))) (encode w))
  unfolding encode entry_len
  Ends-take_past_header w k l h = Ends-cut (take k rest) _ _ _ _ _ _ _ _ _ short
    where
      rest : Bytes
      rest = key_of w ++ (value_of w ++ to_le_bytes (checksum (op_of w) (key_of w) (value_of w)))

      short :
          length (take k rest)
          < from_le_bytes
              (as_u32 (length (key_of w)) % 256)
              (as_u32 (length (key_of w)) / 256 % 256)
              (as_u32 (length (key_of w)) / 65536 % 256)
              (as_u32 (length (key_of w)) / 16777216 % 256)
            + from_le_bytes
                (as_u32 (length (value_of w)) % 256)
                (as_u32 (length (value_of w)) / 256 % 256)
                (as_u32 (length (value_of w)) / 65536 % 256)
                (as_u32 (length (value_of w)) / 16777216 % 256)
            + crc_len
      short =
          rw
            (
              from_le_bytes-as_u32 (length (key_of w)) l.key_fits,
              from_le_bytes-as_u32 (length (value_of w)) l.value_fits,
            )
            (omega (arith, length-take k rest))

  -- A first part of an entry, shorter than the entry.
  pub Ends-take : (w : Write) (n : ℕ) → IsLoggable w → n < entry_len w → Ends (take n (encode w))
  Ends-take w n l h = elim (Bool-cases (ltb n 13)) [
    | inl few ↦
        Ends-short (take n (encode w)) (omega (arith, length-take n (encode w), ltb→lt n 13 few))
    | inr many ↦
        let e : n ≡ suc (suc (suc (suc (suc (suc (suc (suc (suc (n - 9))))))))) = ground arith in
        rw e (Ends-take_past_header w (n - 9) l (ground arith))
  ]

  verdict-stop :
      (op stored : ℕ) (key value : Bytes)
      → stored ≢ checksum op key value
      → verdict default op key value stored ≡ stop default
  unfolding verdict checksum
  verdict-stop op stored key value differs =
      ground (arith, crc_hash-reset default op (length key) (length value) key value)

  module _ (key value tail : Bytes) (op k0 k1 k2 k3 v0 v1 v2 v3 c0 c1 c2 c3 : ℕ)
      (klen : from_le_bytes k0 k1 k2 k3 ≡ length key)
      (vlen : from_le_bytes v0 v1 v2 v3 ≡ length value) where
    abbrev whole : Bytes
    whole = header op k0 k1 k2 k3 v0 v1 v2 v3 (key ++ (value ++ c0 ∷ c1 ∷ c2 ∷ c3 ∷ tail))

    -- A header that fails a test.
    pub Ends-malformed : malformed op (length key) (length value) ≡ true → Ends whole
    Ends-malformed bad = Ends-of_stop whole λ pre.
        read_entry-frame default pre tail key value op k0 k1 k2 k3 v0 v1 v2 v3 c0 c1 c2 c3 klen vlen
        ∙ rw bad

    -- An entry whose checksum is another.
    pub Ends-corrupt : from_le_bytes c0 c1 c2 c3 ≢ checksum op key value → Ends whole
    Ends-corrupt differs = Ends-of_stop whole λ pre.
        read_entry-frame default pre tail key value op k0 k1 k2 k3 v0 v1 v2 v3 c0 c1 c2 c3 klen vlen
        ∙ rw (verdict-stop op (from_le_bytes c0 c1 c2 c3) key value differs) (ground arith)

    -- Behind the entries of some loggable writes, an entry whose checksum does not match ends recovery: the
    -- writes are kept, and the entry is dropped with all that follows it.
    pub scan_corrupt :
        (ws : List Write)
        → All IsLoggable ws
        → from_le_bytes c0 c1 c2 c3 ≢ checksum op key value
        → scan (encode_all ws ++ whole)
          ≡ done (state (length (encode_all ws)) (length ws) (replay ws []))
    scan_corrupt ws l differs = scan-encode_all ws whole l (Ends-corrupt differs)

    -- Behind the entries of some loggable writes, an entry with an unknown op, an empty key or a
    -- DELETE that carries a value ends recovery, whatever its checksum: the writes are kept, and the
    -- entry is dropped with all that follows it.
    pub scan-malformed :
        (ws : List Write)
        → All IsLoggable ws
        → malformed op (length key) (length value) ≡ true
        → scan (encode_all ws ++ whole)
          ≡ done (state (length (encode_all ws)) (length ws) (replay ws []))
    scan-malformed ws l bad = scan-encode_all ws whole l (Ends-malformed bad)
