-- ===== src/Wal/Scan/Sound.antt =====
-- Recovery on any file: it ends without a panic, and what it reads is the history of some writes.
use mini_db.Prelude.{
  ℕ, zero, suc, ◌+◌, ◌<◌, ◌≤◌, ◌^◌, ◌≡◌, ◌⊎◌, refl, sym, ap, false, inl, inr, List, [], ◌∷◌, ◌++◌,
  length, take, drop, ltb, Bool-cases, ◌==◌, arith, All, All-drop, ◌∙◌, drop-append_length,
  length-append, length-take, length-drop, take-append-drop, append_assoc,
}
use mini_db.Bytes.{
  Bytes, IsByte, AreBytes, as_u32, to_le_bytes, from_le_bytes, to_le_bytes-from_le_bytes,
}
use mathlib.Core.Path.{subst}
use mini_db.Crc.{Crc32}
use mini_db.Wal.{crc_len, op_set, op_delete}
use mini_db.Wal.History.{
  Write, set, delete, IsLoggable, entry_len, replay, checksum, frame, encode, encode_all,
  length-encode,
}
use mini_db.Wal.Scan.{scan, done}
use mini_db.Wal.Scan.Read.{header, malformed}
use mini_db.Wal.Scan.Replays.{state, Ends, scan-encode_all}
use mini_db.Wal.Scan.Stops.{Ends-short, Ends-cut, Ends-malformed, Ends-corrupt}

word-bytes :
    (a b c d n : ℕ)
    → IsByte a
    → IsByte b
    → IsByte c
    → IsByte d
    → from_le_bytes a b c d ≡ n
    → a ∷ b ∷ c ∷ d ∷ [] ≡ to_le_bytes (as_u32 n)
word-bytes a b c d n ha hb hc hd e = ground arith

nil_of_length : (l : Bytes) → length l ≡ 0 → l ≡ []
nil_of_length [] h = refl
nil_of_length (x ∷ l) h = absurd (omega arith)

well_formed :
    (op klen vlen : ℕ)
    → malformed op klen vlen ≡ false
    → ((op ≡ op_set) × (0 < klen)) ⊎ ((op ≡ op_delete) × (0 < klen) × (vlen ≡ 0))
well_formed op klen vlen h = ground arith

-- The last four bytes of an entry, and what follows.
four :
    (l : Bytes)
    → 4 ≤ length l
    → (a : ℕ) × (b : ℕ) × (c : ℕ) × (d : ℕ) × (tail : Bytes) × (l ≡ a ∷ b ∷ c ∷ d ∷ tail)
four (a ∷ b ∷ c ∷ d ∷ tail) h = (a, b, c, d, tail, refl)
four _ h = absurd (omega arith)

module _ ⦃crc : Crc32⦄ where
  open crc use {default}

  -- Bytes begin with an entry that can be logged, or the loop ends in front of them.
  abbrev Round : Bytes → Type 0
  Round s = ((w : Write) × (tail : Bytes) × IsLoggable w × (s ≡ encode w ++ tail)) ⊎ Ends s

  module _ (key value tail : Bytes) (op k0 k1 k2 k3 v0 v1 v2 v3 c0 c1 c2 c3 : ℕ)
      (klen : from_le_bytes k0 k1 k2 k3 ≡ length key)
      (vlen : from_le_bytes v0 v1 v2 v3 ≡ length value) (kbytes : AreBytes (k0 ∷ k1 ∷ k2 ∷ k3 ∷ []))
      (vbytes : AreBytes (v0 ∷ v1 ∷ v2 ∷ v3 ∷ []))
      (cbytes : AreBytes (c0 ∷ c1 ∷ c2 ∷ c3 ∷ [])) where
    abbrev whole : Bytes
    whole = header op k0 k1 k2 k3 v0 v1 v2 v3 (key ++ (value ++ c0 ∷ c1 ∷ c2 ∷ c3 ∷ tail))

    whole-frame : whole ≡ frame op key value (from_le_bytes c0 c1 c2 c3) ++ tail
    whole-frame =
        let sum = to_le_bytes (from_le_bytes c0 c1 c2 c3) in
        cc (
          word-bytes k0 k1 k2 k3 (length key) kbytes.0 kbytes.1.0 kbytes.1.1.0 kbytes.1.1.1.0 klen,
          word-bytes v0 v1 v2 v3 (length value) vbytes.0 vbytes.1.0 vbytes.1.1.0 vbytes.1.1.1.0
              vlen,
          to_le_bytes-from_le_bytes c0 c1 c2 c3 cbytes.0 cbytes.1.0 cbytes.1.1.0 cbytes.1.1.1.0,
          append_assoc key (value ++ sum) tail,
          append_assoc value sum tail,
        )

    key_fits : length key < 2 ^ 32
    key_fits = omega arith

    value_fits : length value < 2 ^ 32
    value_fits = omega arith

    whole-set :
        op ≡ op_set
        → 0 < length key
        → from_le_bytes c0 c1 c2 c3 ≡ checksum op key value
        → Round whole
    unfolding encode
    whole-set e h sum = inl (
      set key value,
      tail,
      record { has_key = h; key_fits = key_fits; value_fits = value_fits },
      whole-frame
          ∙ ap (λ x. frame op key value x ++ tail) sum
          ∙ ap (λ o. frame o key value (checksum o key value) ++ tail) e,
    )

    whole-delete :
        op ≡ op_delete
        → 0 < length key
        → length value ≡ 0
        → from_le_bytes c0 c1 c2 c3 ≡ checksum op key value
        → Round whole
    unfolding encode
    whole-delete e h v sum = inl (
      delete key,
      tail,
      record { has_key = h; key_fits = key_fits; value_fits = omega arith },
      whole-frame
          ∙ ap (λ x. frame op key value x ++ tail) sum
          ∙ ap (λ o. frame o key value (checksum o key value) ++ tail) e
          ∙ ap (λ v'. frame op_delete key v' (checksum op_delete key v') ++ tail)
              (nil_of_length value v),
    )

    whole-Round : Round whole
    whole-Round = elim (Bool-cases (malformed op (length key) (length value))) [
      | inl bad ↦
          inr (Ends-malformed key value tail op k0 k1 k2 k3 v0 v1 v2 v3 c0 c1 c2 c3 klen vlen bad)
      | inr fine ↦ elim (Bool-cases (from_le_bytes c0 c1 c2 c3 == checksum op key value)) [
        | inr differs ↦ inr (
            Ends-corrupt key value tail op k0 k1 k2 k3 v0 v1 v2 v3 c0 c1 c2 c3 klen vlen
              (ground arith))
        | inl same ↦ elim (well_formed op (length key) (length value) fine) [
          | inl (e, h) ↦ whole-set e h (ground arith)
          | inr (e, h, v) ↦ whole-delete e h v (ground arith)
        ]
      ]
    ]

  Round-body :
      (op k0 k1 k2 k3 v0 v1 v2 v3 : ℕ) (body : Bytes)
      → AreBytes (k0 ∷ k1 ∷ k2 ∷ k3 ∷ [])
      → AreBytes (v0 ∷ v1 ∷ v2 ∷ v3 ∷ [])
      → AreBytes body
      → from_le_bytes k0 k1 k2 k3 + from_le_bytes v0 v1 v2 v3 + crc_len ≤ length body
      → Round (header op k0 k1 k2 k3 v0 v1 v2 v3 body)
  Round-body op k0 k1 k2 k3 v0 v1 v2 v3 body kb vb bb h =
      let klen = from_le_bytes k0 k1 k2 k3 in
      let vlen = from_le_bytes v0 v1 v2 v3 in
      let key = take klen body in
      let rest = drop klen body in
      let value = take vlen rest in
      let (c0, c1, c2, c3, tail, e) =
        four (drop vlen rest) (omega (arith, length-drop vlen rest, length-drop klen body)) in
      let parts : key ++ (value ++ c0 ∷ c1 ∷ c2 ∷ c3 ∷ tail) ≡ body =
        ap (λ b. key ++ (value ++ b)) (sym e)
        ∙ ap (λ b. key ++ b) (take-append-drop vlen rest)
        ∙ take-append-drop klen body in
      let cb : AreBytes (c0 ∷ c1 ∷ c2 ∷ c3 ∷ tail) =
        subst AreBytes e (All-drop IsByte vlen rest (All-drop IsByte klen body bb)) in
      subst (λ b. Round (header op k0 k1 k2 k3 v0 v1 v2 v3 b)) parts
        (whole-Round key value tail op k0 k1 k2 k3 v0 v1 v2 v3 c0 c1 c2 c3
          (omega (arith, length-take klen body))
          (omega (arith, length-take vlen rest, length-drop klen body)) kb vb
          (cb.0, (cb.1.0, (cb.1.1.0, (cb.1.1.1.0, tt)))))

  round : (s : Bytes) → AreBytes s → Round s
  round (op ∷ k0 ∷ k1 ∷ k2 ∷ k3 ∷ v0 ∷ v1 ∷ v2 ∷ v3 ∷ body) h =
      elim (Bool-cases
        (ltb (length body) (from_le_bytes k0 k1 k2 k3 + from_le_bytes v0 v1 v2 v3 + crc_len))) [
          | inl short ↦ inr (Ends-cut body op k0 k1 k2 k3 v0 v1 v2 v3 (ground arith))
          | inr room ↦
              Round-body op k0 k1 k2 k3 v0 v1 v2 v3 body (omega arith) (omega arith)
                (All-drop IsByte 9 (header op k0 k1 k2 k3 v0 v1 v2 v3 body) h) (ground arith)
        ]
  round s h = inr (Ends-short s (omega arith))

  shorter :
      (w : Write) (s tail : Bytes) {f : ℕ}
      → s ≡ encode w ++ tail
      → length s < suc f
      → length tail < f
  unfolding entry_len
  shorter w s tail e h = omega (arith, ap length e, length-append (encode w) tail, length-encode w)

  split :
      (f : ℕ) (s : Bytes)
      → length s < f
      → AreBytes s
      → (ws : List Write) × (tail : Bytes) × All IsLoggable ws
        × (s ≡ encode_all ws ++ tail)
        × Ends tail
  unfolding encode_all
  split zero s h b = absurd (omega arith)
  split (suc f) s h b = elim (round s b) [
    | inr ends ↦ ([], s, tt, refl, ends)
    | inl (w, tail, l, e) ↦
        let tail_bytes : AreBytes tail =
          rw (e, drop-append_length) at (All-drop IsByte (length (encode w)) s b) in
        let (ws, tail', ls, e', ends) = split f tail (shorter w s tail e h) tail_bytes in
        (
          w ∷ ws,
          tail',
          (l, ls),
          e ∙ ap (λ t. encode w ++ t) e' ∙ sym (append_assoc (encode w) (encode_all ws) tail'),
          ends,
        )
  ]

  -- On any bytes the loop ends, within its fuel and without a panic. The bytes are the entries of
  -- some writes, all fit to be logged, and a tail in front of which the loop ends on every run;
  -- offset, count and index are those of the writes.
  pub scan_total :
      (bytes : Bytes)
      → AreBytes bytes
      → (ws : List Write) × (tail : Bytes) × All IsLoggable ws
        × (bytes ≡ encode_all ws ++ tail)
        × Ends tail
        × (scan bytes ≡ done (state (length (encode_all ws)) (length ws) (replay ws [])))
  scan_total bytes h =
      let (ws, tail, l, e, ends) = split (suc (length bytes)) bytes (omega arith) h in
      (ws, tail, l, e, ends, ap scan e ∙ scan-encode_all ws tail l ends)
