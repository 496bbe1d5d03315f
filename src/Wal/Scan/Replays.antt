-- ===== src/Wal/Scan/Replays.antt =====
-- The loop over the entries of a history, and over what may follow them.
use mini_db.Prelude.{
  ℕ, zero, suc, ◌+◌, ◌-◌, ◌≤◌, ◌≡◌, refl, sym, ap, ◌∙◌, false, List, [], ◌∷◌, ◌++◌, length, ==_refl,
  arith, All, length-append, append_assoc, append-nil, le→leb,
}
use mini_db.Bytes.{Bytes, as_u32, to_le_bytes, from_le_bytes-to_le_bytes}
use mini_db.Map.{Map}
use mini_db.Crc.{Crc32}
use mini_db.Wal.History.{
  Write, set, delete, op_of, key_of, value_of, IsLoggable, entry_len, apply, replay, checksum,
  encode, encode_all, length-encode, checksum-lt, crc_hash-reset, from_le_bytes-as_u32,
}
use mini_db.Wal.Scan.{next, Entry, read_entry, update_index, Recovered, done, scan_loop, scan}
use mini_db.Wal.Scan.Read.{malformed, verdict, read_entry-frame}

malformed-loggable :
    (w : Write)
    → IsLoggable w
    → malformed (op_of w) (length (key_of w)) (length (value_of w)) ≡ false
malformed-loggable (set key value) l = ground (arith, l.has_key)
malformed-loggable (delete key) l = ground (arith, l.has_key)

update_index-apply :
    (w : Write) (m : Map Bytes)
    → update_index (op_of w) (key_of w) (value_of w) m ≡ mathlib.Core.Option.some (apply w m)
unfolding update_index apply
update_index-apply (set key value) m = refl
update_index-apply (delete key) m = refl

module _ ⦃crc : Crc32⦄ where
  open crc use {Hasher, default}

  entry : Write → Entry
  entry w = record {
    op = op_of w;
    key = key_of w;
    value = value_of w;
    total_len = entry_len w;
    hasher = default;
  }

  verdict-checksum :
      (w : Write)
      → verdict default
          (op_of w)
          (key_of w)
          (value_of w)
          (checksum (op_of w) (key_of w) (value_of w))
        ≡ next (entry w)
  unfolding verdict checksum entry entry_len
  verdict-checksum w = rw (==_refl, crc_hash-reset)

  abbrev pub start : Write → Bytes → Bytes
  start w body =
      op_of w ∷ to_le_bytes (as_u32 (length (key_of w)))
      ++ (to_le_bytes (as_u32 (length (value_of w))) ++ body)

  read_entry-encode :
      (w : Write) (pre tail : Bytes)
      → IsLoggable w
      → read_entry default (pre ++ (encode w ++ tail)) (length pre) ≡ next (entry w)
  unfolding encode
  read_entry-encode w pre tail l =
      let key = key_of w in
      let value = value_of w in
      let sum = checksum (op_of w) key value in
      ap (λ b. read_entry default (pre ++ start w b) (length pre))
        (append_assoc key (value ++ to_le_bytes sum) tail
          ∙ ap (λ b. key ++ b) (append_assoc value (to_le_bytes sum) tail))
      ∙ read_entry-frame default pre tail key value _ _ _ _ _ _ _ _ _ _ _ _ _
          (from_le_bytes-as_u32 (length key) l.key_fits)
          (from_le_bytes-as_u32 (length value) l.value_fits)
      ∙ rw (malformed-loggable w l, from_le_bytes-to_le_bytes sum (checksum-lt (op_of w) key value))
          (verdict-checksum w)

  abbrev pub state : ℕ → ℕ → Map Bytes → Recovered
  state offset count m = record { offset = offset; count = count; hasher = default; map_index = m }

  scan_loop-entry :
      (w : Write) (pre tail : Bytes) (fuel count : ℕ) (m : Map Bytes)
      → IsLoggable w
      → scan_loop (suc fuel) (pre ++ (encode w ++ tail)) (state (length pre) count m)
        ≡ scan_loop fuel
            (pre ++ (encode w ++ tail))
            (state (length pre + entry_len w) (count + 1) (apply w m))
  unfolding scan_loop entry
  scan_loop-entry w pre tail fuel count m l = rw (
    le→leb (length pre + 13) (length (pre ++ (encode w ++ tail))) room,
    read_entry-encode w pre tail l,
    update_index-apply w m,
    scan_loop,
  )
    where
      room : length pre + 13 ≤ length (pre ++ (encode w ++ tail))
      room =
          unfold entry_len in
          omega (
            arith,
            length-append pre (encode w ++ tail),
            length-append (encode w) tail,
            length-encode w,
          )

  pub scan_loop-encode_all :
      (ws : List Write) (pre tail : Bytes) (f g count : ℕ) (m : Map Bytes)
      → All IsLoggable ws
      → f ≡ length ws + g
      → scan_loop f (pre ++ (encode_all ws ++ tail)) (state (length pre) count m)
        ≡ scan_loop g
            (pre ++ (encode_all ws ++ tail))
            (state (length (pre ++ encode_all ws)) (count + length ws) (replay ws m))
  unfolding encode_all replay
  scan_loop-encode_all [] pre tail f g count m l e =
      ap (λ k. scan_loop f (pre ++ tail) (state (length pre) k m)) (omega arith)
      ∙ ap (λ k. scan_loop k (pre ++ tail) (state (length pre) (count + 0) m)) (omega arith)
      ∙ ap (λ b. scan_loop g (pre ++ tail) (state (length b) (count + 0) m)) (sym (append-nil pre))
  scan_loop-encode_all (w ∷ ws) pre tail zero g count m l e = absurd (omega arith)
  scan_loop-encode_all (w ∷ ws) pre tail (suc f) g count m l e =
      let more = encode_all ws ++ tail in
      let from_here : length (pre ++ encode w) ≡ length pre + entry_len w =
        length-append pre (encode w) ∙ ap (λ n. length pre + n) (length-encode w) in
      let counted : count + 1 + length ws ≡ count + suc (length ws) = omega arith in
      cc (
        append_assoc (encode w) (encode_all ws) tail,
        append_assoc pre (encode w) more,
        append_assoc pre (encode w) (encode_all ws),
        scan_loop-entry w pre more f count m l.0,
        from_here,
        counted,
        scan_loop-encode_all ws (pre ++ encode w) tail f g (count + 1) (apply w m) l.1
            (omega arith),
      )

  pub length-le-encode_all : (ws : List Write) → length ws ≤ length (encode_all ws)
  unfolding encode_all entry_len
  length-le-encode_all [] = omega arith
  length-le-encode_all (w ∷ ws) =
      omega
        (arith, length-le-encode_all ws, length-encode w, length-append (encode w) (encode_all ws))

  -- What may stand behind the last entry: the loop stops in front of it.
  abbrev pub Ends : Bytes → Type 0
  Ends tail =
      (pre : Bytes) (fuel count : ℕ) (m : Map Bytes)
      → scan_loop (suc fuel) (pre ++ tail) (state (length pre) count m)
        ≡ done (state (length pre) count m)

  pub scan-encode_all :
      (ws : List Write) (tail : Bytes)
      → All IsLoggable ws
      → Ends tail
      → scan (encode_all ws ++ tail)
        ≡ done (state (length (encode_all ws)) (length ws) (replay ws []))
  unfolding scan
  scan-encode_all ws tail l ends =
      let bytes = encode_all ws ++ tail in
      scan_loop-encode_all ws [] tail (suc (length bytes)) (suc (length bytes - length ws)) 0 [] l
        (omega (arith, length-le-encode_all ws, length-append (encode_all ws) tail))
      ∙ ends (encode_all ws) (length bytes - length ws) (0 + length ws) (replay ws [])
      ∙ ap (λ k. done (state (length (encode_all ws)) k (replay ws []))) (omega arith)
