-- ===== src/Wal/Init/Lost.antt =====
-- An append after a failed one goes behind the torn entry, where recovery does not find it.
use mini_db.Prelude.{
  ℕ, ◌+◌, ◌%◌, ◌/◌, ◌<◌, ◌≡◌, refl, ap, ◌∙◌, true, [], List, ◌∷◌, ◌++◌, append_assoc, length, take,
  length-take, All, arith, length-append,
}
use mini_db.Bytes.{Bytes, as_u32, to_le_bytes}
use mini_db.Result.{Result, ok}
use mini_db.Crc.{Crc32}
use mini_db.Storage.{Storage, write_at}
use mini_db.Wal.{Wal, append}
use mini_db.Wal.History.{
  Write, op_of, key_of, value_of, IsLoggable, replay, checksum, encode, encode_all,
}
use mini_db.Wal.Synced.{IsTorn, append-loggable, appended, write_entry_lem, write_at-end}
use mini_db.Wal.Scan.{scan, done}
use mini_db.Wal.Scan.Replays.{state, Ends, scan-encode_all}
use mini_db.Wal.Scan.Stops.{Ends-cut}

module _ ⦃crc : Crc32⦄ where
  -- One byte of an entry in front of a short entry: the header that is read there announces a key
  -- that is longer than the file.
  Ends-behind_torn :
      (x y : Write)
      → 0 < length (key_of y)
      → length (key_of y) + length (value_of y) < 240
      → Ends (take 1 (encode x) ++ encode y)
  unfolding encode
  Ends-behind_torn x y has_key small =
      Ends-cut body _ _ _ _ _ _ _ _ _ (
        omega (arith, length-append (key_of y) (value_of y ++ sum), length-append (value_of y) sum))
    where
      sum : Bytes
      sum = to_le_bytes (checksum (op_of y) (key_of y) (value_of y))

      body : Bytes
      body = (as_u32 (length (value_of y)) / 16777216 % 256) ∷ (key_of y ++ (value_of y ++ sum))

module _ ⦃crc : Crc32⦄ ⦃disk : Storage⦄ where
  open disk use {contents, cursor, write_all, flush}

  module _ (ws : List Write) (x y : Write) (w w' : Wal) (l : All IsLoggable ws) (ly : IsLoggable y)
      (torn : IsTorn ws x w w') (wrote : (write_all w'.file (encode y)).0 ≡ true)
      (flushed : (flush (write_all w'.file (encode y)).1).0 ≡ true) where
    abbrev append_y : Result ℕ × Wal
    append_y = append w' (op_of y) (key_of y) (value_of y)

    behind_torn :
        (append_y.0 ≡ ok w'.file_len)
        × (contents append_y.1.file ≡ encode_all ws ++ (take torn.size (encode x) ++ encode y))
    unfolding appended
    behind_torn =
        rw (append-loggable w' y ly, write_entry_lem w' y torn.fresh_hasher wrote flushed)
          (
            refl,
            disk.contents-flush (write_all w'.file (encode y)).1 flushed
                ∙ disk.contents-write_all w'.file (encode y) wrote
                ∙ ap (λ n. write_at (contents w'.file) n (encode y)) (torn.at_end ∙ at_end)
                ∙ write_at-end (contents w'.file) (encode y)
                ∙ ap (λ b. b ++ encode y) torn.on_file
                ∙ append_assoc (encode_all ws) (take torn.size (encode x)) (encode y),
          )
      where
        at_end : length (encode_all ws) + torn.size ≡ length (contents w'.file)
        at_end = omega (
          arith,
          ap length torn.on_file,
          length-append (encode_all ws) (take torn.size (encode x)),
          length-take torn.size (encode x),
          torn.size-le,
        )

    -- After an append that failed with one byte of its entry in the file, the append of a write whose
    -- key and value are short succeeds and returns an offset, and recovery does not find that write:
    -- it gives back the writes before the failure and stops.
    pub acknowledged_write_lost :
        torn.size ≡ 1
        → length (key_of y) + length (value_of y) < 240
        → (append_y.0 ≡ ok w'.file_len)
          × (scan (contents append_y.1.file)
              ≡ done (state (length (encode_all ws)) (length ws) (replay ws [])))
    acknowledged_write_lost one small = (
      behind_torn.0,
      ap scan (behind_torn.1 ∙ ap (λ n. encode_all ws ++ (take n (encode x) ++ encode y)) one)
          ∙ scan-encode_all ws (take 1 (encode x) ++ encode y) l
              (Ends-behind_torn x y ly.has_key small),
    )
