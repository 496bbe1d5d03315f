-- ===== src/Wal/Synced.antt =====
-- The handle in step with its file, and what an append does to it.
pub mod Fsync
use mini_db.Prelude.{
  ℕ, zero, suc, Bool, ◌||◌, ◌==◌, if◌then◌else◌, drop-nil, ◌+◌, ◌≤◌, ◌≡◌, ◌≢◌, ◌⊎◌, refl, sym, ap,
  ◌∙◌, true, false, List, [], ◌∷◌, ◌++◌, length, take, drop, take-length, append-nil, append_assoc,
  length-append, arith,
}
use mini_db.Bytes.{Bytes, is_empty, as_u32, to_le_bytes}
use mini_db.Result.{ok, err, bad_op, empty_key, delete_value, wal_write, wal_flush, wal_fsync}
use mini_db.Crc.{Crc32}
use mini_db.Storage.{Storage, write_at}
use mini_db.Wal.{Wal, fsync, op_set, op_delete, append, write_entry, buffer, crc_hash}
use mini_db.Wal.History.{
  Write, set, delete, op_of, key_of, value_of, IsLoggable, entry_len, checksum, encode, encode_all,
  length-encode, crc_hash-reset, encode_all-append,
}

drop-past : (l : Bytes) (n : ℕ) → length l ≤ n → drop n l ≡ []
drop-past [] n h = drop-nil n
drop-past (x ∷ l) zero h = absurd (omega arith)
drop-past (x ∷ l) (suc n) h = drop-past l n (omega arith)

pub write_at-end : (old b : Bytes) → write_at old (length old) b ≡ old ++ b
write_at-end old b = rw (take-length, past) (append-nil (old ++ b))
  where
    past : drop (length old + length b) old ≡ []
    past = drop-past old (length old + length b) (omega arith)

module _ ⦃crc : Crc32⦄ ⦃disk : Storage⦄ where
  open disk use {contents, cursor, write_all, flush}

  -- The file holds the entries of `ws` and nothing else, and the handle stands behind them.
  pub record IsSynced (ws : List Write) (w : Wal) : Type 0 where
    pub on_file : contents w.file ≡ encode_all ws
    pub at_end : cursor w.file ≡ length (encode_all ws)
    pub counts_bytes : w.file_len ≡ length (encode_all ws)
    pub counts_entries : w.entry_count ≡ length ws
    pub fresh_hasher : w.crc32_hasher ≡ crc.default

  -- A failed append of `x`: the length and the count stay, and behind the entries of `ws` the file
  -- holds a first part of the entry of `x`, perhaps nothing of it and perhaps all.
  pub record IsTorn (ws : List Write) (x : Write) (w w' : Wal) : Type 0 where
    pub size : ℕ
    pub size-le : size ≤ length (encode x)
    pub on_file : contents w'.file ≡ encode_all ws ++ take size (encode x)
    pub at_end : cursor w'.file ≡ length (encode_all ws) + size
    pub fresh_hasher : w'.crc32_hasher ≡ crc.default
    pub same_len : w'.file_len ≡ w.file_len
    pub same_count : w'.entry_count ≡ w.entry_count

  -- The bytes that `append` writes, from a hasher that is fresh.
  pub buffer-encode :
      (h : crc.Hasher) (x : Write)
      → h ≡ crc.default
      → buffer h (op_of x) (key_of x) (value_of x) ≡ encode x
  unfolding buffer encode checksum
  buffer-encode h x e =
      let sum = to_le_bytes (checksum (op_of x) (key_of x) (value_of x)) in
      rw e (
        append_assoc (front ++ key_of x) (value_of x) sum
        ∙ append_assoc front (key_of x) (value_of x ++ sum))
    where
      front : Bytes
      front =
          op_of x ∷ to_le_bytes (as_u32 (length (key_of x)))
          ++ to_le_bytes (as_u32 (length (value_of x)))

  pub encode_all-snoc :
      (ws : List Write) (x : Write) → encode_all (ws ++ x ∷ []) ≡ encode_all ws ++ encode x
  unfolding encode_all
  encode_all-snoc ws x =
      encode_all-append ws (x ∷ []) ∙ ap (λ t. encode_all ws ++ t) (append-nil (encode x))

  length-encode_all-snoc :
      (ws : List Write) (x : Write)
      → length (encode_all (ws ++ x ∷ [])) ≡ length (encode_all ws) + length (encode x)
  length-encode_all-snoc ws x =
      ap length (encode_all-snoc ws x) ∙ length-append (encode_all ws) (encode x)

  -- `append` lets every loggable write past its guards.
  pub append-loggable :
      (w : Wal) (x : Write)
      → IsLoggable x
      → append w (op_of x) (key_of x) (value_of x) ≡ write_entry w (op_of x) (key_of x) (value_of x)
  unfolding append
  append-loggable w (set [] value) l = absurd (omega (arith, l.has_key))
  append-loggable w (set (k ∷ ks) value) l = refl
  append-loggable w (delete []) l = absurd (omega (arith, l.has_key))
  append-loggable w (delete (k ∷ ks)) l = refl

  -- The handle behind a write and a flush that succeeded.
  unfoldable pub appended : Wal → Write → Wal
  appended w x = record {
    file = (flush (write_all w.file (encode x)).1).1;
    file_path = w.file_path;
    file_len = w.file_len + entry_len x;
    entry_count = w.entry_count + 1;
    crc32_hasher =
        (crc_hash w.crc32_hasher (op_of x) (length (key_of x)) (length (value_of x)) (key_of x)
          (value_of x)).1;
    write_buf = encode x;
  }

  pub write_entry_lem :
      (w : Wal) (x : Write)
      → w.crc32_hasher ≡ crc.default
      → (write_all w.file (encode x)).0 ≡ true
      → (flush (write_all w.file (encode x)).1).0 ≡ true
      → write_entry w (op_of x) (key_of x) (value_of x) ≡ (ok w.file_len, appended w x)
  unfolding write_entry appended entry_len
  write_entry_lem w x fresh wrote flushed =
      rw (buffer-encode w.crc32_hasher x fresh, wrote, flushed, write_entry)

  module _ (ws : List Write) (x : Write) (w : Wal) (synced : IsSynced ws w) (l : IsLoggable x) where
    abbrev on_disk : Bool × disk.File
    on_disk = write_all w.file (encode x)

    write_at-synced :
        (b : Bytes) → write_at (contents w.file) (cursor w.file) b ≡ encode_all ws ++ b
    write_at-synced b = rw (synced.at_end, synced.on_file) (write_at-end (encode_all ws) b)

    appended-IsSynced :
        on_disk.0 ≡ true → (flush on_disk.1).0 ≡ true → IsSynced (ws ++ x ∷ []) (appended w x)
    unfolding appended
    appended-IsSynced wrote flushed = record {
      on_file =
          disk.contents-flush on_disk.1 flushed
          ∙ disk.contents-write_all w.file (encode x) wrote
          ∙ write_at-synced (encode x)
          ∙ sym (encode_all-snoc ws x);
      at_end = omega (
        arith,
        disk.cursor-flush on_disk.1 flushed,
        disk.cursor-write_all w.file (encode x) wrote,
        synced.at_end,
        length-encode_all-snoc ws x,
      );
      counts_bytes =
          omega (arith, synced.counts_bytes, length-encode_all-snoc ws x, length-encode x);
      counts_entries = omega (arith, synced.counts_entries, length-append ws (x ∷ []));
      fresh_hasher =
          crc_hash-reset w.crc32_hasher (op_of x) (length (key_of x)) (length (value_of x))
            (key_of x) (value_of x);
    }

    -- On a handle in step with `ws`, where the write and the flush of a loggable entry succeed, the
    -- old length of the log is returned, and the handle is in step with one write more.
    pub append-IsSynced :
        on_disk.0 ≡ true
        → (flush on_disk.1).0 ≡ true
        → ((append w (op_of x) (key_of x) (value_of x)).0 ≡ ok (length (encode_all ws)))
          × IsSynced (ws ++ x ∷ []) (append w (op_of x) (key_of x) (value_of x)).1
    append-IsSynced wrote flushed =
        rw (append-loggable w x l, write_entry_lem w x synced.fresh_hasher wrote flushed)
          (ap ok synced.counts_bytes, appended-IsSynced wrote flushed)

    -- Where the write fails, so does the append, and the file is torn at most.
    pub append_write_failed :
        on_disk.0 ≡ false
        → ((append w (op_of x) (key_of x) (value_of x)).0 ≡ err wal_write)
          × IsTorn ws x w (append w (op_of x) (key_of x) (value_of x)).1
    unfolding write_entry
    append_write_failed refused =
        let (n, part, torn, moved) = disk.contents-write_all_failed w.file (encode x) refused in
        rw
          (
            append-loggable w x l,
            buffer-encode w.crc32_hasher x synced.fresh_hasher,
            refused,
            write_entry,
          )
          (
            refl,
            record {
              size = n;
              size-le = part;
              on_file = torn ∙ write_at-synced (take n (encode x));
              at_end = omega (arith, moved, synced.at_end);
              fresh_hasher =
                  crc_hash-reset w.crc32_hasher (op_of x) (length (key_of x)) (length (value_of x))
                    (key_of x) (value_of x);
              same_len = refl;
              same_count = refl;
            },
          )

    -- So where the write is accepted and the flush fails.
    pub append_flush_failed :
        on_disk.0 ≡ true
        → (flush on_disk.1).0 ≡ false
        → ((append w (op_of x) (key_of x) (value_of x)).0 ≡ err wal_flush)
          × IsTorn ws x w (append w (op_of x) (key_of x) (value_of x)).1
    unfolding write_entry
    append_flush_failed wrote lost =
        let (n, part, torn, moved) = disk.contents-flush_failed w.file (encode x) wrote lost in
        rw
          (
            append-loggable w x l,
            buffer-encode w.crc32_hasher x synced.fresh_hasher,
            wrote,
            lost,
            write_entry,
          )
          (
            refl,
            record {
              size = n;
              size-le = part;
              on_file = torn ∙ write_at-synced (take n (encode x));
              at_end = omega (arith, moved, synced.at_end);
              fresh_hasher =
                  crc_hash-reset w.crc32_hasher (op_of x) (length (key_of x)) (length (value_of x))
                    (key_of x) (value_of x);
              same_len = refl;
              same_count = refl;
            },
          )

  -- An op that is not to be logged, an empty key, or a delete that carries a value: `append` answers
  -- with the error of the first of these that holds, and changes nothing.
  pub append_refuses :
      (w : Wal) (op : ℕ) (key value : Bytes)
      → ((op ≢ op_set) × (op ≢ op_delete)) ⊎ (key ≡ []) ⊎ ((op ≡ op_delete) × (value ≢ []))
      → append w op key value ≡ (
        err (
            if op == op_set || op == op_delete
            then (if is_empty key then empty_key else delete_value)
            else bad_op op),
        w,
      )
  unfolding append
  append_refuses w op key value h = ground arith
