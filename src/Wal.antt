-- ===== src/Wal.antt =====
-- wal.rs: the handle of the write-ahead log and its operations on an open file. Recovery is in
-- `Wal.Scan` and `Wal.Init`. Buffer capacities are left out, and the u64 counters do not wrap.
pub mod Scan
pub mod History
pub mod Init
pub mod Synced
use mini_db.Prelude.{
  ℕ, ◌+◌, Bool, true, false, not, ◌&&◌, [], ◌∷◌, ◌++◌, length, ◌==◌, if◌then◌else◌,
}
use mini_db.Bytes.{Bytes, is_empty, as_u32, to_le_bytes}
use mini_db.Result.{
  Result, ok, err, bad_op, empty_key, delete_value, wal_write, wal_flush, wal_fsync,
}
use mini_db.Crc.{Crc32}
use mini_db.Storage.{Storage}

-- op + klen + vlen
abbrev pub header_len : ℕ
header_len = 9

abbrev pub crc_len : ℕ
crc_len = 4

abbrev pub op_set : ℕ
op_set = 1

abbrev pub op_delete : ℕ
op_delete = 2

module _ ⦃crc : Crc32⦄ where
  open crc use {Hasher, update, finalize, reset}

  -- The checksum of an entry, and the hasher reset for the next one.
  pub crc_hash : Hasher → ℕ → ℕ → ℕ → Bytes → Bytes → ℕ × Hasher
  crc_hash hasher op klen vlen key value =
      let h1 = update hasher (op ∷ []) in
      let h2 = update h1 (to_le_bytes (as_u32 klen)) in
      let h3 = update h2 (to_le_bytes (as_u32 vlen)) in
      let h4 = update h3 key in let h5 = update h4 value in (finalize h5, reset h5)

  -- The bytes of an entry, in the order in which `append` puts them in its buffer.
  pub buffer : Hasher → ℕ → Bytes → Bytes → Bytes
  buffer hasher op key value =
      let klen = length key in
      let vlen = length value in
      let header = op ∷ to_le_bytes (as_u32 klen) ++ to_le_bytes (as_u32 vlen) in
      header ++ key ++ value ++ to_le_bytes (crc_hash hasher op klen vlen key value).0

module _ ⦃crc : Crc32⦄ ⦃disk : Storage⦄ where
  open disk use {File, write_all, flush, sync_all}

  pub record Wal : Type 0 where
    pub file : File
    pub file_path : Bytes
    pub file_len : ℕ
    pub entry_count : ℕ
    pub crc32_hasher : crc.Hasher
    pub write_buf : Bytes

  -- The part of `append` behind its guards: build the entry in the buffer, write and flush it, and
  -- move on. After a failure the length and the count stay, while the file may have changed.
  pub write_entry : Wal → ℕ → Bytes → Bytes → Result ℕ × Wal
  write_entry w op key value =
      let klen = length key in
      let vlen = length value in
      let total_len = header_len + klen + vlen + crc_len in
      let hasher = (crc_hash w.crc32_hasher op klen vlen key value).1 in
      let buf = buffer w.crc32_hasher op key value in
      let (written, f) = write_all w.file buf in
      let w' = record w { crc32_hasher = hasher; write_buf = buf } in
      if written
      then (let (flushed, f') = flush f in
          if flushed
          then (
            ok w.file_len,
            record w' {
              file = f';
              file_len = w.file_len + total_len;
              entry_count = w.entry_count + 1;
            },
          )
          else (err wal_flush, record w' { file = f' }))
      else (err wal_write, record w' { file = f })

  pub append : Wal → ℕ → Bytes → Bytes → Result ℕ × Wal
  unfolding write_entry
  append w op key value =
      if not (op == op_set) && not (op == op_delete)
      then (err (bad_op op), w)
      else if is_empty key
      then (err empty_key, w)
      else if op == op_delete && not (is_empty value)
      then (err delete_value, w)
      else write_entry w op key value

  pub fsync : Wal → Result (Unit {0}) × Wal
  fsync w =
      let (flushed, f) = flush w.file in
      if flushed
      then (let (synced, f') = sync_all f in
          (if synced then ok tt else err wal_fsync, record w { file = f' }))
      else (err wal_flush, record w { file = f })

  unfoldable pub size_on_disk : Wal → ℕ
  size_on_disk w = w.file_len

  unfoldable pub next_offset : Wal → ℕ
  next_offset w = w.file_len

  unfoldable pub entry_count : Wal → ℕ
  entry_count w = w.entry_count
