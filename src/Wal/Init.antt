-- ===== src/Wal/Init.antt =====
-- `Wal::init` on the file that it has opened or created. The operating system's answer to
-- `create_dir_all` and `open` comes before it, in the file that it is given.
pub mod Recovery
pub mod Durability
pub mod Lost
use mini_db.Prelude.{ℕ, some, none, [], ltb, ◌==◌, if◌then◌else◌, ◌≡◌, refl}
use mini_db.Bytes.{Bytes}
use mini_db.Map.{Map}
use mini_db.Result.{Result, ok, err, wal_seek, wal_map, wal_panic, wal_set_len, wal_truncate}
use mini_db.Crc.{Crc32}
use mini_db.Storage.{Storage}
use mini_db.Wal.{Wal}
use mini_db.Wal.Scan.{Recovered, done, panicked, out_of_fuel, scan}

module _ ⦃crc : Crc32⦄ ⦃disk : Storage⦄ where
  open disk use {File, contents, cursor, set_len, sync_all, seek_start, seek_end, mmap}

  -- A handle on an empty file.
  pub fresh : Bytes → File → Wal
  fresh file_path file = record {
    file = file;
    file_path = file_path;
    file_len = 0;
    entry_count = 0;
    crc32_hasher = crc.default;
    write_buf = [];
  }

  -- The handle that the loop's result makes.
  pub recovered : Bytes → Recovered → File → Result (Wal × Map Bytes)
  recovered file_path r file = ok (
    record {
      file = file;
      file_path = file_path;
      file_len = r.offset;
      entry_count = r.count;
      crc32_hasher = r.hasher;
      write_buf = [];
    },
    r.map_index,
  )

  -- The tail behind the last valid entry is cut off.
  pub truncate : Bytes → Recovered → File → Result (Wal × Map Bytes)
  unfolding recovered
  truncate file_path r file =
      let (cut, f1) = set_len file r.offset in
      let (synced, f2) = sync_all f1 in
      let (sought, f3) = seek_start f2 r.offset in
      if cut
      then (if synced
          then (if sought then recovered file_path r f3 else err wal_seek)
          else err wal_truncate)
      else err wal_set_len

  -- The file after the three calls that cut it off, whatever they return.
  pub file_truncated : Recovered → File → File
  file_truncated r file =
      let (cut, f1) = set_len file r.offset in
      let (synced, f2) = sync_all f1 in
      if cut then (if synced then (seek_start f2 r.offset).1 else f2) else f1

  -- The file after `init`, whatever it returns.
  pub file_after : File → File
  unfolding file_truncated
  file_after file =
      let (sought, f) = seek_end file in
      if sought
      then (if cursor f == 0 then f else (elim (mmap f) [
        | none ↦ f
        | some bytes ↦ elim (scan bytes) [
          | panicked ↦ f
          | out_of_fuel ↦ f
          | done r ↦ if ltb r.offset (cursor f) then file_truncated r f else f
        ]
      ]))
      else f

  pub init : Bytes → File → Result (Wal × Map Bytes)
  unfolding fresh recovered truncate
  init file_path file =
      let (sought, f) = seek_end file in
      let file_len = cursor f in
      if sought
      then (if file_len == 0 then ok (fresh file_path f, []) else (elim (mmap f) [
        | none ↦ err wal_map
        | some bytes ↦ elim (scan bytes) [
          | panicked ↦ err wal_panic
          | out_of_fuel ↦ err wal_panic
          | done r ↦
              if ltb r.offset file_len then truncate file_path r f else recovered file_path r f
        ]
      ]))
      else err wal_seek
