-- ===== src/Storage.antt =====
-- The interface to a file that `tokio::fs` has opened for reading and writing. Each call says
-- whether it succeeded and returns the file after it; the file's state holds whatever decides
-- that. `contents` is the file with every write that was handed over and has not failed.
use mini_db.Prelude.{ℕ, ◌+◌, ◌≤◌, ◌≡◌, Bool, true, false, Option, some, ◌++◌, length, take, drop}
use mini_db.Bytes.{Bytes}

-- Bytes written at a position replace what is there and go on past the end.
abbrev pub write_at : Bytes → ℕ → Bytes → Bytes
write_at old i b = take i old ++ b ++ drop (i + length b) old

pub record Storage : Type 1 where
  pub File : Type 0
  pub contents : File → Bytes
  pub cursor : File → ℕ
  pub write_all : File → Bytes → Bool × File
  pub flush : File → Bool × File
  pub sync_all : File → Bool × File
  pub set_len : File → ℕ → Bool × File
  pub seek_start : File → ℕ → Bool × File
  pub seek_end : File → Bool × File
  -- the file opened once more by its path, and mapped into memory
  pub mmap : File → Option Bytes
  -- a write that succeeds puts all bytes at the cursor and moves it behind them
  pub contents-write_all :
      (f : File) (b : Bytes)
      → (write_all f b).0 ≡ true
      → contents (write_all f b).1 ≡ write_at (contents f) (cursor f) b
  pub cursor-write_all :
      (f : File) (b : Bytes)
      → (write_all f b).0 ≡ true
      → cursor (write_all f b).1 ≡ cursor f + length b
  -- one that fails has put a first part of them there, and the cursor is behind that part
  pub contents-write_all_failed :
      (f : File) (b : Bytes)
      → (write_all f b).0 ≡ false
      → (n : ℕ) × (n ≤ length b)
        × (contents (write_all f b).1 ≡ write_at (contents f) (cursor f) (take n b))
        × (cursor (write_all f b).1 ≡ cursor f + n)
  -- a flush that succeeds, and a sync, change neither the bytes nor the cursor
  pub contents-flush : (f : File) → (flush f).0 ≡ true → contents (flush f).1 ≡ contents f
  pub cursor-flush : (f : File) → (flush f).0 ≡ true → cursor (flush f).1 ≡ cursor f
  pub contents-sync_all : (f : File) → contents (sync_all f).1 ≡ contents f
  pub cursor-sync_all : (f : File) → cursor (sync_all f).1 ≡ cursor f
  -- so does a flush that fails behind a write that was accepted
  pub contents-flush_failed :
      (f : File) (b : Bytes)
      → (write_all f b).0 ≡ true
      → (flush (write_all f b).1).0 ≡ false
      → (n : ℕ) × (n ≤ length b)
        × (contents (flush (write_all f b).1).1 ≡ write_at (contents f) (cursor f) (take n b))
        × (cursor (flush (write_all f b).1).1 ≡ cursor f + n)
  -- cutting a file to a length that it has keeps the front
  pub contents-set_len :
      (f : File) (n : ℕ)
      → n ≤ length (contents f)
      → (set_len f n).0 ≡ true
      → contents (set_len f n).1 ≡ take n (contents f)
  pub contents-seek_start : (f : File) (n : ℕ) → contents (seek_start f n).1 ≡ contents f
  pub cursor-seek_start :
      (f : File) (n : ℕ) → (seek_start f n).0 ≡ true → cursor (seek_start f n).1 ≡ n
  pub contents-seek_end : (f : File) → contents (seek_end f).1 ≡ contents f
  pub cursor-seek_end :
      (f : File) → (seek_end f).0 ≡ true → cursor (seek_end f).1 ≡ length (contents (seek_end f).1)
  pub mmap_contents : (f : File) (b : Bytes) → mmap f ≡ some b → b ≡ contents f

-- A disk on which the calls that `Wal::init` makes do not fail; writes may.
pub record CanRecover (disk : Storage) : Type 0 where
  pub sync_all_works : (f : disk.File) → (disk.sync_all f).0 ≡ true
  pub set_len_works : (f : disk.File) (n : ℕ) → (disk.set_len f n).0 ≡ true
  pub seek_start_works : (f : disk.File) (n : ℕ) → (disk.seek_start f n).0 ≡ true
  pub seek_end_works : (f : disk.File) → (disk.seek_end f).0 ≡ true
  pub mmap_works : (f : disk.File) → disk.mmap f ≡ some (disk.contents f)

-- A disk on which writes do not fail.
pub record CanWrite (disk : Storage) : Type 0 where
  pub write_all_works : (f : disk.File) (b : Bytes) → (disk.write_all f b).0 ≡ true
  pub flush_works : (f : disk.File) → (disk.flush f).0 ≡ true
