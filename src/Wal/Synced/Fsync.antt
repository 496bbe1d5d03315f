-- ===== src/Wal/Synced/Fsync.antt =====
-- What an fsync does to a handle in step with its file.
use mini_db.Prelude.{◌≡◌, ◌∙◌, true, false, List}
use mini_db.Result.{ok, err, wal_fsync}
use mini_db.Crc.{Crc32}
use mini_db.Storage.{Storage}
use mini_db.Wal.{Wal, fsync}
use mini_db.Wal.History.{Write}
use mini_db.Wal.Synced.{IsSynced}

module _ ⦃crc : Crc32⦄ ⦃disk : Storage⦄ where
  open disk use {contents, cursor, write_all, flush}

  -- `fsync` keeps the handle in step where its flush succeeds.
  pub fsync-IsSynced :
      (ws : List Write) (w : Wal)
      → (flush w.file).0 ≡ true
      → IsSynced ws w
      → IsSynced ws (fsync w).1
  unfolding fsync
  fsync-IsSynced ws w flushed synced =
      rw (flushed, fsync)
        (record {
          on_file =
              disk.contents-sync_all (flush w.file).1
              ∙ disk.contents-flush w.file flushed
              ∙ synced.on_file;
          at_end =
              disk.cursor-sync_all (flush w.file).1
              ∙ disk.cursor-flush w.file flushed
              ∙ synced.at_end;
          counts_bytes = synced.counts_bytes;
          counts_entries = synced.counts_entries;
          fresh_hasher = synced.fresh_hasher;
        })

  pub fsync-ok :
      (w : Wal)
      → (flush w.file).0 ≡ true
      → (disk.sync_all (flush w.file).1).0 ≡ true
      → (fsync w).0 ≡ ok tt
  unfolding fsync
  fsync-ok w flushed synced = rw (flushed, synced, fsync)

  pub fsync-fails :
      (w : Wal)
      → (flush w.file).0 ≡ true
      → (disk.sync_all (flush w.file).1).0 ≡ false
      → (fsync w).0 ≡ err wal_fsync
  unfolding fsync
  fsync-fails w flushed lost = rw (flushed, lost, fsync)
