-- ===== src/Worker/Faults.antt =====
-- What a failing fsync does to a worker.
use mini_db.Prelude.{
  ℕ, ◌+◌, ◌%◌, ◌≡◌, refl, sym, ap, ◌∙◌, true, false, [], List, ◌∷◌, ◌++◌, append-nil, length,
  ==_iff, All, All-append, arith,
}
use mini_db.Bytes.{Bytes}
use mini_db.Result.{err, wal_fsync}
use mini_db.Crc.{Crc32}
use mini_db.Storage.{Storage}
use mini_db.Wal.{Wal, op_set, append, fsync}
use mini_db.Wal.History.{Write, set, IsLoggable, replay, encode, encode_all}
use mini_db.Wal.Synced.{append-IsSynced}
use mini_db.Wal.Synced.Fsync.{fsync-IsSynced, fsync-fails}
use mini_db.Wal.Scan.{scan, done}
use mini_db.Wal.Scan.Replays.{state, scan-encode_all}
use mini_db.Wal.Scan.Stops.{Ends-short}
use mini_db.Worker.{set_key, Worker, sync_due, log_write, answer_set, handle_query}
use mini_db.Worker.Refines.{InStep}

module _ ⦃crc : Crc32⦄ ⦃disk : Storage⦄ where
  open disk use {contents, write_all, flush, sync_all}

  module _ (ws : List Write) (w : Worker) (key value : Bytes) (l : All IsLoggable ws)
      (lx : IsLoggable (set key value)) (h : InStep ws w) where
    abbrev x : Write
    x = set key value

    abbrev wal' : Wal
    wal' = (append w.wal op_set key value).1

    module _ (interval writes : ℕ) (wrote : (write_all w.wal.file (encode x)).0 ≡ true)
        (flushed : (flush (write_all w.wal.file (encode x)).1).0 ≡ true)
        (due : (writes + 1) % interval ≡ 0) (flushed' : (flush wal'.file).0 ≡ true)
        (lost : (sync_all (flush wal'.file).1).0 ≡ false) where
      log_write-fails :
          log_write interval op_set key value writes w
          ≡ (err wal_fsync, writes + 1, record w { wal = (fsync wal').1 })
      unfolding log_write sync_due
      log_write-fails =
          rw ((append-IsSynced ws x w.wal h.synced lx wrote flushed).0, log_write)
            (rw ((==_iff ((writes + 1) % interval) 0).1 due) (rw (fsync-fails wal' flushed' lost)))

      -- On a worker in step with loggable writes, a loggable SET whose entry is written and
      -- flushed, while the fsync that is due fails, is answered with
      -- an error and left out of the index, but it is in the log: recovery of the file reads it back.
      pub failed_fsync_keeps_write :
          let step = handle_query interval (set_key key value) writes w in
          (step.0 ≡ err wal_fsync)
          × (step.2.memory_index ≡ replay ws [])
          × (scan (contents step.2.wal.file)
              ≡ done (
                  state
                    (length (encode_all (ws ++ x ∷ [])))
                    (length (ws ++ x ∷ []))
                    (replay (ws ++ x ∷ []) [])))
      unfolding handle_query answer_set
      failed_fsync_keeps_write =
          let now_synced = (append-IsSynced ws x w.wal h.synced lx wrote flushed).1 in
          let after = fsync-IsSynced (ws ++ x ∷ []) wal' flushed' now_synced in
          rw log_write-fails (
            refl,
            h.indexed,
            ap scan (after.on_file ∙ sym (append-nil (encode_all (ws ++ x ∷ []))))
                ∙ scan-encode_all (ws ++ x ∷ []) [] (All-append IsLoggable ws (x ∷ []) l (lx, tt))
                    (Ends-short [] (omega arith)),
          )
