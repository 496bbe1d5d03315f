-- ===== src/Tests/Unsynced.antt =====
-- A worker on a disk whose fsync fails.
use mini_db.Prelude.{◌≡◌, refl, false, none, [], ◌∷◌, ◌++◌, length, arith}
use mini_db.Prelude.Text.{codes}
use mini_db.Result.{err, wal_fsync}
use mini_db.Storage.{Storage}
use mini_db.Wal.History.{Write, set, replay, encode_all}
use mini_db.Wal.Scan.{scan, done}
use mini_db.Wal.Scan.Replays.{state}
use mini_db.Worker.{set_key, Worker, init, handle_query}
use mini_db.Worker.Refines.{InStep}
use mini_db.Worker.Faults.{failed_fsync_keeps_write}
use mini_db.Tests.Sim.{sim_crc, sim_disk, file_of}

instance abbrev disk : Storage
disk = sim_disk none false

abbrev worker : Worker
unfolding init
worker =
    init
      (record {
        file = file_of [];
        file_path = codes "default.log";
        file_len = 0;
        entry_count = 0;
        crc32_hasher = 0;
        write_buf = [];
      })
      1 []

worker-InStep : InStep [] worker
unfolding init replay encode_all
worker-InStep = record {
  synced = record {
    on_file = refl;
    at_end = refl;
    counts_bytes = refl;
    counts_entries = refl;
    fresh_hasher = refl;
  };
  indexed = refl;
}

abbrev x : Write
x = set (codes "k") (codes "v")

failed_fsync_keeps_write_example :
    ((handle_query 1 (set_key (codes "k") (codes "v")) 0 worker).0 ≡ err wal_fsync)
    × ((handle_query 1 (set_key (codes "k") (codes "v")) 0 worker).2.memory_index ≡ replay [] [])
    × (scan (handle_query 1 (set_key (codes "k") (codes "v")) 0 worker).2.wal.file.bytes
        ≡ done (
            state
              (length (encode_all ([] ++ x ∷ [])))
              (length ([] ++ x ∷ []))
              (replay ([] ++ x ∷ []) [])))
failed_fsync_keeps_write_example =
    failed_fsync_keeps_write [] worker (codes "k") (codes "v") tt (omega arith) worker-InStep 1 0
      refl refl (omega arith) refl refl
