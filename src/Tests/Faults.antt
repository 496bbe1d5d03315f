-- ===== src/Tests/Faults.antt =====
-- The log on a disk that takes short writes only.
use mini_db.Prelude.{◌≡◌, ◌⊎◌, inl, refl, true, false, some, [], ◌∷◌, ◌++◌, length, arith}
use mini_db.Prelude.Text.{codes}
use mini_db.Result.{ok}
use mini_db.Storage.{Storage}
use mini_db.Wal.{Wal, append, op_set}
use mini_db.Wal.History.{Write, set, replay, encode, encode_all, checksum}
use mini_db.Wal.Scan.{scan, done}
use mini_db.Wal.Scan.Replays.{state}
use mini_db.Wal.Init.Recovery.{Recovers}
use mini_db.Wal.Init.Durability.{failed_append_is_atomic}
use mini_db.Wal.Init.Lost.{acknowledged_write_lost}
use mini_db.Wal.Synced.{IsSynced, IsTorn}
use mini_db.Tests.Sim.{sim_crc, sim_disk, sim_can_recover, file_of}

instance abbrev disk : Storage
disk = sim_disk (some 20) true

abbrev empty_log : Wal
empty_log = record {
  file = file_of [];
  file_path = codes "default.log";
  file_len = 0;
  entry_count = 0;
  crc32_hasher = 0;
  write_buf = [];
}

empty_log-IsSynced : IsSynced [] empty_log
unfolding encode_all
empty_log-IsSynced = record {
  on_file = refl;
  at_end = refl;
  counts_bytes = refl;
  counts_entries = refl;
  fresh_hasher = refl;
}

abbrev long : Write
long = set (codes "k") (codes "a value that is long")

abbrev short : Write
short = set (codes "k") (codes "v")

-- The handle that the failed append of `long` leaves, the entry's first byte on the file.
abbrev torn_log : Wal
torn_log = record {
  file = record { bytes = 1 ∷ []; position = 1 };
  file_path = codes "default.log";
  file_len = 0;
  entry_count = 0;
  crc32_hasher = 0;
  write_buf = [];
}

abbrev append_long : Wal
append_long = (append empty_log op_set (codes "k") (codes "a value that is long")).1

long_fails : (disk.write_all (file_of []) (encode long)).0 ≡ false
unfolding encode
long_fails = refl

failed_append_is_atomic_example :
    Recovers (codes "default.log") append_long.file []
    ⊎ Recovers (codes "default.log") append_long.file ([] ++ long ∷ [])
failed_append_is_atomic_example =
    failed_append_is_atomic (sim_can_recover (some 20)) (codes "default.log") [] long empty_log tt
      (omega arith) empty_log-IsSynced (inl long_fails)

torn_log-IsTorn : IsTorn [] long empty_log torn_log
unfolding encode encode_all checksum
torn_log-IsTorn = record {
  size = 1;
  size-le = omega arith;
  on_file = refl;
  at_end = refl;
  fresh_hasher = refl;
  same_len = refl;
  same_count = refl;
}

short_written : (disk.write_all torn_log.file (encode short)).0 ≡ true
unfolding encode checksum
short_written = refl

acknowledged_write_lost_example :
    ((append torn_log op_set (codes "k") (codes "v")).0 ≡ ok torn_log.file_len)
    × (scan (append torn_log op_set (codes "k") (codes "v")).1.file.bytes
        ≡ done (state (length (encode_all [])) 0 (replay [] [])))
acknowledged_write_lost_example =
    acknowledged_write_lost [] long short empty_log torn_log tt (omega arith) torn_log-IsTorn
      short_written refl (unfold torn_log-IsTorn in refl) (omega arith)
