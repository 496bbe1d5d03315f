-- ===== src/Tests/Log.antt =====
-- The log on a disk that works.
use mini_db.Prelude.{◌≡◌, inl, refl, true, none, List, [], ◌∷◌, ◌++◌, length, take, All, arith}
use mini_db.Prelude.Text.{codes}
use mini_db.Bytes.{Bytes, to_le_bytes}
use mini_db.Map.{Map, get}
use mini_db.Result.{ok, err, bad_op}
use mini_db.Storage.{Storage}
use mini_db.Wal.{Wal, append, op_set}
use mini_db.Wal.History.{
  Write, set, delete, IsLoggable, entry_len, replay, latest, checksum, encode, encode_all,
}
use mini_db.Wal.Scan.{scan, done}
use mini_db.Wal.Scan.Replays.{state, Ends}
use mini_db.Wal.Scan.Stops.{scan_corrupt, scan-malformed}
use mini_db.Wal.Scan.Sound.{scan_total}
use mini_db.Wal.Init.{init}
use mini_db.Wal.Init.Recovery.{Recovers, init_total, init_torn}
use mini_db.Wal.Init.Durability.{append_all, appends_survive}
use mini_db.Wal.Synced.{IsSynced, append-IsSynced, append_refuses}
use mini_db.Tests.Sim.{sim_crc, sim_disk, sim_can_recover, sim_can_write, file_of}

instance abbrev disk : Storage
disk = sim_disk none true

abbrev path : Bytes
path = codes "default.log"

abbrev k1 : Bytes
k1 = codes "k1"

abbrev two_writes : List Write
two_writes = set k1 (codes "v1") ∷ delete (codes "k2") ∷ []

loggable : All IsLoggable two_writes
loggable = omega arith

-- A handle on an empty file.
abbrev pub empty_log : Wal
empty_log = record {
  file = file_of [];
  file_path = path;
  file_len = 0;
  entry_count = 0;
  crc32_hasher = 0;
  write_buf = [];
}

pub empty_log-IsSynced : IsSynced [] empty_log
unfolding encode_all
empty_log-IsSynced = record {
  on_file = refl;
  at_end = refl;
  counts_bytes = refl;
  counts_entries = refl;
  fresh_hasher = refl;
}

entry_bytes :
    encode (set (codes "k") (codes "v"))
    ≡ 1 ∷ 1 ∷ 0 ∷ 0 ∷ 0 ∷ 1 ∷ 0 ∷ 0 ∷ 0 ∷ b'k' ∷ b'v' ∷ to_le_bytes 2932916625
unfolding encode checksum
entry_bytes = refl

append_refuses_example : append empty_log 9 k1 [] ≡ (err (bad_op 9), empty_log)
append_refuses_example = append_refuses empty_log 9 k1 [] (inl (omega arith))

append-IsSynced_example :
    ((append empty_log op_set k1 (codes "v1")).0 ≡ ok 0)
    × IsSynced (set k1 (codes "v1") ∷ []) (append empty_log op_set k1 (codes "v1")).1
unfolding encode_all
append-IsSynced_example =
    append-IsSynced [] (set k1 (codes "v1")) empty_log empty_log-IsSynced loggable.0 refl refl

appends_survive_example :
    (w' : Wal) × (m : Map Bytes) × (init path (append_all two_writes empty_log).file ≡ ok (w', m))
    × ((k : Bytes) → get k m ≡ latest k two_writes none)
    × (w'.entry_count ≡ 2)
    × (w'.file_len ≡ length (encode_all two_writes))
appends_survive_example =
    appends_survive (sim_can_write true) (sim_can_recover none) path two_writes [] empty_log tt
      loggable empty_log-IsSynced

init_torn_example :
    Recovers path (file_of (encode_all two_writes ++ take 11 (encode (set k1 [])))) two_writes
init_torn_example =
    init_torn (sim_can_recover none) path
      (file_of (encode_all two_writes ++ take 11 (encode (set k1 [])))) two_writes loggable
      (set k1 []) 11 (omega arith) (unfold entry_len in omega arith) refl

-- Three bytes of a header, as in the repository's test of a torn tail.
init_total_example :
    (ws : List Write) × (tail : Bytes) × All IsLoggable ws
    × ((1 ∷ 2 ∷ 3 ∷ []) ≡ encode_all ws ++ tail)
    × Ends tail
    × (w : Wal) × (init path (file_of (1 ∷ 2 ∷ 3 ∷ [])) ≡ ok (w, replay ws []))
    × IsSynced ws w
init_total_example = init_total (sim_can_recover none) path (file_of (1 ∷ 2 ∷ 3 ∷ [])) (omega arith)

scan_total_example :
    (ws : List Write) × (tail : Bytes) × All IsLoggable ws
    × ((1 ∷ 2 ∷ 3 ∷ []) ≡ encode_all ws ++ tail)
    × Ends tail
    × (scan (1 ∷ 2 ∷ 3 ∷ []) ≡ done (state (length (encode_all ws)) (length ws) (replay ws [])))
scan_total_example = scan_total (1 ∷ 2 ∷ 3 ∷ []) (omega arith)

-- A second entry whose checksum bytes are 0.
scan_corrupt_example :
    scan (
      encode_all two_writes
      ++ 1 ∷ 1 ∷ 0 ∷ 0 ∷ 0 ∷ 1 ∷ 0 ∷ 0 ∷ 0 ∷ b'k' ∷ b'v' ∷ 0 ∷ 0 ∷ 0 ∷ 0 ∷ 7 ∷ [])
    ≡ done (state (length (encode_all two_writes)) 2 (replay two_writes []))
scan_corrupt_example =
    scan_corrupt (codes "k") (codes "v") (7 ∷ []) 1 1 0 0 0 1 0 0 0 0 0 0 0 refl refl two_writes
      loggable (unfold checksum in omega arith)

-- The bogus op of the repository's test.
scan-malformed_example :
    scan (
      encode_all two_writes
      ++ 99 ∷ 1 ∷ 0 ∷ 0 ∷ 0 ∷ 1 ∷ 0 ∷ 0 ∷ 0 ∷ b'x' ∷ b'y' ∷ 0 ∷ 0 ∷ 0 ∷ 0 ∷ [])
    ≡ done (state (length (encode_all two_writes)) 2 (replay two_writes []))
scan-malformed_example =
    scan-malformed (codes "x") (codes "y") [] 99 1 0 0 0 1 0 0 0 0 0 0 0 refl refl two_writes
      loggable refl
