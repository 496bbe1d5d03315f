-- ===== src/Packet/RoundTrip.antt =====
-- The packets of the STATS and INFO responses.
use mini_db.Prelude.{◌^◌, ◌<◌, ◌≡◌, some, [], arith}
use mini_db.Bytes.{Bytes}
use mini_db.Packet.{
  StatsPacket, InfoPacket, stats_to_bytes, stats_from_bytes, info_to_bytes, info_from_bytes,
}

pub record StatsFits (p : StatsPacket) : Type 0 where
  pub uptime : p.uptime_hrs < 2 ^ 64
  pub dbs : p.total_dbs < 2 ^ 32
  pub conns : p.total_active_connections < 2 ^ 32

-- A stats packet whose three numbers fit their widths is read back from its bytes, whatever the buffer held before.
pub stats_from_bytes-stats_to_bytes :
    (p : StatsPacket) (buf : Bytes)
    → StatsFits p
    → stats_from_bytes (stats_to_bytes p buf).0 ≡ some (p, [])
unfolding stats_from_bytes stats_to_bytes
stats_from_bytes-stats_to_bytes p buf h = ground arith

pub record InfoFits (p : InfoPacket) : Type 0 where
  pub disk : p.size_on_disk < 2 ^ 32
  pub memory : p.size_in_memory < 2 ^ 32
  pub min : p.min_key_size < 2 ^ 32
  pub mean : p.mean_key_size < 2 ^ 32
  pub max : p.max_key_size < 2 ^ 32
  pub count : p.key_count < 2 ^ 32

-- An info packet whose six numbers fit their widths is read back from its bytes, whatever the
-- buffer held before.
pub info_from_bytes-info_to_bytes :
    (p : InfoPacket) (buf : Bytes)
    → InfoFits p
    → info_from_bytes (info_to_bytes p buf).0 ≡ some (p, [])
unfolding info_from_bytes info_to_bytes
info_from_bytes-info_to_bytes p buf h = ground arith
