-- ===== src/Client/Screen.antt =====
-- What bin/client.rs prints, without the time that a request took. A text stands for the bytes that
-- `from_utf8_lossy` is given.
use mini_db.Prelude.{Option, none, some, if◌then◌else◌}
use mini_db.Prelude.Text.{codes}
use mini_db.Bytes.{Bytes, is_empty}
use mini_db.Result.{Result, ok, err, packet_panic}
use mini_db.Packet.{StatsPacket, InfoPacket, stats_from_bytes, info_from_bytes}
use mini_db.Protocol.{
  Response, okay, pong, key_value, key_not_found, db_not_found, db_already_exists, invalid_request,
  payload_too_large, internal_error,
}

pub data Line : Type 0 where
  -- the text alone, in quotes, behind `(n/a)`, and behind `Error:`
  plain quoted not_available failure : Bytes → Line
  usage switched unknown : Bytes → Line
  name_too_long : Line
  server_stats : StatsPacket → Line
  db_info : Bytes → InfoPacket → Line

unfoldable pub print_response : Response → Line
print_response (okay payload) = if is_empty payload then plain (codes "OK") else plain payload
print_response (pong payload) = plain (codes "Pong")
print_response (key_value val) = quoted val
print_response (key_not_found msg) = not_available msg
print_response (db_not_found msg) = failure msg
print_response (db_already_exists msg) = failure msg
print_response (invalid_request msg) = failure msg
print_response (payload_too_large msg) = failure msg
print_response (internal_error msg) = failure msg

-- A payload that is too short for a packet makes the client panic.
abbrev stats_line : Option (StatsPacket × Bytes) → Result Line
stats_line none = err packet_panic
stats_line (some (stats, rest)) = ok (server_stats stats)

abbrev info_line : Bytes → Option (InfoPacket × Bytes) → Result Line
info_line db_name none = err packet_panic
info_line db_name (some (info, rest)) = ok (db_info db_name info)

unfoldable pub print_stats_response : Response → Result Line
print_stats_response (okay payload) = stats_line (stats_from_bytes payload)
print_stats_response resp = ok (print_response resp)

unfoldable pub print_info_response : Bytes → Response → Result Line
print_info_response db_name (okay payload) = info_line db_name (info_from_bytes payload)
print_info_response db_name resp = ok (print_response resp)
