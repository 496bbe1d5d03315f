-- ===== src/Tests/Wire.antt =====
-- Packets and responses.
use mini_db.Prelude.{◌≡◌, refl, some, [], ◌∷◌, ◌++◌, arith}
use mini_db.Prelude.Text.{codes, decimal_u8}
use mini_db.Result.{ok}
use mini_db.Packet.{StatsPacket, InfoPacket, info_to_bytes, info_from_bytes}
use mini_db.Packet.RoundTrip.{info_from_bytes-info_to_bytes}
use mini_db.Protocol.{key_value, internal_error, code_and_payload, send_response, read_response}
use mini_db.Protocol.Frames.{read_response-send_response, read_response_unknown}
use mini_db.Tests.Sim.{sim_net, SimSocket}

abbrev some_stats : StatsPacket
some_stats = record {
  uptime_hrs = 0x3ff0_0000_0000_0000;
  total_dbs = 2;
  total_active_connections = 300;
}

abbrev some_info : InfoPacket
some_info = record {
  size_on_disk = 70000;
  size_in_memory = 256;
  min_key_size = 1;
  mean_key_size = 2;
  max_key_size = 3;
  key_count = 4;
}

info_from_bytes-info_to_bytes_example :
    info_from_bytes (info_to_bytes some_info []).0 ≡ some (some_info, [])
info_from_bytes-info_to_bytes_example = info_from_bytes-info_to_bytes some_info [] (omega arith)

abbrev server : SimSocket
server = record { inbox = []; outbox = 9 ∷ [] }

abbrev client : SimSocket
client = record { inbox = 4 ∷ 2 ∷ 0 ∷ 0 ∷ 0 ∷ b'v' ∷ b'1' ∷ 7 ∷ []; outbox = [] }

sent_bytes :
    (send_response (key_value (codes "v1")) server).1.outbox
    ≡ 9 ∷ 4 ∷ 2 ∷ 0 ∷ 0 ∷ 0 ∷ b'v' ∷ b'1' ∷ []
unfolding send_response code_and_payload
sent_bytes = refl

read_response-send_response_example :
    ((read_response client).0 ≡ ok (key_value (codes "v1")))
    × ((read_response client).1.inbox ≡ 7 ∷ [])
unfolding send_response code_and_payload
read_response-send_response_example =
    read_response-send_response (key_value (codes "v1")) server client (7 ∷ []) (omega arith) refl
      refl

read_response_unknown_example :
    (read_response (record { inbox = 12 ∷ 1 ∷ 0 ∷ 0 ∷ 0 ∷ 5 ∷ []; outbox = [] })).0
    ≡ ok (internal_error (codes "Unknown response code: " ++ decimal_u8 12))
read_response_unknown_example =
    read_response_unknown (record { inbox = 12 ∷ 1 ∷ 0 ∷ 0 ∷ 0 ∷ 5 ∷ []; outbox = [] }) 12 1 0 0 0
      (5 ∷ []) [] (omega arith) refl refl
