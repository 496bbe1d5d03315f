-- ===== src/Worker/Spec.antt =====
-- What a worker promises: replies that the history of its writes determines.
use mini_db.Prelude.{Option, none, some, List, [], ◌∷◌, ◌++◌, length}
use mini_db.Bytes.{Bytes}
use mini_db.Result.{Result, ok}
use mini_db.Crc.{Crc32}
use mini_db.Packet.{info_to_bytes}
use mini_db.Protocol.{Response, okay, key_value}
use mini_db.Wal.History.{Write, set, delete, replay, latest, encode_all}
use mini_db.Worker.{
  Query, info, get_key, set_key, delete_key, done_reply, missing_reply, info_packet,
}

-- The write that a query logs.
abbrev pub logged : Query → List Write
logged info = []
logged (get_key key) = []
logged (set_key key value) = set key value ∷ []
logged (delete_key key) = delete key ∷ []

abbrev pub all_logged : List Query → List Write
all_logged [] = []
all_logged (q ∷ qs) = logged q ++ all_logged qs

-- What a client is told of the value that a key holds.
abbrev pub value_reply : Option Bytes → Response
value_reply (some value) = key_value value
value_reply none = missing_reply

abbrev pub delete_reply : Option Bytes → Response
delete_reply (some value) = done_reply
delete_reply none = missing_reply

module _ ⦃crc : Crc32⦄ where
  -- The reply to a query after the writes `ws`.
  abbrev pub reply_after : List Write → Query → Response
  reply_after ws info =
      okay (info_to_bytes (info_packet (length (encode_all ws)) (replay ws [])) []).0
  reply_after ws (get_key key) = value_reply (latest key ws none)
  reply_after ws (set_key key value) = done_reply
  reply_after ws (delete_key key) = delete_reply (latest key ws none)

  abbrev pub replies_after : List Write → List Query → List (Result Response)
  replies_after ws [] = []
  replies_after ws (q ∷ qs) = ok (reply_after ws q) ∷ replies_after (ws ++ logged q) qs
