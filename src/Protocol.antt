-- ===== src/Protocol.antt =====
-- protocol.rs: operation codes, and responses on the wire. The packets are in `Packet`. A buffer's
-- capacity is left out.
pub mod Codes
pub mod Frames
use mini_db.Prelude.{
  ℕ, zero, suc, ◌+◌, ◌*◌, ◌/◌, ◌%◌, ◌^◌, Option, none, some, [], ◌∷◌, ◌++◌, length, ◌==◌,
  if◌then◌else◌,
}
use mini_db.Prelude.Text.{codes, decimal_u8}
use mini_db.Bytes.{Bytes, as_u32, to_le_bytes, from_le_bytes}
use mini_db.Stream.{Stream}
use mini_db.Stream.Io.{Io, pure, read_u8, read_u32_le, read_exact, write_all, ◌>>=◌, ◌>>◌}

pub data Operation : Type 0 where
  stats ping close create info drop get set delete : Operation

unfoldable pub from_u8 : ℕ → Option Operation
from_u8 value =
    if value == 0
    then some stats
    else if value == 1
    then some ping
    else if value == 2
    then some close
    else if value == 3
    then some create
    else if value == 4
    then some info
    else if value == 5
    then some drop
    else if value == 6
    then some get
    else if value == 7
    then some set
    else if value == 8
    then some delete
    else none

unfoldable pub to_u8 : Operation → ℕ
to_u8 stats = 0
to_u8 ping = 1
to_u8 close = 2
to_u8 create = 3
to_u8 info = 4
to_u8 drop = 5
to_u8 get = 6
to_u8 set = 7
to_u8 delete = 8

pub data Response : Type 0 where
  okay pong db_not_found db_already_exists key_value : Bytes → Response
  key_not_found invalid_request payload_too_large internal_error : Bytes → Response

unfoldable pub code_and_payload : Response → ℕ × Bytes
code_and_payload (okay p) = (0, p)
code_and_payload (pong p) = (1, p)
code_and_payload (db_not_found p) = (2, p)
code_and_payload (db_already_exists p) = (3, p)
code_and_payload (key_value p) = (4, p)
code_and_payload (key_not_found p) = (5, p)
code_and_payload (invalid_request p) = (6, p)
code_and_payload (payload_too_large p) = (7, p)
code_and_payload (internal_error p) = (8, p)

-- `match status` of `read_response`
unfoldable pub response_of : ℕ → Bytes → Response
response_of status payload =
    if status == 0
    then okay payload
    else if status == 1
    then pong payload
    else if status == 2
    then db_not_found payload
    else if status == 3
    then db_already_exists payload
    else if status == 4
    then key_value payload
    else if status == 5
    then key_not_found payload
    else if status == 6
    then invalid_request payload
    else if status == 7
    then payload_too_large payload
    else if status == 8
    then internal_error payload
    else internal_error (codes "Unknown response code: " ++ decimal_u8 status)

module _ ⦃net : Stream⦄ where
  -- The buffer is cleared and filled, and goes out in one write.
  unfoldable pub send_response : Response → Io (Unit {0})
  send_response response =
      let (code, payload) = code_and_payload response in
      let write_buf = (code ∷ []) ++ to_le_bytes (as_u32 (length payload)) ++ payload in
      write_all write_buf

  unfoldable pub read_response : Io Response
  read_response = do
    status ← read_u8
    len ← read_u32_le
    payload ← read_exact len
    pure (response_of status payload)
