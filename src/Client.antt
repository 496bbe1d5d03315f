-- ===== src/Client.antt =====
-- The requests that bin/client.rs sends.
pub mod Sends
pub mod Screen
pub mod Words
pub mod Repl
pub mod Typed
pub mod Script
pub mod LongName
use mini_db.Prelude.{ℕ, ◌%◌, length}
use mini_db.Bytes.{Bytes, as_u32}
use mini_db.Stream.{Stream}
use mini_db.Stream.Io.{Io, pure, write_u8, write_u32_le, write_all, ◌>>=◌, ◌>>◌}
use mini_db.Protocol.{Operation, stats, ping, close, create, info, drop, get, set, delete, to_u8}

module _ ⦃net : Stream⦄ where
  unfoldable pub send_ping : Io (Unit {0})
  send_ping = write_u8 (to_u8 ping)

  unfoldable pub send_close : Io (Unit {0})
  send_close = write_u8 (to_u8 close)

  unfoldable pub send_stats : Io (Unit {0})
  send_stats = write_u8 (to_u8 stats)

  -- `db_name.len() as u8`
  unfoldable pub send_db_op : Operation → Bytes → Io (Unit {0})
  send_db_op op db_name = do write_u8 (to_u8 op); write_u8 (length db_name % 256); write_all db_name

  unfoldable pub send_create : Bytes → Io (Unit {0})
  send_create db_name = send_db_op create db_name

  unfoldable pub send_info : Bytes → Io (Unit {0})
  send_info db_name = send_db_op info db_name

  unfoldable pub send_drop : Bytes → Io (Unit {0})
  send_drop db_name = send_db_op drop db_name

  unfoldable pub send_get : Bytes → Bytes → Io (Unit {0})
  send_get db_name key = do
    write_u8 (to_u8 get)
    write_u8 (length db_name % 256)
    write_u32_le (as_u32 (length key))
    write_all db_name
    write_all key

  unfoldable pub send_set : Bytes → Bytes → Bytes → Io (Unit {0})
  send_set db_name key value = do
    write_u8 (to_u8 set)
    write_u8 (length db_name % 256)
    write_u32_le (as_u32 (length key))
    write_u32_le (as_u32 (length value))
    write_all db_name
    write_all key
    write_all value

  unfoldable pub send_delete : Bytes → Bytes → Io (Unit {0})
  send_delete db_name key = do
    write_u8 (to_u8 delete)
    write_u8 (length db_name % 256)
    write_u32_le (as_u32 (length key))
    write_all db_name
    write_all key
