-- ===== src/Server.antt =====
-- bin/main.rs: what a connection does with a request. The manager of the databases is the interface
-- `Manager`, and a request to a worker's queue, with the wait for its reply, is one call of it.
pub mod Names
pub mod Checks
pub mod Fields
pub mod Agrees
pub mod Accepts
pub mod Connection
pub mod Takes
pub mod Ends
pub mod Keeps
pub mod Service
use mini_db.Prelude.{ℕ, Option, none, some, [], ◌%◌}
use mini_db.Prelude.Text.{codes}
use mini_db.Bytes.{Bytes, as_u32}
use mini_db.Result.{
  Error, io, unexpected_eof, unknown_operation, queue_closed, no_database, Result, ok, err,
}
use mini_db.Stream.{Stream, got, failed}
use mini_db.Stream.Io.{Io, continue}
use mini_db.Packet.{StatsPacket, stats_to_bytes}
use mini_db.Protocol.{
  Operation, stats, ping, close, create, info, drop, get, set, delete, from_u8, Response, okay,
  pong, invalid_request, send_response,
}
use mini_db.Worker.{Query, get_key, set_key, delete_key}
use mini_db.Server.Checks.{
  refuse, read_name, read_name_and_key, read_name_key_and_value, send_db_result_to_client,
}

-- What `get_db_handle` answers.
pub data Lookup (H : Type 0) : Type 0 where
  found : H → Lookup H
  missing : Response → Lookup H

-- What becomes of a query: the worker's queue is closed, or the reply's channel gives a reply or
-- `none`, if the worker drops it.
pub data Asked : Type 0 where
  refused : Asked
  answered : Option (Result Response) → Asked

-- `DbManager`, as the connections use it.
pub record Manager : Type 1 where
  pub State : Type 0
  pub Handle : Type 0
  pub db_count : State → ℕ
  pub create_db : Bytes → State → Result Response × State
  pub drop_db : Bytes → State → Result Response × State
  pub get_db_handle : Bytes → State → Lookup Handle
  pub ask : Handle → Query → State → Asked × State
  pub shutdown_all_workers : State → State

-- Whether the loop goes on or leaves by `break`.
pub data Flow : Type 0 where
  goes_on closed : Flow

module _ ⦃net : Stream⦄ ⦃dbs : Manager⦄ where
  open net use {Socket}
  open dbs use {State}

  -- Code that uses the socket and the manager, and may fail.
  abbrev pub Act {ℓ} : Type ℓ → Type ℓ
  Act A = Socket → State → Result A × Socket × State

  abbrev next {ℓ κ} :
      {A : Type ℓ} {B : Type κ}
      → Result A
      → (A → Act B)
      → Socket
      → State
      → Result B × Socket × State
  next (ok a) f s m = f a s m
  next (err e) f s m = (err e, s, m)

  infixl 5 ◌>>=◌ ◌>>◌
  abbrev pub ◌>>=◌ {ℓ κ} : {A : Type ℓ} {B : Type κ} → Act A → (A → Act B) → Act B
  ◌>>=◌ act f s m = next (act s m).0 f (act s m).1 (act s m).2

  abbrev pub ◌>>◌ {ℓ κ} : {A : Type ℓ} {B : Type κ} → Act A → Act B → Act B
  ◌>>◌ act k s m = next (act s m).0 (λ _. k) (act s m).1 (act s m).2

  abbrev pub pure {ℓ} : {A : Type ℓ} → A → Act A
  pure a s m = (ok a, s, m)

  -- The databases as they are.
  abbrev pub current : Act State
  current s m = (ok m, s, m)

  abbrev pub on_socket {ℓ} : {A : Type ℓ} → Io A → Act A
  on_socket act s m = ((act s).0, (act s).1, m)

  abbrev pub on_manager {ℓ} : {A : Type ℓ} → (State → Result A × State) → Act A
  on_manager act s m = ((act m).0, s, (act m).1)

  module _ (display : Error → Bytes) where
    -- The end of an INFO, GET, SET or DELETE: find the database, send the query, pass on the reply.
    unfoldable pub query_db : Bytes → Query → Act (Unit {0})
    query_db db_name query s m = elim (dbs.get_db_handle db_name m) [
      | missing error_rsp ↦ on_socket (refuse error_rsp (no_database db_name)) s m
      | found handle ↦ elim (dbs.ask handle query m).0 [
        | refused ↦ (err queue_closed, s, (dbs.ask handle query m).1)
        | answered reply ↦
            on_socket (send_db_result_to_client display reply) s (dbs.ask handle query m).1
      ]
    ]

    module _ (uptime_hrs active_connections max_key_size max_value_size : ℕ) where
      -- `match op`, for an operation that is known. The clock and the counter of connections are
      -- read once, as `uptime_hrs` and `active_connections`.
      unfoldable pub handle_operation : Operation → Act Flow
      handle_operation stats = do
        dbs_now ← current
        let packet : StatsPacket = record {
          uptime_hrs = uptime_hrs;
          total_dbs = as_u32 (dbs.db_count dbs_now);
          total_active_connections = active_connections;
        }
        on_socket (send_response (okay (stats_to_bytes packet []).0))
        pure goes_on
      handle_operation ping = do on_socket (send_response (pong (codes "PONG"))); pure goes_on
      handle_operation close = pure closed
      handle_operation create = do
        db_name ← on_socket read_name
        rsp ← on_manager (dbs.create_db db_name)
        on_socket (send_response rsp)
        pure goes_on
      handle_operation info = do
        db_name ← on_socket read_name
        query_db db_name Query.info
        pure goes_on
      handle_operation drop = do
        db_name ← on_socket read_name
        rsp ← on_manager (dbs.drop_db db_name)
        on_socket (send_response rsp)
        pure goes_on
      handle_operation get = do
        (db_name, key) ← on_socket (read_name_and_key max_key_size)
        query_db db_name (get_key key)
        pure goes_on
      handle_operation set = do
        (db_name, key, value) ← on_socket (read_name_key_and_value max_key_size max_value_size)
        query_db db_name (set_key key value)
        pure goes_on
      handle_operation delete = do
        (db_name, key) ← on_socket (read_name_and_key max_key_size)
        query_db db_name (delete_key key)
        pure goes_on

      unfoldable pub handle_code : Option Operation → Act Flow
      unfolding handle_operation
      handle_code (some op) = handle_operation op
      handle_code none =
          on_socket (refuse (invalid_request (codes "Invalid operation code")) unknown_operation)

      -- One round of the loop. A client that has closed its side ends it.
      unfoldable pub handle_request : Act Flow
      unfolding handle_code
      handle_request s m = elim (net.read_u8 s).0 [
        | failed unexpected_eof ↦ (ok closed, (net.read_u8 s).1, m)
        | failed e ↦ (err (io e), (net.read_u8 s).1, m)
        | got op ↦ handle_code (from_u8 op) (net.read_u8 s).1 m
      ]
