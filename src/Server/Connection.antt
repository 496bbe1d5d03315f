-- ===== src/Server/Connection.antt =====
-- `handle_client` over a whole connection: the read of the socket's nodelay option, and the loop.
use mini_db.Prelude.{ℕ, zero, suc, ◌+◌, Bool}
use mini_db.Bytes.{Bytes}
use mini_db.Result.{Error, Result, ok, err}
use mini_db.Stream.{Stream}
use mini_db.Server.{Manager, goes_on, closed, handle_request}

-- How a connection ends. `out_of_fuel` is no behaviour of the program.
pub data Ended : Type 0 where
  ended : Result (Unit {0}) → Ended
  out_of_fuel : Ended

module _ ⦃net : Stream⦄ ⦃dbs : Manager⦄ (display : Error → Bytes)
    (uptime_hrs active_connections : ℕ → ℕ) (max_key_size max_value_size : ℕ) where
  open net use {Socket}
  open dbs use {State}

  -- The round with the given number finds the clock and the counter as they are then.
  unfoldable pub rounds : ℕ → ℕ → Socket → State → Ended × Socket × State
  rounds zero round s m = (out_of_fuel, s, m)
  rounds (suc fuel) round s m =
      let (flow, s', m') =
        handle_request display (uptime_hrs round) (active_connections round) max_key_size
          max_value_size s m in
      let rest = rounds fuel (round + 1) s' m' in
      elim flow [
        | ok goes_on ↦ rest
        | ok closed ↦ (ended (ok tt), s', m')
        | err e ↦ (ended (err e), s', m')
      ]

  -- `socket.nodelay()?`, whose result is given, and the loop, the number of its first round being
  -- `round`.
  unfoldable pub handle_client : Result Bool → ℕ → ℕ → Socket → State → Ended × Socket × State
  handle_client (err e) fuel round s m = (ended (err e), s, m)
  handle_client (ok nodelay) fuel round s m = rounds fuel round s m
