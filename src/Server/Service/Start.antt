-- ===== src/Server/Service/Start.antt =====
-- The start of `run_server`, and what is logged when a connection ends. The lines that manager.rs logs
-- are left out.
use mini_db.Prelude.{ℕ, ◌-◌, ◌≡◌, refl, ◌++◌, Bool, true, false, Option, none, some, []}
use mini_db.Prelude.Text.{codes}
use mini_db.Bytes.{Bytes}
use mini_db.Result.{Error, io, unexpected_eof, connection_reset, Result, ok, err}
use mini_db.Crc.{Crc32}
use mini_db.Storage.{Storage}
use mini_db.Stream.{Stream}
use mini_db.Map.{Map}
use mini_db.Log.{Level, Console, set_level, should_log, log}
use mini_db.Log.Macros
use mini_db.Library.{get_uptime_hrs}
use mini_db.Server.Service.{Service, listening}
use mini_db.Manager.Directory.{Folder}
use mini_db.Manager.{DbManager, init, manager}

-- `is_connection_error`: a failed read or write whose kind says that the client has gone.
unfoldable pub is_connection_error : Error → Bool
is_connection_error (io connection_reset) = true
is_connection_error (io unexpected_eof) = true
is_connection_error _ = false

-- The line for the end of a connection, by the result of `handle_client`; `show` is `{:?}` of an error.
unfoldable pub log_end : (Error → Bytes) → Bytes → Bytes → Result (Unit {0}) → Console → Console
log_end show now addr (ok u) c = c
log_end show now addr (err e) c = elim (is_connection_error e) [
  | true ↦ Macros.debug now (codes "Client (ip: " ++ addr ++ codes ") disconnected") c
  | false ↦
      Macros.error now (codes "Error handling client (ip: " ++ addr ++ codes "): " ++ show e) c
]

-- START_TIME and the console of the process.
pub record Process : Type 0 where
  pub start_time : Option ℕ
  pub console : Console

-- `START_TIME.set(now)`: whether it was free.
unfoldable pub set_start_time : ℕ → Process → Bool × Process
set_start_time now p = elim p.start_time [
  | none ↦ (true, record p { start_time = some now })
  | some _ ↦ (false, p)
]

module _ ⦃net : Stream⦄ ⦃crc : Crc32⦄ ⦃disk : Storage⦄ ⦃folder : Folder disk⦄ where
  open disk use {File}

  -- A `set` that fails panics; a failed `init` or `bind` is returned; else the loop begins.
  pub data Begun : Type 0 where
    panicked : Begun
    failed_start : Error → Begun
    running : Service ⦃dbs = manager folder⦄ → Begun

  -- `bound` is the outcome of `bind` and `local_addr`, and `text` the clock at a line.
  unfoldable pub bind : Bytes → Result Bytes → DbManager → Process → Begun × Process
  bind text (err e) m p = (failed_start e, p)
  bind text (ok addr) m p = (
    running (listening ⦃dbs = manager folder⦄ m),
    record p { console = Macros.info text (codes "Server listening on " ++ addr) p.console },
  )

  unfoldable pub with_manager :
      Bytes → Result Bytes → Result DbManager × Map File → Process → Begun × Process
  with_manager text bound (err e, files) p = (failed_start e, p)
  with_manager text bound (ok m, files) p = bind text bound m p

  -- `run_server` up to its loop.
  unfoldable pub start :
      (now : ℕ) (text : Bytes) (log_level : Level) (fsync_interval max_queue_size : ℕ)
      → Result Bytes
      → Map File
      → Process
      → Begun × Process
  start now text log_level fsync_interval max_queue_size bound files p =
      let (timed, p1) = set_start_time now p in
      let (levelled, console) = set_level log_level p1.console in
      let p2 = record p1 {
        console = Macros.info text (codes "Performing necessary initialization...") console;
      } in
      elim timed [
        | false ↦ (panicked, p1)
        | true ↦ elim levelled [
          | false ↦ (panicked, record p1 { console = console })
          | true ↦ with_manager text bound (init fsync_interval max_queue_size files) p2
        ]
      ]

  abbrev fresh : Process
  fresh = record { start_time = none; console = record { log_level = none; printed = [] } }

  -- A fresh process sets both, and so does not panic: where the manager starts and the address can be
  -- bound, the loop begins with no connections, at the level that was asked for and with an uptime
  -- that counts from the start.
  pub start-running :
      (now later : ℕ) (text : Bytes) (log_level : Level) (interval queue : ℕ) (addr : Bytes)
      (files left : Map File) (m : DbManager) (hours : ℕ → ℕ)
      → init interval queue files ≡ (ok m, left)
      → let outcome = start now text log_level interval queue (ok addr) files fresh in
        (outcome.0 ≡ running (listening ⦃dbs = manager folder⦄ m))
        × (outcome.1.console.log_level ≡ some log_level)
        × (get_uptime_hrs hours outcome.1.start_time later ≡ hours (later - now))
  unfolding start set_start_time set_level with_manager bind get_uptime_hrs Macros.info log
      should_log
  start-running now later text log_level interval queue addr files left m hours started =
      rw started (refl, refl, refl)
