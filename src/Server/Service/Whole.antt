-- ===== src/Server/Service/Whole.antt =====
-- `run_server` with the manager of manager.rs, from the start on the files of the directory.
use mini_db.Prelude.{ℕ, ◌≡◌, ◌≢◌, refl, sym, ◌∙◌}
use mini_db.Bytes.{Bytes}
use mini_db.Result.{Error, ok}
use mini_db.Crc.{Crc32}
use mini_db.Storage.{Storage}
use mini_db.Stream.{Stream}
use mini_db.Map.{Map}
use mini_db.Map.Keys.{IsMap}
use mini_db.Server.{Manager}
use mini_db.Server.Keeps.{AllKeep, handle_request-Keeps}
use mini_db.Server.Service.{
  accepting, stopped, Service, listening, accept, serve_round, leave, stop_accepting, shut_down,
  Step, accepts, interrupted, serves, leaves, drained, Steps, here, step,
}
use mini_db.Manager.Directory.{Folder}
use mini_db.Manager.{DbManager, init, manager}
use mini_db.Manager.Keeps.{IsManaged, create_db-IsManaged, drop_db-IsManaged, ask-IsManaged}
use mini_db.Manager.Opens.{init-IsManaged}

module _ ⦃net : Stream⦄ ⦃dbs : Manager⦄ (P : dbs.State → Type 0) (all : AllKeep P)
    (display : Error → Bytes) (max_key_size max_value_size : ℕ) where
  abbrev Held : Service → Type 0
  Held s = s.phase ≢ stopped → P s.db_manager

  step-Held : (s t : Service) → Step display max_key_size max_value_size s t → Held s → Held t
  unfolding accept serve_round leave stop_accepting shut_down
  step-Held s _ (accepts socket p) h q = h q
  step-Held s _ (interrupted p) h q = h λ e. let clash : accepting ≡ stopped = sym p ∙ e in cc
  step-Held s _ (serves uptime before socket behind p e) h q =
      handle_request-Keeps P all display uptime s.active_connections max_key_size max_value_size
        socket s.db_manager (h q)
  step-Held s _ (leaves before behind r p e) h q = h q
  step-Held s _ (drained p e) h q = absurd (q refl)

  -- Until the server stops, its manager has what every operation of it keeps.
  pub Steps-Held :
      (n : ℕ) (s t : Service) → Steps display max_key_size max_value_size n s t → Held s → Held t
  Steps-Held _ s _ here h = h
  Steps-Held _ s u (step {n} {t = t} one more) h = Steps-Held n t u more (step-Held s t one h)

module _ ⦃net : Stream⦄ ⦃crc : Crc32⦄ ⦃disk : Storage⦄ ⦃folder : Folder disk⦄ where
  manager-AllKeep : AllKeep ⦃dbs = manager folder⦄ IsManaged
  manager-AllKeep = record {
    creates = create_db-IsManaged;
    drops = drop_db-IsManaged;
    asks = ask-IsManaged;
  }

  -- A server that has started on a directory whose files have distinct names runs, until it stops,
  -- the default database, has one worker for a name at most and none on a file that lies in the
  -- directory as well. This holds whatever the files are, whatever the clients send, in whatever
  -- order they are served, and whatever the disk does.
  pub service-IsManaged :
      (interval queue max_key_size max_value_size n : ℕ) (display : Error → Bytes)
      (files : Map disk.File) (m : DbManager) (s : Service ⦃dbs = manager folder⦄)
      → IsMap files
      → (init interval queue files).0 ≡ ok m
      → Steps ⦃dbs = manager folder⦄ display max_key_size max_value_size n
          (listening ⦃dbs = manager folder⦄ m)
          s
      → s.phase ≢ stopped
      → IsManaged s.db_manager
  service-IsManaged interval queue mk mv n display files m s d started run =
      Steps-Held ⦃dbs = manager folder⦄ IsManaged manager-AllKeep display mk mv n
        (listening ⦃dbs = manager folder⦄ m) s run
        λ q. init-IsManaged interval queue files m d started
