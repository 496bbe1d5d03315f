-- ===== src/Tests/Databases.antt =====
-- A manager with the default database, on a disk that works.
use mini_db.Prelude.{◌≡◌, refl, Bool, true, false, Option, none, some, List, [], ◌∷◌, All, arith}
use mini_db.Prelude.Text.{codes}
use mini_db.Bytes.{Bytes, bytes_eq_refl, bytes_eq_iff}
use mini_db.Map.{Map, insert, get-nil}
use mini_db.Map.Keys.{IsMap, insert-IsMap}
use mini_db.Result.{ok, err, remove_failed}
use mini_db.Protocol.{okay}
use mini_db.Storage.{Storage}
use mini_db.Worker.{set_key}
use mini_db.Manager.{Running, DbManager, default_db_name, init, shutdown_all_workers}
use mini_db.Manager.Directory.{Folder, CanManage}
use mini_db.Manager.Spec.{
  Histories, put, IsStem, Command, create, drop, query, IsPossible, perform, reply_to, after,
  Represents,
}
use mini_db.Manager.Refines.{Stands-insert, perform-Represents}
use mini_db.Manager.Restart.{init-shutdown_all_workers}
use mini_db.Manager.Lifetime.{
  first, after_all, replies_to_all, perform_all, restart_keeps_histories, default-IsStem,
}
use mini_db.Manager.Faults.{failed_drop_revives}
use mini_db.Server.Names.{all_name_bytes, is_name_byte, is_utf8-all_name_bytes}
use mini_db.Tests.Sim.{sim_crc, sim_disk, sim_can_write, sim_can_recover, SimFile, file_of}
use mini_db.Tests.Queries.{worker, worker-InStep}

instance abbrev pub disk : Storage
disk = sim_disk none true

abbrev pub sim_open : Bytes → Option SimFile → Option SimFile
sim_open path none = some (file_of [])
sim_open path (some f) = some (record f { position = 0 })

pub open-existing :
    (path : Bytes) (f g : SimFile) → sim_open path (some f) ≡ some g → g.bytes ≡ f.bytes
open-existing path f g h = cc

pub open-new : (path : Bytes) (g : SimFile) → sim_open path none ≡ some g → g.bytes ≡ []
open-new path g h = cc

-- A directory in which every file opens, and files can be removed or not.
abbrev pub folder_of : Bool → Folder disk
folder_of removes = record {
  create_dir_all = true;
  read_dir = true;
  next_entry = λ entries. true;
  metadata = λ path f. true;
  open_file = sim_open;
  remove_file = λ path f. removes;
  open-existing = open-existing;
  open-new = open-new;
}

instance abbrev pub folder : Folder disk
folder = folder_of true

sim_opens : (path : Bytes) (o : Option SimFile) → (f : SimFile) × (sim_open path o ≡ some f)
sim_opens path none = (file_of [], refl)
sim_opens path (some f) = (record f { position = 0 }, refl)

pub sim-CanManage : CanManage disk folder
sim-CanManage = record {
  works = refl;
  entries_work = λ entries. refl;
  metadata_works = λ path f. refl;
  open_works = sim_opens;
  remove_works = λ path f. refl;
}

abbrev pub running : Running
running = record { worker = worker; writes_executed = 0 }

abbrev pub started : DbManager
started = record {
  fsync_interval = 2;
  max_queue_size = 8;
  db_map = (default_db_name, running) ∷ [];
  directory = [];
}

pub started-Represents : Represents first started
unfolding insert
started-Represents = record {
  stands =
      Stands-insert (λ k. none) [] default_db_name [] running default-IsStem tt worker-InStep
        (λ k. get-nil k);
  distinct = (get-nil default_db_name, tt);
  no_other_files = refl;
}

abbrev pub write_default : Command
write_default = query (codes "default") (set_key (codes "k") (codes "v"))

perform-Represents_example :
    ((perform write_default started).0 ≡ reply_to write_default first)
    × Represents (after write_default first) (perform write_default started).1
perform-Represents_example =
    perform-Represents (sim_can_recover none) sim-CanManage (sim_can_write true) write_default first
      started (ground arith) started-Represents

abbrev some_commands : List Command
some_commands =
    create (codes "logs")
    ∷ query (codes "logs") (set_key (codes "k") (codes "v"))
    ∷ create (codes "logs")
    ∷ drop (codes "default")
    ∷ []

logs-IsStem : IsStem (codes "logs")
unfolding all_name_bytes is_name_byte
logs-IsStem = (λ e. cc, is_utf8-all_name_bytes (codes "logs") refl)

some_commands_are-IsPossible : All IsPossible some_commands
some_commands_are-IsPossible = (logs-IsStem, ((ground arith), (logs-IsStem, (tt, tt))))

restart_keeps_histories_example :
    (m : DbManager) × (init 2 8 [] ≡ (ok m, []))
    × ((perform_all some_commands m).0 ≡ replies_to_all some_commands first)
    × (m' : DbManager) × (init 2 8 (shutdown_all_workers (perform_all some_commands m).1).directory
        ≡ (ok m', []))
    × Represents (after_all some_commands first) m'
restart_keeps_histories_example =
    restart_keeps_histories (sim_can_recover none) sim-CanManage (sim_can_write true) 2 8
      some_commands some_commands_are-IsPossible

-- The manager of the next start, on the log of the default database.
abbrev pub default_log : Map SimFile
default_log = (shutdown_all_workers started).directory

pub restarted : (m : DbManager) × (init 2 8 default_log ≡ (ok m, [])) × Represents first m
restarted =
    init-shutdown_all_workers (sim_can_write true) (sim_can_recover none) sim-CanManage 2 8 first
      started [] (rw (bytes_eq_refl default_db_name) refl) started-Represents

pub default_log-IsMap : IsMap default_log
unfolding shutdown_all_workers
default_log-IsMap = (get-nil (codes "default.log"), tt)

-- A second database, whose log cannot be removed.
abbrev two_histories : Histories
two_histories = put (codes "logs") (some []) first

abbrev two_databases : DbManager
two_databases = record started { db_map = insert (codes "logs") running started.db_map }

two_databases-Represents : Represents two_histories two_databases
two_databases-Represents = record {
  stands =
      Stands-insert first started.db_map (codes "logs") [] running logs-IsStem tt worker-InStep
        started-Represents.stands;
  distinct = insert-IsMap (codes "logs") running started.db_map started-Represents.distinct;
  no_other_files = refl;
}

failed_drop_revives_example :
    ((perform_all ⦃folder = folder_of false⦄
        (drop (codes "logs") ∷ create (codes "logs") ∷ [])
        two_databases).0
      ≡ err remove_failed ∷ ok (okay (codes "Database created successfully")) ∷ [])
    × Represents two_histories
        (perform_all ⦃folder = folder_of false⦄
          (drop (codes "logs") ∷ create (codes "logs") ∷ [])
          two_databases).1
failed_drop_revives_example =
    failed_drop_revives ⦃folder = folder_of false⦄ (sim_can_recover none) (sim_can_write true)
      (codes "logs") two_histories two_databases []
      (ground (arith, bytes_eq_iff (codes "logs") default_db_name))
      (rw (bytes_eq_refl (codes "logs")) refl) (λ f. refl)
      (λ f. sim_opens (codes "logs.log") (some f)) two_databases-Represents
