-- ===== src/Manager.antt =====
-- manager.rs: the databases of a directory, each with its running worker. Operations run one after
-- the other: the map of databases changes under the manager's lock, and a query is answered before
-- the next operation. So a handle is the name of its database, and a queue holds one query at a time.
-- The paths stand for those in the directory of the logs.
pub mod Directory
pub mod Paths
pub mod Spec
pub mod Starts
pub mod Refines
pub mod Reopen
pub mod Restart
pub mod Lifetime
pub mod Apart
pub mod Keeps
pub mod Faults
pub mod Opens
use mini_db.Prelude.{
  ℕ, ◌+◌, Bool, true, false, ◌&&◌, Option, none, some, List, [], ◌∷◌, ◌++◌, length, max,
  if◌then◌else◌,
}
use mini_db.Prelude.Text.{codes}
use mini_db.Bytes.{Bytes, bytes_eq}
use mini_db.Map.{Map, get, insert, remove, contains_key}
use mini_db.Result.{
  Error, dir_failed, wal_open, bad_file_name, metadata_failed, remove_failed, db_missing, Result,
  ok, err,
}
use mini_db.Crc.{Crc32}
use mini_db.Storage.{Storage}
use mini_db.Protocol.{Response, okay, db_not_found, db_already_exists, invalid_request}
use mini_db.Wal.{Wal, fsync}
use mini_db.Wal.Init.{init as init_wal, file_after}
use mini_db.Worker
use mini_db.Worker.{Query, Worker, handle_query}
use mini_db.Server.{Lookup, found, missing, Asked, refused, answered, Manager}
use mini_db.Server.Names.{is_utf8}
use mini_db.Manager.Directory.{Folder}
use mini_db.Manager.Paths.{log_path, file_parts, is_log}

-- DEFAULT_DB_NAME
abbrev pub default_db_name : Bytes
default_db_name = codes "default"

module _ ⦃crc : Crc32⦄ ⦃disk : Storage⦄ where
  open disk use {File}

  -- A worker's task between two queries: the worker, and `writes_executed`.
  pub record Running : Type 0 where
    pub worker : Worker
    pub writes_executed : ℕ

  -- The manager, with the files in its directory that no worker has open.
  pub record DbManager : Type 0 where
    pub fsync_interval : ℕ
    pub max_queue_size : ℕ
    pub db_map : Map Running
    pub directory : Map File

  -- The worker of an opened log, at the start of `execute_queries`.
  unfoldable pub spawn : ℕ → Wal → Map Bytes → Running
  spawn fsync_interval wal memory_index = record {
    worker = Worker.init wal fsync_interval memory_index;
    writes_executed = 0;
  }

  -- The end of a worker's task: the final fsync, and the file is closed.
  unfoldable pub close : Running → File
  close r = (fsync r.worker.wal).1.file

  abbrev pub names : Map File → List Bytes
  names [] = []
  names ((path, f) ∷ files) = path ∷ names files

  -- The files once every worker has closed its own.
  abbrev pub close_all : Map Running → Map File → Map File
  close_all [] files = files
  close_all ((name, r) ∷ dbs) files = (log_path name, close r) ∷ close_all dbs files

  module _ ⦃folder : Folder disk⦄ where
    open folder use {create_dir_all, read_dir, next_entry, metadata, open_file, remove_file}

    -- The worker has the file of a log that was read; after a failure it stays behind.
    abbrev pub taken :
        Bytes → Map File → File → Result (Wal × Map Bytes) → Result (Wal × Map Bytes) × Map File
    taken path files f (err e) = (err e, insert path (file_after f) files)
    taken path files f (ok log) = (ok log, remove path files)

    -- `Wal::init(path)`
    unfoldable pub open_wal : Bytes → Map File → Result (Wal × Map Bytes) × Map File
    open_wal path files = elim (open_file path (get path files)) [
      | none ↦ (err wal_open, files)
      | some f ↦ taken path files f (init_wal path f)
    ]

    abbrev pub run :
        ℕ
        → Bytes
        → Map Running
        → Result (Wal × Map Bytes) × Map File
        → Result (Map Running) × Map File
    run fsync_interval name dbs (err e, files) = (err e, files)
    run fsync_interval name dbs (ok (wal, memory_index), files) =
        (ok (insert name (spawn fsync_interval wal memory_index) dbs), files)

    -- Open the log at `path` and run a worker on it under `name`.
    unfoldable pub start_db :
        ℕ → Bytes → Bytes → Map Running → Map File → Result (Map Running) × Map File
    start_db fsync_interval path name dbs files = run fsync_interval name dbs (open_wal path files)

    unfoldable pub spawn_db_worker :
        Bytes → ℕ → Map Running → Map File → Result (Map Running) × Map File
    spawn_db_worker name fsync_interval dbs files =
        start_db fsync_interval (log_path name) name dbs files

    abbrev pub has_metadata : Bytes → Option File → Bool
    has_metadata path none = false
    has_metadata path (some f) = metadata path f

    -- The body of the loop of `init` over the directory's entries.
    unfoldable pub index_entry :
        ℕ → Bytes → Map Running → Map File → Result (Map Running) × Map File
    index_entry fsync_interval entry dbs files =
        let (file_stem, extension) = file_parts entry in
        if is_log extension
        then (if is_utf8 file_stem
            then (if has_metadata entry (get entry files)
                then start_db fsync_interval entry file_stem dbs files
                else (err metadata_failed, files))
            else (err bad_file_name, files))
        else (ok dbs, files)

    unfoldable pub index_entries :
        ℕ → List Bytes → Map Running → Map File → Result (Map Running) × Map File
    index_entries fsync_interval [] dbs files =
        if next_entry [] then (ok dbs, files) else (err dir_failed, files)
    index_entries fsync_interval (entry ∷ entries) dbs files = elim (next_entry (entry ∷ entries)) [
      | false ↦ (err dir_failed, files)
      | true ↦ elim (index_entry fsync_interval entry dbs files).0 [
        | err e ↦ (err e, (index_entry fsync_interval entry dbs files).1)
        | ok dbs' ↦
            index_entries fsync_interval entries dbs' (index_entry fsync_interval entry dbs files).1
      ]
    ]

    -- The last part of `init`: the default database, if no log was its.
    unfoldable pub with_default : ℕ → Map Running → Map File → Result (Map Running) × Map File
    with_default fsync_interval dbs files =
        if contains_key default_db_name dbs
        then (ok dbs, files)
        else spawn_db_worker default_db_name fsync_interval dbs files

    abbrev pub then_default : ℕ → Result (Map Running) × Map File → Result (Map Running) × Map File
    then_default fsync_interval (err e, files) = (err e, files)
    then_default fsync_interval (ok dbs, files) = with_default fsync_interval dbs files

    -- `Ok(Self { … })`
    abbrev pub made : ℕ → ℕ → Result (Map Running) × Map File → Result DbManager × Map File
    made fsync_interval max_queue_size (err e, files) = (err e, files)
    made fsync_interval max_queue_size (ok dbs, files) = (
      ok (record {
        fsync_interval = fsync_interval;
        max_queue_size = max_queue_size;
        db_map = dbs;
        directory = files;
      }),
      files,
    )

    -- `init` on the files of its directory, with those that no worker has open after it.
    unfoldable pub init : ℕ → ℕ → Map File → Result DbManager × Map File
    init fsync_interval max_queue_size files =
        if create_dir_all && read_dir
        then made fsync_interval max_queue_size
            (then_default fsync_interval (index_entries fsync_interval (names files) [] files))
        else (err dir_failed, files)

    abbrev pub created : DbManager → Result (Map Running) × Map File → Result Response × DbManager
    created m (err e, files) = (err e, record m { directory = files })
    created m (ok dbs, files) = (
      ok (okay (codes "Database created successfully")),
      record m { db_map = dbs; directory = files },
    )

    unfoldable pub create_db : Bytes → DbManager → Result Response × DbManager
    create_db name m =
        if contains_key name m.db_map
        then (ok (db_already_exists (codes "Database already exists")), m)
        else created m (spawn_db_worker name m.fsync_interval m.db_map m.directory)

    -- The entry leaves the map first; the worker ends, and then its file is removed.
    unfoldable pub drop_db : Bytes → DbManager → Result Response × DbManager
    drop_db name m =
        if bytes_eq name default_db_name
        then (ok (invalid_request (codes "Cannot drop the default database")), m)
        else (elim (get name m.db_map) [
          | none ↦ (err (db_missing name), m)
          | some r ↦
              let m' = record m { db_map = remove name m.db_map } in
              if remove_file (log_path name) (close r)
              then (ok (okay (codes "Database dropped successfully")), m')
              else (
                err remove_failed,
                record m' { directory = insert (log_path name) (close r) m.directory },
              )
        ])

  unfoldable pub get_db_handle : Bytes → DbManager → Lookup Bytes
  get_db_handle name m = elim (get name m.db_map) [
    | some r ↦ found name
    | none ↦ missing (db_not_found (codes "Database not found"))
  ]

  unfoldable pub db_exists : Bytes → DbManager → Bool
  db_exists name m = contains_key name m.db_map

  unfoldable pub db_count : DbManager → ℕ
  db_count m = length m.db_map

  unfoldable pub shutdown_all_workers : DbManager → DbManager
  shutdown_all_workers m = record m { db_map = []; directory = close_all m.db_map m.directory }

  -- A query on the queue of a worker: one round of its loop, or a closed queue.
  unfoldable pub ask : Bytes → Query → DbManager → Asked × DbManager
  ask name query m = elim (get name m.db_map) [
    | none ↦ (refused, m)
    | some r ↦
        let (reply, writes, w) =
          handle_query (max r.worker.fsync_interval 1) query r.writes_executed r.worker in
        (
          answered (some reply),
          record m {
            db_map = insert name (record { worker = w; writes_executed = writes }) m.db_map;
          },
        )
  ]

  -- What the connections of the server use.
  abbrev pub manager : Folder disk → Manager
  manager folder = record {
    State = DbManager;
    Handle = Bytes;
    db_count = db_count;
    create_db = create_db ⦃folder = folder⦄;
    drop_db = drop_db ⦃folder = folder⦄;
    get_db_handle = get_db_handle;
    ask = ask;
    shutdown_all_workers = shutdown_all_workers;
  }
