-- ===== src/Manager/Starts.antt =====
-- Opening the log of a database and running its worker, on a disk that works.
use mini_db.Prelude.{ℕ, ◌≡◌, refl, Option, some, List, [], All}
use mini_db.Bytes.{Bytes}
use mini_db.Result.{Result, ok}
use mini_db.Crc.{Crc32}
use mini_db.Storage.{Storage, CanRecover}
use mini_db.Map.{Map, get, insert, remove}
use mini_db.Wal.{Wal}
use mini_db.Wal.History.{Write, IsLoggable, replay, encode_all}
use mini_db.Wal.Init.Recovery.{Recovers, init-encode_all}
use mini_db.Wal.Synced.{IsSynced}
use mini_db.Worker
use mini_db.Worker.Refines.{InStep}
use mini_db.Manager.Directory.{Folder}
use mini_db.Manager.{Running, spawn, open_wal, start_db}

module _ ⦃crc : Crc32⦄ ⦃disk : Storage⦄ ⦃folder : Folder disk⦄ (recovers : CanRecover disk) where
  -- A worker that starts with the log and the index of `ws`.
  abbrev pub Started : Bytes → List Write → Map Running → Result (Map Running) → Type 0
  Started name ws dbs outcome =
      (r : Running) × (outcome ≡ ok (insert name r dbs)) × InStep ws r.worker

  open_wal-Recovers :
      (path : Bytes) (files : Map disk.File) (o : Option disk.File) (f : disk.File)
      (ws : List Write)
      → get path files ≡ o
      → folder.open_file path o ≡ some f
      → Recovers path f ws
      → (w : Wal) × (open_wal path files ≡ (ok (w, replay ws []), remove path files))
        × IsSynced ws w
  unfolding open_wal
  open_wal-Recovers path files o f ws e opened (w, started, synced) =
      (w, rw (open_wal, e, opened, started) refl, synced)

  -- Where a file is there with the entries of loggable writes, or none is there and there are no
  -- writes, the worker starts with these writes, and the file is its own.
  pub start_db-opened :
      (interval : ℕ) (path name : Bytes) (dbs : Map Running) (files : Map disk.File)
      (o : Option disk.File) (f : disk.File) (ws : List Write)
      → get path files ≡ o
      → folder.open_file path o ≡ some f
      → All IsLoggable ws
      → disk.contents f ≡ encode_all ws
      → Started name ws dbs (start_db interval path name dbs files).0
        × ((start_db interval path name dbs files).1 ≡ remove path files)
  unfolding start_db spawn Worker.init
  start_db-opened interval path name dbs files o f ws e opened l contents =
      let (w, started, synced) =
        open_wal-Recovers path files o f ws e opened
          (init-encode_all recovers path f ws l contents) in
      rw (start_db, started)
        ((spawn interval w (replay ws []), refl, record { synced = synced; indexed = refl }), refl)
