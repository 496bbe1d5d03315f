-- ===== src/Channel/Sequence.antt =====
-- The worker's rounds one after the other are `execute_queries`.
use mini_db.Prelude.{ℕ, suc, ◌≡◌, refl, ap, List, [], ◌∷◌, ◌++◌, length, max}
use mini_db.Result.{Result}
use mini_db.Crc.{Crc32}
use mini_db.Storage.{Storage}
use mini_db.Protocol.{Response}
use mathlib.Core.Path.{subst}
use mini_db.Wal.{Wal, fsync}
use mini_db.Map.{Map}
use mini_db.Bytes.{Bytes}
use mini_db.Worker.{Query, init, execute_loop, execute_queries}
use mini_db.Worker.Interval.{handle_query-fsync_interval}
use mini_db.Manager.{Running, spawn, close}
use mini_db.Channel.{serve}

module _ ⦃crc : Crc32⦄ ⦃disk : Storage⦄ where
  -- The replies of some rounds, and the worker after them.
  unfoldable pub serve_all : List Query → Running → List (Result Response) × Running
  serve_all [] r = ([], r)
  serve_all (q ∷ qs) r = let rest = serve_all qs (serve q r).1 in ((serve q r).0 ∷ rest.0, rest.1)

  pub serve_all-snoc :
      (qs : List Query) (q : Query) (r : Running)
      → serve_all (qs ++ q ∷ []) r ≡ (
        (serve_all qs r).0 ++ (serve q (serve_all qs r).1).0 ∷ [],
        (serve q (serve_all qs r).1).1,
      )
  unfolding serve_all
  serve_all-snoc [] q r = refl
  serve_all-snoc (x ∷ qs) q r = rw (serve_all-snoc qs q (serve x r).1) refl

  pub length-serve_all : (qs : List Query) (r : Running) → length (serve_all qs r).0 ≡ length qs
  unfolding serve_all
  length-serve_all [] r = refl
  length-serve_all (q ∷ qs) r = ap suc (length-serve_all qs (serve q r).1)

  abbrev Loops : ℕ → List Query → Running → Type 0
  Loops interval qs r =
      ((serve_all qs r).0 ≡ (execute_loop interval qs r.writes_executed r.worker).0)
      × ((serve_all qs r).1.worker ≡ (execute_loop interval qs r.writes_executed r.worker).1)

  serve_all-execute_loop :
      (qs : List Query) (r : Running) → Loops (max r.worker.fsync_interval 1) qs r
  unfolding serve_all serve execute_loop
  serve_all-execute_loop [] r = (refl, refl)
  serve_all-execute_loop (q ∷ qs) r =
      let same =
        ap (λ n. max n 1)
          (handle_query-fsync_interval (max r.worker.fsync_interval 1) q r.writes_executed
            r.worker) in
      let (replies, worker) =
        subst (λ i. Loops i qs (serve q r).1) same (serve_all-execute_loop qs (serve q r).1) in
      (ap (λ rs. (serve q r).0 ∷ rs) replies, worker)

  -- A worker that was just spawned gives the replies of `execute_queries`, and leaves its file.
  pub serve_all-execute_queries :
      (qs : List Query) (fsync_interval : ℕ) (wal : Wal) (memory_index : Map Bytes)
      → let r = spawn fsync_interval wal memory_index in
        ((serve_all qs r).0 ≡ (execute_queries qs r.worker).0)
        × (close (serve_all qs r).1 ≡ (execute_queries qs r.worker).1.wal.file)
  unfolding execute_queries close spawn init
  serve_all-execute_queries qs fsync_interval wal memory_index =
      let (replies, worker) = serve_all-execute_loop qs (spawn fsync_interval wal memory_index) in
      (replies, ap (λ w. (fsync w.wal).1.file) worker)
