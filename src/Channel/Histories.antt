-- ===== src/Channel/Histories.antt =====
-- The queue of a database against the history of its writes.
use mini_db.Prelude.{
  ℕ, ◌≡◌, refl, sym, ap, ◌∙◌, List, [], ◌∷◌, ◌++◌, append_assoc, All, All-split, true,
}
use mathlib.Core.Path.{subst}
use mini_db.Bytes.{Bytes}
use mini_db.Result.{Result}
use mini_db.Crc.{Crc32}
use mini_db.Storage.{Storage, CanWrite}
use mini_db.Map.{Map}
use mini_db.Protocol.{Response}
use mini_db.Wal.{Wal}
use mini_db.Wal.History.{Write, IsLoggable}
use mini_db.Worker.{Query}
use mini_db.Worker.Spec.{logged, all_logged, replies_after}
use mini_db.Worker.Refines.{InStep, execute_queries-refines}
use mini_db.Manager.{spawn}
use mini_db.Channel.{Channel, opened, Steps}
use mini_db.Channel.Sequence.{serve_all-execute_queries}
use mini_db.Channel.Served.{IsServed}
use mini_db.Channel.Serves.{Steps-Serves}

all_logged-append : (qs ps : List Query) → all_logged (qs ++ ps) ≡ all_logged qs ++ all_logged ps
all_logged-append [] ps = refl
all_logged-append (q ∷ qs) ps =
    ap (λ ws. logged q ++ ws) (all_logged-append qs ps)
    ∙ sym (append_assoc (logged q) (all_logged qs) (all_logged ps))

module _ ⦃crc : Crc32⦄ ⦃disk : Storage⦄ where
  -- The replies that connections have are those of the history, in the order of sending.
  pub record Linearized (ws : List Write) (c : Channel) (qs : List Query)
      (rs : List (Result Response)) : Type 0 where
    pub done : List Query
    pub pending : List Query
    pub all_sent : qs ≡ done ++ pending
    pub replies : rs ≡ replies_after ws done
    pub served : All (IsServed qs rs) c.holders

  -- On a disk that works, a worker that is spawned in step with a history of writes, and whose
  -- queries log writes that are loggable: in whatever order connections and worker take turns, the
  -- replies given are those that the history and the writes of the queries sent earlier determine,
  -- and every connection that has a reply has the one to its own query.
  pub Steps-Linearized :
      (writes : CanWrite disk) (max_queue_size fsync_interval : ℕ) (wal : Wal)
      (memory_index : Map Bytes) (ws : List Write) (n : ℕ) (qs : List Query)
      (rs : List (Result Response)) (c : Channel)
      → ((f : disk.File) → (disk.sync_all f).0 ≡ true)
      → All IsLoggable (all_logged qs)
      → InStep ws (spawn fsync_interval wal memory_index).worker
      → Steps max_queue_size (opened (spawn fsync_interval wal memory_index)) n qs rs c
      → Linearized ws c qs rs
  Steps-Linearized writes max_queue_size fsync_interval wal memory_index ws n qs rs c syncs loggable
        in_step steps =
      let r = spawn fsync_interval wal memory_index in
      let s = Steps-Serves max_queue_size r n qs rs c steps in
      let logs = All-split IsLoggable (all_logged s.done) (all_logged s.pending) (
        subst (All IsLoggable) (ap all_logged s.all_sent ∙ all_logged-append s.done s.pending)
          loggable) in
      let (executed, _) = serve_all-execute_queries s.done fsync_interval wal memory_index in
      let (refined, _) = execute_queries-refines writes syncs s.done ws r.worker logs.0 in_step in
      record {
        done = s.done;
        pending = s.pending;
        all_sent = s.all_sent;
        replies = s.replies ∙ executed ∙ refined;
        served = s.served;
      }
