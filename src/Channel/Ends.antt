-- ===== src/Channel/Ends.antt =====
-- `worker_exit.notified().await` of `drop_db` and `shutdown_all_workers`: when the worker has ended,
-- and that it does.
use mini_db.Prelude.{
  ℕ, zero, suc, ◌+◌, ◌<◌, ◌≤◌, ◌≡◌, refl, sym, ap, ◌∙◌, ◌⊎◌, inl, inr, false, some, List, [], ◌∷◌,
  ◌++◌, append-nil, length, length-append, get_elem?, All, arith,
}
use mathlib.Core.Path.{subst}
use mini_db.Result.{Result}
use mini_db.Crc.{Crc32}
use mini_db.Storage.{Storage}
use mini_db.Protocol.{Response}
use mini_db.Wal.{Wal}
use mini_db.Map.{Map}
use mini_db.Bytes.{Bytes}
use mini_db.Worker.{Query, execute_queries}
use mini_db.Manager.{Running, spawn, close}
use mini_db.Channel.{
  Holder, holding, waiting, replying, deliver, deliver_all, Task, looping, ended, Channel, opened,
  serve, take_handle, send, answer, let_go, drop_sender, finish, Step, takes, sends, answers,
  lets_go, drops, finishes, Steps,
}
use mini_db.Channel.Served.{IsServed, nothing, numbered}
use mini_db.Channel.Sequence.{serve_all, serve_all-execute_queries}
use mini_db.Channel.Serves.{Serves, TaskAfter, Steps-Serves, step-Serves, replied}

-- What a connection and its query still take.
abbrev load : Holder → ℕ
load (holding q) = 3
load (waiting n q) = 1
load (replying n q reply) = 1

abbrev loads : List Holder → ℕ
loads [] = 0
loads (h ∷ hs) = load h + loads hs

loads-append : (hs ks : List Holder) → loads (hs ++ ks) ≡ loads hs + loads ks
loads-append [] ks = omega arith
loads-append (h ∷ hs) ks = omega (arith, loads-append hs ks)

load-deliver : (n : ℕ) (reply : Result Response) (h : Holder) → load (deliver n reply h) ≡ load h
load-deliver n reply (holding q) = refl
load-deliver n reply (waiting m q) = ground arith
load-deliver n reply (replying m q x) = refl

loads-deliver_all :
    (n : ℕ) (reply : Result Response) (hs : List Holder) → loads (deliver_all n reply hs) ≡ loads hs
loads-deliver_all n reply [] = refl
loads-deliver_all n reply (h ∷ hs) =
    omega (arith, load-deliver n reply h, loads-deliver_all n reply hs)

nothing_there : (qs : List Query) (n : ℕ) (q : Query) → length qs ≤ n → get_elem? qs n ≡ some q → ⊥
nothing_there [] n q short there = cc
nothing_there (x ∷ qs) zero q short there = absurd (omega (arith, short))
nothing_there (x ∷ qs) (suc n) q short there = nothing_there qs n q (omega (arith, short)) there

module _ ⦃crc : Crc32⦄ ⦃disk : Storage⦄ where
  open disk use {File}

  -- Once the worker of a database has ended, no connection has a sender left, the queue is empty,
  -- every query that was sent has its reply, the replies are those of `execute_queries` on all
  -- queries sent, and the file is the one that it leaves.
  pub Steps-ended :
      (max_queue_size fsync_interval : ℕ) (wal : Wal) (memory_index : Map Bytes) (n : ℕ)
      (qs : List Query) (rs : List (Result Response)) (c : Channel) (f : File)
      → Steps max_queue_size (opened (spawn fsync_interval wal memory_index)) n qs rs c
      → c.task ≡ ended f
      → let executed = execute_queries qs (spawn fsync_interval wal memory_index).worker in
        (c.main_sender ≡ false)
        × (c.holders ≡ [])
        × (c.queue ≡ [])
        × (length rs ≡ length qs)
        × (rs ≡ executed.0)
        × (f ≡ executed.1.wal.file)
  Steps-ended max_queue_size fsync_interval wal memory_index n qs rs c f steps over =
      let r = spawn fsync_interval wal memory_index in
      let s = Steps-Serves max_queue_size r n qs rs c steps in
      let (file, none_left, alone, dropped) =
        subst (TaskAfter max_queue_size r s.done s.pending c) over s.task_after in
      let all_done : s.done ≡ qs =
        sym (s.all_sent ∙ ap (λ t. s.done ++ t) none_left ∙ append-nil s.done) in
      let (replies, left) = serve_all-execute_queries qs fsync_interval wal memory_index in
      (
        dropped,
        alone,
        s.queued ∙ ap (numbered (length s.done)) none_left,
        replied max_queue_size r c qs rs s ∙ ap length all_done,
        s.replies ∙ ap (λ t. (serve_all t r).0) all_done ∙ replies,
        file ∙ ap (λ t. close (serve_all t r).1) all_done ∙ left,
      )

  -- Whatever steps are taken, there are some left to take until the worker has ended, and that is
  -- after finitely many.
  pub data Ends (max_queue_size : ℕ) : Channel → Type 0 where
    at_end : (c : Channel) (f : File) → c.task ≡ ended f → Ends max_queue_size c
    goes_on :
        (c d : Channel) (qs : List Query) (rs : List (Result Response))
        → Step max_queue_size c qs rs d
        → ((qs' : List Query) (rs' : List (Result Response)) (d' : Channel)
            → Step max_queue_size c qs' rs' d'
            → Ends max_queue_size d')
        → Ends max_queue_size c

  abbrev task_load : Task → ℕ
  task_load (looping r) = 1
  task_load (ended f) = 0

  abbrev work : Channel → ℕ
  work c = loads c.holders + length c.queue + task_load c.task

  step-work :
      (max_queue_size : ℕ) (c d : Channel) (qs : List Query) (rs : List (Result Response))
      → Step max_queue_size c qs rs d
      → c.main_sender ≡ false
      → (d.main_sender ≡ false) × (work c ≡ suc (work d))
  unfolding take_handle send answer let_go drop_sender finish
  step-work max_queue_size c _ _ _ (takes q main) off = cc
  step-work max_queue_size c _ _ _ (sends before q behind e room) off = (
    off,
    omega (
      arith,
      ap loads e,
      loads-append before (holding q ∷ behind),
      loads-append before (waiting c.next_oneshot q ∷ behind),
      length-append c.queue ((c.next_oneshot, q) ∷ []),
    ),
  )
  step-work max_queue_size c _ _ _ (answers n q rest r' e loops) off = (
    off,
    omega (arith, ap length e, ap task_load loops, loads-deliver_all n (serve q r').0 c.holders),
  )
  step-work max_queue_size c _ _ _ (lets_go before behind n q reply e) off = (
    off,
    omega (
      arith,
      ap loads e,
      loads-append before (replying n q reply ∷ behind),
      loads-append before behind,
    ),
  )
  step-work max_queue_size c _ _ _ (drops main) off = cc
  step-work max_queue_size c _ _ _ (finishes r' main alone empty loops) off =
      (off, omega (arith, ap task_load loops))

  abbrev HasStep : ℕ → Channel → Type 0
  HasStep max_queue_size c =
      (qs : List Query) × (rs : List (Result Response)) × (d : Channel) × Step max_queue_size c qs
        rs d

  abbrev HasEnded : Channel → Type 0
  HasEnded c = (f : File) × (c.task ≡ ended f)

  module _ (max_queue_size : ℕ) (r : Running) (room : 0 < max_queue_size) where
    -- With an empty queue, no connection waits for a reply.
    serves_last :
        (c : Channel) (qs : List Query) (rs : List (Result Response)) (hs : List Holder)
        (r' : Running)
        → Serves max_queue_size r c qs rs
        → c.main_sender ≡ false
        → c.queue ≡ []
        → c.holders ≡ hs
        → c.task ≡ looping r'
        → HasStep max_queue_size c
    serves_last c qs rs [] r' s off empty e loops =
        ([], [], finish r' c, finishes r' off e empty loops)
    serves_last c qs rs (holding q ∷ hs) r' s off empty e loops =
        (q ∷ [], [], send [] q hs c, sends [] q hs e (omega (arith, ap length empty)))
    serves_last c qs rs (replying n q reply ∷ hs) r' s off empty e loops =
        ([], [], let_go [] hs c, lets_go [] hs n q reply e)
    serves_last c qs rs (waiting n q ∷ hs) r' s off empty e loops =
        let (sent, later) = (subst (All (IsServed qs rs)) e s.served).0 in
        let none_left = nothing (length s.done) s.pending (sym s.queued ∙ empty) in
        let all_done : qs ≡ s.done =
          s.all_sent ∙ ap (λ t. s.done ++ t) none_left ∙ append-nil s.done in
        absurd (
          nothing_there qs n q
            (omega (arith, ap length all_done, replied max_queue_size r c qs rs s, later)) sent)

    serves_next :
        (c : Channel) (qs : List Query) (rs : List (Result Response)) (k : List (ℕ × Query))
        (t : Task)
        → Serves max_queue_size r c qs rs
        → c.main_sender ≡ false
        → c.queue ≡ k
        → c.task ≡ t
        → HasEnded c ⊎ HasStep max_queue_size c
    serves_next c qs rs k (ended f) s off e over = inl (f, over)
    serves_next c qs rs [] (looping r') s off e loops =
        inr (serves_last c qs rs c.holders r' s off e refl loops)
    serves_next c qs rs ((n, q) ∷ k) (looping r') s off e loops =
        inr ([], (serve q r').0 ∷ [], answer n q k r' c, answers n q k r' e loops)

    serves-Ends :
        (fuel : ℕ) (c : Channel) (qs : List Query) (rs : List (Result Response))
        → work c < fuel
        → c.main_sender ≡ false
        → Serves max_queue_size r c qs rs
        → Ends max_queue_size c
    serves-Ends zero c qs rs enough off s = elim enough [ ]
    serves-Ends (suc fuel) c qs rs enough off s =
        elim (serves_next c qs rs c.queue c.task s off refl refl) [
          | inl (f, over) ↦ at_end c f over
          | inr (qs₁, rs₁, d, step) ↦ goes_on c d qs₁ rs₁ step λ qs' rs' d' step'.
              let (off', less) = step-work max_queue_size c d' qs' rs' step' off in
              serves-Ends fuel d' (qs ++ qs') (rs ++ rs') (omega (arith, less, enough)) off'
                (step-Serves max_queue_size r c d' qs qs' rs rs' step' s)
        ]

    -- When the main sender is dropped, in whatever state the connections, the queue and the worker
    -- are then, the worker ends: a queue that holds at least one query lets every state go on until
    -- the end, and whichever steps are taken, the end comes after finitely many.
    pub Steps-Ends :
        (n : ℕ) (qs : List Query) (rs : List (Result Response)) (c : Channel)
        → Steps max_queue_size (opened r) n qs rs c
        → c.main_sender ≡ false
        → Ends max_queue_size c
    Steps-Ends n qs rs c steps off =
        serves-Ends (suc (work c)) c qs rs (omega arith) off
          (Steps-Serves max_queue_size r n qs rs c steps)
