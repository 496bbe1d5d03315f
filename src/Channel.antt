-- ===== src/Channel.antt =====
-- The queue of a database, `mpsc::channel(max_queue_size)`, step by step: connections that take the
-- sender, send a query and wait for the reply (bin/main.rs), the loop of the worker (worker.rs), and
-- the end of the worker once `drop_db` or `shutdown_all_workers` (manager.rs) has dropped the main
-- sender. A oneshot channel is a number, which the query carries and its connection keeps. The main
-- sender stands for the clones in the maps of databases: the one that `drop_db` drops itself, and
-- those of the maps before, which go as soon as no `load` holds them. The worker takes a query off the
-- queue and answers it in one step, since nothing else of it can be seen in between.
pub mod Sequence
pub mod Served
pub mod Serves
pub mod Ends
pub mod Histories
use mini_db.Prelude.{
  ℕ, suc, ◌+◌, ◌<◌, ◌≡◌, Bool, true, false, List, [], ◌∷◌, ◌++◌, length, max, ◌==◌, if◌then◌else◌,
}
use mini_db.Result.{Result}
use mini_db.Crc.{Crc32}
use mini_db.Storage.{Storage}
use mini_db.Protocol.{Response}
use mini_db.Worker.{Query, handle_query}
use mini_db.Manager.{Running, close}

-- A connection with a clone of the sender: before `send`, behind it, and once it has its reply, while
-- this goes out to the client.
pub data Holder : Type 0 where
  holding : Query → Holder
  waiting : ℕ → Query → Holder
  replying : ℕ → Query → Result Response → Holder

-- `tx.send(reply)` for the oneshot channel `n`.
abbrev pub deliver : ℕ → Result Response → Holder → Holder
deliver n reply (waiting m q) = if n == m then replying m q reply else waiting m q
deliver n reply h = h

abbrev pub deliver_all : ℕ → Result Response → List Holder → List Holder
deliver_all n reply [] = []
deliver_all n reply (h ∷ holders) = deliver n reply h ∷ deliver_all n reply holders

module _ ⦃crc : Crc32⦄ ⦃disk : Storage⦄ where
  open disk use {File}

  -- The worker's task: in its loop, or at its end with the file it has closed.
  pub data Task : Type 0 where
    looping : Running → Task
    ended : File → Task

  pub record Channel : Type 0 where
    pub main_sender : Bool
    pub holders : List Holder
    pub queue : List (ℕ × Query)
    pub next_oneshot : ℕ
    pub task : Task

  -- A worker that was just spawned.
  abbrev pub opened : Running → Channel
  opened r = record {
    main_sender = true;
    holders = [];
    queue = [];
    next_oneshot = 0;
    task = looping r;
  }

  -- One round of the loop of `execute_queries`.
  unfoldable pub serve : Query → Running → Result Response × Running
  serve q r =
      let (reply, writes, w) =
        handle_query (max r.worker.fsync_interval 1) q r.writes_executed r.worker in
      (reply, record { worker = w; writes_executed = writes })

  -- `get_db_handle`
  unfoldable pub take_handle : Query → Channel → Channel
  take_handle q c = record c { holders = holding q ∷ c.holders }

  -- `send`, of the connection between `before` and `behind`.
  unfoldable pub send : List Holder → Query → List Holder → Channel → Channel
  send before q behind c = record c {
    holders = before ++ waiting c.next_oneshot q ∷ behind;
    queue = c.queue ++ (c.next_oneshot, q) ∷ [];
    next_oneshot = c.next_oneshot + 1;
  }

  -- The worker takes the first query, and `rest` is left.
  unfoldable pub answer : ℕ → Query → List (ℕ × Query) → Running → Channel → Channel
  answer n q rest r c =
      let (reply, r') = serve q r in
      record c { holders = deliver_all n reply c.holders; queue = rest; task = looping r' }

  -- The end of the operation, behind the response: the connection's clone is dropped.
  unfoldable pub let_go : List Holder → List Holder → Channel → Channel
  let_go before behind c = record c { holders = before ++ behind }

  -- `drop(handle.worker_handle)`, behind the store of the map without it.
  unfoldable pub drop_sender : Channel → Channel
  drop_sender c = record c { main_sender = false }

  -- `recv` has returned `None`: the last fsync, and `notify_one`.
  unfoldable pub finish : Running → Channel → Channel
  finish r c = record c { task = ended (close r) }

  -- A step, with the queries that it sends and the replies that it gives.
  pub data Step (max_queue_size : ℕ) (c : Channel)
      : List Query → List (Result Response) → Channel → Type 0 where
    takes : (q : Query) → c.main_sender ≡ true → Step max_queue_size c [] [] (take_handle q c)
    sends :
        (before : List Holder) (q : Query) (behind : List Holder)
        → c.holders ≡ before ++ holding q ∷ behind
        → length c.queue < max_queue_size
        → Step max_queue_size c (q ∷ []) [] (send before q behind c)
    answers :
        (n : ℕ) (q : Query) (rest : List (ℕ × Query)) (r : Running)
        → c.queue ≡ (n, q) ∷ rest
        → c.task ≡ looping r
        → Step max_queue_size c [] ((serve q r).0 ∷ []) (answer n q rest r c)
    lets_go :
        (before behind : List Holder) (n : ℕ) (q : Query) (reply : Result Response)
        → c.holders ≡ before ++ replying n q reply ∷ behind
        → Step max_queue_size c [] [] (let_go before behind c)
    drops : c.main_sender ≡ true → Step max_queue_size c [] [] (drop_sender c)
    finishes :
        (r : Running)
        → c.main_sender ≡ false
        → c.holders ≡ []
        → c.queue ≡ []
        → c.task ≡ looping r
        → Step max_queue_size c [] [] (finish r c)

  -- A number of steps from `s`, with all queries sent and all replies given, in order.
  pub data Steps (max_queue_size : ℕ) (s : Channel)
      : ℕ → List Query → List (Result Response) → Channel → Type 0 where
    here : Steps max_queue_size s 0 [] [] s
    then_step :
        {n : ℕ} {qs qs' : List Query} {rs rs' : List (Result Response)} {c d : Channel}
        → Steps max_queue_size s n qs rs c
        → Step max_queue_size c qs' rs' d
        → Steps max_queue_size s (suc n) (qs ++ qs') (rs ++ rs') d
