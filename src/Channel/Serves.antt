-- ===== src/Channel/Serves.antt =====
-- In whatever order connections and worker take turns: the queries are answered in the order in which
-- they were sent, each connection with the reply to its own.
use mini_db.Prelude.{
  ℕ, ◌+◌, ◌<◌, ◌≤◌, ◌≡◌, refl, sym, ap, ◌∙◌, true, false, List, [], ◌∷◌, ◌++◌, length,
  length-append, get_elem?, get_elem?-snoc, All, append-nil, append_assoc, arith,
}
use mathlib.Core.Path.{subst}
use mini_db.Result.{Result}
use mini_db.Crc.{Crc32}
use mini_db.Storage.{Storage}
use mini_db.Protocol.{Response}
use mini_db.Worker.{Query}
use mini_db.Manager.{Running, close}
use mini_db.Channel.{
  Holder, holding, waiting, replying, Task, looping, ended, Channel, opened, serve, take_handle,
  send, answer, let_go, drop_sender, finish, Step, takes, sends, answers, lets_go, drops, finishes,
  Steps, here, then_step,
}
use mini_db.Channel.Sequence.{serve_all, serve_all-snoc, length-serve_all}
use mini_db.Channel.Served.{
  numbered, numbered-snoc, IsServed, IsServed-longer, deliver_all-IsServed, All-without, All-swap,
  someone, first, nothing,
}

module _ ⦃crc : Crc32⦄ ⦃disk : Storage⦄ (max_queue_size : ℕ) (r : Running) where
  -- The worker has answered `done`, and has ended only with nothing left.
  abbrev pub TaskAfter : List Query → List Query → Channel → Task → Type 0
  TaskAfter done pending c (looping r') = r' ≡ (serve_all done r).1
  TaskAfter done pending c (ended f) =
      (f ≡ close (serve_all done r).1) × (pending ≡ []) × (c.holders ≡ []) × (c.main_sender ≡ false)

  -- The queries sent are those answered, in order, and those in the queue.
  pub record Serves (c : Channel) (qs : List Query) (rs : List (Result Response)) : Type 0 where
    pub done : List Query
    pub pending : List Query
    pub all_sent : qs ≡ done ++ pending
    pub queued : c.queue ≡ numbered (length done) pending
    pub replies : rs ≡ (serve_all done r).0
    pub numbers : c.next_oneshot ≡ length qs
    pub served : All (IsServed qs rs) c.holders
    pub task_after : TaskAfter done pending c c.task
    pub bounded : length c.queue ≤ max_queue_size

  pub replied :
      (c : Channel) (qs : List Query) (rs : List (Result Response)) (s : Serves c qs rs)
      → length rs ≡ length s.done
  replied c qs rs s = ap length s.replies ∙ length-serve_all s.done r

  -- A task with a connection, or with the main sender, is in its loop.
  working :
      (c d : Channel) (done pending pending' : List Query) (t : Task)
      → (c.holders ≡ [] → c.main_sender ≡ false → ⊥)
      → TaskAfter done pending c t
      → TaskAfter done pending' d t
  working c d done pending pending' (looping r') busy h = h
  working c d done pending pending' (ended f) busy (_, _, alone, dropped) =
      absurd (busy alone dropped)

  takes-Serves :
      (c : Channel) (qs : List Query) (rs : List (Result Response)) (q : Query)
      → c.main_sender ≡ true
      → Serves c qs rs
      → Serves (take_handle q c) qs rs
  unfolding take_handle
  takes-Serves c qs rs q main s = record {
    done = s.done;
    pending = s.pending;
    all_sent = s.all_sent;
    queued = s.queued;
    replies = s.replies;
    numbers = s.numbers;
    served = (tt, s.served);
    task_after =
        working c (take_handle q c) s.done s.pending s.pending c.task (λ _ off. cc) s.task_after;
    bounded = s.bounded;
  }

  sends-Serves :
      (c : Channel) (qs : List Query) (rs : List (Result Response)) (before behind : List Holder)
      (q : Query)
      → c.holders ≡ before ++ holding q ∷ behind
      → length c.queue < max_queue_size
      → Serves c qs rs
      → Serves (send before q behind c) (qs ++ q ∷ []) rs
  unfolding send
  sends-Serves c qs rs before behind q e room s =
      let numbered_on : c.next_oneshot ≡ length s.done + length s.pending =
        s.numbers ∙ ap length s.all_sent ∙ length-append s.done s.pending in
      record {
        done = s.done;
        pending = s.pending ++ q ∷ [];
        all_sent = ap (λ t. t ++ q ∷ []) s.all_sent ∙ append_assoc s.done s.pending (q ∷ []);
        queued =
            ap (λ t. t ++ (c.next_oneshot, q) ∷ []) s.queued
            ∙ ap (λ k. numbered (length s.done) s.pending ++ (k, q) ∷ []) numbered_on
            ∙ sym (numbered-snoc (length s.done) s.pending q);
        replies = s.replies;
        numbers = ap (λ n. n + 1) s.numbers ∙ sym (length-append qs (q ∷ []));
        served =
            All-swap (qs ++ q ∷ []) rs before (holding q) (waiting c.next_oneshot q) behind
              (
                ap (get_elem? (qs ++ q ∷ [])) s.numbers ∙ get_elem?-snoc qs q,
                omega (arith, replied c qs rs s, numbered_on),
              )
              (subst (All (IsServed (qs ++ q ∷ []) rs)) e
                (IsServed-longer qs rs q c.holders s.served));
        task_after =
            working c (send before q behind c) s.done s.pending (s.pending ++ q ∷ []) c.task
              (λ alone _. someone before (holding q) behind (sym e ∙ alone)) s.task_after;
        bounded = omega (arith, length-append c.queue ((c.next_oneshot, q) ∷ []));
      }

  answers-Serves :
      (c : Channel) (qs : List Query) (rs : List (Result Response)) (n : ℕ) (q : Query)
      (rest : List (ℕ × Query)) (r' : Running)
      → c.queue ≡ (n, q) ∷ rest
      → c.task ≡ looping r'
      → Serves c qs rs
      → Serves (answer n q rest r' c) qs (rs ++ (serve q r').0 ∷ [])
  unfolding answer
  answers-Serves c qs rs n q rest r' e loops s =
      let (pending, is_first, number, others) =
        first (length s.done) s.pending n q rest (sym s.queued ∙ e) in
      let now : r' ≡ (serve_all s.done r).1 =
        subst (TaskAfter s.done s.pending c) loops s.task_after in
      record {
        done = s.done ++ q ∷ [];
        pending = pending;
        all_sent =
            s.all_sent
            ∙ ap (λ t. s.done ++ t) is_first
            ∙ sym (append_assoc s.done (q ∷ []) pending);
        queued = others ∙ ap (λ k. numbered k pending) (sym (length-append s.done (q ∷ [])));
        replies =
            ap (λ t. t ++ (serve q r').0 ∷ []) s.replies
            ∙ ap (λ x. (serve_all s.done r).0 ++ (serve q x).0 ∷ []) now
            ∙ sym (ap (λ x. x.0) (serve_all-snoc s.done q r));
        numbers = s.numbers;
        served =
            deliver_all-IsServed qs rs n (serve q r').0 c.holders (replied c qs rs s ∙ sym number)
              s.served;
        task_after = ap (λ x. (serve q x).1) now ∙ sym (ap (λ x. x.1) (serve_all-snoc s.done q r));
        bounded = omega (arith, ap length e, s.bounded);
      }

  lets_go-Serves :
      (c : Channel) (qs : List Query) (rs : List (Result Response)) (before behind : List Holder)
      (h : Holder)
      → c.holders ≡ before ++ h ∷ behind
      → Serves c qs rs
      → Serves (let_go before behind c) qs rs
  unfolding let_go
  lets_go-Serves c qs rs before behind h e s = record {
    done = s.done;
    pending = s.pending;
    all_sent = s.all_sent;
    queued = s.queued;
    replies = s.replies;
    numbers = s.numbers;
    served = All-without qs rs before h behind (subst (All (IsServed qs rs)) e s.served);
    task_after =
        working c (let_go before behind c) s.done s.pending s.pending c.task
          (λ alone _. someone before h behind (sym e ∙ alone)) s.task_after;
    bounded = s.bounded;
  }

  drops-Serves :
      (c : Channel) (qs : List Query) (rs : List (Result Response))
      → c.main_sender ≡ true
      → Serves c qs rs
      → Serves (drop_sender c) qs rs
  unfolding drop_sender
  drops-Serves c qs rs main s = record {
    done = s.done;
    pending = s.pending;
    all_sent = s.all_sent;
    queued = s.queued;
    replies = s.replies;
    numbers = s.numbers;
    served = s.served;
    task_after =
        working c (drop_sender c) s.done s.pending s.pending c.task (λ _ off. cc) s.task_after;
    bounded = s.bounded;
  }

  finishes-Serves :
      (c : Channel) (qs : List Query) (rs : List (Result Response)) (r' : Running)
      → c.main_sender ≡ false
      → c.holders ≡ []
      → c.queue ≡ []
      → c.task ≡ looping r'
      → Serves c qs rs
      → Serves (finish r' c) qs rs
  unfolding finish
  finishes-Serves c qs rs r' main alone empty loops s = record {
    done = s.done;
    pending = s.pending;
    all_sent = s.all_sent;
    queued = s.queued;
    replies = s.replies;
    numbers = s.numbers;
    served = s.served;
    task_after = (
      ap close (subst (TaskAfter s.done s.pending c) loops s.task_after),
      nothing (length s.done) s.pending (sym s.queued ∙ empty),
      alone,
      main,
    );
    bounded = s.bounded;
  }

  pub step-Serves :
      (c d : Channel) (qs qs' : List Query) (rs rs' : List (Result Response))
      → Step max_queue_size c qs' rs' d
      → Serves c qs rs
      → Serves d (qs ++ qs') (rs ++ rs')
  step-Serves c _ qs _ rs _ (takes q main) s =
      rw (append-nil qs, append-nil rs) (takes-Serves c qs rs q main s)
  step-Serves c _ qs _ rs _ (sends before q behind e room) s =
      rw (append-nil rs) (sends-Serves c qs rs before behind q e room s)
  step-Serves c _ qs _ rs _ (answers n q rest r' e loops) s =
      rw (append-nil qs) (answers-Serves c qs rs n q rest r' e loops s)
  step-Serves c _ qs _ rs _ (lets_go before behind n q reply e) s =
      rw (append-nil qs, append-nil rs)
        (lets_go-Serves c qs rs before behind (replying n q reply) e s)
  step-Serves c _ qs _ rs _ (drops main) s =
      rw (append-nil qs, append-nil rs) (drops-Serves c qs rs main s)
  step-Serves c _ qs _ rs _ (finishes r' main alone empty loops) s =
      rw (append-nil qs, append-nil rs) (finishes-Serves c qs rs r' main alone empty loops s)

  opened-Serves : Serves (opened r) [] []
  unfolding serve_all
  opened-Serves = record {
    done = [];
    pending = [];
    all_sent = refl;
    queued = refl;
    replies = refl;
    numbers = refl;
    served = tt;
    task_after = refl;
    bounded = omega arith;
  }

  -- In whatever order connections take the sender, send, get their replies and leave, and the worker
  -- answers, at every moment the queries sent are some that are answered and then those in the queue,
  -- in the order of sending; the replies are those of the worker that executes these queries one
  -- after the other, the reply that a connection has is the one to its own query, and the queue is
  -- no longer than `max_queue_size`.
  pub Steps-Serves :
      (n : ℕ) (qs : List Query) (rs : List (Result Response)) (c : Channel)
      → Steps max_queue_size (opened r) n qs rs c
      → Serves c qs rs
  Steps-Serves _ _ _ _ here = opened-Serves
  Steps-Serves _ _ _ _ (then_step {n} {qs} {qs'} {rs} {rs'} {c} {d} steps step) =
      step-Serves c d qs qs' rs rs' step (Steps-Serves n qs rs c steps)
