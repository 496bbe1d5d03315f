-- ===== src/Server/Service/Lives.antt =====
-- The life of a server on a disk that works: the commands of its connections, in the order of their
-- rounds, and the next start.
use mini_db.Prelude.{
  ℕ, ◌≡◌, ◌≢◌, ◌⊎◌, inl, inr, refl, sym, ap, ◌∙◌, ◌<◌, ◌^◌, Option, none, some, List, [], ◌∷◌, ◌++◌,
  append-nil, append_assoc, All, All-append,
}
use mathlib.Core.Path.{subst}
use mini_db.Bytes.{Bytes, bytes_eq_refl}
use mini_db.Result.{Error, ok}
use mini_db.Crc.{Crc32}
use mini_db.Storage.{Storage, CanRecover, CanWrite}
use mini_db.Stream.{Stream}
use mini_db.Server.{Manager}
use mini_db.Server.Service.{
  Phase, accepting, draining, stopped, Service, listening, accept, serve_round, leave,
  stop_accepting, shut_down, Step, accepts, interrupted, serves, leaves, drained, Steps, here, step,
}
use mini_db.Server.Service.Commands.{Possible, command_in, command_in-Possible}
use mini_db.Server.Service.Applied.{applied, handle_request-applied}
use mini_db.Manager.Directory.{Folder, CanManage}
use mini_db.Manager.{DbManager, init, manager, shutdown_all_workers, default_db_name}
use mini_db.Manager.Spec.{Histories, Command, IsPossible, perform, Represents}
use mini_db.Manager.Restart.{init-shutdown_all_workers}
use mini_db.Manager.Lifetime.{
  first, after_all, after_all-HasDefault, replies_to_all, perform_all, perform_all-Represents,
  init-first,
}

abbrev commands_of : Option Command → List Command
commands_of none = []
commands_of (some c) = c ∷ []

stopped_or_not : (p : Phase) → (p ≢ stopped) ⊎ (p ≡ stopped)
stopped_or_not accepting = inl λ e. cc
stopped_or_not draining = inl λ e. cc
stopped_or_not stopped = inr refl

module _ ⦃net : Stream⦄ ⦃crc : Crc32⦄ ⦃disk : Storage⦄ ⦃folder : Folder disk⦄ where
  -- The server runs the databases of the histories, or it has stopped and the next start will.
  abbrev pub Kept : ℕ → ℕ → Service ⦃dbs = manager folder⦄ → Histories → Type 0
  Kept interval queue s h =
      ((s.phase ≢ stopped) × Represents h s.db_manager)
      ⊎ ((s.phase ≡ stopped)
          × (m : DbManager) × (init interval queue s.db_manager.directory ≡ (ok m, []))
          × Represents h m)

module _ ⦃net : Stream⦄ ⦃crc : Crc32⦄ ⦃disk : Storage⦄ ⦃folder : Folder disk⦄
    (display : Error → Bytes) (max_key_size max_value_size : ℕ) where
  open net use {Socket}

  instance abbrev dbs : Manager
  dbs = manager folder

  abbrev pub Runs : ℕ → Service → Service → Type 0
  Runs = Steps display max_key_size max_value_size

  abbrev pub step_commands :
      {s t : Service} → Step display max_key_size max_value_size s t → List Command
  step_commands (serves uptime_hrs before socket behind p e) =
      commands_of (command_in max_key_size max_value_size socket)
  step_commands _ = []

  -- The commands that come in on the sockets, in the order of the rounds.
  abbrev pub commands : {n : ℕ} {s t : Service} → Runs n s t → List Command
  commands here = []
  commands (step one more) = step_commands one ++ commands more

  perform_all-append :
      (cs ds : List Command) (m : DbManager)
      → (perform_all (cs ++ ds) m).1 ≡ (perform_all ds (perform_all cs m).1).1
  unfolding perform_all
  perform_all-append [] ds m = refl
  perform_all-append (c ∷ cs) ds m = perform_all-append cs ds (perform c m).1

  applied-perform_all :
      (o : Option Command) (m : DbManager) → applied o m ≡ (perform_all (commands_of o) m).1
  unfolding perform_all
  applied-perform_all none m = refl
  applied-perform_all (some c) m = refl

  -- A server that runs is behind the commands; one that has stopped, behind the shutdown as well.
  record Behind (m : DbManager) (cs : List Command) (s : Service) : Type 0 where
    pub running : s.phase ≢ stopped → s.db_manager ≡ (perform_all cs m).1
    pub at_rest : s.phase ≡ stopped → s.db_manager ≡ shutdown_all_workers (perform_all cs m).1

  step-Behind :
      (m : DbManager) (cs : List Command) (s t : Service)
      (one : Step display max_key_size max_value_size s t)
      → Behind m cs s
      → Behind m (cs ++ step_commands one) t
  unfolding accept serve_round leave stop_accepting shut_down
  step-Behind m cs s _ (accepts socket p) b =
      rw (append-nil cs) (record { running = b.running; at_rest = b.at_rest })
  step-Behind m cs s _ (interrupted p) b = rw (append-nil cs) (record {
    running = λ _. b.running (λ e. let clash : accepting ≡ stopped = sym p ∙ e in cc);
    at_rest = λ e. cc;
  })
  step-Behind m cs s _ (serves uptime_hrs before socket behind p e) b = record {
    running = λ _.
        handle_request-applied display uptime_hrs s.active_connections max_key_size max_value_size
          socket s.db_manager
        ∙ applied-perform_all (command_in max_key_size max_value_size socket) s.db_manager
        ∙ ap (λ k. (perform_all (commands_of (command_in max_key_size max_value_size socket)) k).1)
            (b.running p)
        ∙ sym
            (perform_all-append cs (commands_of (command_in max_key_size max_value_size socket)) m);
    at_rest = λ at_end. absurd (p at_end);
  }
  step-Behind m cs s _ (leaves before behind r p e) b =
      rw (append-nil cs) (record { running = b.running; at_rest = b.at_rest })
  step-Behind m cs s _ (drained p e) b = rw (append-nil cs) (record {
    running = λ at_end. absurd (at_end refl);
    at_rest = λ _.
        ap shutdown_all_workers (b.running (λ e. let clash : draining ≡ stopped = sym p ∙ e in cc));
  })

  Steps-Behind :
      (m : DbManager) (n : ℕ) (s t : Service) (run : Runs n s t) (cs : List Command)
      → Behind m cs s
      → Behind m (cs ++ commands run) t
  Steps-Behind m _ s _ here cs b = rw (append-nil cs) b
  Steps-Behind m _ s u (step {n} {t = t} one more) cs b =
      subst (λ ds. Behind m ds u) (append_assoc cs (step_commands one) (commands more))
        (Steps-Behind m n t u more (cs ++ step_commands one) (step-Behind m cs s t one b))

  started-Behind : (m : DbManager) → Behind m [] (listening m)
  unfolding perform_all
  started-Behind m = record { running = λ _. refl; at_rest = λ e. cc }

  module _ (small_keys : max_key_size < 2 ^ 32) (small_values : max_value_size < 2 ^ 32) where
    commands_of-Possible : (o : Option Command) → Possible o → All IsPossible (commands_of o)
    commands_of-Possible none h = tt
    commands_of-Possible (some c) h = (h, tt)

    step-Possible :
        (s t : Service) (one : Step display max_key_size max_value_size s t)
        → All IsPossible (step_commands one)
    step-Possible s _ (accepts socket p) = tt
    step-Possible s _ (interrupted p) = tt
    step-Possible s _ (serves uptime_hrs before socket behind p e) =
        commands_of-Possible (command_in max_key_size max_value_size socket)
          (command_in-Possible max_key_size max_value_size small_keys small_values socket)
    step-Possible s _ (leaves before behind r p e) = tt
    step-Possible s _ (drained p e) = tt

    commands-Possible : (n : ℕ) (s t : Service) (run : Runs n s t) → All IsPossible (commands run)
    commands-Possible _ s _ here = tt
    commands-Possible _ s u (step {n} {t = t} one more) =
        All-append IsPossible (step_commands one) (commands more) (step-Possible s t one)
          (commands-Possible n t u more)

    -- On a disk that works, with limits of keys and values below 2^32, and a manager that has started
    -- on an empty directory: in whatever order connections come, are served and end, and whatever
    -- they send, the replies to the commands that have come in, performed in the order of the rounds,
    -- are those of the histories of the databases; until it stops the server runs exactly the
    -- databases of the histories after these commands; and once it has stopped, the next start has
    -- exactly these.
    pub service_keeps_histories :
        (recovers : CanRecover disk) (manages : CanManage disk folder) (writes : CanWrite disk)
        (interval queue n : ℕ) (m : DbManager) (s : Service)
        → init interval queue [] ≡ (ok m, [])
        → (run : Runs n (listening m) s)
        → ((perform_all (commands run) m).0 ≡ replies_to_all (commands run) first)
          × Kept interval queue s (after_all (commands run) first)
    service_keeps_histories recovers manages writes interval queue n m s start run =
        let (m₀, started, rep₀) = init-first recovers manages writes interval queue in
        let same : m₀ ≡ m = cc in
        let rep = subst (Represents first) same rep₀ in
        let behind = Steps-Behind m n (listening m) s run [] (started-Behind m) in
        let (replies, rep') =
          perform_all-Represents recovers manages writes (commands run) first m
            (commands-Possible n (listening m) s run) rep in
        let (ws, d) =
          after_all-HasDefault (commands run) first ([], rw (bytes_eq_refl default_db_name) refl) in
        let (m', restarted, rep'') =
          init-shutdown_all_workers writes recovers manages interval queue
            (after_all (commands run) first) (perform_all (commands run) m).1 ws d rep' in
        elim (stopped_or_not s.phase) [
          | inl runs ↦
              let now = behind.running runs in
              (
                replies,
                inl (runs, subst (Represents (after_all (commands run) first)) (sym now) rep'),
              )
          | inr at_end ↦
              let now = behind.at_rest at_end in
              (
                replies,
                inr (at_end, m', ap (λ k. init interval queue k.directory) now ∙ restarted, rep''),
              )
        ]
