-- ===== src/Bench/Measure/Succeeds.antt =====
-- A benchmark against a server that gives the responses which its clients accept.
use mini_db.Prelude.{
  ap, ℕ, zero, suc, ◌+◌, ◌*◌, ◌<◌, ◌≡◌, refl, ◌∙◌, List, [], ◌∷◌, ◌++◌, length, All, arith,
}
use mathlib.Core.List.{map}
use mathlib.Core.List.Permᴰ.{symm}
use mini_db.Prelude.Perms.{All-perm}
use mini_db.Bytes.{Bytes}
use mini_db.Result.{Result, ok}
use mini_db.Stream.{Stream}
use mini_db.Stream.Does.{WritesWork}
use mini_db.Bench.{KeySpace}
use mini_db.Bench.Args.{Args, Workload, read, write, read_overwrite, validate}
use mini_db.Bench.Load.{init, fill_db_server, run}
use mini_db.Bench.Prefill.{Fits, oks, fill_db_server-set_rows}
use mini_db.Bench.Asked.{Operated, IsOperated, draws, samples, all_responses}
use mini_db.Bench.Runs.{outcome-samples, run-all_requests}
use mini_db.Bench.Summary.{Statistics, Totals, Report}
use mini_db.Bench.Summary.Ranked.{IsReport}
use mini_db.Bench.Measure.{
  Ran, drawn, join_all, add_task, add_up, Client, Machine, JoinsAll, prefill, connect_all, share,
  warm, measure, run_clients, main,
}
use mini_db.Bench.Measure.Counts.{IsOk, main-IsReport}

abbrev OkWith : {A : Type 0} → (A → Type 0) → Result A → Type 0
OkWith {A} P r = (a : A) × (r ≡ ok a) × P a

join_all-OkWith :
    {A : Type 0} (P : A → Type 0) (rs : List (Result A))
    → All (OkWith P) rs
    → (xs : List A) × (join_all rs ≡ ok xs) × All P xs
unfolding join_all
join_all-OkWith P [] h = ([], refl, tt)
join_all-OkWith P (r ∷ rs) ((a, e, p), h) =
    let (xs, joined, ps) = join_all-OkWith P rs h in
    (a ∷ xs, rw (join_all, e, joined) refl, (p, ps))

add_up-IsOk :
    (t : Totals) (rs : List (Result Ran)) → All IsOk rs → (u : Totals) × (add_up t rs ≡ ok u)
unfolding add_up
add_up-IsOk t [] h = (t, refl)
add_up-IsOk t (r ∷ rs) ((task, e), h) =
    let (u, added) = add_up-IsOk (add_task t task) rs h in (u, rw (add_up, e) added)

All-map :
    {A B : Type 0} (P : A → Type 0) (Q : B → Type 0) (f : A → B) (xs : List A)
    → ((x : A) → P x → Q (f x))
    → All P xs
    → All Q (map f xs)
All-map P Q f [] h a = tt
All-map P Q f (x ∷ xs) h a = (h x a.0, All-map P Q f xs h a.1)

module _ ⦃net : Stream⦄ (args : Args) where
  open net use {Socket, incoming}

  -- Operations that a client can do: its generator gives their draws, which lie in the key space,
  -- and the responses to them are accepted and come in first.
  pub record CanRun (client : Client) (operations : ℕ) (rest : Bytes) : Type 0 where
    pub os : List Operated
    pub generated : draws os ≡ drawn client.draw 0 operations
    pub operated : All (IsOperated args.workload args.read_percent args.keyspace) os
    pub arrives : incoming client.socket ≡ all_responses os ++ rest

  -- Behind its warm-up, with `rest` to come in.
  abbrev pub Warmed : ℕ × Client → Type 0
  Warmed (id, client) = (rest : Bytes) × CanRun client (share args.operations args id) rest

  -- A client that has the operations of its warm-up, and then those of its run.
  pub record IsReady (id : ℕ) (client : Client) : Type 0 where
    pub rest : Bytes
    pub warmup : CanRun client (share args.warmup args id) rest
    pub run_generated :
        (os : List Operated) × (left : Bytes) × (draws os
          ≡ drawn
              (λ i. client.draw (share args.warmup args id + i))
              0
              (share args.operations args id))
        × All (IsOperated args.workload args.read_percent args.keyspace) os
        × (rest ≡ all_responses os ++ left)

  connect_all-IsReady :
      (machine : Machine) (id n : ℕ)
      → ((i : ℕ) → i < id + n → OkWith (IsReady i) (machine.connect i))
      → OkWith (All (λ c. IsReady c.0 c.1)) (connect_all machine id n)
  unfolding connect_all
  connect_all-IsReady machine id zero h = ([], refl, tt)
  connect_all-IsReady machine id (suc n) h =
      let (client, connected, ready) = h id (omega arith) in
      let (others, connects, all_ready) =
        connect_all-IsReady machine (id + 1) n (λ i lt. h i (omega (arith, lt))) in
      ((id, client) ∷ others, rw (connect_all, connected, connects) refl, (ready, all_ready))

  module _ (space : KeySpace) (writes : WritesWork)
      (has_keys : length space.keys ≡ args.keyspace * space.key_size)
      (has_values : length space.values ≡ args.keyspace * space.value_size) where
    CanRun-run :
        (client : Client) (operations : ℕ) (rest : Bytes) (h : CanRun client operations rest)
        → let done =
            run space args.db_name args.workload args.read_percent
              (drawn client.draw 0 operations)
              client.socket in
          (done.0 ≡ ok (samples h.os)) × (incoming done.1 ≡ rest)
    CanRun-run client operations rest h =
        let (came, none_left, made) =
          outcome-samples args.workload args.read_percent args.keyspace h.os h.operated in
        let done =
          run-all_requests space args.db_name args.workload args.read_percent writes args.keyspace
            has_keys has_values h.os client.socket rest made h.arrives in
        rw (← h.generated) (done.result_is ∙ came, done.leaves ∙ ap (λ b. b ++ rest) none_left)

    warm-Warmed : (c : ℕ × Client) → IsReady c.0 c.1 → OkWith Warmed (warm args space c)
    unfolding warm
    warm-Warmed (id, client) h =
        let (result, left) = CanRun-run client (share args.warmup args id) h.rest h.warmup in
        let (os, more, generated, operated, comes) = h.run_generated in
        (
          (id, _),
          rw (warm, result) refl,
          (
            more,
            record { os = os; generated = generated; operated = operated; arrives = left ∙ comes },
          ),
        )

    measure-IsOk :
        (machine : Machine) (c : ℕ × Client) → Warmed c → IsOk (measure machine args space c)
    unfolding measure
    measure-IsOk machine (id, client) (rest, h) =
        let (result, _) = CanRun-run client (share args.operations args id) rest h in
        (
          record {
            operations = share args.operations args id;
            task_lat = samples h.os;
            client_finished = machine.finished_at id;
          },
          rw (measure, result) refl,
        )

  -- A server that takes the filling of the database, and whose responses the clients accept.
  pub record Friendly (machine : Machine) : Type 0 where
    pub payloads : List Bytes
    pub filler : Socket
    pub filler_rest : Bytes
    pub fills : machine.connect_filler ≡ ok filler
    pub one_each : length payloads ≡ args.keyspace
    pub payloads_fit : All Fits payloads
    pub answered : incoming filler ≡ oks payloads ++ filler_rest
    pub clients_ready :
        (id : ℕ)
        → id < args.clients
        → (client : Client) × (machine.connect id ≡ ok client) × IsReady id client
    pub length-fill_keys : (n : ℕ) → length (machine.fill_keys n) ≡ n
    pub length-fill_values : (n : ℕ) → length (machine.fill_values n) ≡ n

  filled :
      (machine : Machine)
      → WritesWork
      → validate args ≡ ok tt
      → (f : Friendly machine)
      → let space =
          init machine.fill_keys machine.fill_values args.keyspace args.key_size args.value_size in
        (fill_db_server args.db_name space f.filler).0 ≡ ok tt
  filled machine writes valid f =
      (fill_db_server-set_rows writes args machine.fill_keys machine.fill_values f.payloads f.filler
        f.filler_rest valid f.length-fill_keys f.length-fill_values f.one_each f.payloads_fit
        f.answered).0

  prefills :
      (machine : Machine)
      → WritesWork
      → validate args ≡ ok tt
      → Friendly machine
      → let space =
          init machine.fill_keys machine.fill_values args.keyspace args.key_size args.value_size in
        (workload : Workload) → prefill machine args space workload ≡ ok tt
  unfolding prefill
  prefills machine writes valid f write = refl
  prefills machine writes valid f read = rw (prefill, f.fills) (filled machine writes valid f)
  prefills machine writes valid f read_overwrite =
      rw (prefill, f.fills) (filled machine writes valid f)

  -- Where the arguments pass the check, every write succeeds, the tasks of a JoinSet are all joined,
  -- in whatever order, and the server takes the filling and gives each client responses that it
  -- accepts: the benchmark runs to its end, without an error or a panic, and gives the report of as
  -- many operations as are asked for.
  pub main-Friendly :
      ⦃statistics : Statistics⦄ (machine : Machine)
      → WritesWork
      → JoinsAll machine
      → validate args ≡ ok tt
      → Friendly machine
      → (t : Totals) × (r : Report) × (run_clients machine args ≡ ok t)
        × (main machine args ≡ ok r)
        × (r.completed ≡ args.operations)
        × IsReport machine.started t r
  unfolding run_clients init
  main-Friendly machine writes joins valid f =
      let space =
        init machine.fill_keys machine.fill_values args.keyspace args.key_size args.value_size in
      let has_keys = f.length-fill_keys (args.keyspace * args.key_size) in
      let has_values = f.length-fill_values (args.keyspace * args.value_size) in
      let (clients, connected, ready) =
        connect_all-IsReady machine 0 args.clients
          (λ i lt. f.clients_ready i (omega (arith, lt))) in
      let warmed = map (warm args space) clients in
      let warmed_ok = All-perm (OkWith Warmed) (symm (joins.warm_order-perm warmed)) (
        All-map (λ c. IsReady c.0 c.1) (OkWith Warmed) (warm args space) clients
          (warm-Warmed space writes has_keys has_values) ready) in
      let (ready_clients, joined, all_warmed) =
        join_all-OkWith Warmed (machine.warm_order warmed) warmed_ok in
      let tasks = map (measure machine args space) ready_clients in
      let tasks_ok = All-perm IsOk (symm (joins.order-perm tasks)) (
        All-map Warmed IsOk (measure machine args space) ready_clients
          (measure-IsOk space writes has_keys has_values machine) all_warmed) in
      let (t, added) =
        add_up-IsOk (record { completed = 0; finished = machine.started; lat_ns = [] })
          (machine.order tasks) tasks_ok in
      let run : run_clients machine args ≡ ok t =
        rw (run_clients, valid, prefills machine writes valid f args.workload, connected, joined)
          added in
      let (r, done, completed, _, is_report) = main-IsReport machine args t joins run in
      (t, r, run, done, completed, is_report)
