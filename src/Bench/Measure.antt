-- ===== src/Bench/Measure.antt =====
-- `main` of bench/bench.rs: the filling, the connections, the warm-up, the measured run and its report.
-- A client is its socket and what its generator and the clock still give, one value for each
-- operation. The interface Machine has what the program does not decide: the connections, the clock,
-- and the order in which the tasks of a JoinSet end. The barrier, behind which all tasks start, changes no
-- result.
pub mod Counts
pub mod Succeeds
use mini_db.Prelude.{ℕ, zero, suc, ◌+◌, ◌≡◌, max, List, [], ◌∷◌, ◌++◌}
use mathlib.Core.List.{Permᴰ, map}
use mini_db.Bytes.{Bytes}
use mini_db.Result.{Result, ok, err, ◌>>=◌}
use mini_db.Stream.{Stream}
use mini_db.Bench.{KeySpace, share_workload}
use mini_db.Bench.Args.{Args, Workload, read, write, read_overwrite, validate}
use mini_db.Bench.Load.{Draw, init, fill_db_server, run}
use mini_db.Bench.Summary.{Statistics, Totals, Report, summarize}

-- The result of a task of the measured run: its operations, its samples, and the clock at its end.
pub record Ran : Type 0 where
  pub operations : ℕ
  pub task_lat : List ℕ
  pub client_finished : ℕ

-- `drawn draw i n` are `n` draws from the `i`-th on.
abbrev pub drawn : (ℕ → Draw) → ℕ → ℕ → List Draw
drawn draw i zero = []
drawn draw i (suc n) = draw i ∷ drawn draw (i + 1) n

-- The results in the order of the joins, up to the first error.
unfoldable pub join_all {ℓ} : {A : Type ℓ} → List (Result A) → Result (List A)
join_all [] = ok []
join_all (r ∷ rs) = do a ← r; others ← join_all rs; ok (a ∷ others)

-- A task's result, added to the totals.
unfoldable pub add_task : Totals → Ran → Totals
add_task t task = record {
  completed = t.completed + task.operations;
  finished = max t.finished task.client_finished;
  lat_ns = t.lat_ns ++ task.task_lat;
}

unfoldable pub add_up : Totals → List (Result Ran) → Result Totals
add_up t [] = ok t
add_up t (r ∷ rs) = do task ← r; add_up (add_task t task) rs

unfoldable pub share : ℕ → Args → ℕ → ℕ
share work args id = share_workload work args.clients id

module _ ⦃net : Stream⦄ where
  open net use {Socket}

  pub record Client : Type 0 where
    pub socket : Socket
    pub draw : ℕ → Draw

  pub record Machine : Type 0 where
    pub fill_keys : ℕ → Bytes
    pub fill_values : ℕ → Bytes
    pub connect_filler : Result Socket
    pub connect : ℕ → Result Client
    pub warm_order : List (Result (ℕ × Client)) → List (Result (ℕ × Client))
    pub order : List (Result Ran) → List (Result Ran)
    pub started : ℕ
    pub finished_at : ℕ → ℕ

  -- A JoinSet gives every task's result once.
  pub record JoinsAll (machine : Machine) : Type 0 where
    pub warm_order-perm : (rs : List (Result (ℕ × Client))) → Permᴰ (machine.warm_order rs) rs
    pub order-perm : (rs : List (Result Ran)) → Permᴰ (machine.order rs) rs

  -- The database is filled unless the workload only writes.
  unfoldable pub prefill : Machine → Args → KeySpace → Workload → Result (Unit {0})
  prefill machine args space write = ok tt
  prefill machine args space _ = do
    socket ← machine.connect_filler
    (fill_db_server args.db_name space socket).0

  -- The clients from `id` on, `n` of them.
  unfoldable pub connect_all : Machine → ℕ → ℕ → Result (List (ℕ × Client))
  connect_all machine id zero = ok []
  connect_all machine id (suc n) = do
    client ← machine.connect id
    clients ← connect_all machine (id + 1) n
    ok ((id, client) ∷ clients)

  -- The task of a client's warm-up: the client is behind its share of the operations.
  unfoldable pub warm : Args → KeySpace → ℕ × Client → Result (ℕ × Client)
  warm args space (id, client) =
      let operations = share args.warmup args id in
      let (result, socket) =
        run space args.db_name args.workload args.read_percent (drawn client.draw 0 operations)
          client.socket in
      result >>= λ _. ok (id, record { socket = socket; draw = λ i. client.draw (operations + i) })

  -- The task of a client in the measured run.
  unfoldable pub measure : Machine → Args → KeySpace → ℕ × Client → Result Ran
  measure machine args space (id, client) =
      let operations = share args.operations args id in
      let (result, _) =
        run space args.db_name args.workload args.read_percent (drawn client.draw 0 operations)
          client.socket in
      result >>= λ lat_ns. ok (record {
        operations = operations;
        task_lat = lat_ns;
        client_finished = machine.finished_at id;
      })

  -- `main` up to the last join.
  unfoldable pub run_clients : Machine → Args → Result Totals
  run_clients machine args = do
    valid ← validate args
    let space =
        init machine.fill_keys machine.fill_values args.keyspace args.key_size args.value_size
    filled ← prefill machine args space args.workload
    clients ← connect_all machine 0 args.clients
    ready_clients ← join_all (machine.warm_order (map (warm args space) clients))
    add_up (record { completed = 0; finished = machine.started; lat_ns = [] })
        (machine.order (map (measure machine args space) ready_clients))

  unfoldable pub main : ⦃statistics : Statistics⦄ → Machine → Args → Result Report
  main machine args = do totals ← run_clients machine args; summarize machine.started totals
