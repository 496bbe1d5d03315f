-- ===== src/Bench/Measure/Counts.antt =====
-- What the tasks of the measured run add up to, in whatever order they end.
use mini_db.Prelude.{
  ℕ, zero, suc, ◌+◌, ◌<◌, ◌≡◌, refl, ap, ◌∙◌, List, [], ◌∷◌, length, length-append, All, arith,
}
use mathlib.Core.List.{map}
use mini_db.Prelude.Perms.{sum_by, sum_by-perm, All-perm}
use mini_db.Bytes.{Bytes}
use mini_db.Result.{Result, ok, err, ◌>>=◌}
use mini_db.Stream.{Stream}
use mini_db.Stream.Io.{Io, pure, continue, ◌>>=◌ as ◌>>>◌}
use mini_db.Bench.{KeySpace}
use mini_db.Bench.Args.{Args, Workload, validate, validate-IsValid}
use mini_db.Bench.Load.{Draw, sample, init, operate, run}
use mini_db.Bench.Shares.{shares, shares-share_workload}
use mini_db.Bench.Summary.{Statistics, Totals, Report}
use mini_db.Bench.Summary.Ranked.{IsReport, summarize-IsReport}
use mini_db.Bench.Measure.{
  Ran, drawn, join_all, add_task, add_up, Client, Machine, JoinsAll, prefill, connect_all, share,
  warm, measure, run_clients, main,
}

abbrev pub IsOk : {A : Type 0} → Result A → Type 0
IsOk {A} r = (a : A) × (r ≡ ok a)

-- A number of a result's value, and 0 for an error.
abbrev value : {A : Type 0} → (A → ℕ) → Result A → ℕ
value f (ok a) = f a
value f (err e) = 0

bind-ok :
    {A B : Type 0} (r : Result A) (k : A → Result B) (b : B)
    → (r >>= k) ≡ ok b
    → (a : A) × (r ≡ ok a) × (k a ≡ ok b)
bind-ok (ok a) k b e = (a, refl, e)
bind-ok (err x) k b e = cc

join_all-sum_by :
    {A : Type 0} (f : A → ℕ) (rs : List (Result A)) (xs : List A)
    → join_all rs ≡ ok xs
    → All IsOk rs × (sum_by (value f) rs ≡ sum_by f xs)
unfolding join_all
join_all-sum_by f [] [] e = (tt, refl)
join_all-sum_by f [] (x ∷ xs) e = cc
join_all-sum_by f (err x ∷ rs) xs e = cc
join_all-sum_by f (ok a ∷ rs) xs e =
    let (others, e', last) = bind-ok (join_all rs) (λ others. ok (a ∷ others)) xs e in
    let (all_ok, sums) = join_all-sum_by f rs others e' in
    let same : xs ≡ a ∷ others = cc in
    (((a, refl), all_ok), omega (arith, sums, ap (sum_by f) same))

abbrev lats : Ran → ℕ
lats task = length task.task_lat

add_up-sum_by :
    (t u : Totals) (rs : List (Result Ran))
    → add_up t rs ≡ ok u
    → All IsOk rs
      × (u.completed ≡ t.completed + sum_by (value (λ task. task.operations)) rs)
      × (length u.lat_ns ≡ length t.lat_ns + sum_by (value lats) rs)
unfolding add_up add_task
add_up-sum_by t u [] e =
    let same : t ≡ u = cc in
    (tt, omega (arith, ap (λ t. t.completed) same), omega (arith, ap (λ t. length t.lat_ns) same))
add_up-sum_by t u (err x ∷ rs) e = cc
add_up-sum_by t u (ok task ∷ rs) e =
    let (all_ok, completed, lat_ns) = add_up-sum_by (add_task t task) u rs e in
    (
      ((task, refl), all_ok),
      omega (arith, completed),
      omega (arith, lat_ns, length-append t.lat_ns task.task_lat),
    )

length-drawn : (draw : ℕ → Draw) (i n : ℕ) → length (drawn draw i n) ≡ n
length-drawn draw i zero = refl
length-drawn draw i (suc n) = omega (arith, length-drawn draw (i + 1) n)

module _ ⦃net : Stream⦄ where
  open net use {Socket}

  continue-ok :
      {A B : Type 0} (r : Result A) (f : A → Io B) (s : Socket) (b : B)
      → (continue r f s).0 ≡ ok b
      → (a : A) × (r ≡ ok a) × ((f a s).0 ≡ ok b)
  continue-ok (ok a) f s b e = (a, refl, e)
  continue-ok (err x) f s b e = cc

  length-run :
      (space : KeySpace) (db_name : Bytes) (workload : Workload) (read_percent : ℕ)
      (draws : List Draw) (s : Socket) (samples : List ℕ)
      → (run space db_name workload read_percent draws s).0 ≡ ok samples
      → length samples ≡ length draws
  unfolding run
  length-run space db_name workload read_percent [] s samples e =
      let same : samples ≡ [] = cc in ap length same
  length-run space db_name workload read_percent (draw ∷ draws) s samples e =
      let operated : Io (Unit {0}) = operate space db_name workload read_percent draw in
      let others : Io (List ℕ) = run space db_name workload read_percent draws in
      let (_, _, e') =
        continue-ok (operated s).0 (λ _. others >>> λ rest. pure (sample draw.elapsed ∷ rest))
          (operated s).1 samples e in
      let (rest, done, e'') =
        continue-ok (others (operated s).1).0 (λ rest. pure (sample draw.elapsed ∷ rest))
          (others (operated s).1).1 samples e' in
      let same : samples ≡ sample draw.elapsed ∷ rest = cc in
      omega (
        arith,
        ap length same,
        length-run space db_name workload read_percent draws (operated s).1 rest done,
      )

  abbrev ids : Args → List (ℕ × Client) → ℕ
  ids args = sum_by (λ c. share args.operations args c.0)

  -- The warm-up gives each client back under its number.
  warm-ids :
      (args : Args) (space : KeySpace) (clients : List (ℕ × Client))
      → All IsOk (map (warm args space) clients)
      → sum_by (value (λ c. share args.operations args c.0)) (map (warm args space) clients)
        ≡ ids args clients
  unfolding warm
  warm-ids args space [] a = refl
  warm-ids args space ((id, client) ∷ clients) ((c, e), a) =
      let (_, e1, e2) =
        bind-ok
          (run space args.db_name args.workload args.read_percent
            (drawn client.draw 0 (share args.warmup args id)) client.socket).0
          _ c e in
      rw (warm, e1) (omega (arith, warm-ids args space clients a))

  measure-ids :
      (machine : Machine) (args : Args) (space : KeySpace) (clients : List (ℕ × Client))
      → All IsOk (map (measure machine args space) clients)
      → (sum_by (value (λ task. task.operations)) (map (measure machine args space) clients)
          ≡ ids args clients)
        × (sum_by (value lats) (map (measure machine args space) clients) ≡ ids args clients)
  unfolding measure
  measure-ids machine args space [] a = (refl, refl)
  measure-ids machine args space ((id, client) ∷ clients) ((c, e), a) =
      let (lat_ns, e1, e2) =
        bind-ok
          (run space args.db_name args.workload args.read_percent
            (drawn client.draw 0 (share args.operations args id)) client.socket).0
          _ c e in
      let (completed, lat) = measure-ids machine args space clients a in
      let recorded =
        length-run space args.db_name args.workload args.read_percent
          (drawn client.draw 0 (share args.operations args id)) client.socket lat_ns e1
        ∙ length-drawn client.draw 0 (share args.operations args id) in
      rw (measure, e1) (omega (arith, completed), omega (arith, lat, recorded))

  connect_all-ids :
      (machine : Machine) (args : Args) (id n : ℕ) (clients : List (ℕ × Client))
      → connect_all machine id n ≡ ok clients
      → shares args.operations args.clients id + ids args clients
        ≡ shares args.operations args.clients (id + n)
  unfolding connect_all share
  connect_all-ids machine args id zero clients e =
      let same : clients ≡ [] = cc in
      omega (
        arith,
        ap (ids args) same,
        ap (shares args.operations args.clients) {x = id} {y = id + 0} (omega arith),
      )
  connect_all-ids machine args id (suc n) clients e =
      let (client, _, e1) = bind-ok (machine.connect id) _ clients e in
      let (others, e2, e3) = bind-ok (connect_all machine (id + 1) n) _ clients e1 in
      let same : clients ≡ (id, client) ∷ others = cc in
      omega (
        arith,
        ap (ids args) same,
        connect_all-ids machine args (id + 1) n others e2,
        ap (shares args.operations args.clients) {x = id + 1} {y = suc id} (omega arith),
        ap (shares args.operations args.clients) {x = id + suc n} {y = id + 1 + n} (omega arith),
      )

  run_clients-counts :
      (machine : Machine) (args : Args) (t : Totals)
      → JoinsAll machine
      → run_clients machine args ≡ ok t
      → (t.completed ≡ args.operations)
        × (length t.lat_ns ≡ args.operations)
        × (0 < args.operations)
  unfolding run_clients
  run_clients-counts machine args t joins e =
      let (_, passed, e1) = bind-ok (validate args) _ t e in
      let space =
        init machine.fill_keys machine.fill_values args.keyspace args.key_size args.value_size in
      let (_, _, e2) = bind-ok (prefill machine args space args.workload) _ t e1 in
      let (clients, connected, e3) = bind-ok (connect_all machine 0 args.clients) _ t e2 in
      let warmed = map (warm args space) clients in
      let (ready, joined, e4) = bind-ok (join_all (machine.warm_order warmed)) _ t e3 in
      let tasks = map (measure machine args space) ready in
      let of_id : ℕ × Client → ℕ = λ c. share args.operations args c.0 in
      let (warm_ok, warm_sum) = join_all-sum_by of_id (machine.warm_order warmed) ready joined in
      let (tasks_ok, completed, lat_ns) =
        add_up-sum_by (record { completed = 0; finished = machine.started; lat_ns = [] }) t
          (machine.order tasks) e4 in
      let warm_perm = joins.warm_order-perm warmed in
      let order_perm = joins.order-perm tasks in
      let valid = validate-IsValid args passed in
      let (by_operations, by_samples) =
        measure-ids machine args space ready (All-perm IsOk order_perm tasks_ok) in
      let work : ids args ready ≡ args.operations = omega (
        arith,
        warm_sum,
        sum_by-perm (value of_id) warm_perm,
        warm-ids args space clients (All-perm IsOk warm_perm warm_ok),
        connect_all-ids machine args 0 args.clients clients connected,
        ap (shares args.operations args.clients) {x = 0 + args.clients} {y = args.clients}
            (omega arith),
        shares-share_workload args.operations args.clients valid.some_clients,
      ) in
      (
        omega (
          arith,
          completed,
          sum_by-perm (value (λ task. task.operations)) order_perm,
          by_operations,
          work,
        ),
        omega (arith, lat_ns, sum_by-perm (value lats) order_perm, by_samples, work),
        omega (arith, valid.enough_operations),
      )

  -- Once all tasks have been joined without an error, in whatever order those of the warm-up and of
  -- the measured run have ended, and whatever the server has done, `main` ends with a report,
  -- without an error or a panic, over as many operations and samples as the arguments ask for. Its
  -- minimum, its percentiles and its maximum are the samples of rank 1, of the ranks of the
  -- quantiles and of the last rank, by the count of the samples that are not above a value and of
  -- those below it; its mean is that of the samples, rounded down.
  pub main-IsReport :
      ⦃statistics : Statistics⦄ (machine : Machine) (args : Args) (t : Totals)
      → JoinsAll machine
      → run_clients machine args ≡ ok t
      → (r : Report) × (main machine args ≡ ok r)
        × (r.completed ≡ args.operations)
        × (length t.lat_ns ≡ args.operations)
        × IsReport machine.started t r
  unfolding main
  main-IsReport machine args t joins e =
      let (completed, counted, pos) = run_clients-counts machine args t joins e in
      let (r, done, is_report) =
        summarize-IsReport machine.started t (omega (arith, completed, counted))
          (omega (arith, completed, pos)) in
      (r, rw (main, e) done, omega (arith, is_report.all_completed, completed), counted, is_report)
