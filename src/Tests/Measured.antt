-- ===== src/Tests/Measured.antt =====
-- A benchmark of three clients, whose operations are all the same GET.
use mini_db.Prelude.{
  ℕ, zero, suc, ◌+◌, ◌*◌, ◌/◌, ◌≤◌, ◌≡◌, refl, ap, leb, if◌then◌else◌, Bool-cases, inl, inr, List,
  [], ◌∷◌, ◌++◌, append_assoc, length, All, arith,
}
use mathlib.Core.List.{Permᴰ}
use mathlib.Core.List.Permᴰ.{refl as perm_refl}
use mini_db.Prelude.Text.{codes}
use mini_db.Bytes.{Bytes}
use mini_db.Result.{ok}
use mini_db.Protocol.{key_value, code_and_payload}
use mini_db.Bench.Args.{read_overwrite}
use mini_db.Bench.Load.{Draw}
use mini_db.Bench.Prefill.{oks}
use mini_db.Bench.Asked.{Operated, IsOperated, a_get, under, draws, all_responses}
use mini_db.Bench.Summary.{
  Quantile, p50, p90, p95, p99, p999, IsSorted, Statistics, Totals, Report, summarize,
}
use mini_db.Bench.Summary.Ranked.{IsReport, summarize-IsReport}
use mini_db.Bench.Screen.{Format, fmt_ns}
use mini_db.Bench.Measure.{Client, Machine, JoinsAll, drawn, share, run_clients, main}
use mini_db.Bench.Measure.Counts.{main-IsReport}
use mini_db.Bench.Measure.Succeeds.{IsReady, Friendly, main-Friendly}
use mini_db.Tests.Sim.{sim_net, SimSocket}
use mini_db.Tests.Load.{arguments, arguments_pass, repeat, length-repeat, repeat-Fits}

abbrev insert : ℕ → List ℕ → List ℕ
insert x [] = x ∷ []
insert x (y ∷ ys) = let rest = insert x ys in if leb x y then x ∷ y ∷ ys else y ∷ rest

abbrev sort : List ℕ → List ℕ
sort [] = []
sort (x ∷ xs) = insert x (sort xs)

insert-perm : (x : ℕ) (ys : List ℕ) → Permᴰ (insert x ys) (x ∷ ys)
insert-perm x [] = perm_refl (x ∷ [])
insert-perm x (y ∷ ys) = elim (Bool-cases (leb x y)) [
  | inl small ↦ rw small (perm_refl (x ∷ y ∷ ys))
  | inr large ↦
      rw large (Permᴰ.trans (Permᴰ.cons refl (insert-perm x ys)) (Permᴰ.swap {l = ys} refl refl))
]

sort-perm : (xs : List ℕ) → Permᴰ (sort xs) xs
sort-perm [] = Permᴰ.nil
sort-perm (x ∷ xs) = Permᴰ.trans (insert-perm x (sort xs)) (Permᴰ.cons refl (sort-perm xs))

All-insert : (z x : ℕ) (ys : List ℕ) → z ≤ x → All (λ y. z ≤ y) ys → All (λ y. z ≤ y) (insert x ys)
All-insert z x [] h a = (h, tt)
All-insert z x (y ∷ ys) h a = elim (Bool-cases (leb x y)) [
  | inl small ↦ rw small (h, a)
  | inr large ↦ rw large (a.0, All-insert z x ys h a.1)
]

All-le : (x y : ℕ) (ys : List ℕ) → x ≤ y → All (λ z. y ≤ z) ys → All (λ z. x ≤ z) ys
All-le x y [] h a = tt
All-le x y (z ∷ ys) h a = (omega (arith, a.0), All-le x y ys h a.1)

insert-IsSorted : (x : ℕ) (ys : List ℕ) → IsSorted ys → IsSorted (insert x ys)
insert-IsSorted x [] s = (tt, tt)
insert-IsSorted x (y ∷ ys) s = elim (Bool-cases (leb x y)) [
  | inl small ↦ let le : x ≤ y = ground arith in rw small ((le, All-le x y ys le s.0), s)
  | inr large ↦
      let le : y ≤ x = ground arith in rw large (All-insert y x ys le s.0, insert-IsSorted x ys s.1)
]

sort-IsSorted : (xs : List ℕ) → IsSorted (sort xs)
sort-IsSorted [] = tt
sort-IsSorted (x ∷ xs) = insert-IsSorted x (sort xs) (sort-IsSorted xs)

-- Quantiles in thousandths.
abbrev mille : Quantile → ℕ
mille p50 = 500
mille p90 = 900
mille p95 = 950
mille p99 = 990
mille p999 = 999

instance abbrev statistics : Statistics
statistics = record {
  sort_unstable = sort;
  rank = λ q n. (mille q * n + 999) / 1000;
  sort_unstable-IsSorted = sort-IsSorted;
  sort_unstable-perm = sort-perm;
  rank_p50 = λ n. omega arith;
  rank_p90 = λ n. omega arith;
  rank_p95 = λ n. omega arith;
  rank_p99 = λ n. omega arith;
}

abbrev three_samples : Totals
three_samples = record { completed = 3; finished = 40; lat_ns = 7 ∷ 3 ∷ 5 ∷ [] }

summarize-IsReport_example :
    (r : Report) × (summarize 10 three_samples ≡ ok r) × IsReport 10 three_samples r
summarize-IsReport_example = summarize-IsReport 10 three_samples refl (omega arith)

abbrev same_draw : Draw
same_draw = record { key_index = 1; percent = 5; value_index = 0; elapsed = 9 }

abbrev operation : Operated
operation = record { draw = same_draw; asked = a_get; response = key_value (codes "456") }

operation-IsOperated : IsOperated read_overwrite 80 4096 operation
unfolding code_and_payload
operation-IsOperated = record {
  made = record {
    key_there = omega arith;
    value_there = omega arith;
    asks = under (omega arith);
    fits = omega arith;
  };
  expected = refl;
}

all-IsOperated : (n : ℕ) → All (IsOperated read_overwrite 80 4096) (repeat operation n)
all-IsOperated zero = tt
all-IsOperated (suc n) = (operation-IsOperated, all-IsOperated n)

draws-repeat : (i n : ℕ) → draws (repeat operation n) ≡ drawn (λ _. same_draw) i n
draws-repeat i zero = refl
draws-repeat i (suc n) = ap (λ ds. same_draw ∷ ds) (draws-repeat (i + 1) n)

abbrev responses : ℕ → Bytes
responses n = all_responses (repeat operation n)

-- The client `id`, whose responses are there.
abbrev client : ℕ → Client
client id = record {
  socket = record {
    inbox =
        responses (share arguments.warmup arguments id)
        ++ responses (share arguments.operations arguments id)
        ++ [];
    outbox = [];
  };
  draw = λ _. same_draw;
}

abbrev filler : SimSocket
filler = record { inbox = oks (repeat [] 4096) ++ []; outbox = [] }

abbrev machine : Machine
machine = record {
  fill_keys = repeat 7;
  fill_values = repeat 8;
  connect_filler = ok filler;
  connect = λ id. ok (client id);
  warm_order = λ rs. rs;
  order = λ rs. rs;
  started = 100;
  finished_at = λ id. 200 + id;
}

joins : JoinsAll machine
joins = record { warm_order-perm = λ rs. perm_refl rs; order-perm = λ rs. perm_refl rs }

client-IsReady : (id : ℕ) → IsReady arguments id (client id)
client-IsReady id = record {
  rest = responses (share arguments.operations arguments id) ++ [];
  warmup = record {
    os = repeat operation (share arguments.warmup arguments id);
    generated = draws-repeat 0 (share arguments.warmup arguments id);
    operated = all-IsOperated (share arguments.warmup arguments id);
    arrives =
        append_assoc (responses (share arguments.warmup arguments id))
          (responses (share arguments.operations arguments id)) [];
  };
  run_generated = (
    repeat operation (share arguments.operations arguments id),
    [],
    draws-repeat 0 (share arguments.operations arguments id),
    all-IsOperated (share arguments.operations arguments id),
    refl,
  );
}

machine-Friendly : Friendly arguments machine
machine-Friendly = record {
  payloads = repeat [] 4096;
  filler = filler;
  filler_rest = [];
  fills = refl;
  one_each = length-repeat {A = Bytes} [] 4096;
  payloads_fit = repeat-Fits 4096;
  answered = refl;
  clients_ready = λ id _. (client id, refl, client-IsReady id);
  length-fill_keys = length-repeat 7;
  length-fill_values = length-repeat 8;
}

main-Friendly_example :
    (t : Totals) × (r : Report) × (run_clients machine arguments ≡ ok t)
    × (main machine arguments ≡ ok r)
    × (r.completed ≡ 128)
    × IsReport 100 t r
main-Friendly_example =
    main-Friendly arguments machine (λ s b. refl) joins arguments_pass machine-Friendly

abbrev benchmarked :
    (t : Totals) × (r : Report) × (run_clients machine arguments ≡ ok t)
    × (main machine arguments ≡ ok r)
    × (r.completed ≡ 128)
    × IsReport 100 t r
benchmarked = main-Friendly arguments machine (λ s b. refl) joins arguments_pass machine-Friendly

main-IsReport_example :
    (r : Report) × (main machine arguments ≡ ok r)
    × (r.completed ≡ 128)
    × (length benchmarked.0.lat_ns ≡ 128)
    × IsReport 100 benchmarked.0 r
main-IsReport_example = main-IsReport machine arguments benchmarked.0 joins benchmarked.2

-- Numbers as unary texts, and quotients rounded down.
abbrev tally : Format
tally = record { display = repeat 49; fixed = λ n d. repeat 49 (n / d); throughput = λ n d. [] }

microseconds : fmt_ns tally 3999 ≡ codes "111 us"
unfolding fmt_ns
microseconds = refl

nanoseconds : fmt_ns tally 4 ≡ codes "1111 ns"
unfolding fmt_ns
nanoseconds = refl
