-- ===== src/Bench/Summary/Ranked.antt =====
-- The figures of a report, in order.
use mini_db.Prelude.{
  ℕ, ◌+◌, ◌-◌, ◌*◌, ◌/◌, ◌<◌, ◌≤◌, ◌≡◌, refl, ap, sym, ◌∙◌, false, min, max, List, [], ◌∷◌, length,
  All, ◌==◌, ==_iff, arith,
}
use mathlib.Core.Path.{subst}
use mathlib.Core.List.{Permᴰ}
use mini_db.Prelude.Perms.{sum_by, sum_by-perm, length-perm, All-perm}
use mini_db.Result.{ok}
use mini_db.Bench.Summary.Places.{there, IsSorted-le, within, All-places, IsOfRank, IsOfRank-perm}
use mini_db.Bench.Summary.{
  Quantile, p50, p90, p95, p99, p999, IsSorted, Statistics, Totals, Report, total, mean_of,
  percentile, report, summarize,
}

total-sum_by : (xs : List ℕ) → total xs ≡ sum_by (λ x. x) xs
total-sum_by [] = refl
total-sum_by (x ∷ xs) = ap (λ t. x + t) (total-sum_by xs)

total-perm : {xs ys : List ℕ} → Permᴰ xs ys → total xs ≡ total ys
total-perm {xs} {ys} p = total-sum_by xs ∙ sum_by-perm (λ x. x) p ∙ sym (total-sum_by ys)

-- The total lies between as many times a lower and an upper bound.
total_bounds :
    (lo hi : ℕ) (xs : List ℕ)
    → All (λ x. lo ≤ x) xs
    → All (λ x. x ≤ hi) xs
    → (lo * length xs ≤ total xs) × (total xs ≤ hi * length xs)
total_bounds lo hi [] a b = (omega arith, omega arith)
total_bounds lo hi (x ∷ xs) a b =
    let (above, below) = total_bounds lo hi xs a.1 b.1 in
    let l : lo ≤ x = a.0 in let h : x ≤ hi = b.0 in (grind arith, grind arith)

quotient :
    (t n lo hi : ℕ)
    → 0 < n
    → lo * n ≤ t
    → t ≤ hi * n
    → ((t / n) * n ≤ t) × (t < (t / n + 1) * n) × (lo ≤ t / n) × (t / n ≤ hi)
quotient t n lo hi pos a b = (grind arith, grind arith, grind arith, grind arith)

module _ ⦃statistics : Statistics⦄ where
  open statistics use {sort_unstable, rank}

  -- The rank of a quantile among `n` samples, kept from 1 to `n`.
  abbrev pub nth : Quantile → ℕ → ℕ
  nth q n = max 1 (min (rank q n) n)

  -- What the figures of a report say of the totals.
  pub record IsReport (started : ℕ) (t : Totals) (r : Report) : Type 0 where
    pub all_completed : r.completed ≡ t.completed
    pub time_taken : r.elapsed ≡ t.finished - started
    pub none_smaller : All (λ x. r.smallest ≤ x) t.lat_ns
    pub none_larger : All (λ x. x ≤ r.largest) t.lat_ns
    pub mean_enough : r.mean * length t.lat_ns ≤ total t.lat_ns
    pub mean_nearly : total t.lat_ns < (r.mean + 1) * length t.lat_ns
    pub smallest_mean : r.smallest ≤ r.mean
    pub mean_largest : r.mean ≤ r.largest
    pub smallest_p50 : r.smallest ≤ r.at_p50
    pub p50_p90 : r.at_p50 ≤ r.at_p90
    pub p90_p95 : r.at_p90 ≤ r.at_p95
    pub p95_p99 : r.at_p95 ≤ r.at_p99
    pub p99_p999 : r.at_p99 ≤ r.at_p999
    pub p999_largest : r.at_p999 ≤ r.largest
    pub least : IsOfRank 1 r.smallest t.lat_ns
    pub nth_p50 : IsOfRank (nth p50 (length t.lat_ns)) r.at_p50 t.lat_ns
    pub nth_p90 : IsOfRank (nth p90 (length t.lat_ns)) r.at_p90 t.lat_ns
    pub nth_p95 : IsOfRank (nth p95 (length t.lat_ns)) r.at_p95 t.lat_ns
    pub nth_p99 : IsOfRank (nth p99 (length t.lat_ns)) r.at_p99 t.lat_ns
    pub nth_p999 : IsOfRank (nth p999 (length t.lat_ns)) r.at_p999 t.lat_ns
    pub greatest : IsOfRank (length t.lat_ns) r.largest t.lat_ns

  -- The place of a percentile among some samples.
  abbrev place : List ℕ → Quantile → ℕ
  place xs q = min (rank q (length xs) - 1) (length xs - 1)

  place-nth :
      (xs ys : List ℕ) (q : Quantile)
      → length xs ≡ length ys
      → 0 < length xs
      → nth q (length ys) ≡ place xs q + 1
  place-nth xs ys q long some_sample =
      subst (λ n. max 1 (min (rank q n) n) ≡ place xs q + 1) long (omega (arith, some_sample))

  -- With as many samples as operations, and some, there is a report, without a panic: it has the
  -- number of the operations and the time until the last task has finished, its minimum, its
  -- percentiles and its maximum are the samples of their ranks, counted among the samples from below,
  -- and come in order, and its mean is the samples' mean, rounded down, between the minimum and the
  -- maximum.
  pub summarize-IsReport :
      (started : ℕ) (t : Totals)
      → length t.lat_ns ≡ t.completed
      → 0 < t.completed
      → (r : Report) × (summarize started t ≡ ok r) × IsReport started t r
  unfolding summarize report percentile mean_of
  summarize-IsReport started t counted some_done =
      let xs : List ℕ = sort_unstable t.lat_ns in
      let sorted : IsSorted xs = statistics.sort_unstable-IsSorted t.lat_ns in
      let same : Permᴰ xs t.lat_ns = statistics.sort_unstable-perm t.lat_ns in
      let long : length xs ≡ length t.lat_ns = length-perm same in
      let (lo, e_lo) = there xs 0 (omega arith) in
      let (hi, e_hi) = there xs (length xs - 1) (omega arith) in
      let (v50, e50) = there xs (place xs p50) (omega arith) in
      let (v90, e90) = there xs (place xs p90) (omega arith) in
      let (v95, e95) = there xs (place xs p95) (omega arith) in
      let (v99, e99) = there xs (place xs p99) (omega arith) in
      let (v999, e999) = there xs (place xs p999) (omega arith) in
      let none_smaller =
        All-places (λ x. lo ≤ x) xs
          (λ i x e. IsSorted-le xs 0 i lo x sorted (omega arith) e_lo e) in
      let none_larger =
        All-places (λ x. x ≤ hi) xs
          (λ i x e.
            IsSorted-le xs i (length xs - 1) x hi sorted (omega (arith, within xs i x e)) e e_hi) in
      let nonempty : (length xs == 0) ≡ false = ground arith in
      let sums : total xs ≡ total t.lat_ns = total-perm same in
      let (enough, nearly, above_lo, below_hi) =
        quotient (total xs) (length xs) lo hi (omega arith)
          (total_bounds lo hi xs none_smaller none_larger).0
          (total_bounds lo hi xs none_smaller none_larger).1 in
      (
        record {
          completed = t.completed;
          elapsed = t.finished - started;
          smallest = lo;
          mean = total xs / length xs;
          at_p50 = v50;
          at_p90 = v90;
          at_p95 = v95;
          at_p99 = v99;
          at_p999 = v999;
          largest = hi;
        },
        rw (summarize, (==_iff _ _).1 counted, nonempty, e_lo, e50, e90, e95, e99, e999, e_hi) refl,
        record {
          all_completed = refl;
          time_taken = refl;
          none_smaller = All-perm (λ x. lo ≤ x) same none_smaller;
          none_larger = All-perm (λ x. x ≤ hi) same none_larger;
          mean_enough =
              subst (λ k. (total xs / length xs) * k ≤ total t.lat_ns) long
                (subst (λ k. (total xs / length xs) * length xs ≤ k) sums enough);
          mean_nearly =
              subst (λ k. total t.lat_ns < (total xs / length xs + 1) * k) long
                (subst (λ k. k < (total xs / length xs + 1) * length xs) sums nearly);
          smallest_mean = above_lo;
          mean_largest = below_hi;
          smallest_p50 = IsSorted-le xs 0 (place xs p50) lo v50 sorted (omega arith) e_lo e50;
          p50_p90 =
              IsSorted-le xs (place xs p50) (place xs p90) v50 v90 sorted
                (omega (arith, statistics.rank_p50 (length xs))) e50 e90;
          p90_p95 =
              IsSorted-le xs (place xs p90) (place xs p95) v90 v95 sorted
                (omega (arith, statistics.rank_p90 (length xs))) e90 e95;
          p95_p99 =
              IsSorted-le xs (place xs p95) (place xs p99) v95 v99 sorted
                (omega (arith, statistics.rank_p95 (length xs))) e95 e99;
          p99_p999 =
              IsSorted-le xs (place xs p99) (place xs p999) v99 v999 sorted
                (omega (arith, statistics.rank_p99 (length xs))) e99 e999;
          p999_largest =
              IsSorted-le xs (place xs p999) (length xs - 1) v999 hi sorted (omega arith) e999 e_hi;
          least = IsOfRank-perm 0 1 lo same sorted e_lo refl;
          nth_p50 =
              IsOfRank-perm (place xs p50) (nth p50 (length t.lat_ns)) v50 same sorted e50
                (place-nth xs t.lat_ns p50 long (omega arith));
          nth_p90 =
              IsOfRank-perm (place xs p90) (nth p90 (length t.lat_ns)) v90 same sorted e90
                (place-nth xs t.lat_ns p90 long (omega arith));
          nth_p95 =
              IsOfRank-perm (place xs p95) (nth p95 (length t.lat_ns)) v95 same sorted e95
                (place-nth xs t.lat_ns p95 long (omega arith));
          nth_p99 =
              IsOfRank-perm (place xs p99) (nth p99 (length t.lat_ns)) v99 same sorted e99
                (place-nth xs t.lat_ns p99 long (omega arith));
          nth_p999 =
              IsOfRank-perm (place xs p999) (nth p999 (length t.lat_ns)) v999 same sorted e999
                (place-nth xs t.lat_ns p999 long (omega arith));
          greatest =
              IsOfRank-perm (length xs - 1) (length t.lat_ns) hi same sorted e_hi (omega arith);
        },
      )
