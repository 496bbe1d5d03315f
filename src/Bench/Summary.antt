-- ===== src/Bench/Summary.antt =====
-- What bench/bench.rs makes of its samples: the report of `main`, and `percentile`. Sorting is the
-- standard library's, and the rank of a percentile is computed on floats: both are the interface
-- Statistics.
pub mod Places
pub mod Ranked
use mini_db.Prelude.{
  ℕ, zero, suc, ◌+◌, ◌-◌, ◌/◌, ◌≤◌, min, Option, none, some, List, [], ◌∷◌, length, get_elem?, All,
  ◌==◌, if◌then◌else◌,
}
use mathlib.Core.List.{Permᴰ}
use mini_db.Result.{Error, Result, ok, err, ◌>>=◌, miscounted, mean_panic, index_panic}

pub data Quantile : Type 0 where
  p50 p90 p95 p99 p999 : Quantile

abbrev pub IsSorted : List ℕ → Type 0
IsSorted [] = Unit {0}
IsSorted (x ∷ xs) = All (λ y. x ≤ y) xs × IsSorted xs

-- `sort_unstable`, and `(q * sorted.len() as f64).ceil() as usize` for a quantile and a length: a
-- larger quantile has no smaller rank, since the product and `ceil` are monotone.
pub record Statistics : Type 0 where
  pub sort_unstable : List ℕ → List ℕ
  pub rank : Quantile → ℕ → ℕ
  pub sort_unstable-IsSorted : (xs : List ℕ) → IsSorted (sort_unstable xs)
  pub sort_unstable-perm : (xs : List ℕ) → Permᴰ (sort_unstable xs) xs
  pub rank_p50 : (n : ℕ) → rank p50 n ≤ rank p90 n
  pub rank_p90 : (n : ℕ) → rank p90 n ≤ rank p95 n
  pub rank_p95 : (n : ℕ) → rank p95 n ≤ rank p99 n
  pub rank_p99 : (n : ℕ) → rank p99 n ≤ rank p999 n

-- What the tasks have added up to.
pub record Totals : Type 0 where
  pub completed : ℕ
  pub finished : ℕ
  pub lat_ns : List ℕ

-- What is printed, without the throughput, a quotient of floats.
pub record Report : Type 0 where
  pub completed : ℕ
  pub elapsed : ℕ
  pub smallest : ℕ
  pub mean : ℕ
  pub at_p50 : ℕ
  pub at_p90 : ℕ
  pub at_p95 : ℕ
  pub at_p99 : ℕ
  pub at_p999 : ℕ
  pub largest : ℕ

abbrev pub total : List ℕ → ℕ
total [] = 0
total (x ∷ xs) = x + total xs

-- `sorted[i]`, which panics behind the end.
abbrev pub or_panic : Option ℕ → Result ℕ
or_panic none = err index_panic
or_panic (some n) = ok n

-- Division panics at 0.
unfoldable pub mean_of : List ℕ → Result ℕ
mean_of lat_ns = if length lat_ns == 0 then err mean_panic else ok (total lat_ns / length lat_ns)

module _ ⦃statistics : Statistics⦄ where
  open statistics use {sort_unstable, rank}

  -- On no samples, the last index is below 0.
  unfoldable pub percentile : List ℕ → Quantile → Result ℕ
  percentile sorted q =
      or_panic (get_elem? sorted (min (rank q (length sorted) - 1) (length sorted - 1)))

  unfoldable pub report : ℕ → ℕ → List ℕ → Result Report
  report completed elapsed lat_ns = do
    mean ← mean_of lat_ns
    smallest ← or_panic (get_elem? lat_ns 0)
    p50_value ← percentile lat_ns p50
    p90_value ← percentile lat_ns p90
    p95_value ← percentile lat_ns p95
    p99_value ← percentile lat_ns p99
    p999_value ← percentile lat_ns p999
    largest ← or_panic (get_elem? lat_ns (length lat_ns - 1))
    ok (record {
      completed = completed;
      elapsed = elapsed;
      smallest = smallest;
      mean = mean;
      at_p50 = p50_value;
      at_p90 = p90_value;
      at_p95 = p95_value;
      at_p99 = p99_value;
      at_p999 = p999_value;
      largest = largest;
    })

  -- The end of `main`, behind the joins; `started` is the clock at the start of the run.
  unfoldable pub summarize : ℕ → Totals → Result Report
  summarize started t =
      if length t.lat_ns == t.completed
      then report t.completed (t.finished - started) (sort_unstable t.lat_ns)
      else err miscounted
