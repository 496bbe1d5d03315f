-- ===== src/Bench/Screen.antt =====
-- What bench/bench.rs prints: the configuration, and the report. The texts of numbers are the interface
-- Format, since floats are printed with decimals.
use mini_db.Prelude.{ℕ, ◌-◌, ◌++◌, List, [], ◌∷◌, leb, if◌then◌else◌}
use mini_db.Prelude.Text.{codes}
use mini_db.Bytes.{Bytes}
use mini_db.Bench.Args.{Args, Workload, read, write, read_overwrite}
use mini_db.Bench.Summary.{Report}

-- `{}` of a number, `{:.3}` of `n as f64 / d`, and `{:.0}` of the operations for each second of some
-- nanoseconds.
pub record Format : Type 0 where
  pub display : ℕ → Bytes
  pub fixed : ℕ → ℕ → Bytes
  pub throughput : ℕ → ℕ → Bytes

-- `{:?}` of a workload
unfoldable pub workload_name : Workload → Bytes
workload_name read = codes "Read"
workload_name write = codes "Write"
workload_name read_overwrite = codes "ReadOverwrite"

module _ (format : Format) where
  open format use {display, fixed, throughput}

  unfoldable pub fmt_ns : ℕ → Bytes
  fmt_ns ns =
      if leb 1000000000 ns
      then fixed ns 1000000000 ++ codes " s"
      else if leb 1000000 ns
      then fixed ns 1000000 ++ codes " ms"
      else if leb 1000 ns
      then fixed ns 1000 ++ codes " us"
      else display ns ++ codes " ns"

  -- The line of the mix, which only a mixed workload has.
  unfoldable pub mix_lines : Workload → ℕ → List Bytes
  mix_lines read_overwrite read_percent =
      (codes "  mix:       "
        ++ display read_percent
        ++ codes "% GET / "
        ++ display (100 - read_percent)
        ++ codes "% SET")
      ∷ []
  mix_lines _ read_percent = []

  unfoldable pub print_config : Bytes → Args → List Bytes
  print_config server_addr args =
      (codes "Mini-db e2e benchmark"
        ∷ (codes "  server:    " ++ server_addr)
        ∷ (codes "  db:        " ++ args.db_name)
        ∷ (codes "  workload:  " ++ workload_name args.workload)
        ∷ (codes "  clients:   " ++ display args.clients)
        ∷ (codes "  ops:       " ++ display args.operations)
        ∷ (codes "  keyspace:  " ++ display args.keyspace)
        ∷ (codes "  key/value: "
            ++ display args.key_size
            ++ codes "/"
            ++ display args.value_size
            ++ codes " bytes")
        ∷ [])
      ++ mix_lines args.workload args.read_percent
      ++ ((codes "  warmup:    " ++ display args.warmup) ∷ [] ∷ [])

  unfoldable pub print_report : Report → List Bytes
  print_report r =
      []
      ∷ codes "Results"
      ∷ (codes "  completed:  " ++ display r.completed)
      ∷ (codes "  elapsed:    " ++ fixed r.elapsed 1000000000 ++ codes " s")
      ∷ (codes "  throughput: " ++ throughput r.completed r.elapsed ++ codes " ops/s")
      ∷ (codes "  min:        " ++ fmt_ns r.smallest)
      ∷ (codes "  mean:       " ++ fmt_ns r.mean)
      ∷ (codes "  p50:        " ++ fmt_ns r.at_p50)
      ∷ (codes "  p90:        " ++ fmt_ns r.at_p90)
      ∷ (codes "  p95:        " ++ fmt_ns r.at_p95)
      ∷ (codes "  p99:        " ++ fmt_ns r.at_p99)
      ∷ (codes "  p99.9:      " ++ fmt_ns r.at_p999)
      ∷ (codes "  max:        " ++ fmt_ns r.largest)
      ∷ []
