-- ===== src/Witnesses/Statistics.antt =====
-- Latencies: the statistics of some samples.
use mathlib.Core.List.{Mem}
use mathlib.Core.List.Perm
use load_test_backend.Base.{◌≡◌, refl, List, [], ◌∷◌, arith, ℤ, pos, ◌≤ℤ◌}
use load_test_backend.Latency.Percentiles.{compute_summary, compute_p50_p95_max}
use load_test_backend.Latency.Bounds.{RanksInOrder, summary_in_order}
use load_test_backend.Latency.Samples.{statistics_perm}
use load_test_backend.Witnesses.{exact_ops}

abbrev first_ms : ℤ
first_ms = pos 120

abbrev more_ms : List ℤ
more_ms = pos 40 ∷ pos 300 ∷ []

exact-RanksInOrder : RanksInOrder exact_ops
exact-RanksInOrder = record {
  inside_90 = (refl, refl);
  inside_95 = (refl, refl);
  inside_99 = (refl, refl);
  trunc_90_95 = λ n. omega arith;
  trunc_95_99 = λ n. omega arith;
}

summary_in_order_example :
    ((compute_summary exact_ops (first_ms ∷ more_ms)).p90_ms
      ≤ℤ (compute_summary exact_ops (first_ms ∷ more_ms)).p95_ms)
    × ((compute_summary exact_ops (first_ms ∷ more_ms)).p95_ms
        ≤ℤ (compute_summary exact_ops (first_ms ∷ more_ms)).p99_ms)
    × Mem (compute_summary exact_ops (first_ms ∷ more_ms)).p90_ms (first_ms ∷ more_ms)
    × Mem (compute_summary exact_ops (first_ms ∷ more_ms)).p95_ms (first_ms ∷ more_ms)
    × Mem (compute_summary exact_ops (first_ms ∷ more_ms)).p99_ms (first_ms ∷ more_ms)
summary_in_order_example = summary_in_order exact_ops first_ms more_ms exact-RanksInOrder

statistics_perm_example :
    (compute_summary exact_ops (first_ms ∷ more_ms)
      ≡ compute_summary exact_ops (pos 40 ∷ first_ms ∷ pos 300 ∷ []))
    × (compute_p50_p95_max exact_ops (first_ms ∷ more_ms)
        ≡ compute_p50_p95_max exact_ops (pos 40 ∷ first_ms ∷ pos 300 ∷ []))
statistics_perm_example =
    statistics_perm exact_ops (first_ms ∷ more_ms) (pos 40 ∷ first_ms ∷ pos 300 ∷ [])
      (Perm.swap (pos 40) first_ms (pos 300 ∷ []))
