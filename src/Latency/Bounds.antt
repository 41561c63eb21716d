-- ===== src/Latency/Bounds.antt =====
-- percentiles.go: the percentiles and the maximum against the samples.
use mathlib.Core.List.{Mem}
use load_test_backend.Base.{ℕ, suc, ◌-◌, ◌≤◌, ◌≡◌, false, List, ◌∷◌, arith, ℤ, ◌≤ℤ◌, length}
use load_test_backend.Float.{Float64}
use load_test_backend.Latency.Percentiles.{
  sort, FloatOps, percentile_ms, compute_p50_p95_max, compute_summary, p50, p90, p95, p99,
  TailLatency, LatencySummary,
}
use load_test_backend.Latency.Order.{
  length-sort, sorted_mem, sort_le_last, rank_index, rank_index-le, percentile-sorted_mem,
  percentile-sorted_le, percentile_ms-at, clamp_index_mono,
}

-- What is assumed of the floating-point steps: the literals lie strictly between 0 and 1, and the
-- truncated product does not fall when the literal grows.
pub record RanksInOrder (ops : FloatOps) : Type 0 where
  pub inside_90 : (ops.le_zero p90 ≡ false) × (ops.ge_one p90 ≡ false)
  pub inside_95 : (ops.le_zero p95 ≡ false) × (ops.ge_one p95 ≡ false)
  pub inside_99 : (ops.le_zero p99 ≡ false) × (ops.ge_one p99 ≡ false)
  pub trunc_90_95 : (n : ℕ) → ops.trunc_index p90 n ≤ℤ ops.trunc_index p95 n
  pub trunc_95_99 : (n : ℕ) → ops.trunc_index p95 n ≤ℤ ops.trunc_index p99 n

module _ (ops : FloatOps) (x : ℤ) (xs : List ℤ) where
  abbrev tail_of : TailLatency
  tail_of = compute_p50_p95_max ops (x ∷ xs)

  -- Whatever the floating-point index is, the reported p50, p95 and maximum of a non-empty list of
  -- latencies are elements of the list, p50 and p95 are at most the maximum, and so is every element.
  pub p50_p95_max_bounds :
      Mem (tail_of.p50) (x ∷ xs)
      × Mem (tail_of.p95) (x ∷ xs)
      × Mem (tail_of.max) (x ∷ xs)
      × (tail_of.p50 ≤ℤ tail_of.max)
      × (tail_of.p95 ≤ℤ tail_of.max)
      × ((y : ℤ) → Mem y (x ∷ xs) → y ≤ℤ tail_of.max)
  unfolding compute_p50_p95_max
  p50_p95_max_bounds =
      let last : length (sort (x ∷ xs)) - 1 ≡ length xs = omega (arith, length-sort (x ∷ xs)) in
      rw last (
        percentile-sorted_mem ops x xs p50,
        percentile-sorted_mem ops x xs p95,
        sorted_mem x xs (length xs) (omega arith),
        percentile-sorted_le ops x xs p50 (length xs) (rank_index-le ops p50 (length xs))
            (omega arith),
        percentile-sorted_le ops x xs p95 (length xs) (rank_index-le ops p95 (length xs))
            (omega arith),
        λ y m. sort_le_last x xs y m,
      )

  ordered :
      (p q : Float64)
      → rank_index ops p (length xs) ≤ rank_index ops q (length xs)
      → percentile_ms ops (sort (x ∷ xs)) p ≤ℤ percentile_ms ops (sort (x ∷ xs)) q
  ordered p q h =
      rw (percentile_ms-at ops (sort (x ∷ xs)) q (length xs) (length-sort (x ∷ xs)))
        (percentile-sorted_le ops x xs p _ h (rank_index-le ops q (length xs)))

  abbrev summary_of : LatencySummary
  summary_of = compute_summary ops (x ∷ xs)

  -- If the floating-point steps respect the order of the literals, the summary of a non-empty list
  -- has p90 ≤ p95 ≤ p99, all three elements of the list.
  pub summary_in_order :
      RanksInOrder ops
      → (summary_of.p90_ms ≤ℤ summary_of.p95_ms)
        × (summary_of.p95_ms ≤ℤ summary_of.p99_ms)
        × Mem summary_of.p90_ms (x ∷ xs)
        × Mem summary_of.p95_ms (x ∷ xs)
        × Mem summary_of.p99_ms (x ∷ xs)
  unfolding compute_summary
  summary_in_order r = (
    ordered p90 p95 (
        ground (
          arith,
          clamp_index_mono (ops.trunc_index p90 (length xs)) (ops.trunc_index p95 (length xs))
              (suc (length xs)) (r.trunc_90_95 (length xs)),
        )),
    ordered p95 p99 (
        ground (
          arith,
          clamp_index_mono (ops.trunc_index p95 (length xs)) (ops.trunc_index p99 (length xs))
              (suc (length xs)) (r.trunc_95_99 (length xs)),
        )),
    percentile-sorted_mem ops x xs p90,
    percentile-sorted_mem ops x xs p95,
    percentile-sorted_mem ops x xs p99,
  )
