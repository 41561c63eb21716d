-- ===== src/Latency/Percentiles.antt =====
-- internal/domain/latency/percentiles.go. The index is computed in floating point and truncated:
-- that step is the parameter `trunc_index`, and nothing is assumed of it but where a lemma says so.
use load_test_backend.Base.{
  ℕ, zero, suc, ◌-◌, Bool, List, [], ◌∷◌, leb, ℤ, pos, negsuc, leb_ℤ, ◌+ℤ◌, length, if◌then◌else◌,
}
use load_test_backend.Float.{Float64, of_int, decimal, mul, div, round, zero_float}

-- `sorted[i]`; the program panics out of range, and `0` stands for that.
abbrev pub at : List ℤ → ℕ → ℤ
at [] i = pos 0
at (x ∷ xs) zero = x
at (x ∷ xs) (suc i) = at xs i

-- `sort.Slice` by `<`; the result does not depend on the algorithm, since equal integers are the same.
unfoldable pub insert_sorted : ℤ → List ℤ → List ℤ
insert_sorted x [] = x ∷ []
insert_sorted x (y ∷ ys) = if leb_ℤ x y then x ∷ y ∷ ys else y ∷ insert_sorted x ys

unfoldable pub sort : List ℤ → List ℤ
unfolding insert_sorted
sort [] = []
sort (x ∷ xs) = insert_sorted x (sort xs)

abbrev pub sum_of : List ℤ → ℤ
sum_of [] = pos 0
sum_of (x ∷ xs) = x +ℤ sum_of xs

-- The two clamps of the index, `idx < 0` and `idx >= len`.
abbrev pub clamp_index : ℤ → ℕ → ℕ
clamp_index (pos i) n = if leb n i then n - 1 else i
clamp_index (negsuc i) n = if leb n 0 then n - 1 else 0

-- The floating-point steps: the tests `p <= 0` and `p >= 1`, and `int(p * float64(n))`.
pub record FloatOps : Type 0 where
  pub le_zero : Float64 → Bool
  pub ge_one : Float64 → Bool
  pub trunc_index : Float64 → ℕ → ℤ

-- The literals 0.50, 0.90, 0.95 and 0.99.
abbrev pub p50 : Float64
p50 = decimal 50 2

abbrev pub p90 : Float64
p90 = decimal 90 2

abbrev pub p95 : Float64
p95 = decimal 95 2

abbrev pub p99 : Float64
p99 = decimal 99 2

pub record TailLatency : Type 0 where
  pub p50 : ℤ
  pub p95 : ℤ
  pub max : ℤ

pub record LatencySummary : Type 0 where
  pub avg_ms : Float64
  pub p90_ms : ℤ
  pub p95_ms : ℤ
  pub p99_ms : ℤ

module _ (ops : FloatOps) where
  unfoldable pub percentile_ms : List ℤ → Float64 → ℤ
  percentile_ms [] p = pos 0
  percentile_ms (x ∷ xs) p =
      if ops.le_zero p
      then x
      else if ops.ge_one p
      then at (x ∷ xs) (length xs)
      else at (x ∷ xs) (clamp_index (ops.trunc_index p (length xs)) (length (x ∷ xs)))

  unfoldable pub compute_p50_p95_max : List ℤ → TailLatency
  unfolding percentile_ms sort
  compute_p50_p95_max [] = record { p50 = pos 0; p95 = pos 0; max = pos 0 }
  compute_p50_p95_max (x ∷ xs) =
      let sorted = sort (x ∷ xs) in
      record {
        p50 = percentile_ms sorted p50;
        p95 = percentile_ms sorted p95;
        max = at sorted (length sorted - 1);
      }

  unfoldable pub compute_summary : List ℤ → LatencySummary
  unfolding percentile_ms sort
  compute_summary [] = record {
    avg_ms = zero_float;
    p90_ms = pos 0;
    p95_ms = pos 0;
    p99_ms = pos 0;
  }
  compute_summary (x ∷ xs) =
      let sorted = sort (x ∷ xs) in
      let hundred = of_int (pos 100) in
      let avg = div (of_int (sum_of (x ∷ xs))) (of_int (pos (length (x ∷ xs)))) in
      record {
        avg_ms = div (round (mul avg hundred)) hundred;
        p90_ms = percentile_ms sorted p90;
        p95_ms = percentile_ms sorted p95;
        p99_ms = percentile_ms sorted p99;
      }
