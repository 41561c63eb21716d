-- ===== src/Latency/Samples.antt =====
-- percentiles.go: the samples reach it in the random order of a Go map.
use mathlib.Core.List.{Perm, Permᴰ}
use mathlib.Core.Logic.{∥∥₁_elim}
use load_test_backend.Base.{◌≡◌, refl, ◌∙◌, List, [], ◌∷◌, arith, ℤ, ◌+ℤ◌, length}
use load_test_backend.Latency.Percentiles.{
  insert_sorted, sort, sum_of, FloatOps, compute_p50_p95_max, compute_summary,
}

ℤ_set : IsSet ℤ
ℤ_set = hlevel

List-ℤ-set : IsSet (List ℤ)
List-ℤ-set = hlevel

insert_sorted_comm :
    (x y : ℤ) (zs : List ℤ)
    → insert_sorted x (insert_sorted y zs) ≡ insert_sorted y (insert_sorted x zs)
unfolding insert_sorted
insert_sorted_comm x y [] = ground arith
insert_sorted_comm x y (z ∷ zs) = ground (arith, insert_sorted_comm x y zs)

+ℤ_swap : (x y z : ℤ) → x +ℤ (y +ℤ z) ≡ y +ℤ (x +ℤ z)
unfolding ◌+ℤ◌
+ℤ_swap x y z = ground arith

-- What the two routines read of the samples.
abbrev Same : List ℤ → List ℤ → Type 0
Same xs ys = (sort xs ≡ sort ys) × (sum_of xs ≡ sum_of ys) × (length xs ≡ length ys)

Permᴰ-Same : {xs ys : List ℤ} → Permᴰ xs ys → Same xs ys
unfolding sort
Permᴰ-Same Permᴰ.nil = (refl, refl, refl)
Permᴰ-Same (Permᴰ.cons e p) = let (s, t, l) = Permᴰ-Same p in (cc, cc, omega arith)
Permᴰ-Same (Permᴰ.swap {a = a} {b = b} {l = l} e f) =
    (cc (insert_sorted_comm a b (sort l)), cc (+ℤ_swap a b (sum_of l)), omega arith)
Permᴰ-Same (Permᴰ.trans p q) =
    let (s, t, l) = Permᴰ-Same p in let (s', t', l') = Permᴰ-Same q in (s ∙ s', t ∙ t', l ∙ l')

summary_of_parts :
    (ops : FloatOps) (xs ys : List ℤ) → Same xs ys → compute_summary ops xs ≡ compute_summary ops ys
unfolding compute_summary
summary_of_parts ops [] [] h = refl
summary_of_parts ops [] (y ∷ ys) (s, t, l) = absurd (omega arith)
summary_of_parts ops (x ∷ xs) [] (s, t, l) = absurd (omega arith)
summary_of_parts ops (x ∷ xs) (y ∷ ys) (s, t, l) = cc

tail_of_parts :
    (ops : FloatOps) (xs ys : List ℤ)
    → Same xs ys
    → compute_p50_p95_max ops xs ≡ compute_p50_p95_max ops ys
unfolding compute_p50_p95_max
tail_of_parts ops [] [] h = refl
tail_of_parts ops [] (y ∷ ys) (s, t, l) = absurd (omega arith)
tail_of_parts ops (x ∷ xs) [] (s, t, l) = absurd (omega arith)
tail_of_parts ops (x ∷ xs) (y ∷ ys) (s, t, l) = cc

-- Reordering the samples changes neither the summary nor the p50, p95 and maximum of the report.
pub statistics_perm :
    (ops : FloatOps) (xs ys : List ℤ)
    → Perm xs ys
    → (compute_summary ops xs ≡ compute_summary ops ys)
      × (compute_p50_p95_max ops xs ≡ compute_p50_p95_max ops ys)
statistics_perm ops xs ys p = (summary_of_parts ops xs ys same, tail_of_parts ops xs ys same)
  where
    Same-prop : IsProp (Same xs ys)
    Same-prop = hlevel (List-ℤ-set, ℤ_set)

    same : Same xs ys
    same = ∥∥₁_elim p Same-prop Permᴰ-Same
