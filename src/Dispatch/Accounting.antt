-- ===== src/Dispatch/Accounting.antt =====
-- dispatcher.go: the results of the loop against its payloads.
use load_test_backend.Base.{ℕ, ◌+◌, ◌≤◌, ◌≡◌, refl, List, [], ◌∷◌, arith, length}
use load_test_backend.Dispatch.{
  DispatchResult, Round, abandon, dispatch_from, dispatch_concurrent_throttled, launched_from,
  count_success, count_errors,
}

-- The results are numbered from `i` on.
abbrev pub Numbered : ℕ → List DispatchResult → Type 0
Numbered i [] = Unit
Numbered i (r ∷ rs) = (r.index ≡ i) × Numbered (i + 1) rs

module _ {P : Type 0} where
  abandon-Numbered : (i : ℕ) (ps : List P) → Numbered i (abandon i ps)
  unfolding abandon
  abandon-Numbered i [] = tt
  abandon-Numbered i (p ∷ ps) = (refl, abandon-Numbered (i + 1) ps)

  length-abandon : (i : ℕ) (ps : List P) → length (abandon i ps) ≡ length ps
  unfolding abandon
  length-abandon i [] = refl
  length-abandon i (p ∷ ps) = omega (arith, length-abandon (i + 1) ps)

  count_success-abandon : (i : ℕ) (ps : List P) → count_success (abandon i ps) ≡ 0
  unfolding abandon count_success
  count_success-abandon i [] = refl
  count_success-abandon i (p ∷ ps) = omega (arith, count_success-abandon (i + 1) ps)

count-split : (rs : List DispatchResult) → count_success rs + count_errors rs ≡ length rs
unfolding count_success count_errors
count-split [] = omega arith
count-split (r ∷ rs) = ground (arith, count-split rs)

module _ {P : Type 0} (rounds : ℕ → Round) (send : ℕ → P → DispatchResult) where
  length-dispatch_from : (i : ℕ) (ps : List P) → length (dispatch_from rounds send i ps) ≡ length ps
  unfolding dispatch_from
  length-dispatch_from i [] = refl
  length-dispatch_from i (p ∷ ps) =
      ground (arith, length-dispatch_from (i + 1) ps, length-abandon (i + 1) ps)

  dispatch_from-Numbered :
      ((i : ℕ) (p : P) → (send i p).index ≡ i)
      → (i : ℕ) (ps : List P) → Numbered i (dispatch_from rounds send i ps)
  unfolding dispatch_from abandon
  dispatch_from-Numbered h i [] = tt
  dispatch_from-Numbered h i (p ∷ ps) =
      ground (arith, h i p, dispatch_from-Numbered h (i + 1) ps, abandon-Numbered (i + 1) ps)

  success-le-launched :
      (i : ℕ) (ps : List P)
      → count_success (dispatch_from rounds send i ps) ≤ length (launched_from rounds send i ps)
  unfolding dispatch_from launched_from count_success abandon
  success-le-launched i [] = omega arith
  success-le-launched i (p ∷ ps) =
      ground (arith, success-le-launched (i + 1) ps, count_success-abandon (i + 1) ps)

  -- If each send reports its own index, the dispatcher returns one result for each payload, numbered
  -- in the order of the payloads; successes and errors add up to the payloads, and there are no more
  -- successes than payloads that were launched.
  pub dispatch_accounts :
      (ps : List P)
      → ((i : ℕ) (p : P) → (send i p).index ≡ i)
      → (length (dispatch_concurrent_throttled rounds send ps) ≡ length ps)
        × Numbered 0 (dispatch_concurrent_throttled rounds send ps)
        × (count_success (dispatch_concurrent_throttled rounds send ps)
              + count_errors (dispatch_concurrent_throttled rounds send ps)
            ≡ length ps)
        × (count_success (dispatch_concurrent_throttled rounds send ps)
            ≤ length (launched_from rounds send 0 ps))
  unfolding dispatch_concurrent_throttled
  dispatch_accounts ps h = (
    length-dispatch_from 0 ps,
    dispatch_from-Numbered h 0 ps,
    omega (arith, count-split (dispatch_from rounds send 0 ps), length-dispatch_from 0 ps),
    success-le-launched 0 ps,
  )
