-- ===== src/Coordinator/Windows.antt =====
-- coordinator.go, `shouldCorrupt`: how many payloads of a window of `errorInjectRPS` go out wrong.
use load_test_backend.Base.{
  ℕ, zero, suc, ◌+◌, ◌*◌, ◌/◌, ◌%◌, ◌≤◌, ◌<◌, ◌≡◌, ap, ◌∙◌, true, List, [], ◌∷◌, arith, count_if,
  ltb, refl, min, if◌then◌else◌,
}
use native.Mathlib.Nat.{mul-add-mod_self_right, mod-eq_of_lt, add-zero}
use load_test_backend.Coordinator.{Settings, wrong_count, should_corrupt}

-- `n` indices from `i` on.
unfoldable pub indices : ℕ → ℕ → List ℕ
indices i zero = []
indices i (suc n) = i ∷ indices (i + 1) n

module _ (c : Settings) (on : c.error_inject_enabled ≡ true) (many : 1 < c.error_inject_rps) where
  abbrev rps : ℕ
  rps = c.error_inject_rps

  -- An index by its window and its place there.
  should_corrupt-place :
      (i j : ℕ) → i ≡ 0 * rps + j → j < rps → should_corrupt c i ≡ ltb j (wrong_count rps)
  unfolding should_corrupt
  should_corrupt-place i j p q =
      let place : i % rps ≡ j =
        ap (λ n. n % rps) p ∙ mul-add-mod_self_right 0 rps j ∙ mod-eq_of_lt q in
      ground arith

  corrupt-places :
      (n i j : ℕ)
      → i ≡ 0 * rps + j
      → j + n ≤ rps
      → count_if (should_corrupt c) (indices i n) + min j (wrong_count rps)
        ≡ min (j + n) (wrong_count rps)
  unfolding indices
  corrupt-places zero i j p q = omega arith
  corrupt-places (suc n) i j p q =
      let ih = corrupt-places n (i + 1) (j + 1) (omega arith) (omega arith) in
      let here = should_corrupt-place i j p (omega arith) in ground arith

  wrong_count-le : wrong_count rps ≤ rps
  unfolding wrong_count
  wrong_count-le = ground arith

  should_corrupt-again : (i : ℕ) → should_corrupt c (i + rps) ≡ should_corrupt c i
  unfolding should_corrupt
  should_corrupt-again i =
      let place : (i + rps) % rps ≡ i % rps =
        ap (λ n. n % rps) (omega arith) ∙ mul-add-mod_self_right 1 rps i in
      ground arith

  -- A window that moves on by one index loses its first one and gains the next.
  slide :
      (n i : ℕ)
      → count_if (should_corrupt c) (indices (i + 1) n) + (if should_corrupt c i then 1 else 0)
        ≡ count_if (should_corrupt c) (indices i n) + (if should_corrupt c (i + n) then 1 else 0)
  unfolding indices
  slide zero i = rw add-zero refl
  slide (suc n) i =
      let ih = slide n (i + 1) in
      let same : should_corrupt c (i + 1 + n) ≡ should_corrupt c (i + suc n) =
        ap (should_corrupt c) (omega arith) in
      ground arith

  corrupt-from : (i : ℕ) → count_if (should_corrupt c) (indices i rps) ≡ wrong_count rps
  corrupt-from zero =
      let places = corrupt-places rps 0 0 (omega arith) (omega arith) in
      let le = wrong_count-le in omega arith
  corrupt-from (suc i) =
      let next : suc i ≡ i + 1 = omega arith in
      let ih = corrupt-from i in
      let moved = slide rps i in let again = should_corrupt-again i in rw next (ground arith)

  -- With error injection on and a rate above one, every window of as many consecutive indices as the
  -- rate, wherever it starts, has one payload that goes out wrong when the rate is below ten, and a
  -- tenth of the rate, rounded down, otherwise.
  pub corrupt-window :
      (i : ℕ) → count_if (should_corrupt c) (indices i rps) ≡ (if ltb rps 10 then 1 else rps / 10)
  unfolding wrong_count
  corrupt-window i = corrupt-from i ∙ ground arith
