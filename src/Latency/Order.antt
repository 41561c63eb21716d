-- ===== src/Latency/Order.antt =====
-- The sorting step of percentiles.go, and the order of the percentiles it feeds.
use mathlib.Core.List.{Perm, Mem, mem-cons_self, mem-cons_of_mem, mem-cons, not-mem-nil}
use mathlib.Core.Logic.Or
use native.Mathlib.Bridge.{le_prop}
use mathlib.Core.List.Perm
use load_test_backend.Base.{
  ℕ, zero, suc, ◌≤◌, ◌<◌, ◌≡◌, refl, List, [], ◌∷◌, arith, ℤ, pos, negsuc, leb_ℤ, ◌≤ℤ◌, length,
  if◌then◌else◌, Bool-cases, inl, inr, All,
}
use load_test_backend.Float.{Float64}
use load_test_backend.Latency.Percentiles.{
  at, insert_sorted, sort, clamp_index, FloatOps, percentile_ms,
}

abbrev pub IsSorted : List ℤ → Type 0
IsSorted [] = Unit
IsSorted (x ∷ xs) = All (λ y. x ≤ℤ y) xs × IsSorted xs

All-below : (x y : ℤ) (ys : List ℤ) → x ≤ℤ y → All (λ z. y ≤ℤ z) ys → All (λ z. x ≤ℤ z) ys
All-below x y [] h a = tt
All-below x y (z ∷ zs) h a = (omega arith, All-below x y zs h a.1)

All-insert_sorted :
    (w x : ℤ) (ys : List ℤ) → w ≤ℤ x → All (λ z. w ≤ℤ z) ys → All (λ z. w ≤ℤ z) (insert_sorted x ys)
unfolding insert_sorted
All-insert_sorted w x [] h a = (h, tt)
All-insert_sorted w x (y ∷ ys) h a = ground (arith, All-insert_sorted w x ys h a.1)

insert_sorted-IsSorted : (x : ℤ) (ys : List ℤ) → IsSorted ys → IsSorted (insert_sorted x ys)
unfolding insert_sorted
insert_sorted-IsSorted x [] s = (tt, tt)
insert_sorted-IsSorted x (y ∷ ys) s = elim (Bool-cases (leb_ℤ x y)) [
  | inl le ↦ rw le ((ground arith, All-below x y ys (ground arith) s.0), s)
  | inr gt ↦ rw gt (All-insert_sorted y x ys (ground arith) s.0, insert_sorted-IsSorted x ys s.1)
]

pub sort-IsSorted : (xs : List ℤ) → IsSorted (sort xs)
unfolding sort
sort-IsSorted [] = tt
sort-IsSorted (x ∷ xs) = insert_sorted-IsSorted x (sort xs) (sort-IsSorted xs)

insert_sorted-perm : (x : ℤ) (ys : List ℤ) → Perm (insert_sorted x ys) (x ∷ ys)
unfolding insert_sorted
insert_sorted-perm x [] = Perm.refl (x ∷ [])
insert_sorted-perm x (y ∷ ys) = elim (Bool-cases (leb_ℤ x y)) [
  | inl le ↦ rw le (Perm.refl (x ∷ y ∷ ys))
  | inr gt ↦ rw gt (Perm.trans (Perm.cons y (insert_sorted-perm x ys)) (Perm.swap x y ys))
]

pub sort-perm : (xs : List ℤ) → Perm (sort xs) xs
unfolding sort
sort-perm [] = Perm.refl []
sort-perm (x ∷ xs) = Perm.trans (insert_sorted-perm x (sort xs)) (Perm.cons x (sort-perm xs))

length-insert_sorted : (x : ℤ) (ys : List ℤ) → length (insert_sorted x ys) ≡ suc (length ys)
unfolding insert_sorted
length-insert_sorted x [] = refl
length-insert_sorted x (y ∷ ys) = ground (arith, length-insert_sorted x ys)

pub length-sort : (xs : List ℤ) → length (sort xs) ≡ length xs
unfolding sort
length-sort [] = refl
length-sort (x ∷ xs) = omega (arith, length-insert_sorted x (sort xs), length-sort xs)

at-mem : (xs : List ℤ) (i : ℕ) → i < length xs → Mem (at xs i) xs
at-mem [] i h = elim h [ ]
at-mem (x ∷ xs) zero h = mem-cons_self
at-mem (x ∷ xs) (suc i) h = mem-cons_of_mem x (at-mem xs i (omega arith))

All-at : (x : ℤ) (xs : List ℤ) (i : ℕ) → i < length xs → All (λ y. x ≤ℤ y) xs → x ≤ℤ at xs i
All-at x [] i h a = elim h [ ]
All-at x (y ∷ ys) zero h a = a.0
All-at x (y ∷ ys) (suc i) h a = All-at x ys i (omega arith) a.1

pub at_mono : (xs : List ℤ) (i j : ℕ) → IsSorted xs → i ≤ j → j < length xs → at xs i ≤ℤ at xs j
at_mono [] i j s h l = elim l [ ]
at_mono (x ∷ xs) zero zero s h l = omega arith
at_mono (x ∷ xs) zero (suc j) s h l = All-at x xs j (omega arith) s.0
at_mono (x ∷ xs) (suc i) zero s h l = absurd (omega arith)
at_mono (x ∷ xs) (suc i) (suc j) s h l = at_mono xs i j s.1 (omega arith) (omega arith)

clamp_index-lt : (z : ℤ) (n : ℕ) → 0 < n → clamp_index z n < n
clamp_index-lt (pos i) n h = ground arith
clamp_index-lt (negsuc i) n h = ground arith

pub clamp_index_mono : (a b : ℤ) (n : ℕ) → a ≤ℤ b → clamp_index a n ≤ clamp_index b n
clamp_index_mono (pos i) (pos j) n h = ground arith
clamp_index_mono (pos i) (negsuc j) n h = absurd (omega arith)
clamp_index_mono (negsuc i) (pos j) n h = ground arith
clamp_index_mono (negsuc i) (negsuc j) n h = ground arith

pub sorted_mem : (x : ℤ) (xs : List ℤ) (i : ℕ) → i ≤ length xs → Mem (at (sort (x ∷ xs)) i) (x ∷ xs)
sorted_mem x xs i h =
    Perm.subset (sort-perm (x ∷ xs)) _
      (at-mem (sort (x ∷ xs)) i (omega (arith, length-sort (x ∷ xs))))

sorted_le_last :
    (y x : ℤ) (xs : List ℤ) → IsSorted (x ∷ xs) → Mem y (x ∷ xs) → y ≤ℤ at (x ∷ xs) (length xs)
sorted_le_last y x [] s m =
    Or.elim le_prop (mem-cons.0 m) (λ e. rw e (omega arith)) (λ n. absurd (not-mem-nil n))
sorted_le_last y x (z ∷ zs) s m =
    Or.elim le_prop (mem-cons.0 m) (λ e. rw e (All-at x (z ∷ zs) (length zs) (omega arith) s.0))
      (λ n. sorted_le_last y z zs s.1 n)

sorted_le_at :
    (y : ℤ) (ys : List ℤ) (n : ℕ) → length ys ≡ suc n → IsSorted ys → Mem y ys → y ≤ℤ at ys n
sorted_le_at y [] n e s m = absurd (omega arith)
sorted_le_at y (z ∷ zs) n e s m =
    let e' : n ≡ length zs = omega arith in rw e' (sorted_le_last y z zs s m)

-- Every sample is at most the last of the sorted samples.
pub sort_le_last :
    (x : ℤ) (xs : List ℤ) (y : ℤ) → Mem y (x ∷ xs) → y ≤ℤ at (sort (x ∷ xs)) (length xs)
sort_le_last x xs y m =
    sorted_le_at y (sort (x ∷ xs)) (length xs) (length-sort (x ∷ xs)) (sort-IsSorted (x ∷ xs))
      (Perm.subset (Perm.symm (sort-perm (x ∷ xs))) _ m)

module _ (ops : FloatOps) where
  -- The index that `percentile_ms` reads a list with `suc n` elements at.
  abbrev pub rank_index : Float64 → ℕ → ℕ
  rank_index p n =
      if ops.le_zero p
      then 0
      else if ops.ge_one p
      then n
      else clamp_index (ops.trunc_index p n) (suc n)

  pub rank_index-le : (p : Float64) (n : ℕ) → rank_index p n ≤ n
  rank_index-le p n = ground (arith, clamp_index-lt (ops.trunc_index p n) (suc n))

  pub percentile_ms-at :
      (xs : List ℤ) (p : Float64) (n : ℕ)
      → length xs ≡ suc n
      → percentile_ms ops xs p ≡ at xs (rank_index p n)
  unfolding percentile_ms
  percentile_ms-at [] p n e = absurd (omega arith)
  percentile_ms-at (x ∷ xs) p n e = let e' : length xs ≡ n = omega arith in rw e' (ground arith)

  pub percentile-sorted_mem :
      (x : ℤ) (xs : List ℤ) (p : Float64) → Mem (percentile_ms ops (sort (x ∷ xs)) p) (x ∷ xs)
  percentile-sorted_mem x xs p =
      rw (percentile_ms-at (sort (x ∷ xs)) p (length xs) (length-sort (x ∷ xs)))
        (sorted_mem x xs (rank_index p (length xs)) (rank_index-le p (length xs)))

  pub percentile-sorted_le :
      (x : ℤ) (xs : List ℤ) (p : Float64) (j : ℕ)
      → rank_index p (length xs) ≤ j
      → j ≤ length xs
      → percentile_ms ops (sort (x ∷ xs)) p ≤ℤ at (sort (x ∷ xs)) j
  percentile-sorted_le x xs p j h k =
      rw (percentile_ms-at (sort (x ∷ xs)) p (length xs) (length-sort (x ∷ xs))) (
        at_mono (sort (x ∷ xs)) (rank_index p (length xs)) j (sort-IsSorted (x ∷ xs)) h
          (omega (arith, length-sort (x ∷ xs))))
