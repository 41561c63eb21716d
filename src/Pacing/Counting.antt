-- ===== src/Pacing/Counting.antt =====
-- routes.go, `pacingThrottle.Acquire`: the statistics that a run reports of its throttle.
use load_test_backend.Base.{
  ℕ, ◌+◌, ◌≡◌, refl, String, List, [], ◌∷◌, arith, length, leb, ltb, string_eq, not, ◌||◌, ◌&&◌,
  Bool-cases, inl, inr,
}
use load_test_backend.Pacing.{
  PacingThrottle, Attempt, Ended, unpaced, canceled, trying, granted, wait_of, begin_round, deny,
  acquire_loop, acquire,
}
use load_test_backend.Pacing.Spacing.{grants, note_grant}

abbrev pub denials : PacingThrottle → ℕ
denials t = t.deny_global + t.deny_session + t.deny_other

abbrev pub grant_count : Ended → ℕ
grant_count unpaced = 0
grant_count canceled = 0
grant_count trying = 0
grant_count (granted at) = 1

-- The statistics after a call, over those before it.
abbrev Counted : PacingThrottle → Ended × PacingThrottle → Type 0
Counted t r =
    (r.1.allowed_calls ≡ t.allowed_calls + grant_count r.0)
    × (r.1.retry_count + denials t ≡ denials r.1 + t.retry_count)

begin-denials :
    (a : Attempt) (t : PacingThrottle)
    → (denials (begin_round a t) ≡ denials t)
      × ((begin_round a t).retry_count ≡ t.retry_count)
      × ((begin_round a t).allowed_calls ≡ t.allowed_calls)
unfolding begin_round
begin-denials a t = (refl, refl, refl)

deny-denials :
    (reason : String) (t : PacingThrottle)
    → (denials (deny reason t) ≡ denials t + 1)
      × ((deny reason t).retry_count ≡ t.retry_count + 1)
      × ((deny reason t).allowed_calls ≡ t.allowed_calls)
unfolding deny
deny-denials reason t = ground arith

acquire_loop-Counted :
    (rounds : List Attempt) (t : PacingThrottle) → Counted t (acquire_loop rounds t)
unfolding acquire_loop
acquire_loop-Counted [] t = ground arith
acquire_loop-Counted (a ∷ rounds) t =
    let begun = begin_round a t in
    let b = begin-denials a t in
    let d = deny-denials a.reason begun in
    let ih = acquire_loop-Counted rounds (deny a.reason begun) in
    elim (Bool-cases (a.canceled_waiting && ltb 0 (wait_of a t))) [
      | inl c ↦ rw c (omega arith, omega arith)
      | inr c ↦ elim (Bool-cases a.allowed) [
        | inl g ↦ rw (c, g) (omega arith, omega arith)
        | inr g ↦ elim (Bool-cases a.canceled_retry) [
          | inl r ↦ rw (c, g, r) (omega arith, omega arith)
          | inr r ↦ rw (c, g, r) (omega arith, omega arith)
        ]
      ]
    ]

acquire-Counted : (rounds : List Attempt) (t : PacingThrottle) → Counted t (acquire rounds t)
unfolding acquire
acquire-Counted rounds t = elim (Bool-cases (not t.has_base || leb t.interval 0)) [
  | inl u ↦ rw u (omega arith, omega arith)
  | inr u ↦ rw u (acquire_loop-Counted rounds t)
]

unfoldable pub after_calls : List (List Attempt) → PacingThrottle → PacingThrottle
after_calls [] t = t
after_calls (rounds ∷ calls) t = after_calls calls (acquire rounds t).1

length-note_grant : (r : Ended) (gs : List ℕ) → length (note_grant r gs) ≡ grant_count r + length gs
length-note_grant unpaced gs = omega arith
length-note_grant canceled gs = omega arith
length-note_grant trying gs = omega arith
length-note_grant (granted at) gs = omega arith

-- Over a sequence of calls on one throttle, the allowed calls of the statistics grow by the number of
-- the grants, and the retries by as many as the denials for all reasons together.
pub after_calls-denials :
    (calls : List (List Attempt)) (t : PacingThrottle)
    → ((after_calls calls t).allowed_calls ≡ t.allowed_calls + length (grants calls t))
      × ((after_calls calls t).retry_count + denials t
          ≡ denials (after_calls calls t) + t.retry_count)
unfolding after_calls grants
after_calls-denials [] t = (omega arith, omega arith)
after_calls-denials (rounds ∷ calls) t =
    let r = acquire rounds t in
    let step = acquire-Counted rounds t in
    let ih = after_calls-denials calls r.1 in
    let l = length-note_grant r.0 (grants calls r.1) in (omega arith, omega arith)
