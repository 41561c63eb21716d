-- ===== src/Pacing/Spacing.antt =====
-- routes.go, `pacingThrottle.Acquire`: how far apart the grants of a run are.
use load_test_backend.Base.{
  ℕ, ◌+◌, ◌≤◌, ◌≡◌, refl, subst, ◌∙◌, String, List, [], ◌∷◌, arith, leb, string_eq, not, ◌||◌, ◌&&◌,
  ltb, Bool-cases, inl, inr,
}
use load_test_backend.Pacing.{
  PacingThrottle, Attempt, Ended, unpaced, canceled, trying, granted, next_or, wait_of, begin_round,
  deny, acquire_loop, acquire,
}

-- The earliest time of the next grant.
abbrev pub earliest : PacingThrottle → ℕ
earliest t = next_or 0 t.next

-- What a call does: a grant comes no earlier than `next`, which then moves an interval past it; no other
-- end moves `next` back.
abbrev Paced : ℕ → ℕ → Ended × PacingThrottle → Type 0
Paced from interval (unpaced, t') = (from ≤ earliest t') × (t'.interval ≡ interval)
Paced from interval (canceled, t') = (from ≤ earliest t') × (t'.interval ≡ interval)
Paced from interval (trying, t') = (from ≤ earliest t') × (t'.interval ≡ interval)
Paced from interval (granted at, t') =
    ((from ≤ at) × (earliest t' ≡ at + interval)) × (t'.interval ≡ interval)

begin-earliest :
    (a : Attempt) (t : PacingThrottle)
    → (earliest t ≤ earliest (begin_round a t))
      × (earliest t ≤ a.now + wait_of a t)
      × ((begin_round a t).interval ≡ t.interval)
unfolding begin_round
begin-earliest a t = ground arith

deny-next : (reason : String) (t : PacingThrottle) → (deny reason t).next ≡ t.next
unfolding deny
deny-next reason t = ground arith

deny-interval : (reason : String) (t : PacingThrottle) → (deny reason t).interval ≡ t.interval
unfolding deny
deny-interval reason t = ground arith

Paced-from :
    (from from' interval : ℕ) (r : Ended × PacingThrottle)
    → from ≤ from'
    → Paced from' interval r
    → Paced from interval r
Paced-from from from' interval (unpaced, t) h p = (omega arith, p.1)
Paced-from from from' interval (canceled, t) h p = (omega arith, p.1)
Paced-from from from' interval (trying, t) h p = (omega arith, p.1)
Paced-from from from' interval (granted at, t) h p = ((omega arith, p.0.1), p.1)

acquire_loop-Paced :
    (rounds : List Attempt) (t : PacingThrottle)
    → Paced (earliest t) t.interval (acquire_loop rounds t)
unfolding acquire_loop
acquire_loop-Paced [] t = (omega arith, refl)
acquire_loop-Paced (a ∷ rounds) t =
    let begun = begin_round a t in
    let denied = deny a.reason begun in
    let moved = begin-earliest a t in
    let same = deny-next a.reason begun in
    let kept = deny-interval a.reason begun in
    let le : earliest t ≤ earliest denied = ground (arith, moved, same) in
    let kept' : denied.interval ≡ t.interval = kept ∙ moved.2 in
    let ih = acquire_loop-Paced rounds denied in
    elim (Bool-cases (a.canceled_waiting && ltb 0 (wait_of a t))) [
      | inl c ↦ rw c (ground arith)
      | inr c ↦ elim (Bool-cases a.allowed) [
        | inl g ↦ rw (c, g) (ground arith)
        | inr g ↦ elim (Bool-cases a.canceled_retry) [
          | inl r ↦ rw (c, g, r) (le, kept')
          | inr r ↦
              rw (c, g, r)
                (subst (λ i. Paced (earliest t) i (acquire_loop rounds denied)) kept'
                  (Paced-from (earliest t) (earliest denied) denied.interval
                    (acquire_loop rounds denied) le ih))
        ]
      ]
    ]

acquire-Paced :
    (rounds : List Attempt) (t : PacingThrottle) → Paced (earliest t) t.interval (acquire rounds t)
unfolding acquire
acquire-Paced rounds t = elim (Bool-cases (not t.has_base || leb t.interval 0)) [
  | inl u ↦ rw u (ground arith)
  | inr u ↦ rw u (acquire_loop-Paced rounds t)
]

-- The grant times of a sequence of calls.
abbrev pub note_grant : Ended → List ℕ → List ℕ
note_grant unpaced gs = gs
note_grant canceled gs = gs
note_grant trying gs = gs
note_grant (granted at) gs = at ∷ gs

unfoldable pub grants : List (List Attempt) → PacingThrottle → List ℕ
grants [] t = []
grants (rounds ∷ calls) t = note_grant (acquire rounds t).0 (grants calls (acquire rounds t).1)

-- The first time is `from` or later, and each other an interval or more after the one before it.
abbrev pub Spaced : ℕ → ℕ → List ℕ → Type 0
Spaced interval from [] = Unit
Spaced interval from (g ∷ gs) = (from ≤ g) × Spaced interval (g + interval) gs

Spaced-from :
    (interval from from' : ℕ) (gs : List ℕ)
    → from ≤ from'
    → Spaced interval from' gs
    → Spaced interval from gs
Spaced-from interval from from' [] h s = tt
Spaced-from interval from from' (g ∷ gs) h s = (omega arith, s.1)

note-Spaced :
    (interval from : ℕ) (r : Ended × PacingThrottle) (gs : List ℕ)
    → Paced from interval r
    → Spaced interval (earliest r.1) gs
    → Spaced interval from (note_grant r.0 gs)
note-Spaced interval from (unpaced, t) gs p s = Spaced-from interval from (earliest t) gs p.0 s
note-Spaced interval from (canceled, t) gs p s = Spaced-from interval from (earliest t) gs p.0 s
note-Spaced interval from (trying, t) gs p s = Spaced-from interval from (earliest t) gs p.0 s
note-Spaced interval from (granted at, t) gs p s =
    (p.0.0, subst (λ n. Spaced interval n gs) p.0.1 s)

Paced-interval :
    (from interval : ℕ) (r : Ended × PacingThrottle)
    → Paced from interval r
    → r.1.interval ≡ interval
Paced-interval from interval (unpaced, t) p = p.1
Paced-interval from interval (canceled, t) p = p.1
Paced-interval from interval (trying, t) p = p.1
Paced-interval from interval (granted at, t) p = p.1

-- Whatever the base limiter answers, wherever the context is done and however late the timers fire, the
-- grants of a sequence of calls on one throttle are at least its interval apart.
pub grants-Spaced :
    (calls : List (List Attempt)) (t : PacingThrottle)
    → Spaced t.interval (earliest t) (grants calls t)
unfolding grants
grants-Spaced [] t = tt
grants-Spaced (rounds ∷ calls) t =
    let r = acquire rounds t in
    let p = acquire-Paced rounds t in
    note-Spaced t.interval (earliest t) r (grants calls r.1) p (
      subst (λ i. Spaced i (earliest r.1) (grants calls r.1))
        (Paced-interval (earliest t) t.interval r p) (grants-Spaced calls r.1))
