-- ===== src/Dispatch/Semaphore.antt =====
-- dispatcher.go, DispatchConcurrentThrottled: the loop, the channel `sem` and the wait group, as interleavings of the
-- loop and the goroutines that it starts. Each step is one operation on the channel or on the group.
use load_test_backend.Base.{
  ℕ, zero, suc, ◌+◌, ◌*◌, ◌≤◌, ◌<◌, ◌≡◌, ◌⊎◌, inl, inr, refl, arith, Bool, true, false, Bool-cases,
  ltb, ltb→lt, if◌then◌else◌,
}
use load_test_backend.Dispatch.{in_flight_limit}

-- Where the loop is: at the top of a round, past `sem <- struct{}{}`, past `wg.Add(1)`, at `wg.Wait()`,
-- and past it.
pub data LoopAt : Type 0 where
  top took added waiting returned : LoopAt

pub record Pool : Type 0 where
  -- the payloads that the loop has not come to
  pub left : ℕ
  pub place : LoopAt
  -- the values in the channel, and the counter of the group
  pub sem : ℕ
  pub wg : ℕ
  -- the goroutines in `sendFn`, and those that have received from `sem` and not yet called `wg.Done`
  pub sending : ℕ
  pub releasing : ℕ

abbrev pub begin_pool : ℕ → Pool
begin_pool payloads = record {
  left = payloads;
  place = top;
  sem = 0;
  wg = 0;
  sending = 0;
  releasing = 0;
}

pub data Step (max_in_flight : ℕ) : Pool → Pool → Type 0 where
  -- the throttle refuses the payload: `continue`
  deny :
      (p : Pool) (n : ℕ)
      → p.place ≡ top
      → p.left ≡ suc n
      → Step max_in_flight p (record p { left = n })
  -- the context is done, at the top or in the select
  cancel :
      (p : Pool) (n : ℕ)
      → p.place ≡ top
      → p.left ≡ suc n
      → Step max_in_flight p (record p { place = waiting })
  exhaust :
      (p : Pool) → p.place ≡ top → p.left ≡ 0 → Step max_in_flight p (record p { place = waiting })
  take :
      (p : Pool) (n : ℕ)
      → p.place ≡ top
      → p.left ≡ suc n
      → p.sem < in_flight_limit max_in_flight
      → Step max_in_flight p (record p { left = n; place = took; sem = p.sem + 1 })
  -- the context is done after the channel took the value, which stays there
  break_off : (p : Pool) → p.place ≡ took → Step max_in_flight p (record p { place = waiting })
  add :
      (p : Pool) → p.place ≡ took → Step max_in_flight p (record p { place = added; wg = p.wg + 1 })
  launch :
      (p : Pool)
      → p.place ≡ added
      → Step max_in_flight p (record p { place = top; sending = p.sending + 1 })
  -- the deferred `<-sem` of a goroutine, which waits for a value
  release :
      (p : Pool) (n s : ℕ)
      → p.sending ≡ suc n
      → p.sem ≡ suc s
      → Step max_in_flight p (record p { sending = n; sem = s; releasing = p.releasing + 1 })
  -- its deferred `wg.Done()`
  finish :
      (p : Pool) (n k : ℕ)
      → p.releasing ≡ suc n
      → p.wg ≡ suc k
      → Step max_in_flight p (record p { releasing = n; wg = k })
  come_back :
      (p : Pool)
      → p.place ≡ waiting
      → p.wg ≡ 0
      → Step max_in_flight p (record p { place = returned })

-- The states after so many steps.
pub data Reach (max_in_flight payloads : ℕ) : ℕ → Pool → Type 0 where
  start : Reach max_in_flight payloads zero (begin_pool payloads)
  next :
      {n : ℕ} {p q : Pool}
      → Reach max_in_flight payloads n p
      → Step max_in_flight p q
      → Reach max_in_flight payloads (suc n) q

-- The values in the channel that the loop holds, those that no goroutine will receive at most, and the
-- goroutine that the group counts before it runs.
abbrev held : LoopAt → ℕ
held top = 0
held took = 1
held added = 1
held waiting = 0
held returned = 0

abbrev stranded : LoopAt → ℕ
stranded top = 0
stranded took = 0
stranded added = 0
stranded waiting = 1
stranded returned = 1

abbrev counted : LoopAt → ℕ
counted top = 0
counted took = 0
counted added = 1
counted waiting = 0
counted returned = 0

-- A bound on the steps that are left.
abbrev place_steps : LoopAt → ℕ
place_steps top = 2
place_steps took = 6
place_steps added = 5
place_steps waiting = 1
place_steps returned = 0

abbrev pub steps_left : Pool → ℕ
steps_left p = p.left * 5 + place_steps p.place + p.sending * 2 + p.releasing

record IsSound (max_in_flight : ℕ) (p : Pool) : Type 0 where
  within : p.sem ≤ in_flight_limit max_in_flight
  taken : p.sending + held p.place ≤ p.sem
  owned : p.sem ≤ p.sending + held p.place + stranded p.place
  grouped : p.wg ≡ p.sending + p.releasing + counted p.place
  over : (p.place ≡ returned) → p.wg ≡ 0

Step-IsSound : {m : ℕ} {p q : Pool} → Step m p q → IsSound m p → IsSound m q
Step-IsSound (deny p n a b) h = ground arith
Step-IsSound (cancel p n a b) h = ground arith
Step-IsSound (exhaust p a b) h = ground arith
Step-IsSound (take p n a b c) h = ground arith
Step-IsSound (break_off p a) h = ground arith
Step-IsSound (add p a) h = ground arith
Step-IsSound (launch p a) h = ground arith
Step-IsSound (release p n s a b) h = ground arith
Step-IsSound (finish p n k a b) h = ground arith
Step-IsSound (come_back p a b) h = ground arith

Step-steps_left : {m : ℕ} {p q : Pool} → Step m p q → steps_left q < steps_left p
Step-steps_left (deny p n a b) = ground arith
Step-steps_left (cancel p n a b) = ground arith
Step-steps_left (exhaust p a b) = ground arith
Step-steps_left (take p n a b c) = ground arith
Step-steps_left (break_off p a) = ground arith
Step-steps_left (add p a) = ground arith
Step-steps_left (launch p a) = ground arith
Step-steps_left (release p n s a b) = ground arith
Step-steps_left (finish p n k a b) = ground arith
Step-steps_left (come_back p a b) = ground arith

Reach-IsSound : {m k n : ℕ} {p : Pool} → Reach m k n p → IsSound m p
unfolding in_flight_limit
Reach-IsSound start = record {
  within = omega arith;
  taken = omega arith;
  owned = omega arith;
  grouped = refl;
  over = λ e. refl;
}
Reach-IsSound (next r s) = Step-IsSound s (Reach-IsSound r)

Reach-steps_left : {m k n : ℕ} {p : Pool} → Reach m k n p → n + steps_left p ≤ k * 5 + 2
Reach-steps_left start = omega arith
Reach-steps_left (next r s) = omega (arith, Reach-steps_left r, Step-steps_left s)

-- The steps that come from outside: a refusal of the throttle, or the end of the context.
abbrev pub is_outside : {m : ℕ} {p q : Pool} → Step m p q → Bool
is_outside (deny p n a b) = true
is_outside (cancel p n a b) = true
is_outside (exhaust p a b) = false
is_outside (take p n a b c) = false
is_outside (break_off p a) = true
is_outside (add p a) = false
is_outside (launch p a) = false
is_outside (release p n s a b) = false
is_outside (finish p n k a b) = false
is_outside (come_back p a b) = false

abbrev pub Proceeds : ℕ → Pool → Type 0
Proceeds m p = (q : Pool) × (s : Step m p q) × (is_outside s ≡ false)

ℕ-cases : (n : ℕ) → (n ≡ 0) ⊎ ((k : ℕ) × (n ≡ suc k))
ℕ-cases zero = inl refl
ℕ-cases (suc k) = inr (k, refl)

module _ (m : ℕ) (p : Pool) (h : IsSound m p) where
  -- A goroutine that sends finds a value to receive.
  release-Proceeds : (n : ℕ) → p.sending ≡ suc n → Proceeds m p
  release-Proceeds n e = elim (ℕ-cases p.sem) [
    | inl none ↦ absurd (omega (arith, h.taken))
    | inr (s, some) ↦ (_, release p n s e some, refl)
  ]

  waiting-Proceeds : p.place ≡ waiting → Proceeds m p
  waiting-Proceeds e = elim (ℕ-cases p.wg) [
    | inl none ↦ (_, come_back p e none, refl)
    | inr (k, some) ↦ elim (ℕ-cases p.releasing) [
      | inl idle ↦ elim (ℕ-cases p.sending) [
        | inl quiet ↦ let grouped = h.grouped in absurd (ground arith)
        | inr (n, busy) ↦ release-Proceeds n busy
      ]
      | inr (n, busy) ↦ (_, finish p n k busy some, refl)
    ]
  ]

  top-Proceeds : p.place ≡ top → Proceeds m p
  unfolding in_flight_limit
  top-Proceeds e = elim (ℕ-cases p.left) [
    | inl done ↦ (_, exhaust p e done, refl)
    | inr (n, more) ↦ elim (Bool-cases (ltb p.sem (in_flight_limit m))) [
      | inl free ↦ (_, take p n e more (ltb→lt p.sem (in_flight_limit m) free), refl)
      | inr full ↦ elim (ℕ-cases p.sending) [
        | inl quiet ↦ let owned = h.owned in absurd (ground arith)
        | inr (k, busy) ↦ release-Proceeds k busy
      ]
    ]
  ]

  over-or-Proceeds :
      (place : LoopAt)
      → p.place ≡ place
      → ((p.place ≡ returned) × (p.sending ≡ 0) × (p.releasing ≡ 0)) ⊎ Proceeds m p
  over-or-Proceeds top e = inr (top-Proceeds e)
  over-or-Proceeds took e = inr (_, add p e, refl)
  over-or-Proceeds added e = inr (_, launch p e, refl)
  over-or-Proceeds waiting e = inr (waiting-Proceeds e)
  over-or-Proceeds returned e =
      let empty = h.over e in let grouped = h.grouped in inl (e, ground arith, ground arith)

-- However the loop and its goroutines interleave, at most `max_in_flight` sends, or 256 when that is 0,
-- run at once, and a run has at most two steps and five for each payload. It never gets stuck:
-- unless the loop has returned, and then no goroutine is in its send or between that and its
-- `wg.Done`, a step is possible that needs neither a refusal of the throttle nor the end of the context.
pub in_flight_bounded :
    (max_in_flight payloads n : ℕ) (p : Pool)
    → Reach max_in_flight payloads n p
    → (p.sending ≤ (if ltb 0 max_in_flight then max_in_flight else 256))
      × (n ≤ payloads * 5 + 2)
      × (((p.place ≡ returned) × (p.sending ≡ 0) × (p.releasing ≡ 0)) ⊎ Proceeds max_in_flight p)
unfolding in_flight_limit
in_flight_bounded max_in_flight payloads n p r =
    let h = Reach-IsSound r in
    let within = h.within in
    let taken = h.taken in
    (
      ground arith,
      omega (arith, Reach-steps_left r),
      over-or-Proceeds max_in_flight p h p.place refl,
    )
