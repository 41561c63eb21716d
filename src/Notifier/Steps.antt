-- ===== src/Notifier/Steps.antt =====
-- callback_notifier.go, `Notify` and `WaitForCount` side by side on one slot: any number of callers of
-- `Notify`, each between its `ctr.Add` and its send for a while, and one waiter.
use load_test_backend.Base.{
  ℕ, zero, suc, ◌+◌, ◌≤◌, ◌<◌, ◌≡◌, refl, Bool, true, false, ◌⊎◌, inl, inr, arith,
}

-- Where the call of `WaitForCount` is: about to compare the counter with the target, past a comparison
-- that succeeded, in the `select`, and back with a count.
pub data Waiter : Type 0 where
  checking reporting blocked : Waiter
  returned : ℕ → Waiter
  -- after the deadline
  returned_late : ℕ → Waiter

pub record State : Type 0 where
  pub counter : ℕ
  pub signal : Bool
  -- the callers of `Notify` that have added and not yet sent
  pub pending : ℕ
  pub waiter : Waiter

pub data Step (target : ℕ) : State → State → Type 0 where
  -- `ctr.Add(1)` of a Notify
  add :
      (c p : ℕ) (b : Bool) (w : Waiter)
      → Step target
          (record { counter = c; signal = b; pending = p; waiter = w })
          (record { counter = c + 1; signal = b; pending = suc p; waiter = w })
  -- its `select`: the signal goes into the buffer, which drops it when it has one
  send :
      (c p : ℕ) (b : Bool) (w : Waiter)
      → Step target
          (record { counter = c; signal = b; pending = suc p; waiter = w })
          (record { counter = c; signal = true; pending = p; waiter = w })
  check_enough :
      (c p : ℕ) (b : Bool)
      → target ≤ c
      → Step target
          (record { counter = c; signal = b; pending = p; waiter = checking })
          (record { counter = c; signal = b; pending = p; waiter = reporting })
  check_few :
      (c p : ℕ) (b : Bool)
      → c < target
      → Step target
          (record { counter = c; signal = b; pending = p; waiter = checking })
          (record { counter = c; signal = b; pending = p; waiter = blocked })
  -- the second `ctr.Load()`
  report :
      (c p : ℕ) (b : Bool)
      → Step target
          (record { counter = c; signal = b; pending = p; waiter = reporting })
          (record { counter = c; signal = b; pending = p; waiter = returned c })
  receive :
      (c p : ℕ)
      → Step target
          (record { counter = c; signal = true; pending = p; waiter = blocked })
          (record { counter = c; signal = false; pending = p; waiter = checking })
  deadline :
      (c p : ℕ) (b : Bool)
      → Step target
          (record { counter = c; signal = b; pending = p; waiter = blocked })
          (record { counter = c; signal = b; pending = p; waiter = returned_late c })

pub data Steps (target : ℕ) : State → State → Type 0 where
  done : (s : State) → Steps target s s
  then_step : {a b c : State} → Steps target a b → Step target b c → Steps target a c

abbrev pub began : State
began = record { counter = 0; signal = false; pending = 0; waiter = checking }

-- A blocked waiter whose target is reached has a signal to receive, or one is on its way; a waiter past
-- a successful comparison, or back before the deadline, has its target.
abbrev pub WaiterIsServed : ℕ → State → Type 0
WaiterIsServed target s = elim s.waiter [
  | checking ↦ Unit
  | reporting ↦ target ≤ s.counter
  | blocked ↦ target ≤ s.counter → (s.signal ≡ true) ⊎ (0 < s.pending)
  | returned n ↦ target ≤ n
  | returned_late n ↦ Unit
]

Step-WaiterIsServed :
    (target : ℕ) (a b : State) → Step target a b → WaiterIsServed target a → WaiterIsServed target b
Step-WaiterIsServed target _ _ (add c p b checking) h = tt
Step-WaiterIsServed target _ _ (add c p b reporting) h = omega arith
Step-WaiterIsServed target _ _ (add c p b blocked) h = λ _. inr (omega arith)
Step-WaiterIsServed target _ _ (add c p b (returned n)) h = h
Step-WaiterIsServed target _ _ (add c p b (returned_late n)) h = tt
Step-WaiterIsServed target _ _ (send c p b checking) h = tt
Step-WaiterIsServed target _ _ (send c p b reporting) h = h
Step-WaiterIsServed target _ _ (send c p b blocked) h = λ _. inl refl
Step-WaiterIsServed target _ _ (send c p b (returned n)) h = h
Step-WaiterIsServed target _ _ (send c p b (returned_late n)) h = tt
Step-WaiterIsServed target _ _ (check_enough c p b q) h = q
Step-WaiterIsServed target _ _ (check_few c p b q) h = λ r. omega arith
Step-WaiterIsServed target _ _ (report c p b) h = h
Step-WaiterIsServed target _ _ (receive c p) h = tt
Step-WaiterIsServed target _ _ (deadline c p b) h = tt

-- However the callers of `Notify` and the waiter interleave, no wake-up is lost: a waiter that blocks
-- while the target is reached has a signal to receive or a caller about to send one, and a waiter that
-- comes back before the deadline reports at least the target.
pub Steps-WaiterIsServed : (target : ℕ) (s : State) → Steps target began s → WaiterIsServed target s
Steps-WaiterIsServed target _ (done _) = tt
Steps-WaiterIsServed target s (then_step {b = b} r q) =
    Step-WaiterIsServed target b s q (Steps-WaiterIsServed target b r)

Steps-receive :
    (target c p : ℕ)
    → target ≤ c
    → Steps target
        (record { counter = c; signal = true; pending = p; waiter = blocked })
        (record { counter = c; signal = false; pending = p; waiter = returned c })
Steps-receive target c p q =
    then_step (then_step (then_step (done _) (receive c p)) (check_enough c p false q))
      (report c p false)

Steps-append : (target : ℕ) (a b c : State) → Steps target a b → Steps target b c → Steps target a c
Steps-append target a b _ r (done _) = r
Steps-append target a b c r (then_step {b = d} q s) = then_step (Steps-append target a b d r q) s

Steps-serve :
    (target c p : ℕ) (b : Bool)
    → target ≤ c
    → ((b ≡ true) ⊎ (0 < p))
    → (t : State) × Steps target
        (record { counter = c; signal = b; pending = p; waiter = blocked })
        t
      × (t.waiter ≡ returned c)
Steps-serve target c p true q h = (_, Steps-receive target c p q, refl)
Steps-serve target c zero false q h = ground arith
Steps-serve target c (suc p) false q h = (
  _,
  Steps-append target _ _ _ (then_step (done _) (send c p false blocked))
      (Steps-receive target c p q),
  refl,
)

-- From any state that the callers of `Notify` and the waiter can reach, a waiter that is blocked while
-- its target is reached can still come back before the deadline, without a further callback and with
-- the count of that state.
pub blocked-returns :
    (target c p : ℕ) (b : Bool)
    → Steps target began (record { counter = c; signal = b; pending = p; waiter = blocked })
    → target ≤ c
    → (t : State) × Steps target
        (record { counter = c; signal = b; pending = p; waiter = blocked })
        t
      × (t.waiter ≡ returned c)
blocked-returns target c p b r q = Steps-serve target c p b q (Steps-WaiterIsServed target _ r q)
