-- ===== src/Dispatch.antt =====
-- internal/domain/pipeline/dispatcher.go, and `countSuccess`, `countErrors` of routes.go. The loop is
-- sequential; what the context, the throttle and the semaphore do in round i is `rounds i`. The
-- goroutines fill distinct slots of `results`, so the slot of a launched payload has what `send` gives.
pub mod Accounting
pub mod Semaphore
use load_test_backend.Base.{
  ℕ, zero, suc, ◌+◌, ◌≡◌, String, Bool, true, false, Option, none, some, List, [], ◌∷◌, leb,
  count_if, if◌then◌else◌,
}

-- The errors of a result: the context's, `context.DeadlineExceeded`, and those of `sendFn`.
pub data SendError : Type 0 where
  canceled deadline_exceeded send_failed : SendError

pub record DispatchResult : Type 0 where
  pub index : ℕ
  pub txn_id : String
  pub error : Option SendError

pub record Round : Type 0 where
  -- `ctx.Err()` at the top of the round
  pub canceled_before : Bool
  -- `throttle.Acquire`; true without a throttle
  pub acquired : Bool
  -- the select takes `ctx.Done()`
  pub canceled_waiting : Bool
  -- `ctx.Err()` after the semaphore
  pub canceled_after : Bool

-- maxInFlight, with its default.
unfoldable pub in_flight_limit : ℕ → ℕ
in_flight_limit max_in_flight = if leb max_in_flight 0 then 256 else max_in_flight

abbrev pub failed : ℕ → SendError → DispatchResult
failed i e = record { index = i; txn_id = ""; error = some e }

module _ {P : Type 0} where
  -- The inner loops over `j`: every payload that is left gets the context's error.
  unfoldable pub abandon : ℕ → List P → List DispatchResult
  abandon i [] = []
  abandon i (p ∷ ps) = failed i canceled ∷ abandon (i + 1) ps

  module _ (rounds : ℕ → Round) (send : ℕ → P → DispatchResult) where
    unfoldable pub dispatch_from : ℕ → List P → List DispatchResult
    unfolding abandon
    dispatch_from i [] = []
    dispatch_from i (p ∷ ps) =
        let rest = dispatch_from (i + 1) ps in
        if (rounds i).canceled_before
        then abandon i (p ∷ ps)
        else if (rounds i).acquired
        then (if (rounds i).canceled_waiting
            then abandon i (p ∷ ps)
            else if (rounds i).canceled_after
            then abandon i (p ∷ ps)
            else send i p ∷ rest)
        else failed i deadline_exceeded ∷ rest

    unfoldable pub dispatch_concurrent_throttled : List P → List DispatchResult
    unfolding dispatch_from
    dispatch_concurrent_throttled = dispatch_from 0

    -- The payloads that the loop starts a goroutine for, in order.
    unfoldable pub launched_from : ℕ → List P → List ℕ
    launched_from i [] = []
    launched_from i (p ∷ ps) =
        let rest = launched_from (i + 1) ps in
        if (rounds i).canceled_before
        then []
        else if (rounds i).acquired
        then (if (rounds i).canceled_waiting
            then []
            else if (rounds i).canceled_after
            then []
            else i ∷ rest)
        else rest

abbrev pub is_success : DispatchResult → Bool
is_success r = elim r.error [ none ↦ true | some e ↦ false ]

abbrev pub is_error : DispatchResult → Bool
is_error r = elim r.error [ none ↦ false | some e ↦ true ]

unfoldable pub count_success : List DispatchResult → ℕ
count_success = count_if is_success

unfoldable pub count_errors : List DispatchResult → ℕ
count_errors = count_if is_error
