-- ===== src/Witnesses/Limits.antt =====
-- The dispatcher, its semaphore, the token buckets, the pacing, the notifier and the payloads.
use load_test_backend.Base.{
  ◌⊎◌, inl, inr, ℕ, zero, suc, ◌+◌, ◌-◌, ◌*◌, ◌≤◌, ◌≡◌, refl, String, Bool, true, false, Option,
  none, some, List, [], ◌∷◌, leb, arith, pos, length, count_if,
}
use load_test_backend.Json.{Fields, obj, str, end, field, doc, get, sprint}
use load_test_backend.Dispatch.{
  DispatchResult, Round, dispatch_concurrent_throttled, launched_from, count_success, count_errors,
}
use load_test_backend.Dispatch.Accounting.{Numbered, dispatch_accounts}
use load_test_backend.Dispatch.{in_flight_limit}
use load_test_backend.Dispatch.Semaphore.{
  Pool, begin_pool, top, took, added, returned, Step as PoolStep, Reach, Proceeds,
  in_flight_bounded,
}
use load_test_backend.Limiter.{RateLimiter, Reply, script_reply, not_items, allowed}
use load_test_backend.Limiter.Bucket.{run_bucket, last_of, token_bucket_bound}
use load_test_backend.Notifier.Steps.{
  State, Steps, began, Steps-WaiterIsServed, blocked-returns, blocked, returned as returned_with,
  check_few, receive, check_enough, report, Step as NotifierStep, add,
}
use load_test_backend.Pacing.{Attempt, new_pacing_throttle, acquire}
use load_test_backend.Pacing.Spacing.{Spaced, earliest, grants, grants-Spaced}
use load_test_backend.Coordinator.Stages.{
  Meets, LogCall, record_call, stamp_call, select_result, log_after,
}
use load_test_backend.Coordinator.Logged.{HasPayload, HasTime, log_after-Logged}
use load_test_backend.RunLog.{new_memory_store}
use load_test_backend.Coordinator.{
  Settings, should_corrupt, prepare_payload, corrupt_for_stage, stamp_context,
}
use load_test_backend.Coordinator.Windows.{indices, corrupt-window}
use load_test_backend.Coordinator.Payloads.{Carries, prepare_payload-txn_id}
use load_test_backend.Callbacks.{extract_txn_id}
use load_test_backend.Witnesses.{payload_of}

-- The context is cancelled before the third payload.
abbrev rounds : ℕ → Round
rounds zero = record {
  canceled_before = false;
  acquired = true;
  canceled_waiting = false;
  canceled_after = false;
}
rounds (suc zero) = record {
  canceled_before = false;
  acquired = false;
  canceled_waiting = false;
  canceled_after = false;
}
rounds (suc (suc i)) = record {
  canceled_before = true;
  acquired = true;
  canceled_waiting = false;
  canceled_after = false;
}

abbrev send : ℕ → String → DispatchResult
send i p = record { index = i; txn_id = p; error = none }

abbrev sent_payloads : List String
sent_payloads = "a" ∷ "b" ∷ "c" ∷ []

dispatch_accounts_example :
    (length (dispatch_concurrent_throttled rounds send sent_payloads) ≡ 3)
    × Numbered 0 (dispatch_concurrent_throttled rounds send sent_payloads)
    × (count_success (dispatch_concurrent_throttled rounds send sent_payloads)
          + count_errors (dispatch_concurrent_throttled rounds send sent_payloads)
        ≡ 3)
    × (count_success (dispatch_concurrent_throttled rounds send sent_payloads)
        ≤ length (launched_from rounds send 0 sent_payloads))
dispatch_accounts_example = dispatch_accounts rounds send sent_payloads (λ i p. refl)

-- Two payloads and room for one: the first is sent while the loop is at the second.
abbrev one_pool : Pool
one_pool = record { left = 1; place = top; sem = 1; wg = 1; sending = 1; releasing = 0 }

abbrev took_one : Pool
took_one = record (begin_pool 2) { left = 1; place = took; sem = 1 }

abbrev added_one : Pool
added_one = record took_one { place = added; wg = 1 }

sent_one : Reach 1 2 3 one_pool
unfolding in_flight_limit
sent_one =
    Reach.next
      (Reach.next (Reach.next Reach.start (PoolStep.take (begin_pool 2) 1 refl refl (omega arith)))
        (PoolStep.add took_one refl))
      (PoolStep.launch added_one refl)

in_flight_bounded_example :
    (1 ≤ 1)
    × (3 ≤ 2 * 5 + 2)
    × (((one_pool.place ≡ returned) × (one_pool.sending ≡ 0) × (one_pool.releasing ≡ 0))
        ⊎ Proceeds 1 one_pool)
in_flight_bounded_example = in_flight_bounded 1 2 3 one_pool sent_one

token_bucket_bound_example :
    (run_bucket 2 2 (record { tokens = pos 500; last = 0 }) (9_000 ∷ 9_000 ∷ 9_000 ∷ 9_500 ∷ [])).0
      * 1000
    ≤ 2 * 1000 + (last_of 9_000 (9_000 ∷ 9_000 ∷ 9_500 ∷ []) - 9_000) * 2
token_bucket_bound_example =
    token_bucket_bound 2 2 500 0 9_000 (9_000 ∷ 9_000 ∷ 9_500 ∷ [])
      (omega arith, (omega arith, (omega arith, (omega arith, tt))))

abbrev loaded : RateLimiter
loaded = record {
  script_sha = "c0ffee";
  global_max = 2000;
  session_max = 150;
  allowed_count = 3;
  denied_global_count = 0;
  denied_session_count = 1;
  denied_other_count = 0;
  redis_errors = 0;
}

abbrev replies : List (Option Reply)
replies = some (script_reply allowed) ∷ none ∷ some not_items ∷ []

-- The waiter checks, one callback comes, and the signal is on its way.
abbrev waiting : State
waiting = record { counter = 1; signal = false; pending = suc zero; waiter = blocked }

waited : Steps 1 began waiting
waited =
    Steps.then_step (Steps.then_step (Steps.done began) (check_few 0 zero false (omega arith)))
      (add 0 zero false blocked)

-- The signal arrives, and the waiter reports.
abbrev served : State
served = record { counter = 1; signal = false; pending = zero; waiter = returned_with 1 }

reported : Steps 1 began served
reported =
    Steps.then_step
      (Steps.then_step
        (Steps.then_step (Steps.then_step waited (NotifierStep.send 1 zero false blocked))
          (receive 1 zero))
        (check_enough 1 zero false (omega arith)))
      (report 1 zero false)

Steps-WaiterIsServed_example : 1 ≤ 1
Steps-WaiterIsServed_example = Steps-WaiterIsServed 1 served reported

blocked-returns_example : (t : State) × Steps 1 waiting t × (t.waiter ≡ returned_with 1)
blocked-returns_example = blocked-returns 1 1 (suc zero) false waited (omega arith)

abbrev settings : Settings
settings = record {
  bap_uri = "https://bap";
  bap_id = "";
  core_version = "1.2.5";
  config_core_version = "1.2.0";
  error_inject_enabled = true;
  error_inject_rps = 25;
}

corrupt-window_example : count_if (should_corrupt settings) (indices 31 25) ≡ 2
corrupt-window_example = corrupt-window settings refl (omega arith) 31

abbrev context_fields : Fields
context_fields = field "transaction_id" (str "txn") end

abbrev envelope : Fields
envelope =
    field "context" (obj context_fields)
      (field "message" (obj (field "order" (obj (field "items" (str "x") end)) end)) end)

prepare_payload-txn_id_example :
    Carries
      (prepare_payload (λ _. "7") settings "select" 27 (doc (obj envelope)))
      (extract_txn_id (doc (obj envelope)))
unfolding get
prepare_payload-txn_id_example =
    prepare_payload-txn_id (λ _. "7") settings "select" 27 envelope context_fields refl

-- Two calls at five a second: the first is denied once, the second comes at once and waits.
abbrev attempt : ℕ → Bool → Attempt
attempt now given = record {
  now = now;
  canceled_waiting = false;
  delay = 7;
  allowed = given;
  reason = "session";
  canceled_retry = false;
}

abbrev paced_calls : List (List Attempt)
paced_calls = (attempt 1_000 false ∷ attempt 11_000 true ∷ []) ∷ (attempt 12_000 true ∷ []) ∷ []

grants-Spaced_example :
    Spaced
      (new_pacing_throttle true 5).interval
      (earliest (new_pacing_throttle true 5))
      (grants paced_calls (new_pacing_throttle true 5))
grants-Spaced_example = grants-Spaced paced_calls (new_pacing_throttle true 5)

grants_tested : grants paced_calls (new_pacing_throttle true 5) ≡ 11_007 ∷ 200_011_014 ∷ []
unfolding grants acquire new_pacing_throttle
grants_tested = refl

abbrev uninjected : Settings
uninjected = record settings { error_inject_enabled = false }

-- The seller refuses the second payload.
abbrev meets : Meets
meets = record { seller_fails = λ i _. leb 1 i; sent_at = λ i. 1000 + i }

-- The two sends make their calls interleaved, and both payloads are of the transaction "txn-1".
abbrev calls : List LogCall
calls =
    record_call 1 (payload_of "txn-1")
    ∷ record_call 0 (payload_of "txn-1")
    ∷ stamp_call 0 (payload_of "txn-1")
    ∷ stamp_call 1 (payload_of "txn-1")
    ∷ []

abbrev first_sent : DispatchResult
first_sent = record { index = 0; txn_id = "txn-1"; error = none }

log_after-Logged_example :
    let log = log_after (λ _. "7") uninjected meets "run-1" "select" calls new_memory_store in
    HasPayload "run-1" "select" refl refl (λ _. "7") uninjected meets calls "txn-1" log
    × HasTime "run-1" "select" refl refl (λ _. "7") uninjected meets calls "txn-1" log
unfolding select_result prepare_payload corrupt_for_stage stamp_context should_corrupt get sprint
log_after-Logged_example =
    log_after-Logged "run-1" "select" refl refl (λ _. "7") uninjected meets calls new_memory_store 0
      (payload_of "txn-1") first_sent (inr (inl refl)) (inr (inr (inl refl))) (inl refl) refl refl
