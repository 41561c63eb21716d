-- ===== src/Callbacks/Rejected.antt =====
-- record.go: which outcome a callback is given, and what a rejected one can change.
use load_test_backend.Base.{
  ℕ, ◌+◌, ◌*◌, ◌≡◌, ◌≢◌, refl, String, Bool, false, Option, none, some, arith, ◌==◌, string_eq, ℤ,
  leb, if◌then◌else◌,
}
use load_test_backend.Json.{Payload}
use load_test_backend.Latency.{Outcome, success, failure, timeout, Stage}
use load_test_backend.Store.Keys.{metric_eq, metric_key}
use load_test_backend.Store.{Env, World, ok, incr_call}
use load_test_backend.Store.Redis.{second}
use load_test_backend.Store.Routes.{TxnRoute, get_txn_route}
use load_test_backend.Store.Counters.{live_count}
use load_test_backend.RunLog.{get_timestamp, record_payload}
use load_test_backend.Preorder.{request_of}
use load_test_backend.Callbacks.{
  Side, Verifier, extract_txn_id, effective_outcome, callback_latency, callback_event,
  record_at_stage, stage_of, record_latency_event_on_callback,
}
use load_test_backend.Callbacks.Handlers.{
  counter_name, record_routed, record_outcome, record_callback_failure, Answer, nack, on_callback,
}
use load_test_backend.Callbacks.Recording.{thirty_seconds, routed-counts}

-- The event of a callback whose request has a send time: it is a timeout exactly when it was received
-- 30 seconds or more after the request was sent, and has the outcome of its body before that.
pub callback_event-timeout :
    (stage : Stage) (run_id session_id txn_id : String) (received_at : ℕ) (outcome : Outcome)
    (sent_at : ℕ)
    → (callback_event stage run_id session_id txn_id received_at outcome (ok sent_at)).outcome
      ≡ (if leb (sent_at + 30 * second) received_at then timeout else outcome)
unfolding callback_event
callback_event-timeout stage run_id session_id txn_id received_at outcome sent_at =
    ground (arith, thirty_seconds sent_at received_at)

effective-failure : (ms : Option ℤ) → effective_outcome ms failure ≢ success
effective-failure none = ground arith
effective-failure (some n) = ground arith

recorded-failure :
    (capacity : ℕ) (stage : Option Stage) (run_id session_id txn_id : String) (received_at : ℕ)
    (env : Env) (s : Side)
    → (record_at_stage capacity stage run_id session_id txn_id received_at failure env s).0
      ≢ success
unfolding record_at_stage callback_event
recorded-failure capacity none run_id session_id txn_id received_at env s = ground arith
recorded-failure capacity (some stage) run_id session_id txn_id received_at env s =
    effective-failure (
      callback_latency
        (get_timestamp run_id "pipeline_b" (request_of stage) txn_id s.controller.log) received_at)

not_success : (o : Outcome) → o ≢ success → (counter_name o == "success") ≡ false
not_success success h = ground arith
not_success failure h = refl
not_success timeout h = refl

module _ (capacity : ℕ) (v : Verifier) (validate : String → Payload → Bool)
    (action auth_header : String) (body : Payload) (received_at : ℕ) (env : Env) (s : Side)
    (route : TxnRoute) where
  abbrev pub answered : Answer × Side
  answered = on_callback capacity v validate action auth_header body received_at env s

  abbrev pub successes : World → ℕ
  successes w =
      live_count env w (record { run_id = route.run_id; action = action; counter = "success" })

  routed-failure :
      ((counter : String)
        → env.redis_fails incr_call
            (metric_key (record { run_id = route.run_id; action = action; counter = counter }))
          ≡ false)
      → successes
          (record_routed capacity action route
            (extract_txn_id body)
            body
            received_at
            failure
            env
            s).world
        ≡ successes s.world
  unfolding record_latency_event_on_callback
  routed-failure h =
      let counts =
        (routed-counts capacity action route (extract_txn_id body) body received_at failure env s
            h).1
          success in
      let c = s.controller in
      let s' : Side = record s {
        controller = record c {
          log = record_payload route.run_id "pipeline_b" action (extract_txn_id body) body c.log;
        };
      } in
      let failed =
        recorded-failure capacity (stage_of action) route.run_id route.session_id
          (extract_txn_id body) received_at env s' in
      ground (arith, counts, not_success _ failed)

  failure-successes :
      ((counter : String)
        → env.redis_fails incr_call
            (metric_key (record { run_id = route.run_id; action = action; counter = counter }))
          ≡ false)
      → (get_txn_route (extract_txn_id body) env s.world).0 ≡ ok route
      → successes (record_callback_failure capacity action body received_at env s).world
        ≡ successes s.world
  unfolding record_callback_failure record_outcome
  failure-successes h r = ground (arith, routed-failure h)

  -- A callback of a routed transaction that is answered with NACK, because its signature or its payload
  -- was refused, never counts as a success of its run and action.
  pub nack-successes :
      ((counter : String)
        → env.redis_fails incr_call
            (metric_key (record { run_id = route.run_id; action = action; counter = counter }))
          ≡ false)
      → (get_txn_route (extract_txn_id body) env s.world).0 ≡ ok route
      → answered.0 ≡ nack
      → successes answered.1.world ≡ successes s.world
  unfolding on_callback
  nack-successes h r n = ground (arith, failure-successes h r)
