-- ===== src/Callbacks/Recording.antt =====
-- record.go: the counters of a recorded callback, and the event that it keeps.
use load_test_backend.Base.{
  ℕ, ◌+◌, ◌≡◌, refl, String, Bool, false, Option, none, some, arith, ◌==◌, string_eq, if◌then◌else◌,
  ap, fresh, lookup, ◌*◌, pos, leb, leb_ℤ, ltb,
}
use load_test_backend.Json.{Payload}
use load_test_backend.Latency.{Outcome, success, failure, timeout, Stage, RunLatencyEvent}
use load_test_backend.Store.Keys.{metric_eq, metric_key}
use load_test_backend.Store.{Env, World, Result, ok, err, missing, incr_call}
use load_test_backend.Store.Redis.{second, incr_metric, count_of}
use load_test_backend.Store.Routes.{TxnRoute}
use load_test_backend.Store.Mongo.{upsert_run_latency_event}
use load_test_backend.Store.Counters.{live_count, incr_metric-among}
use load_test_backend.RunLog.{MemoryStore, get_timestamp, record_payload}
use load_test_backend.Callbacks.{
  Side, enqueue_latency_event, keep_event, record_at_stage, stage_of,
  record_latency_event_on_callback, milliseconds_between,
}
use load_test_backend.Callbacks.Handlers.{counter_name, record_routed}

keep_event-redis :
    (capacity : ℕ) (ev : RunLatencyEvent) (env : Env) (s : Side)
    → (keep_event capacity ev env s).world.redis ≡ s.world.redis
unfolding keep_event enqueue_latency_event upsert_run_latency_event
keep_event-redis capacity ev env s = ground arith

record_at_stage-redis :
    (capacity : ℕ) (stage : Option Stage) (run_id session_id txn_id : String) (received_at : ℕ)
    (outcome : Outcome) (env : Env) (s : Side)
    → (record_at_stage capacity stage run_id session_id txn_id received_at outcome env
        s).1.world.redis
      ≡ s.world.redis
unfolding record_at_stage
record_at_stage-redis capacity none run_id session_id txn_id received_at outcome env s = refl
record_at_stage-redis capacity (some stage) run_id session_id txn_id received_at outcome env s =
    keep_event-redis capacity _ env s

-- 30 seconds between two times, in whole milliseconds.
pub thirty_seconds :
    (sent_at received_at : ℕ)
    → leb_ℤ (pos 30_000) (milliseconds_between sent_at received_at)
      ≡ leb (sent_at + 30 * second) received_at
unfolding milliseconds_between
thirty_seconds sent_at received_at = ground arith

-- The outcome of a callback, from the send time of its request: a timeout once 30 seconds (in
-- nanoseconds) have passed.
abbrev pub judged : Result ℕ → ℕ → Outcome → Outcome
judged (err e) received_at outcome = outcome
judged (ok sent_at) received_at outcome =
    if ltb received_at (sent_at + 30_000_000_000) then outcome else timeout

-- The request that a callback answers; other callbacks have no send time.
abbrev pub send_time : String → String → String → MemoryStore → Result ℕ
send_time action run_id txn_id log =
    if action == "on_select"
    then get_timestamp run_id "pipeline_b" "select" txn_id log
    else if action == "on_init"
    then get_timestamp run_id "pipeline_b" "init" txn_id log
    else if action == "on_confirm"
    then get_timestamp run_id "pipeline_b" "confirm" txn_id log
    else err missing

abbrev pub counts_as : Outcome → Outcome → Bool
counts_as o o' = counter_name o == counter_name o'

not_sent :
    (o : Outcome) → ((counter_name o == "sent") ≡ false) × (("sent" == counter_name o) ≡ false)
not_sent success = (refl, refl)
not_sent failure = (refl, refl)
not_sent timeout = (refl, refl)

module _ (capacity : ℕ) (action : String) (route : TxnRoute) (txn_id : String) (body : Payload)
    (received_at : ℕ) (outcome : Outcome) (env : Env) (s : Side) where
  -- The controller with the payload in its log, before the event.
  abbrev pub logged : Side
  logged = record s {
    controller = record (s.controller) {
      log = record_payload route.run_id "pipeline_b" action txn_id body s.controller.log;
    };
  }

  abbrev pub recorded_event : Outcome × Side
  recorded_event =
      record_latency_event_on_callback capacity action route.run_id route.session_id txn_id
        received_at outcome env logged

  recorded_event-redis : recorded_event.1.world.redis ≡ s.world.redis
  unfolding record_latency_event_on_callback
  recorded_event-redis =
      record_at_stage-redis capacity (stage_of action) route.run_id route.session_id txn_id
        received_at outcome env logged

  abbrev pub of_action : String → World → ℕ
  of_action counter w =
      live_count env w (record { run_id = route.run_id; action = action; counter = counter })

  abbrev pub after_callback : World
  after_callback = (record_routed capacity action route txn_id body received_at outcome env s).world

  -- The counters follow the outcome that the recording of the event returns.
  pub routed-counts :
      ((counter : String)
        → env.redis_fails incr_call
            (metric_key (record { run_id = route.run_id; action = action; counter = counter }))
          ≡ false)
      → (of_action "sent" after_callback ≡ of_action "sent" s.world + 1)
        × ((o : Outcome)
            → of_action (counter_name o) after_callback
              ≡ of_action (counter_name o) s.world
                + (if counts_as recorded_event.0 o then 1 else 0))
  unfolding record_routed
  routed-counts h =
      let w0 = recorded_event.1.world in
      let o' = recorded_event.0 in
      let w1 = (incr_metric route.run_id action "sent" 1 env w0).1 in
      let same : (c : String) → of_action c w0 ≡ of_action c s.world = λ c.
        ap
          (λ r. count_of (
            fresh env.now
              (lookup (record { run_id = route.run_id; action = action; counter = c }) r.counters)))
          recorded_event-redis in
      let sent : (c : String) → _ =
        λ c. incr_metric-among env w0 route.run_id action "sent" 1 c (h "sent") in
      let ended : (c : String) → _ = λ c.
        incr_metric-among env w1 route.run_id action (counter_name o') 1 c (h (counter_name o')) in
      (
        ground (arith, sent "sent", ended "sent", same "sent", not_sent o'),
        λ o. ground (
          arith,
          not_sent o,
          sent (counter_name o),
          ended (counter_name o),
          same (counter_name o),
        ),
      )
