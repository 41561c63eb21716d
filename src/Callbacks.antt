-- ===== src/Callbacks.antt =====
-- internal/handlers/callbacks: record.go, routes.go (the latency queue) and the four handlers. Each
-- handler runs without interruption, and Callbacks/Queue has the steps of the latency queue apart; a
-- worker takes one event off the queue. The header parser, the
-- registry and the signature check are the parameter `Verifier`; the JSON keys of the struct decoders
-- are compared exactly.

pub mod Handlers
pub mod Queue
pub mod Recording
pub mod Rejected
pub mod Signed
use load_test_backend.Base.{
  ℕ, ◌+◌, ◌-◌, ◌*◌, ◌/◌, String, Bool, true, false, not, Option, none, some, List, [], ◌∷◌, ◌++◌, ℤ,
  pos, negsuc, sub_ℕ, leb_ℤ, leb, ltb, length, ◌==◌, string_eq, if◌then◌else◌,
}
use load_test_backend.Json.{
  Json, null, bool, num, str, arr, obj, get, get_in, as_map, as_string, sprint, Payload, empty,
  malformed, doc,
}
use load_test_backend.Latency.{
  Stage, on_select, on_init, on_confirm, Outcome, success, failure, timeout, RunLatencyEvent,
}
use load_test_backend.Store.{Env, World, Result, ok, err, Exec}
use load_test_backend.Store.Redis.{incr_metric, set_discovery_payload}
use load_test_backend.Store.Routes.{TxnRoute, get_txn_route}
use load_test_backend.Store.Mongo.{upsert_run_latency_event}
use load_test_backend.RunLog.{MemoryStore, record_payload, get_timestamp}
use load_test_backend.Notifier.{Notifier, notify}
use load_test_backend.Preorder.{request_of}

pub record Controller : Type 0 where
  pub log : MemoryStore
  pub notifier : Notifier
  pub latency_queue : List RunLatencyEvent
  pub queue_dropped : ℕ
  pub queue_sync_fallback : ℕ
  pub queue_max_depth : ℕ

-- The controller and the stores that it calls.
pub record Side : Type 0 where
  pub controller : Controller
  pub world : World

-- A call of a store whose error is dropped or logged.
abbrev pub run_in : Exec (Unit {0}) → Env → Side → Side
run_in m env s = record s { world = (m env s.world).1 }

abbrev pub object_of : Payload → Option Json
object_of empty = none
object_of malformed = none
object_of (doc j) = some j

abbrev pub text_or_none : Option Json → String
text_or_none none = ""
text_or_none (some j) = elim j [
  | null ↦ ""
  | bool b ↦ sprint (bool b)
  | num n ↦ sprint (num n)
  | str s ↦ sprint (str s)
  | arr xs ↦ sprint (arr xs)
  | obj fs ↦ sprint (obj fs)
]

unfoldable pub extract_txn_id : Payload → String
extract_txn_id body =
    text_or_none (get_in "transaction_id" (as_map (get_in "context" (as_map (object_of body)))))

unfoldable pub extract_inbound_ack_status : Payload → String
extract_inbound_ack_status body =
    as_string (
      get_in "status" (as_map (get_in "ack" (as_map (get_in "message" (as_map (object_of body)))))))

-- `ondcauth` and the registry client: the key identifier of an Authorization header, its subscriber
-- and key, the public key, and the signature check; `none` and false are errors.
pub record Verifier : Type 1 where
  pub PublicKey : Type 0
  pub summarize : String → Option String
  pub parse_key_id : String → Option (String × String)
  pub get_public_key : String → String → Option PublicKey
  pub verify : String → Payload → PublicKey → Bool

abbrev pub or_fail : Option Bool → Bool
or_fail none = false
or_fail (some b) = b

unfoldable pub signature_valid : Verifier → String → Payload → Bool
signature_valid v auth_header body = elim (v.summarize auth_header) [
  | none ↦ false
  | some key_id ↦ elim (v.parse_key_id key_id) [
    | none ↦ false
    | some (subscriber, key) ↦ elim (v.get_public_key subscriber key) [
      | none ↦ false
      | some public_key ↦ v.verify auth_header body public_key
    ]
  ]
]

abbrev pub enabled_for : Result TxnRoute → Bool
enabled_for (err e) = false
enabled_for (ok r) = r.verification_enabled

-- verifyInbound: whether it returns nil.
unfoldable pub verify_inbound : Verifier → String → Payload → Env → World → Bool
unfolding signature_valid
verify_inbound v auth_header body env w =
    if auth_header == ""
    then true
    else if extract_txn_id body == ""
    then true
    else if enabled_for (get_txn_route (extract_txn_id body) env w).0
    then signature_valid v auth_header body
    else true

abbrev pub max_ℕ : ℕ → ℕ → ℕ
max_ℕ a b = if leb b a then a else b

-- A call that nothing interrupts, on the channel of `capacity` events: the event goes in, or the queue
-- is full. Callbacks/Queue has the calls and the workers side by side.
unfoldable pub enqueue_latency_event : ℕ → RunLatencyEvent → Controller → Bool × Controller
enqueue_latency_event capacity ev c =
    if ltb (length c.latency_queue) capacity
    then (
      true,
      record c {
        latency_queue = c.latency_queue ++ ev ∷ [];
        queue_max_depth = max_ℕ c.queue_max_depth (length c.latency_queue + 1);
      },
    )
    else (
      false,
      record c {
        queue_dropped = c.queue_dropped + 1;
        queue_sync_fallback = c.queue_sync_fallback + 1;
      },
    )

-- One round of latencyWorker.
unfoldable pub latency_worker : Env → Side → Side
latency_worker env s = elim s.controller.latency_queue [
  | [] ↦ s
  | ev ∷ evs ↦
      run_in (upsert_run_latency_event ev) env
        (record s { controller = record (s.controller) { latency_queue = evs } })
]

abbrev pub stage_of : String → Option Stage
stage_of action =
    if action == "on_select"
    then some on_select
    else if action == "on_init"
    then some on_init
    else if action == "on_confirm"
    then some on_confirm
    else none

-- `receivedAt.Sub(sentAt).Milliseconds()`, which cuts towards zero.
unfoldable pub milliseconds_between : ℕ → ℕ → ℤ
milliseconds_between sent_at received_at =
    if leb sent_at received_at
    then pos ((received_at - sent_at) / 1_000_000)
    else sub_ℕ 0 ((sent_at - received_at) / 1_000_000)

abbrev pub callback_latency : Result ℕ → ℕ → Option ℤ
callback_latency (err e) received_at = none
callback_latency (ok sent_at) received_at = some (milliseconds_between sent_at received_at)

abbrev pub effective_outcome : Option ℤ → Outcome → Outcome
effective_outcome none outcome = outcome
effective_outcome (some ms) outcome = if leb_ℤ (pos 30_000) ms then timeout else outcome

abbrev pub sent_or_received : Result ℕ → ℕ → ℕ
sent_or_received (err e) received_at = received_at
sent_or_received (ok sent_at) received_at = sent_at

-- The event that a callback records.
unfoldable pub callback_event :
    Stage → String → String → String → ℕ → Outcome → Result ℕ → RunLatencyEvent
callback_event stage run_id session_id txn_id received_at outcome sent = record {
  session_id = session_id;
  run_id = run_id;
  stage = stage;
  txn_id = txn_id;
  sent_at = sent_or_received sent received_at;
  received_at = some received_at;
  latency_ms = callback_latency sent received_at;
  outcome = effective_outcome (callback_latency sent received_at) outcome;
  recorded_at = received_at;
  timeout_cause = "";
}

-- Into the queue, or when it is full straight to MongoDB.
unfoldable pub keep_event : ℕ → RunLatencyEvent → Env → Side → Side
unfolding enqueue_latency_event
keep_event capacity ev env s =
    let (queued, c) = enqueue_latency_event capacity ev s.controller in
    if queued
    then record s { controller = c }
    else run_in (upsert_run_latency_event ev) env (record s { controller = c })

unfoldable pub record_at_stage :
    ℕ → Option Stage → String → String → String → ℕ → Outcome → Env → Side → Outcome × Side
unfolding keep_event callback_event
record_at_stage capacity none run_id session_id txn_id received_at outcome env s = (outcome, s)
record_at_stage capacity (some stage) run_id session_id txn_id received_at outcome env s =
    let ev =
      callback_event stage run_id session_id txn_id received_at outcome
        (get_timestamp run_id "pipeline_b" (request_of stage) txn_id s.controller.log) in
    (ev.outcome, keep_event capacity ev env s)

unfoldable pub record_latency_event_on_callback :
    ℕ → String → String → String → String → ℕ → Outcome → Env → Side → Outcome × Side
unfolding record_at_stage
record_latency_event_on_callback capacity action = record_at_stage capacity (stage_of action)
