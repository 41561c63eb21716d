-- ===== src/Witnesses/Inbound.antt =====
-- Callbacks: a route, an event, a full queue and a header that does not parse.
use load_test_backend.Base.{
  String, ◌+◌, ◌*◌, ◌≡◌, refl, true, false, none, [], ◌∷◌, leb, lookup, insert, split_n,
  if◌then◌else◌,
}
use load_test_backend.Json.{get, sprint}
use load_test_backend.Latency.{on_select, success, timeout, RunLatencyEvent}
use load_test_backend.Store.{Env, ok}
use load_test_backend.Store.Redis.{second}
use load_test_backend.Store.Routes.{TxnRoute, link_txn, get_txn_route}
use load_test_backend.RunLog.{new_memory_store, record_timestamp}
use load_test_backend.Callbacks.{
  Side, Verifier, callback_event, verify_inbound, signature_valid, extract_txn_id,
}
use load_test_backend.Callbacks.Handlers.{on_callback}
use load_test_backend.Callbacks.Queue.{Queue, begin_queue, entering, sent, dropping, refused}
use load_test_backend.Callbacks.Rejected.{callback_event-timeout, successes, nack-successes}
use load_test_backend.Witnesses.{calm, empty_world, payload_of}

abbrev clock : Env
clock = calm (100 * second) "id"

abbrev event : RunLatencyEvent
event = callback_event on_select "run-1" "session-1" "txn" (90 * second) success (ok (50 * second))

callback_event-timeout_example :
    event.outcome ≡ (if leb (50 * second + 30 * second) (90 * second) then timeout else success)
callback_event-timeout_example =
    callback_event-timeout on_select "run-1" "session-1" "txn" (90 * second) success (50 * second)

abbrev route : TxnRoute
route = record { run_id = "run-1"; session_id = "session-1"; verification_enabled = true }

abbrev side : Side
side = record {
  controller = record {
    log = record_timestamp "run-1" "pipeline_b" "select" "txn" (50 * second) new_memory_store;
    notifier = [];
    latency_queue = [];
    queue_dropped = 0;
    queue_sync_fallback = 0;
    queue_max_depth = 0;
  };
  world = (link_txn "txn" "run-1" "session-1" true clock empty_world).1;
}

-- Two calls on a queue of one: the first is sent, the second is refused.
abbrev two_calls : Queue
two_calls = begin_queue (event ∷ event ∷ [])

abbrev one_sent : Queue
one_sent = record two_calls { channel = event ∷ []; callers = sent ∷ entering event ∷ [] }

abbrev one_dropping : Queue
one_dropping = record one_sent { dropped = 1; callers = sent ∷ dropping ∷ [] }

abbrev one_refused : Queue
one_refused = record one_dropping { sync_fallback = 1; callers = sent ∷ refused ∷ [] }

-- The header does not parse.
abbrev verifier : Verifier
verifier = record {
  PublicKey = String;
  summarize = λ h. none;
  parse_key_id = λ k. none;
  get_public_key = λ s k. none;
  verify = λ h b k. false;
}

nack-successes_example :
    successes 1 verifier
      (λ a b. true)
      "on_select"
      "Signature"
      (payload_of "txn")
      (90 * second)
      clock
      side
      route
      (on_callback 1 verifier
        (λ a b. true)
        "on_select"
        "Signature"
        (payload_of "txn")
        (90 * second)
        clock
        side).1.world
    ≡ successes 1 verifier
        (λ a b. true)
        "on_select"
        "Signature"
        (payload_of "txn")
        (90 * second)
        clock
        side
        route
        side.world
unfolding on_callback verify_inbound signature_valid get_txn_route link_txn extract_txn_id get
    lookup insert split_n sprint
nack-successes_example =
    nack-successes 1 verifier (λ a b. true) "on_select" "Signature" (payload_of "txn") (90 * second)
      clock side route (λ c. refl) refl refl
