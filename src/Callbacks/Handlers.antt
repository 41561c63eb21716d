-- ===== src/Callbacks/Handlers.antt =====
-- internal/handlers/callbacks: recordCallback, recordCallbackFailure, the answers and the handlers of
-- on_select, on_init, on_confirm and on_search.
use load_test_backend.Base.{ℕ, String, Bool, true, false, ◌==◌, string_eq, ◌||◌, if◌then◌else◌}
use load_test_backend.Json.{Payload, empty, malformed, doc}
use load_test_backend.Latency.{Outcome, success, failure, timeout}
use load_test_backend.Store.{Env, Result, ok, err}
use load_test_backend.Store.Redis.{incr_metric, set_discovery_payload}
use load_test_backend.Store.Routes.{TxnRoute, get_txn_route}
use load_test_backend.RunLog.{record_payload}
use load_test_backend.Notifier.{notify}
use load_test_backend.Callbacks.{
  Side, run_in, extract_txn_id, extract_inbound_ack_status, Verifier, verify_inbound,
  record_latency_event_on_callback,
}

abbrev pub counter_name : Outcome → String
counter_name success = "success"
counter_name failure = "failure"
counter_name timeout = "timeout"

-- The tail that the two functions share, for a transaction with a route.
unfoldable pub record_routed :
    ℕ → String → TxnRoute → String → Payload → ℕ → Outcome → Env → Side → Side
record_routed capacity action route txn_id body received_at outcome env s =
    let c = s.controller in
    let s1 : Side = record s {
      controller = record c {
        log = record_payload route.run_id "pipeline_b" action txn_id body c.log;
      };
    } in
    let (outcome', s2) =
      record_latency_event_on_callback capacity action route.run_id route.session_id txn_id
        received_at outcome env s1 in
    let s3 = run_in (incr_metric route.run_id action "sent" 1) env s2 in
    let s4 = run_in (incr_metric route.run_id action (counter_name outcome') 1) env s3 in
    record s4 {
      controller = record (s4.controller) {
        notifier = notify route.run_id action s4.controller.notifier;
      };
    }

abbrev pub is_empty : Payload → Bool
is_empty empty = true
is_empty malformed = false
is_empty (doc j) = false

abbrev pub with_route : Result TxnRoute → (TxnRoute → Side) → Side → Side
with_route (err e) f s = s
with_route (ok r) f s = f r

-- The guards of the two functions.
unfoldable pub record_outcome : ℕ → String → Payload → ℕ → Outcome → Env → Side → Side
unfolding record_routed
record_outcome capacity action body received_at outcome env s =
    if is_empty body || extract_txn_id body == ""
    then s
    else with_route (get_txn_route (extract_txn_id body) env s.world).0
        (λ route.
          record_routed capacity action route (extract_txn_id body) body received_at outcome env s)
        s

unfoldable pub callback_outcome : Payload → Outcome
callback_outcome body =
    if extract_inbound_ack_status body == "" || extract_inbound_ack_status body == "ACK"
    then success
    else failure

unfoldable pub record_callback : ℕ → String → Payload → ℕ → Env → Side → Side
unfolding record_outcome callback_outcome
record_callback capacity action body received_at =
    record_outcome capacity action body received_at (callback_outcome body)

unfoldable pub record_callback_failure : ℕ → String → Payload → ℕ → Env → Side → Side
unfolding record_outcome
record_callback_failure capacity action body received_at =
    record_outcome capacity action body received_at failure

-- The status of the answer's `ack`.
pub data Answer : Type 0 where
  ack nack : Answer

module _ (capacity : ℕ) (v : Verifier) (validate : String → Payload → Bool) where
  -- onSelect, onInit and onConfirm, with their action; `validate` is false on an error.
  unfoldable pub on_callback : String → String → Payload → ℕ → Env → Side → Answer × Side
  on_callback action auth_header body received_at env s =
      if verify_inbound v auth_header body env s.world
      then (if validate action body
          then (ack, record_callback capacity action body received_at env s)
          else (nack, record_callback_failure capacity action body received_at env s))
      else (nack, record_callback_failure capacity action body received_at env s)

  -- onSearch_handler: a rejected callback is not recorded at all.
  unfoldable pub on_search : String → Payload → ℕ → Env → Side → Answer × Side
  on_search auth_header body received_at env s =
      if verify_inbound v auth_header body env s.world
      then (
        ack,
        record_callback capacity "on_search" body received_at env (
            if extract_txn_id body == ""
            then s
            else run_in (set_discovery_payload (extract_txn_id body) body) env s),
      )
      else (nack, s)
