-- ===== src/Coordinator/Stages.antt =====
-- internal/domain/pipeline/coordinator.go: RunSelectStage, RunInitStage and RunConfirmStage. The goroutines of a stage
-- take the lock of the run log twice each, in an order that is an argument; the answers of
-- the seller and the times are arguments by position.
use load_test_backend.Base.{
  ℕ, String, Bool, none, some, List, [], ◌∷◌, ◌==◌, string_eq, if◌then◌else◌,
}
use load_test_backend.Json.{Payload}
use load_test_backend.RunLog.{MemoryStore, record_payload, record_timestamp}
use load_test_backend.Dispatch.{DispatchResult, send_failed, Round, dispatch_concurrent_throttled}
use load_test_backend.Coordinator.{Settings, Prepared, refused, prepared, prepare_payload}

-- What a stage meets: whether the seller's answer to a payload is an error, and the time of the send.
pub record Meets : Type 0 where
  pub seller_fails : ℕ → Payload → Bool
  pub sent_at : ℕ → ℕ

abbrev pub sent_result : Meets → ℕ → Payload → String → DispatchResult
sent_result m i p txn_id = record {
  index = i;
  txn_id = txn_id;
  error = if m.seller_fails i p then some send_failed else none;
}

-- What the function of RunSelectStage returns: without a transaction, nothing is sent.
unfoldable pub select_result : Meets → ℕ → Prepared → DispatchResult
select_result m i (refused txn_id) = record { index = i; txn_id = txn_id; error = some send_failed }
select_result m i (prepared p txn_id) =
    if txn_id == ""
    then record { index = i; txn_id = ""; error = none }
    else sent_result m i p txn_id

-- What the functions of the two other stages return.
unfoldable pub order_result : Meets → ℕ → Prepared → DispatchResult
order_result m i (refused txn_id) = record { index = i; txn_id = txn_id; error = some send_failed }
order_result m i (prepared p txn_id) = sent_result m i p txn_id

-- `c.store.Record` of one send, in any stage; the errors of the run log are ignored.
unfoldable pub record_sent : String → String → Prepared → MemoryStore → MemoryStore
record_sent run_id action (refused txn_id) s = s
record_sent run_id action (prepared p txn_id) s =
    if txn_id == "" then s else record_payload run_id "pipeline_b" action txn_id p s

-- `c.store.RecordTimestamp` of the same send, at its time.
unfoldable pub stamp_sent : String → String → ℕ → Prepared → MemoryStore → MemoryStore
stamp_sent run_id action sent_at (refused txn_id) s = s
stamp_sent run_id action sent_at (prepared p txn_id) s =
    if txn_id == "" then s else record_timestamp run_id "pipeline_b" action txn_id sent_at s

-- The two calls, each of which takes the lock of the run log: of the send of this payload, by position.
pub data LogCall : Type 0 where
  record_call stamp_call : ℕ → Payload → LogCall

-- The transactions that RunSelectStage links to the run.
abbrev pub linked : Prepared → List String
linked (refused txn_id) = []
linked (prepared p txn_id) = if txn_id == "" then [] else txn_id ∷ []

module _ (print : ℕ → String) (c : Settings) (m : Meets) where
  unfoldable pub run_select_stage : (ℕ → Round) → List Payload → List DispatchResult
  run_select_stage rounds payloads =
      dispatch_concurrent_throttled rounds
        (λ i p. select_result m i (prepare_payload print c "select" i p)) payloads

  unfoldable pub run_order_stage : String → (ℕ → Round) → List Payload → List DispatchResult
  run_order_stage action rounds payloads =
      dispatch_concurrent_throttled rounds
        (λ i p. order_result m i (prepare_payload print c action i p)) payloads

  unfoldable pub log_write : String → String → LogCall → MemoryStore → MemoryStore
  unfolding record_sent stamp_sent
  log_write run_id action (record_call i p) =
      record_sent run_id action (prepare_payload print c action i p)
  log_write run_id action (stamp_call i p) =
      stamp_sent run_id action (m.sent_at i) (prepare_payload print c action i p)

  -- The run log behind the calls, in the order in which they take its lock.
  unfoldable pub log_after : String → String → List LogCall → MemoryStore → MemoryStore
  unfolding log_write
  log_after run_id action [] s = s
  log_after run_id action (x ∷ xs) s = log_after run_id action xs (log_write run_id action x s)
