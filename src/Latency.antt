-- ===== src/Latency.antt =====
-- internal/domain/latency/types.go: the events and summaries of the callback stages.
pub mod Percentiles
pub mod Order
pub mod Bounds
pub mod Samples
use load_test_backend.Base.{ℕ, String, Bool, Option, ℤ, ◌≡◌, ◌↔◌, true, false, arith, Eq}
use load_test_backend.Float.{Float64}

pub data Stage : Type 0 where
  on_select on_init on_confirm : Stage

pub data Outcome : Type 0 where
  success failure timeout : Outcome

-- Times are nanoseconds since the epoch.
pub record RunLatencyEvent : Type 0 where
  pub session_id : String
  pub run_id : String
  pub stage : Stage
  pub txn_id : String
  pub sent_at : ℕ
  pub received_at : Option ℕ
  pub latency_ms : Option ℤ
  pub outcome : Outcome
  pub recorded_at : ℕ
  pub timeout_cause : String

pub record RunLatencySummary : Type 0 where
  pub session_id : String
  pub run_id : String
  pub stage : Stage
  pub timeout_threshold_ms : ℕ
  pub cutoff_at : ℕ
  pub total : ℕ
  pub success_count : ℕ
  pub failure_count : ℕ
  pub timeout_count : ℕ
  pub avg_ms : Float64
  pub p90_ms : Float64
  pub p95_ms : Float64
  pub p99_ms : Float64
  pub computed_at : ℕ

abbrev pub same_stage : Stage → Stage → Bool
same_stage on_select on_select = true
same_stage on_init on_init = true
same_stage on_confirm on_confirm = true
same_stage _ _ = false

pub same_stage_iff : (a b : Stage) → (same_stage a b ≡ true) ↔ (a ≡ b)
same_stage_iff on_select b = ground arith
same_stage_iff on_init b = ground arith
same_stage_iff on_confirm b = ground arith

instance abbrev pub stage_eq : Eq Stage
stage_eq = record { beq = same_stage; beq_iff = same_stage_iff }
