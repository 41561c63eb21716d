-- ===== src/Session.antt =====
-- internal/domain/session/types.go: sessions, their catalog and preorder states, and runs. Times are
-- nanoseconds since the epoch, and 0 is the zero time; counters are numbers, far below 2^63.
pub mod Validation
pub mod Journey
use load_test_backend.Base.{ℕ, String, Bool, Option}
use load_test_backend.Float.{Float64}

pub data SessionStatus : Type 0 where
  active expired : SessionStatus

-- `unset` is the source's "none".
pub data CatalogStatus : Type 0 where
  unset pending ready failed : CatalogStatus

pub data PreorderStatus : Type 0 where
  idle running stopping : PreorderStatus

pub record Session : Type 0 where
  pub id : String
  pub bpp_id : String
  pub bpp_uri : String
  pub status : SessionStatus
  pub created_at : ℕ
  pub expires_at : ℕ
  pub core_version : String
  pub domain : String
  pub verification_enabled : Bool
  pub error_injection_enabled : Bool

pub record CatalogState : Type 0 where
  pub status : CatalogStatus
  pub on_search_id : String
  pub updated_at : ℕ

pub record PreorderState : Type 0 where
  pub status : PreorderStatus
  pub active_run_id : String

pub record ThrottleMetrics : Type 0 where
  pub target_rps : ℕ
  pub acquire_calls : ℕ
  pub allowed : ℕ
  pub retries : ℕ
  pub deny_global : ℕ
  pub deny_session : ℕ
  pub deny_other : ℕ
  pub wait_total_ms : ℕ
  pub wait_max_ms : ℕ

pub record JourneyActionMetrics : Type 0 where
  pub sent : ℕ
  pub received : ℕ
  pub success : ℕ
  pub failure : ℕ
  pub timeout : ℕ
  pub avg_ms : Float64
  pub p90_ms : Float64
  pub p95_ms : Float64
  pub p99_ms : Float64
  pub success_pct : Float64

pub record RunJourneyMetrics : Type 0 where
  pub select : JourneyActionMetrics
  pub init : JourneyActionMetrics
  pub confirm : JourneyActionMetrics

pub record ActionMetrics : Type 0 where
  pub sent : ℕ
  pub success : ℕ
  pub failure : ℕ
  pub timeout : ℕ
  pub avg_ms : Float64
  pub p90_ms : Float64
  pub p95_ms : Float64
  pub p99_ms : Float64

pub record RunMetrics : Type 0 where
  pub select : ActionMetrics
  pub on_select : ActionMetrics
  pub init : ActionMetrics
  pub on_init : ActionMetrics
  pub confirm : ActionMetrics
  pub on_confirm : ActionMetrics

-- `RunSystemMetrics` has the one field `throttle`.
pub record Run : Type 0 where
  pub id : String
  pub session_id : String
  pub bpp_id : String
  pub rps : ℕ
  pub duration_sec : ℕ
  pub status : String
  pub metrics : RunMetrics
  pub system_metrics : ThrottleMetrics
  pub journey_metrics : RunJourneyMetrics
  pub started_at : ℕ
  pub completed_at : ℕ
