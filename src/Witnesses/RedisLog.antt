-- ===== src/Witnesses/RedisLog.antt =====
-- The run log in Redis next to the one in memory.
use load_test_backend.Base.{ℕ, ◌+◌, ◌≤◌, ◌≡◌, refl, false, List, [], ◌∷◌, All, arith, has_char}
use load_test_backend.Store.{ok}
use load_test_backend.RunLog.{new_memory_store}
use load_test_backend.RunLog.Redis.{LogEnv}
use load_test_backend.RunLog.RedisKeys.{Bucket, HasPlainNames}
use load_test_backend.RunLog.RedisSteps.{IsSmooth}
use load_test_backend.RunLog.Refinement.{
  Call, write_payload, write_time, memory_run, redis_run, redis_results, ReadersAgree,
  redis_run-refines,
}
use load_test_backend.Witnesses.{payload_of}

abbrev at_time : ℕ → LogEnv
at_time now = record { now = now; ttl = 600; fails = λ _ _. false }

abbrev selects : Bucket
selects = record { run_id = "run-1"; pipeline = "pipeline_b"; action = "select" }

abbrev on_selects : Bucket
on_selects = record { run_id = "run-1"; pipeline = "pipeline_b"; action = "on_select" }

-- A request with its time, its callback, and the same callback again.
abbrev calls : List Call
calls =
    (at_time 1000, write_payload selects "txn-1" (payload_of "txn-1"))
    ∷ (at_time 1000, write_time selects "txn-1" 1000)
    ∷ (at_time 1300, write_payload on_selects "txn-1" (payload_of "txn-1"))
    ∷ (at_time 1400, write_payload on_selects "txn-1" (payload_of "txn-1"))
    ∷ []

at_time-IsSmooth : (now : ℕ) → now ≤ 1600 → 1600 ≤ now + 600 → IsSmooth 1600 (at_time now)
at_time-IsSmooth now h k = record { before = h; within = k; no_failure = λ _ _. refl }

selects-HasPlainNames : HasPlainNames selects
unfolding has_char
selects-HasPlainNames = record { run_id = refl; pipeline = refl; action = refl }

on_selects-HasPlainNames : HasPlainNames on_selects
unfolding has_char
on_selects-HasPlainNames = record { run_id = refl; pipeline = refl; action = refl }

redis_run-refines_example :
    All (λ r. r ≡ ok tt) (redis_results calls [])
    × ReadersAgree
        (at_time 1500)
        on_selects
        "txn-1"
        (memory_run calls new_memory_store)
        (redis_run calls [])
redis_run-refines_example =
    redis_run-refines 1600 calls (at_time 1500) on_selects "txn-1"
      (
        (at_time-IsSmooth 1000 (omega arith) (omega arith), selects-HasPlainNames),
        (
          (at_time-IsSmooth 1000 (omega arith) (omega arith), selects-HasPlainNames),
          (
            (at_time-IsSmooth 1300 (omega arith) (omega arith), on_selects-HasPlainNames),
            ((at_time-IsSmooth 1400 (omega arith) (omega arith), on_selects-HasPlainNames), tt),
          ),
        ),
      )
      (at_time-IsSmooth 1500 (omega arith) (omega arith)) on_selects-HasPlainNames
