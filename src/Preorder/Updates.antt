-- ===== src/Preorder/Updates.antt =====
-- routes.go, `updateMetrics`: the counters of a request stage.
use load_test_backend.Base.{ℕ, ◌+◌, ◌≡◌, String, false, List, arith, length, string_eq}
use load_test_backend.Store.Keys.{metric_eq, metric_key}
use load_test_backend.Store.{Env, World, incr_call}
use load_test_backend.Store.Redis.{incr_metric}
use load_test_backend.Store.Counters.{live_count, incr_metric-among}
use load_test_backend.Dispatch.{DispatchResult, count_success, count_errors}
use load_test_backend.Preorder.{update_metrics}

module _ (run_id action : String) (results : List DispatchResult) (env : Env) (w : World) where
  abbrev pub of_stage : String → World → ℕ
  of_stage counter v =
      live_count env v (record { run_id = run_id; action = action; counter = counter })

  abbrev pub after_update : World
  after_update = (update_metrics run_id action results env w).1

  -- When the increments do not fail, the counters of a request stage grow by the number of its results,
  -- of its results without an error and of those with one.
  pub update_metrics-counts :
      ((counter : String)
        → env.redis_fails incr_call
            (metric_key (record { run_id = run_id; action = action; counter = counter }))
          ≡ false)
      → (of_stage "sent" after_update ≡ of_stage "sent" w + length results)
        × (of_stage "success" after_update ≡ of_stage "success" w + count_success results)
        × (of_stage "failure" after_update ≡ of_stage "failure" w + count_errors results)
  unfolding update_metrics
  update_metrics-counts h =
      let w1 = (incr_metric run_id action "sent" (length results) env w).1 in
      let w2 = (incr_metric run_id action "success" (count_success results) env w1).1 in
      let sent : (c : String) → _ =
        λ c. incr_metric-among env w run_id action "sent" (length results) c (h "sent") in
      let good : (c : String) → _ = λ c.
        incr_metric-among env w1 run_id action "success" (count_success results) c (h "success") in
      let bad : (c : String) → _ = λ c.
        incr_metric-among env w2 run_id action "failure" (count_errors results) c (h "failure") in
      (
        ground (arith, sent "sent", good "sent", bad "sent"),
        ground (arith, sent "success", good "success", bad "success"),
        ground (arith, sent "failure", good "failure", bad "failure"),
      )
