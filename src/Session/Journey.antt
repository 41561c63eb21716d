-- ===== src/Session/Journey.antt =====
-- manager.go, `buildRunJourneyMetrics`: a request action and its callback action make one stage.
use load_test_backend.Base.{◌+◌, ltb, pos, if◌then◌else◌}
use load_test_backend.Float.{of_int, mul, div, zero_float}
use load_test_backend.Session.{
  ActionMetrics, RunMetrics, JourneyActionMetrics, RunJourneyMetrics, ThrottleMetrics,
}

unfoldable pub journey_action : ActionMetrics → ActionMetrics → JourneyActionMetrics
journey_action req cb = record {
  sent = req.sent;
  received = cb.success + cb.failure + cb.timeout;
  success = cb.success;
  failure = cb.failure;
  timeout = cb.timeout;
  avg_ms = cb.avg_ms;
  p90_ms = cb.p90_ms;
  p95_ms = cb.p95_ms;
  p99_ms = cb.p99_ms;
  success_pct =
      if ltb 0 req.sent
      then mul (div (of_int (pos cb.success)) (of_int (pos req.sent))) (of_int (pos 100))
      else zero_float;
}

unfoldable pub build_run_journey_metrics : RunMetrics → RunJourneyMetrics
unfolding journey_action
build_run_journey_metrics m = record {
  select = journey_action m.select m.on_select;
  init = journey_action m.init m.on_init;
  confirm = journey_action m.confirm m.on_confirm;
}

-- The zero values of the structs.
abbrev pub no_action : ActionMetrics
no_action = record {
  sent = 0;
  success = 0;
  failure = 0;
  timeout = 0;
  avg_ms = zero_float;
  p90_ms = zero_float;
  p95_ms = zero_float;
  p99_ms = zero_float;
}

abbrev pub no_metrics : RunMetrics
no_metrics = record {
  select = no_action;
  on_select = no_action;
  init = no_action;
  on_init = no_action;
  confirm = no_action;
  on_confirm = no_action;
}

abbrev no_journey : JourneyActionMetrics
no_journey = record {
  sent = 0;
  received = 0;
  success = 0;
  failure = 0;
  timeout = 0;
  avg_ms = zero_float;
  p90_ms = zero_float;
  p95_ms = zero_float;
  p99_ms = zero_float;
  success_pct = zero_float;
}

abbrev pub no_journeys : RunJourneyMetrics
no_journeys = record { select = no_journey; init = no_journey; confirm = no_journey }

abbrev pub no_throttle : ThrottleMetrics
no_throttle = record {
  target_rps = 0;
  acquire_calls = 0;
  allowed = 0;
  retries = 0;
  deny_global = 0;
  deny_session = 0;
  deny_other = 0;
  wait_total_ms = 0;
  wait_max_ms = 0;
}
