-- ===== src/Limiter/Counters.antt =====
-- internal/domain/session/rate_limiter.go: what a caller of the limiter sees of the script, and the
-- statistics.
use load_test_backend.Base.{
  ℕ, ◌+◌, ◌≡◌, ◌≢◌, String, Bool, true, false, Option, none, some, List, [], ◌∷◌, string_eq, eq_iff,
  arith, length,
}
use load_test_backend.Limiter.{
  Verdict, allowed, denied_global, denied_session, Reply, script_reply, RateLimiter, count_denied,
  count_reply, parse_acquire_result, acquire_with_reason,
}

-- What a verdict of the script does to the statistics.
abbrev tally : Verdict → RateLimiter → RateLimiter
tally allowed rl = record rl { allowed_count = rl.allowed_count + 1 }
tally denied_global rl = record rl { denied_global_count = rl.denied_global_count + 1 }
tally denied_session rl = record rl { denied_session_count = rl.denied_session_count + 1 }

abbrev reason_of : Verdict → Bool × String
reason_of allowed = (true, "ok")
reason_of denied_global = (false, "global")
reason_of denied_session = (false, "session")

-- With the script loaded, each verdict of the script reaches the caller as its own answer and reason,
-- and moves its own counter by one and no other.
pub acquire_with_reason-script :
    (v : Verdict) (rl : RateLimiter)
    → rl.script_sha ≢ ""
    → acquire_with_reason (some (script_reply v)) rl ≡ (reason_of v, tally v rl)
unfolding acquire_with_reason count_reply count_denied parse_acquire_result
acquire_with_reason-script allowed rl h = ground (arith, eq_iff rl.script_sha "")
acquire_with_reason-script denied_global rl h = ground (arith, eq_iff rl.script_sha "")
acquire_with_reason-script denied_session rl h = ground (arith, eq_iff rl.script_sha "")

-- The requests that the statistics count.
abbrev pub counted : RateLimiter → ℕ
counted rl =
    rl.allowed_count + rl.denied_global_count + rl.denied_session_count + rl.denied_other_count

unfoldable pub run_requests : RateLimiter → List (Option Reply) → RateLimiter
run_requests rl [] = rl
run_requests rl (r ∷ rs) = run_requests (acquire_with_reason r rl).1 rs

count_denied-counted :
    (s : String) (rl : RateLimiter) → counted (count_denied s rl) ≡ counted rl + 1
unfolding count_denied
count_denied-counted s rl = ground arith

count_reply-counted :
    (p : Bool × String) (rl : RateLimiter) → counted (count_reply p rl).1 ≡ counted rl + 1
unfolding count_reply
count_reply-counted (true, s) rl = omega arith
count_reply-counted (false, s) rl = count_denied-counted s rl

acquire-counted :
    (r : Option Reply) (rl : RateLimiter) → counted (acquire_with_reason r rl).1 ≡ counted rl + 1
unfolding acquire_with_reason
acquire-counted none rl = ground arith
acquire-counted (some r) rl = ground (arith, count_reply-counted (parse_acquire_result r) rl)

-- Whatever the script answers, and when the call fails, every request is counted once: the allowed
-- and the denied requests of the statistics together grow by the number of the requests.
pub counted-run_requests :
    (rs : List (Option Reply)) (rl : RateLimiter)
    → counted (run_requests rl rs) ≡ counted rl + length rs
unfolding run_requests
counted-run_requests [] rl = omega arith
counted-run_requests (r ∷ rs) rl =
    let ih = counted-run_requests rs (acquire_with_reason r rl).1 in
    let step = acquire-counted r rl in omega arith
