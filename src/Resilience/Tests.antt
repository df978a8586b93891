-- ===== src/Resilience/Tests.antt =====
-- Runs of the breaker and of a store behind it.
use stpt_query.Common.{ℕ, ◌≡◌, refl, true, false, List, [], ◌∷◌, arith}
use stpt_query.Common.Threads.{moved}
use stpt_query.RateLimit
use stpt_query.RateLimit.{RateLimiter}
use stpt_query.Resilience.{
  Backend, Outcome, redis_error, init, attempt_allowed, record_failure, Guarded,
}
use stpt_query.Resilience.Breaker.{
  outside, calling, System, failure, end_call, enter, finish, Reach, start, next, never_stuck,
}
use stpt_query.Resilience.Stores.{RateCall, RateAnswer, allow, rate_call}
use stpt_query.Resilience.Degraded.{run_guarded, run_own, degraded_run}
use stpt_query.Resilience.Semaphore

-- One call is let through and fails at 1000.
abbrev failed : System
failed = record {
  backend = record_failure 1000 (init 5_000_000);
  pc = moved (moved (λ i. outside) 0 (calling false)) 0 outside;
}

failed-Reach : Reach 2 5_000_000 failed
unfolding init attempt_allowed end_call record_failure
failed-Reach =
    next (next start (enter 0 500 (omega arith) refl refl refl))
      (finish 0 false (failure 1000) (omega arith) (ground arith) refl)

never_stuck_example : (attempt_allowed 6_000_000 failed.backend).1 ≡ true
unfolding init record_failure
never_stuck_example =
    never_stuck 2 5_000_000 failed 6_000_000 failed-Reach (λ i. ground arith) (omega arith)

-- A limiter whose Redis is down.
abbrev down : RateCall → Unit {0} → Unit {0} × Outcome RateAnswer
down c p = (p, redis_error)

abbrev guarded : Backend → Guarded (Unit {0}) RateLimiter
guarded b = record { backend = b; primary = tt; fallback = RateLimit.init 1 2 }

abbrev ask : RateCall
ask = allow "a" 1500

abbrev asks : List (ℕ × (ℕ × RateCall))
asks = (1500, (1500, ask)) ∷ (1700, (1700, ask)) ∷ []

degraded_run_example : run_guarded down rate_call asks (guarded failed.backend) ≡ (
  record (guarded failed.backend) { fallback = (run_own rate_call asks (RateLimit.init 1 2)).0 },
  (run_own rate_call asks (RateLimit.init 1 2)).1,
)
unfolding init record_failure
degraded_run_example =
    degraded_run down rate_call asks (guarded failed.backend) refl (refl, (refl, tt))

-- A permit of one is taken while Redis is down.
abbrev taken : Semaphore.System
taken = record {
  local = record { bound = 1; permits = 0 };
  fallback_holds = 1;
  between = 0;
  raised = false;
  local_holders = 1;
  redis_holders = 0;
  redis_taken = 0;
}
