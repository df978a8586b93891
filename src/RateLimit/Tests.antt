-- ===== src/RateLimit/Tests.antt =====
-- Runs of the rate limiter.
use stpt_query.Common.{
  ℕ, ◌+◌, ◌-◌, ◌*◌, ◌≤◌, ◌≡◌, refl, subst, none, some, List, [], ◌∷◌, String_discrete, arith,
}
use mathlib.Core.Option.{some-injective}
use stpt_query.Common.Dict
use stpt_query.Clock.{or_clock}
use stpt_query.Common.Int.{min_ℤ, ◌+ℤ◌, ◌-ℤ◌, ◌*ℤ◌}
use stpt_query.RateLimit
use stpt_query.RateLimit.{token, Bucket, RateLimiter}
use stpt_query.RateLimit.Rate.{Requests, granted, Roomy, end_of, rate_bound}
use stpt_query.RateLimit.Level.{Holds}
use stpt_query.RateLimit.Table.{Call, run, after, buckets-IsBounded, allow-sweep_same}

program : Unit {0}
unfolding Dict.get Dict.put Dict.pop Dict.keep RateLimit.init RateLimit.full RateLimit.refill
    RateLimit.spend RateLimit.pop_first RateLimit.admit RateLimit.allow run after granted Roomy
    String_discrete min_ℤ ◌+ℤ◌ ◌-ℤ◌ ◌*ℤ◌ or_clock
program = tt

abbrev calls : List Call
calls = Call.allow "a" 1000 ∷ Call.allow "b" 1500 ∷ Call.allow "c" 2000 ∷ []

abbrev full_table : RateLimiter
full_table = run (RateLimit.init 1 2) calls

first_is_gone : Dict.get "a" full_table.buckets ≡ none
unfolding program
first_is_gone = refl

-- The second request within a minute is refused, the one after a minute passes.
abbrev requests : Requests
requests = ("a", 1000) ∷ ("a", 2000) ∷ ("a", 61_000_000) ∷ []

two_of_three : granted "a" requests (RateLimit.init 1 2) ≡ 2
unfolding program
two_of_three = refl

rate_bound_example :
    granted "a" requests (RateLimit.init 1 2) * token ≤ 1 * (token + (end_of 1000 requests - 1000))
unfolding program
rate_bound_example =
    rate_bound 1 2 1000 "a" requests (omega arith) (omega arith, (omega arith, (omega arith, tt)))
      (λ e. omega arith, (λ e. absurd (ground arith), (λ e. absurd (ground arith), tt)))

abbrev used : RateLimiter
used = run (RateLimit.init 1 2) (Call.allow "a" 1000 ∷ [])

used-Holds : (b : Bucket) → Dict.get "a" used.buckets ≡ some b → (n : ℕ) × Holds used.limit b n
unfolding program
used-Holds b e =
    subst (λ x. (n : ℕ) × Holds 1 x n) (some-injective _ _ e)
      (0, record { level = refl; capped = omega arith })

allow-sweep_same_example :
    (RateLimit.allow "a" 200_000_000 (RateLimit.sweep none 130_000_000 used).0).1
    ≡ (RateLimit.allow "a" 200_000_000 used).1
unfolding program
allow-sweep_same_example =
    allow-sweep_same "a" none 130_000_000 200_000_000 used
      (buckets-IsBounded 1 2 (Call.allow "a" 1000 ∷ [])).distinct used-Holds (omega arith)
