-- ===== src/Resilience.antt =====
-- `RedisBackend` and `_resilient` of app/jwxt_redis.py: the circuit breaker in front of the shared
-- stores, and a call that falls back to the store of this process. The Redis client is not code of
-- the repository: what a call of it does is a parameter, a function with an `Outcome`.
pub mod Breaker
pub mod Stores
pub mod Degraded
pub mod Semaphore
mod Tests
use stpt_query.Common.{ℕ, ◌-◌, max, Bool, true, false, not, Option, none, some, ltb, if◌then◌else◌}
use stpt_query.Clock.{second}

pub record Backend : Type 0 where
  pub available : Bool
  pub probing : Bool
  pub degraded : Bool
  pub last_failure_at : ℕ
  pub failure_cooldown : ℕ

-- How a call of the Redis client ends: with a result, with a `RedisError`, or with another error.
pub data Outcome {ℓ} (A : Type ℓ) : Type ℓ where
  returned : A → Outcome A
  redis_error : Outcome A
  other_error : Outcome A

-- `_init_availability`, with the cooldown of `__init__`
unfoldable pub init : ℕ → Backend
init cooldown = record {
  available = true;
  probing = false;
  degraded = false;
  last_failure_at = 0;
  failure_cooldown = max second cooldown;
}

unfoldable pub attempt_allowed : ℕ → Backend → Backend × Bool
attempt_allowed now b =
    if b.available
    then (b, true)
    else if ltb (now - b.last_failure_at) b.failure_cooldown
    then (b, false)
    else if b.probing
    then (b, false)
    else (record b { probing = true }, true)

unfoldable pub record_success : Backend → Backend
record_success b = record b { available = true; probing = false; degraded = false }

unfoldable pub record_failure : ℕ → Backend → Backend
record_failure now b = record b {
  available = false;
  probing = false;
  degraded = true;
  last_failure_at = now;
}

unfoldable pub abandon_attempt : Backend → Backend
abandon_attempt b = record b { probing = false }

-- `probe`, with the outcome of the ping and the reading of the clock on a failure
unfoldable pub probe : Outcome (Unit {0}) → ℕ → Backend → Backend × Outcome Bool
probe (returned u) now b = (record_success b, returned true)
probe redis_error now b = (record_failure now b, returned false)
probe other_error now b = (b, other_error)

-- `__init__`: the client is pinged once.
unfoldable pub start : ℕ → Outcome (Unit {0}) → ℕ → Backend
start cooldown (returned u) now = record_success (init cooldown)
start cooldown redis_error now = record_failure now (init cooldown)
start cooldown other_error now = init cooldown

-- `status_info`, but for its constant fields: whether all is well, and whether it is degraded
unfoldable pub status_info : Backend → Bool × Bool
status_info b = (not b.degraded, b.degraded)

-- The breaker, the store behind it and the store of this process.
pub record Guarded (P F : Type 0) : Type 0 where
  pub backend : Backend
  pub primary : P
  pub fallback : F

module _ {P F A : Type 0} where
  -- `return getattr(self.fallback, operation)(*args, **kwargs)`
  unfoldable pub fall_back : (F → F × A) → Guarded P F → Guarded P F × Option A
  fall_back f g = let (s, a) = f g.fallback in (record g { fallback = s }, some a)

  -- The part of the wrapper after the call of the primary store.
  unfoldable pub settle : ℕ → (F → F × A) → P × Outcome A → Guarded P F → Guarded P F × Option A
  settle later f (p, returned a) g =
      (record g { backend = record_success g.backend; primary = p }, some a)
  settle later f (p, redis_error) g =
      fall_back f (record g { backend = record_failure later g.backend; primary = p })
  settle later f (p, other_error) g =
      (record g { backend = abandon_attempt g.backend; primary = p }, none)

  -- `_resilient`: the wrapper, with the readings of the clock before the call and on a failure. The
  -- result `none` is another error, which is raised again.
  unfoldable pub resilient :
      ℕ → ℕ → (P → P × Outcome A) → (F → F × A) → Guarded P F → Guarded P F × Option A
  resilient now later call f g =
      let (b, allowed) = attempt_allowed now g.backend in
      let g' = record g { backend = b } in
      if allowed then settle later f (call g.primary) g' else fall_back f g'
