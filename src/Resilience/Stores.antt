-- ===== src/Resilience/Stores.antt =====
-- The `Resilient…` classes of app/jwxt_redis.py: the methods of each store in this process, as what
-- the wrapper falls back to, and the wrapped methods. What a method of the store in Redis does is a
-- parameter.
use stpt_query.Common.{ℕ, String, Bool, Option}
use stpt_query.Sessions
use stpt_query.Sessions.{Session, SessionStore, Status}
use stpt_query.Sessions.History
use stpt_query.Cache
use stpt_query.Cache.{TtlCache}
use stpt_query.ShortCodes
use stpt_query.ShortCodes.{ShortCodeStore}
use stpt_query.ShortCodes.Single
use stpt_query.RateLimit
use stpt_query.RateLimit.{RateLimiter}
use stpt_query.Resilience.{Outcome, Guarded, resilient}

-- What a method returns.
pub data Answer (C : Type 0) : Type 0 where
  nothing : Answer C
  text : String → Answer C
  flag : Bool → Answer C
  number : ℕ → Answer C
  maybe_text : Option String → Answer C
  maybe_session : Option (Session C) → Answer C
  maybe_status : Option Status → Answer C

-- The methods of the session store in this process.
unfoldable pub session_call :
    {C : Type 0} → History.Call C → SessionStore C → SessionStore C × Answer C
session_call (History.create sid username cookies portal warm_evt pwd_hash now) s =
    (Sessions.create sid username cookies portal warm_evt pwd_hash now s, text sid)
session_call (History.find_reusable reuse username hash max_age now) s =
    let (t, a) = Sessions.find_reusable reuse username hash max_age now s in (t, maybe_text a)
session_call (History.refresh sid cookies portal) s =
    let (t, a) = Sessions.refresh sid cookies portal s in (t, flag a)
session_call (History.touch sid now) s = let (t, a) = Sessions.touch sid now s in (t, flag a)
session_call (History.get sid now) s = let (t, a) = Sessions.get sid now s in (t, maybe_session a)
session_call (History.status sid now later) s =
    let (t, a) = Sessions.status sid now later s in (t, maybe_status a)
session_call (History.sweep now clock) s = let (t, a) = Sessions.sweep now clock s in (t, number a)
session_call (History.invalidate sid) s = let (t, a) = Sessions.invalidate sid s in (t, flag a)

-- The methods of the codes in this process.
unfoldable pub code_call : Single.Call → ShortCodeStore → ShortCodeStore × Answer (Unit {0})
code_call (Single.mint code sid now) s = (ShortCodes.mint code sid now s, text code)
code_call (Single.resolve code consume now) s =
    let (t, a) = ShortCodes.resolve code consume now s in (t, maybe_text a)
code_call (Single.sweep now clock) s = let (t, a) = ShortCodes.sweep now clock s in (t, number a)

-- `ResilientRedisSessionStore`: every method is wrapped.
module _ {P C : Type 0} (redis : History.Call C → P → P × Outcome (Answer C)) where
  unfoldable pub resilient_session :
      ℕ
      → ℕ
      → History.Call C
      → Guarded P (SessionStore C)
      → Guarded P (SessionStore C) × Option (Answer C)
  resilient_session now later c g = resilient now later (redis c) (session_call c) g

-- `ResilientRedisShortCodeStore`
module _ {P : Type 0} (redis : Single.Call → P → P × Outcome (Answer (Unit {0}))) where
  unfoldable pub resilient_code :
      ℕ
      → ℕ
      → Single.Call
      → Guarded P ShortCodeStore
      → Guarded P ShortCodeStore × Option (Answer (Unit {0}))
  resilient_code now later c g = resilient now later (redis c) (code_call c) g

-- What a method of the cache returns.
pub data CacheAnswer (A Q : Type 0) : Type 0 where
  done : CacheAnswer A Q
  value : Option A → CacheAnswer A Q
  payload : Option Q → CacheAnswer A Q
  count : ℕ → CacheAnswer A Q

pub data CacheCall (A Q : Type 0) : Type 0 where
  get : String → ℕ → CacheCall A Q
  get_payload : String → ℕ → CacheCall A Q
  delete : String → CacheCall A Q
  set : String → A → Option ℕ → Option Q → ℕ → ℕ → CacheCall A Q
  sweep : Option ℕ → ℕ → CacheCall A Q

module _ {A Q : Type 0} where
  unfoldable pub cache_call : CacheCall A Q → TtlCache A Q → TtlCache A Q × CacheAnswer A Q
  cache_call (get key now) c = let (d, a) = Cache.get key now c in (d, value a)
  cache_call (get_payload key now) c = (c, payload (Cache.get_payload key now c))
  cache_call (delete key) c = (Cache.delete key c, done)
  cache_call (set key v ttl p now later) c = (Cache.set key v ttl p now later c, done)
  cache_call (sweep now clock) c = let (d, a) = Cache.sweep now clock c in (d, count a)

-- `ResilientRedisTTLCache`
module _ {P A Q : Type 0} (redis : CacheCall A Q → P → P × Outcome (CacheAnswer A Q)) where
  unfoldable pub resilient_cache :
      ℕ
      → ℕ
      → CacheCall A Q
      → Guarded P (TtlCache A Q)
      → Guarded P (TtlCache A Q) × Option (CacheAnswer A Q)
  resilient_cache now later c g = resilient now later (redis c) (cache_call c) g

pub data RateCall : Type 0 where
  allow : String → ℕ → RateCall
  sweep_rates : Option ℕ → ℕ → RateCall

pub data RateAnswer : Type 0 where
  passed : Bool → RateAnswer
  removed : ℕ → RateAnswer

unfoldable pub rate_call : RateCall → RateLimiter → RateLimiter × RateAnswer
rate_call (allow key now) l = let (m, ok) = RateLimit.allow key now l in (m, passed ok)
rate_call (sweep_rates now clock) l = let (m, n) = RateLimit.sweep now clock l in (m, removed n)

-- `ResilientRedisRateLimiter`
module _ {P : Type 0} (redis : RateCall → P → P × Outcome RateAnswer) where
  unfoldable pub resilient_rate :
      ℕ → ℕ → RateCall → Guarded P RateLimiter → Guarded P RateLimiter × Option RateAnswer
  resilient_rate now later c g = resilient now later (redis c) (rate_call c) g
