-- ===== src/Resilience/Semaphore.antt =====
-- `ResilientRedisSemaphore` of app/jwxt_redis.py with its `LocalSemaphore`, shared by threads: the
-- sections under `_holds_lock` and the operations of the local semaphore are steps of their own.
use stpt_query.Common.{ℕ, ◌+◌, ◌-◌, ◌<◌, ◌≤◌, max, ◌≡◌, Bool, true, false, ltb, if◌then◌else◌}

-- `BoundedSemaphore`: the permits left, of the bound; a release beyond the bound raises.
pub record LocalSemaphore : Type 0 where
  pub bound : ℕ
  pub permits : ℕ

unfoldable pub init : ℕ → LocalSemaphore
init limit = record { bound = max 1 limit; permits = max 1 limit }

-- `acquire` with the timeout over: takes a permit if there is one
unfoldable pub acquire : LocalSemaphore → LocalSemaphore × Bool
acquire l = if ltb 0 l.permits then (record l { permits = l.permits - 1 }, true) else (l, false)

-- `release`, which raises `ValueError` where the flag is false
unfoldable pub release : LocalSemaphore → LocalSemaphore × Bool
release l =
    if ltb l.permits l.bound then (record l { permits = l.permits + 1 }, true) else (l, false)

-- The semaphore, `_fallback_holds`, the threads between the two sections of `acquire`, whether a
-- release of the local semaphore ever raised, and what the code does not keep: the threads that
-- hold a permit of this process, those that hold one of Redis, and the permits of Redis that were
-- taken and not given back.
pub record System : Type 0 where
  pub local : LocalSemaphore
  pub fallback_holds : ℕ
  pub between : ℕ
  pub raised : Bool
  pub local_holders : ℕ
  pub redis_holders : ℕ
  pub redis_taken : ℕ

-- The section of `release` under the lock; the flag says that it returned.
unfoldable pub give_back : System → System × Bool
give_back s =
    if ltb 0 s.fallback_holds
    then (let (l, ok) = release s.local in
        (
          record s {
            local = l;
            fallback_holds = s.fallback_holds - 1;
            raised = if ok then s.raised else true;
          },
          true,
        ))
    else (s, false)

-- `release`: a permit of Redis is given back, or left to its lease where Redis fails, where the
-- section under the lock did not return.
unfoldable pub release_any : System → System
release_any s =
    let p = give_back s in if p.1 then p.0 else record s { redis_taken = s.redis_taken - 1 }

pub data Step (s : System) (t : System) : Type 0 where
  -- `self.fallback.acquire(timeout)` where it succeeds or not
  take :
      (acquire s.local).1 ≡ true
      → t ≡ record s { local = (acquire s.local).0; between = s.between + 1 }
      → Step s t
  miss : (acquire s.local).1 ≡ false → t ≡ record s { local = (acquire s.local).0 } → Step s t
  -- `self._fallback_holds += 1`
  note :
      0 < s.between
      → t ≡ record s {
        fallback_holds = s.fallback_holds + 1;
        between = s.between - 1;
        local_holders = s.local_holders + 1;
      }
      → Step s t
  -- `self.primary.acquire(timeout)` where it succeeds
  enter :
      t ≡ record s { redis_holders = s.redis_holders + 1; redis_taken = s.redis_taken + 1 }
      → Step s t
  -- `release` by a thread that holds a permit of this process, and by one that holds one of Redis
  leave_local :
      0 < s.local_holders
      → t ≡ record (release_any s) { local_holders = s.local_holders - 1 }
      → Step s t
  leave_redis :
      0 < s.redis_holders
      → t ≡ record (release_any s) { redis_holders = s.redis_holders - 1 }
      → Step s t

pub data Reach (limit : ℕ) : System → Type 0 where
  start : Reach limit (record {
    local = init limit;
    fallback_holds = 0;
    between = 0;
    raised = false;
    local_holders = 0;
    redis_holders = 0;
    redis_taken = 0;
  })
  next : {s t : System} → Reach limit s → Step s t → Reach limit t

-- The counters agree: a permit that is out is counted once, here or in Redis.
pub record Balanced (limit : ℕ) (s : System) : Type 0 where
  pub sum : s.local.permits + s.fallback_holds + s.between ≡ s.local.bound
  pub same : s.local.bound ≡ max 1 limit
  pub sound : s.raised ≡ false
  pub holders : s.fallback_holds + s.redis_taken ≡ s.local_holders + s.redis_holders
  pub fewer : s.fallback_holds ≤ s.local_holders
