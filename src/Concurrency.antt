-- ===== src/Concurrency.antt =====
-- `ConcurrencyLimiter` of app/jwxt_state.py. Each method holds the lock from its test to its
-- write, so a method is one step, and threads interleave only between methods.
mod Tests
use stpt_query.Common.{
  ℕ, zero, suc, ◌+◌, ◌-◌, ◌≤◌, ◌<◌, Bool, true, false, ◌≡◌, refl, arith, leb, ◌==◌, if◌then◌else◌,
}

pub record ConcurrencyLimiter : Type 0 where
  pub limit : ℕ
  pub active : ℕ

-- `__init__`; a negative setting counts as zero.
unfoldable pub init : ℕ → ConcurrencyLimiter
init limit = record { limit = limit; active = 0 }

unfoldable pub try_acquire : ConcurrencyLimiter → ConcurrencyLimiter × Bool
try_acquire l =
    if l.limit == 0
    then (l, true)
    else if leb l.limit l.active
    then (l, false)
    else (record l { active = l.active + 1 }, true)

-- `max(0, self._active - 1)`: subtraction stops at zero.
unfoldable pub release : ConcurrencyLimiter → ConcurrencyLimiter
release l = if l.limit == 0 then l else record l { active = l.active - 1 }

-- The limiter and the number of requests that hold a slot.
pub record System : Type 0 where
  pub limiter : ConcurrencyLimiter
  pub holders : ℕ

-- A request asks for a slot and gets it or not; a request that holds one gives it back.
pub data Step (s : System) (t : System) : Type 0 where
  enter :
      (try_acquire s.limiter).1 ≡ true
      → t ≡ record { limiter = (try_acquire s.limiter).0; holders = s.holders + 1 }
      → Step s t
  refuse :
      (try_acquire s.limiter).1 ≡ false
      → t ≡ record { limiter = (try_acquire s.limiter).0; holders = s.holders }
      → Step s t
  leave :
      0 < s.holders → t ≡ record { limiter = release s.limiter; holders = s.holders - 1 } → Step s t

pub data Reach (limit : ℕ) : System → Type 0 where
  start : Reach limit (record { limiter = init limit; holders = 0 })
  next : {s t : System} → Reach limit s → Step s t → Reach limit t

-- With a limit, the counter is the number of holders, and at most the limit.
pub record Counts (cap : ℕ) (s : System) : Type 0 where
  pub limit : s.limiter.limit ≡ cap
  pub exact : s.limiter.active ≡ s.holders
  pub bounded : s.holders ≤ cap

Step-Counts : {limit : ℕ} {s t : System} → 0 < limit → Step s t → Counts limit s → Counts limit t
unfolding try_acquire release
Step-Counts on (enter got e) c = ground arith
Step-Counts on (refuse got e) c = ground arith
Step-Counts on (leave held e) c = ground arith

Reach-Counts : {limit : ℕ} {s : System} → 0 < limit → Reach limit s → Counts limit s
unfolding init
Reach-Counts {limit} on start = record { limit = refl; exact = refl; bounded = omega arith }
Reach-Counts on (next r st) = Step-Counts on st (Reach-Counts on r)

-- With a limit that is not zero, in every reachable state the requests that hold a slot are at
-- most the limit, and the next request is let in exactly while they are fewer than the limit.
pub admission :
    (limit : ℕ) (s : System)
    → 0 < limit
    → Reach limit s
    → (s.holders ≤ limit)
      × ((try_acquire s.limiter).1 ≡ (if leb limit s.holders then false else true))
unfolding try_acquire
admission limit s on r = let c = Reach-Counts on r in (c.bounded, ground (arith, c.limit, c.exact))

-- With a limit of zero, in every reachable state the next request is let in.
pub unlimited : (s : System) → Reach 0 s → (try_acquire s.limiter).1 ≡ true
unfolding try_acquire release init
unlimited s r = ground (arith, zero_kept r)
  where
    zero_kept : {u : System} → Reach 0 u → u.limiter.limit ≡ 0
    zero_kept start = refl
    zero_kept (next q (enter got e)) = ground (arith, zero_kept q)
    zero_kept (next q (refuse got e)) = ground (arith, zero_kept q)
    zero_kept (next q (leave held e)) = ground (arith, zero_kept q)
