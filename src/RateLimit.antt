-- ===== src/RateLimit.antt =====
-- `RateLimiter` of app/jwxt_state.py: a token bucket for each key, the least recently used bucket
-- first. Levels are exact: a token is 60 * `second` units, so that the refill of `limit / 60`
-- tokens a second is `limit` units a tick of the clock. A clock that runs back lowers the level,
-- which may fall below zero.
mod Level
pub mod Rate
pub mod Table
mod Tests
use stpt_query.Common.{
  ℕ, suc, ◌+◌, ◌-◌, ◌*◌, max, String, Bool, true, false, Option, none, some, List, [], ◌∷◌, ◌++◌,
  length, ltb, leb, ◌==◌, if◌then◌else◌, not,
}
use stpt_query.Common.Int.{ℤ, pos, negsuc, sub_ℕ, ◌+ℤ◌, ◌-ℤ◌, ◌*ℤ◌, leb_ℤ, min_ℤ}
use stpt_query.Common.Dict
use stpt_query.Common.Dict.{Dict}
use stpt_query.Clock.{second, or_clock}

-- One token, in units.
abbrev pub token : ℕ
token = 60 * second

pub record Bucket : Type 0 where
  pub tokens : ℤ
  pub last : ℕ

pub record RateLimiter : Type 0 where
  pub limit : ℕ
  pub max_buckets : ℕ
  pub buckets : Dict Bucket

-- `__init__`; a negative setting counts as zero.
unfoldable pub init : ℕ → ℕ → RateLimiter
init limit_per_min max_buckets = record {
  limit = limit_per_min;
  max_buckets = max 1 max_buckets;
  buckets = [];
}

-- `[float(self.limit), now]`
unfoldable pub full : ℕ → ℕ → Bucket
full limit now = record { tokens = pos (limit * token); last = now }

-- `min(float(self.limit), tokens + (now - last) * self.rate)`, at `now`
unfoldable pub refill : ℕ → ℕ → Bucket → Bucket
refill limit now b = record {
  tokens = min_ℤ (pos (limit * token)) (b.tokens +ℤ sub_ℕ now b.last *ℤ pos limit);
  last = now;
}

-- The test at the end of `allow`: takes a token if there is a whole one.
unfoldable pub spend : Bucket → Bucket × Bool
spend b =
    if leb_ℤ (pos token) b.tokens
    then (record b { tokens = b.tokens -ℤ pos token }, true)
    else (b, false)

-- `popitem(last=False)`
unfoldable pub pop_first : Dict Bucket → Dict Bucket
pop_first [] = []
pop_first ((k, b) ∷ d) = Dict.pop k ((k, b) ∷ d)

-- A new bucket at the end of the order, and the eviction of the first where there are too many.
-- The token is taken after the eviction, from a bucket that the table shares.
unfoldable pub admit : String → Bucket → RateLimiter → RateLimiter
unfolding pop_first
admit key b l =
    let d = Dict.put key b l.buckets in
    record l { buckets = if ltb l.max_buckets (length d) then pop_first d else d }

unfoldable pub allow : String → ℕ → RateLimiter → RateLimiter × Bool
allow key now l = if l.limit == 0 then (l, true) else (elim (Dict.get key l.buckets) [
  | none ↦ let (b, ok) = spend (full l.limit now) in (admit key b l, ok)
  | some old ↦
      let (b, ok) = spend (refill l.limit now old) in
      (record l { buckets = Dict.put key b (Dict.pop key l.buckets) }, ok)
])

-- `sweep`: buckets that were not used for two minutes go; the count of them is returned.
unfoldable pub sweep : Option ℕ → ℕ → RateLimiter → RateLimiter × ℕ
sweep now clock l =
    let fresh : Bucket → Bool = λ b. leb (or_clock now clock) (b.last + 120 * second) in
    if l.limit == 0 then (l, 0) else (
      record l { buckets = Dict.keep fresh l.buckets },
      length (Dict.keep (λ b. not (fresh b)) l.buckets),
    )

-- `_prune`
unfoldable pub prune : ℕ → ℕ → RateLimiter → RateLimiter
unfolding sweep
prune now clock l = if ltb l.max_buckets (length l.buckets) then (sweep (some now) clock l).0 else l
