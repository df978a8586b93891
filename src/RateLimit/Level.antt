-- ===== src/RateLimit/Level.antt =====
-- The level of a bucket in units, while the clock does not run back.
use stpt_query.Common.{ℕ, ◌+◌, ◌-◌, ◌*◌, ◌≤◌, min, ◌≡◌, refl, arith, leb, if◌then◌else◌}
use stpt_query.Common.Int.{pos, sub_ℕ, ◌+ℤ◌, ◌-ℤ◌, ◌*ℤ◌, min_ℤ}
use stpt_query.RateLimit.{token, Bucket, full, refill, spend}

*ℤ_pos : (a b : ℕ) → pos a *ℤ pos b ≡ pos (a * b)
unfolding ◌*ℤ◌
*ℤ_pos a b = ground arith

+ℤ_pos : (a b : ℕ) → pos a +ℤ pos b ≡ pos (a + b)
unfolding ◌+ℤ◌
+ℤ_pos a b = ground arith

min_ℤ_pos : (a b : ℕ) → min_ℤ (pos a) (pos b) ≡ pos (min a b)
unfolding min_ℤ
min_ℤ_pos a b = ground arith

sub_ℕ_pos : (a b : ℕ) → b ≤ a → sub_ℕ a b ≡ pos (a - b)
sub_ℕ_pos a b h = ground arith

-- The bucket holds `n` units, and no more than its limit.
pub record Holds (limit : ℕ) (b : Bucket) (n : ℕ) : Type 0 where
  pub level : b.tokens ≡ pos n
  pub capped : n ≤ limit * token

-- A refill adds `limit` units a tick, up to the limit.
abbrev pub level-refill : ℕ → ℕ → Bucket → ℕ → ℕ
level-refill limit now b n = min (limit * token) (n + (now - b.last) * limit)

pub refill-Holds :
    (limit now : ℕ) (b : Bucket) (n : ℕ)
    → Holds limit b n
    → b.last ≤ now
    → Holds limit (refill limit now b) (level-refill limit now b n)
unfolding refill
refill-Holds limit now b n h le = record {
  level = rw (h.level, sub_ℕ_pos now b.last le, *ℤ_pos, +ℤ_pos, min_ℤ_pos);
  capped = omega arith;
}

-- A whole token is taken, or nothing.
pub spend-Holds :
    (limit : ℕ) (b : Bucket) (n : ℕ)
    → Holds limit b n
    → ((spend b).1 ≡ leb token n)
      × Holds limit (spend b).0 (if leb token n then n - token else n)
      × ((spend b).0.last ≡ b.last)
unfolding spend ◌-ℤ◌
spend-Holds limit b n h =
    (ground arith, record { level = ground arith; capped = ground arith }, ground arith)

pub full-Holds : (limit now : ℕ) → Holds limit (full limit now) (limit * token)
unfolding full
full-Holds limit now = record { level = refl; capped = omega arith }
