-- ===== src/Clock.antt =====
-- Readings of `time.time()`: whole ticks since the epoch, a million to the second.
use stpt_query.Common.{ℕ, ◌≡◌, arith, Option, none, some, if◌then◌else◌, ◌==◌}

abbrev pub second : ℕ
second = 1000000

-- `now or time.time()`: a reading of zero is taken again.
unfoldable pub or_clock : Option ℕ → ℕ → ℕ
or_clock none clock = clock
or_clock (some now) clock = if now == 0 then clock else now

pub or_clock_self : (now : ℕ) → or_clock (some now) now ≡ now
unfolding or_clock
or_clock_self now = ground arith
