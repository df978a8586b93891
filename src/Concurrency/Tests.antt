-- ===== src/Concurrency/Tests.antt =====
-- Runs of the concurrency limiter.
use stpt_query.Common.{◌≤◌, true, false, ◌≡◌, refl, leb, if◌then◌else◌, arith}
use stpt_query.Concurrency.{init, try_acquire, System, enter, Reach, start, next, admission}

-- A limit of one, with one request inside.
abbrev one_in : System
one_in = record { limiter = record { limit = 1; active = 1 }; holders = 1 }

one_in-Reach : Reach 1 one_in
unfolding try_acquire init
one_in-Reach = next start (enter refl refl)

second_refused : (try_acquire one_in.limiter).1 ≡ false
unfolding try_acquire
second_refused = refl

admission_example : (1 ≤ 1) × ((try_acquire one_in.limiter).1 ≡ (if leb 1 1 then false else true))
admission_example = admission 1 one_in (omega arith) one_in-Reach

-- No limit, with one request inside.
abbrev open_in : System
open_in = record { limiter = record { limit = 0; active = 0 }; holders = 1 }

open_in-Reach : Reach 0 open_in
unfolding try_acquire init
open_in-Reach = next start (enter refl refl)
