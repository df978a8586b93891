-- ===== src/Cache/Tests.antt =====
-- Runs of the cache.
use stpt_query.Common.{
  ℕ, ◌+◌, ◌*◌, ◌≡◌, inr, refl, none, some, List, [], ◌∷◌, String_discrete, ne_by_test, ltb,
  if◌then◌else◌, arith,
}
use stpt_query.Common.Dict
use stpt_query.Common.Dict.{Distinct}
use stpt_query.Clock.{second, or_clock}
use stpt_query.Cache
use stpt_query.Cache.{Entry, TtlCache}
use stpt_query.Cache.Lookup.{live_at, off_lem, get-sweep}
use stpt_query.Cache.Writes.{Call, IsBounded, run, after, get-set, writes-IsBounded}

program : Unit {0}
unfolding Dict.get Dict.put Dict.pop Dict.keep Cache.init Cache.is_off Cache.make_room
    Cache.pop_first Cache.lifetime Cache.set run after String_discrete
program = tt

abbrev stored : List (Call ℕ ℕ)
stored = Call.set "k1" 5 none (some 50) 1000 1000 ∷ Call.set "k2" 6 (some 0) none 2000 2000 ∷ []

abbrev two : TtlCache ℕ ℕ
two = run (Cache.init 60 2) stored

two-IsBounded : IsBounded two
two-IsBounded = writes-IsBounded 60 2 stored

off_lem_example :
    (Cache.set "" 7 none none 3000 3000 two ≡ two)
    × ((Cache.get "" 3000 two).1 ≡ none)
    × (Cache.get_payload "" 3000 two ≡ none)
off_lem_example = off_lem "" 7 none none 3000 3000 3000 two (inr refl)

get-sweep_example :
    Dict.get "k2" (Cache.sweep none 1_500_000 two).0.entries
    ≡ live_at (or_clock none 1_500_000) (Dict.get "k2" two.entries)
unfolding program
get-sweep_example = get-sweep "k2" none 1_500_000 two (omega arith) two-IsBounded.distinct

get-set_example :
    ((Cache.get "k3" 4000 (Cache.set "k3" 7 (some 30) none 3000 3000 two)).1
      ≡ (if ltb 4000 (3000 + Cache.lifetime (some 30) two * second) then some 7 else none))
    × (Cache.get_payload "k3" 4000 (Cache.set "k3" 7 (some 30) none 3000 3000 two)
        ≡ (if ltb 4000 (3000 + Cache.lifetime (some 30) two * second) then none else none))
unfolding program
get-set_example =
    get-set "k3" 7 (some 30) none 3000 3000 two two-IsBounded 4000 (omega arith)
      (ne_by_test "k3" "" refl)

abbrev oldest : Entry ℕ ℕ
oldest = record { exp = 60_001_000; value = 5; payload = some 50 }
