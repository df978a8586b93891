-- ===== src/ShortCodes/Tests.antt =====
-- Runs of the short codes.
use stpt_query.Common.{true, false, ◌≡◌, refl, none, List, [], ◌∷◌, String_discrete, ne_by_test}
use stpt_query.Common.Dict
use stpt_query.ShortCodes
use stpt_query.ShortCodes.{ShortCodeStore}
use stpt_query.ShortCodes.Single.{Call, run, after, codes-IsBounded, resolve_once}

abbrev minted : List Call
minted = Call.mint "c1" "s1" 1000 ∷ []

abbrev one : ShortCodeStore
one = run (ShortCodes.init 60 2) minted

abbrev later_calls : List Call
later_calls = Call.mint "c2" "s2" 3000 ∷ Call.sweep none 4000 ∷ []

resolve_once_example :
    (ShortCodes.resolve "c1" false 5000
      (run (ShortCodes.resolve "c1" true 2000 one).0 later_calls)).1
    ≡ none
unfolding run Dict.get Dict.put Dict.keep Dict.least ShortCodes.init ShortCodes.mint
    ShortCodes.resolve ShortCodes.prune ShortCodes.evict after String_discrete
resolve_once_example =
    resolve_once "c1" "s1" false 2000 5000 one later_calls (ne_by_test "c1" "" refl)
      (codes-IsBounded 60 2 minted) refl (ne_by_test "c2" "c1" refl, (tt, tt))
