-- ===== src/Sessions/Tests.antt =====
-- Runs of the session store, and the theorems about it at concrete stores.
use stpt_query.Common.{
  ℕ, ◌≤◌, String, Bool, true, ◌≡◌, refl, none, some, List, [], ◌∷◌, arith, String_discrete,
  ne_by_test, ◌⊎◌, ◌<◌,
}
use stpt_query.Common.Dict
use stpt_query.Common.Dict.{Dict}
use stpt_query.Common.Names
use stpt_query.Clock.{or_clock}
use stpt_query.Sessions
use stpt_query.Sessions.{Session, SessionStore}
use stpt_query.Sessions.Index.{holds, index, unindex}
use stpt_query.Sessions.Valid.{IsConsistent}
use stpt_query.Sessions.Reuse.{Fits, IsNewest, find_reusable-some, find_reusable-none}
use stpt_query.Sessions.Create.{removed_lem}
use stpt_query.Sessions.Methods.{get-create_lem}
use stpt_query.Sessions.History.{Call, after, run, AllDraw, IsValid, history-IsValid}

program : Unit {0}
unfolding Dict.get Dict.put Dict.pop Dict.least Names.has Names.add Names.discard or_clock holds
    index unindex Sessions.init Sessions.drop Sessions.expired Sessions.drop_all Sessions.sweep
    Sessions.drop_oldest Sessions.evict Sessions.new_session Sessions.enter Sessions.create
    Sessions.reusable Sessions.best_of Sessions.find_reusable Sessions.refresh Sessions.or_old
    Sessions.touch Sessions.get Sessions.status Sessions.invalidate after run AllDraw
    String_discrete
program = tt

abbrev sign_in : String → ℕ → Call ℕ
sign_in sid now = Call.create sid "2301" 7 none none (some "digest") now

-- Two sessions of one user, in a store that holds two.
abbrev two_calls : List (Call ℕ)
two_calls = sign_in "s1" 1000 ∷ sign_in "s2" 2000 ∷ []

two_calls-AllDraw : AllDraw (Sessions.init 60 2) two_calls
unfolding program
two_calls-AllDraw = (refl, (refl, tt))

abbrev two : SessionStore ℕ
two = run (Sessions.init 60 2) two_calls

third_evicts_oldest :
    (Dict.get "s1" (after two (sign_in "s3" 3000)).sessions ≡ none)
    × (holds (after two (sign_in "s3" 3000)).by_user "2301" "s3" ≡ true)
unfolding program
third_evicts_oldest = (refl, refl)

history-IsValid_example : IsValid two
history-IsValid_example = history-IsValid 60 2 two_calls two_calls-AllDraw

abbrev two-IsConsistent : IsConsistent two
two-IsConsistent = (history-IsValid 60 2 two_calls two_calls-AllDraw).consistent

find_reusable-some_example :
    (◌≡◌ {A = Bool} true true) × ((r : Session ℕ) × IsNewest two "2301" "digest" 500 2100 "s2" r)
unfolding program
find_reusable-some_example =
    find_reusable-some "2301" "digest" 500 2100 two two-IsConsistent true "s2" refl

abbrev first : Session ℕ
first = record {
  username = "2301";
  cookies = 7;
  portal = [];
  at = 1000;
  exp = 60_001_000;
  pwd_hash = some "digest";
  warm_evt = none;
}

find_reusable-none_example : ¬ Fits "digest" 50 2100 first
unfolding program
find_reusable-none_example =
    find_reusable-none "2301" "digest" 50 2100 two two-IsConsistent (ne_by_test "2301" "" refl)
      (ne_by_test "digest" "" refl) refl "s1" first refl refl

abbrev empty : SessionStore ℕ
empty = Sessions.init 60 2

get-create_lem_example :
    (Sessions.get "s1" 5000 (Sessions.create "s1" "2301" 7 none none none 1000 empty)).1
    ≡ some (Sessions.new_session "2301" 7 none none none 1000 empty)
unfolding Dict.get Sessions.init AllDraw run
get-create_lem_example =
    get-create_lem "s1" "2301" 7 none none none 1000 5000 empty (ne_by_test "s1" "" refl)
      (history-IsValid 60 2 [] tt).consistent refl (omega arith) (λ j r e. ground arith)

removed_lem_example :
    (60_001_000 < 3000)
    ⊎ ((i : String) (q : Session ℕ)
        → Dict.get i (Sessions.create "s3" "2301" 7 none none none 3000 two).sessions ≡ some q
        → 1000 ≤ q.at)
unfolding program
removed_lem_example =
    removed_lem "s3" "2301" 7 none none none 3000 two two-IsConsistent refl "s1" first refl refl
