-- ===== src/Counters/Tests.antt =====
-- Runs of the counters.
use stpt_query.Common.{ℕ, Bool, true, false, List, [], ◌∷◌, String_discrete}
use stpt_query.Common.Dict
use stpt_query.Counters.{Request, ServerState, count, record_request, record_all, started}
use stpt_query.Counters.Sums.{AllSound, counters-AllSound}

program : Unit {0}
unfolding Dict.get Dict.put count record_request record_all String_discrete
program = tt

abbrev grades : Bool → ℕ → Request
grades ok d = record {
  endpoint = "/grades";
  is_ok = ok;
  duration_us = d;
  rounded = d;
  hit = false;
  status_code = 200;
  now = 1000;
}

abbrev two_requests : List Request
two_requests = grades true 4000 ∷ grades false 30_000 ∷ []

abbrev after_one : ServerState
after_one = record_all (grades true 4000 ∷ []) started

counters-AllSound_example : AllSound (record_all two_requests started)
counters-AllSound_example = counters-AllSound two_requests
