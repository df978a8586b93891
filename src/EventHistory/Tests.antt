-- ===== src/EventHistory/Tests.antt =====
-- Runs of the history of events.
use stpt_query.Common.{ℕ, ◌≡◌, refl, String, List, [], ◌∷◌, String_discrete}
use stpt_query.Common.Dict
use stpt_query.EventHistory.{Item, init, add, recent, sorted, queue_of}
use stpt_query.EventHistory.Latest.{IsFit, after_events, after_events-IsFit}

abbrev item : ℕ → String → Item ℕ
item n m = record { score = n; member = m; event = n }

-- The event `a` comes again and stands once, with its new score.
abbrev three : List (String × Item ℕ)
three = ("k", item 3 "a") ∷ ("k", item 2 "b") ∷ ("k", item 1 "a") ∷ []

latest_first : recent "k" 5 (after_events 2 three) ≡ item 3 "a" ∷ item 2 "b" ∷ []
unfolding recent sorted after_events add init Dict.get Dict.put String_discrete
latest_first = refl

after_events-IsFit_example : IsFit 2 (queue_of (Dict.get "k" (after_events 2 three).events))
after_events-IsFit_example = after_events-IsFit 2 three "k"
