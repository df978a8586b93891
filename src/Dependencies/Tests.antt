-- ===== src/Dependencies/Tests.antt =====
-- Runs of the dependencies.
use stpt_query.Common.{String, ◌≡◌, refl, none, some, [], ◌∷◌, ite, String_discrete}
use stpt_query.Common.Dict
use stpt_query.Common.Dict.{Dict}
use stpt_query.Dependencies.{
  display_names, message_of, record_state, with_file_log, item, items_for, snapshot,
}
use stpt_query.Dependencies.Snapshot.{status_in, shown, status_in-snapshot}

abbrev known : Dict String
known = ("redis", "ok") ∷ []

degraded :
    status_in "redis" (snapshot none (record_state "redis" "degraded" known)) ≡ some "degraded"
unfolding Dict.get Dict.put record_state with_file_log item items_for snapshot message_of
    String_discrete
degraded = refl

status_in-snapshot_example :
    status_in "redis" (snapshot none (record_state "redis" "degraded" known))
    ≡ shown
        (Dict.get "redis" display_names)
        (ite (String_discrete "redis" "redis") (some "degraded") (Dict.get "redis" known))
status_in-snapshot_example = status_in-snapshot "redis" "redis" "degraded" known
