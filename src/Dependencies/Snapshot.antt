-- ===== src/Dependencies/Snapshot.antt =====
-- What a snapshot shows of the states that were recorded.
use stpt_query.Common.{
  String, ◌≡◌, ◌∙◌, refl, sym, ap, Option, none, some, List, [], ◌∷◌, ite, String_discrete, arith,
  inl, inr, Option-cases,
}
use stpt_query.Common.Dict
use stpt_query.Common.Dict.{Dict, get-put}
use stpt_query.Dependencies.{
  Item, display_names, or_else, record_state, file_log_status, with_file_log, item, items_for,
  snapshot,
}

-- The status that a list of items shows for a key: that of its first item.
abbrev pub status_in : String → List Item → Option String
status_in k [] = none
status_in k (i ∷ is) =
    let rest = status_in k is in ite (String_discrete i.key k) (some i.status) rest

-- The status of a key that has a name.
abbrev pub shown : Option String → Option String → Option String
shown none state = none
shown (some name) state = some (or_else "unknown" state)

status_in-items_for :
    (j : String) (names states : Dict String)
    → status_in j (items_for names states) ≡ shown (Dict.get j names) (Dict.get j states)
unfolding items_for item Dict.get
status_in-items_for j [] states = refl
status_in-items_for j ((k, name) ∷ names) states =
    ground (arith, status_in-items_for j names states)

same_key :
    (j k : String) (names : Dict String) (state : Option String)
    → Dict.get k names ≡ none
    → k ≡ j
    → shown (Dict.get j names) state ≡ none
same_key j k names state e p = rw (sym p) (rw e refl)

-- What is shown after `record`, for any names.
shown-record :
    (j k state : String) (names states : Dict String)
    → shown (Dict.get j names) (
        Dict.get j
          (elim (Dict.get k names) [ none ↦ states | some display ↦ Dict.put k state states ]))
      ≡ shown (Dict.get j names) (ite (String_discrete k j) (some state) (Dict.get j states))
shown-record j k state names states = elim (Option-cases (Dict.get k names)) [
  | inl e ↦ elim (String_discrete k j) [
    | yes p ↦ same_key j k names _ e p ∙ sym (same_key j k names _ e p)
    | no p ↦ ground arith
  ]
  | inr (name, e) ↦ ground (arith, get-put j k state states)
]

-- After `record` of a key and a state, a snapshot without a state of the file log shows, for
-- every key that has a display name, the state just recorded where it is this key and the state
-- from before (or unknown) where it is not, and shows nothing for a key that has no display
-- name.
pub status_in-snapshot :
    (j k state : String) (states : Dict String)
    → status_in j (snapshot none (record_state k state states))
      ≡ shown
          (Dict.get j display_names)
          (ite (String_discrete k j) (some state) (Dict.get j states))
unfolding snapshot with_file_log record_state
status_in-snapshot j k state states =
    status_in-items_for j display_names (record_state k state states)
    ∙ shown-record j k state display_names states

-- A snapshot with a state of the file log shows, for every key that has a display name, the
-- state that this means for the file log, and for the other keys the state that is recorded (or
-- unknown); it shows nothing for a key that has no display name.
pub status_in-snapshot_file :
    (j file_log_state : String) (states : Dict String)
    → status_in j (snapshot (some file_log_state) states)
      ≡ shown (Dict.get j display_names) (
          ite
            (String_discrete "file_log" j)
            (some (file_log_status file_log_state))
            (Dict.get j states))
unfolding snapshot with_file_log
status_in-snapshot_file j f states =
    status_in-items_for j display_names (Dict.put "file_log" (file_log_status f) states)
    ∙ ap (shown (Dict.get j display_names)) (get-put j "file_log" (file_log_status f) states)
