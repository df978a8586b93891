-- ===== src/Sessions/Methods.antt =====
-- The methods on one session: how long it lives, and what each method leaves alone.
use stpt_query.Common.{
  ℕ, ◌+◌, ◌*◌, ◌≤◌, String, Bool, true, false, ◌≡◌, ◌≢◌, Option, none, some, ite, arith,
  String_discrete, inl, inr, Option-cases, leb, ltb, if◌then◌else◌,
}
use stpt_query.Common.Dict
use stpt_query.Common.Dict.{Dict, get-put, length-put_old}
use stpt_query.Clock.{second}
use stpt_query.Sessions.{
  Session, SessionStore, refresh, touch, get, invalidate, create, new_session, or_old,
}
use stpt_query.Sessions.Valid.{IsConsistent}
use stpt_query.Sessions.Sweep.{get-drop}
use stpt_query.Sessions.Create.{Fresh, get-create}

-- The record, while its expiry has not passed.
abbrev pub live_at : {C : Type 0} → ℕ → Option (Session C) → Option (Session C)
live_at t none = none
live_at t (some r) = if ltb r.exp t then none else some r

-- The record with its expiry put off.
abbrev pub extended : {C : Type 0} → ℕ → Option (Session C) → Option (Session C)
extended exp none = none
extended exp (some r) = some (record r { exp = exp })

-- The record with what `refresh` is given put in.
abbrev pub renewed :
    {C : Type 0} → Option C → Option (Dict String) → Option (Session C) → Option (Session C)
renewed cookies portal none = none
renewed cookies portal (some r) =
    some (record r { cookies = or_old cookies r.cookies; portal = or_old portal r.portal })

abbrev pub is_there : {C : Type 0} → Option (Session C) → Bool
is_there none = false
is_there (some r) = true

module _ {C : Type 0} (sid : String) (s : SessionStore C) where
  -- For an identifier that is not empty, `get` returns the session of the table until its expiry
  -- has passed, and drops it after that; it changes no other session.
  pub get_lem :
      (t : ℕ)
      → sid ≢ ""
      → ((get sid t s).1 ≡ live_at t (Dict.get sid s.sessions))
        × ((j : String)
            → Dict.get j (get sid t s).0.sessions
              ≡ ite
                  (String_discrete sid j)
                  (live_at t (Dict.get j s.sessions))
                  (Dict.get j s.sessions))
  unfolding get
  get_lem t named = elim (Option-cases (Dict.get sid s.sessions)) [
    | inl e ↦ (ground arith, λ j. ground arith)
    | inr (r, e) ↦ (ground arith, λ j. ground (arith, get-drop j sid s))
  ]

  pub get-touch :
      (now : ℕ) (j : String)
      → Dict.get j (touch sid now s).0.sessions
        ≡ ite
            (String_discrete sid j)
            (extended (now + s.ttl * second) (Dict.get j s.sessions))
            (Dict.get j s.sessions)
  unfolding touch
  get-touch now j = elim (Option-cases (Dict.get sid s.sessions)) [
    | inl e ↦ ground arith
    | inr (r, e) ↦
        let new = record r { exp = now + s.ttl * second } in
        ground (arith, get-put j sid new s.sessions)
  ]

  -- `touch` says whether the session is in the table, lets it live `ttl` from now on if it is,
  -- and changes no other session.
  pub touch_lem :
      (now : ℕ)
      → ((touch sid now s).1 ≡ is_there (Dict.get sid s.sessions))
        × ((j : String)
            → Dict.get j (touch sid now s).0.sessions
              ≡ ite
                  (String_discrete sid j)
                  (extended (now + s.ttl * second) (Dict.get j s.sessions))
                  (Dict.get j s.sessions))
  unfolding touch
  touch_lem now = (ground arith, get-touch now)

  -- `invalidate` removes this session and no other, and says whether it was there.
  pub invalidate_lem :
      ((invalidate sid s).1 ≡ is_there (Dict.get sid s.sessions))
      × ((j : String)
          → Dict.get j (invalidate sid s).0.sessions
            ≡ ite (String_discrete sid j) none (Dict.get j s.sessions))
  unfolding invalidate
  invalidate_lem = (ground arith, λ j. get-drop j sid s)

  -- `refresh` says whether the session is in the table, replaces the cookies and the portal that
  -- it is given, keeps the rest of the session, and changes no other session.
  pub refresh_lem :
      (cookies : Option C) (portal : Option (Dict String))
      → ((refresh sid cookies portal s).1 ≡ is_there (Dict.get sid s.sessions))
        × ((j : String)
            → Dict.get j (refresh sid cookies portal s).0.sessions
              ≡ ite
                  (String_discrete sid j)
                  (renewed cookies portal (Dict.get j s.sessions))
                  (Dict.get j s.sessions))
  unfolding refresh or_old
  refresh_lem cookies portal = elim (Option-cases (Dict.get sid s.sessions)) [
    | inl e ↦ (ground arith, λ j. ground arith)
    | inr (r, e) ↦
        let new = record r {
          cookies = or_old cookies r.cookies;
          portal = or_old portal r.portal;
        } in
        (ground arith, λ j. ground (arith, get-put j sid new s.sessions))
  ]

module _ {C : Type 0} where
  -- In a store whose table and index agree, with room for at least one session and no session
  -- that was created later, a session that `create` makes under a new identifier that is not
  -- empty is found by `get` up to `ttl` after its creation, with the data it was made of, and at
  -- no later time.
  pub get-create_lem :
      (sid username : String) (cookies : C) (portal : Option (Dict String)) (warm_evt : Option ℕ)
      (pwd_hash : Option String) (now t : ℕ) (s : SessionStore C)
      → sid ≢ ""
      → IsConsistent s
      → Fresh sid s
      → 1 ≤ s.max_sessions
      → ((j : String) (r : Session C) → Dict.get j s.sessions ≡ some r → r.at ≤ now)
      → (get sid t (create sid username cookies portal warm_evt pwd_hash now s)).1 ≡ (
          if leb t (now + s.ttl * second)
          then some (new_session username cookies portal warm_evt pwd_hash now s)
          else none)
  unfolding new_session
  get-create_lem sid username cookies portal warm_evt pwd_hash now t s named h fresh room past =
      ground (
        arith,
        (get_lem sid (create sid username cookies portal warm_evt pwd_hash now s) t named).0,
        get-create sid username cookies portal warm_evt pwd_hash now s h fresh room past,
      )
