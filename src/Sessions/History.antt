-- ===== src/Sessions/History.antt =====
-- Any sequence of calls of the methods, from an empty store.
use stpt_query.Common.{
  ℕ, ◌≤◌, String, Bool, ◌≡◌, refl, Option, none, some, List, [], ◌∷◌, arith, length, inl, inr, ◌⊎◌,
  Option-cases,
}
use stpt_query.Common.Dict
use stpt_query.Common.Dict.{Dict, length-put_old}
use stpt_query.Common.Names
use stpt_query.Sessions
use stpt_query.Sessions.{Session, SessionStore}
use stpt_query.Sessions.Index.{holds}
use stpt_query.Sessions.Valid.{
  IsConsistent, drop-IsConsistent, sweep-IsConsistent, update-IsConsistent,
}
use stpt_query.Sessions.Sweep.{
  SameSettings, length-drop-le, length-sweep-le, drop-SameSettings, sweep-SameSettings,
}
use stpt_query.Sessions.Create.{Fresh, create-IsConsistent, length-create-le, create-SameSettings}

pub data Call (C : Type 0) : Type 0 where
  create : String → String → C → Option (Dict String) → Option ℕ → Option String → ℕ → Call C
  find_reusable : Bool → String → Option String → ℕ → ℕ → Call C
  refresh : String → Option C → Option (Dict String) → Call C
  touch : String → ℕ → Call C
  get : String → ℕ → Call C
  status : String → ℕ → ℕ → Call C
  sweep : Option ℕ → ℕ → Call C
  invalidate : String → Call C

module _ {C : Type 0} where
  -- The store after a call.
  unfoldable pub after : SessionStore C → Call C → SessionStore C
  after s (Call.create sid username cookies portal warm_evt pwd_hash now) =
      Sessions.create sid username cookies portal warm_evt pwd_hash now s
  after s (Call.find_reusable reuse username hash max_age now) =
      (Sessions.find_reusable reuse username hash max_age now s).0
  after s (Call.refresh sid cookies portal) = (Sessions.refresh sid cookies portal s).0
  after s (Call.touch sid now) = (Sessions.touch sid now s).0
  after s (Call.get sid now) = (Sessions.get sid now s).0
  after s (Call.status sid now later) = (Sessions.status sid now later s).0
  after s (Call.sweep now clock) = (Sessions.sweep now clock s).0
  after s (Call.invalidate sid) = (Sessions.invalidate sid s).0

  unfoldable pub run : SessionStore C → List (Call C) → SessionStore C
  run s [] = s
  run s (c ∷ cs) = run (after s c) cs

  -- Every id that is drawn is new to the table.
  abbrev pub Draws : SessionStore C → Call C → Type 0
  Draws s (Call.create sid _ _ _ _ _ _) = Fresh sid s
  Draws s _ = Unit

  unfoldable pub AllDraw : SessionStore C → List (Call C) → Type 0
  AllDraw s [] = Unit
  AllDraw s (c ∷ cs) = Draws s c × AllDraw (after s c) cs

  pub record IsValid (s : SessionStore C) : Type 0 where
    pub consistent : IsConsistent s
    pub bounded : length s.sessions ≤ s.max_sessions
    pub room : 1 ≤ s.max_sessions
    pub lasting : 60 ≤ s.ttl

  -- A call that leaves the settings alone and the table no larger.
  keep-IsValid :
      (s t : SessionStore C)
      → IsValid s
      → IsConsistent t
      → SameSettings t s
      → length t.sessions ≤ length s.sessions
      → IsValid t
  keep-IsValid s t h c same le = record {
    consistent = c;
    bounded = omega (arith, h.bounded, le, same.max_sessions);
    room = omega (arith, h.room, same.max_sessions);
    lasting = omega (arith, h.lasting, same.ttl);
  }

  drop-IsValid : (sid : String) (s : SessionStore C) → IsValid s → IsValid (Sessions.drop sid s)
  drop-IsValid sid s h =
      keep-IsValid s (Sessions.drop sid s) h (drop-IsConsistent sid s h.consistent)
        (drop-SameSettings sid s) (length-drop-le sid s)

  sweep-IsValid :
      (now : Option ℕ) (clock : ℕ) (s : SessionStore C)
      → IsValid s
      → IsValid (Sessions.sweep now clock s).0
  sweep-IsValid now clock s h =
      keep-IsValid s (Sessions.sweep now clock s).0 h (sweep-IsConsistent now clock s h.consistent)
        (sweep-SameSettings now clock s) (length-sweep-le now clock s)

  update-IsValid :
      (sid : String) (f : Session C → Session C) (s : SessionStore C)
      → ((r : Session C) → r.username ≡ (f r).username)
      → IsValid s
      → IsValid (Sessions.update sid f s).0
  update-IsValid sid f s same h = elim (Option-cases (Dict.get sid s.sessions)) [
    | inl e ↦ rw (e, Sessions.update) h
    | inr (r, e) ↦
        rw (e, Sessions.update)
          (keep-IsValid s (record s { sessions = Dict.put sid (f r) s.sessions }) h
            (update-IsConsistent sid r (f r) s e (same r) h.consistent)
            (record { ttl = refl; max_sessions = refl })
            (omega (arith, length-put_old sid (f r) r s.sessions e)))
  ]

  get-state :
      (sid : String) (now : ℕ) (s : SessionStore C)
      → ((Sessions.get sid now s).0 ≡ s) ⊎ ((Sessions.get sid now s).0 ≡ Sessions.drop sid s)
  unfolding Sessions.get
  get-state sid now s = ground arith

  get-IsValid :
      (sid : String) (now : ℕ) (s : SessionStore C) → IsValid s → IsValid (Sessions.get sid now s).0
  get-IsValid sid now s h = elim (get-state sid now s) [
    | inl e ↦ rw e h
    | inr e ↦ rw e (drop-IsValid sid s h)
  ]

  find_reusable-state :
      (reuse : Bool) (username : String) (hash : Option String) (max_age now : ℕ)
      (s : SessionStore C)
      → ((Sessions.find_reusable reuse username hash max_age now s).0 ≡ s)
        ⊎ ((Sessions.find_reusable reuse username hash max_age now s).0
            ≡ (Sessions.sweep (some now) now s).0)
  unfolding Sessions.find_reusable
  find_reusable-state reuse username none max_age now s = inl refl
  find_reusable-state reuse username (some hash) max_age now s = ground arith

  create-IsValid :
      (sid username : String) (cookies : C) (portal : Option (Dict String)) (warm_evt : Option ℕ)
      (pwd_hash : Option String) (now : ℕ) (s : SessionStore C)
      → Fresh sid s
      → IsValid s
      → IsValid (Sessions.create sid username cookies portal warm_evt pwd_hash now s)
  create-IsValid sid username cookies portal warm_evt pwd_hash now s fresh h =
      let c = h.consistent in
      let settings =
        create-SameSettings sid username cookies portal warm_evt pwd_hash now s c fresh in
      let le =
        length-create-le sid username cookies portal warm_evt pwd_hash now s c fresh h.bounded in
      record {
        consistent =
            create-IsConsistent sid username cookies portal warm_evt pwd_hash now s c fresh;
        bounded = omega (arith, le, settings.max_sessions);
        room = omega (arith, h.room, settings.max_sessions);
        lasting = omega (arith, h.lasting, settings.ttl);
      }

  -- Every call keeps the invariant.
  pub after-IsValid :
      (s : SessionStore C) (c : Call C) → Draws s c → IsValid s → IsValid (after s c)
  unfolding after
  after-IsValid s (Call.create sid username cookies portal warm_evt pwd_hash now) fresh h =
      create-IsValid sid username cookies portal warm_evt pwd_hash now s fresh h
  after-IsValid s (Call.find_reusable reuse username hash max_age now) d h =
      elim (find_reusable-state reuse username hash max_age now s) [
        | inl e ↦ rw e h
        | inr e ↦ rw e (sweep-IsValid (some now) now s h)
      ]
  after-IsValid s (Call.refresh sid cookies portal) d h =
      unfold Sessions.refresh in update-IsValid sid _ s (λ r. refl) h
  after-IsValid s (Call.touch sid now) d h =
      unfold Sessions.touch in update-IsValid sid _ s (λ r. refl) h
  after-IsValid s (Call.get sid now) d h = get-IsValid sid now s h
  after-IsValid s (Call.status sid now later) d h =
      unfold Sessions.status in get-IsValid sid now s h
  after-IsValid s (Call.sweep now clock) d h = sweep-IsValid now clock s h
  after-IsValid s (Call.invalidate sid) d h = unfold Sessions.invalidate in drop-IsValid sid s h

  init-IsValid : (ttl max_sessions : ℕ) → IsValid (Sessions.init {C = C} ttl max_sessions)
  unfolding Sessions.init holds Dict.get Names.has
  init-IsValid ttl max_sessions = record {
    consistent = record {
      distinct = tt;
      users = tt;
      agrees = λ u j. refl;
      filled = λ u. ground arith;
    };
    bounded = omega arith;
    room = omega arith;
    lasting = omega arith;
  }

  run-IsValid :
      (s : SessionStore C) (cs : List (Call C)) → AllDraw s cs → IsValid s → IsValid (run s cs)
  unfolding run AllDraw
  run-IsValid s [] d h = h
  run-IsValid s (c ∷ cs) d h = run-IsValid (after s c) cs d.1 (after-IsValid s c d.0 h)

  -- From a new store, after any sequence of calls in which each `create` draws a session
  -- identifier that the table does not hold, the table and the index by user agree in both
  -- directions, each is without duplicates, and there are at most `max_sessions` sessions.
  pub history-IsValid :
      (ttl max_sessions : ℕ) (cs : List (Call C))
      → AllDraw (Sessions.init ttl max_sessions) cs
      → IsValid (run (Sessions.init ttl max_sessions) cs)
  history-IsValid ttl max_sessions cs d =
      run-IsValid (Sessions.init ttl max_sessions) cs d (init-IsValid ttl max_sessions)
