-- ===== src/Sessions/Create.antt =====
-- What `create` leaves in the table, and its bound.
use stpt_query.Common.{
  ℕ, suc, ◌≤◌, ◌<◌, String, ◌≡◌, ◌≢◌, refl, Option, none, some, ite, arith, length, String_discrete,
  inl, inr, Option-cases, Bool-cases, ltb, ltb→lt, dec_lt, ◌⊎◌, ap,
}
use stpt_query.Common.Dict
use stpt_query.Common.Dict.{
  Dict, Distinct, get-put, get-pop, length-pop, length-put_new, put-Distinct, least_lem,
  length-put-le, All-Distinct, least-ne_none, least-put_new,
}
use stpt_query.Clock.{or_clock_self}
use stpt_query.Sessions.{
  Session, SessionStore, drop, sweep, drop_oldest, evict, enter, new_session, create,
}
use stpt_query.Sessions.Valid.{
  IsConsistent, sweep-IsConsistent, enter-IsConsistent, evict-IsConsistent,
}
use stpt_query.Sessions.Sweep.{
  SameSettings, get-drop, drop-SameSettings, get-sweep, sweep-SameSettings, length-sweep-le,
}

module _ {C : Type 0} where
  abbrev measure : Session C → ℕ
  measure rec = rec.at

  length-drop_present :
      (sid : String) (rec : Session C) (s : SessionStore C)
      → Distinct s.sessions
      → Dict.get sid s.sessions ≡ some rec
      → suc (length (drop sid s).sessions) ≡ length s.sessions
  unfolding drop
  length-drop_present sid rec s h e = rw (e, drop) (length-pop sid rec s.sessions h e)

  length-drop_oldest :
      (s : SessionStore C)
      → Distinct s.sessions
      → 0 < length s.sessions
      → suc (length (drop_oldest (Dict.least measure s.sessions) s).sessions) ≡ length s.sessions
  unfolding drop_oldest
  length-drop_oldest s h lt = elim (Option-cases (Dict.least measure s.sessions)) [
    | inl e ↦ absurd (least-ne_none measure s.sessions lt e)
    | inr (y, e) ↦
        rw (e, drop_oldest)
          (length-drop_present y.0 y.1 s h (least_lem measure s.sessions y.0 y.1 h e).0)
  ]

  drop_oldest-SameSettings :
      (o : Option (String × Session C)) (s : SessionStore C) → SameSettings (drop_oldest o s) s
  unfolding drop_oldest
  drop_oldest-SameSettings none s = record { ttl = refl; max_sessions = refl }
  drop_oldest-SameSettings (some (k, v)) s = drop-SameSettings k s

  evict-SameSettings : (s : SessionStore C) → SameSettings (evict s) s
  unfolding evict
  evict-SameSettings s = ground (arith, drop_oldest-SameSettings (Dict.least measure s.sessions) s)

  -- One entry over the bound is what an eviction makes room for.
  length-evict-le :
      (s : SessionStore C)
      → IsConsistent s
      → length s.sessions ≤ suc s.max_sessions
      → length (evict s).sessions ≤ s.max_sessions
  unfolding evict
  length-evict-le s h le = ground (arith, length-drop_oldest s h.distinct)

  -- What an eviction does: nothing, or it drops the least entry of a table over its bound.
  abbrev Evicts : SessionStore C → String × Session C → Type 0
  Evicts s y =
      (s.max_sessions < length s.sessions)
      × (Dict.least measure s.sessions ≡ some y)
      × (evict s ≡ drop y.0 s)

  evict-cases : (s : SessionStore C) → (evict s ≡ s) ⊎ ((y : String × Session C) × Evicts s y)
  unfolding evict drop_oldest
  evict-cases s = elim (Bool-cases (ltb s.max_sessions (length s.sessions))) [
    | inr e ↦ inl (rw (e, evict))
    | inl e ↦ elim (Option-cases (Dict.least measure s.sessions)) [
      | inl f ↦ inl (rw (e, evict, f, drop_oldest))
      | inr (y, f) ↦ inr (y, (ltb→lt _ _ e, f, rw (e, evict, f, drop_oldest)))
    ]
  ]

  -- The id that `create` draws is new to the table.
  abbrev pub Fresh : String → SessionStore C → Type 0
  Fresh sid s = Dict.get sid s.sessions ≡ none

  sweep-Fresh :
      (sid : String) (now : Option ℕ) (clock : ℕ) (s : SessionStore C)
      → Distinct s.sessions
      → Fresh sid s
      → Fresh sid (sweep now clock s).0
  sweep-Fresh sid now clock s h fresh = ground (arith, get-sweep sid now clock s h)

  module _ (sid username : String) (cookies : C) (portal : Option (Dict String))
      (warm_evt : Option ℕ) (pwd_hash : Option String) (now : ℕ) (s : SessionStore C)
      (h : IsConsistent s) (fresh : Fresh sid s) where
    abbrev created : SessionStore C
    created = create sid username cookies portal warm_evt pwd_hash now s

    abbrev swept : SessionStore C
    swept = (sweep (some now) now s).0

    abbrev entered : SessionStore C
    entered = enter sid (new_session username cookies portal warm_evt pwd_hash now s) swept

    swept-IsConsistent : IsConsistent swept
    swept-IsConsistent = sweep-IsConsistent (some now) now s h

    entered-IsConsistent : IsConsistent entered
    entered-IsConsistent =
        enter-IsConsistent sid _ swept (sweep-Fresh sid (some now) now s h.distinct fresh)
          swept-IsConsistent

    pub create-IsConsistent : IsConsistent created
    unfolding create
    create-IsConsistent = evict-IsConsistent entered entered-IsConsistent

    pub create-SameSettings : SameSettings created s
    unfolding create enter
    create-SameSettings =
        ground (arith, evict-SameSettings entered, sweep-SameSettings (some now) now s)

    length-entered-le : length entered.sessions ≤ suc (length swept.sessions)
    unfolding enter
    length-entered-le = length-put-le sid _ swept.sessions

    entered-SameSettings : SameSettings entered s
    unfolding enter
    entered-SameSettings = ground (arith, sweep-SameSettings (some now) now s)

    pub length-create-le :
        length s.sessions ≤ s.max_sessions → length created.sessions ≤ s.max_sessions
    unfolding create
    length-create-le le =
        let settings = entered-SameSettings in
        let fits : length entered.sessions ≤ suc entered.max_sessions =
          omega
            (arith, length-entered-le, length-sweep-le (some now) now s, settings.max_sessions) in
        omega (arith, length-evict-le entered entered-IsConsistent fits, settings.max_sessions)

    get-entered :
        (j : String)
        → Dict.get j entered.sessions
          ≡ ite
              (String_discrete sid j)
              (some (new_session username cookies portal warm_evt pwd_hash now s))
              (Dict.get j swept.sessions)
    unfolding enter
    get-entered j = get-put j sid _ swept.sessions

    -- The eviction spares the new session, which is the latest and stands last.
    evicted-ne :
        (y : String × Session C)
        → 1 ≤ s.max_sessions
        → ((j : String) (r : Session C) → Dict.get j s.sessions ≡ some r → r.at ≤ now)
        → s.max_sessions < length entered.sessions
        → Dict.least measure entered.sessions ≡ some y
        → y.0 ≢ sid
    unfolding enter new_session
    evicted-ne y room past over chosen =
        least-put_new measure sid _ swept.sessions y
          (sweep-Fresh sid (some now) now s h.distinct fresh)
          (All-Distinct _ swept.sessions swept-IsConsistent.distinct
            (λ j r e. ground (arith, get-sweep j (some now) now s h.distinct, past j r)))
          (λ e. omega (arith, ap (length {A = String × Session C}) e, length-entered-le)) chosen

    -- The new session is in the table.
    pub get-create :
        1 ≤ s.max_sessions
        → ((j : String) (r : Session C) → Dict.get j s.sessions ≡ some r → r.at ≤ now)
        → Dict.get sid created.sessions
          ≡ some (new_session username cookies portal warm_evt pwd_hash now s)
    unfolding create
    get-create room past = elim (evict-cases entered) [
      | inl e ↦ rw e (ground (arith, get-entered sid))
      | inr (y, (over, chosen, e)) ↦
          let ne =
            evicted-ne y room past (omega (arith, over, entered-SameSettings.max_sessions))
              chosen in
          rw (e, get-drop) (ground (arith, get-entered sid, ne))
    ]

    -- A session that is live stays up to the eviction.
    get-entered_live :
        (j : String) (r : Session C)
        → Dict.get j s.sessions ≡ some r
        → now ≤ r.exp
        → Dict.get j entered.sessions ≡ some r
    get-entered_live j r old live =
        ground (arith, get-entered j, get-sweep j (some now) now s h.distinct, or_clock_self now)

    -- Only the least entry can be missing after the eviction.
    oldest_removed :
        (j : String) (r : Session C) (y : String × Session C)
        → Evicts entered y
        → Dict.get j entered.sessions ≡ some r
        → Dict.get j (drop y.0 entered).sessions ≡ none
        → (i : String) (q : Session C) → Dict.get i (drop y.0 entered).sessions ≡ some q
        → r.at ≤ q.at
    oldest_removed j r y (over, chosen, e) there gone i q kept =
        let (found, minimal) =
          least_lem measure entered.sessions y.0 y.1 entered-IsConsistent.distinct chosen in
        ground (arith, found, minimal i q, get-drop j y.0 entered, get-drop i y.0 entered)

    -- In a store whose table and index agree, when `create` is called with an identifier that is
    -- new, a session that it removes had expired, or no session that is left is older.
    pub removed_lem :
        (j : String) (r : Session C)
        → Dict.get j s.sessions ≡ some r
        → Dict.get j created.sessions ≡ none
        → (r.exp < now)
          ⊎ ((i : String) (q : Session C) → Dict.get i created.sessions ≡ some q → r.at ≤ q.at)
    unfolding create
    removed_lem j r old gone = elim (dec_lt r.exp now) [
      | yes p ↦ inl p
      | no live ↦
          let there = get-entered_live j r old (omega arith) in
          elim (evict-cases entered) [
            | inl e ↦ absurd (ground arith)
            | inr (y, o) ↦ inr (rw o.2 (oldest_removed j r y o there (rw o.2 at gone)))
          ]
    ]
