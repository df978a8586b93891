-- ===== src/Sessions/Sweep.antt =====
-- What the table holds after `_drop` and after `sweep`.
use stpt_query.Common.{
  ℕ, ◌≤◌, String, false, ◌≡◌, refl, Option, none, List, [], ◌∷◌, ite, arith, length,
  String_discrete, inl, inr, Option-cases, if◌then◌else◌,
}
use stpt_query.Common.Dict
use stpt_query.Common.Dict.{Dict, Distinct, get-pop, length-pop-le}
use stpt_query.Common.Names
use stpt_query.Clock.{or_clock}
use stpt_query.Sessions.{Session, SessionStore, drop, drop_all, expired, sweep}
use stpt_query.Sessions.Valid.{is_expired}

module _ {C : Type 0} where
  pub record SameSettings (s t : SessionStore C) : Type 0 where
    pub ttl : s.ttl ≡ t.ttl
    pub max_sessions : s.max_sessions ≡ t.max_sessions

  pub get-drop :
      (j sid : String) (s : SessionStore C)
      → Dict.get j (drop sid s).sessions ≡ ite (String_discrete sid j) none (Dict.get j s.sessions)
  unfolding drop
  get-drop j sid s = elim (Option-cases (Dict.get sid s.sessions)) [
    | inl e ↦ rw (e, drop) (ground arith)
    | inr (rec, e) ↦ rw (e, drop) (get-pop j sid s.sessions)
  ]

  pub length-drop-le :
      (sid : String) (s : SessionStore C) → length (drop sid s).sessions ≤ length s.sessions
  unfolding drop
  length-drop-le sid s = elim (Option-cases (Dict.get sid s.sessions)) [
    | inl e ↦ rw (e, drop) (omega arith)
    | inr (rec, e) ↦ rw (e, drop) (length-pop-le sid s.sessions)
  ]

  pub drop-SameSettings : (sid : String) (s : SessionStore C) → SameSettings (drop sid s) s
  unfolding drop
  drop-SameSettings sid s = elim (Option-cases (Dict.get sid s.sessions)) [
    | inl e ↦ rw (e, drop) (record { ttl = refl; max_sessions = refl })
    | inr (rec, e) ↦ rw (e, drop) (record { ttl = refl; max_sessions = refl })
  ]

  get-drop_all :
      (j : String) (ks : List String) (s : SessionStore C)
      → Dict.get j (drop_all ks s).sessions
        ≡ (if Names.has j ks then none else Dict.get j s.sessions)
  unfolding drop_all Names.has
  get-drop_all j [] s = refl
  get-drop_all j (k ∷ ks) s = ground (arith, get-drop_all j ks (drop k s), get-drop j k s)

  drop_all-SameSettings : (ks : List String) (s : SessionStore C) → SameSettings (drop_all ks s) s
  unfolding drop_all
  drop_all-SameSettings [] s = record { ttl = refl; max_sessions = refl }
  drop_all-SameSettings (k ∷ ks) s =
      ground (arith, drop_all-SameSettings ks (drop k s), drop-SameSettings k s)

  length-drop_all-le :
      (ks : List String) (s : SessionStore C) → length (drop_all ks s).sessions ≤ length s.sessions
  unfolding drop_all
  length-drop_all-le [] s = omega arith
  length-drop_all-le (k ∷ ks) s =
      omega (arith, length-drop_all-le ks (drop k s), length-drop-le k s)

  has-expired-none :
      (j : String) (now : ℕ) (d : Dict (Session C))
      → Dict.get j d ≡ none
      → Names.has j (expired now d) ≡ false
  unfolding Dict.get Names.has expired
  has-expired-none j now [] h = refl
  has-expired-none j now ((k, v) ∷ d) h = ground (arith, has-expired-none j now d)

  has-expired :
      (j : String) (now : ℕ) (d : Dict (Session C))
      → Distinct d
      → Names.has j (expired now d) ≡ is_expired now (Dict.get j d)
  unfolding Dict.get Names.has expired
  has-expired j now [] h = refl
  has-expired j now ((k, v) ∷ d) h =
      ground (arith, has-expired j now d h.1, has-expired-none k now d h.0)

  -- A sweep removes the sessions that are past their expiry, and no other.
  pub get-sweep :
      (j : String) (now : Option ℕ) (clock : ℕ) (s : SessionStore C)
      → Distinct s.sessions
      → Dict.get j (sweep now clock s).0.sessions ≡ (
          if is_expired (or_clock now clock) (Dict.get j s.sessions)
          then none
          else Dict.get j s.sessions)
  unfolding sweep
  get-sweep j now clock s h = ground (
    arith,
    get-drop_all j (expired (or_clock now clock) s.sessions) s,
    has-expired j (or_clock now clock) s.sessions h,
  )

  pub sweep-SameSettings :
      (now : Option ℕ) (clock : ℕ) (s : SessionStore C) → SameSettings (sweep now clock s).0 s
  unfolding sweep
  sweep-SameSettings now clock s = drop_all-SameSettings (expired (or_clock now clock) s.sessions) s

  pub length-sweep-le :
      (now : Option ℕ) (clock : ℕ) (s : SessionStore C)
      → length (sweep now clock s).0.sessions ≤ length s.sessions
  unfolding sweep
  length-sweep-le now clock s = length-drop_all-le (expired (or_clock now clock) s.sessions) s
