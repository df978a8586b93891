-- ===== src/Sessions/Valid.antt =====
-- The invariant of the session store: the index and the table tell the same story, and the table
-- is bounded. Every method keeps it.
use stpt_query.Common.{
  ℕ, String, Bool, true, false, ◌≡◌, Option, none, some, List, [], ◌∷◌, ite, arith, length,
  String_discrete, inl, inr, Option-cases, Bool-cases, ltb,
}
use stpt_query.Common.Dict
use stpt_query.Common.Dict.{Dict, get-put, get-pop, put-Distinct, pop-Distinct, Distinct}
use stpt_query.Sessions.{
  Session, SessionStore, drop, drop_all, expired, sweep, enter, drop_oldest, evict,
}
use stpt_query.Clock.{or_clock}
use stpt_query.Sessions.Index.{
  holds, IsFilled, holds-index, holds-unindex, index-Distinct, unindex-Distinct, index-IsFilled,
  unindex-IsFilled,
}

-- Is the session there, and of this user?
abbrev pub owner_is : {C : Type 0} → String → Option (Session C) → Bool
owner_is user none = false
owner_is user (some rec) = ite (String_discrete rec.username user) true false

-- Is the session past its expiry?
abbrev pub is_expired : {C : Type 0} → ℕ → Option (Session C) → Bool
is_expired now none = false
is_expired now (some rec) = ltb rec.exp now

module _ {C : Type 0} where
  pub record IsConsistent (s : SessionStore C) : Type 0 where
    pub distinct : Distinct s.sessions
    pub users : Distinct s.by_user
    pub agrees :
        (user sid : String) → holds s.by_user user sid ≡ owner_is user (Dict.get sid s.sessions)
    pub filled : IsFilled s.by_user

  pub drop-IsConsistent :
      (sid : String) (s : SessionStore C) → IsConsistent s → IsConsistent (drop sid s)
  unfolding drop
  drop-IsConsistent sid s h = elim (Option-cases (Dict.get sid s.sessions)) [
    | inl e ↦ rw (e, drop) h
    | inr (rec, e) ↦
        rw (e, drop)
          (record {
            distinct = pop-Distinct sid s.sessions h.distinct;
            users = unindex-Distinct rec.username sid s.by_user h.users;
            agrees = λ u j. ground (
              arith,
              holds-unindex rec.username sid s.by_user u j,
              get-pop j sid s.sessions,
              h.agrees u j,
            );
            filled = unindex-IsFilled rec.username sid s.by_user h.filled;
          })
  ]

  pub drop_all-IsConsistent :
      (ks : List String) (s : SessionStore C) → IsConsistent s → IsConsistent (drop_all ks s)
  unfolding drop_all
  drop_all-IsConsistent [] s h = h
  drop_all-IsConsistent (k ∷ ks) s h = drop_all-IsConsistent ks (drop k s) (drop-IsConsistent k s h)

  pub sweep-IsConsistent :
      (now : Option ℕ) (clock : ℕ) (s : SessionStore C)
      → IsConsistent s
      → IsConsistent (sweep now clock s).0
  unfolding sweep
  sweep-IsConsistent now clock s h =
      drop_all-IsConsistent (expired (or_clock now clock) s.sessions) s h

  -- An id that is new to the table is new to the index too.
  pub enter-IsConsistent :
      (sid : String) (rec : Session C) (s : SessionStore C)
      → Dict.get sid s.sessions ≡ none
      → IsConsistent s
      → IsConsistent (enter sid rec s)
  unfolding enter
  enter-IsConsistent sid rec s fresh h = record {
    distinct = put-Distinct sid rec s.sessions h.distinct;
    users = index-Distinct rec.username sid s.by_user h.users;
    agrees = λ u j. ground (
      arith,
      holds-index rec.username sid s.by_user u j,
      get-put j sid rec s.sessions,
      h.agrees u j,
    );
    filled = index-IsFilled rec.username sid s.by_user h.filled;
  }

  drop_oldest-IsConsistent :
      (o : Option (String × Session C)) (s : SessionStore C)
      → IsConsistent s
      → IsConsistent (drop_oldest o s)
  unfolding drop_oldest
  drop_oldest-IsConsistent none s h = h
  drop_oldest-IsConsistent (some (k, v)) s h = drop-IsConsistent k s h

  pub evict-IsConsistent : (s : SessionStore C) → IsConsistent s → IsConsistent (evict s)
  unfolding evict
  evict-IsConsistent s h = elim (Bool-cases (ltb s.max_sessions (length s.sessions))) [
    | inl e ↦ rw (e, evict) (drop_oldest-IsConsistent (Dict.least (λ rec. rec.at) s.sessions) s h)
    | inr e ↦ rw (e, evict) h
  ]

  -- A change that leaves the user name alone leaves the index alone.
  pub update-IsConsistent :
      (sid : String) (old new : Session C) (s : SessionStore C)
      → Dict.get sid s.sessions ≡ some old
      → old.username ≡ new.username
      → IsConsistent s
      → IsConsistent (record s { sessions = Dict.put sid new s.sessions })
  update-IsConsistent sid old new s there same h = record {
    distinct = put-Distinct sid new s.sessions h.distinct;
    users = h.users;
    agrees = λ u j. ground (arith, get-put j sid new s.sessions, h.agrees u j);
    filled = h.filled;
  }
