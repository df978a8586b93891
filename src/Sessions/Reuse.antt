-- ===== src/Sessions/Reuse.antt =====
-- `find_reusable` returns the newest session that fits, and finds one whenever there is one.
use stpt_query.Common.{
  ℕ, ◌+◌, ◌≤◌, ◌<◌, String, Bool, true, ◌≡◌, ◌≢◌, refl, Option, none, some, List, [], ◌∷◌, arith,
  String_discrete, inl, inr, Option-cases, Bool-cases, if◌then◌else◌, ◌&&◌,
}
use stpt_query.Common.Dict
use stpt_query.Common.Dict.{Dict}
use stpt_query.Common.Names
use stpt_query.Clock.{or_clock_self}
use stpt_query.Sessions.{
  Session, SessionStore, sweep, reusable, same_hash, better, newer, best_of, ids_of, search_user,
  find_reusable,
}
use stpt_query.Sessions.Index.{holds}
use stpt_query.Sessions.Valid.{IsConsistent, is_expired, sweep-IsConsistent}
use stpt_query.Sessions.Sweep.{get-sweep}

-- The choice was issued no earlier than `at`.
abbrev AtLeast : ℕ → Option (String × ℕ) → Type 0
AtLeast at none = ⊥
AtLeast at (some (_, best_at)) = at ≤ best_at

module _ {C : Type 0} (hash : String) (max_age now : ℕ) where
  -- The session has this password digest, is not expired and was issued within `max_age`.
  pub record Fits (r : Session C) : Type 0 where
    pub digest : r.pwd_hash ≡ some hash
    pub live : now < r.exp
    pub recent : now ≤ r.at + max_age

  reusable-Fits : (r : Session C) → reusable hash max_age now r ≡ true → Fits r
  unfolding reusable same_hash
  reusable-Fits r h = ground arith

  Fits-reusable : (r : Session C) → Fits r → reusable hash max_age now r ≡ true
  unfolding reusable same_hash
  Fits-reusable r f = ground (arith, f.digest, f.live, f.recent)

  module _ (d : Dict (Session C)) (all : List String) where
    -- The best so far is a session of the list that fits.
    abbrev Good : Option (String × ℕ) → Type 0
    Good none = Unit
    Good (some (sid, at)) =
        (r : Session C) × (Dict.get sid d ≡ some r)
        × (Names.has sid all ≡ true)
        × Fits r
        × (r.at ≡ at)

    better-Good :
        (sid : String) (o : Option (Session C)) (best : Option (String × ℕ))
        → Dict.get sid d ≡ o
        → Names.has sid all ≡ true
        → Good best
        → Good (better hash max_age now sid o best)
    unfolding better
    better-Good sid none best e m g = g
    better-Good sid (some r) best e m g =
        elim (Bool-cases (reusable hash max_age now r && newer r.at best)) [
          | inl t ↦ rw (t, better) (r, e, m, reusable-Fits r (ground arith), refl)
          | inr f ↦ rw (f, better) g
        ]

    best_of-Good :
        (sids : List String) (best : Option (String × ℕ))
        → ((j : String) → Names.has j sids ≡ true → Names.has j all ≡ true)
        → Good best
        → Good (best_of hash max_age now d sids best)
    unfolding best_of Names.has
    best_of-Good [] best sub g = g
    best_of-Good (sid ∷ sids) best sub g =
        best_of-Good sids (better hash max_age now sid (Dict.get sid d) best)
          (λ j m. sub j (ground arith))
          (better-Good sid (Dict.get sid d) best refl (sub sid (ground arith)) g)

  module _ (d : Dict (Session C)) where
    better-AtLeast :
        (at : ℕ) (sid : String) (o : Option (Session C)) (best : Option (String × ℕ))
        → AtLeast at best
        → AtLeast at (better hash max_age now sid o best)
    unfolding better newer
    better-AtLeast at sid none best h = h
    better-AtLeast at sid (some r) none h = elim h [ ]
    better-AtLeast at sid (some r) (some (i, b)) h = ground arith

    best_of-AtLeast :
        (at : ℕ) (sids : List String) (best : Option (String × ℕ))
        → AtLeast at best
        → AtLeast at (best_of hash max_age now d sids best)
    unfolding best_of
    best_of-AtLeast at [] best h = h
    best_of-AtLeast at (sid ∷ sids) best h =
        best_of-AtLeast at sids (better hash max_age now sid (Dict.get sid d) best)
          (better-AtLeast at sid (Dict.get sid d) best h)

    better_new :
        (sid : String) (r : Session C) (best : Option (String × ℕ))
        → reusable hash max_age now r ≡ true
        → AtLeast r.at (better hash max_age now sid (some r) best)
    unfolding better newer
    better_new sid r none t = ground arith
    better_new sid r (some (i, b)) t = ground arith

    best_of_newest :
        (sids : List String) (best : Option (String × ℕ)) (j : String) (r : Session C)
        → Names.has j sids ≡ true
        → Dict.get j d ≡ some r
        → Fits r
        → AtLeast r.at (best_of hash max_age now d sids best)
    unfolding best_of Names.has
    best_of_newest [] best j r m e f = absurd (ground arith)
    best_of_newest (sid ∷ sids) best j r m e f = elim (String_discrete sid j) [
      | yes p ↦
          best_of-AtLeast r.at sids (better hash max_age now sid (Dict.get sid d) best)
            (rw (p, e) (better_new j r best (Fits-reusable r f)))
      | no p ↦
          best_of_newest sids (better hash max_age now sid (Dict.get sid d) best) j r (ground arith)
            e f
    ]

module _ {C : Type 0} where
  -- What the loop hands back for one user of a consistent store.
  abbrev Found : SessionStore C → String → String → ℕ → ℕ → Option (String × ℕ) → Type 0
  Found s user hash max_age now o =
      Good hash max_age now s.sessions (ids_of (Dict.get user s.by_user)) o

  owner_lem :
      (s : SessionStore C) (user sid : String) (r : Session C)
      → IsConsistent s
      → Names.has sid (ids_of (Dict.get user s.by_user)) ≡ true
      → Dict.get sid s.sessions ≡ some r
      → r.username ≡ user
  unfolding holds
  owner_lem s user sid r h m e = ground (arith, h.agrees user sid)

  member_lem :
      (s : SessionStore C) (user sid : String) (r : Session C)
      → IsConsistent s
      → r.username ≡ user
      → Dict.get sid s.sessions ≡ some r
      → Names.has sid (ids_of (Dict.get user s.by_user)) ≡ true
  unfolding holds
  member_lem s user sid r h u e = ground (arith, h.agrees user sid)

  -- The session is the newest of the user's that fit.
  pub record IsNewest (s : SessionStore C) (user hash : String) (max_age now : ℕ) (sid : String)
      (r : Session C) : Type 0 where
    pub there : Dict.get sid s.sessions ≡ some r
    pub owner : r.username ≡ user
    pub fits : Fits hash max_age now r
    pub newest :
        (j : String) (q : Session C)
        → Dict.get j s.sessions ≡ some q
        → q.username ≡ user
        → Fits hash max_age now q
        → q.at ≤ r.at

  module _ (s : SessionStore C) (user hash : String) (max_age now : ℕ) (h : IsConsistent s) where
    abbrev ids : List String
    ids = ids_of (Dict.get user s.by_user)

    abbrev choice : Option (String × ℕ)
    choice = best_of hash max_age now s.sessions ids none

    choice-Good : Found s user hash max_age now choice
    choice-Good = best_of-Good hash max_age now s.sessions ids ids none (λ j m. m) tt

    choice_newest :
        (j : String) (q : Session C)
        → Dict.get j s.sessions ≡ some q
        → q.username ≡ user
        → Fits hash max_age now q
        → AtLeast q.at choice
    choice_newest j q e u f =
        best_of_newest hash max_age now s.sessions ids none j q (member_lem s user j q h u e) e f

    search_user-some :
        (sid : String)
        → search_user user hash max_age now s ≡ some sid
        → (r : Session C) × IsNewest s user hash max_age now sid r
    unfolding search_user
    search_user-some sid found = elim (Option-cases choice) [
      | inl e ↦ absurd (ground arith)
      | inr ((i, a), e) ↦
          let (r, there, m, f, same) = rw e at choice-Good in
          let p : i ≡ sid = ground arith in
          let q : Dict.get sid s.sessions ≡ some r = rw (← p) there in
          (
            r,
            record {
              there = q;
              owner = owner_lem s user i r h m there;
              fits = f;
              newest = λ j x e' u g.
                  let le : x.at ≤ a = rw e at (choice_newest j x e' u g) in rw same le;
            },
          )
    ]

    search_user-none :
        search_user user hash max_age now s ≡ none
        → (j : String) (q : Session C) → Dict.get j s.sessions ≡ some q
        → q.username ≡ user
        → ¬ Fits hash max_age now q
    unfolding search_user
    search_user-none missing j q e u f = elim (Option-cases choice) [
      | inl n ↦ rw n at (choice_newest j q e u f)
      | inr ((i, a), n) ↦ absurd (ground arith)
    ]

  module _ (username hash : String) (max_age now : ℕ) (s : SessionStore C)
      (h : IsConsistent s) where
    abbrev swept : SessionStore C
    swept = (sweep (some now) now s).0

    swept-IsConsistent : IsConsistent swept
    swept-IsConsistent = sweep-IsConsistent (some now) now s h

    get-swept :
        (j : String)
        → Dict.get j swept.sessions
          ≡ (if is_expired now (Dict.get j s.sessions) then none else Dict.get j s.sessions)
    get-swept j = rw (get-sweep j (some now) now s h.distinct, or_clock_self)

    swept-IsNewest :
        (sid : String) (r : Session C)
        → IsNewest swept username hash max_age now sid r
        → IsNewest s username hash max_age now sid r
    swept-IsNewest sid r n = record {
      there = ground (arith, get-swept sid, n.there);
      owner = n.owner;
      fits = n.fits;
      newest = λ j q e u f. ground (arith, get-swept j, n.newest j q, f.live, e);
    }

    -- In a store whose table and index agree, if `find_reusable` returns a session for a
    -- password digest, then reuse is on, and the session is the user's, has this digest, is live
    -- and recent enough, and no other such session of the table is newer.
    pub find_reusable-some :
        (login_reuse : Bool) (sid : String)
        → (find_reusable login_reuse username (some hash) max_age now s).1 ≡ some sid
        → (login_reuse ≡ true) × ((r : Session C) × IsNewest s username hash max_age now sid r)
    unfolding find_reusable
    find_reusable-some login_reuse sid found =
        let (r, n) =
          search_user-some swept username hash max_age now swept-IsConsistent sid (ground arith) in
        (ground arith, (r, swept-IsNewest sid r n))

    -- In a store whose table and index agree, with reuse on and a user and a digest that are not
    -- empty, if `find_reusable` returns no session, then no session of the user in the table
    -- fits the digest, the time and the greatest age.
    pub find_reusable-none :
        username ≢ ""
        → hash ≢ ""
        → (find_reusable true username (some hash) max_age now s).1 ≡ none
        → (j : String) (q : Session C) → Dict.get j s.sessions ≡ some q
        → q.username ≡ username
        → ¬ Fits hash max_age now q
    unfolding find_reusable
    find_reusable-none named hashed missing j q e u f =
        search_user-none swept username hash max_age now swept-IsConsistent (ground arith) j q
          (ground (arith, get-swept j, f.live)) u f
