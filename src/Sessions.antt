-- ===== src/Sessions.antt =====
-- `SessionStore` of app/jwxt_state.py: the sessions that /login issued, with an index from the
-- user name to the session ids. A method takes its readings of the clock as arguments and returns
-- the new store beside its result. `C` is the form in which the cookies of a session are kept.
pub mod Index
pub mod Valid
pub mod Sweep
pub mod Create
pub mod Reuse
pub mod Methods
pub mod History
mod Tests
use stpt_query.Common.{
  ℕ, suc, ◌+◌, ◌-◌, ◌*◌, ◌/◌, max, String, Bool, true, false, ◌&&◌, ◌||◌, not, Option, none, some,
  List, [], ◌∷◌, ite, length, ltb, leb, if◌then◌else◌, String_discrete, is_empty,
}
use stpt_query.Common.Dict
use stpt_query.Common.Dict.{Dict}
use stpt_query.Common.Names
use stpt_query.Clock.{second, or_clock}
use Index.{index, unindex}

pub record Session (C : Type 0) : Type 0 where
  pub username : String
  pub cookies : C
  pub portal : Dict String
  pub at : ℕ
  pub exp : ℕ
  pub pwd_hash : Option String
  pub warm_evt : Option ℕ

pub record SessionStore (C : Type 0) : Type 0 where
  pub ttl : ℕ
  pub max_sessions : ℕ
  pub sessions : Dict (Session C)
  pub by_user : Dict (List String)

-- `status`
pub record Status : Type 0 where
  pub username : String
  pub expires_in : ℕ
  pub expires_at : ℕ

-- `portal or {}`
or_empty : Option (Dict String) → Dict String
or_empty none = []
or_empty (some portal) = portal

same_hash : String → Option String → Bool
same_hash hash none = false
same_hash hash (some h) = ite (String_discrete h hash) true false

newer : ℕ → Option (String × ℕ) → Bool
newer at none = true
newer at (some (_, best_at)) = ltb best_at at

abbrev id_of : Option (String × ℕ) → Option String
id_of none = none
id_of (some (sid, _)) = some sid

abbrev ids_of : Option (List String) → List String
ids_of none = []
ids_of (some sids) = sids

unfoldable pub or_old {ℓ} : {A : Type ℓ} → Option A → A → A
or_old none old = old
or_old (some new) old = new

module _ {C : Type 0} where
  -- `__init__`; a negative setting counts as zero, which is raised to the same bound.
  unfoldable pub init : ℕ → ℕ → SessionStore C
  init ttl max_sessions = record {
    ttl = max 60 ttl;
    max_sessions = max 1 max_sessions;
    sessions = [];
    by_user = [];
  }

  drop_record : String → Option (Session C) → SessionStore C → SessionStore C
  drop_record sid none s = s
  drop_record sid (some rec) s = record s {
    sessions = Dict.pop sid s.sessions;
    by_user = unindex rec.username sid s.by_user;
  }

  -- `_drop`
  unfoldable pub drop : String → SessionStore C → SessionStore C
  unfolding drop_record
  drop sid s = drop_record sid (Dict.get sid s.sessions) s

  -- `[k for k, v in self.sessions.items() if v["exp"] < now]`
  unfoldable pub expired : ℕ → Dict (Session C) → List String
  expired now [] = []
  expired now ((k, v) ∷ d) = let rest = expired now d in if ltb v.exp now then k ∷ rest else rest

  -- `for k in expired: self._drop(k)`
  unfoldable pub drop_all : List String → SessionStore C → SessionStore C
  drop_all [] s = s
  drop_all (k ∷ ks) s = drop_all ks (drop k s)

  unfoldable pub sweep : Option ℕ → ℕ → SessionStore C → SessionStore C × ℕ
  sweep now clock s =
      let dead = expired (or_clock now clock) s.sessions in (drop_all dead s, length dead)

  unfoldable pub drop_oldest : Option (String × Session C) → SessionStore C → SessionStore C
  drop_oldest none s = s
  drop_oldest (some (oldest, _)) s = drop oldest s

  -- The eviction at the end of `create`.
  unfoldable pub evict : SessionStore C → SessionStore C
  evict s =
      if ltb s.max_sessions (length s.sessions)
      then drop_oldest (Dict.least (λ rec. rec.at) s.sessions) s
      else s

  -- The record that `create` enters.
  unfoldable pub new_session :
      String → C → Option (Dict String) → Option ℕ → Option String → ℕ → SessionStore C → Session C
  unfolding or_empty
  new_session username cookies portal warm_evt pwd_hash now s = record {
    username = username;
    cookies = cookies;
    portal = or_empty portal;
    at = now;
    exp = now + s.ttl * second;
    pwd_hash = pwd_hash;
    warm_evt = warm_evt;
  }

  unfoldable pub enter : String → Session C → SessionStore C → SessionStore C
  enter sid rec s = record s {
    sessions = Dict.put sid rec s.sessions;
    by_user = index rec.username sid s.by_user;
  }

  -- `create`, at the id that `secrets.token_urlsafe` drew
  unfoldable pub create :
      String
      → String
      → C
      → Option (Dict String)
      → Option ℕ
      → Option String
      → ℕ
      → SessionStore C
      → SessionStore C
  create sid username cookies portal warm_evt pwd_hash now s =
      let rec = new_session username cookies portal warm_evt pwd_hash now s in
      evict (enter sid rec (sweep (some now) now s).0)

  -- The test on one session in the loop of `find_reusable`, but for its age against the best.
  unfoldable pub reusable : String → ℕ → ℕ → Session C → Bool
  unfolding same_hash
  reusable hash max_age now r =
      same_hash hash r.pwd_hash && ltb now r.exp && leb now (r.at + max_age)

  better : String → ℕ → ℕ → String → Option (Session C) → Option (String × ℕ) → Option (String × ℕ)
  unfolding newer
  better hash max_age now sid none best = best
  better hash max_age now sid (some r) best =
      if reusable hash max_age now r && newer r.at best then some (sid, r.at) else best

  -- The loop of `find_reusable` over the user's session ids.
  unfoldable pub best_of :
      String → ℕ → ℕ → Dict (Session C) → List String → Option (String × ℕ) → Option (String × ℕ)
  unfolding better
  best_of hash max_age now d [] best = best
  best_of hash max_age now d (sid ∷ sids) best =
      best_of hash max_age now d sids (better hash max_age now sid (Dict.get sid d) best)

  search_user : String → String → ℕ → ℕ → SessionStore C → Option String
  search_user username hash max_age now s =
      id_of (best_of hash max_age now s.sessions (ids_of (Dict.get username s.by_user)) none)

  -- `find_reusable`; `login_reuse` is the setting LOGIN_REUSE.
  unfoldable pub find_reusable :
      Bool → String → Option String → ℕ → ℕ → SessionStore C → SessionStore C × Option String
  unfolding search_user
  find_reusable login_reuse username none max_age now s = (s, none)
  find_reusable login_reuse username (some hash) max_age now s =
      if is_empty username || is_empty hash || not login_reuse
      then (s, none)
      else (let swept = (sweep (some now) now s).0 in
          (swept, search_user username hash max_age now swept))

  -- Changes the record of a session that exists.
  abbrev update : String → (Session C → Session C) → SessionStore C → SessionStore C × Bool
  update sid f s = elim (Dict.get sid s.sessions) [
    | none ↦ (s, false)
    | some rec ↦ (record s { sessions = Dict.put sid (f rec) s.sessions }, true)
  ]

  unfoldable pub refresh :
      String → Option C → Option (Dict String) → SessionStore C → SessionStore C × Bool
  unfolding or_old
  refresh sid cookies portal s =
      update sid
        (λ rec. record rec {
          cookies = or_old cookies rec.cookies;
          portal = or_old portal rec.portal;
        })
        s

  unfoldable pub touch : String → ℕ → SessionStore C → SessionStore C × Bool
  touch sid now s = update sid (λ rec. record rec { exp = now + s.ttl * second }) s

  unfoldable pub get : String → ℕ → SessionStore C → SessionStore C × Option (Session C)
  get sid now s = if is_empty sid then (s, none) else (elim (Dict.get sid s.sessions) [
    | none ↦ (s, none)
    | some rec ↦ if ltb rec.exp now then (drop sid s, none) else (s, some rec)
  ])

  -- `status`, with the reading of the clock in `get` and the one after it
  unfoldable pub status : String → ℕ → ℕ → SessionStore C → SessionStore C × Option Status
  status sid now later s =
      let (s', found) = get sid now s in
      (
        s',
        elim found [
          | none ↦ none
          | some rec ↦ some (record {
            username = rec.username;
            expires_in = (rec.exp - later) / second;
            expires_at = rec.exp / second;
          })
        ],
      )

  unfoldable pub invalidate : String → SessionStore C → SessionStore C × Bool
  invalidate sid s = (drop sid s, elim (Dict.get sid s.sessions) [ none ↦ false | some _ ↦ true ])
