-- ===== src/Pipeline/Recovery.antt =====
-- The requests of a query of app/pipeline.py that renews its session.
use stpt_query.Common.{
  ◌≡◌, ap, sym, refl, String, true, false, Option, none, some, List, ◌∷◌, if◌then◌else◌, is_empty,
  arith, Bool-cases, inl, inr,
}
use stpt_query.Pipeline.{
  Request, login, ServiceError, Answer, replied, service_error, WorkflowRequest, Service, State,
  Recovered, data_for, given_up, record_service_error, ask, can_relogin, after_retry, after_login,
  after_query, post_with_session_recovery, no_session,
}

-- What becomes of the world by a request, and its answer.
abbrev pub world_after : {W Body : Type 0} → Service W Body → Request → W → W
world_after svc q w = (svc.post q w).0

abbrev pub answer_of : {W Body : Type 0} → Service W Body → Request → W → Answer Body
answer_of svc q w = (svc.post q w).1

-- A new login that the service answers, after a query in the world `w`, with the session that is
-- in the answer.
pub record Renewed {W Body : Type 0} (svc : Service W Body) (req : WorkflowRequest) (q : Request)
    (w : W) (new : String) : Type 0 where
  pub body : Body
  pub login_reply :
      answer_of svc (login req.username req.password) (world_after svc q w) ≡ replied body
  pub named : new ≡ svc.session_of body
  pub given : is_empty new ≡ false
  pub password : is_empty req.password ≡ false

-- The requests of one query, made in the world `w`, after those of the past, newest first, and
-- the session that its data came with, where they came.
pub data Asked {W Body : Type 0} (svc : Service W Body) (req : WorkflowRequest)
    (query : String → Request) (session : String) (w : W) (past : List Request)
    : List Request → Option String → Type 0 where
  first_data : Asked svc req query session w past (query session ∷ past) (some session)
  first_error : Asked svc req query session w past (query session ∷ past) none
  login_error :
      is_empty req.password ≡ false
      → Asked svc req query session w past
          (login req.username req.password ∷ query session ∷ past)
          none
  again_data :
      (new : String)
      → Renewed svc req (query session) w new
      → Asked svc req query session w past
          (query new ∷ login req.username req.password ∷ query session ∷ past)
          (some new)
  again_error :
      (new : String)
      → Renewed svc req (query session) w new
      → Asked svc req query session w past
          (query new ∷ login req.username req.password ∷ query session ∷ past)
          none

abbrev pub used_of : {Body : Type 0} → Recovered Body → Option String
used_of (data_for b session retried) = some session
used_of (given_up e) = none

module _ {W Body : Type 0} (svc : Service W Body) (req : WorkflowRequest) where
  can_relogin_password :
      (e : ServiceError Body) → can_relogin svc req e ≡ true → is_empty req.password ≡ false
  unfolding can_relogin
  can_relogin_password e h = ground arith

  pub record_sent : (e : ServiceError Body) (s : State W) → (record_service_error e s).sent ≡ s.sent
  record_sent e s = ground arith

  module _ (query : String → Request) (session : String) (w : W) (past : List Request) where
    retry-Asked :
        (new : String)
        → Renewed svc req (query session) w new
        → (p : State W × Answer Body)
        → p.0.sent ≡ query new ∷ login req.username req.password ∷ query session ∷ past
        → Asked svc req query session w past
            (after_retry svc new p).0.sent
            (used_of (after_retry svc new p).1)
    retry-Asked new n (s, replied b) h = rw h (again_data new n)
    retry-Asked new n (s, service_error e) h = rw h (again_error new n)

    login-Asked :
        (p : State W × Answer Body)
        → is_empty req.password ≡ false
        → p.0.sent ≡ login req.username req.password ∷ query session ∷ past
        → answer_of svc (login req.username req.password) (world_after svc (query session) w) ≡ p.1
        → Asked svc req query session w past
            (after_login svc query p).0.sent
            (used_of (after_login svc query p).1)
    login-Asked (s, service_error e) pw h a = rw (record_sent e s, h) (login_error pw)
    login-Asked (s, replied b) pw h a = elim (Bool-cases (is_empty (svc.session_of b))) [
      | inl n ↦ rw (n, if◌then◌else◌, record_sent (no_session svc b) s, h) (login_error pw)
      | inr n ↦
          rw (n, if◌then◌else◌)
            (retry-Asked (svc.session_of b)
              (record { body = b; login_reply = a; named = refl; given = n; password = pw })
              (ask svc (query (svc.session_of b)) s) (ap (λ t. query (svc.session_of b) ∷ t) h))
    ]

    query-Asked :
        (p : State W × Answer Body)
        → p.0.sent ≡ query session ∷ past
        → p.0.world ≡ world_after svc (query session) w
        → Asked svc req query session w past
            (after_query svc req session query p).0.sent
            (used_of (after_query svc req session query p).1)
    query-Asked (s, replied b) h k = rw h first_data
    query-Asked (s, service_error e) h k = elim (Bool-cases (can_relogin svc req e)) [
      | inl c ↦
          rw (c, if◌then◌else◌)
            (login-Asked (ask svc (login req.username req.password) s) (can_relogin_password e c)
              (ap (λ t. login req.username req.password ∷ t) h)
              (ap (answer_of svc (login req.username req.password)) (sym k)))
      | inr c ↦ rw (c, if◌then◌else◌, h) first_error
    ]

  pub recovery-Asked :
      (query : String → Request) (session : String) (s : State W)
      → Asked svc req query session s.world s.sent
          (post_with_session_recovery svc req session query s).0.sent
          (used_of (post_with_session_recovery svc req session query s).1)
  unfolding post_with_session_recovery
  recovery-Asked query session s =
      query-Asked query session s.world s.sent (ask svc (query session) s) refl refl
