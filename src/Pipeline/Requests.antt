-- ===== src/Pipeline/Requests.antt =====
-- The requests that a run of app/pipeline.py sends, whatever the service answers.
use stpt_query.Common.{
  ◌≡◌, ◌∙◌, ap, sym, subst, refl, String, true, false, Option, none, some, List, [], ◌∷◌,
  if◌then◌else◌, is_empty, ite, String_discrete, Bool-cases, inl, inr,
}
use stpt_query.Pipeline.{
  Request, login, jump, Answer, replied, service_error, WorkflowRequest, Service, Outcome, State,
  Recovered, data_for, given_up, report_phase, ask, post_with_session_recovery,
}
use stpt_query.Pipeline.Queries.{
  grades_query, schedule_query, get_jump_body, after_grades, run_grades, scheduled, after_schedule,
  run_schedule, run_option, after_first_login, run,
}
use stpt_query.Pipeline.Recovery.{
  world_after, answer_of, Asked, used_of, record_sent, recovery-Asked,
}
use stpt_query.Pipeline.Sending.{jump_sent, counted_sent, timetable_sent}

-- The same with the jump link, which is asked for with the session that the data came with.
pub data Course {W Body : Type 0} (svc : Service W Body) (req : WorkflowRequest)
    (query : String → Request) (session : String) (w : W) (past : List Request)
    : List Request → Type 0 where
  stopped :
      {ls : List Request} {u : Option String}
      → Asked svc req query session w past ls u
      → Course svc req query session w past ls
  linked :
      {ls : List Request}
      → (used : String) → Asked svc req query session w past ls (some used)
      → Course svc req query session w past (jump used ∷ ls)

-- The query that the item of a request stands for.
abbrev pub query_of : WorkflowRequest → Option (String → Request)
query_of req =
    ite (String_discrete req.option "成绩") (some (grades_query req))
      (ite (String_discrete req.option "课表") (some (schedule_query req)) none)

-- The requests of `run` once it has a session, in the world `w`.
pub data Going {W Body : Type 0} (svc : Service W Body) (req : WorkflowRequest) (session : String)
    (w : W) (past : List Request) : List Request → Type 0 where
  idle : query_of req ≡ none → Going svc req session w past past
  asking :
      {ls : List Request}
      → (query : String → Request) → query_of req ≡ some query
      → Course svc req query session w past ls
      → Going svc req session w past ls

-- The requests of `run` in the world `w`.
pub data Sent {W Body : Type 0} (svc : Service W Body) (req : WorkflowRequest) (session : String)
    (w : W) : List Request → Type 0 where
  refused : is_empty session ≡ true → Sent svc req session w (login req.username req.password ∷ [])
  logged_in :
      {ls : List Request}
      → is_empty session ≡ true
      → (body : Body) → answer_of svc (login req.username req.password) w ≡ replied body
      → is_empty (svc.session_of body) ≡ false
      → Going svc req
          (svc.session_of body)
          (world_after svc (login req.username req.password) w)
          (login req.username req.password ∷ [])
          ls
      → Sent svc req session w ls
  given :
      {ls : List Request}
      → is_empty session ≡ false
      → Going svc req session w [] ls
      → Sent svc req session w ls

module _ {W Body : Type 0} (svc : Service W Body) (req : WorkflowRequest) where
  -- What follows the data keeps to the course of the query.
  module _ (query : String → Request) (session : String) (w : W) (past : List Request) where
    graded-Course :
        (p : State W × Recovered Body)
        → Asked svc req query session w past p.0.sent (used_of p.1)
        → Course svc req query session w past (after_grades svc req p).0.sent
    graded-Course (s, given_up e) a = stopped {u = none} (rw (record_sent svc req e s) a)
    graded-Course (s, data_for body used retried) a = elim (Bool-cases (svc.is_success body)) [
      | inr c ↦ rw (c, if◌then◌else◌) (stopped {u = some used} a)
      | inl c ↦
          rw
            (
              c,
              if◌then◌else◌,
              counted_sent svc req body retried (get_jump_body svc used s) (svc.count_of body),
              jump_sent svc req used s,
            )
            (linked used a)
    ]

    scheduled-Course :
        (p : State W × Recovered Body)
        → Asked svc req query session w past p.0.sent (used_of p.1)
        → Course svc req query session w past (after_schedule svc p).0.sent
    scheduled-Course (s, given_up e) a = stopped {u = none} (rw (record_sent svc req e s) a)
    scheduled-Course (s, data_for body used retried) a = elim (Bool-cases (svc.is_success body)) [
      | inr c ↦ rw (c, if◌then◌else◌) (stopped {u = some used} a)
      | inl c ↦
          rw (c, if◌then◌else◌)
            (subst (Course svc req query session w past)
              (sym (scheduled_sent (get_jump_body svc used s) ∙ jump_sent svc req used s))
              (linked used a))
    ]
      where
        scheduled_sent :
            (p : State W × Option Body) → (scheduled svc body retried p).0.sent ≡ p.0.sent
        scheduled_sent (t, link) =
            timetable_sent svc req body retried t (svc.format_schedule body link)

  pick-Going :
      {A B : Type 0}
      → (session : String) (w : W) (past : List Request) (g c : String → Request)
        (x y z : State W × Outcome) (d : Dec A) (e : Dec B)
      → query_of req ≡ ite d (some g) (ite e (some c) none)
      → Course svc req g session w past x.0.sent
      → Course svc req c session w past y.0.sent
      → z.0.sent ≡ past
      → Going svc req session w past (ite d x (ite e y z)).0.sent
  pick-Going session w past g c x y z (yes p) e q h k l = asking g q h
  pick-Going session w past g c x y z (no np) (yes p) q h k l = asking c q k
  pick-Going session w past g c x y z (no np) (no nq) q h k l =
      subst (Going svc req session w past) (sym l) (idle q)

  grades-Course :
      (session : String) (s : State W)
      → Course svc req
          (grades_query req)
          session
          s.world
          s.sent
          (run_grades svc req session s).0.sent
  unfolding run_grades
  grades-Course session s =
      graded-Course (grades_query req) session s.world s.sent
        (post_with_session_recovery svc req session (grades_query req) (report_phase "querying" s))
        (recovery-Asked svc req (grades_query req) session (report_phase "querying" s))

  schedule-Course :
      (session : String) (s : State W)
      → Course svc req
          (schedule_query req)
          session
          s.world
          s.sent
          (run_schedule svc req session s).0.sent
  unfolding run_schedule
  schedule-Course session s =
      scheduled-Course (schedule_query req) session s.world s.sent
        (post_with_session_recovery svc req session (schedule_query req)
          (report_phase "querying" s))
        (recovery-Asked svc req (schedule_query req) session (report_phase "querying" s))

  option-Going :
      (session : String) (s : State W)
      → Going svc req session s.world s.sent (run_option svc req session s).0.sent
  unfolding run_option
  option-Going session s =
      pick-Going session s.world s.sent (grades_query req) (schedule_query req) _ _ _
        (String_discrete req.option "成绩") (String_discrete req.option "课表") refl
        (grades-Course session s) (schedule-Course session s) refl

  first-Sent :
      (session : String) (w : W)
      → is_empty session ≡ true
      → (p : State W × Answer Body) → p.0.sent ≡ login req.username req.password ∷ []
      → p.0.world ≡ world_after svc (login req.username req.password) w
      → answer_of svc (login req.username req.password) w ≡ p.1
      → Sent svc req session w (after_first_login svc req p).0.sent
  first-Sent session w n (s, service_error e) h k a = rw (record_sent svc req e s, h) (refused n)
  first-Sent session w n (s, replied b) h k a = elim (Bool-cases (is_empty (svc.session_of b))) [
    | inl m ↦ rw (m, if◌then◌else◌, h) (refused n)
    | inr m ↦
        rw (m, if◌then◌else◌)
          (logged_in n b a m (
            subst
              (λ v.
                Going svc req (svc.session_of b) v (login req.username req.password ∷ [])
                  (run_option svc req (svc.session_of b) s).0.sent)
              k
              (subst
                (λ past.
                  Going svc req (svc.session_of b) s.world past
                    (run_option svc req (svc.session_of b) s).0.sent)
                h (option-Going (svc.session_of b) s))))
  ]

  -- Whatever the service answers, the requests of a run, from a state in which none was sent,
  -- follow one of the described courses: a login where no session is given; then the one query
  -- of the option, with the session given or that of the login's answer; at most one new login,
  -- only with a password, and one more query with the session of the answer that the service
  -- gives to this login in the world that the first query leaves; at most one jump link, asked
  -- for with the session that the data came with.
  pub run-Sent :
      (session : String) (s : State W)
      → s.sent ≡ []
      → Sent svc req session s.world (run svc req session s).0.sent
  unfolding run
  run-Sent session s h = elim (Bool-cases (is_empty session)) [
    | inl n ↦
        rw (n, if◌then◌else◌)
          (first-Sent session s.world n (ask svc (login req.username req.password) s)
            (ap (λ t. login req.username req.password ∷ t) h) refl refl)
    | inr n ↦
        rw (n, if◌then◌else◌)
          (given n (
            subst (λ past. Going svc req session s.world past (run_option svc req session s).0.sent)
              h (option-Going session s)))
  ]
