-- ===== src/Pipeline/Bounds.antt =====
-- How often a run of app/pipeline.py logs in and queries.
use stpt_query.Common.{
  ℕ, ◌+◌, ◌≤◌, ◌≡◌, subst, refl, String, Bool, Option, none, some, List, [], ◌∷◌, if◌then◌else◌,
  is_empty, ite, String_discrete, arith,
}
use stpt_query.Pipeline.{
  Request, login, jump, get_grades, get_schedule, WorkflowRequest, Service, State,
}
use stpt_query.Pipeline.Queries.{grades_query, schedule_query, run}
use stpt_query.Pipeline.Recovery.{
  world_after, Asked, first_data, first_error, login_error, again_data, again_error,
}
use stpt_query.Pipeline.Requests.{
  Course, stopped, linked, query_of, Going, idle, asking, Sent, refused, logged_in, given, run-Sent,
}

abbrev pub logins : List Request → ℕ
logins [] = 0
logins (login u p ∷ ls) = logins ls + 1
logins (jump i ∷ ls) = logins ls
logins (get_grades i t ∷ ls) = logins ls
logins (get_schedule i w t ∷ ls) = logins ls

abbrev pub queries : List Request → ℕ
queries [] = 0
queries (login u p ∷ ls) = queries ls
queries (jump i ∷ ls) = queries ls
queries (get_grades i t ∷ ls) = queries ls + 1
queries (get_schedule i w t ∷ ls) = queries ls + 1

-- One for a string that is not empty.
abbrev pub one_if : Bool → ℕ
one_if b = if b then 0 else 1

-- A query that is no login.
record IsQuery (query : String → Request) : Type 0 where
  no_login : (i : String) (ls : List Request) → logins (query i ∷ ls) ≡ logins ls
  counts : (i : String) (ls : List Request) → queries (query i ∷ ls) ≡ queries ls + 1

module _ {W Body : Type 0} (svc : Service W Body) (req : WorkflowRequest) (query : String → Request)
    (session : String) (w : W) (past : List Request) (q : IsQuery query) where
  Asked-logins :
      (ls : List Request) (u : Option String)
      → Asked svc req query session w past ls u
      → (logins ls ≤ logins past + one_if (is_empty req.password)) × (queries ls ≤ queries past + 2)
  Asked-logins ls u first_data = ground (arith, q.no_login session past, q.counts session past)
  Asked-logins ls u first_error = ground (arith, q.no_login session past, q.counts session past)
  Asked-logins ls u (login_error pw) =
      ground (arith, q.no_login session past, q.counts session past)
  Asked-logins ls u (again_data new n) = ground (
    arith,
    n.password,
    q.no_login session past,
    q.counts session past,
    q.no_login new (login req.username req.password ∷ query session ∷ past),
    q.counts new (login req.username req.password ∷ query session ∷ past),
  )
  Asked-logins ls u (again_error new n) = ground (
    arith,
    n.password,
    q.no_login session past,
    q.counts session past,
    q.no_login new (login req.username req.password ∷ query session ∷ past),
    q.counts new (login req.username req.password ∷ query session ∷ past),
  )

  Course-logins :
      (ls : List Request)
      → Course svc req query session w past ls
      → (logins ls ≤ logins past + one_if (is_empty req.password)) × (queries ls ≤ queries past + 2)
  Course-logins ls (stopped {u} a) = Asked-logins ls u a
  Course-logins ls (linked {ls = before} used a) = Asked-logins before (some used) a

pick-IsQuery :
    {A B : Type 0}
    → (req : WorkflowRequest) (query : String → Request) (d : Dec A) (e : Dec B)
    → ite d (some (grades_query req)) (ite e (some (schedule_query req)) none) ≡ some query
    → IsQuery query
pick-IsQuery req query (yes p) e h =
    let same : grades_query req ≡ query = cc h in
    subst IsQuery same (record { no_login = λ i ls. refl; counts = λ i ls. refl })
pick-IsQuery req query (no np) (yes p) h =
    let same : schedule_query req ≡ query = cc h in
    subst IsQuery same (record { no_login = λ i ls. refl; counts = λ i ls. refl })
pick-IsQuery req query (no np) (no nq) h = absurd (ground arith)

query_of-IsQuery :
    (req : WorkflowRequest) (query : String → Request) → query_of req ≡ some query → IsQuery query
query_of-IsQuery req query h =
    pick-IsQuery req query (String_discrete req.option "成绩") (String_discrete req.option "课表") h

module _ {W Body : Type 0} (svc : Service W Body) (req : WorkflowRequest) where
  Going-logins :
      (i : String) (w : W) (past ls : List Request)
      → Going svc req i w past ls
      → (logins ls ≤ logins past + one_if (is_empty req.password)) × (queries ls ≤ queries past + 2)
  Going-logins i w past ls (idle n) = (ground arith, ground arith)
  Going-logins i w past ls (asking query e c) =
      Course-logins svc req query i w past (query_of-IsQuery req query e) ls c

  Sent-logins :
      (session : String) (w : W) (ls : List Request)
      → Sent svc req session w ls
      → (logins ls ≤ one_if (is_empty req.password) + (if is_empty session then 1 else 0))
        × (queries ls ≤ 2)
  Sent-logins session w ls (refused n) = (ground arith, omega arith)
  Sent-logins session w ls (logged_in n body a m g) = ground (
    arith,
    Going-logins (svc.session_of body) (world_after svc (login req.username req.password) w)
        (login req.username req.password ∷ []) ls g,
  )
  Sent-logins session w ls (given n g) = ground (arith, Going-logins session w [] ls g)

module _ (req : WorkflowRequest) (session : String) where
  -- Whatever the service answers, a run that starts with nothing sent logs in at most once where
  -- no session is given, once more only where there is a password, and sends at most two
  -- queries.
  pub run-logins :
      {W Body : Type 0}
      → (svc : Service W Body) (s : State W) → s.sent ≡ []
      → (logins (run svc req session s).0.sent
          ≤ one_if (is_empty req.password) + (if is_empty session then 1 else 0))
        × (queries (run svc req session s).0.sent ≤ 2)
  run-logins svc s h =
      Sent-logins svc req session s.world (run svc req session s).0.sent
        (run-Sent svc req session s h)
