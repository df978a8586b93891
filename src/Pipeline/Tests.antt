-- ===== src/Pipeline/Tests.antt =====
-- Runs of the pipeline with a service whose first session is too old.
use stpt_query.Common.{
  ℕ, ◌+◌, ◌≤◌, ◌≡◌, refl, true, false, none, some, [], ◌==◌, ite, String_discrete,
}
use stpt_query.Pipeline.{
  Request, login, jump, get_grades, get_schedule, ServiceError, Answer, replied, service_error,
  WorkflowRequest, llm_error, Service, State, can_relogin, post_with_session_recovery,
}
use stpt_query.Pipeline.Queries.{run_option, deliver, analyse, get_jump_body, run_grades, run}
use stpt_query.Pipeline.Requests.{Sent, run-Sent}
use stpt_query.Pipeline.Bounds.{logins, queries, run-logins}

-- A body is a number: 0 has the session, 1 has the grades.
abbrev expired : ServiceError ℕ
expired = record { status_code = 401; body = 2; message = "session expired" }

abbrev answer : Request → Answer ℕ
answer (login u p) = replied 0
answer (jump i) = service_error expired
answer (get_grades i t) = ite (String_discrete i "new") (replied 1) (service_error expired)
answer (get_schedule i w t) = service_error expired

abbrev renewing : Service ℕ ℕ
renewing = record {
  post = λ q w. (w + 1, answer q);
  chat = λ p w. (w, llm_error);
  to_pdf = λ m w. (w, none);
  session_of = λ b. "new";
  is_success = λ b. b == 1;
  count_of = λ b. some 3;
  error_text = λ b. "expired";
  is_session_invalid = λ e m. true;
  format_grades = λ b l. some "grades";
  preprocess_grades = λ b l. some ("grades", "prompt");
  assemble = λ p a. p;
  format_schedule = λ b l. some "schedule";
  strip_login_note = λ t. t;
  summarize_response = λ b. "";
  option_report = λ o. "report";
  report = λ t e b. "report";
}

abbrev asked : WorkflowRequest
asked = record {
  username = "2025000001";
  password = "p";
  option = "成绩";
  semesters = "";
  weeks = "all";
  md2pdf = false;
  check = true;
}

abbrev idle_state : State ℕ
idle_state = record { world = 0; sent = []; health = []; phases = [] }

renewed : logins (run renewing asked "old" idle_state).0.sent ≡ 1
unfolding run run_option run_grades post_with_session_recovery can_relogin String_discrete deliver
    analyse get_jump_body
renewed = refl

run-Sent_example : Sent renewing asked "old" 0 (run renewing asked "old" idle_state).0.sent
run-Sent_example = run-Sent renewing asked "old" idle_state refl

run-logins_example :
    (logins (run renewing asked "old" idle_state).0.sent ≤ 1)
    × (queries (run renewing asked "old" idle_state).0.sent ≤ 2)
unfolding String_discrete
run-logins_example = run-logins asked "old" renewing idle_state refl
