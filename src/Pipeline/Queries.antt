-- ===== src/Pipeline/Queries.antt =====
-- The branches of a query: `_run_grades`, `_run_schedule` and `run` of app/pipeline.py.
use stpt_query.Common.{
  ℕ, String, Bool, true, false, not, Option, none, some, ◌==◌, if◌then◌else◌, is_empty, ite,
  String_discrete,
}
use stpt_query.Pipeline.{
  Request, login, jump, get_grades, get_schedule, Answer, replied, service_error, login_stage,
  request_stage, grades_stage, schedule_stage, WorkflowRequest, Chat, answered, llm_error,
  chat_raised, Service, Kind, grades, grades_empty, grades_pdf, schedule, Meta, QueryResult,
  Outcome, returned, raised, State, Recovered, data_for, given_up, record_dependency, report_phase,
  aside, record_service_error, ask, post_with_session_recovery, classify_error, error_result,
}

-- The queries with the payload that is made of a session.
abbrev pub grades_query : WorkflowRequest → String → Request
grades_query req session = get_grades session req.semesters

abbrev pub schedule_query : WorkflowRequest → String → Request
schedule_query req session = get_schedule session req.weeks req.semesters

-- `_ok`
abbrev pub ok : Kind → String → Meta → QueryResult
ok kind output meta = record {
  success = true;
  kind = kind;
  output = output;
  meta = meta;
  pdf_base64 = none;
}

-- The output, with what the analysis adds to the result.
pub record Written : Type 0 where
  pub output : String
  pub analysis_used : Option Bool
  pub analysis_usage : Option ℕ

module _ {W Body : Type 0} (svc : Service W Body) where
  -- A jump link that is missing takes nothing from the query.
  abbrev pub after_jump : State W × Answer Body → State W × Option Body
  after_jump (s, replied b) = (s, some b)
  after_jump (s, service_error e) = (record_dependency "query_proxy" "degraded" s, none)

  -- `_get_jump_body`
  unfoldable pub get_jump_body : String → State W → State W × Option Body
  get_jump_body session s = after_jump (ask svc (jump session) s)

  abbrev pub after_chat : String → State W → W × Chat → State W × Option Written
  after_chat prefix s (w, answered analysis usage) = (
    record_dependency "llm" "ok" (aside w s),
    some (record {
      output = svc.assemble prefix analysis;
      analysis_used = some (not (is_empty analysis));
      analysis_usage = usage;
    }),
  )
  after_chat prefix s (w, llm_error) = (
    record_dependency "llm" "degraded" (aside w s),
    some (record {
      output = svc.assemble prefix "";
      analysis_used = some false;
      analysis_usage = none;
    }),
  )
  after_chat prefix s (w, chat_raised) = (aside w s, none)

  abbrev pub after_preprocess : State W → Option (String × String) → State W × Option Written
  after_preprocess s none = (s, none)
  after_preprocess s (some (prefix, prompt)) = after_chat prefix s (svc.chat prompt s.world)

  abbrev pub plain : State W → Option String → State W × Option Written
  plain s none = (s, none)
  plain s (some text) =
      (s, some (record { output = text; analysis_used = none; analysis_usage = none }))

  -- The branch on `req.check`; there is no output where an exception is raised.
  unfoldable pub analyse : WorkflowRequest → Body → Option Body → State W → State W × Option Written
  analyse req body link s =
      if req.check
      then after_preprocess (report_phase "analyzing" s) (svc.preprocess_grades body link)
      else plain s (svc.format_grades body link)

  abbrev pub after_pdf : QueryResult → State W → W × Option String → State W × Outcome
  after_pdf r s (w, none) = (aside w s, raised)
  after_pdf r s (w, some pdf) = (
    aside w s,
    returned (record {
      success = r.success;
      kind = grades_pdf;
      output = r.output;
      meta = r.meta;
      pdf_base64 = some pdf;
    }),
  )

  abbrev pub grades_result : Body → ℕ → Bool → Written → QueryResult
  grades_result body n retried out = ok grades out.output (record {
    count = some n;
    response_summary = some (svc.summarize_response body);
    relogin_retry = retried;
    analysis_used = out.analysis_used;
    analysis_usage = out.analysis_usage;
  })

  -- The end of `_run_grades`, from the output on.
  unfoldable pub deliver :
      WorkflowRequest → Body → ℕ → Bool → State W × Option Written → State W × Outcome
  deliver req body n retried (s, none) = (s, raised)
  deliver req body n retried (s, some out) =
      let result = grades_result body n retried out in
      let phased = report_phase "generating_pdf" s in
      if req.md2pdf
      then after_pdf result phased (svc.to_pdf (svc.strip_login_note out.output) phased.world)
      else (s, returned result)

  abbrev pub without_rows : Body → State W → Option String → State W × Outcome
  without_rows body s none = (s, raised)
  without_rows body s (some text) = (
    s,
    returned (
        ok grades_empty text (record {
          count = some 0;
          response_summary = some (svc.summarize_response body);
          relogin_retry = false;
          analysis_used = none;
          analysis_usage = none;
        })),
  )

  abbrev pub counted_grades :
      WorkflowRequest → Body → Bool → State W × Option Body → Option ℕ → State W × Outcome
  counted_grades req body retried (s, link) none = (s, raised)
  counted_grades req body retried (s, link) (some n) =
      let full = deliver req body n retried (analyse req body link s) in
      let no_rows = without_rows body s (svc.format_grades body link) in
      if n == 0 then no_rows else full

  abbrev pub graded : WorkflowRequest → Body → Bool → State W × Option Body → State W × Outcome
  graded req body retried p = counted_grades req body retried p (svc.count_of body)

  abbrev pub after_grades : WorkflowRequest → State W × Recovered Body → State W × Outcome
  after_grades req (s, given_up e) =
      (record_service_error e s, returned (classify_error svc grades_stage (some e) none))
  after_grades req (s, data_for body session retried) =
      let rest = graded req body retried (get_jump_body session s) in
      if svc.is_success body
      then rest
      else (s, returned (classify_error svc grades_stage none (some body)))

  -- `_run_grades`
  unfoldable pub run_grades : WorkflowRequest → String → State W → State W × Outcome
  run_grades req session s =
      after_grades req
        (post_with_session_recovery svc req session (grades_query req) (report_phase "querying" s))

  abbrev pub timetable : Body → Bool → State W → Option String → State W × Outcome
  timetable body retried s none = (s, raised)
  timetable body retried s (some text) = (
    s,
    returned (
        ok schedule text (record {
          count = none;
          response_summary = some (svc.summarize_response body);
          relogin_retry = retried;
          analysis_used = none;
          analysis_usage = none;
        })),
  )

  abbrev pub scheduled : Body → Bool → State W × Option Body → State W × Outcome
  scheduled body retried (s, link) = timetable body retried s (svc.format_schedule body link)

  abbrev pub after_schedule : State W × Recovered Body → State W × Outcome
  after_schedule (s, given_up e) =
      (record_service_error e s, returned (classify_error svc schedule_stage (some e) none))
  after_schedule (s, data_for body session retried) =
      let rest = scheduled body retried (get_jump_body session s) in
      if svc.is_success body
      then rest
      else (s, returned (classify_error svc schedule_stage none (some body)))

  -- `_run_schedule`
  unfoldable pub run_schedule : WorkflowRequest → String → State W → State W × Outcome
  run_schedule req session s =
      after_schedule (
        post_with_session_recovery svc req session (schedule_query req) (report_phase "querying" s))

  -- The branch of `run` on the item that is queried.
  unfoldable pub run_option : WorkflowRequest → String → State W → State W × Outcome
  run_option req session s = ite (String_discrete req.option "成绩") (run_grades req session s) (
      ite (String_discrete req.option "课表") (run_schedule req session s)
        (s, returned (error_result svc request_stage (svc.option_report req.option))))

  abbrev pub after_first_login : WorkflowRequest → State W × Answer Body → State W × Outcome
  after_first_login req (s, service_error e) =
      (record_service_error e s, returned (classify_error svc login_stage (some e) none))
  after_first_login req (s, replied b) =
      let rest = run_option req (svc.session_of b) s in
      if is_empty (svc.session_of b)
      then (s, returned (classify_error svc login_stage none (some b)))
      else rest

  -- `run`; the empty session stands for none.
  unfoldable pub run : WorkflowRequest → String → State W → State W × Outcome
  run req session s =
      let with_session = run_option req session s in
      let with_login = after_first_login req (ask svc (login req.username req.password) s) in
      if is_empty session then with_login else with_session
