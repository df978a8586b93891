-- ===== src/Pipeline.antt =====
-- `Pipeline` of app/pipeline.py: one query, from the login to the result. What it calls is a
-- parameter: the service behind `post`, the language model, the making of a PDF, the texts.
pub mod Queries
pub mod Recovery
pub mod Sending
pub mod Requests
pub mod Bounds
pub mod Degrading
mod Tests
use stpt_query.Common.{
  ℕ, ◌+◌, String, Bool, true, false, not, ◌&&◌, ◌||◌, Option, none, some, List, [], ◌∷◌, leb, ◌==◌,
  if◌then◌else◌, is_empty,
}
use stpt_query.Common.Dict.{Dict}
use stpt_query.Dependencies.{record_state}

-- A path of the service with its payload.
pub data Request : Type 0 where
  login : String → String → Request
  jump : String → Request
  get_grades : String → String → Request
  get_schedule : String → String → String → Request

pub record ServiceError (Body : Type 0) : Type 0 where
  pub status_code : ℕ
  pub body : Body
  pub message : String

pub data Answer (Body : Type 0) : Type 0 where
  replied : Body → Answer Body
  service_error : ServiceError Body → Answer Body

-- The step of a query that an error is reported for.
pub data Stage : Type 0 where
  login_stage : Stage
  request_stage : Stage
  grades_stage : Stage
  schedule_stage : Stage

pub record WorkflowRequest : Type 0 where
  pub username : String
  pub password : String
  pub option : String
  pub semesters : String
  pub weeks : String
  pub md2pdf : Bool
  pub check : Bool

-- What becomes of the call of the language model: an answer with the tokens it used, an `LLMError`,
-- or another exception.
pub data Chat : Type 0 where
  answered : String → Option ℕ → Chat
  llm_error : Chat
  chat_raised : Chat

-- What the pipeline calls, on a world of their own, and what it reads of a body; `none` is an
-- exception.
pub record Service (W : Type 0) (Body : Type 0) : Type 0 where
  pub post : Request → W → W × Answer Body
  pub chat : String → W → W × Chat
  pub to_pdf : String → W → W × Option String
  pub session_of : Body → String
  pub is_success : Body → Bool
  pub count_of : Body → Option ℕ
  pub error_text : Body → String
  pub is_session_invalid : String → String → Bool
  pub format_grades : Body → Option Body → Option String
  pub preprocess_grades : Body → Option Body → Option (String × String)
  pub assemble : String → String → String
  pub format_schedule : Body → Option Body → Option String
  pub strip_login_note : String → String
  pub summarize_response : Body → String
  pub option_report : String → String
  pub report : Stage → Option (ServiceError Body) → Option Body → String

pub data Kind : Type 0 where
  error_kind : Stage → Kind
  grades : Kind
  grades_empty : Kind
  grades_pdf : Kind
  schedule : Kind

pub record Meta : Type 0 where
  pub count : Option ℕ
  pub response_summary : Option String
  pub relogin_retry : Bool
  pub analysis_used : Option Bool
  pub analysis_usage : Option ℕ

pub record QueryResult : Type 0 where
  pub success : Bool
  pub kind : Kind
  pub output : String
  pub meta : Meta
  pub pdf_base64 : Option String

-- `raised` is an exception that the pipeline does not catch.
pub data Outcome : Type 0 where
  returned : QueryResult → Outcome
  raised : Outcome

-- The world with the requests sent so far, newest first, the states of the dependencies, and the
-- phases reported, newest first.
pub record State (W : Type 0) : Type 0 where
  pub world : W
  pub sent : List Request
  pub health : Dict String
  pub phases : List String

-- The answer to a query, with the session it was asked with, and whether there was a new login.
pub data Recovered (Body : Type 0) : Type 0 where
  data_for : Body → String → Bool → Recovered Body
  given_up : ServiceError Body → Recovered Body

module _ {W : Type 0} where
  abbrev pub record_dependency : String → String → State W → State W
  record_dependency key state s = record {
    world = s.world;
    sent = s.sent;
    health = record_state key state s.health;
    phases = s.phases;
  }

  abbrev pub report_phase : String → State W → State W
  report_phase phase s = record {
    world = s.world;
    sent = s.sent;
    health = s.health;
    phases = phase ∷ s.phases;
  }

  -- A call that sends nothing to the service.
  abbrev pub aside : W → State W → State W
  aside w s = record { world = w; sent = s.sent; health = s.health; phases = s.phases }

  abbrev pub record_service_error : {Body : Type 0} → ServiceError Body → State W → State W
  record_service_error e s =
      if e.status_code == 0
      then record_dependency "query_proxy" "error" s
      else if leb 500 e.status_code
      then record_dependency "query_proxy" "degraded" s
      else s

module _ {W Body : Type 0} (svc : Service W Body) where
  abbrev pub ask : Request → State W → State W × Answer Body
  ask q s =
      let p = svc.post q s.world in
      (record { world = p.0; sent = q ∷ s.sent; health = s.health; phases = s.phases }, p.1)

  -- `_can_relogin_after_session_error`
  unfoldable pub can_relogin : WorkflowRequest → ServiceError Body → Bool
  can_relogin req e =
      if not (e.status_code == 401) || is_empty req.password
      then false
      else svc.is_session_invalid (svc.error_text e.body) e.message

  -- The second query, after the new login.
  abbrev pub after_retry : String → State W × Answer Body → State W × Recovered Body
  after_retry session (s, replied b) = (s, data_for b session true)
  after_retry session (s, service_error e) = (s, given_up e)

  abbrev pub no_session : Body → ServiceError Body
  no_session b = record { status_code = 200; body = b; message = "重新登录未返回 session" }

  abbrev pub after_login : (String → Request) → State W × Answer Body → State W × Recovered Body
  after_login query (s, service_error e) = (record_service_error e s, given_up e)
  after_login query (s, replied b) =
      let session = svc.session_of b in
      let retry = after_retry session (ask (query session) s) in
      if is_empty session
      then (record_service_error (no_session b) s, given_up (no_session b))
      else retry

  abbrev pub after_query :
      WorkflowRequest
      → String
      → (String → Request)
      → State W × Answer Body
      → State W × Recovered Body
  after_query req session query (s, replied b) = (s, data_for b session false)
  after_query req session query (s, service_error e) =
      if can_relogin req e
      then after_login query (ask (login req.username req.password) s)
      else (s, given_up e)

  -- `_post_with_session_recovery`, for the path and payload that `query` makes of a session.
  unfoldable pub post_with_session_recovery :
      WorkflowRequest → String → (String → Request) → State W → State W × Recovered Body
  post_with_session_recovery req session query s =
      after_query req session query (ask (query session) s)

  abbrev no_meta : Meta
  no_meta = record {
    count = none;
    response_summary = none;
    relogin_retry = false;
    analysis_used = none;
    analysis_usage = none;
  }

  abbrev pub error_result : Stage → String → QueryResult
  error_result stage text = record {
    success = false;
    kind = error_kind stage;
    output = text;
    meta = no_meta;
    pdf_base64 = none;
  }

  -- `classify_error`, but for the making of the text.
  abbrev pub classify_error : Stage → Option (ServiceError Body) → Option Body → QueryResult
  classify_error stage e b = error_result stage (svc.report stage e b)
