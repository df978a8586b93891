-- ===== src/Pipeline/Degrading.antt =====
-- The results of a run of app/pipeline.py: when there is one, and what does not spoil it.
use stpt_query.Common.{◌≡◌, Bool, true, false, not, Option, none, some}
use stpt_query.Pipeline.{
  Kind, error_kind, grades, grades_empty, grades_pdf, schedule, WorkflowRequest, Chat, answered,
  llm_error, chat_raised, Service, Outcome, returned, raised,
}

abbrev pub is_given {ℓ} : {A : Type ℓ} → Option A → Bool
is_given none = false
is_given (some a) = true

abbrev pub is_error : Kind → Bool
is_error (error_kind stage) = true
is_error grades = false
is_error grades_empty = false
is_error grades_pdf = false
is_error schedule = false

-- A result, and one that is successful where its kind is no error; an exception only where a PDF
-- was asked for.
abbrev pub IsSettled : WorkflowRequest → Outcome → Type 0
IsSettled req (returned r) = r.success ≡ not (is_error r.kind)
IsSettled req raised = req.md2pdf ≡ true

-- A successful result of a query of grades.
abbrev pub IsGraded : WorkflowRequest → Outcome → Type 0
IsGraded req (returned r) = (r.success ≡ true) × (is_error r.kind ≡ false)
IsGraded req raised = req.md2pdf ≡ true

-- What the reading of the data gives: the count of the grades is a number, and the texts are made.
pub record IsReadable {W Body : Type 0} (svc : Service W Body) (b : Body) : Type 0 where
  pub counts : is_given (svc.count_of b) ≡ true
  pub formats : (link : Option Body) → is_given (svc.format_grades b link) ≡ true
  pub prepares : (link : Option Body) → is_given (svc.preprocess_grades b link) ≡ true

-- The call of the language model ends with an answer or an `LLMError`.
abbrev pub is_caught : Chat → Bool
is_caught (answered text usage) = true
is_caught llm_error = true
is_caught chat_raised = false
