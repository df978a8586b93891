-- ===== src/Pipeline/Sending.antt =====
-- What in a run of app/pipeline.py sends no request: all that follows the jump link.
use stpt_query.Common.{
  ℕ, ◌≡◌, ◌∙◌, refl, String, Bool, Option, none, some, ◌∷◌, ◌==◌, if◌then◌else◌, Bool-cases, inl,
  inr,
}
use stpt_query.Pipeline.{
  jump, Answer, replied, service_error, WorkflowRequest, Chat, answered, llm_error, chat_raised,
  Service, QueryResult, State, report_phase, ask,
}
use stpt_query.Pipeline.Queries.{
  after_jump, get_jump_body, Written, after_chat, after_preprocess, plain, without_rows,
  counted_grades, timetable, analyse, after_pdf, grades_result, deliver,
}

module _ {W Body : Type 0} (svc : Service W Body) (req : WorkflowRequest) where
  pub jump_sent :
      (session : String) (s : State W)
      → (get_jump_body svc session s).0.sent ≡ jump session ∷ s.sent
  unfolding get_jump_body
  jump_sent session s = after_jump_sent (ask svc (jump session) s)
    where
      after_jump_sent : (p : State W × Answer Body) → (after_jump svc p).0.sent ≡ p.0.sent
      after_jump_sent (t, replied b) = refl
      after_jump_sent (t, service_error e) = refl

  chat_sent :
      (prefix : String) (s : State W) (p : W × Chat) → (after_chat svc prefix s p).0.sent ≡ s.sent
  chat_sent prefix s (w, answered text usage) = refl
  chat_sent prefix s (w, llm_error) = refl
  chat_sent prefix s (w, chat_raised) = refl

  preprocess_sent :
      (s : State W) (parts : Option (String × String))
      → (after_preprocess svc s parts).0.sent ≡ s.sent
  preprocess_sent s none = refl
  preprocess_sent s (some (prefix, prompt)) = chat_sent prefix s (svc.chat prompt s.world)

  plain_sent : (s : State W) (text : Option String) → (plain svc s text).0.sent ≡ s.sent
  plain_sent s none = refl
  plain_sent s (some text) = refl

  analyse_sent :
      (body : Body) (link : Option Body) (s : State W)
      → (analyse svc req body link s).0.sent ≡ s.sent
  unfolding analyse
  analyse_sent body link s = elim (Bool-cases req.check) [
    | inl c ↦
        rw (c, if◌then◌else◌)
          (preprocess_sent (report_phase "analyzing" s) (svc.preprocess_grades body link))
    | inr c ↦ rw (c, if◌then◌else◌) (plain_sent s (svc.format_grades body link))
  ]

  pdf_sent :
      (r : QueryResult) (s : State W) (p : W × Option String)
      → (after_pdf svc r s p).0.sent ≡ s.sent
  pdf_sent r s (w, none) = refl
  pdf_sent r s (w, some pdf) = refl

  deliver_sent :
      (body : Body) (n : ℕ) (retried : Bool) (p : State W × Option Written)
      → (deliver svc req body n retried p).0.sent ≡ p.0.sent
  unfolding deliver
  deliver_sent body n retried (s, none) = refl
  deliver_sent body n retried (s, some out) = elim (Bool-cases req.md2pdf) [
    | inl c ↦
        rw (c, if◌then◌else◌)
          (pdf_sent (grades_result svc body n retried out) (report_phase "generating_pdf" s)
            (svc.to_pdf (svc.strip_login_note out.output) s.world))
    | inr c ↦ rw (c, if◌then◌else◌) refl
  ]

  without_sent :
      (body : Body) (s : State W) (text : Option String)
      → (without_rows svc body s text).0.sent ≡ s.sent
  without_sent body s none = refl
  without_sent body s (some text) = refl

  pub counted_sent :
      (body : Body) (retried : Bool) (p : State W × Option Body) (count : Option ℕ)
      → (counted_grades svc req body retried p count).0.sent ≡ p.0.sent
  counted_sent body retried (s, link) none = refl
  counted_sent body retried (s, link) (some n) = elim (Bool-cases (n == 0)) [
    | inl c ↦ rw (c, if◌then◌else◌) (without_sent body s (svc.format_grades body link))
    | inr c ↦
        rw (c, if◌then◌else◌)
          (deliver_sent body n retried (analyse svc req body link s) ∙ analyse_sent body link s)
  ]

  pub timetable_sent :
      (body : Body) (retried : Bool) (s : State W) (text : Option String)
      → (timetable svc body retried s text).0.sent ≡ s.sent
  timetable_sent body retried s none = refl
  timetable_sent body retried s (some text) = refl
