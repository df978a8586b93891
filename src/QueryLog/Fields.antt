-- ===== src/QueryLog/Fields.antt =====
-- The fields of an entry of the log: `sanitize_entry` of app/querylog.py.
use stpt_query.Common.{
  ◌≡◌, ◌∙◌, ap, refl, String, Bool, true, false, not, ◌||◌, none, [], ◌∷◌, if◌then◌else◌, arith,
}
use stpt_query.Common.Dict
use stpt_query.Common.Dict.{Dict}
use stpt_query.QueryLog.{contains, allowed_fields, sensitive_fields, is_dropped, sanitize_entry}

dropped_get :
    {V : Type 0}
    → (k : String) (d : Dict V)
    → Dict.get k (sanitize_entry d) ≡ (if is_dropped k then none else Dict.get k d)
unfolding sanitize_entry Dict.get
dropped_get k [] = ground arith
dropped_get k ((j, v) ∷ d) = ground (arith, dropped_get k d)

or_true : (b c : Bool) → c ≡ true → (b || c) ≡ true
or_true true c h = refl
or_true false c h = h

-- A sanitized entry has no field that is sensitive or not on the list of the allowed ones, and
-- has every other field with its value.
pub get-sanitize_entry :
    {V : Type 0}
    → (k : String) (d : Dict V)
    → (contains k sensitive_fields ≡ true → Dict.get k (sanitize_entry d) ≡ none)
      × (contains k allowed_fields ≡ false → Dict.get k (sanitize_entry d) ≡ none)
      × (contains k allowed_fields ≡ true
          → contains k sensitive_fields ≡ false
          → Dict.get k (sanitize_entry d) ≡ Dict.get k d)
unfolding is_dropped
get-sanitize_entry k d = (
  (λ s.
      dropped_get k d
      ∙ ap (λ b. if b then none else Dict.get k d)
          (or_true (not (contains k allowed_fields)) (contains k sensitive_fields) s)),
  (λ n. dropped_get k d ∙ rw (n, if◌then◌else◌) refl),
  λ a s. dropped_get k d ∙ rw (a, s, if◌then◌else◌) refl,
)
