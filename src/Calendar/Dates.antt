-- ===== src/Calendar/Dates.antt =====
-- `week_monday` and `occurrence_dates` of app/calendar/rules.py. A date is its ordinal, as
-- `date.toordinal` counts the days.
use stpt_query.Common.{
  ℕ, ◌+◌, ◌-◌, ◌*◌, ◌≤◌, ◌<◌, ◌≡◌, refl, Bool, false, not, ◌&&◌, ◌||◌, List, [], ◌∷◌, All, ltb,
  ◌==◌, if◌then◌else◌, inl, inr, arith, Bool-cases,
}
use stpt_query.Calendar.Sets.{has, sorted_set, Ascending, sorted_set-Ascending}
use stpt_query.Calendar.Weeks.{Parsed, done, data_error}
use stpt_query.Calendar.Parsing.{Parsed-cases}

pub record Term : Type 0 where
  pub monday : ℕ
  pub teaching_start : ℕ
  pub weeks : ℕ
  pub exdates : List ℕ
  pub semester : List ℕ

abbrev pub week_monday : Term → ℕ → ℕ
week_monday t week = t.monday + 7 * (week - 1)

abbrev pub day_of : Term → ℕ → ℕ → ℕ
day_of t weekday week = week_monday t week + weekday

-- The days that the loop leaves out.
abbrev pub left_out : Term → ℕ → Bool
left_out t day = ltb day t.teaching_start || has day t.exdates

-- The loop over the weeks in order.
abbrev pub dates_of : Term → ℕ → List ℕ → Parsed (List ℕ)
dates_of t weekday [] = done []
dates_of t weekday (w ∷ ws) =
    let rest = dates_of t weekday ws in
    if ltb w 1 || ltb t.weeks w then data_error else elim rest [
      | data_error ↦ data_error
      | done days ↦
          done (if left_out t (day_of t weekday w) then days else (day_of t weekday w ∷ days))
    ]

abbrev pub occurrence_dates : Term → ℕ → List ℕ → Parsed (List ℕ)
occurrence_dates t weekday weeks = dates_of t weekday (sorted_set weeks)

-- A day is the day of one of the weeks.
abbrev pub is_day_of : Term → ℕ → ℕ → List ℕ → Bool
is_day_of t weekday day [] = false
is_day_of t weekday day (w ∷ ws) = (day == day_of t weekday w) || is_day_of t weekday day ws

abbrev pub InTerm : Term → List ℕ → Type 0
InTerm t ws = All (λ w. (0 < w) × (w ≤ t.weeks)) ws

dates_of-total :
    (t : Term) (weekday : ℕ) (ws : List ℕ)
    → InTerm t ws
    → (days : List ℕ) × (dates_of t weekday ws ≡ done days)
dates_of-total t weekday [] h = ([], refl)
dates_of-total t weekday (w ∷ ws) h =
    let r = dates_of-total t weekday ws h.1 in
    (
      if left_out t (day_of t weekday w) then r.0 else (day_of t weekday w ∷ r.0),
      ground (arith, r.1, h.0),
    )

-- The loop's test fails on no week where it returns the days.
dates_of-InTerm :
    (t : Term) (weekday : ℕ) (ws days : List ℕ) → dates_of t weekday ws ≡ done days → InTerm t ws
dates_of-InTerm t weekday [] days e = tt
dates_of-InTerm t weekday (w ∷ ws) days e = elim (Bool-cases (ltb w 1 || ltb t.weeks w)) [
  | inl b ↦ absurd (ground arith)
  | inr b ↦ elim (Parsed-cases (dates_of t weekday ws)) [
    | inl d ↦ absurd (ground arith)
    | inr (rest, d) ↦ (ground arith, dates_of-InTerm t weekday ws rest d)
  ]
]

has-dates_of :
    (t : Term) (weekday day : ℕ) (ws days : List ℕ)
    → dates_of t weekday ws ≡ done days
    → has day days ≡ (is_day_of t weekday day ws && not (left_out t day))
has-dates_of t weekday day [] days e = ground arith
has-dates_of t weekday day (w ∷ ws) days e = elim (Bool-cases (ltb w 1 || ltb t.weeks w)) [
  | inl b ↦ absurd (ground arith)
  | inr b ↦ elim (Parsed-cases (dates_of t weekday ws)) [
    | inl d ↦ absurd (ground arith)
    | inr (rest, d) ↦ ground (arith, has-dates_of t weekday day ws rest d)
  ]
]

later : (t : Term) (weekday v w : ℕ) → 0 < v → v < w → day_of t weekday v < day_of t weekday w
later t weekday v w h k = omega arith

dates_of-All :
    (t : Term) (weekday v : ℕ) (ws days : List ℕ)
    → 0 < v
    → All (λ w. v < w) ws
    → dates_of t weekday ws ≡ done days
    → All (λ d. day_of t weekday v < d) days
dates_of-All t weekday v [] days hv h e = ground arith
dates_of-All t weekday v (w ∷ ws) days hv h e = elim (Bool-cases (ltb w 1 || ltb t.weeks w)) [
  | inl b ↦ absurd (ground arith)
  | inr b ↦ elim (Parsed-cases (dates_of t weekday ws)) [
    | inl d ↦ absurd (ground arith)
    | inr (rest, d) ↦
        ground (arith, dates_of-All t weekday v ws rest hv h.1 d, later t weekday v w hv h.0)
  ]
]

dates_of-Ascending :
    (t : Term) (weekday : ℕ) (ws days : List ℕ)
    → Ascending ws
    → dates_of t weekday ws ≡ done days
    → Ascending days
dates_of-Ascending t weekday [] days h e = ground arith
dates_of-Ascending t weekday (w ∷ ws) days h e = elim (Bool-cases (ltb w 1 || ltb t.weeks w)) [
  | inl b ↦ absurd (ground arith)
  | inr b ↦ elim (Parsed-cases (dates_of t weekday ws)) [
    | inl d ↦ absurd (ground arith)
    | inr (rest, d) ↦ ground (
      arith,
      dates_of-Ascending t weekday ws rest h.1 d,
      dates_of-All t weekday w ws rest (ground arith) h.0 d,
    )
  ]
]

-- For weeks of the term, `occurrence_dates` succeeds.
pub occurrence_dates-total :
    (t : Term) (weekday : ℕ) (weeks : List ℕ)
    → InTerm t (sorted_set weeks)
    → (days : List ℕ) × (occurrence_dates t weekday weeks ≡ done days)
occurrence_dates-total t weekday weeks h = dates_of-total t weekday (sorted_set weeks) h

-- Where `occurrence_dates` succeeds, all the weeks are weeks of the term, the dates are in
-- ascending order without duplicates, and a day is among them exactly if it is the given day of
-- one of the weeks, counted from the first Monday of the term, not before the first day of
-- teaching and not an excluded date.
pub occurrence_dates_lem :
    (t : Term) (weekday : ℕ) (weeks days : List ℕ) (day : ℕ)
    → occurrence_dates t weekday weeks ≡ done days
    → InTerm t (sorted_set weeks)
      × Ascending days
      × (has day days ≡ (is_day_of t weekday day (sorted_set weeks) && not (left_out t day)))
occurrence_dates_lem t weekday weeks days day e = (
  dates_of-InTerm t weekday (sorted_set weeks) days e,
  dates_of-Ascending t weekday (sorted_set weeks) days (sorted_set-Ascending weeks) e,
  has-dates_of t weekday day (sorted_set weeks) days e,
)
