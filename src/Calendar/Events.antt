-- ===== src/Calendar/Events.antt =====
-- `build_events` of app/calendar/ics.py: from the rows of a schedule to events and anomalies. Of an
-- event the model keeps the times, the recurrence and the summary; the place, the description, the
-- identifier and the sequence number are left out, but for the exceptions of making the identifier.
use stpt_query.Common.{
  ℕ, Bool, true, false, ◌&&◌, ◌||◌, Option, none, some, List, [], ◌∷◌, ◌++◌, ltb, leb, ◌+◌, ◌==◌,
  if◌then◌else◌, length,
}
use stpt_query.Calendar.Weeks.{Unicode, Parsed, done, data_error, ParsedWeeks, strip, parse_weeks}
use stpt_query.Calendar.Runs.{weekly_runs}
use stpt_query.Calendar.Dates.{Term, day_of, occurrence_dates}
use stpt_query.Calendar.Sets.{has}
use stpt_query.Calendar.Periods.{
  CalendarConfig, period_mark, before_mark, weekday_index, period_window, resolve_periods,
}

pub record Row : Type 0 where
  pub day_code : List ℕ
  pub time_name : List ℕ
  pub time_code : List ℕ
  pub week_text : List ℕ
  pub course_name : List ℕ
  pub teacher_name : List ℕ
  pub semester : List ℕ
  pub course_code : List ℕ

-- `first` and `count` are the first day and the `COUNT` of the rule `FREQ=WEEKLY`.
pub record CalendarEvent : Type 0 where
  pub first : ℕ
  pub start : ℕ
  pub end : ℕ
  pub count : ℕ
  pub summary : List ℕ

pub data Anomaly : Type 0 where
  weekday_unmapped : List ℕ → Anomaly
  periods_invalid : Anomaly
  conflict : List ℕ → Anomaly
  no_window : List ℕ → Anomaly
  weeks_invalid : Anomaly

-- A result, or an exception: a `ScheduleDataError`, the `ValueError` of `int` for too many digits, the
-- `OverflowError` of a date after 9999-12-31, or the `UnicodeEncodeError` of a lone surrogate.
pub data Outcome {ℓ} (A : Type ℓ) : Type ℓ where
  returned : A → Outcome A
  schedule_error : Outcome A
  value_error : Outcome A
  overflow_error : Outcome A
  encode_error : Outcome A

pub record Built : Type 0 where
  pub events : List CalendarEvent
  pub anomalies : List Anomaly

abbrev pub or_course : List ℕ → List ℕ
or_course [] = 35838 ∷ 31243 ∷ []
or_course (c ∷ cs) = c ∷ cs

-- The course, and the teacher in wide brackets where there is one.
abbrev summary_of : List ℕ → List ℕ → List ℕ
summary_of course [] = course
summary_of course (t ∷ ts) = course ++ (65288 ∷ ((t ∷ ts) ++ (65289 ∷ [])))

abbrev pub row_summary : Unicode → Row → List ℕ
row_summary u row =
    summary_of (or_course (strip u.space row.course_name)) (strip u.space row.teacher_name)

-- The event of one weekly run.
abbrev event_of : ℕ × ℕ → List ℕ → List ℕ → List CalendarEvent
event_of window text [] = []
event_of (s, e) text (d ∷ ds) =
    record { first = d; start = s; end = e; count = length (d ∷ ds); summary = text } ∷ []

abbrev pub events_of : ℕ × ℕ → List ℕ → List (List ℕ) → List CalendarEvent
events_of window text [] = []
events_of window text (run ∷ runs) = event_of window text run ++ events_of window text runs

abbrev pub add_anomaly : Anomaly → Built → Built
add_anomaly a b = record { events = b.events; anomalies = b.anomalies ++ (a ∷ []) }

abbrev pub add_conflict : Bool → List ℕ → Built → Built
add_conflict true periods b = add_anomaly (conflict periods) b
add_conflict false periods b = b

-- Digits in a row, of which `n` have been read, are more than `int` takes.
abbrev pub too_long : Unicode → ℕ → List ℕ → Bool
too_long u n [] = ltb 4300 n
too_long u n (c ∷ cs) = elim (u.digit_of c) [
  | none ↦ ltb 4300 n || too_long u 0 cs
  | some d ↦ too_long u (n + 1) cs
]

-- The call of `int` in `parse_period_numbers` raises.
abbrev pub long_number : Unicode → List ℕ → Bool
long_number u name =
    let text = strip u.space name in has period_mark text && too_long u 0 (before_mark text)

-- `date.max`
abbrev pub last_date : ℕ
last_date = 3652059

-- The day of one of the weeks is no date.
abbrev pub overflows : Term → ℕ → List ℕ → Bool
overflows t weekday [] = false
overflows t weekday (w ∷ ws) = ltb last_date (day_of t weekday w) || overflows t weekday ws

abbrev is_surrogate : ℕ → Bool
is_surrogate c = leb 55296 c && leb c 57343

abbrev has_surrogate : List ℕ → Bool
has_surrogate [] = false
has_surrogate (c ∷ cs) = is_surrogate c || has_surrogate cs

abbrev or_else : List ℕ → List ℕ → List ℕ
or_else [] other = other
or_else (c ∷ cs) other = c ∷ cs

-- One of the texts that `stable_id` encodes cannot be encoded.
abbrev pub unencodable : Unicode → Term → Row → Bool
unencodable u t row =
    has_surrogate (or_else row.semester t.semester)
    || has_surrogate row.course_code
    || has_surrogate (or_course (strip u.space row.course_name))
    || has_surrogate row.day_code

-- The events of the dates; `stable_id` is called for each event.
abbrev pub add_events : Unicode → Term → Row → ℕ × ℕ → List ℕ → Built → Outcome Built
add_events u t row window [] b = returned b
add_events u t row window (day ∷ days) b =
    if unencodable u t row
    then encode_error
    else returned (record {
      events = b.events ++ events_of window (row_summary u row) (weekly_runs (day ∷ days));
      anomalies = b.anomalies;
    })

-- From the weeks that were read to the events of a row; `occurrence_dates` may raise.
abbrev pub add_dates : Unicode → Term → Row → ℕ → ℕ × ℕ → ParsedWeeks → Built → Outcome Built
add_dates u t row weekday window parsed b =
    if overflows t weekday parsed.weeks
    then overflow_error
    else elim (occurrence_dates t weekday parsed.weeks) [
      | data_error ↦ schedule_error
      | done dates ↦ add_events u t row window dates b
    ]

abbrev pub add_weeks : Unicode → Term → Row → ℕ → ℕ × ℕ → Parsed ParsedWeeks → Built → Outcome Built
add_weeks u t row weekday window data_error b = returned (add_anomaly weeks_invalid b)
add_weeks u t row weekday window (done parsed) b = add_dates u t row weekday window parsed b

abbrev pub add_window : Unicode → Term → Row → ℕ → List ℕ → Option (ℕ × ℕ) → Built → Outcome Built
add_window u t row weekday periods none b = returned (add_anomaly (no_window periods) b)
add_window u t row weekday periods (some window) b =
    add_weeks u t row weekday window (parse_weeks u row.week_text t.weeks) b

abbrev pub add_periods :
    Unicode → Term → CalendarConfig → Row → ℕ → Parsed (List ℕ × Bool) → Built → Outcome Built
add_periods u t cfg row weekday data_error b = returned (add_anomaly periods_invalid b)
add_periods u t cfg row weekday (done (periods, note)) b =
    add_window u t row weekday periods (period_window cfg periods) (add_conflict note periods b)

abbrev pub add_weekday : Unicode → Term → CalendarConfig → Row → Option ℕ → Built → Outcome Built
add_weekday u t cfg row none b = returned (add_anomaly (weekday_unmapped row.day_code) b)
add_weekday u t cfg row (some weekday) b =
    let rest =
      add_periods u t cfg row weekday (resolve_periods u row.time_name row.time_code cfg) b in
    if long_number u row.time_name then value_error else rest

-- The loop's body.
abbrev pub add_row : Unicode → Term → CalendarConfig → Row → Built → Outcome Built
add_row u t cfg row b = add_weekday u t cfg row (weekday_index u cfg row.day_code) b

abbrev pub add_rows : Unicode → Term → CalendarConfig → List Row → Built → Outcome Built
add_rows u t cfg [] b = returned b
add_rows u t cfg (row ∷ rows) b = elim (add_row u t cfg row b) [
  | returned b2 ↦ add_rows u t cfg rows b2
  | schedule_error ↦ schedule_error
  | value_error ↦ value_error
  | overflow_error ↦ overflow_error
  | encode_error ↦ encode_error
]

-- The order of the key `(start, summary)`: day, time, and the text by code points.
abbrev text_before : List ℕ → List ℕ → Bool
text_before [] [] = false
text_before [] (y ∷ ys) = true
text_before (x ∷ xs) [] = false
text_before (x ∷ xs) (y ∷ ys) = ltb x y || ((x == y) && text_before xs ys)

abbrev event_before : CalendarEvent → CalendarEvent → Bool
event_before a b =
    ltb a.first b.first
    || ((a.first == b.first)
        && (ltb a.start b.start || ((a.start == b.start) && text_before a.summary b.summary)))

abbrev insert_event : CalendarEvent → List CalendarEvent → List CalendarEvent
insert_event e [] = e ∷ []
insert_event e (f ∷ fs) =
    let rest = insert_event e fs in if event_before f e then f ∷ rest else (e ∷ f ∷ fs)

-- A stable sort, as `list.sort` is.
abbrev pub sort_events : List CalendarEvent → List CalendarEvent
sort_events [] = []
sort_events (e ∷ es) = insert_event e (sort_events es)

abbrev pub build_events : Unicode → Term → CalendarConfig → List Row → Outcome Built
build_events u t cfg rows = elim (add_rows u t cfg rows (record { events = []; anomalies = [] })) [
  | returned b ↦ returned (record { events = sort_events b.events; anomalies = b.anomalies })
  | schedule_error ↦ schedule_error
  | value_error ↦ value_error
  | overflow_error ↦ overflow_error
  | encode_error ↦ encode_error
]
