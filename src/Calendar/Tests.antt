-- ===== src/Calendar/Tests.antt =====
-- Runs of the calendar on texts as the school's system gives them.
use stpt_query.Common.{
  ◌↔◌, true, ℕ, ◌-◌, ◌≤◌, ◌≡◌, refl, ◌&&◌, not, none, some, List, [], ◌∷◌, All, leb, arith,
  Bool-cases, inl, inr, ◌==◌, if◌then◌else◌,
}
use stpt_query.Calendar.Sets.{has, sorted_set, Ascending}
use stpt_query.Calendar.Runs.{weekly_runs, expand_all, expand-weekly_runs}
use stpt_query.Calendar.Weeks.{
  Unicode, strip, odd, done, data_error, ParsedWeeks, split_segments, fits_parity, raw_weeks,
  parse_weeks,
}
use stpt_query.Calendar.Segment.{NamedIn}
use stpt_query.Calendar.WeekLaws.{IsSound, marked, unmarked, parse_weeks_lem, has-parse_weeks}
use stpt_query.Calendar.Dates.{
  Term, InTerm, occurrence_dates, is_day_of, left_out, occurrence_dates_lem,
}
use stpt_query.Calendar.Periods.{CalendarConfig, same, find_text, trust_course}
use stpt_query.Calendar.Text.{bytes, escape, unescape, line_feeds, fold, unfold_text, lines_of}
use stpt_query.Calendar.Escape.{unescape-escape}
use stpt_query.Calendar.Fold.{OneLine, fold_bound, unfold_text-fold}
use stpt_query.Calendar.Events.{Row, Built, returned, build_events, events_of, row_summary}
use stpt_query.Calendar.EventLaws.{days_of, row_days, IsDated, build_events-total}

-- The digits and the space of ASCII.
abbrev ascii : Unicode
ascii = record {
  digit_of = λ c. if leb 48 c && leb c 57 then some (c - 48) else none;
  space = λ c. c == 32;
}

-- `1-4;6单`
abbrev week_text : List ℕ
week_text = 49 ∷ 45 ∷ 52 ∷ 59 ∷ 54 ∷ 21333 ∷ []

abbrev odd_weeks : ParsedWeeks
odd_weeks = record { weeks = 1 ∷ 3 ∷ []; parity = some odd }

parsed_odd : parse_weeks ascii week_text 18 ≡ done odd_weeks
parsed_odd = refl

too_late : parse_weeks ascii week_text 5 ≡ data_error
too_late = refl

parse_weeks_lem_example : IsSound 18 odd_weeks
parse_weeks_lem_example = parse_weeks_lem ascii week_text 18 odd_weeks refl

has-parse_weeks_example :
    (odd_weeks.parity ≡ marked (raw_weeks ascii week_text))
    × ((has 3 odd_weeks.weeks ≡ true) ↔ (
        NamedIn ascii 3 (split_segments (unmarked (raw_weeks ascii week_text)))
        × (fits_parity odd_weeks.parity 3 ≡ true)))
has-parse_weeks_example = has-parse_weeks ascii week_text 18 odd_weeks 3 refl refl

expand-weekly_runs_example :
    expand_all 7 (weekly_runs (100 ∷ 114 ∷ 107 ∷ 128 ∷ []))
    ≡ sorted_set (100 ∷ 114 ∷ 107 ∷ 128 ∷ [])
expand-weekly_runs_example = expand-weekly_runs (100 ∷ 114 ∷ 107 ∷ 128 ∷ [])

-- Eighteen weeks, with the first day of teaching on the first Tuesday and one excluded date.
abbrev term : Term
term = record {
  monday = 1000;
  teaching_start = 1001;
  weeks = 18;
  exdates = 1014 ∷ [];
  semester = [];
}

monday_dates : occurrence_dates term 0 (1 ∷ 2 ∷ 3 ∷ 4 ∷ []) ≡ done (1007 ∷ 1021 ∷ [])
monday_dates = refl

occurrence_dates_lem_example :
    InTerm term (sorted_set (1 ∷ 2 ∷ 3 ∷ 4 ∷ []))
    × Ascending (1007 ∷ 1021 ∷ [])
    × (has 1014 (1007 ∷ 1021 ∷ [])
        ≡ (is_day_of term 0 1014 (sorted_set (1 ∷ 2 ∷ 3 ∷ 4 ∷ [])) && not (left_out term 1014)))
occurrence_dates_lem_example =
    occurrence_dates_lem term 0 (1 ∷ 2 ∷ 3 ∷ 4 ∷ []) (1007 ∷ 1021 ∷ []) 1014 refl

-- `第3-4节`
abbrev period_text : List ℕ
period_text = 31532 ∷ 51 ∷ 45 ∷ 52 ∷ 33410 ∷ []

unescape-escape_example :
    unescape (escape (97 ∷ 59 ∷ 92 ∷ 13 ∷ 10 ∷ 98 ∷ []))
    ≡ line_feeds (97 ∷ 59 ∷ 92 ∷ 13 ∷ 10 ∷ 98 ∷ [])
unescape-escape_example = unescape-escape (97 ∷ 59 ∷ 92 ∷ 13 ∷ 10 ∷ 98 ∷ [])

-- Thirty characters of three bytes each.
abbrev ten : List ℕ → List ℕ
ten cs = 31532 ∷ 31532 ∷ 31532 ∷ 31532 ∷ 31532 ∷ 31532 ∷ 31532 ∷ 31532 ∷ 31532 ∷ 31532 ∷ cs

abbrev long_line : List ℕ
long_line = ten (ten (ten []))

abbrev ten-OneLine : (cs : List ℕ) → OneLine cs → OneLine (ten cs)
ten-OneLine cs h = (refl, (refl, (refl, (refl, (refl, (refl, (refl, (refl, (refl, (refl, h))))))))))

abbrev long_line-OneLine : OneLine long_line
long_line-OneLine = ten-OneLine (ten (ten [])) (ten-OneLine (ten []) (ten-OneLine [] tt))

fold_bound_example : All (λ l. bytes l ≤ 75) (lines_of (fold long_line))
fold_bound_example = fold_bound long_line long_line-OneLine

unfold_text-fold_example : unfold_text (fold long_line) ≡ long_line
unfold_text-fold_example = unfold_text-fold long_line long_line-OneLine

abbrev config : CalendarConfig
config = record {
  periods = (3, (600, 645)) ∷ (4, (655, 700)) ∷ [];
  block_codes = [];
  day_code_map = ((50 ∷ []), 0) ∷ [];
  on_conflict = trust_course;
}

abbrev row : Row
row = record {
  day_code = 50 ∷ [];
  time_name = period_text;
  time_code = [];
  week_text = week_text;
  course_name = 97 ∷ [];
  teacher_name = [];
  semester = [];
  course_code = [];
}

row_days_example :
    (days : List ℕ) × (occurrence_dates term 0 odd_weeks.weeks ≡ done days)
    × (days_of (events_of (600, 700) (row_summary ascii row) (weekly_runs days)) ≡ days)
row_days_example = row_days ascii term row 0 (600, 700) odd_weeks refl

-- The one weekday of the configuration is the first.
only_day :
    (code : List ℕ) (weekday : ℕ) → find_text config.day_code_map code ≡ some weekday → weekday ≡ 0
only_day code weekday h = elim (Bool-cases (same (50 ∷ []) code)) [
  | inl s ↦ ground arith
  | inr s ↦ ground arith
]

in_calendar : IsDated ascii term config
in_calendar code weekday week h k = omega (arith, only_day (strip ascii.space code) weekday h, k)

build_events-total_example : (b : Built) × (build_events ascii term config (row ∷ []) ≡ returned b)
build_events-total_example =
    build_events-total ascii term config (row ∷ []) (record { short = refl; encodable = refl }, tt)
      in_calendar
