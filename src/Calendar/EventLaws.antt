-- ===== src/Calendar/EventLaws.antt =====
-- What `build_events` of app/calendar/ics.py makes of the rows.
use stpt_query.Common.{
  ℕ, ◌≤◌, ◌<◌, ◌≡◌, refl, ◌∙◌, sym, subst, inl, inr, List, [], ◌∷◌, ◌++◌, All, arith, Option-cases,
  false, some, if◌then◌else◌,
}
use stpt_query.Calendar.Sets.{sorted_set_same}
use stpt_query.Calendar.Weeks.{Unicode, done, ParsedWeeks, parse_weeks}
use stpt_query.Calendar.Parsing.{Parsed-cases}
use stpt_query.Calendar.WeekLaws.{parse_weeks_lem}
use stpt_query.Calendar.Runs.{weekly_runs, expand_all, recur, expand-weekly_runs}
use stpt_query.Calendar.Dates.{
  Term, day_of, occurrence_dates, occurrence_dates-total, occurrence_dates_lem, InTerm,
}
use stpt_query.Calendar.Periods.{CalendarConfig, weekday_index, period_window, resolve_periods}
use stpt_query.Calendar.Events.{
  Row, CalendarEvent, weekday_unmapped, periods_invalid, no_window, weeks_invalid, Outcome,
  returned, long_number, last_date, overflows, unencodable, add_events, Built, row_summary,
  events_of, add_anomaly, add_conflict, add_dates, add_weeks, add_window, add_periods, add_weekday,
  add_row, add_rows, sort_events, build_events,
}

-- The days on which the events recur.
abbrev pub days_of : List CalendarEvent → List ℕ
days_of [] = []
days_of (e ∷ es) = recur 7 e.first e.count ++ days_of es

events_of-days :
    (window : ℕ × ℕ) (text : List ℕ) (runs : List (List ℕ))
    → days_of (events_of window text runs) ≡ expand_all 7 runs
events_of-days window text [] = refl
events_of-days window text ([] ∷ runs) = events_of-days window text runs
events_of-days window text ((d ∷ ds) ∷ runs) = ground (arith, events_of-days window text runs)

both :
    (m : ℕ) (ws : List ℕ)
    → All (λ w. 0 < w) ws
    → All (λ w. w ≤ m) ws
    → All (λ w. (0 < w) × (w ≤ m)) ws
both m [] h k = tt
both m (w ∷ ws) h k = ((h.0, k.0), both m ws h.1 k.1)

-- Where `parse_weeks` succeeds with the term's bound, `occurrence_dates` does not raise.
parsed-dates :
    (u : Unicode) (t : Term) (text : List ℕ) (weekday : ℕ) (r : ParsedWeeks)
    → parse_weeks u text t.weeks ≡ done r
    → (days : List ℕ) × (occurrence_dates t weekday r.weeks ≡ done days)
parsed-dates u t text weekday r e =
    let s = parse_weeks_lem u text t.weeks r e in
    occurrence_dates-total t weekday r.weeks
      (subst (InTerm t) (sym (sorted_set_same r.weeks s.0)) (both t.weeks r.weeks s.1 s.2))

-- Where the weeks of a row can be read with the bound of the term, `occurrence_dates` succeeds
-- on them, and the events made for the row recur, run by run, on exactly the dates that it
-- gives, in the same order.
pub row_days :
    (u : Unicode) (t : Term) (row : Row) (weekday : ℕ) (window : ℕ × ℕ) (r : ParsedWeeks)
    → parse_weeks u row.week_text t.weeks ≡ done r
    → (days : List ℕ) × (occurrence_dates t weekday r.weeks ≡ done days)
      × (days_of (events_of window (row_summary u row) (weekly_runs days)) ≡ days)
row_days u t row weekday window r e =
    let d = parsed-dates u t row.week_text weekday r e in
    let asc = (occurrence_dates_lem t weekday r.weeks d.0 0 d.1).1 in
    (
      d.0,
      d.1,
      events_of-days window (row_summary u row) (weekly_runs d.0)
          ∙ expand-weekly_runs d.0
          ∙ sorted_set_same d.0 asc,
    )

-- No number of a row is too long for `int`, and the texts of its identifier can be encoded.
pub record IsOrdinary (u : Unicode) (t : Term) (row : Row) : Type 0 where
  pub short : long_number u row.time_name ≡ false
  pub encodable : unencodable u t row ≡ false

-- The days of the term's weeks, as the configuration numbers the days of a week, are dates.
abbrev pub IsDated : Unicode → Term → CalendarConfig → Type 0
IsDated u t cfg =
    (code : List ℕ) (weekday week : ℕ)
    → weekday_index u cfg code ≡ some weekday
    → week ≤ t.weeks
    → day_of t weekday week ≤ last_date

overflows-not :
    (t : Term) (weekday : ℕ) (ws : List ℕ)
    → ((week : ℕ) → week ≤ t.weeks → day_of t weekday week ≤ last_date)
    → All (λ w. w ≤ t.weeks) ws
    → overflows t weekday ws ≡ false
overflows-not t weekday [] h k = refl
overflows-not t weekday (w ∷ ws) h k = ground (arith, h w k.0, overflows-not t weekday ws h k.1)

-- There is no exception.
abbrev IsReturned : Outcome Built → Type 0
IsReturned o = (b : Built) × (o ≡ returned b)

module _ (u : Unicode) (t : Term) (cfg : CalendarConfig) where
  add_events-total :
      (row : Row) (window : ℕ × ℕ) (days : List ℕ) (b : Built)
      → unencodable u t row ≡ false
      → IsReturned (add_events u t row window days b)
  add_events-total row window [] b h = (b, refl)
  add_events-total row window (d ∷ ds) b h = (
    record {
      events = b.events ++ events_of window (row_summary u row) (weekly_runs (d ∷ ds));
      anomalies = b.anomalies;
    },
    rw (h, if◌then◌else◌) refl,
  )

  -- With the weeks that `parse_weeks` returned, the rest of the loop's body does not raise.
  add_dates-total :
      (row : Row) (weekday : ℕ) (window : ℕ × ℕ) (r : ParsedWeeks) (b : Built)
      → IsOrdinary u t row
      → ((week : ℕ) → week ≤ t.weeks → day_of t weekday week ≤ last_date)
      → parse_weeks u row.week_text t.weeks ≡ done r
      → IsReturned (add_dates u t row weekday window r b)
  add_dates-total row weekday window r b o h e =
      let d = parsed-dates u t row.week_text weekday r e in
      let s = parse_weeks_lem u row.week_text t.weeks r e in
      rw (overflows-not t weekday r.weeks h s.2, if◌then◌else◌, d.1)
        (add_events-total row window d.0 b o.encodable)

  add_weeks-total :
      (row : Row) (weekday : ℕ) (window : ℕ × ℕ) (b : Built)
      → IsOrdinary u t row
      → ((week : ℕ) → week ≤ t.weeks → day_of t weekday week ≤ last_date)
      → IsReturned (add_weeks u t row weekday window (parse_weeks u row.week_text t.weeks) b)
  add_weeks-total row weekday window b o h =
      elim (Parsed-cases (parse_weeks u row.week_text t.weeks)) [
        | inl x ↦ (add_anomaly weeks_invalid b, rw (x, add_weeks) refl)
        | inr (r, x) ↦ rw (x, add_weeks) (add_dates-total row weekday window r b o h x)
      ]

  add_periods-total :
      (row : Row) (weekday : ℕ) (b : Built)
      → IsOrdinary u t row
      → ((week : ℕ) → week ≤ t.weeks → day_of t weekday week ≤ last_date)
      → IsReturned
          (add_periods u t cfg row weekday (resolve_periods u row.time_name row.time_code cfg) b)
  add_periods-total row weekday b o h =
      elim (Parsed-cases (resolve_periods u row.time_name row.time_code cfg)) [
        | inl p ↦ (add_anomaly periods_invalid b, rw (p, add_periods) refl)
        | inr (p, q) ↦ elim (Option-cases (period_window cfg p.0)) [
          | inl v ↦ (
            add_anomaly (no_window p.0) (add_conflict p.1 p.0 b),
            rw (q, add_periods, v, add_window) refl,
          )
          | inr (window, v) ↦
              rw (q, add_periods, v, add_window)
                (add_weeks-total row weekday window (add_conflict p.1 p.0 b) o h)
        ]
      ]

  add_row-total :
      (row : Row) (b : Built)
      → IsOrdinary u t row
      → IsDated u t cfg
      → IsReturned (add_row u t cfg row b)
  add_row-total row b o h = elim (Option-cases (weekday_index u cfg row.day_code)) [
    | inl w ↦ (add_anomaly (weekday_unmapped row.day_code) b, rw (w, add_weekday) refl)
    | inr (weekday, w) ↦
        rw (w, add_weekday, o.short, if◌then◌else◌)
          (add_periods-total row weekday b o (λ week k. h row.day_code weekday week w k))
  ]

  add_rows-total :
      (rows : List Row) (b : Built)
      → All (IsOrdinary u t) rows
      → IsDated u t cfg
      → IsReturned (add_rows u t cfg rows b)
  add_rows-total [] b o h = (b, refl)
  add_rows-total (row ∷ rows) b o h =
      let r = add_row-total row b o.0 h in
      let s = add_rows-total rows r.0 o.1 h in (s.0, ground (arith, r.1, s.1))

  -- `build_events` returns events and anomalies, whatever the weeks, periods and days of the
  -- rows say, provided that no row has a number of more than 4300 digits in its periods or a
  -- lone surrogate in a text that its identifier is made of, and that the days of the term's
  -- weeks are not after 9999-12-31.
  pub build_events-total :
      (rows : List Row)
      → All (IsOrdinary u t) rows
      → IsDated u t cfg
      → (b : Built) × (build_events u t cfg rows ≡ returned b)
  build_events-total rows o h =
      let s = add_rows-total rows (record { events = []; anomalies = [] }) o h in
      (
        record { events = sort_events (s.0.events); anomalies = s.0.anomalies },
        rw (s.1, build_events) refl,
      )
