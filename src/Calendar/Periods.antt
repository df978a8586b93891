-- ===== src/Calendar/Periods.antt =====
-- `parse_period_numbers` and `resolve_periods` of app/calendar/rules.py, with `block_periods`,
-- `weekday_index` and `period_window` of app/calendar/config.py. A time of day `HH:MM` is its
-- minutes since midnight, in whose order the texts are too; a weekday token is its index.
use stpt_query.Common.{
  ℕ, suc, zero, ◌+◌, ◌-◌, ◌*◌, min, max, Bool, true, false, ◌&&◌, Option, none, some, List, [], ◌∷◌,
  ◌==◌, if◌then◌else◌, length,
}
use stpt_query.Calendar.Sets.{has, sorted_set}
use stpt_query.Calendar.Weeks.{Unicode, Parsed, done, data_error, strip}

-- What the configuration says when a course's periods lie outside its block.
pub data Conflict : Type 0 where
  trust_course : Conflict
  skip : Conflict

pub record CalendarConfig : Type 0 where
  pub periods : List (ℕ × (ℕ × ℕ))
  pub block_codes : List (List ℕ × List ℕ)
  pub day_code_map : List (List ℕ × ℕ)
  pub on_conflict : Conflict

abbrev pub same : List ℕ → List ℕ → Bool
same [] [] = true
same [] (y ∷ ys) = false
same (x ∷ xs) [] = false
same (x ∷ xs) (y ∷ ys) = (x == y) && same xs ys

abbrev pub find_text {ℓ} : {A : Type ℓ} → List (List ℕ × A) → List ℕ → Option A
find_text [] k = none
find_text ((k2, a) ∷ rest) k = let later = find_text rest k in if same k2 k then some a else later

abbrev pub find_number {ℓ} : {A : Type ℓ} → List (ℕ × A) → ℕ → Option A
find_number [] k = none
find_number ((k2, a) ∷ rest) k = let later = find_number rest k in if k2 == k then some a else later

abbrev pub block_periods : Unicode → CalendarConfig → List ℕ → List ℕ
block_periods u cfg time_code = elim (find_text cfg.block_codes (strip u.space time_code)) [
  | none ↦ []
  | some ps ↦ ps
]

abbrev pub weekday_index : Unicode → CalendarConfig → List ℕ → Option ℕ
weekday_index u cfg day_code = find_text cfg.day_code_map (strip u.space day_code)

-- The windows of the periods that have one.
abbrev pub windows : CalendarConfig → List ℕ → List (ℕ × ℕ)
windows cfg [] = []
windows cfg (p ∷ ps) =
    let rest = windows cfg ps in
    elim (find_number cfg.periods p) [ none ↦ rest | some w ↦ w ∷ rest ]

abbrev pub widen : ℕ × ℕ → List (ℕ × ℕ) → ℕ × ℕ
widen w [] = w
widen (s, e) ((s2, e2) ∷ ws) = widen (min s s2, max e e2) ws

abbrev pub earliest_latest : List (ℕ × ℕ) → Option (ℕ × ℕ)
earliest_latest [] = none
earliest_latest (w ∷ ws) = some (widen w ws)

abbrev pub period_window : CalendarConfig → List ℕ → Option (ℕ × ℕ)
period_window cfg ps = earliest_latest (windows cfg ps)

-- `int(x) for x in PERIOD_NUM_RE.findall(head)`; the second argument is the number being read.
abbrev pub numbers_from : Unicode → Option ℕ → List ℕ → List ℕ
numbers_from u none [] = []
numbers_from u (some n) [] = n ∷ []
numbers_from u none (c ∷ cs) = elim (u.digit_of c) [
  | none ↦ numbers_from u none cs
  | some d ↦ numbers_from u (some d) cs
]
numbers_from u (some n) (c ∷ cs) = elim (u.digit_of c) [
  | none ↦ n ∷ numbers_from u none cs
  | some d ↦ numbers_from u (some (n * 10 + d)) cs
]

abbrev pub period_mark : ℕ
period_mark = 33410

-- `text.split("节")[0]`
abbrev pub before_mark : List ℕ → List ℕ
before_mark [] = []
before_mark (c ∷ cs) = let rest = before_mark cs in if c == period_mark then [] else (c ∷ rest)

-- `range(start, start + n)` as a list
abbrev pub range_of : ℕ → ℕ → List ℕ
range_of start zero = []
range_of start (suc n) = start ∷ range_of (start + 1) n

-- `list(dict.fromkeys(numbers))`: the first argument holds the numbers seen.
abbrev pub first_ones : List ℕ → List ℕ → List ℕ
first_ones seen [] = []
first_ones seen (x ∷ xs) =
    let old = first_ones seen xs in
    let new = first_ones (x ∷ seen) xs in if has x seen then old else (x ∷ new)

abbrev pub least_of : ℕ → List ℕ → ℕ
least_of x [] = x
least_of x (y ∷ ys) = min x (least_of y ys)

abbrev pub greatest_of : ℕ → List ℕ → ℕ
greatest_of x [] = x
greatest_of x (y ∷ ys) = max x (greatest_of y ys)

-- What is returned for the numbers found.
abbrev pub arrange : List ℕ → List ℕ
arrange [] = []
arrange (x ∷ []) = x ∷ []
arrange (x ∷ y ∷ ys) =
    let low = least_of x (y ∷ ys) in
    let high = greatest_of x (y ∷ ys) in
    if high - low + 1 == length (sorted_set (x ∷ y ∷ ys))
    then range_of low (high + 1 - low)
    else first_ones [] (x ∷ y ∷ ys)

abbrev pub period_numbers : Unicode → List ℕ → List ℕ
period_numbers u text = if has period_mark text then numbers_from u none (before_mark text) else []

abbrev pub parse_period_numbers : Unicode → List ℕ → List ℕ
parse_period_numbers u name = arrange (period_numbers u (strip u.space name))

abbrev pub subset : List ℕ → List ℕ → Bool
subset [] ys = true
subset (x ∷ xs) ys = has x ys && subset xs ys

-- What is done with the course's periods and the block's; the flag says that there is a note.
abbrev pub choose_periods : Conflict → List ℕ → List ℕ → Parsed (List ℕ × Bool)
choose_periods c [] [] = data_error
choose_periods c [] (b ∷ bs) = done (b ∷ bs, false)
choose_periods c (p ∷ ps) [] = done (p ∷ ps, false)
choose_periods c (p ∷ ps) (b ∷ bs) =
    if subset (p ∷ ps) (b ∷ bs)
    then done (p ∷ ps, false)
    else elim c [ skip ↦ data_error | trust_course ↦ done (p ∷ ps, true) ]

abbrev pub resolve_periods : Unicode → List ℕ → List ℕ → CalendarConfig → Parsed (List ℕ × Bool)
resolve_periods u course_time_name time_code cfg =
    choose_periods cfg.on_conflict (parse_period_numbers u course_time_name)
      (block_periods u cfg time_code)
