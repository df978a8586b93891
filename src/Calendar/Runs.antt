-- ===== src/Calendar/Runs.antt =====
-- `contiguous_runs` of app/calendar/rules.py and `weekly_runs` of app/calendar/ics.py: a sorted
-- list cut into runs of a fixed step. Dates are day ordinals, as `date.toordinal` counts them.
use stpt_query.Common.{
  append_assoc, append_nil, ℕ, zero, suc, ◌+◌, ◌≡◌, ◌∙◌, refl, Bool, true, false, List, [], ◌∷◌,
  ◌++◌, All, ◌==◌, if◌then◌else◌, arith, length,
}
use stpt_query.Calendar.Sets.{sorted_set}

-- `runs[-1][-1]` plus the step is the next value
abbrev ends_before : ℕ → List ℕ → ℕ → Bool
ends_before k [] w = false
ends_before k (x ∷ []) w = w == x + k
ends_before k (x ∷ y ∷ r) w = ends_before k (y ∷ r) w

-- The loop's body: append to the last run, or begin a new one.
abbrev pub add_to_runs : ℕ → List (List ℕ) → ℕ → List (List ℕ)
add_to_runs k [] w = (w ∷ []) ∷ []
add_to_runs k (r ∷ []) w = if ends_before k r w then (r ++ (w ∷ [])) ∷ [] else (r ∷ (w ∷ []) ∷ [])
add_to_runs k (r ∷ s ∷ rs) w = r ∷ add_to_runs k (s ∷ rs) w

abbrev pub runs_from : ℕ → List (List ℕ) → List ℕ → List (List ℕ)
runs_from k rs [] = rs
runs_from k rs (w ∷ ws) = runs_from k (add_to_runs k rs w) ws

abbrev pub contiguous_runs : List ℕ → List (List ℕ)
contiguous_runs weeks = runs_from 1 [] (sorted_set weeks)

abbrev pub weekly_runs : List ℕ → List (List ℕ)
weekly_runs dates = runs_from 7 [] (sorted_set dates)

abbrev pub flatten : List (List ℕ) → List ℕ
flatten [] = []
flatten (r ∷ rs) = r ++ flatten rs

-- The days of a recurrence of `n` occurrences, each `k` days after the one before.
abbrev pub recur : ℕ → ℕ → ℕ → List ℕ
recur k x zero = []
recur k x (suc n) = x ∷ recur k (x + k) n

-- A run is its recurrence: its first day, its step and its length say all of it.
abbrev pub expand : ℕ → List ℕ → List ℕ
expand k [] = []
expand k (x ∷ xs) = recur k x (length (x ∷ xs))

abbrev pub expand_all : ℕ → List (List ℕ) → List ℕ
expand_all k [] = []
expand_all k (r ∷ rs) = expand k r ++ expand_all k rs

-- A run is not empty, and every value is `k` more than the one before.
abbrev pub IsRun : ℕ → List ℕ → Type 0
IsRun k [] = ⊥
IsRun k (x ∷ []) = Unit
IsRun k (x ∷ y ∷ r) = (y ≡ x + k) × IsRun k (y ∷ r)

-- The second run does not begin where the first could go on.
abbrev Gap : ℕ → List ℕ → List ℕ → Type 0
Gap k r [] = Unit
Gap k r (y ∷ ys) = ends_before k r y ≡ false

abbrev pub Gaps : ℕ → List (List ℕ) → Type 0
Gaps k [] = Unit
Gaps k (r ∷ []) = Unit
Gaps k (r ∷ s ∷ rs) = Gap k r s × Gaps k (s ∷ rs)

flatten-add :
    (k : ℕ) (rs : List (List ℕ)) (w : ℕ) → flatten (add_to_runs k rs w) ≡ flatten rs ++ (w ∷ [])
flatten-add k [] w = refl
flatten-add k (r ∷ []) w = ground (arith, append_nil r, append_nil (r ++ (w ∷ [])))
flatten-add k (r ∷ s ∷ rs) w =
    ground (arith, append_assoc r (flatten (s ∷ rs)) (w ∷ []), flatten-add k (s ∷ rs) w)

IsRun-snoc :
    (k : ℕ) (r : List ℕ) (w : ℕ) → IsRun k r → ends_before k r w ≡ true → IsRun k (r ++ (w ∷ []))
IsRun-snoc k [] w h e = absurd h
IsRun-snoc k (x ∷ []) w h e = ground arith
IsRun-snoc k (x ∷ y ∷ r) w h e = (h.0, IsRun-snoc k (y ∷ r) w h.1 e)

add-IsRun :
    (k : ℕ) (rs : List (List ℕ)) (w : ℕ) → All (IsRun k) rs → All (IsRun k) (add_to_runs k rs w)
add-IsRun k [] w h = (tt, tt)
add-IsRun k (r ∷ []) w h = ground (arith, IsRun-snoc k r w h.0)
add-IsRun k (r ∷ s ∷ rs) w h = (h.0, add-IsRun k (s ∷ rs) w h.1)

Gap-snoc : (k : ℕ) (r s : List ℕ) (w : ℕ) → IsRun k s → Gap k r s → Gap k r (s ++ (w ∷ []))
Gap-snoc k r [] w h g = absurd h
Gap-snoc k r (y ∷ ys) w h g = g

add-Gaps :
    (k : ℕ) (rs : List (List ℕ)) (w : ℕ)
    → All (IsRun k) rs
    → Gaps k rs
    → Gaps k (add_to_runs k rs w)
add-Gaps k [] w h g = tt
add-Gaps k (r ∷ []) w h g = ground arith
add-Gaps k (r ∷ s ∷ []) w h g = ground (arith, Gap-snoc k r s w h.1.0 g.0)
add-Gaps k (r ∷ s ∷ t ∷ rs) w h g = (g.0, add-Gaps k (s ∷ t ∷ rs) w h.1 g.1)

flatten-runs_from :
    (k : ℕ) (rs : List (List ℕ)) (ws : List ℕ) → flatten (runs_from k rs ws) ≡ flatten rs ++ ws
flatten-runs_from k rs [] = ground (arith, append_nil (flatten rs))
flatten-runs_from k rs (w ∷ ws) = ground (
  arith,
  flatten-runs_from k (add_to_runs k rs w) ws,
  flatten-add k rs w,
  append_assoc (flatten rs) (w ∷ []) ws,
)

runs_from-IsRun :
    (k : ℕ) (rs : List (List ℕ)) (ws : List ℕ)
    → All (IsRun k) rs
    → Gaps k rs
    → All (IsRun k) (runs_from k rs ws) × Gaps k (runs_from k rs ws)
runs_from-IsRun k rs [] h g = (h, g)
runs_from-IsRun k rs (w ∷ ws) h g =
    runs_from-IsRun k (add_to_runs k rs w) ws (add-IsRun k rs w h) (add-Gaps k rs w h g)

expand-IsRun : (k : ℕ) (r : List ℕ) → IsRun k r → expand k r ≡ r
expand-IsRun k [] h = absurd h
expand-IsRun k (x ∷ []) h = refl
expand-IsRun k (x ∷ y ∷ r) h = ground (arith, h.0, expand-IsRun k (y ∷ r) h.1)

expand_all_lem : (k : ℕ) (rs : List (List ℕ)) → All (IsRun k) rs → expand_all k rs ≡ flatten rs
expand_all_lem k [] h = refl
expand_all_lem k (r ∷ rs) h = ground (arith, expand-IsRun k r h.0, expand_all_lem k rs h.1)

-- The contiguous runs of any weeks, put together, are the weeks in order without duplicates; in
-- a run each week follows the one before, and no run begins with the week after the run before
-- it.
pub contiguous_runs_lem :
    (weeks : List ℕ)
    → (flatten (contiguous_runs weeks) ≡ sorted_set weeks)
      × All (IsRun 1) (contiguous_runs weeks)
      × Gaps 1 (contiguous_runs weeks)
contiguous_runs_lem weeks =
    let runs = runs_from-IsRun 1 [] (sorted_set weeks) tt tt in
    (flatten-runs_from 1 [] (sorted_set weeks), runs.0, runs.1)

-- Expanding every weekly run of some dates by its first day, its length and a step of seven
-- days, the way a rule `FREQ=WEEKLY;COUNT=n` recurs, gives exactly the dates in order without
-- duplicates.
pub expand-weekly_runs : (dates : List ℕ) → expand_all 7 (weekly_runs dates) ≡ sorted_set dates
expand-weekly_runs dates =
    expand_all_lem 7 (weekly_runs dates) ((runs_from-IsRun 7 [] (sorted_set dates) tt tt).0)
    ∙ flatten-runs_from 7 [] (sorted_set dates)
