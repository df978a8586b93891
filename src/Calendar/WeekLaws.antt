-- ===== src/Calendar/WeekLaws.antt =====
-- The theorems on `parse_weeks` of app/calendar/rules.py.
use stpt_query.Common.{
  ◌↔◌, ℕ, ◌≤◌, ◌<◌, ◌≡◌, ◌∙◌, ◌≢◌, inl, inr, refl, true, false, ◌&&◌, Option, none, some, List, [],
  ◌∷◌, All, ltb, if◌then◌else◌, arith, Bool-cases,
}
use stpt_query.Calendar.Sets.{has, Ascending}
use stpt_query.Calendar.Weeks.{
  dash, Unicode, Parity, odd, even, odd_mark, even_mark, done, ParsedWeeks, remove, split_segments,
  named_in, read_segments, max_of, fits_parity, keep_parity, finish_weeks, parse_marks, raw_weeks,
  parse_weeks,
}
use stpt_query.Calendar.Segment.{NamedIn, NamedIn-named_in, named_in-NamedIn}
use stpt_query.Calendar.Parsing.{
  Parsed-cases, List-cases, read_segments-WeekSet, has-read_segments, keep_parity-All,
  keep_parity-Ascending, fits-keep_parity, has-keep_parity, All-max_of, keep_parity-bound,
}

-- The weeks are in order without duplicates, all of them of the term and of the parity, and not
-- none at all.
abbrev pub IsSound : ℕ → ParsedWeeks → Type 0
IsSound m r =
    Ascending r.weeks
    × All (λ w. 0 < w) r.weeks
    × All (λ w. w ≤ m) r.weeks
    × All (λ w. fits_parity r.parity w ≡ true) r.weeks
    × (r.weeks ≢ [])

cons_ne : (x : ℕ) (xs ys : List ℕ) → ys ≡ x ∷ xs → ys ≢ []
cons_ne x xs ys e = λ p. ground arith

-- What the last part of the function returns for the set that the loop filled.
kept :
    (p : Option Parity) (m : ℕ) (ws : List ℕ) (r : ParsedWeeks)
    → finish_weeks p m ws ≡ done r
    → (max_of ws ≤ m) × (r.weeks ≡ keep_parity p ws) × (r.parity ≡ p) × (r.weeks ≢ [])
kept p m [] r e = absurd (ground arith)
kept p m (w ∷ ws) r e = elim (Bool-cases (ltb m (max_of (w ∷ ws)))) [
  | inl b ↦ absurd (ground arith)
  | inr b ↦ elim (List-cases (keep_parity p (w ∷ ws))) [
    | inl k ↦ absurd (ground arith)
    | inr (v, vs, k) ↦
        (ground arith, ground arith, ground arith, cons_ne v vs r.weeks (ground arith))
  ]
]

finish_weeks_lem :
    (p : Option Parity) (m : ℕ) (ws : List ℕ) (r : ParsedWeeks)
    → finish_weeks p m ws ≡ done r
    → Ascending ws × All (λ w. 0 < w) ws
    → IsSound m r
finish_weeks_lem p m ws r e h =
    let k = kept p m ws r e in
    rw (k.1, k.2, keep_parity)
      (
        keep_parity-Ascending p ws h.0,
        keep_parity-All 0 p ws h.1,
        keep_parity-bound m p ws (All-max_of m ws k.0),
        fits-keep_parity p ws,
        λ q. k.3 (k.1 ∙ q),
      )

-- The parity that the marks of a text give, and the text without the marks.
abbrev pub marked : List ℕ → Option Parity
marked raw = if has odd_mark raw then some odd else if has even_mark raw then some even else none

abbrev pub unmarked : List ℕ → List ℕ
unmarked raw = remove even_mark (remove odd_mark raw)

remove_absent : (m : ℕ) (cs : List ℕ) → has m cs ≡ false → remove m cs ≡ cs
remove_absent m [] h = refl
remove_absent m (c ∷ cs) h = ground (arith, remove_absent m cs)

parse_marks_lem :
    (raw : List ℕ) (p : Option Parity) (rest : List ℕ)
    → parse_marks raw ≡ done (p, rest)
    → (p ≡ marked raw) × (rest ≡ unmarked raw)
parse_marks_lem raw p rest e = ground (
  arith,
  remove_absent odd_mark raw,
  remove_absent even_mark raw,
  remove_absent even_mark (remove odd_mark raw),
)

-- A run that succeeds went through all three parts.
parts :
    (u : Unicode) (text : List ℕ) (m : ℕ) (r : ParsedWeeks)
    → parse_weeks u text m ≡ done r
    → (ws : List ℕ) × (read_segments u (split_segments (unmarked (raw_weeks u text))) [] ≡ done ws)
      × (finish_weeks (marked (raw_weeks u text)) m ws ≡ done r)
parts u text m r e = elim (List-cases (raw_weeks u text)) [
  | inl n ↦ absurd (ground arith)
  | inr (c, cs, n) ↦ elim (Parsed-cases (parse_marks (c ∷ cs))) [
    | inl d ↦ absurd (ground arith)
    | inr (q, d) ↦ elim (Parsed-cases (read_segments u (split_segments (q.1)) [])) [
      | inl x ↦ absurd (ground arith)
      | inr (ws, x) ↦ (
        ws,
        ground (arith, parse_marks_lem (c ∷ cs) (q.0) (q.1) d),
        ground (arith, parse_marks_lem (c ∷ cs) (q.0) (q.1) d),
      )
    ]
  ]
]

-- Where `parse_weeks` succeeds, the weeks are in ascending order without duplicates, from 1 to
-- the greatest week, of the parity that is returned with them, and there is at least one.
pub parse_weeks_lem :
    (u : Unicode) (text : List ℕ) (max_week : ℕ) (r : ParsedWeeks)
    → parse_weeks u text max_week ≡ done r
    → IsSound max_week r
parse_weeks_lem u text max_week r e =
    let p = parts u text max_week r e in
    finish_weeks_lem (marked (raw_weeks u text)) max_week p.0 r p.2
      (read_segments-WeekSet u (split_segments (unmarked (raw_weeks u text))) [] p.0 p.1 (tt, tt))

-- Where `parse_weeks` succeeds and the dash is no digit, the parity is the one that the text is
-- marked with, and a week is among the weeks exactly if some segment of the text without its
-- marks names it and it is of that parity: a segment is a number of one or two digits, which
-- names this week, or two such numbers with a dash between them, which name the weeks from the
-- first to the second.
pub has-parse_weeks :
    (u : Unicode) (text : List ℕ) (max_week : ℕ) (r : ParsedWeeks) (w : ℕ)
    → u.digit_of dash ≡ none
    → parse_weeks u text max_week ≡ done r
    → (r.parity ≡ marked (raw_weeks u text))
      × ((has w r.weeks ≡ true) ↔ (
          NamedIn u w (split_segments (unmarked (raw_weeks u text)))
          × (fits_parity r.parity w ≡ true)))
has-parse_weeks u text max_week r w plain e =
    let p = parts u text max_week r e in
    let k = kept (marked (raw_weeks u text)) max_week p.0 r p.2 in
    let segs = split_segments (unmarked (raw_weeks u text)) in
    let told : has w r.weeks ≡ (named_in u w segs && fits_parity r.parity w) = ground (
      arith,
      k,
      has-keep_parity w (marked (raw_weeks u text)) p.0,
      has-read_segments u w segs [] p.0 p.1,
    ) in
    (
      k.2,
      (
        λ h. (NamedIn-named_in u plain w segs (ground (arith, told)), ground (arith, told)),
        λ n. ground (arith, told, named_in-NamedIn u plain w segs n.0, n.1),
      ),
    )
