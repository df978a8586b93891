-- ===== src/Calendar/Weeks.antt =====
-- `parse_weeks` of app/calendar/rules.py. A text is its code points, as in the source; what
-- Unicode says of them (the digits that `\d` matches and `int` reads, the white space that
-- `strip` removes) is the record `Unicode`.
use stpt_query.Common.{
  ℕ, suc, ◌+◌, ◌*◌, ◌%◌, ◌-◌, zero, max, Bool, true, false, ◌&&◌, ◌||◌, Option, none, some, List,
  [], ◌∷◌, ltb, leb, ◌==◌, if◌then◌else◌,
}
use stpt_query.Calendar.Sets.{has, insert}

pub record Unicode : Type 0 where
  pub digit_of : ℕ → Option ℕ
  pub space : ℕ → Bool

pub data Parity : Type 0 where
  odd : Parity
  even : Parity

pub record ParsedWeeks : Type 0 where
  pub weeks : List ℕ
  pub parity : Option Parity

pub data Parsed {ℓ} (A : Type ℓ) : Type ℓ where
  done : A → Parsed A
  data_error : Parsed A

-- The code points of the source's literals.
abbrev pub week_mark : ℕ
week_mark = 21608

abbrev pub odd_mark : ℕ
odd_mark = 21333

abbrev pub even_mark : ℕ
even_mark = 21452

abbrev pub dash : ℕ
dash = 45

-- `SEPARATORS` and the split at `;`: the comma, the enumeration comma and the wide forms
abbrev pub is_separator : ℕ → Bool
is_separator c = (c == 59) || (c == 44) || (c == 65292) || (c == 12289) || (c == 65307)

-- `text.replace(mark, "")`
abbrev pub remove : ℕ → List ℕ → List ℕ
remove m [] = []
remove m (c ∷ cs) = let rest = remove m cs in if c == m then rest else (c ∷ rest)

abbrev drop_spaces : (ℕ → Bool) → List ℕ → List ℕ
drop_spaces sp [] = []
drop_spaces sp (c ∷ cs) = let rest = drop_spaces sp cs in if sp c then rest else (c ∷ cs)

abbrev reverse_onto : List ℕ → List ℕ → List ℕ
reverse_onto acc [] = acc
reverse_onto acc (c ∷ cs) = reverse_onto (c ∷ acc) cs

-- `text.strip()`
abbrev pub strip : (ℕ → Bool) → List ℕ → List ℕ
strip sp cs = reverse_onto [] (drop_spaces sp (reverse_onto [] (drop_spaces sp cs)))

abbrev onto_first : ℕ → List (List ℕ) → List (List ℕ)
onto_first c [] = (c ∷ []) ∷ []
onto_first c (s ∷ ss) = (c ∷ s) ∷ ss

-- `text.translate(SEPARATORS).split(";")`
abbrev pub split_segments : List ℕ → List (List ℕ)
split_segments [] = [] ∷ []
split_segments (c ∷ cs) =
    let rest = split_segments cs in if is_separator c then ([] ∷ rest) else onto_first c rest

-- One or two digits, as `(\d{1,2})`, with the rest of the text.
abbrev pub second_digit : Unicode → ℕ → List ℕ → ℕ × List ℕ
second_digit u d [] = (d, [])
second_digit u d (c ∷ cs) = elim (u.digit_of c) [ none ↦ (d, c ∷ cs) | some e ↦ (d * 10 + e, cs) ]

abbrev pub two_digits : Unicode → List ℕ → Option (ℕ × List ℕ)
two_digits u [] = none
two_digits u (c ∷ cs) = elim (u.digit_of c) [ none ↦ none | some d ↦ some (second_digit u d cs) ]

-- The end of a segment: `$`, where the start is the end too, or `-` and one or two digits.
abbrev pub close_segment : ℕ → Option (ℕ × List ℕ) → Option (ℕ × ℕ)
close_segment s none = none
close_segment s (some (e, [])) = some (s, e)
close_segment s (some (e, (c ∷ cs))) = none

abbrev pub segment_end : Unicode → ℕ → List ℕ → Option (ℕ × ℕ)
segment_end u s [] = some (s, s)
segment_end u s (c ∷ cs) = if c == dash then close_segment s (two_digits u cs) else none

-- `WEEK_SEGMENT_RE.match(segment)` with `int` of its groups
abbrev pub match_segment : Unicode → List ℕ → Option (ℕ × ℕ)
match_segment u cs = elim (two_digits u cs) [ none ↦ none | some p ↦ segment_end u (p.0) (p.1) ]

-- `weeks.update(range(start, start + n))`
abbrev pub add_range : ℕ → ℕ → List ℕ → List ℕ
add_range start zero ws = ws
add_range start (suc n) ws = add_range (start + 1) n (insert start ws)

-- The body of the loop for one segment that is not empty.
abbrev pub add_segment : Option (ℕ × ℕ) → List ℕ → Parsed (List ℕ)
add_segment none ws = data_error
add_segment (some (s, e)) ws =
    if ltb s 1 || ltb e s then data_error else done (add_range s (e + 1 - s) ws)

abbrev pub read_segments : Unicode → List (List ℕ) → List ℕ → Parsed (List ℕ)
read_segments u [] ws = done ws
read_segments u (seg ∷ segs) ws = elim (strip u.space seg) [
  | [] ↦ read_segments u segs ws
  | (c ∷ cs) ↦ elim (add_segment (match_segment u (c ∷ cs)) ws) [
    | done ws2 ↦ read_segments u segs ws2
    | data_error ↦ data_error
  ]
]

abbrev pub max_of : List ℕ → ℕ
max_of [] = 0
max_of (x ∷ xs) = max x (max_of xs)

abbrev pub fits_parity : Option Parity → ℕ → Bool
fits_parity none w = true
fits_parity (some odd) w = w % 2 == 1
fits_parity (some even) w = w % 2 == 0

abbrev pub keep_parity : Option Parity → List ℕ → List ℕ
keep_parity p [] = []
keep_parity p (w ∷ ws) = let rest = keep_parity p ws in if fits_parity p w then w ∷ rest else rest

-- After the loop: the empty set, the bound of the term, the parity.
abbrev pub finish_weeks : Option Parity → ℕ → List ℕ → Parsed ParsedWeeks
finish_weeks p max_week [] = data_error
finish_weeks p max_week (w ∷ ws) =
    if ltb max_week (max_of (w ∷ ws)) then data_error else elim (keep_parity p (w ∷ ws)) [
      | [] ↦ data_error
      | (v ∷ vs) ↦ done (record { weeks = v ∷ vs; parity = p })
    ]

abbrev pub read_weeks : Unicode → Option Parity → List ℕ → ℕ → Parsed ParsedWeeks
read_weeks u p raw max_week = elim (read_segments u (split_segments raw) []) [
  | data_error ↦ data_error
  | done ws ↦ finish_weeks p max_week ws
]

-- The parity marks: both are an error, one is removed from the text.
abbrev pub parse_marks : List ℕ → Parsed (Option Parity × List ℕ)
parse_marks raw =
    if has odd_mark raw
    then (if has even_mark (remove odd_mark raw)
        then data_error
        else done (some odd, remove odd_mark raw))
    else (if has even_mark raw then done (some even, remove even_mark raw) else done (none, raw))

abbrev pub after_marks : Unicode → ℕ → Parsed (Option Parity × List ℕ) → Parsed ParsedWeeks
after_marks u max_week data_error = data_error
after_marks u max_week (done (p, raw)) = read_weeks u p raw max_week

-- `str(text or "").strip().replace("周", "")`
abbrev pub raw_weeks : Unicode → List ℕ → List ℕ
raw_weeks u text = remove week_mark (strip u.space text)

abbrev pub parse_weeks : Unicode → List ℕ → ℕ → Parsed ParsedWeeks
parse_weeks u text max_week = elim (raw_weeks u text) [
  | [] ↦ data_error
  | (c ∷ cs) ↦ after_marks u max_week (parse_marks (c ∷ cs))
]

-- The weeks that a segment names, and those that some segment names.
abbrev pub in_range : ℕ → Option (ℕ × ℕ) → Bool
in_range w none = false
in_range w (some (s, e)) = leb s w && leb w e

abbrev pub named_in : Unicode → ℕ → List (List ℕ) → Bool
named_in u w [] = false
named_in u w (seg ∷ segs) = in_range w (match_segment u (strip u.space seg)) || named_in u w segs
