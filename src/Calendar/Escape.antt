-- ===== src/Calendar/Escape.antt =====
-- `_escape` of app/calendar/ics.py: a reader gets the text back.
use stpt_query.Common.{
  ℕ, ◌≡◌, ◌∙◌, ap, sym, subst, refl, Bool, true, false, inl, inr, List, [], ◌∷◌, ◌++◌, ◌==◌,
  if◌then◌else◌, arith, Bool-cases,
}
use stpt_query.Calendar.Text.{replace, replace_crlf, newline, escape, unescape, line_feeds}

-- The two halves of `escape`: the marks, and the line breaks.
abbrev mark : List ℕ → List ℕ
mark text = replace 44 (92 ∷ 44 ∷ []) (replace 59 (92 ∷ 59 ∷ []) (replace 92 (92 ∷ 92 ∷ []) text))

abbrev break : List ℕ → List ℕ
break value = replace 13 newline (replace 10 newline (replace_crlf newline value))

abbrev marked_char : ℕ → List ℕ
marked_char c =
    if c == 92
    then 92 ∷ 92 ∷ []
    else if c == 59
    then 92 ∷ 59 ∷ []
    else if c == 44
    then 92 ∷ 44 ∷ []
    else (c ∷ [])

mark_cons : (c : ℕ) (cs : List ℕ) → mark (c ∷ cs) ≡ marked_char c ++ mark cs
mark_cons c cs = ground arith

replace_crlf_cons :
    (by : List ℕ) (c : ℕ) (cs : List ℕ)
    → (c == 13) ≡ false
    → replace_crlf by (c ∷ cs) ≡ c ∷ replace_crlf by cs
replace_crlf_cons by c [] h = refl
replace_crlf_cons by c (d ∷ cs) h = ground arith

abbrev begins_lf : List ℕ → Bool
begins_lf [] = false
begins_lf (c ∷ cs) = c == 10

replace_crlf_cr :
    (by cs : List ℕ) → begins_lf cs ≡ false → replace_crlf by (13 ∷ cs) ≡ 13 ∷ replace_crlf by cs
replace_crlf_cr by [] h = refl
replace_crlf_cr by (d ∷ cs) h = ground arith

begins_lf-mark : (d : ℕ) (cs : List ℕ) → (d == 10) ≡ false → begins_lf (mark (d ∷ cs)) ≡ false
begins_lf-mark d cs h = ground arith

break_plain :
    (c : ℕ) (v : List ℕ) → (c == 13) ≡ false → (c == 10) ≡ false → break (c ∷ v) ≡ c ∷ break v
break_plain c v h k = ground (arith, replace_crlf_cons newline c v h)

break_lf : (v : List ℕ) → break (10 ∷ v) ≡ newline ++ break v
break_lf v = ground (arith, replace_crlf_cons newline 10 v refl)

break_cr : (v : List ℕ) → begins_lf v ≡ false → break (13 ∷ v) ≡ newline ++ break v
break_cr v h = ground (arith, replace_crlf_cr newline v h)

unescape_plain : (c : ℕ) (v : List ℕ) → (c == 92) ≡ false → unescape (c ∷ v) ≡ c ∷ unescape v
unescape_plain c [] h = refl
unescape_plain c (d ∷ v) h = ground arith

escape_step :
    (c : ℕ) (v : List ℕ)
    → (c == 13) ≡ false
    → unescape (break (marked_char c ++ v)) ≡ c ∷ unescape (break v)
escape_step c v h =
    ground (
      arith,
      break_plain c v h,
      break_plain 92 (c ∷ v) refl,
      break_lf v,
      unescape_plain c (break v),
    )

-- The characters that no line break begins with.
escape_char :
    (c : ℕ) (cs : List ℕ)
    → (c == 13) ≡ false
    → unescape (escape (c ∷ cs)) ≡ c ∷ unescape (escape cs)
escape_char c cs h = ap (λ v. unescape (break v)) (mark_cons c cs) ∙ escape_step c (mark cs) h

line_feeds_char :
    (c : ℕ) (cs : List ℕ) → (c == 13) ≡ false → line_feeds (c ∷ cs) ≡ c ∷ line_feeds cs
line_feeds_char c cs h = ground (arith, replace_crlf_cons (10 ∷ []) c cs h)

escape_crlf : (cs : List ℕ) → unescape (escape (13 ∷ 10 ∷ cs)) ≡ 10 ∷ unescape (escape cs)
escape_crlf cs = refl

escape_cr :
    (d : ℕ) (cs : List ℕ)
    → (d == 10) ≡ false
    → unescape (escape (13 ∷ d ∷ cs)) ≡ 10 ∷ unescape (escape (d ∷ cs))
escape_cr d cs h = ap unescape (break_cr (mark (d ∷ cs)) (begins_lf-mark d cs h))

line_feeds_cr :
    (d : ℕ) (cs : List ℕ) → (d == 10) ≡ false → line_feeds (13 ∷ d ∷ cs) ≡ 10 ∷ line_feeds (d ∷ cs)
line_feeds_cr d cs h = ground arith

lf : (c : ℕ) → (c == 10) ≡ true → c ≡ 10
lf c h = ground arith

cr : (c : ℕ) → (c == 13) ≡ true → c ≡ 13
cr c h = ground arith

escape_back :
    (c : ℕ) (cs : List ℕ)
    → unescape (escape cs) ≡ line_feeds cs
    → (c == 13) ≡ false
    → unescape (escape (c ∷ cs)) ≡ line_feeds (c ∷ cs)
escape_back c cs e h = escape_char c cs h ∙ ap (λ r. c ∷ r) e ∙ sym (line_feeds_char c cs h)

escape_back_cr :
    (d : ℕ) (cs : List ℕ)
    → unescape (escape cs) ≡ line_feeds cs
    → unescape (escape (d ∷ cs)) ≡ line_feeds (d ∷ cs)
    → unescape (escape (13 ∷ d ∷ cs)) ≡ line_feeds (13 ∷ d ∷ cs)
escape_back_cr d cs e f = elim (Bool-cases (d == 10)) [
  | inl b ↦
      subst (λ x. unescape (escape (13 ∷ x ∷ cs)) ≡ line_feeds (13 ∷ x ∷ cs)) (sym (lf d b))
        (ap (λ r. 10 ∷ r) e)
  | inr b ↦ escape_cr d cs b ∙ ap (λ r. 10 ∷ r) f ∙ sym (line_feeds_cr d cs b)
]

-- A reader that undoes the escapes gets the text back, with each of its line breaks (a carriage
-- return with a line feed, or either alone) as one line feed.
pub unescape-escape : (text : List ℕ) → unescape (escape text) ≡ line_feeds text
unescape-escape [] = refl
unescape-escape (c ∷ []) = elim (Bool-cases (c == 13)) [
  | inl b ↦ subst (λ x. unescape (escape (x ∷ [])) ≡ line_feeds (x ∷ [])) (sym (cr c b)) refl
  | inr b ↦ escape_back c [] refl b
]
unescape-escape (c ∷ d ∷ cs) =
    let e = unescape-escape cs in
    let f = unescape-escape (d ∷ cs) in
    elim (Bool-cases (c == 13)) [
      | inl b ↦
          subst (λ x. unescape (escape (x ∷ d ∷ cs)) ≡ line_feeds (x ∷ d ∷ cs)) (sym (cr c b))
            (escape_back_cr d cs e f)
      | inr b ↦ escape_back c (d ∷ cs) f b
    ]
