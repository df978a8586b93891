-- ===== src/Calendar/Fold.antt =====
-- `_fold` of app/calendar/ics.py: no line is too long, and a reader gets the line back.
use stpt_query.Common.{
  append_assoc, append_nil, ℕ, ◌+◌, ◌≤◌, ◌≡◌, ◌∙◌, refl, false, inl, inr, List, [], ◌∷◌, ◌++◌, All,
  All-append, ltb, leb, ◌==◌, if◌then◌else◌, arith, Bool-cases,
}
use stpt_query.Calendar.Text.{
  width, bytes, chunks_from, continued, join, fold, unfold_text, lines_of, onto_first,
}

-- The text has no carriage return.
abbrev pub OneLine : List ℕ → Type 0
OneLine cs = All (λ c. (c == 13) ≡ false) cs

unfold_text-cons :
    (c : ℕ) (cs : List ℕ) → (c == 13) ≡ false → unfold_text (c ∷ cs) ≡ c ∷ unfold_text cs
unfold_text-cons c [] h = refl
unfold_text-cons c (d ∷ []) h = refl
unfold_text-cons c (d ∷ e ∷ cs) h = ground arith

unfold_text-append :
    (xs : List ℕ) (cs : List ℕ) → OneLine xs → unfold_text (xs ++ cs) ≡ xs ++ unfold_text cs
unfold_text-append [] cs h = refl
unfold_text-append (x ∷ xs) cs h =
    ground (arith, unfold_text-cons x (xs ++ cs) h.0, unfold_text-append xs cs h.1)

unfold_text_one : (xs : List ℕ) → OneLine xs → unfold_text xs ≡ xs
unfold_text_one [] h = refl
unfold_text_one (x ∷ xs) h = ground (arith, unfold_text-cons x xs h.0, unfold_text_one xs h.1)

pub flat : List (List ℕ) → List ℕ
flat [] = []
flat (x ∷ xs) = x ++ flat xs

unfold_text-continued : (xs : List (List ℕ)) → All OneLine xs → unfold_text (continued xs) ≡ flat xs
unfolding flat
unfold_text-continued [] h = refl
unfold_text-continued (x ∷ xs) h =
    ground (arith, unfold_text-append x (continued xs) h.0, unfold_text-continued xs h.1)

unfold_text-join : (xs : List (List ℕ)) → All OneLine xs → unfold_text (join xs) ≡ flat xs
unfolding flat
unfold_text-join [] h = refl
unfold_text-join (x ∷ xs) h =
    ground (arith, unfold_text-append x (continued xs) h.0, unfold_text-continued xs h.1)

-- The loop keeps every character, in order.
flat-chunks_from :
    (limit size : ℕ) (current line : List ℕ)
    → flat (chunks_from limit size current line) ≡ current ++ line
unfolding flat
flat-chunks_from limit size current [] = ground arith
flat-chunks_from limit size current (c ∷ cs) = ground (
  arith,
  flat-chunks_from 74 (width c) (c ∷ []) cs,
  flat-chunks_from limit (size + width c) (current ++ (c ∷ [])) cs,
  append_assoc current (c ∷ []) cs,
)

-- The first chunk has at most `limit` bytes, the others 74 at most.
Fits : ℕ → List (List ℕ) → Type 0
Fits limit [] = Unit
Fits limit (x ∷ xs) = (bytes x ≤ limit) × All (λ y. bytes y ≤ 74) xs

bytes-snoc : (xs : List ℕ) (c : ℕ) → bytes (xs ++ (c ∷ [])) ≡ bytes xs + width c
bytes-snoc [] c = omega arith
bytes-snoc (x ∷ xs) c = omega (arith, bytes-snoc xs c)

Fits-All : (xs : List (List ℕ)) → Fits 74 xs → All (λ y. bytes y ≤ 74) xs
unfolding Fits
Fits-All [] h = tt
Fits-All (x ∷ xs) h = h

width_le : (c : ℕ) → width c ≤ 4
width_le c = ground arith

chunks_from-Fits :
    (limit size : ℕ) (current line : List ℕ)
    → bytes current ≡ size
    → size ≤ limit
    → Fits limit (chunks_from limit size current line)
unfolding Fits
chunks_from-Fits limit size current [] e h = (omega arith, tt)
chunks_from-Fits limit size current (c ∷ cs) e h = elim (Bool-cases (ltb limit (size + width c))) [
  | inl b ↦
      let rest =
        chunks_from-Fits 74 (width c) (c ∷ []) cs (omega arith) (omega (arith, width_le c)) in
      rw (b, if◌then◌else◌) (ground arith, Fits-All (chunks_from 74 (width c) (c ∷ []) cs) rest)
  | inr b ↦
      rw (b, if◌then◌else◌)
        (chunks_from-Fits limit (size + width c) (current ++ (c ∷ [])) cs
          (omega (arith, bytes-snoc current c)) (ground arith))
]

-- Every chunk of a text without carriage returns has none.
OneLine-snoc : (xs : List ℕ) (c : ℕ) → OneLine xs → (c == 13) ≡ false → OneLine (xs ++ (c ∷ []))
OneLine-snoc xs c h k = All-append (λ d. (d == 13) ≡ false) xs (c ∷ []) h (k, tt)

chunks_from-OneLine :
    (limit size : ℕ) (current line : List ℕ)
    → OneLine current
    → OneLine line
    → All OneLine (chunks_from limit size current line)
chunks_from-OneLine limit size current [] h k = (h, tt)
chunks_from-OneLine limit size current (c ∷ cs) h k =
    elim (Bool-cases (ltb limit (size + width c))) [
      | inl b ↦
          rw (b, if◌then◌else◌) (h, chunks_from-OneLine 74 (width c) (c ∷ []) cs (k.0, tt) k.1)
      | inr b ↦
          rw (b, if◌then◌else◌)
            (chunks_from-OneLine limit (size + width c) (current ++ (c ∷ [])) cs
              (OneLine-snoc current c h k.0) k.1)
    ]

lines_of-cons :
    (c : ℕ) (cs : List ℕ) → (c == 13) ≡ false → lines_of (c ∷ cs) ≡ onto_first c (lines_of cs)
lines_of-cons c [] h = refl
lines_of-cons c (d ∷ cs) h = ground arith

lines_of-one : (xs : List ℕ) → OneLine xs → lines_of xs ≡ xs ∷ []
lines_of-one [] h = refl
lines_of-one (x ∷ xs) h = ground (arith, lines_of-cons x xs h.0, lines_of-one xs h.1)

lines_of-append :
    (xs rest : List ℕ) → OneLine xs → lines_of (xs ++ (13 ∷ 10 ∷ rest)) ≡ xs ∷ lines_of rest
lines_of-append [] rest h = refl
lines_of-append (x ∷ xs) rest h =
    ground (arith, lines_of-cons x (xs ++ (13 ∷ 10 ∷ rest)) h.0, lines_of-append xs rest h.1)

-- The lines that the chunks after the first become: each begins with a space.
abbrev indented : List (List ℕ) → List (List ℕ)
indented [] = []
indented (x ∷ xs) = (32 ∷ x) ∷ indented xs

lines_of-join :
    (x : List ℕ) (xs : List (List ℕ))
    → OneLine x
    → All OneLine xs
    → lines_of (join (x ∷ xs)) ≡ x ∷ indented xs
lines_of-join x [] h k = ground (arith, append_nil x, lines_of-one x h)
lines_of-join x (y ∷ ys) h k = ground (
  arith,
  lines_of-append x (32 ∷ (y ++ continued ys)) h,
  lines_of-join (32 ∷ y) ys (refl, k.0) k.1,
)

indented-short :
    (xs : List (List ℕ)) → All (λ y. bytes y ≤ 74) xs → All (λ l. bytes l ≤ 75) (indented xs)
indented-short [] h = tt
indented-short (x ∷ xs) h = (ground arith, indented-short xs h.1)

join-short :
    (xs : List (List ℕ))
    → Fits 75 xs
    → All OneLine xs
    → All (λ l. bytes l ≤ 75) (lines_of (join xs))
unfolding Fits
join-short [] h k = (omega arith, tt)
join-short (x ∷ xs) h k = rw (lines_of-join x xs k.0 k.1) (h.0, indented-short xs h.1)

-- A line without a carriage return is folded into physical lines of at most 75 bytes of UTF-8
-- each.
pub fold_bound : (line : List ℕ) → OneLine line → All (λ l. bytes l ≤ 75) (lines_of (fold line))
fold_bound line h = elim (Bool-cases (leb (bytes line) 75)) [
  | inl b ↦ rw (b, if◌then◌else◌, lines_of-one line h) (ground arith, tt)
  | inr b ↦
      rw (b, if◌then◌else◌)
        (join-short (chunks_from 75 0 [] line) (chunks_from-Fits 75 0 [] line refl (omega arith))
          (chunks_from-OneLine 75 0 [] line tt h))
]

-- A folded line without a carriage return comes back when a reader takes out the line breaks
-- that a space follows.
pub unfold_text-fold : (line : List ℕ) → OneLine line → unfold_text (fold line) ≡ line
unfold_text-fold line h = elim (Bool-cases (leb (bytes line) 75)) [
  | inl b ↦ rw (b, if◌then◌else◌) (unfold_text_one line h)
  | inr b ↦
      rw (b, if◌then◌else◌)
        (unfold_text-join (chunks_from 75 0 [] line) (chunks_from-OneLine 75 0 [] line tt h)
          ∙ flat-chunks_from 75 0 [] line)
]
