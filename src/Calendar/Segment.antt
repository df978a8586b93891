-- ===== src/Calendar/Segment.antt =====
-- What a segment of weeks says, apart from the reading of it in app/calendar/rules.py.
use stpt_query.Common.{
  append_nil, ℕ, ◌+◌, ◌*◌, ◌≤◌, ◌≡◌, sym, subst, true, none, some, List, [], ◌∷◌, ◌++◌, ◌==◌, arith,
  Bool-cases, Option-cases, ◌⊎◌, inl, inr,
}
use stpt_query.Calendar.Weeks.{
  Unicode, dash, strip, two_digits, segment_end, match_segment, in_range, named_in,
}

-- A number of one or two digits.
pub data IsNumber (u : Unicode) : List ℕ → ℕ → Type 0 where
  one : (c d : ℕ) → u.digit_of c ≡ some d → IsNumber u (c ∷ []) d
  two :
      (c e d f : ℕ)
      → u.digit_of c ≡ some d
      → u.digit_of e ≡ some f
      → IsNumber u (c ∷ e ∷ []) (10 * d + f)

-- A number, or two numbers with a dash between them.
pub data IsSegment (u : Unicode) : List ℕ → ℕ → ℕ → Type 0 where
  single : {cs : List ℕ} {n : ℕ} → IsNumber u cs n → IsSegment u cs n n
  range :
      {cs ds : List ℕ} {s e : ℕ}
      → IsNumber u cs s
      → IsNumber u ds e
      → IsSegment u (cs ++ (dash ∷ ds)) s e

-- A segment, without the white space at its ends, that says a range with the week.
pub record Names (u : Unicode) (w : ℕ) (seg : List ℕ) : Type 0 where
  pub first : ℕ
  pub last : ℕ
  pub says : IsSegment u (strip u.space seg) first last
  pub above : first ≤ w
  pub below : w ≤ last

abbrev pub NamedIn : Unicode → ℕ → List (List ℕ) → Type 0
NamedIn u w [] = ⊥
NamedIn u w (seg ∷ segs) = Names u w seg ⊎ NamedIn u w segs

module _ (u : Unicode) where
  two_digits_sound :
      (cs rest : List ℕ) (n : ℕ)
      → two_digits u cs ≡ some (n, rest)
      → (ds : List ℕ) × IsNumber u ds n × (cs ≡ ds ++ rest)
  two_digits_sound [] rest n h = absurd (ground arith)
  two_digits_sound (c ∷ []) rest n h = elim (Option-cases (u.digit_of c)) [
    | inl k ↦ absurd (ground arith)
    | inr (d, k) ↦ let same : n ≡ d = ground arith in (c ∷ [], rw same (one c d k), ground arith)
  ]
  two_digits_sound (c ∷ b ∷ cs) rest n h = elim (Option-cases (u.digit_of c)) [
    | inl k ↦ absurd (ground arith)
    | inr (d, k) ↦ elim (Option-cases (u.digit_of b)) [
      | inl m ↦ let same : n ≡ d = ground arith in (c ∷ [], rw same (one c d k), ground arith)
      | inr (f, m) ↦
          let same : n ≡ 10 * d + f = ground arith in
          (c ∷ b ∷ [], rw same (two c b d f k m), ground arith)
    ]
  ]

  end_sound :
      (n : ℕ) (ds rest : List ℕ) (s e : ℕ)
      → IsNumber u ds n
      → segment_end u n rest ≡ some (s, e)
      → IsSegment u (ds ++ rest) s e
  end_sound n ds [] s e h k =
      let first : s ≡ n = ground arith in
      let last : e ≡ n = ground arith in rw (first, last, append_nil ds) (single h)
  end_sound n ds (c ∷ cs) s e h k = elim (Bool-cases (c == dash)) [
    | inr g ↦ absurd (ground arith)
    | inl g ↦ elim (Option-cases (two_digits u cs)) [
      | inl m ↦ absurd (ground arith)
      | inr ((b, []), m) ↦
          let t = two_digits_sound cs [] b m in
          let first : s ≡ n = ground arith in
          let last : e ≡ b = ground arith in
          let mark : c ≡ dash = ground arith in
          rw (first, last, mark, t.2, append_nil t.0) (range h t.1)
      | inr ((b, (x ∷ xs)), m) ↦ absurd (ground arith)
    ]
  ]

  pub sound : (cs : List ℕ) (s e : ℕ) → match_segment u cs ≡ some (s, e) → IsSegment u cs s e
  sound cs s e h = elim (Option-cases (two_digits u cs)) [
    | inl k ↦ absurd (ground arith)
    | inr (p, k) ↦
        let t = two_digits_sound cs (p.1) (p.0) k in
        subst (λ x. IsSegment u x s e) (sym t.2) (end_sound (p.0) t.0 (p.1) s e t.1 (ground arith))
  ]

module _ (u : Unicode) (plain : u.digit_of dash ≡ none) where
  complete_end : (cs : List ℕ) (n : ℕ) → IsNumber u cs n → two_digits u cs ≡ some (n, [])
  complete_end cs n (one c d k) = ground arith
  complete_end cs n (two c e d f k m) = ground arith

  complete_dash :
      (cs ds : List ℕ) (n : ℕ)
      → IsNumber u cs n
      → two_digits u (cs ++ (dash ∷ ds)) ≡ some (n, dash ∷ ds)
  complete_dash cs ds n (one c d k) = ground (arith, plain)
  complete_dash cs ds n (two c e d f k m) = ground arith

  pub complete : (cs : List ℕ) (s e : ℕ) → IsSegment u cs s e → match_segment u cs ≡ some (s, e)
  complete cs s e (single h) = ground (arith, complete_end cs s h)
  complete cs s e (range {cs = a} {ds = b} h k) =
      ground (arith, complete_dash a b s h, complete_end b e k)

  Names-in :
      (w : ℕ) (seg : List ℕ)
      → in_range w (match_segment u (strip u.space seg)) ≡ true
      → Names u w seg
  Names-in w seg h = elim (Option-cases (match_segment u (strip u.space seg))) [
    | inl k ↦ absurd (ground arith)
    | inr ((s, e), k) ↦ record {
      first = s;
      last = e;
      says = sound u (strip u.space seg) s e k;
      above = ground arith;
      below = ground arith;
    }
  ]

  in-Names :
      (w : ℕ) (seg : List ℕ)
      → Names u w seg
      → in_range w (match_segment u (strip u.space seg)) ≡ true
  in-Names w seg n =
      ground (arith, complete (strip u.space seg) n.first n.last n.says, n.above, n.below)

  pub NamedIn-named_in :
      (w : ℕ) (segs : List (List ℕ)) → named_in u w segs ≡ true → NamedIn u w segs
  NamedIn-named_in w [] h = absurd (ground arith)
  NamedIn-named_in w (seg ∷ segs) h =
      elim (Bool-cases (in_range w (match_segment u (strip u.space seg)))) [
        | inl k ↦ inl (Names-in w seg k)
        | inr k ↦ inr (NamedIn-named_in w segs (ground arith))
      ]

  pub named_in-NamedIn :
      (w : ℕ) (segs : List (List ℕ)) → NamedIn u w segs → named_in u w segs ≡ true
  named_in-NamedIn w [] h = absurd h
  named_in-NamedIn w (seg ∷ segs) (inl n) = ground (arith, in-Names w seg n)
  named_in-NamedIn w (seg ∷ segs) (inr n) = ground (arith, named_in-NamedIn w segs n)
