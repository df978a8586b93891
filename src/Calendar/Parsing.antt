-- ===== src/Calendar/Parsing.antt =====
-- What `parse_weeks` of app/calendar/rules.py returns.
use stpt_query.Common.{
  ℕ, zero, suc, ◌+◌, ◌-◌, ◌≤◌, ◌<◌, ◌≡◌, ◌⊎◌, inl, inr, refl, true, ◌&&◌, ◌||◌, Option, none, some,
  List, [], ◌∷◌, All, ltb, leb, ◌==◌, arith, Bool-cases,
}
use stpt_query.Calendar.Sets.{has, insert, Ascending, insert-All, insert-Ascending, has-insert}
use stpt_query.Calendar.Weeks.{
  Unicode, Parity, Parsed, done, data_error, strip, match_segment, in_range, named_in, add_range,
  add_segment, read_segments, max_of, fits_parity, keep_parity,
}

pub Parsed-cases : {A : Type 0} (r : Parsed A) → (r ≡ data_error) ⊎ ((a : A) × (r ≡ done a))
Parsed-cases (done a) = inr (a, refl)
Parsed-cases data_error = inl refl

pub List-cases : (xs : List ℕ) → (xs ≡ []) ⊎ ((x : ℕ) × (ys : List ℕ) × (xs ≡ x ∷ ys))
List-cases [] = inl refl
List-cases (x ∷ ys) = inr (x, ys, refl)

-- The set that the loop fills is in order, without duplicates, and from week 1 on.

add_range-WeekSet :
    (s n : ℕ) (ws : List ℕ)
    → 0 < s
    → Ascending ws × All (λ w. 0 < w) ws
    → Ascending (add_range s n ws) × All (λ w. 0 < w) (add_range s n ws)
add_range-WeekSet s zero ws hs h = h
add_range-WeekSet s (suc n) ws hs h =
    add_range-WeekSet (s + 1) n (insert s ws) (omega arith)
      (insert-Ascending s ws h.0, insert-All 0 s ws hs h.1)

has-add_range :
    (w s n : ℕ) (ws : List ℕ) → has w (add_range s n ws) ≡ ((leb s w && ltb w (s + n)) || has w ws)
has-add_range w s zero ws = ground arith
has-add_range w s (suc n) ws =
    ground (arith, has-add_range w (s + 1) n (insert s ws), has-insert w s ws)

add_segment-WeekSet :
    (m : Option (ℕ × ℕ)) (ws vs : List ℕ)
    → add_segment m ws ≡ done vs
    → Ascending ws × All (λ w. 0 < w) ws
    → Ascending vs × All (λ w. 0 < w) vs
add_segment-WeekSet none ws vs e h = absurd (ground arith)
add_segment-WeekSet (some (s, t)) ws vs e h = elim (Bool-cases (ltb s 1)) [
  | inl b ↦ absurd (ground arith)
  | inr b ↦ ground (arith, add_range-WeekSet s (t + 1 - s) ws (ground arith) h)
]

has-add_segment :
    (w : ℕ) (m : Option (ℕ × ℕ)) (ws vs : List ℕ)
    → add_segment m ws ≡ done vs
    → has w vs ≡ (in_range w m || has w ws)
has-add_segment w none ws vs e = absurd (ground arith)
has-add_segment w (some (s, t)) ws vs e = ground (arith, has-add_range w s (t + 1 - s) ws)

pub read_segments-WeekSet :
    (u : Unicode) (segs : List (List ℕ)) (ws vs : List ℕ)
    → read_segments u segs ws ≡ done vs
    → Ascending ws × All (λ w. 0 < w) ws
    → Ascending vs × All (λ w. 0 < w) vs
read_segments-WeekSet u [] ws vs e h = ground arith
read_segments-WeekSet u (seg ∷ segs) ws vs e h = elim (List-cases (strip u.space seg)) [
  | inl n ↦ read_segments-WeekSet u segs ws vs (ground arith) h
  | inr (c, cs, n) ↦ elim (Parsed-cases (add_segment (match_segment u (c ∷ cs)) ws)) [
    | inl d ↦ absurd (ground arith)
    | inr (ws2, d) ↦
        read_segments-WeekSet u segs ws2 vs (ground arith)
          (add_segment-WeekSet (match_segment u (c ∷ cs)) ws ws2 d h)
  ]
]

pub has-read_segments :
    (u : Unicode) (w : ℕ) (segs : List (List ℕ)) (ws vs : List ℕ)
    → read_segments u segs ws ≡ done vs
    → has w vs ≡ (named_in u w segs || has w ws)
has-read_segments u w [] ws vs e = ground arith
has-read_segments u w (seg ∷ segs) ws vs e = elim (List-cases (strip u.space seg)) [
  | inl n ↦ ground (arith, has-read_segments u w segs ws vs)
  | inr (c, cs, n) ↦ elim (Parsed-cases (add_segment (match_segment u (c ∷ cs)) ws)) [
    | inl d ↦ absurd (ground arith)
    | inr (ws2, d) ↦ ground (
      arith,
      has-read_segments u w segs ws2 vs,
      has-add_segment w (match_segment u (c ∷ cs)) ws ws2 d,
    )
  ]
]

pub keep_parity-All :
    (l : ℕ) (p : Option Parity) (ws : List ℕ)
    → All (λ w. l < w) ws
    → All (λ w. l < w) (keep_parity p ws)
keep_parity-All l p [] h = tt
keep_parity-All l p (w ∷ ws) h = ground (arith, keep_parity-All l p ws h.1)

pub keep_parity-Ascending :
    (p : Option Parity) (ws : List ℕ) → Ascending ws → Ascending (keep_parity p ws)
keep_parity-Ascending p [] h = tt
keep_parity-Ascending p (w ∷ ws) h =
    ground (arith, keep_parity-Ascending p ws h.1, keep_parity-All w p ws h.0)

pub fits-keep_parity :
    (p : Option Parity) (ws : List ℕ) → All (λ w. fits_parity p w ≡ true) (keep_parity p ws)
fits-keep_parity p [] = tt
fits-keep_parity p (w ∷ ws) = ground (arith, fits-keep_parity p ws)

fits_same : (p : Option Parity) (v w : ℕ) → (v == w) ≡ true → fits_parity p v ≡ fits_parity p w
fits_same p v w h = ground arith

pub has-keep_parity :
    (v : ℕ) (p : Option Parity) (ws : List ℕ)
    → has v (keep_parity p ws) ≡ (has v ws && fits_parity p v)
has-keep_parity v p [] = refl
has-keep_parity v p (w ∷ ws) = ground (arith, has-keep_parity v p ws, fits_same p v w)

pub All-max_of : (m : ℕ) (ws : List ℕ) → max_of ws ≤ m → All (λ w. w ≤ m) ws
All-max_of m [] h = tt
All-max_of m (w ∷ ws) h = (omega arith, All-max_of m ws (omega arith))

pub keep_parity-bound :
    (m : ℕ) (p : Option Parity) (ws : List ℕ)
    → All (λ w. w ≤ m) ws
    → All (λ w. w ≤ m) (keep_parity p ws)
keep_parity-bound m p [] h = tt
keep_parity-bound m p (w ∷ ws) h = ground (arith, keep_parity-bound m p ws h.1)
