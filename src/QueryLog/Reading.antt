-- ===== src/QueryLog/Reading.antt =====
-- Reading a file from its end, a part at a time: `_iter_file_lines` of app/querylog.py.
use stpt_query.Common.{
  append_assoc, append_nil, ℕ, zero, suc, ◌-◌, ◌≤◌, min, ◌≡◌, ◌∙◌, ap, sym, refl, Bool, false, List,
  [], ◌∷◌, ◌++◌, length, ◌==◌, if◌then◌else◌, arith, Bool-cases, inl, inr,
}
use stpt_query.QueryLog.{
  Bytes, split, extend_last, is_blank, yielded, take, drop, last_line, read_back, iter_file_lines,
}

-- The parts of two texts one after the other.
abbrev pub glue : Bytes × List Bytes → Bytes × List Bytes → Bytes × List Bytes
glue (c, []) y = (c ++ y.0, y.1)
glue (c, d ∷ ds) y = let rest = glue (d, ds) y in (c, rest.0 ∷ rest.1)

extend_last-glue :
    (c : Bytes) (ds : List Bytes) (t : Bytes) → extend_last (c, ds) t ≡ glue (c, ds) (t, [])
extend_last-glue c [] t = refl
extend_last-glue c (d ∷ ds) t = ap (λ r. (c, r.0 ∷ r.1)) (extend_last-glue d ds t)

glue_cons :
    (c : ℕ) (f : Bytes) (r : List Bytes) (y : Bytes × List Bytes)
    → glue (c ∷ f, r) y ≡ (c ∷ (glue (f, r) y).0, (glue (f, r) y).1)
glue_cons c f [] y = refl
glue_cons c f (d ∷ ds) y = refl

pub split-append : (a b : Bytes) → split (a ++ b) ≡ glue (split a) (split b)
split-append [] b = refl
split-append (c ∷ a) b = elim (Bool-cases (c == 10)) [
  | inl e ↦ rw (e, if◌then◌else◌, split-append a b) refl
  | inr e ↦
      rw (e, if◌then◌else◌, split-append a b) (sym (glue_cons c (split a).0 (split a).1 (split b)))
]

glue_assoc :
    (c : Bytes) (ds : List Bytes) (g : Bytes) (s : List Bytes) (z : Bytes × List Bytes)
    → glue (glue (c, ds) (g, s)) z ≡ glue (c, ds) (glue (g, s) z)
glue_assoc c [] g [] z = ap (λ x. (x, z.1)) (append_assoc c g z.0)
glue_assoc c [] g (u ∷ us) z = refl
glue_assoc c (d ∷ ds) g s z = ap (λ r. (c, r.0 ∷ r.1)) (glue_assoc d ds g s z)

module _ (sp : ℕ → Bool) where
  glue-first :
      (c : Bytes) (ds : List Bytes) (g : Bytes) (s : List Bytes)
      → (glue (c, ds) (g, s)).0 ≡ (glue (c, ds) (g, [])).0
  glue-first c [] g s = refl
  glue-first c (d ∷ ds) g s = refl

  yielded_cons :
      (l : Bytes) (xs ys zs : List Bytes)
      → yielded sp xs ≡ yielded sp ys ++ yielded sp zs
      → yielded sp (l ∷ xs) ≡ yielded sp ys ++ yielded sp (l ∷ zs)
  yielded_cons l xs ys zs h = elim (Bool-cases (is_blank sp l)) [
    | inl e ↦ rw (e, if◌then◌else◌) h
    | inr e ↦ rw (e, if◌then◌else◌, h) (append_assoc (yielded sp ys) (yielded sp zs) _)
  ]

  yielded-glue :
      (c : Bytes) (ds : List Bytes) (g : Bytes) (s : List Bytes)
      → yielded sp (glue (c, ds) (g, s)).1 ≡ yielded sp s ++ yielded sp (glue (c, ds) (g, [])).1
  yielded-glue c [] g s = sym (append_nil (yielded sp s))
  yielded-glue c (d ∷ ds) g s =
      ap (λ l. yielded sp (l ∷ (glue (d, ds) (g, s)).1)) (glue-first d ds g s)
      ∙ yielded_cons (glue (d, ds) (g, [])).0 (glue (d, ds) (g, s)).1 s (glue (d, ds) (g, [])).1
          (yielded-glue d ds g s)

  -- What is yielded for the parts of a text.
  abbrev pub lines_of : Bytes × List Bytes → List Bytes
  lines_of x = yielded sp x.1 ++ last_line sp x.0

  pub lines_of-glue :
      (x : Bytes × List Bytes) (g : Bytes) (s : List Bytes)
      → lines_of (glue x (g, s)) ≡ yielded sp s ++ lines_of (glue x (g, []))
  lines_of-glue (c, ds) g s =
      rw (yielded-glue c ds g s, glue-first c ds g s)
        (append_assoc (yielded sp s) (yielded sp (glue (c, ds) (g, [])).1)
          (last_line sp (glue (c, ds) (g, [])).0))

glue_empty : (c : Bytes) (ds : List Bytes) → glue (c, ds) ([], []) ≡ (c, ds)
glue_empty c [] = ap (λ x. (x, [])) (append_nil c)
glue_empty c (d ∷ ds) = ap (λ r. (c, r.0 ∷ r.1)) (glue_empty d ds)

empty_file : (xs : Bytes) → length xs ≡ 0 → xs ≡ []
empty_file [] h = refl
empty_file (x ∷ xs) h = absurd (omega arith)

take-take : (n p : ℕ) (xs : Bytes) → n ≤ p → take n xs ++ drop n (take p xs) ≡ take p xs
take-take zero p xs h = refl
take-take (suc n) zero xs h = absurd (omega arith)
take-take (suc n) (suc p) [] h = refl
take-take (suc n) (suc p) (x ∷ xs) h = ap (λ ys. x ∷ ys) (take-take n p xs (omega arith))

take-length : (xs : Bytes) → take (length xs) xs ≡ xs
take-length [] = refl
take-length (x ∷ xs) = ap (λ ys. x ∷ ys) (take-length xs)

module _ (sp : ℕ → Bool) (chunk_size : ℕ) (large : 1 ≤ chunk_size) (file : Bytes) where
  read_back_lem :
      (fuel position : ℕ) (tail : Bytes)
      → position ≤ fuel
      → read_back sp chunk_size fuel file position tail
        ≡ lines_of sp (glue (split (take position file)) (tail, []))
  unfolding read_back
  read_back_lem zero zero tail h = refl
  read_back_lem zero (suc p) tail h = absurd (omega arith)
  read_back_lem (suc fuel) zero tail h = refl
  read_back_lem (suc fuel) (suc p) tail h =
      let below : (suc p == 0) ≡ false = ground arith in
      rw (below, if◌then◌else◌)
        let next = suc p - min chunk_size (suc p) in
          let piece = drop next (take (suc p) file) in
          let chunks = extend_last (split piece) tail in
          let before = split (take next file) in
          let parts : split (take (suc p) file) ≡ glue before (split piece) =
            ap split (sym (take-take next (suc p) file (omega arith)))
            ∙ split-append (take next file) piece in
          let whole : glue (split (take (suc p) file)) (tail, []) ≡ glue before chunks =
            ap (λ x. glue x (tail, [])) parts
            ∙ glue_assoc before.0 before.1 (split piece).0 (split piece).1 (tail, [])
            ∙ ap (glue before) (sym (extend_last-glue (split piece).0 (split piece).1 tail)) in
          (ap (λ r. yielded sp chunks.1 ++ r)
              (read_back_lem fuel next chunks.0 (omega (arith, large)))
            ∙ sym (ap (lines_of sp) whole ∙ lines_of-glue sp before chunks.0 chunks.1))

  -- Reading a file from its end in parts of any size of at least one byte gives the same as
  -- splitting the whole file into its lines and taking them from the last to the first, without
  -- those that are blank.
  pub iter_file_lines_lem : iter_file_lines sp chunk_size file ≡ lines_of sp (split file)
  unfolding iter_file_lines
  iter_file_lines_lem = elim (Bool-cases (length file == 0)) [
    | inl e ↦ rw (e, if◌then◌else◌, empty_file file (ground arith)) refl
    | inr e ↦
        rw (e, if◌then◌else◌)
          (read_back_lem (length file) (length file) [] (omega arith)
            ∙ ap (λ x. lines_of sp (glue (split x) ([], []))) (take-length file)
            ∙ ap (lines_of sp) (glue_empty (split file).0 (split file).1))
  ]
