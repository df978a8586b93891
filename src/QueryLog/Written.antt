-- ===== src/QueryLog/Written.antt =====
-- Lines that are written to a log file and read back: app/querylog.py.
use stpt_query.Common.{
  ℕ, ◌≤◌, ◌≡◌, ◌∙◌, ap, sym, subst, refl, Bool, false, List, [], ◌∷◌, ◌++◌, All, length, ◌==◌,
  if◌then◌else◌, Bool-cases, inl, inr,
}
use stpt_query.Calendar.Weeks.{strip}
use stpt_query.QueryLog.{Bytes, split, is_blank, yielded, last_line, iter_file_lines}
use stpt_query.QueryLog.Reading.{glue, split-append, lines_of, lines_of-glue, iter_file_lines_lem}

-- The file after some lines are appended to an empty one, the last line first.
abbrev pub written : List Bytes → Bytes
written [] = []
written (l ∷ older) = written older ++ (l ++ (10 ∷ []))

-- A line without white space at its ends, and not empty.
pub record IsLine (sp : ℕ → Bool) (l : Bytes) : Type 0 where
  pub one : All (λ c. (c == 10) ≡ false) l
  pub stripped : strip sp l ≡ l
  pub full : (length l == 0) ≡ false

-- The last part is empty.
abbrev IsEnded : Bytes → List Bytes → Type 0
IsEnded c [] = c ≡ []
IsEnded c (d ∷ ds) = IsEnded d ds

IsEnded-glue :
    (c : Bytes) (ds : List Bytes) (l : Bytes)
    → IsEnded (glue (c, ds) (l, [] ∷ [])).0 (glue (c, ds) (l, [] ∷ [])).1
IsEnded-glue c [] l = refl
IsEnded-glue c (d ∷ ds) l = IsEnded-glue d ds l

split_line : (l : Bytes) → All (λ c. (c == 10) ≡ false) l → split (l ++ (10 ∷ [])) ≡ (l, [] ∷ [])
split_line [] h = refl
split_line (c ∷ l) h = rw (h.0, if◌then◌else◌, split_line l h.1) refl

split-written :
    (sp : ℕ → Bool) (ls : List Bytes)
    → All (IsLine sp) ls
    → IsEnded (split (written ls)).0 (split (written ls)).1
split-written sp [] h = refl
split-written sp (l ∷ ls) h =
    subst (λ x. IsEnded x.0 x.1)
      (sym (
        split-append (written ls) (l ++ (10 ∷ []))
        ∙ ap (glue (split (written ls))) (split_line l h.0.one)))
      (IsEnded-glue (split (written ls)).0 (split (written ls)).1 l)

module _ (sp : ℕ → Bool) (l : Bytes) (h : IsLine sp l) where
  not_blank : is_blank sp l ≡ false
  not_blank = ap (λ t. length t == 0) h.stripped ∙ h.full

  yielded_one : yielded sp (l ∷ []) ≡ l ∷ []
  yielded_one = rw (not_blank, if◌then◌else◌, h.stripped) refl

  cons_yielded :
      (d : Bytes) (xs ys : List Bytes)
      → yielded sp xs ≡ l ∷ yielded sp ys
      → yielded sp (d ∷ xs) ≡ l ∷ yielded sp (d ∷ ys)
  cons_yielded d xs ys e = elim (Bool-cases (is_blank sp d)) [
    | inl b ↦ rw (b, if◌then◌else◌) e
    | inr b ↦ rw (b, if◌then◌else◌, e) refl
  ]

  yielded_ended :
      (d : Bytes) (ds : List Bytes)
      → IsEnded d ds
      → yielded sp ((glue (d, ds) (l, [])).0 ∷ (glue (d, ds) (l, [])).1) ≡ l ∷ yielded sp (d ∷ ds)
  yielded_ended d [] e =
      subst (λ x. yielded sp ((x ++ l) ∷ []) ≡ l ∷ yielded sp (x ∷ [])) (sym e) yielded_one
  yielded_ended d (c ∷ cs) e =
      cons_yielded d ((glue (c, cs) (l, [])).0 ∷ (glue (c, cs) (l, [])).1) (c ∷ cs)
        (yielded_ended c cs e)

  lines_of_ended :
      (c : Bytes) (ds : List Bytes)
      → IsEnded c ds
      → lines_of sp (glue (c, ds) (l, [])) ≡ l ∷ lines_of sp (c, ds)
  lines_of_ended c [] e =
      subst (λ x. lines_of sp (glue (x, []) (l, [])) ≡ l ∷ lines_of sp (x, [])) (sym e)
        (ap (λ b. if b then [] else (l ∷ [])) not_blank)
  lines_of_ended c (d ∷ ds) e = ap (λ y. y ++ last_line sp c) (yielded_ended d ds e)

module _ (sp : ℕ → Bool) (chunk_size : ℕ) (large : 1 ≤ chunk_size) where
  lines_written : (ls : List Bytes) → All (IsLine sp) ls → lines_of sp (split (written ls)) ≡ ls
  lines_written [] h = refl
  lines_written (l ∷ ls) h =
      let x = split (written ls) in
      ap (lines_of sp)
        (split-append (written ls) (l ++ (10 ∷ [])) ∙ ap (glue x) (split_line l h.0.one))
      ∙ lines_of-glue sp x l ([] ∷ [])
      ∙ lines_of_ended sp l h.0 x.0 x.1 (split-written sp ls h.1)
      ∙ ap (λ r. l ∷ r) (lines_written ls h.1)

  -- Lines that are appended to an empty file, each with a line feed, are read back from the last
  -- to the first, whatever the size of the parts (at least one byte), provided that they are not
  -- empty, hold no line feed and have no white space at their ends.
  pub iter_file_lines-written :
      (ls : List Bytes) → All (IsLine sp) ls → iter_file_lines sp chunk_size (written ls) ≡ ls
  iter_file_lines-written ls h =
      iter_file_lines_lem sp chunk_size large (written ls) ∙ lines_written ls h
