-- ===== src/QueryLog/Rotation.antt =====
-- The rotation of the log files: `_rotate` of app/querylog.py.
use stpt_query.Common.{
  ℕ, zero, suc, ◌+◌, ◌-◌, ◌≤◌, ◌<◌, ◌≡◌, ◌∙◌, ap, sym, refl, false, Option, none, some, ltb, ◌==◌,
  if◌then◌else◌, arith, Bool-cases, inl, inr, ◌⊎◌,
}
use stpt_query.QueryLog.{Bytes, Files, size_of, exists, replace, shift, rotate}

not_there : (o : Option Bytes) → exists o ≡ false → o ≡ none
not_there none h = refl
not_there (some b) h = absurd (ground arith)

-- A backup that is missing, up to a number, has no older one behind it.
abbrev pub IsGapless : ℕ → Files → Type 0
IsGapless n f = (i : ℕ) → 1 ≤ i → i ≤ n → exists (f i) ≡ false → exists (f (suc i)) ≡ false

-- One turn of the loop.
abbrev turn : ℕ → Files → Files
turn i f = if exists (f i) then replace i (suc i) f else f

turn_here : (i : ℕ) (f : Files) → turn i f i ≡ none
turn_here i f = elim (Bool-cases (exists (f i))) [
  | inl e ↦ rw (e, if◌then◌else◌) (ground arith)
  | inr e ↦ rw (e, if◌then◌else◌) (not_there (f i) e)
]

turn_next :
    (i : ℕ) (f : Files)
    → (exists (f i) ≡ false → exists (f (suc i)) ≡ false)
    → turn i f (suc i) ≡ f i
turn_next i f g = elim (Bool-cases (exists (f i))) [
  | inl e ↦ rw (e, if◌then◌else◌) (ground arith)
  | inr e ↦ rw (e, if◌then◌else◌) (not_there (f (suc i)) (g e) ∙ sym (not_there (f i) e))
]

turn_else : (i j : ℕ) (f : Files) → (j == i) ≡ false → (j == suc i) ≡ false → turn i f j ≡ f j
turn_else i j f a b = elim (Bool-cases (exists (f i))) [
  | inl e ↦ rw (e, if◌then◌else◌) (ground arith)
  | inr e ↦ rw (e, if◌then◌else◌) refl
]

shift-turn : (n : ℕ) (f : Files) → shift (suc n) f ≡ shift n (turn (suc n) f)
unfolding shift
shift-turn n f = elim (Bool-cases (exists (f (suc n)))) [
  | inl e ↦ rw (e, if◌then◌else◌) refl
  | inr e ↦ rw (e, if◌then◌else◌) refl
]

shift_else : (n j : ℕ) (f : Files) → (j ≡ 0) ⊎ (n + 1 < j) → shift n f j ≡ f j
unfolding shift
shift_else zero j f h = refl
shift_else (suc n) j f h =
    ap (λ g. g j) (shift-turn n f)
    ∙ shift_else n j (turn (suc n) f) (ground arith)
    ∙ turn_else (suc n) j f (ground arith) (ground arith)

shift_one : (n : ℕ) (f : Files) → 1 ≤ n → shift n f 1 ≡ none
unfolding shift
shift_one zero f h = absurd (omega arith)
shift_one (suc zero) f h = ap (λ g. g 1) (shift-turn zero f) ∙ turn_here 1 f
shift_one (suc (suc n)) f h =
    ap (λ g. g 1) (shift-turn (suc n) f) ∙ shift_one (suc n) (turn (suc (suc n)) f) (omega arith)

turn-IsGapless : (n : ℕ) (f : Files) → IsGapless (suc n) f → IsGapless n (turn (suc n) f)
turn-IsGapless n f g i l u e = elim (Bool-cases (i == n)) [
  | inl p ↦
      let same : i ≡ n = ground arith in
      ap exists (ap (λ j. turn (suc n) f (suc j)) same ∙ turn_here (suc n) f)
  | inr p ↦
      ap exists (turn_else (suc n) (suc i) f (ground arith) (ground arith))
      ∙ g i l (omega arith)
          (sym (ap exists (turn_else (suc n) i f (ground arith) (ground arith))) ∙ e)
]

shift_moved : (n i : ℕ) (f : Files) → IsGapless n f → 1 ≤ i → i ≤ n → shift n f (suc i) ≡ f i
unfolding shift
shift_moved zero i f g l u = absurd (omega arith)
shift_moved (suc n) i f g l u = elim (Bool-cases (i == suc n)) [
  | inl p ↦
      let same : i ≡ suc n = ground arith in
      ap (λ j. shift (suc n) f (suc j)) same
      ∙ ap (λ k. k (suc (suc n))) (shift-turn n f)
      ∙ shift_else n (suc (suc n)) (turn (suc n) f) (inr (omega arith))
      ∙ turn_next (suc n) f (g (suc n) (omega arith) (omega arith))
      ∙ ap f (sym same)
  | inr p ↦
      ap (λ k. k (suc i)) (shift-turn n f)
      ∙ shift_moved n i (turn (suc n) f) (turn-IsGapless n f g) l (ground arith)
      ∙ turn_else (suc n) i f p (ground arith)
]

replace_first : (h : Files) (j : ℕ) → 1 < j → replace 0 1 h j ≡ h j
replace_first h j l = ground arith

module _ (max_bytes backup_count : ℕ) (f : Files) (full : ltb (size_of (f 0)) max_bytes ≡ false)
    (some_backup : 1 ≤ backup_count) where
  rotated : rotate max_bytes backup_count f ≡ replace 0 1 (shift (backup_count - 1) f)
  unfolding rotate
  rotated =
      let backed : (backup_count == 0) ≡ false = ground arith in
      rw (full, backed, if◌then◌else◌) refl

  moved_file :
      (i : ℕ)
      → IsGapless (backup_count - 1) f
      → i < backup_count
      → replace 0 1 (shift (backup_count - 1) f) (suc i) ≡ f i
  moved_file zero g l = shift_else (backup_count - 1) 0 f (inl refl)
  moved_file (suc i) g l =
      replace_first (shift (backup_count - 1) f) (suc (suc i)) (omega arith)
      ∙ shift_moved (backup_count - 1) (suc i) f g (omega arith) (omega arith)

  -- Where the current file has reached the greatest size, at least one backup is kept and no
  -- backup below the last is missing, `_rotate` leaves no current file, makes it the first
  -- backup and each backup the next one, the last of them being overwritten, and leaves the
  -- files of greater number as they are.
  pub rotate_lem :
      IsGapless (backup_count - 1) f
      → (rotate max_bytes backup_count f 0 ≡ none)
        × ((i : ℕ) → i < backup_count → rotate max_bytes backup_count f (suc i) ≡ f i)
        × ((j : ℕ) → backup_count < j → rotate max_bytes backup_count f j ≡ f j)
  rotate_lem g = (
    ap (λ k. k 0) rotated,
    (λ i l. ap (λ k. k (suc i)) rotated ∙ moved_file i g l),
    λ j l.
        ap (λ k. k j) rotated
        ∙ replace_first (shift (backup_count - 1) f) j (omega arith)
        ∙ shift_else (backup_count - 1) j f (inr (omega arith)),
  )
