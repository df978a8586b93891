-- ===== src/Calendar/Sets.antt =====
-- `sorted(set(xs))` on numbers, as app/calendar/rules.py and app/calendar/ics.py use it.
use stpt_query.Common.{
  ℕ, ◌<◌, ◌≡◌, refl, Bool, false, ◌||◌, List, [], ◌∷◌, All, ltb, ◌==◌, if◌then◌else◌, arith,
}

abbrev pub has : ℕ → List ℕ → Bool
has x [] = false
has x (y ∷ ys) = (x == y) || has x ys

abbrev pub insert : ℕ → List ℕ → List ℕ
insert x [] = x ∷ []
insert x (y ∷ ys) =
    let rest = insert x ys in if ltb x y then x ∷ y ∷ ys else if x == y then y ∷ ys else (y ∷ rest)

abbrev pub sorted_set : List ℕ → List ℕ
sorted_set [] = []
sorted_set (x ∷ xs) = insert x (sorted_set xs)

abbrev pub Ascending : List ℕ → Type 0
Ascending [] = Unit
Ascending (x ∷ xs) = All (λ y. x < y) xs × Ascending xs

pub insert-All :
    (l x : ℕ) (ys : List ℕ) → l < x → All (λ y. l < y) ys → All (λ y. l < y) (insert x ys)
insert-All l x [] h a = ground arith
insert-All l x (y ∷ ys) h a = ground (arith, insert-All l x ys h a.1)

above : (x y : ℕ) (ys : List ℕ) → x < y → All (λ z. y < z) ys → All (λ z. x < z) ys
above x y [] h a = tt
above x y (z ∷ ys) h a = (omega (arith, a.0), above x y ys h a.1)

pub insert-Ascending : (x : ℕ) (ys : List ℕ) → Ascending ys → Ascending (insert x ys)
insert-Ascending x [] a = (tt, tt)
insert-Ascending x (y ∷ ys) a =
    ground (arith, insert-Ascending x ys a.1, insert-All y x ys, above x y ys)

pub sorted_set-Ascending : (xs : List ℕ) → Ascending (sorted_set xs)
sorted_set-Ascending [] = tt
sorted_set-Ascending (x ∷ xs) = insert-Ascending x (sorted_set xs) (sorted_set-Ascending xs)

pub has-insert : (z x : ℕ) (ys : List ℕ) → has z (insert x ys) ≡ ((z == x) || has z ys)
has-insert z x [] = refl
has-insert z x (y ∷ ys) = ground (arith, has-insert z x ys)

pub has-sorted_set : (z : ℕ) (xs : List ℕ) → has z (sorted_set xs) ≡ has z xs
has-sorted_set z [] = refl
has-sorted_set z (x ∷ xs) = ground (arith, has-insert z x (sorted_set xs), has-sorted_set z xs)

insert_least : (x : ℕ) (ys : List ℕ) → All (λ y. x < y) ys → insert x ys ≡ x ∷ ys
insert_least x [] a = refl
insert_least x (y ∷ ys) a = ground (arith, a.0)

-- A list in ascending order is its own sorted set.
pub sorted_set_same : (xs : List ℕ) → Ascending xs → sorted_set xs ≡ xs
sorted_set_same [] a = refl
sorted_set_same (x ∷ xs) a = ground (arith, insert_least x xs a.0, sorted_set_same xs a.1)
