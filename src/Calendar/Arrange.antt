-- ===== src/Calendar/Arrange.antt =====
-- What `parse_period_numbers` and `resolve_periods` of app/calendar/rules.py return.
use stpt_query.Common.{
  ℕ, suc, zero, ◌+◌, ◌-◌, ◌≤◌, ◌<◌, ◌≡◌, refl, sym, ◌∙◌, ap, true, not, ◌&&◌, inl, inr, List, [],
  ◌∷◌, All, ltb, leb, ◌==◌, if◌then◌else◌, length, arith, Bool-cases,
}
use stpt_query.Calendar.Sets.{has, sorted_set, Ascending, sorted_set-Ascending, has-sorted_set}
use stpt_query.Calendar.Weeks.{Unicode, strip}
use stpt_query.Calendar.Periods.{
  range_of, first_ones, least_of, greatest_of, arrange, period_numbers, parse_period_numbers,
}

has-range_of : (z s n : ℕ) → has z (range_of s n) ≡ (leb s z && ltb z (s + n))
has-range_of z s zero = ground arith
has-range_of z s (suc n) = ground (arith, has-range_of z (s + 1) n)

has_same : (z x : ℕ) (ys : List ℕ) → (z == x) ≡ true → has z ys ≡ has x ys
has_same z x ys h = ground arith

has-first_ones :
    (z : ℕ) (seen xs : List ℕ) → has z (first_ones seen xs) ≡ (has z xs && not (has z seen))
has-first_ones z seen [] = refl
has-first_ones z seen (x ∷ xs) =
    ground (arith, has-first_ones z seen xs, has-first_ones z (x ∷ seen) xs, has_same z x seen)

raise :
    (low high x : ℕ) (xs : List ℕ)
    → All (λ y. x < y) xs
    → All (λ x. (low ≤ x) × (x < high)) xs
    → All (λ y. (x + 1 ≤ y) × (y < high)) xs
raise low high x [] a b = tt
raise low high x (y ∷ ys) a b = ((omega (arith, a.0), b.0.1), raise low high x ys a.1 b.1)

at_most :
    (low high : ℕ) (xs : List ℕ)
    → Ascending xs
    → All (λ x. (low ≤ x) × (x < high)) xs
    → length xs ≤ high - low
at_most low high [] a b = omega arith
at_most low high (x ∷ xs) a b =
    omega (arith, at_most (x + 1) high xs a.1 (raise low high x xs a.0 b.1), b.0.0, b.0.1)

-- As many numbers in order as there is room for are all that there are.
filled :
    (low high n : ℕ) (xs : List ℕ)
    → Ascending xs
    → All (λ x. (low ≤ x) × (x < high)) xs
    → high ≡ low + n
    → length xs ≡ n
    → xs ≡ range_of low n
filled low high zero [] a b h e = refl
filled low high (suc n) [] a b h e = absurd (omega arith)
filled low high zero (x ∷ xs) a b h e = absurd (omega arith)
filled low high (suc n) (x ∷ xs) a b h e =
    let rest = raise low high x xs a.0 b.1 in
    let bound = at_most (x + 1) high xs a.1 rest in
    let here : x ≡ low = omega (arith, bound, b.0.0, b.0.1) in
    ground (arith, here, filled (x + 1) high n xs a.1 rest (omega (arith, here)) (omega arith))

All-has : (P : ℕ → Type 0) (xs : List ℕ) → ((z : ℕ) → has z xs ≡ true → P z) → All P xs
All-has P [] h = tt
All-has P (x ∷ xs) h = (h x (ground arith), All-has P xs (λ z k. h z (ground arith)))

extremes :
    (z x : ℕ) (ys : List ℕ) → has z (x ∷ ys) ≡ true → (least_of x ys ≤ z) × (z ≤ greatest_of x ys)
extremes z x [] h = ground arith
extremes z x (y ∷ ys) h = elim (Bool-cases (has z (y ∷ ys))) [
  | inl b ↦ let r = extremes z y ys b in (omega (arith, r.0), omega (arith, r.1))
  | inr b ↦ ground (arith, b)
]

pub within :
    (x : ℕ) (ys : List ℕ)
    → All (λ z. (least_of x ys ≤ z) × (z < greatest_of x ys + 1)) (sorted_set (x ∷ ys))
within x ys =
    All-has (λ z. (least_of x ys ≤ z) × (z < greatest_of x ys + 1)) (sorted_set (x ∷ ys))
      (λ z h.
        let r = extremes z x ys (sym (has-sorted_set z (x ∷ ys)) ∙ h) in (r.0, omega (arith, r.1)))

low_high : (x : ℕ) (ys : List ℕ) → least_of x ys ≤ greatest_of x ys
low_high x ys = let r = extremes x x ys (ground arith) in omega (arith, r.0, r.1)

pub whole_range :
    (x : ℕ) (ys : List ℕ)
    → (n : ℕ) → greatest_of x ys + 1 ≡ least_of x ys + n
    → length (sorted_set (x ∷ ys)) ≡ n
    → sorted_set (x ∷ ys) ≡ range_of (least_of x ys) n
whole_range x ys n h e =
    filled (least_of x ys) (greatest_of x ys + 1) n (sorted_set (x ∷ ys))
      (sorted_set-Ascending (x ∷ ys)) (within x ys) h e

has-arrange : (z : ℕ) (xs : List ℕ) → has z (arrange xs) ≡ has z xs
has-arrange z [] = refl
has-arrange z (x ∷ []) = refl
has-arrange z (x ∷ y ∷ ys) =
    let low = least_of x (y ∷ ys) in
    let high = greatest_of x (y ∷ ys) in
    let order = low_high x (y ∷ ys) in
    elim (Bool-cases (high - low + 1 == length (sorted_set (x ∷ y ∷ ys)))) [
      | inl b ↦
          rw (b, if◌then◌else◌)
            (ap (has z) (
                sym (
                  whole_range x (y ∷ ys) (high + 1 - low) (omega (arith, order))
                    (ground (arith, order))))
              ∙ has-sorted_set z (x ∷ y ∷ ys))
      | inr b ↦ rw (b, if◌then◌else◌) (ground (arith, has-first_ones z [] (x ∷ y ∷ ys)))
    ]

-- A period is among those that `parse_period_numbers` returns exactly if its number stands in
-- the stripped text before the mark of a period.
pub has-parse_period_numbers :
    (u : Unicode) (name : List ℕ) (p : ℕ)
    → has p (parse_period_numbers u name) ≡ has p (period_numbers u (strip u.space name))
has-parse_period_numbers u name p = has-arrange p (period_numbers u (strip u.space name))
