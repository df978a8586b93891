-- ===== src/Common/Threads.antt =====
-- Weights over the first `n` threads of a system.
use Prim.Native.Nat.{ℕ, zero, suc, ◌+◌, ◌≤◌, ◌<◌}
use mathlib.Core.Path.{◌≡◌, refl}
use mathlib.Core.Logic.{◌≢◌, ite}
use native.Mathlib.Decide.{ℕ_discrete}
use native.Mathlib.Omega.{arith}

-- The state where thread `i` has moved to `p`.
abbrev pub moved {ℓ} : {A : Type ℓ} → (ℕ → A) → ℕ → A → ℕ → A
moved f i p j = ite (ℕ_discrete i j) p (f j)

module _ {ℓ} {A : Type ℓ} (w : A → ℕ) where
  -- The sum of the weights of the threads below `n`.
  unfoldable pub weight : ℕ → (ℕ → A) → ℕ
  weight zero f = 0
  weight (suc n) f = w (f n) + weight n f

  weight-moved_above :
      (n : ℕ) (f : ℕ → A) (i : ℕ) (p : A) → n ≤ i → weight n (moved f i p) ≡ weight n f
  unfolding weight
  weight-moved_above zero f i p h = refl
  weight-moved_above (suc n) f i p h = ground (arith, weight-moved_above n f i p)

  -- A move changes the sum by the change of the weight of one thread.
  pub weight-moved :
      (n : ℕ) (f : ℕ → A) (i : ℕ) (p : A)
      → i < n
      → w (f i) + weight n (moved f i p) ≡ w p + weight n f
  unfolding weight
  weight-moved zero f i p h = elim h [ ]
  weight-moved (suc n) f i p h = elim (ℕ_discrete i n) [
    | yes e ↦ ground (arith, weight-moved_above n f i p)
    | no ne ↦ ground (arith, weight-moved n f i p)
  ]

  pub le-weight : (n : ℕ) (f : ℕ → A) (i : ℕ) → i < n → w (f i) ≤ weight n f
  unfolding weight
  le-weight zero f i h = elim h [ ]
  le-weight (suc n) f i h = elim (ℕ_discrete i n) [
    | yes e ↦ ground arith
    | no ne ↦ ground (arith, le-weight n f i)
  ]

  -- Two threads of weight one make two.
  pub two-le-weight :
      (n : ℕ) (f : ℕ → A) (i j : ℕ)
      → i < n
      → j < n
      → i ≢ j
      → w (f i) ≡ 1
      → w (f j) ≡ 1
      → 2 ≤ weight n f
  unfolding weight
  two-le-weight zero f i j h k ne a b = elim h [ ]
  two-le-weight (suc n) f i j h k ne a b = elim (ℕ_discrete i n) [
    | yes e ↦ ground (arith, le-weight n f j)
    | no p ↦ elim (ℕ_discrete j n) [
      | yes e ↦ ground (arith, le-weight n f i)
      | no q ↦ ground (arith, two-le-weight n f i j)
    ]
  ]

  pub weight_zero : (n : ℕ) (f : ℕ → A) → ((i : ℕ) → w (f i) ≡ 0) → weight n f ≡ 0
  unfolding weight
  weight_zero zero f h = refl
  weight_zero (suc n) f h = omega (arith, h n, weight_zero n f h)
