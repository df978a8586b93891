-- ===== src/Common/Tests.antt =====
-- Boolean tests on the native numbers, decided equality of texts, and case lemmas.
use Prim.Native.Nat.{ℕ, ◌≤◌, ◌<◌, compare, Ordering}
use Prim.Native.String.{String}
use mathlib.Core.Path.{◌≡◌, refl}
use mathlib.Core.Logic.{◌⊎◌, ◌≢◌, inl, inr, ite}
use mathlib.Core.Bool.{Bool, true, false}
use mathlib.Core.Option.{Option, none, some}
use native.Mathlib.Omega.{arith}
use text.Mathlib.Text.{◌==◌ as str_eq}
use text.Mathlib.TextEquality.{eq_iff}

abbrev pub ltb : ℕ → ℕ → Bool
ltb a b = elim (compare a b) [ Ordering.lt ↦ true | _ ↦ false ]

abbrev pub leb : ℕ → ℕ → Bool
leb a b = elim (compare a b) [ Ordering.gt ↦ false | _ ↦ true ]

infix 50 ◌==◌
abbrev pub ◌==◌ : ℕ → ℕ → Bool
a == b = elim (compare a b) [ Ordering.eq ↦ true | _ ↦ false ]

infix 1 if◌then◌else◌
abbrev pub if◌then◌else◌ {ℓ} : {A : Type ℓ} → Bool → A → A → A
if true then x else y = x
if false then x else y = y

pub ltb→lt : (a b : ℕ) → ltb a b ≡ true → a < b
ltb→lt a b h = ground arith

pub leb→le : (a b : ℕ) → leb a b ≡ true → a ≤ b
leb→le a b h = ground arith

pub Bool-cases : (b : Bool) → (b ≡ true) ⊎ (b ≡ false)
Bool-cases true = inl refl
Bool-cases false = inr refl

pub Option-cases {ℓ} : {A : Type ℓ} (o : Option A) → (o ≡ none) ⊎ ((a : A) × (o ≡ some a))
Option-cases none = inl refl
Option-cases (some a) = inr (a, refl)

decide_by : (a b : String) → (str_eq a b ≡ true) ⊎ (str_eq a b ≡ false) → Dec (a ≡ b)
decide_by a b (inl e) = yes ((eq_iff a b).0 e)
decide_by a b (inr e) = no (λ p. ground (arith, (eq_iff a b).1 p))

-- Equality of texts, decided by the native test.
unfoldable pub String_discrete : Discrete String
unfolding decide_by Bool-cases
String_discrete a b = decide_by a b (Bool-cases (str_eq a b))

-- Two texts that the native test tells apart.
pub ne_by_test : (a b : String) → str_eq a b ≡ false → a ≢ b
ne_by_test a b h = λ p. ground (arith, (eq_iff a b).1 p)

-- `not s`, of a text
abbrev pub is_empty : String → Bool
is_empty s = ite (String_discrete s "") true false
