-- ===== src/Common/Dict/Least.antt =====
-- `min(d, key=lambda k: f(d[k]))`: the first entry with the least measure.
use Prim.Native.Nat.{ℕ, ◌≤◌, ◌<◌}
use Prim.Native.String.{String}
use mathlib.Core.Path.{◌≡◌, refl, subst}
use mathlib.Core.Logic.{◌≢◌, if_neg}
use mathlib.Core.Option.{Option, none, some, some-injective}
use mathlib.Core.List.{[], ◌∷◌}
use native.Mathlib.Omega.{arith}
use mathlib.Core.Bool.{Bool, true, false}
use stpt_query.Common.Tests.{String_discrete, ltb, if◌then◌else◌}
use stpt_query.Common.Lists.{length, All}
use stpt_query.Common.Dict.Defs.{Dict, get, put, Distinct}
use stpt_query.Common.Dict.Laws.{All-get, All-found}

pick_if {ℓ κ} :
    {A : Type ℓ} (P : A → Type κ) (b : Bool) (x y : A) → P x → P y → P (if b then x else y)
pick_if P true x y hx hy = hx
pick_if P false x y hx hy = hy

module _ {ℓ} {V : Type ℓ} (f : V → ℕ) where
  -- The loop of `min`, with the best entry so far.
  least_from : String × V → Dict V → String × V
  least_from best [] = best
  least_from best (e ∷ d) = least_from (if ltb (f e.1) (f best.1) then e else best) d

  -- `none` for the empty dictionary, where `min` raises.
  unfoldable pub least : Dict V → Option (String × V)
  unfolding least_from
  least [] = none
  least (e ∷ d) = some (least_from e d)

  least_from-le : (best : String × V) (d : Dict V) → f (least_from best d).1 ≤ f best.1
  unfolding least_from
  least_from-le best [] = omega arith
  least_from-le best (e ∷ d) =
      ground (arith, least_from-le (if ltb (f e.1) (f best.1) then e else best) d)

  least_from_minimal :
      (best : String × V) (d : Dict V) → All (λ e. f (least_from best d).1 ≤ f e.1) d
  unfolding least_from
  least_from_minimal best [] = tt
  least_from_minimal best (e ∷ d) =
      let b = if ltb (f e.1) (f best.1) then e else best in
      (ground (arith, least_from-le b d), least_from_minimal b d)

  least_from_keeps {κ} :
      (P : String × V → Type κ) (best : String × V) (d : Dict V)
      → P best
      → All P d
      → P (least_from best d)
  unfolding least_from
  least_from_keeps P best [] h a = h
  least_from_keeps P best (e ∷ d) h a =
      least_from_keeps P (if ltb (f e.1) (f best.1) then e else best) d
        (pick_if P (ltb (f e.1) (f best.1)) e best a.0 h) a.1

  -- What `least` promises of the entry that it chooses from `d`.
  abbrev Chosen : Dict V → String × V → Type ℓ
  Chosen d x = (get x.0 d ≡ some x.1) × ((j : String) (w : V) → get j d ≡ some w → f x.1 ≤ f w)

  least_from-Chosen :
      (e : String × V) (d : Dict V) → Distinct (e ∷ d) → Chosen (e ∷ d) (least_from e d)
  least_from-Chosen e d h =
      let found = All-found (e ∷ d) h in
      (
        least_from_keeps (λ x. get x.0 (e ∷ d) ≡ some x.1) e d found.0 found.1,
        λ j w q.
            All-get (λ x. f (least_from e d).1 ≤ f x.1) (e ∷ d) j w
              (least_from-le e d, least_from_minimal e d) q,
      )

  -- The chosen entry is in the dictionary, and no entry measures less.
  pub least_lem :
      (d : Dict V) (k : String) (v : V)
      → Distinct d
      → least d ≡ some (k, v)
      → (get k d ≡ some v) × ((j : String) (w : V) → get j d ≡ some w → f v ≤ f w)
  unfolding least
  least_lem [] k v h e = absurd (ground arith)
  least_lem (x ∷ d) k v h e =
      subst (Chosen (x ∷ d)) (some-injective _ _ e) (least_from-Chosen x d h)

  -- Only the empty dictionary has no least entry.
  pub least-ne_none : (d : Dict V) → 0 < length d → least d ≢ none
  unfolding least
  least-ne_none [] lt = elim lt [ ]
  least-ne_none (e ∷ d) lt = ground arith

module _ {ℓ} {V : Type ℓ} (f : V → ℕ) (k : String) (v : V) where
  least_from-put_new :
      (best : String × V) (d : Dict V)
      → best.0 ≢ k
      → f best.1 ≤ f v
      → get k d ≡ none
      → All (λ e. f e.1 ≤ f v) d
      → (least_from f best (put k v d)).0 ≢ k
  unfolding least_from get put
  least_from-put_new best [] ne le fresh a = ground arith
  least_from-put_new best ((i, w) ∷ d) ne le fresh a = elim (String_discrete i k) [
    | yes p ↦ absurd (ground arith)
    | no p ↦ rw (if_neg _ p) (
        least_from-put_new (if ltb (f w) (f best.1) then (i, w) else best) d (ground arith)
          (ground (arith, a.0)) (ground arith) a.1)
  ]

  -- Among several, a new entry that measures no less than the others is not chosen.
  pub least-put_new :
      (d : Dict V) (x : String × V)
      → get k d ≡ none
      → All (λ e. f e.1 ≤ f v) d
      → d ≢ []
      → least f (put k v d) ≡ some x
      → x.0 ≢ k
  unfolding least get put
  least-put_new [] x fresh a ne e = absurd (ne refl)
  least-put_new ((i, w) ∷ d) x fresh a ne e = elim (String_discrete i k) [
    | yes p ↦ absurd (ground arith)
    | no p ↦ ground (arith, least_from-put_new (i, w) d p a.0 (ground arith) a.1)
  ]
