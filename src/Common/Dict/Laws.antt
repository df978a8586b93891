-- ===== src/Common/Dict/Laws.antt =====
-- What a dictionary holds after each operation, and how many entries.
use Prim.Native.Nat.{suc, ◌≤◌, ◌+◌}
use Prim.Native.String.{String}
use mathlib.Core.Path.{◌≡◌, refl, subst}
use mathlib.Core.Logic.{ite, if_pos}
use mathlib.Core.Bool.{Bool, not}
use mathlib.Core.Option.{Option, none, some}
use mathlib.Core.List.{[], ◌∷◌}
use native.Mathlib.Omega.{arith}
use stpt_query.Common.Tests.{String_discrete, if◌then◌else◌}
use stpt_query.Common.Lists.{length, All}
use stpt_query.Common.Dict.Defs.{Dict, get, put, pop, keep, Distinct}

module _ {ℓ} {V : Type ℓ} where
  pub get-put :
      (j k : String) (v : V) (d : Dict V)
      → get j (put k v d) ≡ ite (String_discrete k j) (some v) (get j d)
  unfolding get put
  get-put j k v [] = refl
  get-put j k v ((i, w) ∷ d) = ground (arith, get-put j k v d)

  pub get-pop :
      (j k : String) (d : Dict V) → get j (pop k d) ≡ ite (String_discrete k j) none (get j d)
  unfolding get pop
  get-pop j k [] = ground arith
  get-pop j k ((i, w) ∷ d) = ground (arith, get-pop j k d)

  -- The entry that passes the filter.
  abbrev pub sift : (V → Bool) → Option V → Option V
  sift p none = none
  sift p (some v) = if p v then some v else none

  get-keep-none :
      (j : String) (p : V → Bool) (d : Dict V) → get j d ≡ none → get j (keep p d) ≡ none
  unfolding get keep
  get-keep-none j p [] h = refl
  get-keep-none j p ((i, w) ∷ d) h = ground (arith, get-keep-none j p d)

  pub get-keep :
      (j : String) (p : V → Bool) (d : Dict V) → Distinct d → get j (keep p d) ≡ sift p (get j d)
  unfolding get keep
  get-keep j p [] h = refl
  get-keep j p ((i, w) ∷ d) h = ground (arith, get-keep j p d h.1, get-keep-none i p d h.0)

  pub put-Distinct : (k : String) (v : V) (d : Dict V) → Distinct d → Distinct (put k v d)
  unfolding get put
  put-Distinct k v [] h = (refl, tt)
  put-Distinct k v ((i, w) ∷ d) h = ground (arith, put-Distinct k v d h.1, get-put i k v d)

  pub pop-Distinct : (k : String) (d : Dict V) → Distinct d → Distinct (pop k d)
  unfolding get pop
  pop-Distinct k [] h = tt
  pop-Distinct k ((i, w) ∷ d) h = ground (arith, pop-Distinct k d h.1, get-pop i k d)

  pub keep-Distinct : (p : V → Bool) (d : Dict V) → Distinct d → Distinct (keep p d)
  unfolding get keep
  keep-Distinct p [] h = tt
  keep-Distinct p ((i, w) ∷ d) h = ground (arith, keep-Distinct p d h.1, get-keep-none i p d h.0)

  pub pop_absent : (k : String) (d : Dict V) → get k d ≡ none → pop k d ≡ d
  unfolding get pop
  pop_absent k [] h = refl
  pop_absent k ((i, w) ∷ d) h = ground (arith, pop_absent k d)

  pub length-pop :
      (k : String) (v : V) (d : Dict V)
      → Distinct d
      → get k d ≡ some v
      → suc (length (pop k d)) ≡ length d
  unfolding get pop
  length-pop k v [] h e = ground arith
  length-pop k v ((i, w) ∷ d) h e = ground (arith, length-pop k v d h.1, pop_absent k d)

  pub length-pop-le : (k : String) (d : Dict V) → length (pop k d) ≤ length d
  unfolding pop
  length-pop-le k [] = omega arith
  length-pop-le k ((i, w) ∷ d) = ground (arith, length-pop-le k d)

  pub length-keep-le : (p : V → Bool) (d : Dict V) → length (keep p d) ≤ length d
  unfolding keep
  length-keep-le p [] = omega arith
  length-keep-le p ((i, w) ∷ d) = ground (arith, length-keep-le p d)

  pub length-put-le : (k : String) (v : V) (d : Dict V) → length (put k v d) ≤ suc (length d)
  unfolding put
  length-put-le k v [] = omega arith
  length-put-le k v ((i, w) ∷ d) = ground (arith, length-put-le k v d)

  pub length-put_old :
      (k : String) (v w : V) (d : Dict V) → get k d ≡ some w → length (put k v d) ≡ length d
  unfolding get put
  length-put_old k v w [] e = ground arith
  length-put_old k v w ((i, u) ∷ d) e = ground (arith, length-put_old k v w d)

  pub length-put_new :
      (k : String) (v : V) (d : Dict V) → get k d ≡ none → length (put k v d) ≡ suc (length d)
  unfolding get put
  length-put_new k v [] e = refl
  length-put_new k v ((i, u) ∷ d) e = ground (arith, length-put_new k v d)

  -- Every entry that a key finds has what all entries have.
  pub All-get {κ} :
      (P : String × V → Type κ) (d : Dict V) (k : String) (v : V)
      → All P d
      → get k d ≡ some v
      → P (k, v)
  unfolding get
  All-get P [] k v h e = absurd (ground arith)
  All-get P ((i, w) ∷ d) k v h e = elim (String_discrete i k) [
    | yes p ↦
        let q : w ≡ v = ground arith in
        subst (λ (x : String). P (x, v)) p (subst (λ (x : V). P (i, x)) q h.0)
    | no p ↦ All-get P d k v h.1 (ground arith)
  ]

  All-tail :
      (k : String) (v : V) (d rest : Dict V)
      → get k rest ≡ none
      → All (λ e. get e.0 rest ≡ some e.1) d
      → All (λ e. get e.0 ((k, v) ∷ rest) ≡ some e.1) d
  unfolding get
  All-tail k v [] rest h a = tt
  All-tail k v ((i, w) ∷ d) rest h a = (ground (arith, a.0), All-tail k v d rest h a.1)

  -- With each key once, every entry is found by its key.
  pub All-found : (d : Dict V) → Distinct d → All (λ e. get e.0 d ≡ some e.1) d
  unfolding get
  All-found [] h = tt
  All-found ((k, v) ∷ d) h =
      (if_pos (String_discrete k k) refl _ _, All-tail k v d d h.0 (All-found d h.1))

  All-map {κ μ} :
      (P : String × V → Type κ) (Q : String × V → Type μ)
      → ((e : String × V) → P e → Q e)
      → (d : Dict V) → All P d
      → All Q d
  All-map P Q f [] a = tt
  All-map P Q f (e ∷ d) a = (f e a.0, All-map P Q f d a.1)

  -- What holds of every entry that a key finds holds of all entries.
  pub All-Distinct {κ} :
      (P : String × V → Type κ) (d : Dict V)
      → Distinct d
      → ((k : String) (v : V) → get k d ≡ some v → P (k, v))
      → All P d
  All-Distinct P d h f =
      All-map (λ e. get e.0 d ≡ some e.1) P (λ e q. f e.0 e.1 q) d (All-found d h)

  -- A filter and its complement share the entries out.
  pub length-keep-not :
      (p : V → Bool) (d : Dict V) → length (keep p d) + length (keep (λ v. not (p v)) d) ≡ length d
  unfolding keep
  length-keep-not p [] = omega arith
  length-keep-not p ((i, w) ∷ d) = ground (arith, length-keep-not p d)
