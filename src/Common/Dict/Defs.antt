-- ===== src/Common/Dict/Defs.antt =====
-- The operations of a dictionary.
use Prim.Native.String.{String}
use mathlib.Core.Path.{◌≡◌}
use mathlib.Core.Logic.{ite}
use mathlib.Core.Bool.{Bool}
use mathlib.Core.Option.{Option, none, some}
use mathlib.Core.List.{List, [], ◌∷◌}
use stpt_query.Common.Tests.{String_discrete, if◌then◌else◌}

abbrev pub Dict {ℓ} : Type ℓ → Type ℓ
Dict V = List (String × V)

module _ {ℓ} {V : Type ℓ} where
  -- `d.get(k)`
  unfoldable pub get : String → Dict V → Option V
  get k [] = none
  get k ((j, v) ∷ d) = ite (String_discrete j k) (some v) (get k d)

  -- `d[k] = v`: an old key keeps its place, a new one goes to the end
  unfoldable pub put : String → V → Dict V → Dict V
  put k v [] = (k, v) ∷ []
  put k v ((j, w) ∷ d) = ite (String_discrete j k) ((j, v) ∷ d) ((j, w) ∷ put k v d)

  -- `d.pop(k, None)`
  unfoldable pub pop : String → Dict V → Dict V
  pop k [] = []
  pop k ((j, v) ∷ d) = let rest = pop k d in ite (String_discrete j k) rest ((j, v) ∷ rest)

  -- `{k: v for k, v in d.items() if p(v)}`
  unfoldable pub keep : (V → Bool) → Dict V → Dict V
  keep p [] = []
  keep p ((j, v) ∷ d) = let rest = keep p d in if p v then (j, v) ∷ rest else rest

  -- Each key stands once.
  abbrev pub Distinct : Dict V → Type ℓ
  Distinct [] = Unit
  Distinct ((k, v) ∷ d) = (get k d ≡ none) × Distinct d
