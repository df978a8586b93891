-- ===== src/Common/Names.antt =====
-- Python's set of texts, as a list of its members.
use Prim.Native.String.{String}
use mathlib.Core.Path.{◌≡◌, refl}
use mathlib.Core.Logic.{ite}
use mathlib.Core.Bool.{Bool, true, false}
use mathlib.Core.List.{List, [], ◌∷◌}
use native.Mathlib.Omega.{arith}
use stpt_query.Common.Tests.{String_discrete}

-- `k in s`
unfoldable pub has : String → List String → Bool
has k [] = false
has k (x ∷ xs) = ite (String_discrete x k) true (has k xs)

-- `s.add(k)`
unfoldable pub add : String → List String → List String
add k [] = k ∷ []
add k (x ∷ xs) = ite (String_discrete x k) (x ∷ xs) (x ∷ add k xs)

-- `s.discard(k)`
unfoldable pub discard : String → List String → List String
discard k [] = []
discard k (x ∷ xs) = let rest = discard k xs in ite (String_discrete x k) rest (x ∷ rest)

pub has-add :
    (j k : String) (s : List String) → has j (add k s) ≡ ite (String_discrete k j) true (has j s)
unfolding has add
has-add j k [] = refl
has-add j k (x ∷ xs) = ground (arith, has-add j k xs)

pub has-discard :
    (j k : String) (s : List String)
    → has j (discard k s) ≡ ite (String_discrete k j) false (has j s)
unfolding has discard
has-discard j k [] = ground arith
has-discard j k (x ∷ xs) = ground (arith, has-discard j k xs)
