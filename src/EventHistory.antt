-- ===== src/EventHistory.antt =====
-- `MemoryEventHistory` of app/history.py: the latest events of each key, in a queue of bounded length.
pub mod Latest
mod Tests
use stpt_query.Common.{
  ℕ, suc, ◌+◌, zero, max, String, Bool, true, false, not, ◌&&◌, ◌||◌, Option, none, some, List, [],
  ◌∷◌, ◌++◌, length, ltb, ◌==◌, if◌then◌else◌, ite, String_discrete,
}
use stpt_query.Common.Dict
use stpt_query.Common.Dict.{Dict}
use Prim.Native.Nat.{Ordering}
use Prim.Native.String.{compare}

-- An event with its score and the digest that identifies it, which is an argument of `add`.
pub record Item {ℓ} (E : Type ℓ) : Type ℓ where
  pub score : ℕ
  pub member : String
  pub event : E

pub record EventHistory {ℓ} (E : Type ℓ) : Type ℓ where
  pub limit : ℕ
  pub events : Dict (List (Item E))

-- `__init__`
unfoldable pub init {ℓ} : {E : Type ℓ} → ℕ → EventHistory E
init limit = record { limit = max 1 limit; events = [] }

module _ {ℓ} {E : Type ℓ} where
  -- The events with another digest.
  abbrev pub without : String → List (Item E) → List (Item E)
  without m [] = []
  without m (x ∷ xs) = let rest = without m xs in ite (String_discrete x.member m) rest (x ∷ rest)

  -- `append` to a `deque` with `maxlen`: the oldest event makes room.
  abbrev pub append_bounded : ℕ → List (Item E) → Item E → List (Item E)
  append_bounded limit [] x = x ∷ []
  append_bounded limit (y ∷ ys) x =
      if ltb (length (y ∷ ys)) limit then (y ∷ ys) ++ (x ∷ []) else ys ++ (x ∷ [])

  abbrev pub queue_of : Option (List (Item E)) → List (Item E)
  queue_of none = []
  queue_of (some xs) = xs

  unfoldable pub add : String → Item E → EventHistory E → EventHistory E
  add key x h =
      let old = queue_of (Dict.get key h.events) in
      record h { events = Dict.put key (append_bounded h.limit (without x.member old) x) h.events }

  -- Whether the first comes before the second in descending order of score and digest.
  abbrev pub is_before : Item E → Item E → Bool
  is_before x y =
      ltb y.score x.score
      || ((x.score == y.score) && elim (compare y.member x.member) [
        | Ordering.lt ↦ true
        | Ordering.eq ↦ false
        | Ordering.gt ↦ false
      ])

  abbrev pub insert_item : Item E → List (Item E) → List (Item E)
  insert_item x [] = x ∷ []
  insert_item x (y ∷ ys) =
      let rest = insert_item x ys in if is_before y x then y ∷ rest else x ∷ y ∷ ys

  -- `snapshot.sort(key=..., reverse=True)`
  unfoldable pub sorted : List (Item E) → List (Item E)
  sorted [] = []
  sorted (x ∷ xs) = insert_item x (sorted xs)

  abbrev pub first_items : ℕ → List (Item E) → List (Item E)
  first_items zero xs = []
  first_items (suc n) [] = []
  first_items (suc n) (x ∷ xs) = x ∷ first_items n xs

  -- `recent`, with the scores and digests of the events.
  unfoldable pub recent : String → ℕ → EventHistory E → List (Item E)
  recent key limit h = first_items limit (sorted (queue_of (Dict.get key h.events)))
