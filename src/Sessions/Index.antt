-- ===== src/Sessions/Index.antt =====
-- `by_user`: from a user name to the set of that user's session ids, never an empty set.
use stpt_query.Common.{
  String, Bool, true, false, ◌≡◌, ◌≢◌, Option, none, some, List, [], ◌∷◌, ite, arith, inl, inr,
  Option-cases, String_discrete,
}
use stpt_query.Common.Dict
use stpt_query.Common.Dict.{Dict, get-put, get-pop, put-Distinct, pop-Distinct, Distinct}
use stpt_query.Common.Names
use stpt_query.Common.Names.{has-add, has-discard}

abbrev members : Option (List String) → List String
members none = []
members (some sids) = sids

-- `by_user.setdefault(user, set()).add(sid)`
unfoldable pub index : String → String → Dict (List String) → Dict (List String)
index user sid m = Dict.put user (Names.add sid (members (Dict.get user m))) m

store_rest : String → List String → Dict (List String) → Dict (List String)
store_rest user [] m = Dict.pop user m
store_rest user (x ∷ xs) m = Dict.put user (x ∷ xs) m

-- The part of `_drop` on `by_user`.
unfoldable pub unindex : String → String → Dict (List String) → Dict (List String)
unfolding store_rest
unindex user sid m = elim (Dict.get user m) [
  | none ↦ m
  | some sids ↦ store_rest user (Names.discard sid sids) m
]

-- `sid in by_user.get(user, ())`
unfoldable pub holds : Dict (List String) → String → String → Bool
holds m user sid = Names.has sid (members (Dict.get user m))

add-ne-nil : (k : String) (s : List String) → Names.add k s ≢ []
unfolding Names.add
add-ne-nil k [] = ground arith
add-ne-nil k (x ∷ xs) = ground arith

-- No user is kept with an empty set.
abbrev pub IsFilled : Dict (List String) → Type 0
IsFilled m = (user : String) → Dict.get user m ≢ some []

abbrev kept : List String → Option (List String)
kept [] = none
kept (x ∷ xs) = some (x ∷ xs)

module _ (user : String) (m : Dict (List String)) where
  get-store_rest :
      (u : String) (xs : List String)
      → Dict.get u (store_rest user xs m) ≡ ite (String_discrete user u) (kept xs) (Dict.get u m)
  unfolding store_rest
  get-store_rest u [] = get-pop u user m
  get-store_rest u (x ∷ xs) = get-put u user (x ∷ xs) m

  store_rest-Distinct : (xs : List String) → Distinct m → Distinct (store_rest user xs m)
  unfolding store_rest
  store_rest-Distinct [] h = pop-Distinct user m h
  store_rest-Distinct (x ∷ xs) h = put-Distinct user (x ∷ xs) m h

  holds-store_rest :
      (xs : List String) (u j : String)
      → holds (store_rest user xs m) u j
        ≡ ite (String_discrete user u) (Names.has j xs) (holds m u j)
  unfolding holds Names.has
  holds-store_rest [] u j = ground (arith, get-store_rest u [])
  holds-store_rest (x ∷ xs) u j = ground (arith, get-store_rest u (x ∷ xs))

module _ (user sid : String) (m : Dict (List String)) where
  pub holds-index :
      (u j : String)
      → holds (index user sid m) u j
        ≡ ite
            (String_discrete user u)
            (ite (String_discrete sid j) true (holds m u j))
            (holds m u j)
  unfolding holds index
  holds-index u j =
      let sids = members (Dict.get user m) in
      ground (arith, get-put u user (Names.add sid sids) m, has-add j sid sids)

  pub holds-unindex :
      (u j : String)
      → holds (unindex user sid m) u j
        ≡ ite
            (String_discrete user u)
            (ite (String_discrete sid j) false (holds m u j))
            (holds m u j)
  unfolding unindex
  holds-unindex u j = elim (Option-cases (Dict.get user m)) [
    | inl e ↦ rw (e, unindex) (unfold holds Names.has in ground arith)
    | inr (sids, e) ↦
        rw
          (e, unindex, holds-store_rest user m (Names.discard sid sids) u j, has-discard j sid sids)
          (unfold holds in ground arith)
  ]

  pub index-Distinct : Distinct m → Distinct (index user sid m)
  unfolding index
  index-Distinct h = put-Distinct user (Names.add sid (members (Dict.get user m))) m h

  pub unindex-Distinct : Distinct m → Distinct (unindex user sid m)
  unfolding unindex
  unindex-Distinct h = elim (Option-cases (Dict.get user m)) [
    | inl e ↦ rw (e, unindex) h
    | inr (sids, e) ↦ rw (e, unindex) (store_rest-Distinct user m (Names.discard sid sids) h)
  ]

  pub index-IsFilled : IsFilled m → IsFilled (index user sid m)
  unfolding index
  index-IsFilled h u =
      let sids = members (Dict.get user m) in
      ground (arith, h u, get-put u user (Names.add sid sids) m, add-ne-nil sid sids)

  pub unindex-IsFilled : IsFilled m → IsFilled (unindex user sid m)
  unfolding unindex
  unindex-IsFilled h u = elim (Option-cases (Dict.get user m)) [
    | inl e ↦ rw (e, unindex) (h u)
    | inr (sids, e) ↦
        let rest = Names.discard sid sids in
        rw (e, unindex) (ground (arith, h u, get-store_rest user m u rest))
  ]
