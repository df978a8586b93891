-- ===== src/EventHistory/Latest.antt =====
-- The queue of a key in app/history.py: its bound, its digests and the newest event.
use stpt_query.Common.{
  ℕ, ◌≤◌, max, ◌≡◌, ◌≢◌, ◌∙◌, sym, refl, String, List, [], ◌∷◌, ◌++◌, All, All-append, length,
  length-append, ltb, if◌then◌else◌, subst, if_pos, if_neg, String_discrete, arith, Bool-cases, inl,
  inr,
}
use stpt_query.Common.Dict
use stpt_query.Common.Dict.{Dict, get-put}
use stpt_query.EventHistory.{Item, EventHistory, init, without, append_bounded, queue_of, add}

module _ {E : Type 0} where
  -- Each digest stands once.
  abbrev pub IsUnique : List (Item E) → Type 0
  IsUnique [] = Unit
  IsUnique (x ∷ xs) = All (λ y. x.member ≢ y.member) xs × IsUnique xs

  -- A queue that is within its bound.
  pub record IsFit (limit : ℕ) (xs : List (Item E)) : Type 0 where
    pub short : length xs ≤ limit
    pub unique : IsUnique xs

  without-All :
      (P : Item E → Type 0) (m : String) (xs : List (Item E)) → All P xs → All P (without m xs)
  without-All P m [] h = tt
  without-All P m (x ∷ xs) h = ground (arith, without-All P m xs h.1, h.0)

  without_absent : (m : String) (xs : List (Item E)) → All (λ y. y.member ≢ m) (without m xs)
  without_absent m [] = tt
  without_absent m (x ∷ xs) = ground (arith, without_absent m xs)

  without-IsUnique : (m : String) (xs : List (Item E)) → IsUnique xs → IsUnique (without m xs)
  without-IsUnique m [] h = tt
  without-IsUnique m (x ∷ xs) h =
      ground (arith, without-IsUnique m xs h.1, without-All (λ y. x.member ≢ y.member) m xs h.0)

  length-without : (m : String) (xs : List (Item E)) → length (without m xs) ≤ length xs
  length-without m [] = omega arith
  length-without m (x ∷ xs) = ground (arith, length-without m xs)

  append-IsUnique :
      (xs : List (Item E)) (x : Item E)
      → IsUnique xs
      → All (λ y. y.member ≢ x.member) xs
      → IsUnique (xs ++ (x ∷ []))
  append-IsUnique [] x h k = (tt, tt)
  append-IsUnique (y ∷ ys) x h k = (
    All-append (λ z. y.member ≢ z.member) ys (x ∷ []) h.0 (k.0, tt),
    append-IsUnique ys x h.1 k.1,
  )

  append_bounded-IsFit :
      (limit : ℕ) (xs : List (Item E)) (x : Item E)
      → 1 ≤ limit
      → length xs ≤ limit
      → IsUnique xs
      → All (λ y. y.member ≢ x.member) xs
      → IsFit limit (append_bounded limit xs x)
  append_bounded-IsFit limit [] x l s u a = record { short = l; unique = (tt, tt) }
  append_bounded-IsFit limit (y ∷ ys) x l s u a = elim (Bool-cases (ltb (length (y ∷ ys)) limit)) [
    | inl e ↦
        rw (e, if◌then◌else◌)
          (record {
            short = ground (arith, length-append (y ∷ ys) (x ∷ []));
            unique = append-IsUnique (y ∷ ys) x u a;
          })
    | inr e ↦
        rw (e, if◌then◌else◌)
          (record {
            short = omega (arith, length-append ys (x ∷ []), s);
            unique = append-IsUnique ys x u.1 a.1;
          })
  ]

  -- The history after some events, each with its key, the last one first.
  unfoldable pub after_events : ℕ → List (String × Item E) → EventHistory E
  after_events limit [] = init limit
  after_events limit ((key, x) ∷ older) = add key x (after_events limit older)

  after_events_limit :
      (limit : ℕ) (es : List (String × Item E)) → (after_events limit es).limit ≡ max 1 limit
  unfolding after_events init add
  after_events_limit limit [] = refl
  after_events_limit limit ((key, x) ∷ older) = after_events_limit limit older

  add-IsFit :
      (h : EventHistory E) (key j : String) (x : Item E)
      → 1 ≤ h.limit
      → ((k : String) → IsFit h.limit (queue_of (Dict.get k h.events)))
      → IsFit h.limit (queue_of (Dict.get j (add key x h).events))
  unfolding add
  add-IsFit h key j x l f =
      let old = queue_of (Dict.get key h.events) in
      let b = f key in
      let queue = append_bounded h.limit (without x.member old) x in
      let fit : IsFit h.limit queue =
        append_bounded-IsFit h.limit (without x.member old) x l
          (omega (arith, length-without x.member old, b.short))
          (without-IsUnique x.member old b.unique) (without_absent x.member old) in
      elim (String_discrete key j) [
        | yes p ↦
            subst (λ o. IsFit h.limit (queue_of o))
              (sym (get-put j key queue h.events ∙ if_pos (String_discrete key j) p _ _)) fit
        | no np ↦
            subst (λ o. IsFit h.limit (queue_of o))
              (sym (get-put j key queue h.events ∙ if_neg (String_discrete key j) np _ _)) (f j)
      ]

  init-IsFit :
      (limit : ℕ) (key : String)
      → IsFit (max 1 limit) (queue_of (Dict.get key (init {E = E} limit).events))
  unfolding init Dict.get
  init-IsFit limit key = record { short = omega arith; unique = tt }

  -- From a new history, after any events of any keys, the queue of every key holds at most the
  -- limit (at least one) and each digest once.
  pub after_events-IsFit :
      (limit : ℕ) (es : List (String × Item E)) (key : String)
      → IsFit (max 1 limit) (queue_of (Dict.get key (after_events limit es).events))
  unfolding after_events
  after_events-IsFit limit [] key = init-IsFit limit key
  after_events-IsFit limit ((k, x) ∷ older) key =
      let h = after_events limit older in
      let same = after_events_limit limit older in
      subst (λ m. IsFit m (queue_of (Dict.get key (add k x h).events))) same
        (add-IsFit h k key x (omega (arith, same)) (λ j.
          subst (λ m. IsFit m (queue_of (Dict.get j h.events))) (sym same)
            (after_events-IsFit limit older j)))
