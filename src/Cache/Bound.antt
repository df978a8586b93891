-- ===== src/Cache/Bound.antt =====
-- The cache never holds more than `max_items` entries, and what `set` does to make room.
use stpt_query.Common.{
  ℕ, suc, ◌≤◌, ◌<◌, String, ◌≡◌, none, some, [], ◌∷◌, arith, length, ltb, leb, inl, inr, ◌⊎◌,
  Bool-cases,
}
use stpt_query.Common.Dict
use stpt_query.Common.Dict.{
  Dict, Distinct, get-put, get-pop, get-keep, put-Distinct, pop-Distinct, keep-Distinct, length-pop,
  length-put-le, length-keep-le, length-pop-le,
}
use stpt_query.Cache.{Entry, pop_first, make_room}

module _ {A P : Type 0} where
  -- The entries that a clean-up keeps.
  abbrev pub unexpired : ℕ → Dict (Entry A P) → Dict (Entry A P)
  unexpired now = Dict.keep (λ e. ltb now e.exp)

  length-pop_first :
      (d : Dict (Entry A P)) → Distinct d → 0 < length d → suc (length (pop_first d)) ≡ length d
  unfolding pop_first Dict.get
  length-pop_first [] h lt = elim lt [ ]
  length-pop_first ((k, e) ∷ d) h lt = length-pop k e ((k, e) ∷ d) h (ground arith)

  pop_first-Distinct : (d : Dict (Entry A P)) → Distinct d → Distinct (pop_first d)
  unfolding pop_first
  pop_first-Distinct [] h = h
  pop_first-Distinct ((k, e) ∷ d) h = pop-Distinct k ((k, e) ∷ d) h

  -- An entry after `pop_first` was there before.
  get-pop_first :
      (j : String) (d : Dict (Entry A P)) (e : Entry A P)
      → Dict.get j (pop_first d) ≡ some e
      → Dict.get j d ≡ some e
  unfolding pop_first
  get-pop_first j [] e h = h
  get-pop_first j ((k, x) ∷ d) e h = ground (arith, get-pop j k ((k, x) ∷ d))

  module _ (max_items now : ℕ) (d : Dict (Entry A P)) (h : Distinct d) where
    pub make_room-Distinct : Distinct (make_room max_items now d)
    unfolding make_room
    make_room-Distinct =
        let live = keep-Distinct (λ e. ltb now e.exp) d h in
        elim (Bool-cases (leb max_items (length d))) [
          | inr e ↦ rw (e, make_room) h
          | inl e ↦ elim (Bool-cases (leb max_items (length (unexpired now d)))) [
            | inr f ↦ rw (e, make_room, f) live
            | inl f ↦ rw (e, make_room, f) (pop_first-Distinct (unexpired now d) live)
          ]
        ]

    pub length-make_room :
        1 ≤ max_items → length d ≤ max_items → suc (length (make_room max_items now d)) ≤ max_items
    unfolding make_room
    length-make_room room le = ground (
      arith,
      length-keep-le (λ e. ltb now e.exp) d,
      length-pop_first (unexpired now d) (keep-Distinct (λ e. ltb now e.exp) d h),
    )

    -- An entry that is kept is unchanged.
    pub get-make_room-some :
        (j : String) (e : Entry A P)
        → Dict.get j (make_room max_items now d) ≡ some e
        → Dict.get j d ≡ some e
    unfolding make_room
    get-make_room-some j e f =
        ground (arith, get-keep j (λ e. ltb now e.exp) d h, get-pop_first j (unexpired now d) e)

    -- An entry that is removed is expired, or the unexpired ones alone fill the cache.
    pub get-make_room-none :
        (j : String) (e : Entry A P)
        → Dict.get j d ≡ some e
        → Dict.get j (make_room max_items now d) ≡ none
        → (max_items ≤ length d) × ((e.exp ≤ now) ⊎ (max_items ≤ length (unexpired now d)))
    unfolding make_room
    get-make_room-none j e f gone = ground (arith, get-keep j (λ e. ltb now e.exp) d h)
