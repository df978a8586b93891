-- ===== src/Cache/Writes.antt =====
-- What `set` stores, what it may remove, and the invariant over any sequence of calls.
use stpt_query.Common.{
  ℕ, ◌+◌, ◌*◌, ◌≤◌, ◌<◌, String, Bool, ◌≡◌, ◌≢◌, Option, none, some, List, [], ◌∷◌, arith, length,
  ltb, if◌then◌else◌, inl, inr, ◌⊎◌, Option-cases, Bool-cases,
}
use stpt_query.Common.Dict
use stpt_query.Common.Dict.{
  Dict, Distinct, get-put, get-pop, get-keep, put-Distinct, pop-Distinct, keep-Distinct, length-pop,
  length-put-le, length-keep-le, length-pop-le,
}
use stpt_query.Clock.{second, or_clock}
use stpt_query.Cache
use stpt_query.Cache.{Entry, TtlCache, lifetime, make_room, is_off}
use stpt_query.Cache.Bound.{
  unexpired, make_room-Distinct, length-make_room, get-make_room-some, get-make_room-none,
}

module _ {A P : Type 0} where
  pub record IsBounded (c : TtlCache A P) : Type 0 where
    pub distinct : Distinct c.entries
    pub bounded : length c.entries ≤ c.max_items
    pub room : 1 ≤ c.max_items

  module _ (key : String) (value : A) (ttl : Option ℕ) (payload : Option P) (now later : ℕ)
      (c : TtlCache A P) (h : IsBounded c) where
    abbrev stored : TtlCache A P
    stored = Cache.set key value ttl payload now later c

    abbrev entry : Entry A P
    entry = record { exp = later + lifetime ttl c * second; value = value; payload = payload }

    set-IsBounded : IsBounded stored
    unfolding Cache.set
    set-IsBounded =
        let d = make_room c.max_items now c.entries in
        record {
          distinct = ground (
            arith,
            put-Distinct key entry d (make_room-Distinct c.max_items now c.entries h.distinct),
            h.distinct,
          );
          bounded = ground (
            arith,
            length-put-le key entry d,
            length-make_room c.max_items now c.entries h.distinct h.room h.bounded,
            h.bounded,
          );
          room = ground (arith, h.room);
        }

    -- In a cache that is within its bounds and has a time to live, `get` and `get_payload` find
    -- what `set` stored under a key that is not empty up to its expiry, and nothing under it
    -- from then on.
    pub get-set :
        (t : ℕ)
        → 0 < c.ttl
        → key ≢ ""
        → ((Cache.get key t stored).1
            ≡ (if ltb t (later + lifetime ttl c * second) then some value else none))
          × (Cache.get_payload key t stored
              ≡ (if ltb t (later + lifetime ttl c * second) then payload else none))
    unfolding Cache.set Cache.get Cache.get_payload
    get-set t on named =
        let e = get-put key key entry (make_room c.max_items now c.entries) in
        (ground (arith, e), ground (arith, e))

    -- In a cache that is within its bounds, `set` leaves the entry of another key as it is, or
    -- removes it from a cache that is full, where it had expired or where at least `max_items`
    -- entries had not.
    pub set_ne :
        (j : String) (e : Entry A P)
        → j ≢ key
        → Dict.get j c.entries ≡ some e
        → (Dict.get j stored.entries ≡ some e)
          ⊎ ((Dict.get j stored.entries ≡ none)
              × (c.max_items ≡ length c.entries)
              × ((e.exp ≤ now) ⊎ (c.max_items ≤ length (unexpired now c.entries))))
    unfolding Cache.set
    set_ne j e ne old =
        let d = make_room c.max_items now c.entries in
        let stays = get-put j key entry d in
        elim (Option-cases (Dict.get j d)) [
          | inr (x, f) ↦
              let same = get-make_room-some c.max_items now c.entries h.distinct j x f in
              inl (ground (arith, stays, same))
          | inl f ↦
              let gone = get-make_room-none c.max_items now c.entries h.distinct j e old f in
              elim (Bool-cases (is_off key c)) [
                | inl off ↦ inl (ground arith)
                | inr on ↦ inr (ground (arith, stays), omega (arith, gone.0, h.bounded), gone.1)
              ]
        ]

pub data Call (A P : Type 0) : Type 0 where
  get : String → ℕ → Call A P
  delete : String → Call A P
  set : String → A → Option ℕ → Option P → ℕ → ℕ → Call A P
  sweep : Option ℕ → ℕ → Call A P

module _ {A P : Type 0} where
  -- The cache after a call; `get_payload` changes nothing.
  unfoldable pub after : TtlCache A P → Call A P → TtlCache A P
  after c (Call.get key now) = (Cache.get key now c).0
  after c (Call.delete key) = Cache.delete key c
  after c (Call.set key value ttl payload now later) = Cache.set key value ttl payload now later c
  after c (Call.sweep now clock) = (Cache.sweep now clock c).0

  unfoldable pub run : TtlCache A P → List (Call A P) → TtlCache A P
  run c [] = c
  run c (x ∷ xs) = run (after c x) xs

  after-IsBounded : (c : TtlCache A P) (x : Call A P) → IsBounded c → IsBounded (after c x)
  unfolding after Cache.get Cache.delete Cache.sweep
  after-IsBounded c (Call.get key now) h = record {
    distinct = ground (arith, h.distinct, pop-Distinct key c.entries h.distinct);
    bounded = ground (arith, h.bounded, length-pop-le key c.entries);
    room = ground (arith, h.room);
  }
  after-IsBounded c (Call.delete key) h = record {
    distinct = ground (arith, h.distinct, pop-Distinct key c.entries h.distinct);
    bounded = ground (arith, h.bounded, length-pop-le key c.entries);
    room = ground (arith, h.room);
  }
  after-IsBounded c (Call.set key value ttl payload now later) h =
      set-IsBounded key value ttl payload now later c h
  after-IsBounded c (Call.sweep now clock) h =
      let live : Entry A P → Bool = λ e. ltb (or_clock now clock) e.exp in
      record {
        distinct = ground (arith, h.distinct, keep-Distinct live c.entries h.distinct);
        bounded = ground (arith, h.bounded, length-keep-le live c.entries);
        room = ground (arith, h.room);
      }

  run-IsBounded : (c : TtlCache A P) (xs : List (Call A P)) → IsBounded c → IsBounded (run c xs)
  unfolding run
  run-IsBounded c [] h = h
  run-IsBounded c (x ∷ xs) h = run-IsBounded (after c x) xs (after-IsBounded c x h)

  -- From a new cache, after any calls, each key is held once and there are at most `max_items`
  -- entries.
  pub writes-IsBounded :
      (ttl max_items : ℕ) (xs : List (Call A P)) → IsBounded (run (Cache.init ttl max_items) xs)
  unfolding Cache.init
  writes-IsBounded ttl max_items xs =
      run-IsBounded (Cache.init ttl max_items) xs
        (record { distinct = tt; bounded = omega arith; room = omega arith })
