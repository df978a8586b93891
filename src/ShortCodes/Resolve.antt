-- ===== src/ShortCodes/Resolve.antt =====
-- What the store holds after each operation, and its bound.
use stpt_query.Common.{
  ℕ, suc, ◌+◌, ◌*◌, ◌≤◌, ◌<◌, String, Bool, ◌≡◌, Option, none, some, arith, length, ltb, leb,
  if◌then◌else◌, inl, inr, Option-cases,
}
use stpt_query.Common.Dict
use stpt_query.Common.Dict.{
  Dict, Distinct, get-put, get-pop, get-keep, put-Distinct, pop-Distinct, keep-Distinct, length-pop,
  length-put-le, length-keep-le, length-pop-le, least_lem, least-ne_none,
}
use stpt_query.Clock.{second}
use stpt_query.ShortCodes
use stpt_query.ShortCodes.{Ticket, ShortCodeStore, pop_least}

-- The ticket, while its expiry has not passed.
abbrev pub live_at : ℕ → Option Ticket → Option Ticket
live_at t none = none
live_at t (some k) = if ltb k.exp t then none else some k

abbrev pub sid_of : Option Ticket → Option String
sid_of none = none
sid_of (some k) = some k.sid

pub record IsBounded (s : ShortCodeStore) : Type 0 where
  pub distinct : Distinct s.codes
  pub bounded : length s.codes ≤ s.max_codes
  pub room : 1 ≤ s.max_codes

abbrev expiry : Ticket → ℕ
expiry k = k.exp

module _ (d : Dict Ticket) (h : Distinct d) where
  pop_least-Distinct : (o : Option (String × Ticket)) → Distinct (pop_least o d)
  unfolding pop_least
  pop_least-Distinct none = h
  pop_least-Distinct (some (k, t)) = pop-Distinct k d h

  length-pop_least : 0 < length d → suc (length (pop_least (Dict.least expiry d) d)) ≡ length d
  unfolding pop_least
  length-pop_least lt = elim (Option-cases (Dict.least expiry d)) [
    | inl e ↦ absurd (least-ne_none expiry d lt e)
    | inr (y, e) ↦ rw (e, pop_least) (length-pop y.0 y.1 d h (least_lem expiry d y.0 y.1 h e).0)
  ]

pub prune-IsBounded :
    (now : ℕ) (s : ShortCodeStore) → IsBounded s → IsBounded (ShortCodes.prune now s)
unfolding ShortCodes.prune
prune-IsBounded now s h = record {
  distinct = keep-Distinct _ s.codes h.distinct;
  bounded = omega (arith, h.bounded, length-keep-le (λ (t : Ticket). leb now t.exp) s.codes);
  room = h.room;
}

-- After an eviction there is room for one more code.
evict_room :
    (s : ShortCodeStore)
    → IsBounded s
    → Distinct (ShortCodes.evict s).codes
      × (suc (length (ShortCodes.evict s).codes) ≤ s.max_codes)
      × ((ShortCodes.evict s).max_codes ≡ s.max_codes)
unfolding ShortCodes.evict
evict_room s h = (
  ground (arith, h.distinct, pop_least-Distinct s.codes h.distinct (Dict.least expiry s.codes)),
  ground (arith, h.bounded, h.room, length-pop_least s.codes h.distinct),
  ground arith,
)

pub mint-IsBounded :
    (code sid : String) (now : ℕ) (s : ShortCodeStore)
    → IsBounded s
    → IsBounded (ShortCodes.mint code sid now s)
unfolding ShortCodes.mint
mint-IsBounded code sid now s h =
    let pruned = prune-IsBounded now s h in
    let (once, fits, same) = evict_room (ShortCodes.prune now s) pruned in
    let s' = ShortCodes.evict (ShortCodes.prune now s) in
    let t : Ticket = record { sid = sid; exp = now + s.ttl * second } in
    record {
      distinct = put-Distinct code _ s'.codes once;
      bounded = omega (arith, length-put-le code t s'.codes, fits, same);
      room = omega (arith, pruned.room, same);
    }

pub resolve-IsBounded :
    (code : String) (consume : Bool) (now : ℕ) (s : ShortCodeStore)
    → IsBounded s
    → IsBounded (ShortCodes.resolve code consume now s).0
unfolding ShortCodes.resolve
resolve-IsBounded code consume now s h = record {
  distinct = ground (arith, h.distinct, pop-Distinct code s.codes h.distinct);
  bounded = ground (arith, h.bounded, length-pop-le code s.codes);
  room = ground (arith, h.room);
}
