-- ===== src/Cache/Lookup.antt =====
-- What a look-up in the cache returns after each operation.
use stpt_query.Common.{
  ℕ, ◌≤◌, ◌<◌, String, ◌≡◌, ◌≢◌, Option, none, some, ite, arith, ltb, leb, if◌then◌else◌,
  String_discrete, inl, inr, ◌⊎◌, Option-cases,
}
use stpt_query.Common.Dict
use stpt_query.Common.Dict.{Dict, Distinct, get-put, get-pop, get-keep, sift}
use stpt_query.Clock.{or_clock}
use stpt_query.Cache.{Entry, TtlCache, get, get_payload, set, sweep}

module _ {A P : Type 0} where
  -- The entry, while it has not expired.
  abbrev pub live_at : ℕ → Option (Entry A P) → Option (Entry A P)
  live_at t none = none
  live_at t (some e) = if leb e.exp t then none else some e

  abbrev pub value_of : Option (Entry A P) → Option A
  value_of none = none
  value_of (some e) = some e.value

  abbrev pub payload_of : Option (Entry A P) → Option P
  payload_of none = none
  payload_of (some e) = e.payload

  -- With a time to live and a key that is not empty, `get` returns the value and `get_payload`
  -- the payload of an entry that has not expired and nothing otherwise, and `get` changes
  -- nothing but to drop the entry of its key where it has expired.
  pub get_fresh :
      (key : String) (t : ℕ) (c : TtlCache A P)
      → 0 < c.ttl
      → key ≢ ""
      → ((get key t c).1 ≡ value_of (live_at t (Dict.get key c.entries)))
        × (get_payload key t c ≡ payload_of (live_at t (Dict.get key c.entries)))
        × ((j : String)
            → Dict.get j (get key t c).0.entries
              ≡ ite
                  (String_discrete key j)
                  (live_at t (Dict.get j c.entries))
                  (Dict.get j c.entries))
  unfolding get get_payload
  get_fresh key t c on named = elim (Option-cases (Dict.get key c.entries)) [
    | inl e ↦ (ground arith, ground arith, λ j. ground arith)
    | inr (r, e) ↦ (ground arith, ground arith, λ j. ground (arith, get-pop j key c.entries))
  ]

  -- With a time to live of zero, or for the empty key, the cache keeps and returns nothing.
  pub off_lem :
      (key : String) (value : A) (ttl : Option ℕ) (payload : Option P) (now later t : ℕ)
      (c : TtlCache A P)
      → (c.ttl ≡ 0) ⊎ (key ≡ "")
      → (set key value ttl payload now later c ≡ c)
        × ((get key t c).1 ≡ none)
        × (get_payload key t c ≡ none)
  unfolding set get get_payload
  off_lem key value ttl payload now later t c off = (ground arith, ground arith, ground arith)

  -- A sweep removes the entries that have expired by then, and no other.
  pub get-sweep :
      (j : String) (now : Option ℕ) (clock : ℕ) (c : TtlCache A P)
      → 0 < c.ttl
      → Distinct c.entries
      → Dict.get j (sweep now clock c).0.entries
        ≡ live_at (or_clock now clock) (Dict.get j c.entries)
  unfolding sweep
  get-sweep j now clock c on h =
      ground (arith, get-keep j (λ e. ltb (or_clock now clock) e.exp) c.entries h)

  -- In a cache without duplicate keys, at a time not before the sweep, `get` and `get_payload`
  -- return the same whether the sweep was made or not.
  pub get-sweep_same :
      (key : String) (now : Option ℕ) (clock t : ℕ) (c : TtlCache A P)
      → Distinct c.entries
      → or_clock now clock ≤ t
      → ((get key t (sweep now clock c).0).1 ≡ (get key t c).1)
        × (get_payload key t (sweep now clock c).0 ≡ get_payload key t c)
  unfolding get get_payload sweep
  get-sweep_same key now clock t c h le =
      let e = get-keep key (λ e. ltb (or_clock now clock) e.exp) c.entries h in
      (ground (arith, e), ground (arith, e))
