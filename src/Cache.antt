-- ===== src/Cache.antt =====
-- `TTLCache` of app/jwxt_state.py: results kept in the process for a short time. A value may come
-- with a response body that is already serialised, its payload.
pub mod Lookup
pub mod Bound
pub mod Writes
mod Tests
use stpt_query.Common.{
  ℕ, ◌+◌, ◌*◌, max, String, Bool, true, false, ◌||◌, Option, none, some, List, [], ◌∷◌, ite, length,
  ltb, leb, ◌==◌, if◌then◌else◌, String_discrete, is_empty, not,
}
use stpt_query.Common.Dict
use stpt_query.Common.Dict.{Dict}
use stpt_query.Clock.{second, or_clock}

pub record Entry (A P : Type 0) : Type 0 where
  pub exp : ℕ
  pub value : A
  pub payload : Option P

pub record TtlCache (A P : Type 0) : Type 0 where
  pub ttl : ℕ
  pub max_items : ℕ
  pub entries : Dict (Entry A P)

module _ {A P : Type 0} where
  -- `__init__`; a negative setting counts as zero.
  unfoldable pub init : ℕ → ℕ → TtlCache A P
  init ttl max_items = record { ttl = ttl; max_items = max 1 max_items; entries = [] }

  -- `not self.ttl or not key`
  unfoldable pub is_off : String → TtlCache A P → Bool
  is_off key c = c.ttl == 0 || is_empty key

  unfoldable pub get : String → ℕ → TtlCache A P → TtlCache A P × Option A
  unfolding is_off
  get key now c = if is_off key c then (c, none) else (elim (Dict.get key c.entries) [
    | none ↦ (c, none)
    | some hit ↦
        if leb hit.exp now
        then (record c { entries = Dict.pop key c.entries }, none)
        else (c, some hit.value)
  ])

  unfoldable pub get_payload : String → ℕ → TtlCache A P → Option P
  unfolding is_off
  get_payload key now c = if is_off key c then none else (elim (Dict.get key c.entries) [
    | none ↦ none
    | some hit ↦ if leb hit.exp now then none else hit.payload
  ])

  unfoldable pub delete : String → TtlCache A P → TtlCache A P
  delete key c = if is_empty key then c else record c { entries = Dict.pop key c.entries }

  -- `self.data.pop(next(iter(self.data)), None)`
  unfoldable pub pop_first : Dict (Entry A P) → Dict (Entry A P)
  pop_first [] = []
  pop_first ((k, e) ∷ d) = Dict.pop k ((k, e) ∷ d)

  -- The entries with room for one more: first the expired ones go, then the oldest.
  unfoldable pub make_room : ℕ → ℕ → Dict (Entry A P) → Dict (Entry A P)
  unfolding pop_first
  make_room max_items now d =
      if leb max_items (length d)
      then (let live = Dict.keep (λ e. ltb now e.exp) d in
          if leb max_items (length live) then pop_first live else live)
      else d

  -- The time to live of an entry: the argument, at least a second, or the cache's own.
  unfoldable pub lifetime : Option ℕ → TtlCache A P → ℕ
  lifetime none c = c.ttl
  lifetime (some ttl) c = max 1 ttl

  -- `set`, with the reading of the clock for the clean-up and the one for the expiry
  unfoldable pub set : String → A → Option ℕ → Option P → ℕ → ℕ → TtlCache A P → TtlCache A P
  unfolding is_off
  set key value ttl payload now later c = if is_off key c then c else record c {
    entries =
        Dict.put key
          (record { exp = later + lifetime ttl c * second; value = value; payload = payload })
          (make_room c.max_items now c.entries);
  }

  -- `sweep`, with the number of the entries that it removes
  unfoldable pub sweep : Option ℕ → ℕ → TtlCache A P → TtlCache A P × ℕ
  sweep now clock c =
      let live : Entry A P → Bool = λ e. ltb (or_clock now clock) e.exp in
      if c.ttl == 0 then (c, 0) else (
        record c { entries = Dict.keep live c.entries },
        length (Dict.keep (λ e. not (live e)) c.entries),
      )
