-- ===== src/ShortCodes.antt =====
-- `ShortCodeStore` of app/jwxt_state.py: random codes that stand for a session for a short time.
pub mod Resolve
pub mod Single
mod Tests
use stpt_query.Common.{
  ℕ, ◌+◌, ◌*◌, max, String, Bool, true, false, Option, none, some, List, [], ◌∷◌, length, ltb, leb,
  if◌then◌else◌, not, is_empty,
}
use stpt_query.Common.Dict
use stpt_query.Common.Dict.{Dict}
use stpt_query.Clock.{second, or_clock}

pub record Ticket : Type 0 where
  pub sid : String
  pub exp : ℕ

pub record ShortCodeStore : Type 0 where
  pub ttl : ℕ
  pub max_codes : ℕ
  pub codes : Dict Ticket

-- `__init__`; a negative setting counts as zero, which is raised to the same bound.
unfoldable pub init : ℕ → ℕ → ShortCodeStore
init ttl max_codes = record { ttl = max 1 ttl; max_codes = max 1 max_codes; codes = [] }

-- `_prune`
unfoldable pub prune : ℕ → ShortCodeStore → ShortCodeStore
prune now s = record s { codes = Dict.keep (λ t. leb now t.exp) s.codes }

unfoldable pub pop_least : Option (String × Ticket) → Dict Ticket → Dict Ticket
pop_least none d = d
pop_least (some (oldest, _)) d = Dict.pop oldest d

-- The eviction in `mint`.
unfoldable pub evict : ShortCodeStore → ShortCodeStore
unfolding pop_least
evict s =
    if leb s.max_codes (length s.codes)
    then record s { codes = pop_least (Dict.least (λ t. t.exp) s.codes) s.codes }
    else s

-- `mint`, at the code that `secrets.token_urlsafe` drew
unfoldable pub mint : String → String → ℕ → ShortCodeStore → ShortCodeStore
mint code sid now s =
    let s' = evict (prune now s) in
    record s' { codes = Dict.put code (record { sid = sid; exp = now + s.ttl * second }) s'.codes }

unfoldable pub resolve : String → Bool → ℕ → ShortCodeStore → ShortCodeStore × Option String
resolve code consume now s = if is_empty code then (s, none) else (elim (Dict.get code s.codes) [
  | none ↦ (s, none)
  | some t ↦
      if ltb t.exp now
      then (record s { codes = Dict.pop code s.codes }, none)
      else (if consume then record s { codes = Dict.pop code s.codes } else s, some t.sid)
])

-- `sweep`, with the number of the codes that it removes
unfoldable pub sweep : Option ℕ → ℕ → ShortCodeStore → ShortCodeStore × ℕ
unfolding prune
sweep now clock s = (
  prune (or_clock now clock) s,
  length (Dict.keep (λ t. not (leb (or_clock now clock) t.exp)) s.codes),
)
