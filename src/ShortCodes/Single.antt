-- ===== src/ShortCodes/Single.antt =====
-- A code stands for its session until its expiry, and only once where it is consumed.
use stpt_query.Common.{
  ℕ, ◌+◌, ◌*◌, String, Bool, true, ◌≡◌, ◌≢◌, Option, none, some, List, [], ◌∷◌, ite, arith, leb,
  if◌then◌else◌, String_discrete, inl, inr, Option-cases,
}
use stpt_query.Common.Dict
use stpt_query.Common.Dict.{Dict, Distinct, get-put, get-pop, get-keep}
use stpt_query.Clock.{second, or_clock}
use stpt_query.ShortCodes
use stpt_query.ShortCodes.{Ticket, ShortCodeStore, pop_least}
use stpt_query.ShortCodes.Resolve.{
  IsBounded, live_at, sid_of, mint-IsBounded, prune-IsBounded, resolve-IsBounded,
}

-- For a code that is not empty, `resolve` returns the session of a live code and none otherwise;
-- it drops the code where it is consumed or has expired, and changes no other.
pub resolve_lem :
    (code : String) (consume : Bool) (t : ℕ) (s : ShortCodeStore)
    → code ≢ ""
    → ((ShortCodes.resolve code consume t s).1 ≡ sid_of (live_at t (Dict.get code s.codes)))
      × ((j : String)
          → Dict.get j (ShortCodes.resolve code consume t s).0.codes
            ≡ ite
                (String_discrete code j)
                (if consume then none else live_at t (Dict.get j s.codes))
                (Dict.get j s.codes))
unfolding ShortCodes.resolve
resolve_lem code consume t s named = elim (Option-cases (Dict.get code s.codes)) [
  | inl e ↦ (ground arith, λ j. ground arith)
  | inr (r, e) ↦ (ground arith, λ j. ground (arith, get-pop j code s.codes))
]

-- A minted code that is not empty resolves to its session up to `ttl` after it was minted, and
-- to none later.
pub resolve-mint :
    (code sid : String) (consume : Bool) (now t : ℕ) (s : ShortCodeStore)
    → code ≢ ""
    → (ShortCodes.resolve code consume t (ShortCodes.mint code sid now s)).1
      ≡ (if leb t (now + s.ttl * second) then some sid else none)
unfolding ShortCodes.resolve ShortCodes.mint
resolve-mint code sid consume now t s named =
    let k : Ticket = record { sid = sid; exp = now + s.ttl * second } in
    ground (arith, get-put code code k (ShortCodes.evict (ShortCodes.prune now s)).codes)

pub data Call : Type 0 where
  mint : String → String → ℕ → Call
  resolve : String → Bool → ℕ → Call
  sweep : Option ℕ → ℕ → Call

-- The store after a call.
unfoldable pub after : ShortCodeStore → Call → ShortCodeStore
after s (Call.mint code sid now) = ShortCodes.mint code sid now s
after s (Call.resolve code consume now) = (ShortCodes.resolve code consume now s).0
after s (Call.sweep now clock) = (ShortCodes.sweep now clock s).0

unfoldable pub run : ShortCodeStore → List Call → ShortCodeStore
run s [] = s
run s (c ∷ cs) = run (after s c) cs

after-IsBounded : (s : ShortCodeStore) (c : Call) → IsBounded s → IsBounded (after s c)
unfolding after ShortCodes.sweep
after-IsBounded s (Call.mint code sid now) h = mint-IsBounded code sid now s h
after-IsBounded s (Call.resolve code consume now) h = resolve-IsBounded code consume now s h
after-IsBounded s (Call.sweep now clock) h = prune-IsBounded (or_clock now clock) s h

run-IsBounded : (s : ShortCodeStore) (cs : List Call) → IsBounded s → IsBounded (run s cs)
unfolding run
run-IsBounded s [] h = h
run-IsBounded s (c ∷ cs) h = run-IsBounded (after s c) cs (after-IsBounded s c h)

-- From a new store, after any calls, each code is held once and there are at most `max_codes`
-- codes.
pub codes-IsBounded :
    (ttl max_codes : ℕ) (cs : List Call) → IsBounded (run (ShortCodes.init ttl max_codes) cs)
unfolding ShortCodes.init
codes-IsBounded ttl max_codes cs =
    run-IsBounded (ShortCodes.init ttl max_codes) cs
      (record { distinct = tt; bounded = omega arith; room = omega arith })

-- The call does not draw this code.
abbrev pub Avoids : String → Call → Type 0
Avoids code (Call.mint c _ _) = c ≢ code
Avoids code _ = Unit

abbrev pub AllAvoid : String → List Call → Type 0
AllAvoid code [] = Unit
AllAvoid code (c ∷ cs) = Avoids code c × AllAvoid code cs

pop_least_absent :
    (code : String) (o : Option (String × Ticket)) (d : Dict Ticket)
    → Dict.get code d ≡ none
    → Dict.get code (pop_least o d) ≡ none
unfolding pop_least
pop_least_absent code none d h = h
pop_least_absent code (some (k, t)) d h = ground (arith, get-pop code k d)

evict_absent :
    (code : String) (s : ShortCodeStore)
    → Dict.get code s.codes ≡ none
    → Dict.get code (ShortCodes.evict s).codes ≡ none
unfolding ShortCodes.evict
evict_absent code s h =
    ground (arith, pop_least_absent code (Dict.least (λ t. t.exp) s.codes) s.codes h)

prune_absent :
    (code : String) (now : ℕ) (s : ShortCodeStore)
    → Distinct s.codes
    → Dict.get code s.codes ≡ none
    → Dict.get code (ShortCodes.prune now s).codes ≡ none
unfolding ShortCodes.prune
prune_absent code now s d h = ground (arith, get-keep code (λ t. leb now t.exp) s.codes d)

after_absent :
    (code : String) (s : ShortCodeStore) (c : Call)
    → IsBounded s
    → Avoids code c
    → Dict.get code s.codes ≡ none
    → Dict.get code (after s c).codes ≡ none
unfolding after ShortCodes.mint ShortCodes.sweep ShortCodes.resolve
after_absent code s (Call.mint c sid now) b av h =
    let s' = ShortCodes.prune now s in
    let k : Ticket = record { sid = sid; exp = now + s.ttl * second } in
    ground (
      arith,
      get-put code c k (ShortCodes.evict s').codes,
      evict_absent code s' (prune_absent code now s b.distinct h),
    )
after_absent code s (Call.resolve c consume now) b av h = ground (arith, get-pop code c s.codes)
after_absent code s (Call.sweep now clock) b av h =
    prune_absent code (or_clock now clock) s b.distinct h

run_absent :
    (code : String) (s : ShortCodeStore) (cs : List Call)
    → IsBounded s
    → AllAvoid code cs
    → Dict.get code s.codes ≡ none
    → Dict.get code (run s cs).codes ≡ none
unfolding run
run_absent code s [] b av h = h
run_absent code s (c ∷ cs) b av h =
    run_absent code (after s c) cs (after-IsBounded s c b) av.1 (after_absent code s c b av.0 h)

resolve_absent :
    (code : String) (consume : Bool) (t : ℕ) (s : ShortCodeStore)
    → Dict.get code s.codes ≡ none
    → (ShortCodes.resolve code consume t s).1 ≡ none
unfolding ShortCodes.resolve
resolve_absent code consume t s h = ground arith

-- In a store that is within its bounds, once a code that is not empty has been resolved and
-- consumed, no later call resolves it, whatever calls are made in between, provided that none of
-- them draws this code again.
pub resolve_once :
    (code sid : String) (consume : Bool) (t later : ℕ) (s : ShortCodeStore) (cs : List Call)
    → code ≢ ""
    → IsBounded s
    → (ShortCodes.resolve code true t s).1 ≡ some sid
    → AllAvoid code cs
    → (ShortCodes.resolve code consume later (run (ShortCodes.resolve code true t s).0 cs)).1 ≡ none
resolve_once code sid consume t later s cs named b found av =
    let s' = (ShortCodes.resolve code true t s).0 in
    let gone : Dict.get code s'.codes ≡ none =
      ground (arith, (resolve_lem code true t s named).1 code) in
    resolve_absent code consume later (run s' cs)
      (run_absent code s' cs (resolve-IsBounded code true t s b) av gone)
