-- ===== src/Resilience/Degraded.antt =====
-- What a wrapped call does, and what a whole run of them does while the breaker is open.
use stpt_query.Common.{
  ℕ, ◌-◌, ◌≡◌, refl, true, false, Option, none, some, List, [], ◌∷◌, ltb, arith,
}
use stpt_query.Resilience.{
  Backend, Outcome, returned, redis_error, other_error, attempt_allowed, record_success,
  record_failure, abandon_attempt, Guarded, fall_back, settle, resilient,
}

module _ {P F A : Type 0} (now later : ℕ) (call : P → P × Outcome A) (f : F → F × A)
    (g : Guarded P F) where
  abbrev noted : Backend
  noted = (attempt_allowed now g.backend).0

  -- By outcome.
  abbrev pub After : P × Outcome A → Guarded P F × Option A → Type 0
  After (p, returned a) (h, r) =
      (r ≡ some a)
      × (h.primary ≡ p)
      × (h.fallback ≡ g.fallback)
      × (h.backend ≡ record_success noted)
  After (p, redis_error) (h, r) =
      (r ≡ some (f g.fallback).1)
      × (h.primary ≡ p)
      × (h.fallback ≡ (f g.fallback).0)
      × (h.backend ≡ record_failure later noted)
  After (p, other_error) (h, r) =
      (r ≡ none) × (h.primary ≡ p) × (h.fallback ≡ g.fallback) × (h.backend ≡ abandon_attempt noted)

  settle-After : (o : P × Outcome A) → After o (settle later f o (record g { backend = noted }))
  unfolding settle fall_back
  settle-After (p, returned a) = (refl, refl, refl, refl)
  settle-After (p, redis_error) = (refl, refl, refl, refl)
  settle-After (p, other_error) = (refl, refl, refl, refl)

  abbrev pub Refused : Guarded P F × Option A → Type 0
  Refused (h, r) =
      (r ≡ some (f g.fallback).1)
      × (h.primary ≡ g.primary)
      × (h.fallback ≡ (f g.fallback).0)
      × (h.backend ≡ noted)

  -- A call that the breaker lets through returns what Redis returned and closes the breaker, or,
  -- on an error of Redis, opens the breaker at the time of the error and returns what the store
  -- in memory gives, or, on another error, gives the attempt up and raises it, with the store in
  -- memory unchanged; a call that is not let through returns what the store in memory gives and
  -- does not touch Redis.
  pub resilient_lem :
      ((attempt_allowed now g.backend).1 ≡ true
        → After (call g.primary) (resilient now later call f g))
      × ((attempt_allowed now g.backend).1 ≡ false → Refused (resilient now later call f g))
  unfolding resilient fall_back
  resilient_lem = (
    λ e. rw (e, resilient) (settle-After (call g.primary)),
    λ e. rw (e, resilient) (refl, refl, refl, refl),
  )

-- A run of calls: the two readings of the clock and the call.
module _ {P F A K : Type 0} (redis : K → P → P × Outcome A) (own : K → F → F × A) where
  unfoldable pub run_guarded : List (ℕ × (ℕ × K)) → Guarded P F → Guarded P F × List (Option A)
  run_guarded [] g = (g, [])
  run_guarded ((now, (later, k)) ∷ ks) g =
      let (h, r) = resilient now later (redis k) (own k) g in
      let (i, rs) = run_guarded ks h in (i, r ∷ rs)

module _ {F A K : Type 0} (own : K → F → F × A) where
  -- The same calls on the store of this process alone.
  unfoldable pub run_own : List (ℕ × (ℕ × K)) → F → F × List (Option A)
  run_own [] s = (s, [])
  run_own ((now, (later, k)) ∷ ks) s =
      let (t, a) = own k s in let (u, rs) = run_own ks t in (u, some a ∷ rs)

-- The breaker is open, and every call comes before its cooldown has passed.
abbrev pub StaysOpen : {K : Type 0} → Backend → List (ℕ × (ℕ × K)) → Type 0
StaysOpen b [] = Unit
StaysOpen b ((now, (later, k)) ∷ ks) =
    (ltb (now - b.last_failure_at) b.failure_cooldown ≡ true) × StaysOpen b ks

module _ {P F A K : Type 0} (redis : K → P → P × Outcome A) (own : K → F → F × A) where
  -- One call while the breaker is open.
  refused_call :
      (now later : ℕ) (k : K) (g : Guarded P F)
      → g.backend.available ≡ false
      → ltb (now - g.backend.last_failure_at) g.backend.failure_cooldown ≡ true
      → resilient now later (redis k) (own k) g
        ≡ (record g { fallback = (own k g.fallback).0 }, some (own k g.fallback).1)
  unfolding resilient attempt_allowed fall_back
  refused_call now later k g off early = rw (off, attempt_allowed, early, resilient) refl

  -- While the breaker is open and the cooldown is not over, any run of calls of a store behind
  -- it gives the results of the same calls of the store in memory alone, leaves the store in
  -- memory in the same state, and changes neither the store in Redis nor the breaker.
  pub degraded_run :
      (ks : List (ℕ × (ℕ × K))) (g : Guarded P F)
      → g.backend.available ≡ false
      → StaysOpen g.backend ks
      → run_guarded redis own ks g
        ≡ (record g { fallback = (run_own own ks g.fallback).0 }, (run_own own ks g.fallback).1)
  unfolding run_guarded run_own
  degraded_run [] g off h = refl
  degraded_run ((now, (later, k)) ∷ ks) g off h =
      let g' : Guarded P F = record g { fallback = (own k g.fallback).0 } in
      ground (arith, refused_call now later k g off h.0, degraded_run ks g' off h.1)
