-- ===== src/Resilience/Breaker.antt =====
-- The breaker shared by threads: every section under `_availability_lock` is one step, and the
-- call of Redis in between is not.
use stpt_query.Common.{
  ℕ, ◌+◌, ◌≤◌, ◌<◌, ◌≡◌, refl, Bool, true, false, not, arith, Bool-cases, inl, inr,
}
use stpt_query.Common.Threads.{moved, weight, weight-moved, weight_zero}
use stpt_query.Resilience.{
  Backend, init, attempt_allowed, record_success, record_failure, abandon_attempt,
}

-- Where a thread stands: outside, or in a call of Redis that was let through, as the probe or not.
pub data Pc : Type 0 where
  outside : Pc
  calling : (probe : Bool) → Pc

pub record System : Type 0 where
  pub backend : Backend
  pub pc : ℕ → Pc

-- How a call ends, with the section that follows it.
pub data End : Type 0 where
  success : End
  failure : (now : ℕ) → End
  abandoned : End

unfoldable pub end_call : End → Backend → Backend
end_call success b = record_success b
end_call (failure now) b = record_failure now b
end_call abandoned b = abandon_attempt b

-- A step of thread `i` of `n`: a call that is let through, one that is not, and the end of one.
pub data Step (n : ℕ) (s : System) (t : System) : Type 0 where
  enter :
      (i now : ℕ)
      → i < n
      → s.pc i ≡ outside
      → (attempt_allowed now s.backend).1 ≡ true
      → t ≡ record {
        backend = (attempt_allowed now s.backend).0;
        pc = moved s.pc i (calling (not s.backend.available));
      }
      → Step n s t
  refuse :
      (i now : ℕ)
      → i < n
      → s.pc i ≡ outside
      → (attempt_allowed now s.backend).1 ≡ false
      → t ≡ record { backend = (attempt_allowed now s.backend).0; pc = s.pc }
      → Step n s t
  finish :
      (i : ℕ) (probe : Bool) (e : End)
      → i < n
      → s.pc i ≡ calling probe
      → t ≡ record { backend = end_call e s.backend; pc = moved s.pc i outside }
      → Step n s t

pub data Reach (n cooldown : ℕ) : System → Type 0 where
  start : Reach n cooldown (record { backend = init cooldown; pc = λ i. outside })
  next : {s t : System} → Reach n cooldown s → Step n s t → Reach n cooldown t

abbrev pub probes : Pc → ℕ
probes outside = 0
probes (calling true) = 1
probes (calling false) = 0

-- The breaker is open exactly while it is degraded, and a probe that is noted is under way.
pub record Inv (n cooldown : ℕ) (s : System) : Type 0 where
  pub mirrored : s.backend.degraded ≡ not s.backend.available
  pub under_way : s.backend.probing ≡ true → 0 < weight probes n s.pc
  pub open_probe : s.backend.probing ≡ true → s.backend.available ≡ false
  pub same_cooldown : s.backend.failure_cooldown ≡ (init cooldown).failure_cooldown

Step-Inv : {n cooldown : ℕ} {s t : System} → Step n s t → Inv n cooldown s → Inv n cooldown t
unfolding attempt_allowed end_call record_success record_failure abandon_attempt
Step-Inv {n} {cooldown} {s} (enter i now lt here ok eq) inv =
    let w = weight-moved probes n s.pc i (calling (not s.backend.available)) lt in
    rw eq (record {
      mirrored = ground (arith, inv.mirrored);
      under_way = λ p. ground (arith, inv.under_way, w);
      open_probe = λ p. ground (arith, inv.open_probe);
      same_cooldown = ground (arith, inv.same_cooldown);
    })
Step-Inv {n} {cooldown} {s} (refuse i now lt here denied eq) inv = rw eq (record {
  mirrored = ground (arith, inv.mirrored);
  under_way = λ p. ground (arith, inv.under_way);
  open_probe = λ p. ground (arith, inv.open_probe);
  same_cooldown = ground (arith, inv.same_cooldown);
})
Step-Inv {n} {cooldown} {s} (finish i probe success lt here eq) inv = rw eq (record {
  mirrored = refl;
  under_way = λ p. absurd (ground arith);
  open_probe = λ p. absurd (ground arith);
  same_cooldown = inv.same_cooldown;
})
Step-Inv {n} {cooldown} {s} (finish i probe (failure now) lt here eq) inv = rw eq (record {
  mirrored = refl;
  under_way = λ p. absurd (ground arith);
  open_probe = λ p. absurd (ground arith);
  same_cooldown = inv.same_cooldown;
})
Step-Inv {n} {cooldown} {s} (finish i probe abandoned lt here eq) inv = rw eq (record {
  mirrored = inv.mirrored;
  under_way = λ p. absurd (ground arith);
  open_probe = λ p. absurd (ground arith);
  same_cooldown = inv.same_cooldown;
})

Reach-Inv : {n cooldown : ℕ} {s : System} → Reach n cooldown s → Inv n cooldown s
unfolding init
Reach-Inv start = record {
  mirrored = refl;
  under_way = λ p. absurd (ground arith);
  open_probe = λ p. absurd (ground arith);
  same_cooldown = refl;
}
Reach-Inv (next r st) = Step-Inv st (Reach-Inv r)

-- In every reachable state of `n` threads in which no call is under way, the next call goes to
-- Redis once the cooldown is over, however the calls before have ended.
pub never_stuck :
    (n cooldown : ℕ) (s : System) (now : ℕ)
    → Reach n cooldown s
    → ((i : ℕ) → s.pc i ≡ outside)
    → s.backend.last_failure_at + s.backend.failure_cooldown ≤ now
    → (attempt_allowed now s.backend).1 ≡ true
unfolding attempt_allowed
never_stuck n cooldown s now r quiet late =
    let inv = Reach-Inv r in
    let none_there : weight probes n s.pc ≡ 0 =
      weight_zero probes n s.pc (λ i. ground (arith, quiet i)) in
    elim (Bool-cases s.backend.probing) [
      | inl p ↦ absurd (omega (arith, inv.under_way p, none_there))
      | inr p ↦ ground arith
    ]

cooldown_pos : (cooldown : ℕ) → 0 < (init cooldown).failure_cooldown
unfolding init
cooldown_pos cooldown = omega arith

-- In every reachable state of `n` threads the breaker is degraded exactly if Redis is not
-- available; where it is degraded, no call goes to Redis before the cooldown is over, and where
-- it is not, every call does, and neither changes the breaker.
pub open_breaker :
    (n cooldown : ℕ) (s : System) (now : ℕ)
    → Reach n cooldown s
    → (s.backend.degraded ≡ not s.backend.available)
      × (s.backend.degraded ≡ true
          → now < s.backend.last_failure_at + s.backend.failure_cooldown
          → attempt_allowed now s.backend ≡ (s.backend, false))
      × (s.backend.degraded ≡ false → attempt_allowed now s.backend ≡ (s.backend, true))
unfolding attempt_allowed
open_breaker n cooldown s now r =
    let inv = Reach-Inv r in
    (
      inv.mirrored,
      λ d early. ground (arith, inv.mirrored, inv.same_cooldown, cooldown_pos cooldown),
      λ d. ground (arith, inv.mirrored),
    )
