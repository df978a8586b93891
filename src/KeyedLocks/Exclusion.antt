-- ===== src/KeyedLocks/Exclusion.antt =====
-- Two threads are never inside with one key, and no entry outlives its threads.
use stpt_query.Common.{
  ℕ, ◌<◌, String, ◌≡◌, refl, none, ℕ_discrete, arith, Option-cases, inl, inr, sym,
}
use stpt_query.Common.Dict
use stpt_query.Common.Dict.{Dict, get-put, get-pop}
use stpt_query.Common.Threads.{two-le-weight, weight_zero}
use stpt_query.KeyedLocks.{
  init, idle, inside, System, Step, call, get_lock, time_out, leave, finish, Reach, start, next,
}
use stpt_query.KeyedLocks.Invariant.{refers, holds, Inv}
use stpt_query.KeyedLocks.Moves.{acquire-Inv, release-Inv, unregister-Inv, register-Inv, Parting-of}

Inv-start : (n : ℕ) → Inv n (record { locks = init; pc = λ i. idle })
unfolding Dict.get
Inv-start n = record {
  in_table = λ i lt. tt;
  counted = λ e. sym (weight_zero (refers e) n (λ i. idle) (λ i. refl));
  exclusive = λ e. weight_zero (holds e) n (λ i. idle) (λ i. refl);
  allocated = λ k e q. ground arith;
  beyond = λ e le. (refl, refl);
  used = λ k e q. ground arith;
  injective = λ k k' e q r. ground arith;
}

Step-Inv : {n : ℕ} {s t : System} → Step n s t → Inv n s → Inv n t
Step-Inv {n} (call i timed key lt here eq) inv = rw eq (register-Inv inv i lt timed key here)
Step-Inv (get_lock i timed key e lt here free eq) inv =
    rw eq (acquire-Inv inv i lt timed key e here free)
Step-Inv (time_out i key e lt here eq) inv =
    rw eq (unregister-Inv inv i lt key e (Parting-of inv i lt key e (inl here)))
Step-Inv (leave i key e lt here eq) inv = rw eq (release-Inv inv i lt key e here)
Step-Inv (finish i key e lt here eq) inv =
    rw eq (unregister-Inv inv i lt key e (Parting-of inv i lt key e (inr here)))

pub Reach-Inv : {n : ℕ} {s : System} → Reach n s → Inv n s
Reach-Inv {n} start = Inv-start n
Reach-Inv (next r st) = Step-Inv st (Reach-Inv r)

-- In every reachable state of `n` threads, two threads that are inside with one key are the same
-- thread, however their steps interleave and whichever of them time out.
pub mutual_exclusion :
    (n : ℕ) (s : System) (i j : ℕ) (key : String) (e x : ℕ)
    → Reach n s
    → i < n
    → j < n
    → s.pc i ≡ inside key e
    → s.pc j ≡ inside key x
    → i ≡ j
mutual_exclusion n s i j key e x r ilt jlt here there =
    let inv = Reach-Inv r in
    elim (ℕ_discrete i j) [
      | yes same ↦ same
      | no ne ↦
          let same_entry : e ≡ x = ground (arith, inv.in_table i ilt, inv.in_table j jlt) in
          absurd (
            ground (
              arith,
              inv.exclusive e,
              two-le-weight (holds e) n s.pc i j ilt jlt ne (ground arith) (ground arith),
            ))
    ]

-- In every reachable state of `n` threads in which every thread is idle, no key is left in the
-- table.
pub no_leak :
    (n : ℕ) (s : System) (key : String)
    → Reach n s
    → ((i : ℕ) → s.pc i ≡ idle)
    → Dict.get key s.locks.table ≡ none
no_leak n s key r quiet = elim (Option-cases (Dict.get key s.locks.table)) [
  | inl e ↦ e
  | inr (e, there) ↦
      let inv = Reach-Inv r in
      absurd (
        omega (
          arith,
          inv.used key e there,
          inv.counted e,
          weight_zero (refers e) n s.pc (λ i. ground (arith, quiet i)),
        ))
]
