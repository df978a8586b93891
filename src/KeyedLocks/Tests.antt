-- ===== src/KeyedLocks/Tests.antt =====
-- Runs of the keyed locks.
use stpt_query.Common.{ℕ, false, ◌≡◌, refl, none, ℕ_discrete, String_discrete, arith}
use stpt_query.Common.Dict
use stpt_query.Common.Threads.{moved}
use stpt_query.KeyedLocks.{
  init, register, acquire, release, unregister, idle, waiting, inside, leaving, System, call,
  get_lock, leave, finish, Reach, start, next,
}
use stpt_query.KeyedLocks.Exclusion.{mutual_exclusion, no_leak}

-- A thread asks for a key, gets its lock and leaves again.
abbrev called : System
called = record {
  locks = (register "k" init).0;
  pc = moved (λ i. idle) 0 (waiting false "k" (register "k" init).1);
}

abbrev entered : System
entered = record { locks = acquire 0 called.locks; pc = moved called.pc 0 (inside "k" 0) }

abbrev left : System
left = record { locks = release 0 entered.locks; pc = moved entered.pc 0 (leaving "k" 0) }

abbrev done : System
done = record { locks = unregister "k" 0 left.locks; pc = moved left.pc 0 idle }

program : Unit {0}
unfolding register acquire release unregister Dict.get Dict.put Dict.pop ℕ_discrete String_discrete
program = tt

entered-Reach : Reach 2 entered
unfolding program
entered-Reach =
    next (next start (call 0 false "k" (omega arith) refl refl))
      (get_lock 0 false "k" 0 (omega arith) refl refl refl)

done-Reach : Reach 2 done
unfolding program
done-Reach =
    next (next entered-Reach (leave 0 "k" 0 (omega arith) refl refl))
      (finish 0 "k" 0 (omega arith) refl refl)

mutual_exclusion_example : ◌≡◌ {A = ℕ} 0 0
unfolding program
mutual_exclusion_example =
    mutual_exclusion 2 entered 0 0 "k" 0 0 entered-Reach (omega arith) (omega arith) refl refl

no_leak_example : Dict.get "k" done.locks.table ≡ none
unfolding program
no_leak_example = no_leak 2 done "k" done-Reach (λ i. ground arith)
