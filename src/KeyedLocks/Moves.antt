-- ===== src/KeyedLocks/Moves.antt =====
-- Every step of a thread keeps the invariant of the keyed locks.
use stpt_query.Common.{
  ℕ, suc, ◌+◌, ◌-◌, ◌<◌, String, Bool, true, false, ◌≡◌, ◌≢◌, none, some, ite, ◌==◌, ℕ_discrete,
  arith, Option-cases, inl, inr, ◌⊎◌, Bool-cases, if_pos, if_neg,
}
use stpt_query.Common.Dict
use stpt_query.Common.Dict.{Dict, get-put, get-pop}
use stpt_query.Common.Threads.{moved, weight, weight-moved, two-le-weight}
use stpt_query.KeyedLocks.{
  Locks, stored, register, acquire, release, unregister, Pc, idle, waiting, inside, leaving, System,
}
use stpt_query.KeyedLocks.Invariant.{refers, holds, refers-cases, InTable-pop, InTable-put, Inv}

module _ {n : ℕ} {s : System} (inv : Inv n s) (i : ℕ) (lt : i < n) where
  -- What a move of thread `i` does to the two sums.
  refers-moved :
      (e : ℕ) (p : Pc)
      → refers e (s.pc i) + weight (refers e) n (moved s.pc i p)
        ≡ refers e p + weight (refers e) n s.pc
  refers-moved e p = weight-moved (refers e) n s.pc i p lt

  holds-moved :
      (e : ℕ) (p : Pc)
      → holds e (s.pc i) + weight (holds e) n (moved s.pc i p) ≡ holds e p + weight (holds e) n s.pc
  holds-moved e p = weight-moved (holds e) n s.pc i p lt

  pub acquire-Inv :
      (timed : Bool) (key : String) (e : ℕ)
      → s.pc i ≡ waiting timed key e
      → (s.locks.heap e).held ≡ false
      → Inv n (record { locks = acquire e s.locks; pc = moved s.pc i (inside key e) })
  unfolding acquire
  acquire-Inv timed key e here free =
      let mine : e < s.locks.next = inv.allocated key e (ground (arith, inv.in_table i lt)) in
      record {
        in_table = λ j jlt. ground (arith, inv.in_table j jlt, inv.in_table i lt);
        counted = λ x. ground (arith, inv.counted x, refers-moved x (inside key e));
        exclusive = λ x. ground (arith, inv.exclusive x, holds-moved x (inside key e));
        allocated = inv.allocated;
        beyond = λ x le. ground (arith, inv.beyond x le);
        used = λ k x q. ground (arith, inv.used k x q);
        injective = inv.injective;
      }

  pub release-Inv :
      (key : String) (e : ℕ)
      → s.pc i ≡ inside key e
      → Inv n (record { locks = release e s.locks; pc = moved s.pc i (leaving key e) })
  unfolding release
  release-Inv key e here = record {
    in_table = λ j jlt. ground (arith, inv.in_table j jlt, inv.in_table i lt);
    counted = λ x. ground (arith, inv.counted x, refers-moved x (leaving key e));
    exclusive = λ x. ground (arith, inv.exclusive x, holds-moved x (leaving key e));
    allocated = inv.allocated;
    beyond = λ x le. ground (arith, inv.beyond x le);
    used = λ k x q. ground (arith, inv.used k x q);
    injective = inv.injective;
  }

  -- A thread that refers to the entry of its key, and does not hold it.
  pub record Parting (key : String) (e : ℕ) : Type 0 where
    there : Dict.get key s.locks.table ≡ some e
    refers_it : (x : ℕ) → refers x (s.pc i) ≡ ite (ℕ_discrete e x) 1 0
    holds_none : (x : ℕ) → holds x (s.pc i) ≡ 0

  -- If the count falls to zero, no other thread refers to the entry.
  alone :
      (key : String) (e : ℕ)
      → Parting key e
      → (s.locks.heap e).count - 1 ≡ 0
      → (j : ℕ) → j < n
      → i ≢ j
      → refers e (s.pc j) ≡ 0
  alone key e p last j jlt ne = elim (refers-cases e (s.pc j)) [
    | inl none_there ↦ none_there
    | inr one ↦ absurd (
        ground (
          arith,
          inv.counted e,
          two-le-weight (refers e) n s.pc i j lt jlt ne (ground (arith, p.refers_it e)) one,
        ))
  ]

  abbrev one_less : ℕ → Locks
  one_less e = stored e (record (s.locks.heap e) { count = (s.locks.heap e).count - 1 }) s.locks

  abbrev without_key : String → ℕ → Locks
  without_key key e = record {
    table = Dict.pop key s.locks.table;
    heap = (one_less e).heap;
    next = s.locks.next;
  }

  -- Others still refer to the entry.
  shared-Inv :
      (key : String) (e : ℕ)
      → Parting key e
      → 0 < (s.locks.heap e).count - 1
      → Inv n (record { locks = one_less e; pc = moved s.pc i idle })
  shared-Inv key e p more = record {
    in_table = λ j jlt. ground (arith, inv.in_table j jlt);
    counted = λ x. ground (arith, inv.counted x, refers-moved x idle, p.refers_it x);
    exclusive = λ x. ground (arith, inv.exclusive x, holds-moved x idle, p.holds_none x);
    allocated = inv.allocated;
    beyond = λ x le. ground (arith, inv.beyond x le);
    used = λ k x q. ground (arith, inv.used k x q);
    injective = inv.injective;
  }

  -- The last reference goes, and the key with it.
  last-Inv :
      (key : String) (e : ℕ)
      → Parting key e
      → (s.locks.heap e).count - 1 ≡ 0
      → Inv n (record { locks = without_key key e; pc = moved s.pc i idle })
  last-Inv key e p last = record {
    in_table = λ j jlt. elim (ℕ_discrete i j) [
      | yes same ↦ rw (if_pos _ same) tt
      | no ne ↦ rw (if_neg _ ne) (
          InTable-pop s.locks.table key e (s.pc j) p.there (alone key e p last j jlt ne)
            (inv.in_table j jlt))
    ];
    counted = λ x. ground (arith, inv.counted x, refers-moved x idle, p.refers_it x);
    exclusive = λ x. ground (arith, inv.exclusive x, holds-moved x idle, p.holds_none x);
    allocated = λ k x q. ground (arith, inv.allocated k x, get-pop k key s.locks.table);
    beyond = λ x le. ground (arith, inv.beyond x le);
    used = λ k x q.
        ground (arith, inv.used k x, get-pop k key s.locks.table, inv.injective key k e, p.there);
    injective = λ k k' x a b.
        ground
          (arith, inv.injective k k' x, get-pop k key s.locks.table, get-pop k' key s.locks.table);
  }

  pub unregister-Inv :
      (key : String) (e : ℕ)
      → Parting key e
      → Inv n (record { locks = unregister key e s.locks; pc = moved s.pc i idle })
  unfolding unregister
  unregister-Inv key e p = elim (Bool-cases ((s.locks.heap e).count - 1 == 0)) [
    | inl last ↦ rw (last, unregister) (last-Inv key e p (ground arith))
    | inr more ↦ rw (more, unregister) (shared-Inv key e p (ground arith))
  ]

  -- A thread registers under a key that is in the table.
  joined-Inv :
      (timed : Bool) (key : String) (e : ℕ)
      → s.pc i ≡ idle
      → Dict.get key s.locks.table ≡ some e
      → Inv n (record {
        locks = stored e (record (s.locks.heap e) { count = (s.locks.heap e).count + 1 }) s.locks;
        pc = moved s.pc i (waiting timed key e);
      })
  joined-Inv timed key e here there =
      let mine : e < s.locks.next = inv.allocated key e there in
      record {
        in_table = λ j jlt. ground (arith, inv.in_table j jlt);
        counted = λ x. ground (arith, inv.counted x, refers-moved x (waiting timed key e));
        exclusive = λ x. ground (arith, inv.exclusive x, holds-moved x (waiting timed key e));
        allocated = inv.allocated;
        beyond = λ x le. ground (arith, inv.beyond x le);
        used = λ k x q. ground (arith, inv.used k x q);
        injective = inv.injective;
      }

  abbrev opened : String → Locks
  opened key = record {
    table = Dict.put key s.locks.next s.locks.table;
    heap = (stored s.locks.next (record { held = false; count = 1 }) s.locks).heap;
    next = suc s.locks.next;
  }

  -- A thread registers under a new key.
  opened-Inv :
      (timed : Bool) (key : String)
      → s.pc i ≡ idle
      → Dict.get key s.locks.table ≡ none
      → Inv n (record { locks = opened key; pc = moved s.pc i (waiting timed key s.locks.next) })
  opened-Inv timed key here missing =
      let e = s.locks.next in
      record {
        in_table = λ j jlt. elim (ℕ_discrete i j) [
          | yes same ↦ rw (if_pos _ same) (ground (arith, get-put key key e s.locks.table))
          | no ne ↦
              rw (if_neg _ ne)
                (InTable-put s.locks.table key e (s.pc j) missing (inv.in_table j jlt))
        ];
        counted =
            λ x. ground (arith, inv.counted x, refers-moved x (waiting timed key e), inv.beyond x);
        exclusive =
            λ x. ground (arith, inv.exclusive x, holds-moved x (waiting timed key e), inv.beyond x);
        allocated = λ k x q. ground (arith, inv.allocated k x, get-put k key e s.locks.table);
        beyond = λ x le. ground (arith, inv.beyond x);
        used = λ k x q. ground (arith, inv.used k x, get-put k key e s.locks.table);
        injective = λ k k' x a b. ground (
          arith,
          inv.injective k k' x,
          inv.allocated k x,
          inv.allocated k' x,
          get-put k key e s.locks.table,
          get-put k' key e s.locks.table,
        );
      }

  pub register-Inv :
      (timed : Bool) (key : String)
      → s.pc i ≡ idle
      → Inv n (record {
        locks = (register key s.locks).0;
        pc = moved s.pc i (waiting timed key (register key s.locks).1);
      })
  unfolding register
  register-Inv timed key here = elim (Option-cases (Dict.get key s.locks.table)) [
    | inl missing ↦ rw (missing, register) (opened-Inv timed key here missing)
    | inr (e, there) ↦ rw (there, register) (joined-Inv timed key e here there)
  ]

  -- A thread that waits or leaves is ready to part.
  pub Parting-of :
      (key : String) (e : ℕ)
      → (s.pc i ≡ waiting true key e) ⊎ (s.pc i ≡ leaving key e)
      → Parting key e
  Parting-of key e here = record {
    there = ground (arith, inv.in_table i lt);
    refers_it = λ x. ground arith;
    holds_none = λ x. ground arith;
  }
