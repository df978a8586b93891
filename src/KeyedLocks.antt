-- ===== src/KeyedLocks.antt =====
-- `KeyedLocks` of app/jwxt_state.py, shared by any number of threads. The sections under `_guard`
-- are single steps; `acquire` and `release` of the lock of an entry are steps of their own.
-- An entry `[threading.Lock(), 0]` is an object in a heap, named by a number.
pub mod Invariant
pub mod Moves
pub mod Exclusion
mod Tests
use stpt_query.Common.{
  ℕ, suc, ◌+◌, ◌-◌, ◌<◌, String, Bool, true, false, ◌≡◌, refl, Option, none, some, [], ite, ◌==◌,
  if◌then◌else◌, ℕ_discrete,
}
use stpt_query.Common.Dict
use stpt_query.Common.Dict.{Dict}
use stpt_query.Common.Threads.{moved}

pub record Entry : Type 0 where
  pub held : Bool
  pub count : ℕ

pub record Locks : Type 0 where
  pub table : Dict ℕ
  pub heap : ℕ → Entry
  pub next : ℕ

-- `__init__`
abbrev pub init : Locks
init = record { table = []; heap = λ e. record { held = false; count = 0 }; next = 0 }

abbrev pub stored : ℕ → Entry → Locks → Locks
stored e v l = record l { heap = λ x. ite (ℕ_discrete e x) v (l.heap x) }

-- The first section under the guard: finds or makes the entry of the key, and counts this thread.
unfoldable pub register : String → Locks → Locks × ℕ
register key l = elim (Dict.get key l.table) [
  | none ↦ (
    record l {
      table = Dict.put key l.next l.table;
      heap = λ x. ite (ℕ_discrete l.next x) (record { held = false; count = 1 }) (l.heap x);
      next = suc l.next;
    },
    l.next,
  )
  | some e ↦ (stored e (record (l.heap e) { count = (l.heap e).count + 1 }) l, e)
]

-- `entry[0].acquire()`, where it succeeds
unfoldable pub acquire : ℕ → Locks → Locks
acquire e l = stored e (record (l.heap e) { held = true }) l

-- `entry[0].release()`
unfoldable pub release : ℕ → Locks → Locks
release e l = stored e (record (l.heap e) { held = false }) l

-- The section under the guard that ends both paths; the last thread removes the key.
unfoldable pub unregister : String → ℕ → Locks → Locks
unregister key e l =
    let rest = (l.heap e).count - 1 in
    let l' = stored e (record (l.heap e) { count = rest }) l in
    if rest == 0 then record l' { table = Dict.pop key l'.table } else l'

-- Where a thread stands in `lock(key, timeout)`; `timed` says that it gave a timeout.
pub data Pc : Type 0 where
  idle : Pc
  waiting : (timed : Bool) → String → ℕ → Pc
  inside : String → ℕ → Pc
  leaving : String → ℕ → Pc

pub record System : Type 0 where
  pub locks : Locks
  pub pc : ℕ → Pc

-- A step of thread `i` of `n`.
pub data Step (n : ℕ) (s : System) (t : System) : Type 0 where
  call :
      (i : ℕ) (timed : Bool) (key : String)
      → i < n
      → s.pc i ≡ idle
      → t ≡ record {
        locks = (register key s.locks).0;
        pc = moved s.pc i (waiting timed key (register key s.locks).1);
      }
      → Step n s t
  get_lock :
      (i : ℕ) (timed : Bool) (key : String) (e : ℕ)
      → i < n
      → s.pc i ≡ waiting timed key e
      → (s.locks.heap e).held ≡ false
      → t ≡ record { locks = acquire e s.locks; pc = moved s.pc i (inside key e) }
      → Step n s t
  time_out :
      (i : ℕ) (key : String) (e : ℕ)
      → i < n
      → s.pc i ≡ waiting true key e
      → t ≡ record { locks = unregister key e s.locks; pc = moved s.pc i idle }
      → Step n s t
  leave :
      (i : ℕ) (key : String) (e : ℕ)
      → i < n
      → s.pc i ≡ inside key e
      → t ≡ record { locks = release e s.locks; pc = moved s.pc i (leaving key e) }
      → Step n s t
  finish :
      (i : ℕ) (key : String) (e : ℕ)
      → i < n
      → s.pc i ≡ leaving key e
      → t ≡ record { locks = unregister key e s.locks; pc = moved s.pc i idle }
      → Step n s t

pub data Reach (n : ℕ) : System → Type 0 where
  start : Reach n (record { locks = init; pc = λ i. idle })
  next : {s t : System} → Reach n s → Step n s t → Reach n t
