-- ===== src/KeyedLocks/Invariant.antt =====
-- What holds of the keyed locks and their threads between the steps.
use stpt_query.Common.{
  ℕ, ◌≤◌, ◌<◌, String, Bool, true, false, ◌≡◌, refl, none, some, ite, ℕ_discrete, arith, inl, ◌⊎◌,
}
use stpt_query.Common.Dict
use stpt_query.Common.Dict.{Dict, get-put, get-pop}
use stpt_query.Common.Threads.{weight}
use stpt_query.KeyedLocks.{Pc, idle, waiting, inside, leaving, System}

-- The thread has a reference to the entry.
abbrev pub refers : ℕ → Pc → ℕ
refers e idle = 0
refers e (waiting _ _ x) = ite (ℕ_discrete x e) 1 0
refers e (inside _ x) = ite (ℕ_discrete x e) 1 0
refers e (leaving _ x) = ite (ℕ_discrete x e) 1 0

-- The thread holds the lock of the entry.
abbrev pub holds : ℕ → Pc → ℕ
holds e (inside _ x) = ite (ℕ_discrete x e) 1 0
holds e _ = 0

-- The entry of a thread is the one in the table under its key.
abbrev pub InTable : Dict ℕ → Pc → Type 0
InTable d idle = Unit
InTable d (waiting _ key e) = Dict.get key d ≡ some e
InTable d (inside key e) = Dict.get key d ≡ some e
InTable d (leaving key e) = Dict.get key d ≡ some e

pub refers-cases : (e : ℕ) (p : Pc) → (refers e p ≡ 0) ⊎ (refers e p ≡ 1)
refers-cases e idle = inl refl
refers-cases e p = ground arith

-- The removal of a key does not concern a thread with another entry.
pub InTable-pop :
    (d : Dict ℕ) (key : String) (e : ℕ) (p : Pc)
    → Dict.get key d ≡ some e
    → refers e p ≡ 0
    → InTable d p
    → InTable (Dict.pop key d) p
InTable-pop d key e idle there other h = tt
InTable-pop d key e (waiting t k x) there other h = ground (arith, get-pop k key d)
InTable-pop d key e (inside k x) there other h = ground (arith, get-pop k key d)
InTable-pop d key e (leaving k x) there other h = ground (arith, get-pop k key d)

-- A new key does not concern the threads of the old ones.
pub InTable-put :
    (d : Dict ℕ) (key : String) (e : ℕ) (p : Pc)
    → Dict.get key d ≡ none
    → InTable d p
    → InTable (Dict.put key e d) p
InTable-put d key e idle missing h = tt
InTable-put d key e (waiting t k x) missing h = ground (arith, get-put k key e d)
InTable-put d key e (inside k x) missing h = ground (arith, get-put k key e d)
InTable-put d key e (leaving k x) missing h = ground (arith, get-put k key e d)

abbrev pub one_if : Bool → ℕ
one_if true = 1
one_if false = 0

pub record Inv (n : ℕ) (s : System) : Type 0 where
  pub in_table : (i : ℕ) → i < n → InTable s.locks.table (s.pc i)
  pub counted : (e : ℕ) → (s.locks.heap e).count ≡ weight (refers e) n s.pc
  pub exclusive : (e : ℕ) → weight (holds e) n s.pc ≡ one_if (s.locks.heap e).held
  pub allocated : (key : String) (e : ℕ) → Dict.get key s.locks.table ≡ some e → e < s.locks.next
  pub beyond :
      (e : ℕ) → s.locks.next ≤ e → ((s.locks.heap e).count ≡ 0) × ((s.locks.heap e).held ≡ false)
  pub used :
      (key : String) (e : ℕ) → Dict.get key s.locks.table ≡ some e → 0 < (s.locks.heap e).count
  pub injective :
      (key other : String) (e : ℕ)
      → Dict.get key s.locks.table ≡ some e
      → Dict.get other s.locks.table ≡ some e
      → key ≡ other
