-- ===== src/Jobs/Pending.antt =====
-- The number of the pending jobs of app/jobs.py.
use stpt_query.Common.{
  ℕ, ◌+◌, ◌≤◌, ◌≡◌, refl, String, Bool, false, Option, none, some, List, [], ◌∷◌, leb,
  if◌then◌else◌, arith, Bool-cases, Option-cases, inl, inr,
}
use stpt_query.Jobs.{
  is_phase, filing, finishing, zrem, zadd, ready, active, JobStatus, running_writes, phase_writes,
  reap_choice, dropping, reap_one, Payload, Command, gained, pending, Redis, is_open, is_queued,
  execute_all, admit_job, enqueue, complete, claim, mark_running, mark_phase, reap, reap_stale,
  delete_dedupe,
}

-- A call of the store.
pub data Call : Type 0 where
  enqueuing : String → ℕ → Payload → Call
  claiming : ℕ → Call
  running_from : String → ℕ → Call
  in_phase : String → String → ℕ → Call
  completing : String → Bool → String → ℕ → Call
  reaping : ℕ → ℕ → Call

abbrev total : List Command → ℕ
total [] = 0
total (c ∷ cs) = gained c + total cs

module _ {D : Type 0} (redis : Redis D) (limit : ℕ) where
  unfoldable pub run_call : Call → D → D
  run_call (enqueuing id now p) d = (enqueue redis id now p limit d).0
  run_call (claiming now) d = (claim redis now d).0
  run_call (running_from id started) d = (mark_running redis id started d).0
  run_call (in_phase id phase now) d = (mark_phase redis id phase now d).0
  run_call (completing id ok result now) d = complete redis id ok result now d
  run_call (reaping deadline now) d = reap_stale redis deadline now d

  unfoldable pub run_calls : List Call → D → D
  run_calls [] d = d
  run_calls (c ∷ cs) d = run_calls cs (run_call c d)

  count : D → ℕ
  count d = redis.zcard pending d

  all_count :
      (cs : List Command) (d : D)
      → redis.zcard pending (execute_all redis cs d) ≤ redis.zcard pending d + total cs
  unfolding execute_all
  all_count [] d = omega arith
  all_count (c ∷ cs) d = omega (arith, all_count cs (redis.execute c d), redis.pending_law c d)

  finishing_total :
      (id : String) (ok : Bool) (result : String) (now : ℕ) (d : D) (p : Option Payload)
      → p ≡ redis.payload_of id d
      → total (finishing redis id ok result now d) ≡ 0
  finishing_total id ok result now d none e = rw⁻¹ e refl
  finishing_total id ok result now d (some p) e = rw⁻¹ e refl

  complete_count :
      (id : String) (ok : Bool) (result : String) (now : ℕ) (d : D)
      → redis.zcard pending (complete redis id ok result now d) ≤ redis.zcard pending d
  unfolding complete
  complete_count id ok result now d = omega (
    arith,
    all_count (finishing redis id ok result now d) d,
    finishing_total id ok result now d (redis.payload_of id d) refl,
  )

  admit_count :
      (id : String) (now : ℕ) (p : Payload) (d : D)
      → redis.zcard pending d ≤ limit
      → redis.zcard pending (admit_job redis id now p limit d).0 ≤ limit
  unfolding admit_job
  admit_count id now p d h = elim (Bool-cases (leb limit (redis.zcard pending d))) [
    | inl f ↦ rw (f, if◌then◌else◌) h
    | inr f ↦ rw (f, if◌then◌else◌) (ground (arith, all_count (filing id now p) d))
  ]

  enqueue_count :
      (id : String) (now : ℕ) (p : Payload) (d : D)
      → redis.zcard pending d ≤ limit
      → redis.zcard pending (enqueue redis id now p limit d).0 ≤ limit
  unfolding enqueue
  enqueue_count id now p d h = elim (Option-cases (redis.dedupe_of p.fingerprint d)) [
    | inl n ↦ rw (n, enqueue) (admit_count id now p d h)
    | inr (old, n) ↦ elim (Bool-cases (is_open (redis.status_of old d))) [
      | inl o ↦ rw (n, enqueue, o, if◌then◌else◌) h
      | inr o ↦
          rw (n, enqueue, o, if◌then◌else◌)
            (admit_count id now p (redis.execute (delete_dedupe p.fingerprint) d)
              (omega (arith, redis.pending_law (delete_dedupe p.fingerprint) d)))
    ]
  ]

  claim_count :
      (now : ℕ) (d : D) → redis.zcard pending (claim redis now d).0 ≤ redis.zcard pending d
  unfolding claim
  claim_count now d = elim (Option-cases (redis.first_of ready d)) [
    | inl n ↦ rw (n, claim) (omega arith)
    | inr (id, n) ↦
        let taken = execute_all redis (zrem ready id ∷ zadd active id now ∷ []) d in
        let moved = all_count (zrem ready id ∷ zadd active id now ∷ []) d in
        elim (Option-cases (redis.payload_of id taken)) [
          | inl m ↦
              rw (n, claim, m) (omega (arith, complete_count id false "任务数据已过期" now taken, moved))
          | inr (p, m) ↦ rw (n, claim, m) (omega (arith, moved))
        ]
  ]

  running_total :
      (id : String) (started : ℕ) (o : Option JobStatus) → total (running_writes id started o) ≡ 0
  running_total id started none = refl
  running_total id started (some t) = elim (Bool-cases (is_queued (some t))) [
    | inl q ↦ rw (q, if◌then◌else◌) refl
    | inr q ↦ rw (q, if◌then◌else◌) refl
  ]

  phase_total :
      (id phase : String) (now : ℕ) (o : Option JobStatus) → total (phase_writes id phase now o) ≡ 0
  phase_total id phase now none = refl
  phase_total id phase now (some t) = elim (Bool-cases (is_open (some t))) [
    | inr o ↦ rw (o, if◌then◌else◌) refl
    | inl o ↦ elim (Bool-cases (is_phase phase t)) [
      | inl q ↦ rw (o, q, if◌then◌else◌) refl
      | inr q ↦ rw (o, q, if◌then◌else◌) refl
    ]
  ]

  running_count :
      (id : String) (started : ℕ) (d : D)
      → redis.zcard pending (mark_running redis id started d).0 ≤ redis.zcard pending d
  unfolding mark_running
  running_count id started d =
      let o = redis.status_of id d in
      omega (arith, all_count (running_writes id started o) d, running_total id started o)

  phase_count :
      (id phase : String) (now : ℕ) (d : D)
      → redis.zcard pending (mark_phase redis id phase now d).0 ≤ redis.zcard pending d
  unfolding mark_phase
  phase_count id phase now d =
      let o = redis.status_of id d in
      omega (arith, all_count (phase_writes id phase now o) d, phase_total id phase now o)

  one_count :
      (id : String) (now : ℕ) (m : Option String) (d : D)
      → redis.zcard pending (reap_one redis id now m d) ≤ redis.zcard pending d
  one_count id now none d = omega (arith, all_count (dropping id) d)
  one_count id now (some message) d = complete_count id false message now d

  reap_count :
      (ids : List String) (now : ℕ) (d : D)
      → redis.zcard pending (reap redis ids now d) ≤ redis.zcard pending d
  unfolding reap
  reap_count [] now d = omega arith
  reap_count (id ∷ ids) now d =
      let m = reap_choice (redis.status_of id d) in
      omega (arith, reap_count ids now (reap_one redis id now m d), one_count id now m d)

  run_call_count :
      (c : Call) (d : D)
      → redis.zcard pending d ≤ limit
      → redis.zcard pending (run_call c d) ≤ limit
  unfolding run_call reap_stale
  run_call_count (enqueuing id now p) d h = enqueue_count id now p d h
  run_call_count (claiming now) d h = omega (arith, claim_count now d, h)
  run_call_count (running_from id started) d h = omega (arith, running_count id started d, h)
  run_call_count (in_phase id phase now) d h = omega (arith, phase_count id phase now d, h)
  run_call_count (completing id ok result now) d h =
      omega (arith, complete_count id ok result now d, h)
  run_call_count (reaping deadline now) d h =
      omega (arith, reap_count (redis.scored_below active deadline d) now d, h)

  -- Where at most `limit` jobs are pending, at most `limit` are pending after any calls that use
  -- this limit.
  pub pending_bound :
      (cs : List Call) (d : D)
      → redis.zcard pending d ≤ limit
      → redis.zcard pending (run_calls cs d) ≤ limit
  unfolding run_calls
  pending_bound [] d h = h
  pending_bound (c ∷ cs) d h = pending_bound cs (run_call c d) (run_call_count c d h)
