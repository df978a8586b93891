-- ===== src/Jobs/Finished.antt =====
-- What the commands of app/jobs.py leave of the status of a job.
use stpt_query.Common.{
  ℕ, ◌≡◌, ◌≢◌, ◌∙◌, refl, String, Bool, true, false, Option, none, some, List, [], ◌∷◌, All, leb,
  if◌then◌else◌, if_neg, String_discrete, arith, Bool-cases, Option-cases, inl, inr,
}
use stpt_query.Jobs.{
  is_phase, filing, finishing, zrem, zadd, set_status, set_payload, delete_payload, running_writes,
  phase_writes, reap_choice, JobStatus, Payload, Command, status_after, pending, Redis, is_open,
  is_queued, execute_all, admit_job, enqueue, set_dedupe, delete_dedupe,
}

queued_open : (o : Option JobStatus) → is_queued o ≡ true → is_open o ≡ true
queued_open none h = absurd (ground arith)
queued_open (some t) h = ground arith

-- The command sets no status of the job.
abbrev pub IsElse : String → Command → Type 0
IsElse j (set_status k v) = k ≢ j
IsElse j (set_payload k v) = Unit
IsElse j (set_dedupe k v) = Unit
IsElse j (delete_payload k) = Unit
IsElse j (delete_dedupe k) = Unit
IsElse j (zadd z k n) = Unit
IsElse j (zrem z k) = Unit

module _ {D : Type 0} (redis : Redis D) (limit : ℕ) (j : String) where
  one_else :
      (c : Command) (d : D)
      → IsElse j c
      → redis.status_of j (redis.execute c d) ≡ redis.status_of j d
  one_else c d h = redis.status_law c j d ∙ kept c h
    where
      kept :
          (c : Command) → IsElse j c → status_after c j (redis.status_of j d) ≡ redis.status_of j d
      kept (set_status k v) h = if_neg (String_discrete k j) h _ _
      kept (set_payload k v) h = refl
      kept (set_dedupe k v) h = refl
      kept (delete_payload k) h = refl
      kept (delete_dedupe k) h = refl
      kept (zadd z k n) h = refl
      kept (zrem z k) h = refl

  pub all_else :
      (cs : List Command) (d : D)
      → All (IsElse j) cs
      → redis.status_of j (execute_all redis cs d) ≡ redis.status_of j d
  unfolding execute_all
  all_else [] d h = refl
  all_else (c ∷ cs) d h = all_else cs (redis.execute c d) h.1 ∙ one_else c d h.0

  pub finishing-IsElse :
      (id : String) (ok : Bool) (result : String) (now : ℕ) (d : D)
      → id ≢ j
      → (p : Option Payload) → p ≡ redis.payload_of id d
      → All (IsElse j) (finishing redis id ok result now d)
  finishing-IsElse id ok result now d n none e = rw⁻¹ e (n, (tt, (tt, (tt, tt))))
  finishing-IsElse id ok result now d n (some p) e = rw⁻¹ e (n, (tt, (tt, (tt, (tt, tt)))))

  admit_else :
      (id : String) (now : ℕ) (p : Payload) (d : D)
      → id ≢ j
      → redis.status_of j (admit_job redis id now p limit d).0 ≡ redis.status_of j d
  unfolding admit_job
  admit_else id now p d n = elim (Bool-cases (leb limit (redis.zcard pending d))) [
    | inl f ↦ rw (f, if◌then◌else◌) refl
    | inr f ↦ rw (f, if◌then◌else◌) (all_else (filing id now p) d (n, (tt, (tt, (tt, (tt, tt))))))
  ]

  pub enqueue_else :
      (id : String) (now : ℕ) (p : Payload) (d : D)
      → id ≢ j
      → redis.status_of j (enqueue redis id now p limit d).0 ≡ redis.status_of j d
  unfolding enqueue
  enqueue_else id now p d a = elim (Option-cases (redis.dedupe_of p.fingerprint d)) [
    | inl n ↦ rw (n, enqueue) (admit_else id now p d a)
    | inr (old, n) ↦ elim (Bool-cases (is_open (redis.status_of old d))) [
      | inl o ↦ rw (n, enqueue, o, if◌then◌else◌) refl
      | inr o ↦
          rw (n, enqueue, o, if◌then◌else◌)
            (admit_else id now p (redis.execute (delete_dedupe p.fingerprint) d) a
              ∙ one_else (delete_dedupe p.fingerprint) d tt)
    ]
  ]

  -- A job that is open is another one than a job that is not.
  pub other :
      (id : String) (d : D)
      → is_open (redis.status_of j d) ≡ false
      → is_open (redis.status_of id d) ≡ true
      → id ≢ j
  other id d over o e = absurd (cc (o, over, e))

  pub running-IsElse :
      (id : String) (started : ℕ) (o : Option JobStatus)
      → (is_open o ≡ true → id ≢ j)
      → All (IsElse j) (running_writes id started o)
  running-IsElse id started none h = tt
  running-IsElse id started (some t) h = elim (Bool-cases (is_queued (some t))) [
    | inl q ↦ rw (q, if◌then◌else◌) (h (queued_open (some t) q), tt)
    | inr q ↦ rw (q, if◌then◌else◌) tt
  ]

  pub phase-IsElse :
      (id phase : String) (now : ℕ) (o : Option JobStatus)
      → (is_open o ≡ true → id ≢ j)
      → All (IsElse j) (phase_writes id phase now o)
  phase-IsElse id phase now none h = tt
  phase-IsElse id phase now (some t) h = elim (Bool-cases (is_open (some t))) [
    | inr o ↦ rw (o, if◌then◌else◌) tt
    | inl o ↦ elim (Bool-cases (is_phase phase t)) [
      | inl q ↦ rw (o, q, if◌then◌else◌) tt
      | inr q ↦ rw (o, q, if◌then◌else◌) (h o, tt)
    ]
  ]

  -- Only a job that is open is made to fail.
  pub choice_open : (o : Option JobStatus) (m : String) → reap_choice o ≡ some m → is_open o ≡ true
  choice_open o m e = elim (Bool-cases (is_queued o)) [
    | inl q ↦ queued_open o q
    | inr q ↦ ground arith
  ]
