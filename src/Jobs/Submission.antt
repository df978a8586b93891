-- ===== src/Jobs/Submission.antt =====
-- What a submission to the queue of app/jobs.py leads to.
use stpt_query.Common.{ℕ, ◌≤◌, ◌≡◌, String, true, false, some}
use stpt_query.Jobs.{
  Payload, Submitted, deduplicated, submitted, queue_full, pending, Redis, is_open, new_status,
}

module _ {D : Type 0} (redis : Redis D) (limit : ℕ) (id : String) (now : ℕ) (p : Payload) where
  -- What the outcome of a submission says of the database before and after it.
  abbrev pub Tells : D → D × Submitted → Type 0
  Tells d (e, deduplicated old n) =
      (e ≡ d)
      × (redis.dedupe_of p.fingerprint d ≡ some old)
      × (is_open (redis.status_of old d) ≡ true)
  Tells d (e, submitted new n) =
      (new ≡ id)
      × (redis.status_of id e ≡ some (new_status now))
      × ((old : String)
          → redis.dedupe_of p.fingerprint d ≡ some old
          → is_open (redis.status_of old d) ≡ false)
  Tells d (e, queue_full) =
      (limit ≤ redis.zcard pending e)
      × ((old : String)
          → redis.dedupe_of p.fingerprint d ≡ some old
          → is_open (redis.status_of old d) ≡ false)
