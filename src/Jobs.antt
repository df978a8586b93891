-- ===== src/Jobs.antt =====
-- `JobStore` of app/jobs.py: the queue of the jobs, their status and their payload in Redis. Redis is
-- a parameter: what can be asked of it, and the commands that change it.
pub mod Pending
pub mod Finished
pub mod Interleaved
pub mod Lasting
pub mod Submission
mod Tests
use stpt_query.Common.{
  ℕ, suc, ◌+◌, ◌≤◌, ◌≡◌, String, Bool, true, false, not, ◌&&◌, ◌||◌, Option, none, some, List, [],
  ◌∷◌, ◌++◌, leb, if◌then◌else◌, ite, String_discrete,
}

pub data JobState : Type 0 where
  queued : JobState
  running : JobState
  success : JobState
  failed : JobState

-- The result of a job is a text; `phase` is a name of `PHASE_META`, whose index and label are left out.
pub record JobStatus : Type 0 where
  pub state : JobState
  pub phase : String
  pub phase_started_at : ℕ
  pub enqueued_at : ℕ
  pub started_at : Option ℕ
  pub finished_at : Option ℕ
  pub result : Option String
  pub completed_phases : List String

-- The request as a text, without the password.
pub record Payload : Type 0 where
  pub request : String
  pub session : String
  pub fingerprint : String
  pub client_ip : String

pub data Zset : Type 0 where
  ready : Zset
  active : Zset
  pending : Zset

-- The commands that change the database.
pub data Command : Type 0 where
  set_status : String → JobStatus → Command
  set_payload : String → Payload → Command
  set_dedupe : String → String → Command
  delete_payload : String → Command
  delete_dedupe : String → Command
  zadd : Zset → String → ℕ → Command
  zrem : Zset → String → Command

-- What a command makes of the status of a job.
abbrev pub status_after : Command → String → Option JobStatus → Option JobStatus
status_after (set_status k v) j old = ite (String_discrete k j) (some v) old
status_after (set_payload k v) j old = old
status_after (set_dedupe k v) j old = old
status_after (delete_payload k) j old = old
status_after (delete_dedupe k) j old = old
status_after (zadd z k n) j old = old
status_after (zrem z k) j old = old

abbrev pub is_pending : Zset → Bool
is_pending ready = false
is_pending active = false
is_pending pending = true

-- How many members the set of the pending jobs gains at most.
abbrev pub gained : Command → ℕ
gained (set_status k v) = 0
gained (set_payload k v) = 0
gained (set_dedupe k v) = 0
gained (delete_payload k) = 0
gained (delete_dedupe k) = 0
gained (zadd z k n) = if is_pending z then 1 else 0
gained (zrem z k) = 0

-- A database with what can be asked of it, and what is documented of the commands.
pub record Redis (D : Type 0) : Type 0 where
  pub execute : Command → D → D
  pub status_of : String → D → Option JobStatus
  pub payload_of : String → D → Option Payload
  pub dedupe_of : String → D → Option String
  pub zcard : Zset → D → ℕ
  pub zrank : Zset → String → D → Option ℕ
  pub first_of : Zset → D → Option String
  pub scored_below : Zset → ℕ → D → List String
  pub status_law :
      (c : Command) (j : String) (d : D)
      → status_of j (execute c d) ≡ status_after c j (status_of j d)
  pub pending_law : (c : Command) (d : D) → zcard pending (execute c d) ≤ zcard pending d + gained c

abbrev pub is_open : Option JobStatus → Bool
is_open none = false
is_open (some s) = elim s.state [
  | queued ↦ true
  | running ↦ true
  | success ↦ false
  | failed ↦ false
]

abbrev pub is_queued : Option JobStatus → Bool
is_queued none = false
is_queued (some s) = elim s.state [
  | queued ↦ true
  | running ↦ false
  | success ↦ false
  | failed ↦ false
]

abbrev contains : String → List String → Bool
contains k [] = false
contains k (x ∷ xs) = ite (String_discrete x k) true (contains k xs)

-- `completed` with the phase that is left
abbrev with_phase : String → List String → List String
with_phase p ps = if contains p ps then ps else ps ++ (p ∷ [])

abbrev new_status : ℕ → JobStatus
new_status now = record {
  state = queued;
  phase = "queued";
  phase_started_at = now;
  enqueued_at = now;
  started_at = none;
  finished_at = none;
  result = none;
  completed_phases = [];
}

abbrev pub is_phase : String → JobStatus → Bool
is_phase phase s = ite (String_discrete s.phase phase) true false

-- The status in the phase that follows.
abbrev pub in_next : String → ℕ → JobStatus → JobStatus
in_next phase now s = record s {
  phase = phase;
  phase_started_at = now;
  completed_phases = with_phase s.phase s.completed_phases;
}

abbrev pub started_from : ℕ → JobStatus → JobStatus
started_from started s = record s { state = running; started_at = some started }

-- What `mark_running` writes once it has read a status.
abbrev pub running_writes : String → ℕ → Option JobStatus → List Command
running_writes id started none = []
running_writes id started (some s) =
    if is_queued (some s) then set_status id (started_from started s) ∷ [] else []

-- What `mark_phase` writes once it has read a status.
abbrev pub phase_writes : String → String → ℕ → Option JobStatus → List Command
phase_writes id phase now none = []
phase_writes id phase now (some s) =
    if not (is_open (some s))
    then []
    else if is_phase phase s
    then []
    else set_status id (in_next phase now s) ∷ []

-- The message with which `reap_stale` lets a job fail whose status it has read.
abbrev pub reap_choice : Option JobStatus → Option String
reap_choice o =
    if is_queued o then some "任务等待执行超时，请稍后重试" else if is_open o then some "任务执行超时，请稍后重试" else none

-- What `reap_stale` sends for a job that is over.
abbrev pub dropping : String → List Command
dropping id = zrem active id ∷ zrem pending id ∷ []

-- The status that is completed where there is none.
abbrev status_or_empty : Option JobStatus → JobStatus
status_or_empty (some s) = s
status_or_empty none = new_status 0

abbrev or_zero : Option ℕ → ℕ
or_zero none = 0
or_zero (some n) = n

pub data Submitted : Type 0 where
  deduplicated : String → ℕ → Submitted
  submitted : String → ℕ → Submitted
  queue_full : Submitted

-- The transaction of `enqueue`.
abbrev pub filing : String → ℕ → Payload → List Command
filing id now p =
    set_status id (new_status now)
    ∷ set_dedupe p.fingerprint id
    ∷ set_payload id p
    ∷ zadd pending id now
    ∷ zadd ready id now
    ∷ []

module _ {D : Type 0} (redis : Redis D) where
  -- Commands one after the other, as in a transaction.
  unfoldable pub execute_all : List Command → D → D
  execute_all [] d = d
  execute_all (c ∷ cs) d = execute_all cs (redis.execute c d)

  -- The part of `enqueue` after the test for a job with the same fingerprint.
  unfoldable pub admit_job : String → ℕ → Payload → ℕ → D → D × Submitted
  admit_job id now p limit d =
      let filled = execute_all (filing id now p) d in
      if leb limit (redis.zcard pending d)
      then (d, queue_full)
      else (filled, submitted id (or_zero (redis.zrank ready id filled) + 1))

  -- `enqueue`, with the identifier that is drawn, the time and the payload.
  unfoldable pub enqueue : String → ℕ → Payload → ℕ → D → D × Submitted
  enqueue id now p limit d = elim (redis.dedupe_of p.fingerprint d) [
    | none ↦ admit_job id now p limit d
    | some old ↦
        if is_open (redis.status_of old d)
        then (d, deduplicated old (or_zero (redis.zrank ready old d)))
        else admit_job id now p limit (redis.execute (delete_dedupe p.fingerprint) d)
  ]

  abbrev fingerprint_of : Option Payload → List Command
  fingerprint_of none = []
  fingerprint_of (some p) = delete_dedupe p.fingerprint ∷ []

  abbrev finished_status : Bool → String → ℕ → JobStatus → JobStatus
  finished_status ok result now s = record {
    state = if ok then success else failed;
    phase = if ok then "done" else s.phase;
    phase_started_at = s.phase_started_at;
    enqueued_at = s.enqueued_at;
    started_at = s.started_at;
    finished_at = some now;
    result = some result;
    completed_phases = if ok then with_phase s.phase s.completed_phases else s.completed_phases;
  }

  -- The transaction of `complete`.
  abbrev pub finishing : String → Bool → String → ℕ → D → List Command
  finishing id ok result now d =
      (set_status id (finished_status ok result now (status_or_empty (redis.status_of id d)))
        ∷ fingerprint_of (redis.payload_of id d))
      ++ (zrem active id ∷ zrem pending id ∷ delete_payload id ∷ [])

  unfoldable pub complete : String → Bool → String → ℕ → D → D
  complete id ok result now d = execute_all (finishing id ok result now d) d

  -- `claim`; a job whose payload has expired fails.
  unfoldable pub claim : ℕ → D → D × Option (String × Payload)
  claim now d = elim (redis.first_of ready d) [
    | none ↦ (d, none)
    | some id ↦
        (let taken = execute_all (zrem ready id ∷ zadd active id now ∷ []) d in
          elim (redis.payload_of id taken) [
            | none ↦ (complete id false "任务数据已过期" now taken, none)
            | some p ↦ (taken, some (id, p))
          ])
  ]

  -- `mark_running`, with its reading and its writing at once
  unfoldable pub mark_running : String → ℕ → D → D × Bool
  mark_running id started d =
      let o = redis.status_of id d in (execute_all (running_writes id started o) d, is_queued o)

  -- `mark_phase`, with its reading and its writing at once
  unfoldable pub mark_phase : String → String → ℕ → D → D × Bool
  mark_phase id phase now d =
      let o = redis.status_of id d in (execute_all (phase_writes id phase now o) d, is_open o)

  abbrev pub reap_one : String → ℕ → Option String → D → D
  reap_one id now none d = execute_all (dropping id) d
  reap_one id now (some message) d = complete id false message now d

  -- The loop of `reap_stale`.
  unfoldable pub reap : List String → ℕ → D → D
  reap [] now d = d
  reap (id ∷ ids) now d = reap ids now (reap_one id now (reap_choice (redis.status_of id d)) d)

  unfoldable pub reap_stale : ℕ → ℕ → D → D
  reap_stale deadline now d = reap (redis.scored_below active deadline d) now d
