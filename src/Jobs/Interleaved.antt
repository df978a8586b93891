-- ===== src/Jobs/Interleaved.antt =====
-- The methods of app/jobs.py on several connections: a method that reads a status and then writes
-- it holds no lock between the two, which are steps of their own.
use stpt_query.Common.{ℕ, ◌≡◌, ◌≢◌, String, Bool, false, Option, none, some, List, [], ◌∷◌, All}
use stpt_query.Common.Threads.{moved}
use stpt_query.Jobs.{
  Payload, Command, zrem, zadd, ready, active, Redis, execute_all, enqueue, finishing,
  running_writes, phase_writes, reap_choice, dropping,
}
use stpt_query.Jobs.Finished.{IsElse}

-- Where a thread is, with the jobs that its `reap_stale` has still to look at.
pub data Work : Type 0 where
  -- before the reading of the next of these jobs, or idle where there is none
  reading : List String → Work
  -- in `claim`, before the reading of the payload
  claimed : String → Work
  -- in `fail`, before the reading of the status
  failing : String → String → List String → Work
  -- before the sending of commands, as one transaction; the commands on the sorted sets that
  -- `reap_stale` and `claim` send one after the other, which no status is among, are one step too
  writing : List Command → List String → Work

abbrev pub after_look : String → List String → Option String → Work
after_look id ids none = writing (dropping id) ids
after_look id ids (some message) = failing id message ids

abbrev pub after_payload : String → Option Payload → Work
after_payload id none = failing id "任务数据已过期" []
after_payload id (some p) = reading []

pub record System (D : Type 0) : Type 0 where
  pub db : D
  pub work : ℕ → Work

module _ {D : Type 0} (redis : Redis D) (limit : ℕ) where
  -- The steps of threads that submit no job under the identifier `j`, do not claim it, and do not
  -- call `complete` for it; `reap_stale` is under no condition.
  pub data Step (j : String) (s t : System D) : Type 0 where
    submit :
        (id : String) (now : ℕ) (p : Payload)
        → id ≢ j
        → t ≡ record { db = (enqueue redis id now p limit s.db).0; work = s.work }
        → Step j s t
    take :
        (i : ℕ) (id : String) (now : ℕ)
        → s.work i ≡ reading []
        → redis.first_of ready s.db ≡ some id
        → id ≢ j
        → t ≡ record {
          db = execute_all redis (zrem ready id ∷ zadd active id now ∷ []) s.db;
          work = moved s.work i (claimed id);
        }
        → Step j s t
    read_payload :
        (i : ℕ) (id : String)
        → s.work i ≡ claimed id
        → t ≡ record {
          db = s.db;
          work = moved s.work i (after_payload id (redis.payload_of id s.db));
        }
        → Step j s t
    mark_running :
        (i : ℕ) (id : String) (started : ℕ)
        → s.work i ≡ reading []
        → t ≡ record {
          db = s.db;
          work = moved s.work i (writing (running_writes id started (redis.status_of id s.db)) []);
        }
        → Step j s t
    mark_phase :
        (i : ℕ) (id phase : String) (now : ℕ)
        → s.work i ≡ reading []
        → t ≡ record {
          db = s.db;
          work = moved s.work i (writing (phase_writes id phase now (redis.status_of id s.db)) []);
        }
        → Step j s t
    complete :
        (i : ℕ) (id : String) (ok : Bool) (result : String) (now : ℕ)
        → s.work i ≡ reading []
        → id ≢ j
        → t ≡ record {
          db = s.db;
          work = moved s.work i (writing (finishing redis id ok result now s.db) []);
        }
        → Step j s t
    reap_stale :
        (i deadline : ℕ)
        → s.work i ≡ reading []
        → t ≡ record {
          db = s.db;
          work = moved s.work i (reading (redis.scored_below active deadline s.db));
        }
        → Step j s t
    look :
        (i : ℕ) (id : String) (ids : List String)
        → s.work i ≡ reading (id ∷ ids)
        → t ≡ record {
          db = s.db;
          work = moved s.work i (after_look id ids (reap_choice (redis.status_of id s.db)));
        }
        → Step j s t
    fail :
        (i : ℕ) (id message : String) (ids : List String) (now : ℕ)
        → s.work i ≡ failing id message ids
        → t ≡ record {
          db = s.db;
          work = moved s.work i (writing (finishing redis id false message now s.db) ids);
        }
        → Step j s t
    send :
        (i : ℕ) (cs : List Command) (ids : List String)
        → s.work i ≡ writing cs ids
        → t ≡ record { db = execute_all redis cs s.db; work = moved s.work i (reading ids) }
        → Step j s t
    -- the status of a job expires
    expire :
        (k : String) (d : D)
        → redis.status_of k d ≡ none
        → ((l : String) → k ≢ l → redis.status_of l d ≡ redis.status_of l s.db)
        → t ≡ record { db = d; work = s.work }
        → Step j s t

  pub data Run (j : String) (s : System D) : System D → Type 0 where
    still : Run j s s
    on : {t u : System D} → Run j s t → Step j t u → Run j s u

  -- The thread is not about to write the status of the job.
  abbrev pub IsClear : String → Work → Type 0
  IsClear j (reading ids) = Unit
  IsClear j (claimed id) = id ≢ j
  IsClear j (failing id message ids) = id ≢ j
  IsClear j (writing cs ids) = All (IsElse j) cs
