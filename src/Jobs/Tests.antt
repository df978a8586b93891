-- ===== src/Jobs/Tests.antt =====
-- Runs of the job store on a small database.
use stpt_query.Common.{
  ℕ, ◌+◌, ◌≤◌, ◌≡◌, refl, String, Option, none, some, List, [], ◌∷◌, length, ltb, if◌then◌else◌,
  ite, String_discrete, arith, ℕ_discrete, ◌⊎◌,
}
use stpt_query.Common.Dict
use stpt_query.Common.Dict.{Dict, get-put, length-put-le, length-pop-le}
use stpt_query.Jobs.{
  JobStatus, Payload, Zset, ready, active, pending, Command, set_status, set_payload, set_dedupe,
  delete_payload, delete_dedupe, zadd, zrem, status_after, gained, Redis, new_status, dropping,
  execute_all, success,
}
use stpt_query.Jobs.Pending.{Call, enqueuing, run_calls, pending_bound}
use stpt_query.Common.Threads.{moved}
use stpt_query.Jobs.Interleaved.{System, reading, writing, Run, still, on, reap_stale, look, send}
use stpt_query.Jobs.Lasting.{finished_stays}

record Database : Type 0 where
  statuses : Dict JobStatus
  payloads : Dict Payload
  dedupes : Dict String
  ready_jobs : Dict ℕ
  active_jobs : Dict ℕ
  pending_jobs : Dict ℕ

abbrev zset_of : Zset → Database → Dict ℕ
zset_of ready d = d.ready_jobs
zset_of active d = d.active_jobs
zset_of pending d = d.pending_jobs

abbrev with_zset : Zset → Dict ℕ → Database → Database
with_zset ready z d = record d { ready_jobs = z }
with_zset active z d = record d { active_jobs = z }
with_zset pending z d = record d { pending_jobs = z }

abbrev run_command : Command → Database → Database
run_command (set_status k v) d = record d { statuses = Dict.put k v d.statuses }
run_command (set_payload k v) d = record d { payloads = Dict.put k v d.payloads }
run_command (set_dedupe k v) d = record d { dedupes = Dict.put k v d.dedupes }
run_command (delete_payload k) d = record d { payloads = Dict.pop k d.payloads }
run_command (delete_dedupe k) d = record d { dedupes = Dict.pop k d.dedupes }
run_command (zadd z k n) d = with_zset z (Dict.put k n (zset_of z d)) d
run_command (zrem z k) d = with_zset z (Dict.pop k (zset_of z d)) d

abbrev first_key : Dict ℕ → Option String
first_key [] = none
first_key ((k, n) ∷ d) = some k

abbrev keys_below : ℕ → Dict ℕ → List String
keys_below m [] = []
keys_below m ((k, n) ∷ d) = let rest = keys_below m d in if ltb m n then rest else k ∷ rest

abbrev rank_in : String → Dict ℕ → Option ℕ
rank_in k [] = none
rank_in k ((j, n) ∷ d) =
    ite (String_discrete j k) (some 0) (elim (rank_in k d) [ none ↦ none | some r ↦ some (r + 1) ])

run_command_status :
    (c : Command) (j : String) (d : Database)
    → Dict.get j (run_command c d).statuses ≡ status_after c j (Dict.get j d.statuses)
run_command_status (set_status k v) j d = get-put j k v d.statuses
run_command_status (set_payload k v) j d = refl
run_command_status (set_dedupe k v) j d = refl
run_command_status (delete_payload k) j d = refl
run_command_status (delete_dedupe k) j d = refl
run_command_status (zadd ready k n) j d = refl
run_command_status (zadd active k n) j d = refl
run_command_status (zadd pending k n) j d = refl
run_command_status (zrem ready k) j d = refl
run_command_status (zrem active k) j d = refl
run_command_status (zrem pending k) j d = refl

run_command_pending :
    (c : Command) (d : Database)
    → length (run_command c d).pending_jobs ≤ length d.pending_jobs + gained c
run_command_pending (set_status k v) d = omega arith
run_command_pending (set_payload k v) d = omega arith
run_command_pending (set_dedupe k v) d = omega arith
run_command_pending (delete_payload k) d = omega arith
run_command_pending (delete_dedupe k) d = omega arith
run_command_pending (zadd ready k n) d = omega arith
run_command_pending (zadd active k n) d = omega arith
run_command_pending (zadd pending k n) d = omega (arith, length-put-le k n d.pending_jobs)
run_command_pending (zrem ready k) d = omega arith
run_command_pending (zrem active k) d = omega arith
run_command_pending (zrem pending k) d = omega (arith, length-pop-le k d.pending_jobs)

abbrev small : Redis Database
small = record {
  execute = run_command;
  status_of = λ j d. Dict.get j d.statuses;
  payload_of = λ j d. Dict.get j d.payloads;
  dedupe_of = λ f d. Dict.get f d.dedupes;
  zcard = λ z d. length (zset_of z d);
  zrank = λ z j d. rank_in j (zset_of z d);
  first_of = λ z d. first_key (zset_of z d);
  scored_below = λ z m d. keys_below m (zset_of z d);
  status_law = run_command_status;
  pending_law = run_command_pending;
}

abbrev blank : Database
blank = record {
  statuses = [];
  payloads = [];
  dedupes = [];
  ready_jobs = [];
  active_jobs = [];
  pending_jobs = [];
}

abbrev asked : Payload
asked = record { request = "grades"; session = "s"; fingerprint = "f"; client_ip = "c" }

abbrev other_asked : Payload
other_asked = record { request = "schedule"; session = "s"; fingerprint = "g"; client_ip = "c" }

-- The second job does not fit.
abbrev both : List Call
both = enqueuing "a" 1 asked ∷ enqueuing "b" 2 other_asked ∷ []

pending_bound_example : length (run_calls small 1 both blank).pending_jobs ≤ 1
pending_bound_example = pending_bound small 1 both blank (omega arith)

abbrev over : JobStatus
over = record (new_status 1) { state = success; phase = "done" }

abbrev finished : Database
finished = record blank { statuses = ("a", over) ∷ []; active_jobs = ("a", 1) ∷ [] }

-- Thread 0 looks for stale jobs and finds the one that has finished.
abbrev looking : System Database
looking = record { db = finished; work = λ i. reading [] }

abbrev found : System Database
found = record { db = finished; work = moved (λ i. reading []) 0 (reading ("a" ∷ [])) }

abbrev dropped : System Database
dropped = record { db = finished; work = moved found.work 0 (writing (dropping "a") []) }

abbrev swept : System Database
swept = record {
  db = run_command (zrem pending "a") (run_command (zrem active "a") finished);
  work = moved dropped.work 0 (reading []);
}

sweeping : Run small 1 "a" looking swept
unfolding Dict.get Dict.pop String_discrete execute_all ℕ_discrete
sweeping =
    on (on (on still (reap_stale 0 100 refl refl)) (look 0 "a" [] refl refl))
      (send 0 (dropping "a") [] refl refl)

finished_stays_example :
    (Dict.get "a" swept.db.statuses ≡ some over) ⊎ (Dict.get "a" swept.db.statuses ≡ none)
unfolding Dict.get String_discrete
finished_stays_example = finished_stays small 1 "a" over refl looking swept (λ i. tt) refl sweeping
