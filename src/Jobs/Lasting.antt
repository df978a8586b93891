-- ===== src/Jobs/Lasting.antt =====
-- A job of app/jobs.py that has finished, while the methods of any threads interleave.
use stpt_query.Common.{
  ℕ, ◌≡◌, ◌≢◌, ◌∙◌, ap, refl, String, false, Option, none, some, List, [], ◌∷◌, ℕ_discrete, ite,
  subst, String_discrete, ◌⊎◌, inl, inr,
}
use stpt_query.Common.Threads.{moved}
use stpt_query.Jobs.{
  JobStatus, Payload, zrem, zadd, ready, active, Redis, is_open, finishing, running_writes,
  phase_writes, reap_choice,
}
use stpt_query.Jobs.Finished.{
  all_else, finishing-IsElse, enqueue_else, other, running-IsElse, phase-IsElse, choice_open,
}
use stpt_query.Jobs.Interleaved.{
  Work, reading, claimed, failing, writing, after_look, after_payload, System, Step, submit, take,
  read_payload, mark_running, mark_phase, complete, reap_stale, look, fail, send, expire, Run,
  still, on, IsClear,
}

module _ {D : Type 0} (redis : Redis D) (limit : ℕ) where
  moved-all :
      (P : Work → Type 0) (f : ℕ → Work) (i : ℕ) (p : Work)
      → ((k : ℕ) → P (f k))
      → P p
      → (k : ℕ) → P (moved f i p k)
  moved-all P f i p h q k = put (ℕ_discrete i k)
    where
      put : {A : Type 0} (d : Dec A) → P (ite d p (f k))
      put (yes e) = q
      put (no n) = h k

  payload-IsClear :
      (j id : String) (o : Option Payload) → id ≢ j → IsClear redis limit j (after_payload id o)
  payload-IsClear j id none n = n
  payload-IsClear j id (some p) n = tt

  look-IsClear :
      (j id : String) (ids : List String) (m : Option String)
      → ((text : String) → m ≡ some text → id ≢ j)
      → IsClear redis limit j (after_look id ids m)
  look-IsClear j id ids none h = (tt, (tt, tt))
  look-IsClear j id ids (some text) h = h text refl

  -- No thread is about to write the status of the job, which is `v` or has expired.
  record IsOver (j : String) (v : JobStatus) (s : System D) : Type 0 where
    clear : (i : ℕ) → IsClear redis limit j (s.work i)
    is : (redis.status_of j s.db ≡ some v) ⊎ (redis.status_of j s.db ≡ none)

  module _ (j : String) (v : JobStatus) (over : is_open (some v) ≡ false) where
    not_open :
        (d : D)
        → (redis.status_of j d ≡ some v) ⊎ (redis.status_of j d ≡ none)
        → is_open (redis.status_of j d) ≡ false
    not_open d (inl e) = ap is_open e ∙ over
    not_open d (inr e) = ap is_open e

    same_is :
        (d e : D)
        → redis.status_of j e ≡ redis.status_of j d
        → (redis.status_of j d ≡ some v) ⊎ (redis.status_of j d ≡ none)
        → (redis.status_of j e ≡ some v) ⊎ (redis.status_of j e ≡ none)
    same_is d e k (inl h) = inl (k ∙ h)
    same_is d e k (inr h) = inr (k ∙ h)

    work-IsClear :
        (s : System D) (i : ℕ) (p : Work)
        → IsOver j v s
        → IsClear redis limit j p
        → (k : ℕ) → IsClear redis limit j (moved s.work i p k)
    work-IsClear s i p h c k = moved-all (IsClear redis limit j) s.work i p h.clear c k

    -- The work of a thread, as it is known.
    here-IsClear :
        (s : System D) (i : ℕ) (p : Work) → IsOver j v s → s.work i ≡ p → IsClear redis limit j p
    here-IsClear s i p h e = subst (IsClear redis limit j) e (h.clear i)

    Step-IsOver : (s t : System D) → Step redis limit j s t → IsOver j v s → IsOver j v t
    Step-IsOver s t (submit id now p n e) h = rw e (record {
      clear = h.clear;
      is = same_is s.db _ (enqueue_else redis limit j id now p s.db n) h.is;
    })
    Step-IsOver s t (take i id now w f n e) h = rw e (record {
      clear = work-IsClear s i (claimed id) h n;
      is =
          same_is s.db _
            (all_else redis limit j (zrem ready id ∷ zadd active id now ∷ []) s.db (tt, (tt, tt)))
            h.is;
    })
    Step-IsOver s t (read_payload i id w e) h = rw e (record {
      clear =
          work-IsClear s i (after_payload id (redis.payload_of id s.db)) h
            (payload-IsClear j id (redis.payload_of id s.db) (here-IsClear s i (claimed id) h w));
      is = h.is;
    })
    Step-IsOver s t (mark_running i id started w e) h =
        let o = redis.status_of id s.db in
        rw e (record {
          clear = work-IsClear s i (writing (running_writes id started o) []) h (
              running-IsElse redis limit j id started o
                (other redis limit j id s.db (not_open s.db h.is)));
          is = h.is;
        })
    Step-IsOver s t (mark_phase i id phase now w e) h =
        let o = redis.status_of id s.db in
        rw e (record {
          clear = work-IsClear s i (writing (phase_writes id phase now o) []) h (
              phase-IsElse redis limit j id phase now o
                (other redis limit j id s.db (not_open s.db h.is)));
          is = h.is;
        })
    Step-IsOver s t (complete i id ok result now w n e) h = rw e (record {
      clear =
          work-IsClear s i (writing (finishing redis id ok result now s.db) []) h (
            finishing-IsElse redis limit j id ok result now s.db n (redis.payload_of id s.db) refl);
      is = h.is;
    })
    Step-IsOver s t (reap_stale i deadline w e) h = rw e (record {
      clear = work-IsClear s i (reading (redis.scored_below active deadline s.db)) h tt;
      is = h.is;
    })
    Step-IsOver s t (look i id ids w e) h =
        let o = redis.status_of id s.db in
        rw e (record {
          clear = work-IsClear s i (after_look id ids (reap_choice o)) h (
              look-IsClear j id ids (reap_choice o) (λ m c.
                other redis limit j id s.db (not_open s.db h.is)
                  (choice_open redis limit j o m c)));
          is = h.is;
        })
    Step-IsOver s t (fail i id message ids now w e) h = rw e (record {
      clear = work-IsClear s i (writing (finishing redis id false message now s.db) ids) h (
          finishing-IsElse redis limit j id false message now s.db
            (here-IsClear s i (failing id message ids) h w) (redis.payload_of id s.db) refl);
      is = h.is;
    })
    Step-IsOver s t (send i cs ids w e) h = rw e (record {
      clear = work-IsClear s i (reading ids) h tt;
      is =
          same_is s.db _ (all_else redis limit j cs s.db (here-IsClear s i (writing cs ids) h w))
            h.is;
    })
    Step-IsOver s t (expire k d g l e) h = rw e (record {
      clear = h.clear;
      is = elim (String_discrete k j) [
        | yes p ↦ inr (subst (λ x. redis.status_of x d ≡ none) p g)
        | no n ↦ same_is s.db d (l j n) h.is
      ];
    })

    -- Once a job has finished and no thread is about to write its status, it keeps this status
    -- until the status expires, however the steps of any threads interleave (submissions,
    -- claims, marks of states and phases, completions and reapings of stale jobs, each with its
    -- readings and its writings as steps of their own), provided that no submission draws its
    -- identifier, no claim takes it, and no further completion of it is called.
    pub finished_stays :
        (s t : System D)
        → ((i : ℕ) → IsClear redis limit j (s.work i))
        → redis.status_of j s.db ≡ some v
        → Run redis limit j s t
        → (redis.status_of j t.db ≡ some v) ⊎ (redis.status_of j t.db ≡ none)
    finished_stays s t c e r = (over_after r).is
      where
        over_after : {u : System D} → Run redis limit j s u → IsOver j v u
        over_after still = record { clear = c; is = inl e }
        over_after (on {t = a} {u = b} q st) = Step-IsOver a b st (over_after q)
