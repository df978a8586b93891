-- ===== src/Notices/Calls.antt =====
-- Any sequence of the calls of `NoticeStore` that write.
use stpt_query.Common.{
  ℕ, ◌+◌, ◌≤◌, ◌≡◌, ◌∙◌, sym, subst, String, Bool, false, some, List, [], length, arith,
  Option-cases, ◌⊎◌, inl, inr,
}
use stpt_query.Common.Dict
use stpt_query.Notices.{
  NoticeRecord, read_lines, draft, active_count, Line, Records, read_file, refresh, Limits, Change,
  Store, write, Result, done, failed, storage, Disk, works, single_line, NoticeUpdate, update_op,
  update, same_status, active_notices,
}
use stpt_query.Notices.Replay.{unarchived, refresh-IsKeyed, refresh-some, found_id}
use stpt_query.Notices.Counting.{refresh-count, length-active_notices}
use stpt_query.Notices.Moves.{Transition, update_current-Moved}
use stpt_query.Notices.Durable.{Agrees, stored_read}
use stpt_query.Notices.Effects.{
  Call, updating, IsFresh, call, updating-Storing, operation-cases, written-count, Ending,
  was_unread, was_refused, was_written, was_lost, was_kept, call-Ending,
}

-- A change of a notice of the file.
pub record Updated (sp : ℕ → Bool) (id : String) (ls after : List Line) (r new : NoticeRecord)
    : Type 0 where
  pub filed : Dict.get id (read_file ls) ≡ some r
  pub step : Transition r.status new.status
  pub next : new.revision ≡ r.revision + 1
  pub keeps : same_status r.status draft ≡ false → (new.level ≡ r.level) × (new.content ≡ r.content)
  pub read : unarchived (Dict.get id (read_file after)) ≡ unarchived (some new)

-- The content of the record that the file has under an identifier is as the check of a content
-- leaves it.
abbrev pub IsNormal : (ℕ → Bool) → String → List Line → Type 0
IsNormal sp id ls =
    (r : NoticeRecord)
    → Dict.get id (read_file ls) ≡ some r
    → single_line sp r.content ≡ some r.content

update_op-Updated :
    (sp : ℕ → Bool) (lim : Limits) (id : String) (u : NoticeUpdate) (now : ℕ) (ls : List Line)
    (c : Change)
    → IsNormal sp id ls
    → update_op sp lim id u now (refresh lim ls) ≡ done c
    → (r : NoticeRecord) × Updated sp id ls (write lim ls c).lines r c.notice
unfolding update_op
update_op-Updated sp lim id u now ls c normal e =
    elim (Option-cases (Dict.get id (refresh lim ls))) [
      | inl n ↦ absurd (ground arith)
      | inr (r, n) ↦
          let m = update_current-Moved sp lim r u now (refresh lim ls) c (ground arith) in
          let same : c.notice.id ≡ id =
            m.named ∙ found_id id (refresh lim ls) r (refresh-IsKeyed lim ls) n in
          let s = updating-Storing sp lim ls id u now c e in
          (
            r,
            record {
              filed = refresh-some lim id ls r n;
              step = m.step;
              next = m.next;
              keeps =
                  λ w. let p = m.keeps w in (p.0, cc (p.1, normal r (refresh-some lim id ls r n)));
              read =
                  subst
                    (λ k.
                      unarchived (Dict.get k (read_file (write lim ls c).lines))
                      ≡ unarchived (some c.notice))
                    same
                    (subst
                      (λ x.
                        unarchived (Dict.get c.notice.id (read_file (write lim ls x).lines))
                        ≡ unarchived (some c.notice))
                      (sym s.whole) (stored_read lim ls c.notice s.later));
            },
          )
    ]

-- An update that succeeds is of a notice that is in the file, makes a draft a draft or an active
-- notice, or an active or archived notice an active or archived one, raises the revision by one,
-- keeps the level and the content of a notice that is no draft, and leaves a file that gives the
-- new record, unless it is an archived one; the content that the file has for the notice must be
-- as the check of a content leaves it.
pub update-Updated :
    (sp : ℕ → Bool) (lim : Limits) (disk : Disk) (id : String) (u : NoticeUpdate) (now : ℕ)
    (s t : Store) (new : NoticeRecord)
    → IsNormal sp id s.lines
    → update sp lim disk id u now s ≡ (t, done new)
    → (r : NoticeRecord) × Updated sp id s.lines t.lines r new
update-Updated sp lim disk id u now s t new normal e =
    ended (call-Ending sp lim s.lines (updating id u now) s.records disk) e
  where
    ended :
        {x : Store × Result NoticeRecord}
        → Ending sp lim s.lines s.records (updating id u now) x
        → x ≡ (t, done new)
        → (r : NoticeRecord) × Updated sp id s.lines t.lines r new
    ended was_unread h = absurd (ground arith)
    ended (was_refused x) h = absurd (ground arith)
    ended (was_lost c f) h = absurd (ground arith)
    ended (was_kept c f) h = absurd (ground arith)
    ended (was_written c f) h =
        let stands : t ≡ write lim s.lines c = ground arith in
        let made : new ≡ c.notice = ground arith in
        rw (stands, made) (update_op-Updated sp lim id u now s.lines c normal f)

module _ (sp : ℕ → Bool) (lim : Limits) where
  -- What a call leaves: a file that gives the records in memory, or an error of the storage with
  -- the file as it was or as the call would have written it.
  abbrev pub Settles : Call → Store → Store × Result NoticeRecord → Type 0
  Settles a s x =
      Agrees x.0
      ⊎ ((x.1 ≡ failed storage)
          × ((x.0.lines ≡ s.lines) ⊎ (x.0.lines ≡ (call sp lim works a s).0.lines)))

  -- What any calls of any processes make of an empty file, whatever the disk does; a process has
  -- records of its own.
  pub data Reach : Store → Type 0 where
    empty : Reach (record { lines = []; records = [] })
    called :
        {s : Store}
        → Reach s
        → (d : Records) (disk : Disk) (a : Call) → IsFresh a s.lines
        → Reach (call sp lim disk a (record { lines = s.lines; records = d })).0

  Ending-bound :
      {ls : List Line} {d : Records} {a : Call} {x : Store × Result NoticeRecord}
      → Ending sp lim ls d a x
      → IsFresh a ls
      → active_count (read_file ls) ≤ lim.max_active
      → active_count (read_file x.0.lines) ≤ lim.max_active
  Ending-bound was_unread f b = b
  Ending-bound (was_refused e) f b = b
  Ending-bound (was_lost c e) f b = b
  Ending-bound {ls} {a = a} (was_written c e) f b =
      written-count sp lim ls c (operation-cases sp lim ls a c f e) b
  Ending-bound {ls} {a = a} (was_kept c e) f b =
      written-count sp lim ls c (operation-cases sp lim ls a c f e) b

  within : {s : Store} → Reach s → active_count (read_file s.lines) ≤ lim.max_active
  unfolding read_file active_count Dict.keep read_lines
  within empty = omega arith
  within (called {s} r d disk a f) = Ending-bound (call-Ending sp lim s.lines a d disk) f (within r)

  -- From an empty file, after any calls of any number of processes that share the file, each
  -- with records of its own in memory, whatever the disk does, at most `max_active` notices are
  -- shown, provided that each new notice has an identifier that no line of the file has.
  pub shown_bound : {s : Store} → Reach s → length (active_notices lim s.lines) ≤ lim.max_active
  shown_bound {s} r =
      omega (arith, length-active_notices lim s.lines, refresh-count lim s.lines, within r)
