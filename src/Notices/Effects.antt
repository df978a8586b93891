-- ===== src/Notices/Effects.antt =====
-- What one call of `NoticeStore` that writes does to the file: app/notices.py.
use stpt_query.Common.{
  ℕ, ◌≤◌, ◌<◌, ◌≡◌, ◌∙◌, ap, sym, refl, subst, String, Bool, true, none, some, List, arith,
  Bool-cases, Option-cases, ◌⊎◌, inl, inr,
}
use stpt_query.Common.Dict
use stpt_query.Notices.{
  NoticeRecord, NoticeError, storage, Disk, works, unread, lost, kept, written, active, draft,
  is_in, active_count, Line, as_lines, Records, newer, read_file, refresh, Limits, Change, Store,
  write, stored, Result, done, failed, NoticeCreate, NoticeUpdate, create_op, update_op, delete_op,
  mutate, create, update, delete, same_status,
}
use stpt_query.Notices.Replay.{IsKeyed, pop-IsKeyed, refresh-IsKeyed, refresh-some, found_id}
use stpt_query.Notices.Counting.{counted, active_count-pop, refresh-count, read_file-as_lines}
use stpt_query.Notices.Moves.{create_op-Made, update_current-Moved}
use stpt_query.Notices.Durable.{Agrees, stored-Agrees, compact-Agrees, stored-count, compact-lines}

-- A call, with the identifier that a new notice gets and the time.
pub data Call : Type 0 where
  creating : String → NoticeCreate → ℕ → Call
  updating : String → NoticeUpdate → ℕ → Call
  deleting : String → Call

-- The identifier of a new notice is one that no line has.
abbrev pub IsFresh : Call → List Line → Type 0
IsFresh (creating id payload now) ls = Dict.get id (read_file ls) ≡ none
IsFresh (updating id u now) ls = Unit
IsFresh (deleting id) ls = Unit

abbrev pub operation : (ℕ → Bool) → Limits → Call → Records → Result Change
operation sp lim (creating id payload now) d = create_op sp lim id payload now d
operation sp lim (updating id u now) d = update_op sp lim id u now d
operation sp lim (deleting id) d = delete_op id d

abbrev pub call : (ℕ → Bool) → Limits → Disk → Call → Store → Store × Result NoticeRecord
call sp lim disk (creating id payload now) s = create sp lim disk id payload now s
call sp lim disk (updating id u now) s = update sp lim disk id u now s
call sp lim disk (deleting id) s = delete lim disk id s

call-mutate :
    (sp : ℕ → Bool) (lim : Limits) (disk : Disk) (c : Call) (s : Store)
    → call sp lim disk c s ≡ mutate lim disk (operation sp lim c) s
unfolding create update delete
call-mutate sp lim disk (creating id payload now) s = refl
call-mutate sp lim disk (updating id u now) s = refl
call-mutate sp lim disk (deleting id) s = refl

-- The ways a call ends, with the records `d` in memory.
pub data Ending (sp : ℕ → Bool) (lim : Limits) (ls : List Line) (d : Records) (a : Call)
    : Store × Result NoticeRecord → Type 0 where
  was_unread : Ending sp lim ls d a (record { lines = ls; records = d }, failed storage)
  was_refused :
      (e : NoticeError)
      → Ending sp lim ls d a (record { lines = ls; records = refresh lim ls }, failed e)
  was_written :
      (c : Change)
      → operation sp lim a (refresh lim ls) ≡ done c
      → Ending sp lim ls d a (write lim ls c, done c.notice)
  was_lost :
      (c : Change)
      → operation sp lim a (refresh lim ls) ≡ done c
      → Ending sp lim ls d a (record { lines = ls; records = c.records }, failed storage)
  was_kept :
      (c : Change)
      → operation sp lim a (refresh lim ls) ≡ done c
      → Ending sp lim ls d a (write lim ls c, failed storage)

-- A record that is stored in place of an older one, or of none.
pub record Storing (lim : Limits) (ls : List Line) (c : Change) : Type 0 where
  pub whole : c ≡ stored lim c.notice (refresh lim ls)
  pub later : newer c.notice.revision (Dict.get c.notice.id (read_file ls)) ≡ true
  pub fits :
      is_in active c.notice ≡ true
      → (counted (Dict.get c.notice.id (read_file ls)) ≡ 1)
        ⊎ (active_count (refresh lim ls) < lim.max_active)

-- A draft that is removed.
pub record Removing (lim : Limits) (ls : List Line) (c : Change) : Type 0 where
  pub id : String
  pub whole : c.records ≡ Dict.pop id (refresh lim ls)
  pub anew : c.compact ≡ true

module _ (sp : ℕ → Bool) (lim : Limits) (ls : List Line) where
  creating-Storing :
      (id : String) (payload : NoticeCreate) (now : ℕ) (c : Change)
      → Dict.get id (read_file ls) ≡ none
      → create_op sp lim id payload now (refresh lim ls) ≡ done c
      → Storing lim ls c
  creating-Storing id payload now c f e =
      let m = create_op-Made sp lim id payload now (refresh lim ls) c e in
      record { whole = m.whole; later = rw (m.named, f) refl; fits = λ a. inr (m.fits a) }

  pub updating-Storing :
      (id : String) (u : NoticeUpdate) (now : ℕ) (c : Change)
      → update_op sp lim id u now (refresh lim ls) ≡ done c
      → Storing lim ls c
  unfolding update_op
  updating-Storing id u now c e = elim (Option-cases (Dict.get id (refresh lim ls))) [
    | inl n ↦ absurd (ground arith)
    | inr (r, n) ↦
        let m = update_current-Moved sp lim r u now (refresh lim ls) c (ground arith) in
        let same : c.notice.id ≡ id =
          m.named ∙ found_id id (refresh lim ls) r (refresh-IsKeyed lim ls) n in
        let filed : Dict.get c.notice.id (read_file ls) ≡ some r =
          ap (λ k. Dict.get k (read_file ls)) same ∙ refresh-some lim id ls r n in
        record {
          whole = m.whole;
          later = rw (filed, m.next) (ground arith);
          fits =
              λ a. elim (m.fits a) [ inl y ↦ inl (ap counted filed ∙ rw y refl) | inr g ↦ inr g ];
        }
  ]

  removing : (id : String) (c : Change) → delete_op id (refresh lim ls) ≡ done c → Removing lim ls c
  unfolding delete_op
  removing id c e = elim (Option-cases (Dict.get id (refresh lim ls))) [
    | inl n ↦ absurd (ground arith)
    | inr (r, n) ↦ elim (Bool-cases (same_status r.status draft)) [
      | inl h ↦ record { id = id; whole = ground arith; anew = ground arith }
      | inr h ↦ absurd (ground arith)
    ]
  ]

  -- What a call that succeeds does.
  pub operation-cases :
      (a : Call) (c : Change)
      → IsFresh a ls
      → operation sp lim a (refresh lim ls) ≡ done c
      → Storing lim ls c ⊎ Removing lim ls c
  operation-cases (creating id payload now) c f e = inl (creating-Storing id payload now c f e)
  operation-cases (updating id u now) c f e = inl (updating-Storing id u now c e)
  operation-cases (deleting id) c f e = inr (removing id c e)

  pub written-Agrees : (c : Change) → Storing lim ls c ⊎ Removing lim ls c → Agrees (write lim ls c)
  written-Agrees c (inl s) =
      subst (λ x. Agrees (write lim ls x)) (sym s.whole) (stored-Agrees lim ls c.notice s.later)
  written-Agrees c (inr r) =
      compact-Agrees lim ls c r.anew
        (subst IsKeyed (sym r.whole) (pop-IsKeyed r.id (refresh lim ls) (refresh-IsKeyed lim ls)))

  stored_bound :
      (r : NoticeRecord)
      → newer r.revision (Dict.get r.id (read_file ls)) ≡ true
      → (is_in active r ≡ true
          → (counted (Dict.get r.id (read_file ls)) ≡ 1)
            ⊎ (active_count (refresh lim ls) < lim.max_active))
      → active_count (read_file ls) ≤ lim.max_active
      → active_count (read_file (write lim ls (stored lim r (refresh lim ls))).lines)
        ≤ lim.max_active
  stored_bound r n f b =
      let total = stored-count lim ls r n in
      let same = refresh-count lim ls in
      elim (Bool-cases (is_in active r)) [
        | inr w ↦ ground (arith, total)
        | inl y ↦ elim (f y) [ inl o ↦ ground (arith, total) | inr g ↦ ground (arith, total, same) ]
      ]

  removed_bound :
      (id : String)
      → active_count (read_file ls) ≤ lim.max_active
      → active_count (read_file (as_lines (Dict.pop id (refresh lim ls)))) ≤ lim.max_active
  removed_bound id b =
      let k = refresh-IsKeyed lim ls in
      rw (read_file-as_lines (Dict.pop id (refresh lim ls)) (pop-IsKeyed id (refresh lim ls) k))
        (omega (arith, active_count-pop id (refresh lim ls) k.distinct, refresh-count lim ls))

  pub written-count :
      (c : Change)
      → Storing lim ls c ⊎ Removing lim ls c
      → active_count (read_file ls) ≤ lim.max_active
      → active_count (read_file (write lim ls c).lines) ≤ lim.max_active
  written-count c (inl s) b =
      subst (λ x. active_count (read_file (write lim ls x).lines) ≤ lim.max_active) (sym s.whole)
        (stored_bound c.notice s.later s.fits b)
  written-count c (inr r) b = rw (compact-lines lim ls c r.anew, r.whole) (removed_bound r.id b)

  written-Ending :
      (a : Call) (d : Records) (disk : Disk) (x : Result Change)
      → operation sp lim a (refresh lim ls) ≡ x
      → Ending sp lim ls d a (written lim ls (refresh lim ls) disk x)
  written-Ending a d disk (failed e) h = was_refused e
  written-Ending a d works (done c) h = was_written c h
  written-Ending a d unread (done c) h = was_refused storage
  written-Ending a d lost (done c) h = was_lost c h
  written-Ending a d kept (done c) h = was_kept c h

  mutate-Ending :
      (a : Call) (d : Records) (disk : Disk)
      → Ending sp lim ls d a
          (mutate lim disk (operation sp lim a) (record { lines = ls; records = d }))
  unfolding mutate
  mutate-Ending a d unread = was_unread
  mutate-Ending a d works = written-Ending a d works (operation sp lim a (refresh lim ls)) refl
  mutate-Ending a d lost = written-Ending a d lost (operation sp lim a (refresh lim ls)) refl
  mutate-Ending a d kept = written-Ending a d kept (operation sp lim a (refresh lim ls)) refl

  pub call-Ending :
      (a : Call) (d : Records) (disk : Disk)
      → Ending sp lim ls d a (call sp lim disk a (record { lines = ls; records = d }))
  call-Ending a d disk =
      subst (Ending sp lim ls d a)
        (sym (call-mutate sp lim disk a (record { lines = ls; records = d })))
        (mutate-Ending a d disk)

  -- Where the disk works, the file of an operation that succeeds is the one that is written.
  pub works-write :
      (a : Call) (c : Change) (d : Records)
      → operation sp lim a (refresh lim ls) ≡ done c
      → (call sp lim works a (record { lines = ls; records = d })).0 ≡ write lim ls c
  unfolding mutate
  works-write a c d h =
      ap (λ p. p.0) (call-mutate sp lim works a (record { lines = ls; records = d }))
      ∙ ap (λ x. (written lim ls (refresh lim ls) works x).0) h
