-- ===== src/Notices/Durable.antt =====
-- The file and the records in memory after a method that writes.
use stpt_query.Common.{
  ◌+◌, ◌≡◌, ◌∙◌, ap, sym, refl, String, true, false, ◌||◌, Option, none, some, List, [], ◌∷◌, ◌++◌,
  length, leb, if◌then◌else◌, arith, Bool-cases, ◌⊎◌, inl, inr,
}
use stpt_query.Common.Dict
use stpt_query.Common.Dict.{Dict, Distinct, get-put, get-pop}
use stpt_query.Notices.{
  NoticeRecord, active_count, Line, parsed, Records, newer, read_file, refresh, Limits, as_lines,
  Change, Store, write, stored,
}
use stpt_query.Notices.Replay.{
  IsKeyed, unarchived, prune-IsKeyed, put-IsKeyed, refresh-IsKeyed, read_file-IsKeyed,
  prune_unarchived, read_file-append,
}
use stpt_query.Notices.Counting.{
  counted, active_count-put, prune-count, refresh-count, read_file-as_lines,
}

-- Reading the file anew would give the records that are in memory, but for archived ones.
abbrev pub Agrees : Store → Type 0
Agrees s =
    (j : String) → unarchived (Dict.get j (read_file s.lines)) ≡ unarchived (Dict.get j s.records)

-- The records that are read agree with the file.
pub refused-Agrees :
    (lim : Limits) (ls : List Line) → Agrees (record { lines = ls; records = refresh lim ls })
unfolding refresh
refused-Agrees lim ls j =
    sym (prune_unarchived lim.max_history j (read_file ls) (read_file-IsKeyed ls))

counted_view : (o : Option NoticeRecord) → counted o ≡ counted (unarchived o)
counted_view none = refl
counted_view (some r) = ground arith

module _ (lim : Limits) (ls : List Line) where
  stored-view :
      (r : NoticeRecord) (j : String)
      → unarchived (Dict.get j (Dict.put r.id r (read_file ls)))
        ≡ unarchived (Dict.get j (stored lim r (refresh lim ls)).records)
  unfolding refresh
  stored-view r j =
      let d = refresh lim ls in
      let outer =
        prune_unarchived lim.max_history j (Dict.put r.id r d)
          (put-IsKeyed r d (refresh-IsKeyed lim ls)) in
      let inner = prune_unarchived lim.max_history j (read_file ls) (read_file-IsKeyed ls) in
      ground (arith, outer, inner, get-put j r.id r d, get-put j r.id r (read_file ls))

  stored-IsKeyed : (r : NoticeRecord) → IsKeyed (stored lim r (refresh lim ls)).records
  stored-IsKeyed r =
      prune-IsKeyed lim.max_history (Dict.put r.id r (refresh lim ls))
        (put-IsKeyed r (refresh lim ls) (refresh-IsKeyed lim ls))

  -- A file that is written anew holds the records.
  anew-Agrees : (d : Records) → IsKeyed d → Agrees (record { lines = as_lines d; records = d })
  anew-Agrees d k j = ap (λ e. unarchived (Dict.get j e)) (read_file-as_lines d k)

  write-cases :
      (c : Change)
      → (write lim ls c ≡ record { lines = as_lines c.records; records = c.records })
        ⊎ ((c.compact ≡ false)
            × (write lim ls c
                ≡ record { lines = ls ++ (parsed c.notice ∷ []); records = c.records }))
  unfolding write
  write-cases c =
      elim (Bool-cases (
        c.compact
        || leb lim.compact_after (length c.records)
        || leb lim.compact_after (if c.compact then length ls else length ls + 1))) [
          | inl b ↦ inl (rw (b, if◌then◌else◌) refl)
          | inr b ↦ inr (ground arith, rw (b, if◌then◌else◌) refl)
        ]

  pub stored-Agrees :
      (r : NoticeRecord)
      → newer r.revision (Dict.get r.id (read_file ls)) ≡ true
      → Agrees (write lim ls (stored lim r (refresh lim ls)))
  stored-Agrees r n =
      let c = stored lim r (refresh lim ls) in
      elim (write-cases c) [
        | inl e ↦ rw e (anew-Agrees c.records (stored-IsKeyed r))
        | inr (f, e) ↦
            rw e
              (λ j. ap (λ d. unarchived (Dict.get j d)) (read_file-append ls r n) ∙ stored-view r j)
      ]

  write-records : (c : Change) → (write lim ls c).records ≡ c.records
  write-records c = elim (write-cases c) [ inl e ↦ rw e refl | inr (f, e) ↦ rw e refl ]

  -- A record that was stored is read from the file, but for an archived one.
  pub stored_read :
      (r : NoticeRecord)
      → newer r.revision (Dict.get r.id (read_file ls)) ≡ true
      → unarchived (Dict.get r.id (read_file (write lim ls (stored lim r (refresh lim ls))).lines))
        ≡ unarchived (some r)
  stored_read r n =
      stored-Agrees r n r.id
      ∙ ap (λ d. unarchived (Dict.get r.id d)) (write-records (stored lim r (refresh lim ls)))
      ∙ sym (stored-view r r.id)
      ∙ ground (arith, get-put r.id r.id r (read_file ls))

  pub compact-Agrees : (c : Change) → c.compact ≡ true → IsKeyed c.records → Agrees (write lim ls c)
  compact-Agrees c t k = elim (write-cases c) [
    | inl e ↦ rw e (anew-Agrees c.records k)
    | inr (f, e) ↦ absurd (ground arith)
  ]

  pub compact-lines : (c : Change) → c.compact ≡ true → (write lim ls c).lines ≡ as_lines c.records
  compact-lines c t = elim (write-cases c) [
    | inl e ↦ rw e refl
    | inr (f, e) ↦ absurd (ground arith)
  ]

  refreshed-counted :
      (j : String) → counted (Dict.get j (refresh lim ls)) ≡ counted (Dict.get j (read_file ls))
  unfolding refresh
  refreshed-counted j =
      counted_view (Dict.get j (refresh lim ls))
      ∙ ap counted (prune_unarchived lim.max_history j (read_file ls) (read_file-IsKeyed ls))
      ∙ sym (counted_view (Dict.get j (read_file ls)))

  -- The number of active notices that the file then has.
  pub stored-count :
      (r : NoticeRecord)
      → newer r.revision (Dict.get r.id (read_file ls)) ≡ true
      → active_count (read_file (write lim ls (stored lim r (refresh lim ls))).lines)
          + counted (Dict.get r.id (read_file ls))
        ≡ active_count (read_file ls) + counted (some r)
  stored-count r n =
      let d = refresh lim ls in
      let c = stored lim r d in
      let filed = active_count-put r.id r (read_file ls) in
      elim (write-cases c) [
        | inl e ↦
            rw (e, read_file-as_lines c.records (stored-IsKeyed r))
              (omega (
                arith,
                prune-count lim.max_history (Dict.put r.id r d)
                    (put-IsKeyed r d (refresh-IsKeyed lim ls)),
                active_count-put r.id r d,
                refresh-count lim ls,
                refreshed-counted r.id,
              ))
        | inr (f, e) ↦ rw (e, read_file-append ls r n) filed
      ]
