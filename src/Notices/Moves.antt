-- ===== src/Notices/Moves.antt =====
-- What the operations of app/notices.py do to a notice.
use stpt_query.Common.{
  ℕ, ◌+◌, ◌<◌, ◌≡◌, ◌∙◌, ap, sym, refl, String, Bool, true, false, ◌&&◌, ◌||◌, Option, none, some,
  leb, arith, Bool-cases, Option-cases, ◌⊎◌, inl, inr,
}
use stpt_query.Notices.{
  NoticeRecord, Status, active, archived, draft, deleted, is_in, active_count, Records, Limits,
  Change, stored, Result, done, failed, single_line, NoticeCreate, NoticeUpdate, NoticeError,
  create_op, update_current, allowed, changed, or_kept, is_given, same_status,
}

pub Result-cases :
    {A : Type 0} (r : Result A) → ((a : A) × (r ≡ done a)) ⊎ ((e : NoticeError) × (r ≡ failed e))
Result-cases (done a) = inl (a, refl)
Result-cases (failed e) = inr (e, refl)

not_given : {A : Type 0} (o : Option A) (a : A) → is_given o ≡ false → or_kept o a ≡ a
not_given none a h = refl
not_given (some b) a h = absurd (ground arith)

-- A status that is no draft and not deleted is a published one.
three :
    (s : Status)
    → same_status s draft ≡ false
    → same_status s deleted ≡ false
    → (same_status s active || same_status s archived) ≡ true
three draft h k = absurd (ground arith)
three active h k = refl
three archived h k = refl
three deleted h k = absurd (ground arith)

-- The changes of a status: a draft is edited or shown, a notice that is shown is shown again or
-- retired, and one that is retired is retired again or shown.
pub data Transition : Status → Status → Type 0 where
  edit : Transition draft draft
  publish : Transition draft active
  stay : Transition active active
  retire : Transition active archived
  rest : Transition archived archived
  revive : Transition archived active

allowed-Transition : (s t : Status) → allowed s t ≡ true → Transition s t
allowed-Transition draft draft h = edit
allowed-Transition draft active h = publish
allowed-Transition draft archived h = absurd (ground arith)
allowed-Transition draft deleted h = absurd (ground arith)
allowed-Transition active active h = stay
allowed-Transition active archived h = retire
allowed-Transition active draft h = absurd (ground arith)
allowed-Transition active deleted h = absurd (ground arith)
allowed-Transition archived archived h = rest
allowed-Transition archived active h = revive
allowed-Transition archived draft h = absurd (ground arith)
allowed-Transition archived deleted h = absurd (ground arith)
allowed-Transition deleted draft h = absurd (ground arith)
allowed-Transition deleted active h = absurd (ground arith)
allowed-Transition deleted archived h = absurd (ground arith)
allowed-Transition deleted deleted h = absurd (ground arith)

module _ (sp : ℕ → Bool) (lim : Limits) where
  -- A notice that is made.
  pub record Made (id : String) (now : ℕ) (d : Records) (c : Change) : Type 0 where
    pub whole : c ≡ stored lim c.notice d
    pub named : c.notice.id ≡ id
    pub first : c.notice.revision ≡ 1
    pub fits : is_in active c.notice ≡ true → active_count d < lim.max_active

  pub create_op-Made :
      (id : String) (payload : NoticeCreate) (now : ℕ) (d : Records) (c : Change)
      → create_op sp lim id payload now d ≡ done c
      → Made id now d c
  unfolding create_op
  create_op-Made id payload now d c e =
      elim (Bool-cases (payload.is_active && leb lim.max_active (active_count d))) [
        | inl b ↦ absurd (ground arith)
        | inr b ↦ elim (Option-cases (single_line sp payload.content)) [
          | inl n ↦ absurd (ground arith)
          | inr (t, n) ↦ record {
            whole = ground arith;
            named = ground arith;
            first = ground arith;
            fits = λ a. ground arith;
          }
        ]
      ]

  -- A notice that is changed, by the state machine of the statuses.
  pub record Moved (r : NoticeRecord) (now : ℕ) (d : Records) (c : Change) : Type 0 where
    pub whole : c ≡ stored lim c.notice d
    pub named : c.notice.id ≡ r.id
    pub next : c.notice.revision ≡ r.revision + 1
    pub step : Transition r.status c.notice.status
    pub keeps :
        same_status r.status draft ≡ false
        → (c.notice.level ≡ r.level) × (single_line sp r.content ≡ some c.notice.content)
    pub fits :
        is_in active c.notice ≡ true → (is_in active r ≡ true) ⊎ (active_count d < lim.max_active)

  module _ (r : NoticeRecord) (u : NoticeUpdate) (now : ℕ) (d : Records) (c : Change) where
    moved_fits :
        update_current sp lim r u now d ≡ done c
        → is_in active c.notice ≡ true
        → is_in active r ≡ false
        → active_count d < lim.max_active
    unfolding update_current
    moved_fits e a w = elim (Option-cases (single_line sp (or_kept u.content r.content))) [
      | inl n ↦ absurd (ground arith)
      | inr (t, n) ↦ elim (Bool-cases (leb lim.max_active (active_count d))) [
        | inl g ↦ absurd (ground arith)
        | inr g ↦ ground arith
      ]
    ]

    moved_keeps :
        update_current sp lim r u now d ≡ done c
        → same_status r.status draft ≡ false
        → (c.notice.level ≡ r.level) × (single_line sp r.content ≡ some c.notice.content)
    unfolding update_current
    moved_keeps e w = elim (Option-cases (single_line sp (or_kept u.content r.content))) [
      | inl n ↦ absurd (ground arith)
      | inr (t, n) ↦ elim (Bool-cases (is_given u.content || is_given u.level)) [
        | inl g ↦ absurd (ground (arith, three r.status))
        | inr g ↦
            let level : or_kept u.level r.level ≡ r.level =
              not_given u.level r.level (ground arith) in
            let content : or_kept u.content r.content ≡ r.content =
              not_given u.content r.content (ground arith) in
            (ground arith, ap (single_line sp) (sym content) ∙ ground arith)
      ]
    ]

    pub update_current-Moved : update_current sp lim r u now d ≡ done c → Moved r now d c
    unfolding update_current
    update_current-Moved e = elim (Option-cases (single_line sp (or_kept u.content r.content))) [
      | inl n ↦ absurd (ground arith)
      | inr (t, n) ↦
          let here : c ≡ stored lim (changed r u t (or_kept u.status r.status) now) d =
            ground arith in
          record {
            whole = ground arith;
            named = ground arith;
            next = ground arith;
            step = allowed-Transition r.status c.notice.status (ground arith);
            keeps = moved_keeps e;
            fits = λ a. elim (Bool-cases (is_in active r)) [
              | inl y ↦ inl y
              | inr w ↦ inr (moved_fits e a w)
            ];
          }
    ]
