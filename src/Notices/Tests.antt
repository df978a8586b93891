-- ===== src/Notices/Tests.antt =====
-- Runs of the notices.
use stpt_query.Common.{
  ℕ, ◌≤◌, ◌≡◌, refl, subst, Bool, true, none, some, List, [], ◌∷◌, length, ◌==◌, String_discrete,
  arith,
}
use stpt_query.Common.Dict
use stpt_query.Notices.{
  NoticeRecord, NoticeCreate, NoticeUpdate, info, active, archived, works, Limits, limits, Store,
  single_line, active_notices, read_file, refresh, create, update, mutate, create_op, update_op,
  update_current, write, active_count, prune_history, surplus, pop_all, sorted_records, read_lines,
  read_line,
}
use stpt_query.Notices.Effects.{creating}
use stpt_query.Notices.Calls.{IsNormal, Reach, empty, called, shown_bound, Updated, update-Updated}

abbrev space : ℕ → Bool
space c = c == 32

-- One notice is shown at a time.
abbrev one : Limits
one = limits 1 2 8

abbrev hello : NoticeCreate
hello = record { content = 32 ∷ 72 ∷ 105 ∷ 32 ∷ []; level = info; is_active = true }

abbrev nothing : Store
nothing = record { lines = []; records = [] }

-- The record of the notice that is shown, and its text.
abbrev hi : List ℕ
hi = 72 ∷ 105 ∷ []

abbrev retired : NoticeRecord
retired = record {
  id = "a";
  content = hi;
  level = info;
  status = archived;
  revision = 2;
  created_at = 10;
  updated_at = 20;
  published_at = some 10;
  archived_at = some 20;
}

abbrev shown : Store
shown = (create space one works "a" hello 10 nothing).0

abbrev retiring : NoticeUpdate
retiring = record { content = none; level = none; status = some archived }

hi_line : single_line space (32 ∷ 72 ∷ 105 ∷ 32 ∷ []) ≡ some hi
unfolding single_line
hi_line = refl

shown_Reach : Reach space one shown
unfolding read_file read_lines Dict.get
shown_Reach = called empty [] works (creating "a" hello 10) refl

shown_bound_example : length (active_notices one shown.lines) ≤ 1
shown_bound_example = shown_bound space one shown_Reach

-- The record that the file has.
abbrev made : NoticeRecord
made = record {
  id = "a";
  content = hi;
  level = info;
  status = active;
  revision = 1;
  created_at = 10;
  updated_at = 10;
  published_at = some 10;
  archived_at = none;
}

filed : Dict.get "a" (read_file shown.lines) ≡ some made
unfolding create mutate create_op write refresh single_line prune_history surplus pop_all
    sorted_records read_file read_lines read_line active_count Dict.keep Dict.get Dict.put Dict.pop
    String_discrete
filed = refl

hi_stays : single_line space hi ≡ some hi
unfolding single_line
hi_stays = refl

here_IsNormal : IsNormal space "a" shown.lines
here_IsNormal r h =
    let same : made ≡ r = ground (arith, h, filed) in
    subst (λ x. single_line space x.content ≡ some x.content) same hi_stays

update-Updated_example :
    (r : NoticeRecord) × Updated space "a" shown.lines
      (update space one works "a" retiring 20 shown).0.lines
      r
      retired
unfolding create update mutate create_op update_op update_current write refresh single_line
    prune_history surplus pop_all sorted_records read_file read_lines read_line active_count
    Dict.keep Dict.get Dict.put Dict.pop String_discrete
update-Updated_example =
    update-Updated space one works "a" retiring 20 shown
      (update space one works "a" retiring 20 shown).0 retired here_IsNormal refl
