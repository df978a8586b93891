-- ===== src/Notices.antt =====
-- `NoticeStore` of app/notices.py: notices in a file of lines, one record a line, where the line
-- with the greatest revision counts. A method that writes holds the lock of the file from its
-- reading to its writing, and is one step. A line that holds a record is that record.
-- What the disk does is an argument; a line of which only a part reached the file is not modelled.
mod Defs
pub mod Content
pub mod Replay
pub mod Counting
pub mod Moves
pub mod Durable
pub mod Effects
pub mod Calls
mod Tests
unfoldable pub use Defs.*
use stpt_query.Common.{
  ℕ, zero, suc, ◌+◌, min, max, String, Bool, true, false, not, ◌&&◌, ◌||◌, Option, none, some, List,
  [], ◌∷◌, ◌++◌, length, ltb, leb, ◌==◌, if◌then◌else◌,
}
use stpt_query.Common.Dict
use stpt_query.Common.Dict.{Dict}
use Prim.Native.Nat.{Ordering}
use Prim.Native.String.{compare}

-- `records[record.id] = record` and the pruning that ends an operation.
abbrev pub stored : Limits → NoticeRecord → Records → Change
stored lim r d = record {
  notice = r;
  records = prune_history lim.max_history (Dict.put r.id r d);
  compact = false;
}

module _ (sp : ℕ → Bool) (lim : Limits) where
  -- The operation of `create`, at the id that `uuid4` drew.
  unfoldable pub create_op : String → NoticeCreate → ℕ → Records → Result Change
  create_op id payload now d =
      if payload.is_active && leb lim.max_active (active_count d)
      then failed conflict
      else elim (single_line sp payload.content) [
        | none ↦ failed invalid
        | some text ↦ done (
            stored lim
              (record {
                id = id;
                content = text;
                level = payload.level;
                status = if payload.is_active then active else draft;
                revision = 1;
                created_at = now;
                updated_at = now;
                published_at = if payload.is_active then some now else none;
                archived_at = none;
              })
              d)
      ]

  unfoldable pub create : Disk → String → NoticeCreate → ℕ → Store → Store × Result NoticeRecord
  create disk id payload now s = mutate lim disk (create_op id payload now) s

abbrev pub allowed : Status → Status → Bool
allowed draft draft = true
allowed draft active = true
allowed active active = true
allowed active archived = true
allowed archived archived = true
allowed archived active = true
allowed _ _ = false

abbrev pub is_given {ℓ} : {A : Type ℓ} → Option A → Bool
is_given none = false
is_given (some a) = true

abbrev pub or_kept {ℓ} : {A : Type ℓ} → Option A → A → A
or_kept none old = old
or_kept (some new) old = new

-- The record that `update` makes of the current one.
abbrev pub changed : NoticeRecord → NoticeUpdate → List ℕ → Status → ℕ → NoticeRecord
changed r u text next now =
    let goes_live = same_status next active && not (same_status r.status active) in
    let retires = same_status next archived in
    record {
      id = r.id;
      content = text;
      level = or_kept u.level r.level;
      status = next;
      revision = r.revision + 1;
      created_at = r.created_at;
      updated_at = now;
      published_at = if goes_live then some now else r.published_at;
      archived_at = if goes_live then none else if retires then some now else r.archived_at;
    }

module _ (sp : ℕ → Bool) (lim : Limits) where
  -- The guards of `update` on the current record, and the record that it stores.
  unfoldable pub update_current : NoticeRecord → NoticeUpdate → ℕ → Records → Result Change
  update_current r u now d =
      let next = or_kept u.status r.status in
      if same_status r.status deleted
      then failed not_found
      else if (same_status r.status active || same_status r.status archived)
          && (is_given u.content || is_given u.level)
      then failed conflict
      else if not (allowed r.status next)
      then failed conflict
      else if same_status next active
          && not (same_status r.status active)
          && leb lim.max_active (active_count d)
      then failed conflict
      else elim (single_line sp (or_kept u.content r.content)) [
        | none ↦ failed invalid
        | some text ↦ done (stored lim (changed r u text next now) d)
      ]

  unfoldable pub update_op : String → NoticeUpdate → ℕ → Records → Result Change
  update_op id u now d = elim (Dict.get id d) [
    | none ↦ failed not_found
    | some r ↦ update_current r u now d
  ]

  unfoldable pub update : Disk → String → NoticeUpdate → ℕ → Store → Store × Result NoticeRecord
  update disk id u now s = mutate lim disk (update_op id u now) s

unfoldable pub delete_op : String → Records → Result Change
delete_op id d = elim (Dict.get id d) [
  | none ↦ failed not_found
  | some r ↦
      if same_status r.status draft
      then done (record { notice = r; records = Dict.pop id d; compact = true })
      else failed conflict
]

unfoldable pub delete : Limits → Disk → String → Store → Store × Result NoticeRecord
delete lim disk id s = mutate lim disk (delete_op id) s

abbrev pub published_field : NoticeRecord → Option ℕ
published_field r = r.published_at

-- The notices shown, after `_read_shared` has read the file.
unfoldable pub active_notices : Limits → List Line → List NoticeRecord
active_notices lim ls =
    sorted_records published_field (values (Dict.keep (is_in active) (refresh lim ls)))

abbrev first_of : ℕ → List NoticeRecord → List NoticeRecord
first_of zero rs = []
first_of (suc n) [] = []
first_of (suc n) (r ∷ rs) = r ∷ first_of n rs

-- The notices of `history`, after `_read_shared` has read the file.
unfoldable pub history_notices : Limits → ℕ → List Line → List NoticeRecord
history_notices lim limit ls =
    first_of (min limit 100)
      (sorted_records archived_field (values (Dict.keep (is_in archived) (refresh lim ls))))
