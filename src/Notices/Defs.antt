-- ===== src/Notices/Defs.antt =====
-- The records of app/notices.py and their file: what is read, pruned and written.
use stpt_query.Common.{
  ℕ, zero, suc, ◌+◌, max, String, Bool, true, false, ◌&&◌, ◌||◌, Option, none, some, List, [], ◌∷◌,
  ◌++◌, length, ltb, leb, ◌==◌, if◌then◌else◌,
}
use stpt_query.Common.Dict
use stpt_query.Common.Dict.{Dict}
use Prim.Native.Nat.{Ordering}
use Prim.Native.String.{compare}

pub data Level : Type 0 where
  info : Level
  warning : Level

pub data Status : Type 0 where
  draft : Status
  active : Status
  archived : Status
  deleted : Status

pub record NoticeRecord : Type 0 where
  pub id : String
  pub content : List ℕ
  pub level : Level
  pub status : Status
  pub revision : ℕ
  pub created_at : ℕ
  pub updated_at : ℕ
  pub published_at : Option ℕ
  pub archived_at : Option ℕ

pub record NoticeCreate : Type 0 where
  pub content : List ℕ
  pub level : Level
  pub is_active : Bool

pub record NoticeUpdate : Type 0 where
  pub content : Option (List ℕ)
  pub level : Option Level
  pub status : Option Status

pub data NoticeError : Type 0 where
  not_found : NoticeError
  conflict : NoticeError
  invalid : NoticeError
  storage : NoticeError

pub data Result {ℓ} (A : Type ℓ) : Type ℓ where
  done : A → Result A
  failed : NoticeError → Result A

pub data Line : Type 0 where
  parsed : NoticeRecord → Line
  broken : Line

pub record Limits : Type 0 where
  pub max_active : ℕ
  pub max_history : ℕ
  pub compact_after : ℕ

-- `__init__`
abbrev pub limits : ℕ → ℕ → ℕ → Limits
limits a h c = record { max_active = max 1 a; max_history = max 1 h; compact_after = max 2 c }

abbrev pub Records : Type 0
Records = Dict NoticeRecord

-- `text.split()`: the second argument is the word being read, the third is the rest.
abbrev pub flush : List ℕ → List (List ℕ) → List (List ℕ)
flush [] ws = ws
flush (c ∷ cs) ws = (c ∷ cs) ∷ ws

abbrev pub words_from : (ℕ → Bool) → List ℕ → List ℕ → List (List ℕ)
words_from sp cur [] = flush cur []
words_from sp cur (c ∷ cs) =
    let ended = words_from sp [] cs in
    let longer = words_from sp (cur ++ (c ∷ [])) cs in if sp c then flush cur ended else longer

-- `" ".join(words)`
abbrev pub join_words : List (List ℕ) → List ℕ
join_words [] = []
join_words (w ∷ []) = w
join_words (w ∷ v ∷ ws) = w ++ (32 ∷ join_words (v ∷ ws))

abbrev pub has_control : List ℕ → Bool
has_control [] = false
has_control (c ∷ cs) = ltb c 32 || has_control cs

-- `_single_line_text`
abbrev pub checked : List ℕ → Option (List ℕ)
checked [] = none
checked (c ∷ cs) =
    if ltb 120 (length (c ∷ cs)) then none else if has_control (c ∷ cs) then none else some (c ∷ cs)

unfoldable pub single_line : (ℕ → Bool) → List ℕ → Option (List ℕ)
single_line sp text = checked (join_words (words_from sp [] text))

abbrev pub same_status : Status → Status → Bool
same_status draft draft = true
same_status active active = true
same_status archived archived = true
same_status deleted deleted = true
same_status _ _ = false

abbrev pub is_in : Status → NoticeRecord → Bool
is_in st r = same_status r.status st

-- `_active_count`
unfoldable pub active_count : Records → ℕ
active_count d = length (Dict.keep (is_in active) d)

abbrev time_value : Option ℕ → ℕ
time_value none = 0
time_value (some t) = t

abbrev pub text_before : String → String → Bool
text_before a b = elim (compare a b) [ Ordering.lt ↦ true | _ ↦ false ]

-- The order of the key `(time, revision, id)` in `_sorted_records`.
abbrev pub key_before : (NoticeRecord → Option ℕ) → NoticeRecord → NoticeRecord → Bool
key_before field a b =
    let s = time_value (field a) in
    let t = time_value (field b) in
    ltb s t
    || ((s == t)
        && (ltb a.revision b.revision || ((a.revision == b.revision) && text_before a.id b.id)))

abbrev pub insert_record :
    (NoticeRecord → Option ℕ) → NoticeRecord → List NoticeRecord → List NoticeRecord
insert_record field r [] = r ∷ []
insert_record field r (x ∷ xs) =
    let rest = insert_record field r xs in if key_before field r x then x ∷ rest else (r ∷ x ∷ xs)

-- `_sorted_records`, the greatest key first
unfoldable pub sorted_records : (NoticeRecord → Option ℕ) → List NoticeRecord → List NoticeRecord
sorted_records field [] = []
sorted_records field (r ∷ rs) = insert_record field r (sorted_records field rs)

abbrev pub values : Records → List NoticeRecord
values [] = []
values ((k, r) ∷ d) = r ∷ values d

abbrev pub drop_first : ℕ → List NoticeRecord → List NoticeRecord
drop_first zero rs = rs
drop_first (suc n) [] = []
drop_first (suc n) (r ∷ rs) = drop_first n rs

unfoldable pub pop_all : List NoticeRecord → Records → Records
pop_all [] d = d
pop_all (r ∷ rs) d = pop_all rs (Dict.pop r.id d)

abbrev pub archived_field : NoticeRecord → Option ℕ
archived_field r = r.archived_at

-- The archived records beyond the limit, oldest last.
unfoldable pub surplus : ℕ → Records → List NoticeRecord
surplus max_history d =
    drop_first max_history (sorted_records archived_field (values (Dict.keep (is_in archived) d)))

-- `_prune_history`
unfoldable pub prune_history : ℕ → Records → Records
prune_history max_history d = pop_all (surplus max_history d) d

abbrev pub newer : ℕ → Option NoticeRecord → Bool
newer revision none = true
newer revision (some previous) = ltb previous.revision revision

-- One line in the loop of `_read_file`.
unfoldable pub read_line : Line → Records → Records
read_line broken d = d
read_line (parsed r) d = if newer r.revision (Dict.get r.id d) then Dict.put r.id r d else d

unfoldable pub read_lines : List Line → Records → Records
read_lines [] d = d
read_lines (l ∷ ls) d = read_lines ls (read_line l d)

-- `_read_file`, but for its counts
unfoldable pub read_file : List Line → Records
read_file ls = read_lines ls []

-- `_refresh`
unfoldable pub refresh : Limits → List Line → Records
refresh lim ls = prune_history lim.max_history (read_file ls)

-- What an operation returns: the record, the records, and whether the file is written anew.
pub record Change : Type 0 where
  pub notice : NoticeRecord
  pub records : Records
  pub compact : Bool

-- `_compact_locked`
abbrev pub as_lines : Records → List Line
as_lines [] = []
as_lines ((k, r) ∷ d) = parsed r ∷ as_lines d

-- The file and the records in memory.
pub record Store : Type 0 where
  pub lines : List Line
  pub records : Records

-- The part of `_mutate` after the operation.
unfoldable pub write : Limits → List Line → Change → Store
write lim ls c =
    let raw_after = if c.compact then length ls else length ls + 1 in
    if c.compact || leb lim.compact_after (length c.records) || leb lim.compact_after raw_after
    then record { lines = as_lines c.records; records = c.records }
    else record { lines = ls ++ (parsed c.notice ∷ []); records = c.records }

-- What the disk does in a call: it works; the file cannot be read, so that nothing is changed; the
-- writing fails with nothing of it in the file, or with all of it.
pub data Disk : Type 0 where
  works : Disk
  unread : Disk
  lost : Disk
  kept : Disk

-- The end of `_mutate` once the operation has changed the records in place; an `OSError` becomes a
-- `NoticeStorageError`.
abbrev pub written :
    Limits → List Line → Records → Disk → Result Change → Store × Result NoticeRecord
written lim ls d disk (failed e) = (record { lines = ls; records = d }, failed e)
written lim ls d works (done c) = (write lim ls c, done c.notice)
written lim ls d unread (done c) = (record { lines = ls; records = d }, failed storage)
written lim ls d lost (done c) = (record { lines = ls; records = c.records }, failed storage)
written lim ls d kept (done c) = (write lim ls c, failed storage)

-- `_mutate`, with the `OSError` as its callers give it on; where the operation raises, the records
-- read stay in memory.
unfoldable pub mutate :
    Limits → Disk → (Records → Result Change) → Store → Store × Result NoticeRecord
mutate lim unread operation s = (s, failed storage)
mutate lim works operation s =
    let d = refresh lim s.lines in written lim s.lines d works (operation d)
mutate lim lost operation s =
    let d = refresh lim s.lines in written lim s.lines d lost (operation d)
mutate lim kept operation s =
    let d = refresh lim s.lines in written lim s.lines d kept (operation d)
