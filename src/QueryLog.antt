-- ===== src/QueryLog.antt =====
-- `JSONLFileWriter` of app/querylog.py: a log file with numbered backups. The files of the log are
-- a function of their number, 0 for the current one; a file is the list of its bytes.
pub mod Reading
pub mod Written
pub mod Rotation
pub mod Fields
mod Tests
use stpt_query.Common.{
  ℕ, zero, suc, ◌+◌, ◌-◌, min, max, String, Bool, true, false, not, ◌&&◌, ◌||◌, Option, none, some,
  List, [], ◌∷◌, ◌++◌, length, ltb, leb, ◌==◌, if◌then◌else◌, ite, String_discrete,
}
use stpt_query.Common.Dict.{Dict}
use stpt_query.Calendar.Weeks.{strip}

abbrev pub Bytes : Type 0
Bytes = List ℕ

abbrev pub Files : Type 0
Files = ℕ → Option Bytes

abbrev pub contains : String → List String → Bool
contains k [] = false
contains k (x ∷ xs) = ite (String_discrete x k) true (contains k xs)

-- `_ALLOWED_FIELDS`
abbrev pub allowed_fields : List String
allowed_fields =
    "event" ∷ "time" ∷ "run_id" ∷ "client_ip" ∷ "username" ∷ "option" ∷ "semesters" ∷ "weeks"
    ∷ "md2pdf" ∷ "check" ∷ "success" ∷ "kind" ∷ "elapsed_ms" ∷ "message" ∷ "analysis"
    ∷ "analysis_usage" ∷ "response_summary" ∷ []

-- `_SENSITIVE_FIELDS`
abbrev pub sensitive_fields : List String
sensitive_fields = "password" ∷ "session" ∷ "token" ∷ "authorization" ∷ "api_token" ∷ []

unfoldable pub is_dropped : String → Bool
is_dropped k = not (contains k allowed_fields) || contains k sensitive_fields

-- The loop of `sanitize_entry`.
unfoldable pub sanitize_entry {ℓ} : {V : Type ℓ} → Dict V → Dict V
sanitize_entry [] = []
sanitize_entry ((k, v) ∷ d) =
    let rest = sanitize_entry d in if is_dropped k then rest else ((k, v) ∷ rest)

abbrev pub size_of : Option Bytes → ℕ
size_of none = 0
size_of (some b) = length b

abbrev pub exists : Option Bytes → Bool
exists none = false
exists (some b) = true

abbrev pub update_file : ℕ → Option Bytes → Files → Files
update_file i b f j = if j == i then b else f j

-- `os.replace`
abbrev pub replace : ℕ → ℕ → Files → Files
replace source target f = update_file source none (update_file target (f source) f)

-- The loop of `_rotate`, for the indices down from the one given.
unfoldable pub shift : ℕ → Files → Files
shift zero f = f
shift (suc i) f =
    if exists (f (suc i)) then shift i (replace (suc i) (suc (suc i)) f) else shift i f

-- `_rotate`
unfoldable pub rotate : ℕ → ℕ → Files → Files
rotate max_bytes backup_count f =
    if ltb (size_of (f 0)) max_bytes
    then f
    else if backup_count == 0
    then update_file 0 none (shift (backup_count - 1) f)
    else replace 0 1 (shift (backup_count - 1) f)

abbrev appended : Option Bytes → Bytes → Bytes
appended none payload = payload
appended (some b) payload = b ++ payload

-- `write_raw`, from the payload on.
unfoldable pub write_raw : ℕ → ℕ → Bytes → Files → Files
write_raw max_bytes backup_count payload f =
    let ready = if exists (f 0) then rotate max_bytes backup_count f else f in
    update_file 0 (some (appended (ready 0) payload)) ready

abbrev backups_from : ℕ → Files → List ℕ
backups_from zero f = []
backups_from (suc n) f =
    let rest = backups_from n f in if exists (f (suc n)) then suc n ∷ rest else rest

-- `archive_files`, where no backup has a greater number than the one given.
unfoldable pub archive_files : ℕ → Files → List ℕ
archive_files bound f =
    if exists (f 0) then backups_from bound f ++ (0 ∷ []) else backups_from bound f

-- `chunk.split(b"\n")`: the first part and the others.
abbrev pub split : Bytes → Bytes × List Bytes
split [] = ([], [])
split (c ∷ cs) =
    let rest = split cs in if c == 10 then ([], rest.0 ∷ rest.1) else (c ∷ rest.0, rest.1)

-- `chunks[-1] += tail`
abbrev pub extend_last : Bytes × List Bytes → Bytes → Bytes × List Bytes
extend_last (c, []) tail = (c ++ tail, [])
extend_last (c, d ∷ ds) tail = let rest = extend_last (d, ds) tail in (c, rest.0 ∷ rest.1)

abbrev pub is_blank : (ℕ → Bool) → Bytes → Bool
is_blank sp line = length (strip sp line) == 0

-- The loop over `reversed(chunks[1:])`.
abbrev pub yielded : (ℕ → Bool) → List Bytes → List Bytes
yielded sp [] = []
yielded sp (l ∷ ls) =
    let before = yielded sp ls in if is_blank sp l then before else before ++ (strip sp l ∷ [])

abbrev pub take : ℕ → Bytes → Bytes
take zero xs = []
take (suc n) [] = []
take (suc n) (x ∷ xs) = x ∷ take n xs

abbrev pub drop : ℕ → Bytes → Bytes
drop zero xs = xs
drop (suc n) [] = []
drop (suc n) (x ∷ xs) = drop n xs

-- The end of `_iter_file_lines`, after the loop.
abbrev pub last_line : (ℕ → Bool) → Bytes → List Bytes
last_line sp tail = if is_blank sp tail then [] else (tail ∷ [])

-- The loop of `_iter_file_lines`; the fuel is the position in the beginning.
unfoldable pub read_back : (ℕ → Bool) → ℕ → ℕ → Bytes → ℕ → Bytes → List Bytes
read_back sp chunk_size zero file position tail = last_line sp tail
read_back sp chunk_size (suc fuel) file position tail =
    let next = position - min chunk_size position in
    let chunks = extend_last (split (drop next (take position file))) tail in
    let rest = read_back sp chunk_size fuel file next chunks.0 in
    if position == 0 then last_line sp tail else (yielded sp chunks.1 ++ rest)

-- `_iter_file_lines` for one file.
unfoldable pub iter_file_lines : (ℕ → Bool) → ℕ → Bytes → List Bytes
iter_file_lines sp chunk_size file =
    if length file == 0 then [] else read_back sp chunk_size (length file) file (length file) []

abbrev pub bytes_of : Option Bytes → Bytes
bytes_of none = []
bytes_of (some b) = b

-- `_iter_file_lines`
unfoldable pub iter_lines : (ℕ → Bool) → ℕ → Files → List ℕ → List Bytes
iter_lines sp chunk_size f [] = []
iter_lines sp chunk_size f (i ∷ is) =
    iter_file_lines sp chunk_size (bytes_of (f i)) ++ iter_lines sp chunk_size f is

-- `iter_recent_lines`
unfoldable pub iter_recent_lines : (ℕ → Bool) → ℕ → ℕ → Files → List Bytes
iter_recent_lines sp chunk_size bound f = iter_lines sp chunk_size f (archive_files bound f)
