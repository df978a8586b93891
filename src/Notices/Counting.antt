-- ===== src/Notices/Counting.antt =====
-- The number of the active notices, through every change of the records and of the file.
use stpt_query.Common.{
  append_assoc, append_nil, ℕ, suc, ◌+◌, ◌≡◌, ◌∙◌, ap, sym, subst, refl, String, Option, none, some,
  List, [], ◌∷◌, ◌++◌, All, length, if_neg, ◌≢◌, if◌then◌else◌, String_discrete, arith,
}
use stpt_query.Common.Dict
use stpt_query.Common.Dict.{Dict, Distinct, get-put, get-pop, pop-Distinct}
use stpt_query.Notices.{
  NoticeRecord, active, is_in, active_count, Line, parsed, Records, pop_all, prune_history, surplus,
  newer, read_line, read_lines, read_file, refresh, Limits, as_lines, values, sorted_records,
  insert_record, published_field, active_notices,
}
use stpt_query.Notices.Replay.{IsKeyed, Gone-pop, unarchived, surplus_Gone, read_file-IsKeyed}

abbrev pub counted : Option NoticeRecord → ℕ
counted none = 0
counted (some r) = if is_in active r then 1 else 0

pub active_count-put :
    (k : String) (r : NoticeRecord) (d : Records)
    → active_count (Dict.put k r d) + counted (Dict.get k d) ≡ active_count d + counted (some r)
unfolding active_count Dict.put Dict.get Dict.keep
active_count-put k r [] = ground arith
active_count-put k r ((j, q) ∷ d) = ground (arith, active_count-put k r d)

pub active_count-pop :
    (k : String) (d : Records)
    → Distinct d
    → active_count (Dict.pop k d) + counted (Dict.get k d) ≡ active_count d
unfolding active_count Dict.pop Dict.get Dict.keep
active_count-pop k [] h = refl
active_count-pop k ((j, q) ∷ d) h = ground (arith, active_count-pop k d h.1, h.0)

not_counted : (o : Option NoticeRecord) → unarchived o ≡ none → counted o ≡ 0
not_counted none h = refl
not_counted (some r) h = ground arith

pop_all-count :
    (rs : List NoticeRecord) (d : Records)
    → Distinct d
    → All (λ r. unarchived (Dict.get r.id d) ≡ none) rs
    → active_count (pop_all rs d) ≡ active_count d
unfolding pop_all
pop_all-count [] d u h = refl
pop_all-count (r ∷ rs) d u h =
    pop_all-count rs (Dict.pop r.id d) (pop-Distinct r.id d u) (Gone-pop r.id d rs h.1)
    ∙ omega (arith, active_count-pop r.id d u, not_counted (Dict.get r.id d) h.0)

pub prune-count :
    (m : ℕ) (d : Records) → IsKeyed d → active_count (prune_history m d) ≡ active_count d
unfolding prune_history
prune-count m d h = pop_all-count (surplus m d) d h.distinct (surplus_Gone m d h)

pub refresh-count :
    (lim : Limits) (ls : List Line) → active_count (refresh lim ls) ≡ active_count (read_file ls)
unfolding refresh
refresh-count lim ls = prune-count lim.max_history (read_file ls) (read_file-IsKeyed ls)

-- No key of the first table is in the second.
Apart : Records → Records → Type 0
Apart d acc = All (λ e. Dict.get e.0 acc ≡ none) d

put_new :
    (k : String) (r : NoticeRecord) (d : Records)
    → Dict.get k d ≡ none
    → Dict.put k r d ≡ d ++ ((k, r) ∷ [])
unfolding Dict.put Dict.get
put_new k r [] h = refl
put_new k r ((j, q) ∷ d) h = ground (arith, put_new k r d)

get-append : (j : String) (d e : Records) → Dict.get j d ≡ none → Dict.get j (d ++ e) ≡ Dict.get j e
unfolding Dict.get
get-append j [] e h = refl
get-append j ((k, q) ∷ d) e h = ground (arith, get-append j d e)

absent : (k : String) (r : NoticeRecord) (d : Records) → Dict.get k d ≡ none → All (λ e. k ≢ e.0) d
unfolding Dict.get
absent k r [] h = tt
absent k r ((j, q) ∷ d) h = (λ p. ground arith, absent k r d (ground arith))

Apart-append :
    (k : String) (r : NoticeRecord) (d acc : Records)
    → All (λ e. k ≢ e.0) d
    → All (λ e. Dict.get e.0 acc ≡ none) d
    → All (λ e. Dict.get e.0 (acc ++ ((k, r) ∷ [])) ≡ none) d
unfolding Dict.get
Apart-append k r [] acc n h = tt
Apart-append k r ((j, q) ∷ d) acc n h = (
  get-append j acc ((k, r) ∷ []) h.0 ∙ if_neg (String_discrete k j) n.0 _ _,
  Apart-append k r d acc n.1 h.1,
)

read_new :
    (k : String) (r : NoticeRecord) (acc : Records)
    → r.id ≡ k
    → Dict.get k acc ≡ none
    → read_line (parsed r) acc ≡ acc ++ ((k, r) ∷ [])
unfolding read_line
read_new k r acc o a =
    subst (λ i. Dict.get i acc ≡ none → read_line (parsed r) acc ≡ acc ++ ((i, r) ∷ [])) o
      (λ b. rw (b, newer, if◌then◌else◌) (put_new r.id r acc b)) a

read_lines-as_lines :
    (d acc : Records)
    → Distinct d
    → All (λ e. e.1.id ≡ e.0) d
    → All (λ e. Dict.get e.0 acc ≡ none) d
    → read_lines (as_lines d) acc ≡ acc ++ d
unfolding read_lines
read_lines-as_lines [] acc u o a = sym (append_nil acc)
read_lines-as_lines ((k, r) ∷ d) acc u o a =
    let later = acc ++ ((k, r) ∷ []) in
    ap (read_lines (as_lines d)) (read_new k r acc o.0 a.0)
    ∙ read_lines-as_lines d later u.1 o.1 (Apart-append k r d acc (absent k r d u.0) a.1)
    ∙ append_assoc acc ((k, r) ∷ []) d

all_absent : (e : Records) → All (λ x. Dict.get {V = NoticeRecord} x.0 [] ≡ none) e
unfolding Dict.get
all_absent [] = tt
all_absent (x ∷ e) = (refl, all_absent e)

pub read_file-as_lines : (d : Records) → IsKeyed d → read_file (as_lines d) ≡ d
unfolding read_file Dict.get
read_file-as_lines d h = read_lines-as_lines d [] h.distinct h.own (all_absent d)

length-insert :
    (field : NoticeRecord → Option ℕ) (r : NoticeRecord) (xs : List NoticeRecord)
    → length (insert_record field r xs) ≡ suc (length xs)
length-insert field r [] = refl
length-insert field r (x ∷ xs) = ground (arith, length-insert field r xs)

pub length-sorted :
    (field : NoticeRecord → Option ℕ) (xs : List NoticeRecord)
    → length (sorted_records field xs) ≡ length xs
unfolding sorted_records
length-sorted field [] = refl
length-sorted field (x ∷ xs) =
    omega (arith, length-insert field x (sorted_records field xs), length-sorted field xs)

length-values : (d : Records) → length (values d) ≡ length d
length-values [] = refl
length-values ((k, r) ∷ d) = omega (arith, length-values d)

pub length-active_notices :
    (lim : Limits) (ls : List Line) → length (active_notices lim ls) ≡ active_count (refresh lim ls)
unfolding active_notices active_count
length-active_notices lim ls =
    length-sorted published_field (values (Dict.keep (is_in active) (refresh lim ls)))
    ∙ length-values (Dict.keep (is_in active) (refresh lim ls))
