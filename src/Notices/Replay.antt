-- ===== src/Notices/Replay.antt =====
-- What reading the file gives back, and what the pruning of the history leaves alone.
use stpt_query.Common.{
  ℕ, zero, suc, ◌≡◌, ◌∙◌, refl, String, Bool, true, Option, none, some, List, [], ◌∷◌, ◌++◌, All,
  if◌then◌else◌, arith,
}
use stpt_query.Common.Dict
use stpt_query.Common.Dict.{
  Dict, Distinct, get-put, get-pop, get-keep, put-Distinct, pop-Distinct, All-found,
}
use stpt_query.Notices.{
  NoticeRecord, archived, is_in, Line, parsed, broken, Records, values, sorted_records,
  insert_record, drop_first, pop_all, archived_field, surplus, prune_history, newer, read_line,
  read_lines, read_file, refresh, Limits,
}

-- Every record stands under its own identifier, once.
pub record IsKeyed (d : Records) : Type 0 where
  pub distinct : Distinct d
  pub own : All (λ e. e.1.id ≡ e.0) d

put-own :
    (r : NoticeRecord) (d : Records)
    → All (λ e. e.1.id ≡ e.0) d
    → All (λ e. e.1.id ≡ e.0) (Dict.put r.id r d)
unfolding Dict.put
put-own r [] h = (refl, tt)
put-own r ((k, q) ∷ d) h = ground (arith, put-own r d h.1)

pub put-IsKeyed : (r : NoticeRecord) (d : Records) → IsKeyed d → IsKeyed (Dict.put r.id r d)
put-IsKeyed r d h = record { distinct = put-Distinct r.id r d h.distinct; own = put-own r d h.own }

pop-own :
    (k : String) (d : Records) → All (λ e. e.1.id ≡ e.0) d → All (λ e. e.1.id ≡ e.0) (Dict.pop k d)
unfolding Dict.pop
pop-own k [] h = tt
pop-own k ((j, q) ∷ d) h = ground (arith, pop-own k d h.1)

pub pop-IsKeyed : (k : String) (d : Records) → IsKeyed d → IsKeyed (Dict.pop k d)
pop-IsKeyed k d h = record { distinct = pop-Distinct k d h.distinct; own = pop-own k d h.own }

pub pop_all-IsKeyed : (rs : List NoticeRecord) (d : Records) → IsKeyed d → IsKeyed (pop_all rs d)
unfolding pop_all
pop_all-IsKeyed [] d h = h
pop_all-IsKeyed (r ∷ rs) d h = pop_all-IsKeyed rs (Dict.pop r.id d) (pop-IsKeyed r.id d h)

pub prune-IsKeyed : (m : ℕ) (d : Records) → IsKeyed d → IsKeyed (prune_history m d)
unfolding prune_history
prune-IsKeyed m d h = pop_all-IsKeyed (surplus m d) d h

read_line-IsKeyed : (l : Line) (d : Records) → IsKeyed d → IsKeyed (read_line l d)
unfolding read_line
read_line-IsKeyed broken d h = h
read_line-IsKeyed (parsed r) d h = ground (arith, put-IsKeyed r d h)

read_lines-IsKeyed : (ls : List Line) (d : Records) → IsKeyed d → IsKeyed (read_lines ls d)
unfolding read_lines
read_lines-IsKeyed [] d h = h
read_lines-IsKeyed (l ∷ ls) d h = read_lines-IsKeyed ls (read_line l d) (read_line-IsKeyed l d h)

pub read_file-IsKeyed : (ls : List Line) → IsKeyed (read_file ls)
unfolding read_file
read_file-IsKeyed ls = read_lines-IsKeyed ls [] (record { distinct = tt; own = tt })

pub refresh-IsKeyed : (lim : Limits) (ls : List Line) → IsKeyed (refresh lim ls)
unfolding refresh
refresh-IsKeyed lim ls = prune-IsKeyed lim.max_history (read_file ls) (read_file-IsKeyed ls)

-- The record of a key, where it is not archived.
abbrev pub unarchived : Option NoticeRecord → Option NoticeRecord
unarchived none = none
unarchived (some r) = if is_in archived r then none else some r

-- No record of the list is found under its identifier but as an archived one.
Gone : Records → List NoticeRecord → Type 0
Gone d rs = All (λ r. unarchived (Dict.get r.id d) ≡ none) rs

pub Gone-pop :
    (k : String) (d : Records) (rs : List NoticeRecord)
    → All (λ r. unarchived (Dict.get r.id d) ≡ none) rs
    → All (λ r. unarchived (Dict.get r.id (Dict.pop k d)) ≡ none) rs
Gone-pop k d [] h = tt
Gone-pop k d (r ∷ rs) h = (ground (arith, get-pop r.id k d, h.0), Gone-pop k d rs h.1)

pub unarchived-pop_all :
    (j : String) (rs : List NoticeRecord) (d : Records)
    → All (λ r. unarchived (Dict.get r.id d) ≡ none) rs
    → unarchived (Dict.get j (pop_all rs d)) ≡ unarchived (Dict.get j d)
unfolding pop_all
unarchived-pop_all j [] d h = refl
unarchived-pop_all j (r ∷ rs) d h =
    unarchived-pop_all j rs (Dict.pop r.id d) (Gone-pop r.id d rs h.1) ∙ popped
  where
    popped : unarchived (Dict.get j (Dict.pop r.id d)) ≡ unarchived (Dict.get j d)
    popped = ground (arith, get-pop j r.id d, h.0)

module _ (P : NoticeRecord → Type 0) where
  insert-All :
      (field : NoticeRecord → Option ℕ) (r : NoticeRecord) (xs : List NoticeRecord)
      → P r
      → All P xs
      → All P (insert_record field r xs)
  insert-All field r [] h k = (h, tt)
  insert-All field r (x ∷ xs) h k = ground (arith, insert-All field r xs h k.1)

  sorted-All :
      (field : NoticeRecord → Option ℕ) (xs : List NoticeRecord)
      → All P xs
      → All P (sorted_records field xs)
  unfolding sorted_records
  sorted-All field [] h = tt
  sorted-All field (x ∷ xs) h =
      insert-All field x (sorted_records field xs) h.0 (sorted-All field xs h.1)

  drop_first-All : (n : ℕ) (xs : List NoticeRecord) → All P xs → All P (drop_first n xs)
  drop_first-All zero xs h = h
  drop_first-All (suc n) [] h = tt
  drop_first-All (suc n) (x ∷ xs) h = drop_first-All n xs h.1

  keep-All :
      (p : NoticeRecord → Bool) (d : Records)
      → All (λ e. p e.1 ≡ true → P e.1) d
      → All P (values (Dict.keep p d))
  unfolding Dict.keep
  keep-All p [] h = tt
  keep-All p ((k, r) ∷ d) h = ground (arith, keep-All p d h.1, h.0)

archived_here :
    (d e : Records)
    → All (λ x. Dict.get x.0 d ≡ some x.1) e
    → All (λ x. x.1.id ≡ x.0) e
    → All (λ x. is_in archived x.1 ≡ true → unarchived (Dict.get x.1.id d) ≡ none) e
archived_here d [] h k = tt
archived_here d ((i, r) ∷ e) h k = (λ a. rw (k.0, h.0, a) refl, archived_here d e h.1 k.1)

surplus-Gone :
    (m : ℕ) (d : Records) → IsKeyed d → All (λ r. unarchived (Dict.get r.id d) ≡ none) (surplus m d)
unfolding surplus
surplus-Gone m d h =
    drop_first-All (λ r. unarchived (Dict.get r.id d) ≡ none) m
      (sorted_records archived_field (values (Dict.keep (is_in archived) d)))
      (sorted-All (λ r. unarchived (Dict.get r.id d) ≡ none) archived_field
        (values (Dict.keep (is_in archived) d))
        (keep-All (λ r. unarchived (Dict.get r.id d) ≡ none) (is_in archived) d
          (archived_here d d (All-found d h.distinct) h.own)))

-- The pruning concerns archived records alone.
pub prune_unarchived :
    (m : ℕ) (j : String) (d : Records)
    → IsKeyed d
    → unarchived (Dict.get j (prune_history m d)) ≡ unarchived (Dict.get j d)
unfolding prune_history
prune_unarchived m j d h = unarchived-pop_all j (surplus m d) d (surplus-Gone m d h)

pub surplus_Gone :
    (m : ℕ) (d : Records) → IsKeyed d → All (λ r. unarchived (Dict.get r.id d) ≡ none) (surplus m d)
surplus_Gone m d h = surplus-Gone m d h

-- A record that a pruned table holds is in the table.
pop_all-some :
    (j : String) (rs : List NoticeRecord) (d : Records) (r : NoticeRecord)
    → Dict.get j (pop_all rs d) ≡ some r
    → Dict.get j d ≡ some r
unfolding pop_all
pop_all-some j [] d r e = e
pop_all-some j (q ∷ rs) d r e =
    ground (arith, pop_all-some j rs (Dict.pop q.id d) r e, get-pop j q.id d)

pub refresh-some :
    (lim : Limits) (j : String) (ls : List Line) (r : NoticeRecord)
    → Dict.get j (refresh lim ls) ≡ some r
    → Dict.get j (read_file ls) ≡ some r
unfolding refresh prune_history
refresh-some lim j ls r e =
    pop_all-some j (surplus lim.max_history (read_file ls)) (read_file ls) r e

read_lines-append :
    (ls ms : List Line) (d : Records) → read_lines (ls ++ ms) d ≡ read_lines ms (read_lines ls d)
unfolding read_lines
read_lines-append [] ms d = refl
read_lines-append (l ∷ ls) ms d = read_lines-append ls ms (read_line l d)

-- A line whose revision is greater than the one read so far counts.
pub read_file-append :
    (ls : List Line) (r : NoticeRecord)
    → newer r.revision (Dict.get r.id (read_file ls)) ≡ true
    → read_file (ls ++ (parsed r ∷ [])) ≡ Dict.put r.id r (read_file ls)
unfolding read_file read_lines read_line
read_file-append ls r h = read_lines-append ls (parsed r ∷ []) [] ∙ last
  where
    last : read_lines (parsed r ∷ []) (read_lines ls []) ≡ Dict.put r.id r (read_lines ls [])
    last = rw (h, if◌then◌else◌) refl

own_id :
    (k : String) (d : Records) (r : NoticeRecord)
    → All (λ e. e.1.id ≡ e.0) d
    → Dict.get k d ≡ some r
    → r.id ≡ k
unfolding Dict.get
own_id k [] r h e = absurd (ground arith)
own_id k ((j, q) ∷ d) r h e = ground (arith, own_id k d r h.1)

-- A record that is found has the identifier it is found under.
pub found_id :
    (k : String) (d : Records) (r : NoticeRecord) → IsKeyed d → Dict.get k d ≡ some r → r.id ≡ k
found_id k d r h e = own_id k d r h.own e
