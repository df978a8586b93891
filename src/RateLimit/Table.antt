-- ===== src/RateLimit/Table.antt =====
-- The table of buckets is bounded, and a sweep is invisible to the requests that follow.
use stpt_query.Common.{
  ℕ, suc, ◌+◌, ◌-◌, ◌*◌, ◌≤◌, ◌<◌, min, String, Bool, ◌≡◌, Option, none, some, List, [], ◌∷◌, arith,
  length, ltb, leb, ◌==◌, Bool-cases, inl, inr, Option-cases, ◌∙◌, ap, sym,
}
use stpt_query.Clock.{second, or_clock}
use stpt_query.Common.Dict
use stpt_query.Common.Dict.{
  Dict, Distinct, get-put, get-pop, get-keep, put-Distinct, pop-Distinct, keep-Distinct, length-pop,
  length-put-le, length-put_new, length-keep-le, length-pop-le, length-keep-not,
}
use stpt_query.RateLimit
use stpt_query.RateLimit.{token, Bucket, RateLimiter, full, refill, spend, pop_first, admit}
use stpt_query.RateLimit.Level.{Holds, level-refill, refill-Holds, spend-Holds, full-Holds}

pub record IsBounded (l : RateLimiter) : Type 0 where
  pub distinct : Distinct l.buckets
  pub bounded : length l.buckets ≤ l.max_buckets
  pub room : 1 ≤ l.max_buckets

pop_first-Distinct : (d : Dict Bucket) → Distinct d → Distinct (pop_first d)
unfolding pop_first
pop_first-Distinct [] h = h
pop_first-Distinct ((k, b) ∷ d) h = pop-Distinct k ((k, b) ∷ d) h

length-pop_first :
    (d : Dict Bucket) → Distinct d → 0 < length d → suc (length (pop_first d)) ≡ length d
unfolding pop_first Dict.get
length-pop_first [] h lt = elim lt [ ]
length-pop_first ((k, b) ∷ d) h lt = length-pop k b ((k, b) ∷ d) h (ground arith)

admit-IsBounded :
    (key : String) (b : Bucket) (l : RateLimiter) → IsBounded l → IsBounded (admit key b l)
unfolding admit
admit-IsBounded key b l h =
    let d = Dict.put key b l.buckets in
    let once = put-Distinct key b l.buckets h.distinct in
    record {
      distinct = ground (arith, once, pop_first-Distinct d once);
      bounded = ground (arith, h.bounded, length-put-le key b l.buckets, length-pop_first d once);
      room = h.room;
    }

renew-IsBounded :
    (key : String) (old b : Bucket) (l : RateLimiter)
    → IsBounded l
    → Dict.get key l.buckets ≡ some old
    → IsBounded (record l { buckets = Dict.put key b (Dict.pop key l.buckets) })
renew-IsBounded key old b l h e =
    let d = Dict.pop key l.buckets in
    record {
      distinct = put-Distinct key b d (pop-Distinct key l.buckets h.distinct);
      bounded =
          omega
            (arith, h.bounded, length-put-le key b d, length-pop key old l.buckets h.distinct e);
      room = h.room;
    }

pub data Call : Type 0 where
  allow : String → ℕ → Call
  sweep : Option ℕ → ℕ → Call
  prune : ℕ → ℕ → Call

-- The limiter after a call.
unfoldable pub after : RateLimiter → Call → RateLimiter
after l (Call.allow key now) = (RateLimit.allow key now l).0
after l (Call.sweep now clock) = (RateLimit.sweep now clock l).0
after l (Call.prune now clock) = RateLimit.prune now clock l

unfoldable pub run : RateLimiter → List Call → RateLimiter
run l [] = l
run l (c ∷ cs) = run (after l c) cs

allow-IsBounded :
    (key : String) (now : ℕ) (l : RateLimiter)
    → IsBounded l
    → IsBounded (RateLimit.allow key now l).0
unfolding RateLimit.allow
allow-IsBounded key now l h = elim (Bool-cases (l.limit == 0)) [
  | inl off ↦ rw (off, RateLimit.allow) h
  | inr on ↦ elim (Option-cases (Dict.get key l.buckets)) [
    | inl e ↦ rw (on, RateLimit.allow, e) (admit-IsBounded key (spend (full l.limit now)).0 l h)
    | inr (b, e) ↦
        rw (on, RateLimit.allow, e) (renew-IsBounded key b (spend (refill l.limit now b)).0 l h e)
  ]
]

sweep-IsBounded :
    (now : Option ℕ) (clock : ℕ) (l : RateLimiter)
    → IsBounded l
    → IsBounded (RateLimit.sweep now clock l).0
unfolding RateLimit.sweep
sweep-IsBounded now clock l h =
    let fresh : Bucket → Bool = λ b. leb (or_clock now clock) (b.last + 120 * second) in
    record {
      distinct = ground (arith, h.distinct, keep-Distinct fresh l.buckets h.distinct);
      bounded = ground (arith, h.bounded, length-keep-le fresh l.buckets);
      room = ground (arith, h.room);
    }

after-IsBounded : (l : RateLimiter) (c : Call) → IsBounded l → IsBounded (after l c)
unfolding after RateLimit.prune
after-IsBounded l (Call.allow key now) h = allow-IsBounded key now l h
after-IsBounded l (Call.sweep now clock) h = sweep-IsBounded now clock l h
after-IsBounded l (Call.prune now clock) h =
    elim (Bool-cases (ltb l.max_buckets (length l.buckets))) [
      | inl e ↦ rw (e, RateLimit.prune) (sweep-IsBounded (some now) clock l h)
      | inr e ↦ rw (e, RateLimit.prune) h
    ]

run-IsBounded : (l : RateLimiter) (cs : List Call) → IsBounded l → IsBounded (run l cs)
unfolding run
run-IsBounded l [] h = h
run-IsBounded l (c ∷ cs) h = run-IsBounded (after l c) cs (after-IsBounded l c h)

-- From a new limiter, after any calls, there are at most `max_buckets` buckets and at most one
-- for each key.
pub buckets-IsBounded :
    (limit max_buckets : ℕ) (cs : List Call) → IsBounded (run (RateLimit.init limit max_buckets) cs)
unfolding RateLimit.init
buckets-IsBounded limit max_buckets cs =
    run-IsBounded (RateLimit.init limit max_buckets) cs
      (record { distinct = tt; bounded = omega arith; room = omega arith })

-- Whether a request passes depends on the bucket of its key alone.
allow-ok :
    (key : String) (t : ℕ) (l : RateLimiter)
    → 0 < l.limit
    → (RateLimit.allow key t l).1 ≡ elim (Dict.get key l.buckets) [
      | none ↦ (spend (full l.limit t)).1
      | some b ↦ (spend (refill l.limit t b)).1
    ]
unfolding RateLimit.allow
allow-ok key t l on = ground arith

times_sum : (d a x rate : ℕ) → d ≡ a + x → d * rate ≡ a * rate + x * rate
times_sum d a x rate e = rw e (omega arith)

-- A minute at the rate fills a bucket.
over_full : (limit n d : ℕ) → token ≤ d → min (limit * token) (n + d * limit) ≡ limit * token
over_full limit n d h =
    let x = d - token in
    let e : d ≡ token + x = omega arith in omega (arith, times_sum d token x limit e)

-- A bucket that was idle for two minutes is full, as a new one would be.
idle_full :
    (limit t : ℕ) (b : Bucket) (n : ℕ)
    → Holds limit b n
    → b.last + 120 * second < t
    → (spend (refill limit t b)).1 ≡ (spend (full limit t)).1
idle_full limit t b n h idle =
    let full_level : level-refill limit t b n ≡ limit * token =
      over_full limit n (t - b.last) (omega arith) in
    (spend-Holds limit (refill limit t b) (level-refill limit t b n)
      (refill-Holds limit t b n h (omega arith))).0
    ∙ ap (leb token) full_level
    ∙ sym (spend-Holds limit (full limit t) (limit * token) (full-Holds limit t)).0

-- In a limiter without duplicate keys in which the bucket of the key holds a level from zero to
-- the limit, a request of the key at a time not before the sweep is let through exactly if it
-- would be without the sweep.
pub allow-sweep_same :
    (key : String) (now : Option ℕ) (clock t : ℕ) (l : RateLimiter)
    → Distinct l.buckets
    → ((b : Bucket) → Dict.get key l.buckets ≡ some b → (n : ℕ) × Holds l.limit b n)
    → or_clock now clock ≤ t
    → (RateLimit.allow key t (RateLimit.sweep now clock l).0).1 ≡ (RateLimit.allow key t l).1
unfolding RateLimit.sweep
allow-sweep_same key now clock t l once sound le = elim (Bool-cases (l.limit == 0)) [
  | inl off ↦ rw off
  | inr on ↦
      let fresh : Bucket → Bool = λ b. leb (or_clock now clock) (b.last + 120 * second) in
      let swept : RateLimiter = record l { buckets = Dict.keep fresh l.buckets } in
      let kept = get-keep key fresh l.buckets once in
      rw (on, allow-ok key t l (ground arith), allow-ok key t swept (ground arith), kept)
        (elim (Option-cases (Dict.get key l.buckets)) [
          | inl e ↦ ground arith
          | inr (b, e) ↦ let (n, h) = sound b e in ground (arith, idle_full l.limit t b n h)
        ])
]
