-- ===== src/RateLimit/Rate.antt =====
-- How many requests of one key are let through in a stretch of time.
use stpt_query.Common.{
  ℕ, ◌+◌, ◌-◌, ◌*◌, ◌≤◌, ◌<◌, String, ◌≡◌, ◌≢◌, refl, Option, none, some, List, [], ◌∷◌, ite, arith,
  length, leb, if◌then◌else◌, inl, inr, String_discrete, Option-cases, ◌∙◌, subst, ap, sym, if_pos,
  if_neg,
}
use stpt_query.Common.Dict
use stpt_query.Common.Dict.{Dict, get-put, get-pop, length-put_new}
use stpt_query.RateLimit.{token, Bucket, RateLimiter, full, refill, spend, admit, allow, init}
use stpt_query.RateLimit.Level.{Holds, level-refill, refill-Holds, spend-Holds, full-Holds}

-- The units that a request of the key would find at time `t`: a full bucket for a key with none.
pub data Level (limit t : ℕ) : Option Bucket → ℕ → Type 0 where
  fresh : Level limit t none (limit * token)
  kept :
      (b : Bucket) (n : ℕ)
      → Holds limit b n
      → b.last ≤ t
      → Level limit t (some b) (level-refill limit t b n)

abbrev spent : ℕ → ℕ
spent p = if leb token p then p - token else p

-- A bucket at its own time holds what it holds.
kept_now :
    (limit t : ℕ) (b : Bucket) (n : ℕ) → Holds limit b n → b.last ≡ t → Level limit t (some b) n
kept_now limit t b n h e =
    let same : level-refill limit t b n ≡ n = grind (arith, h.capped, e) in
    subst (Level limit t (some b)) same (kept b n h (omega arith))

module _ (key : String) (t : ℕ) (l : RateLimiter) (on : 0 < l.limit) where
  allow_new :
      Dict.get key l.buckets ≡ none
      → length l.buckets < l.max_buckets
      → allow key t l ≡ (
        record l { buckets = Dict.put key (spend (full l.limit t)).0 l.buckets },
        (spend (full l.limit t)).1,
      )
  unfolding allow admit
  allow_new e room = ground (arith, length-put_new key (spend (full l.limit t)).0 l.buckets e)

  allow_old :
      (b : Bucket)
      → Dict.get key l.buckets ≡ some b
      → allow key t l ≡ (
        record l { buckets = Dict.put key (spend (refill l.limit t b)).0 (Dict.pop key l.buckets) },
        (spend (refill l.limit t b)).1,
      )
  unfolding allow
  allow_old b e = ground arith

  -- A bucket that holds `p` units at time `t` passes with a whole token, and keeps the rest.
  spend-Level :
      (b : Bucket) (p : ℕ) (d : Dict Bucket)
      → Holds l.limit b p
      → b.last ≡ t
      → ((spend b).1 ≡ leb token p)
        × Level l.limit t (Dict.get key (Dict.put key (spend b).0 d)) (spent p)
  spend-Level b p d h e =
      let (passed, rest, last) = spend-Holds l.limit b p h in
      let there : Dict.get key (Dict.put key (spend b).0 d) ≡ some (spend b).0 =
        ground (arith, get-put key key (spend b).0 d) in
      (passed, rw there (kept_now l.limit t (spend b).0 (spent p) rest (last ∙ e)))

  -- A request of the key finds the level `p`: it passes with a whole token, which it takes.
  allow-Level :
      (o : Option Bucket) (p : ℕ)
      → Dict.get key l.buckets ≡ o
      → (o ≡ none → length l.buckets < l.max_buckets)
      → Level l.limit t o p
      → ((allow key t l).1 ≡ leb token p)
        × Level l.limit t (Dict.get key (allow key t l).0.buckets) (spent p)
  allow-Level none p e room fresh = rw (allow_new e (room refl)) (
      spend-Level (full l.limit t) (l.limit * token) l.buckets (full-Holds l.limit t)
        (unfold full in refl))
  allow-Level (some b) p e room (kept _ n h le) = rw (allow_old b e) (
      spend-Level (refill l.limit t b) (level-refill l.limit t b n) (Dict.pop key l.buckets)
        (refill-Holds l.limit t b n h le) (unfold refill in refl))

  -- A request of another key leaves the bucket alone.
  get-allow_ne :
      (j : String)
      → j ≢ key
      → (Dict.get key l.buckets ≡ none → length l.buckets < l.max_buckets)
      → Dict.get j (allow key t l).0.buckets ≡ Dict.get j l.buckets
  get-allow_ne j ne room = elim (Option-cases (Dict.get key l.buckets)) [
    | inl e ↦
        rw (allow_new e (room e))
          (ground (arith, get-put j key (spend (full l.limit t)).0 l.buckets))
    | inr (b, e) ↦
        let d = Dict.pop key l.buckets in
        rw (allow_old b e)
          (ground (arith, get-put j key (spend (refill l.limit t b)).0 d, get-pop j key l.buckets))
  ]

  limit-allow : (allow key t l).0.limit ≡ l.limit
  unfolding allow admit
  limit-allow = ground arith

-- Requests in order of time: the key and the reading of the clock.
abbrev pub Requests : Type 0
Requests = List (String × ℕ)

-- The number of requests of the key that are let through.
unfoldable pub granted : String → Requests → RateLimiter → ℕ
granted key [] l = 0
granted key ((k, t) ∷ cs) l =
    let (l', ok) = allow k t l in
    (ite (String_discrete k key) (if ok then 1 else 0) 0) + granted key cs l'

-- The clock does not run back.
abbrev pub Ordered : ℕ → Requests → Type 0
Ordered t0 [] = Unit
Ordered t0 ((k, t) ∷ cs) = (t0 ≤ t) × Ordered t cs

-- No bucket is evicted: a new key finds room.
unfoldable pub Roomy : Requests → RateLimiter → Type 0
Roomy [] l = Unit
Roomy ((k, t) ∷ cs) l =
    (Dict.get k l.buckets ≡ none → length l.buckets < l.max_buckets) × Roomy cs (allow k t l).0

-- The time of the last request.
abbrev pub end_of : ℕ → Requests → ℕ
end_of t0 [] = t0
end_of t0 ((k, t) ∷ cs) = end_of t cs

end_of-le : (t0 : ℕ) (cs : Requests) → Ordered t0 cs → t0 ≤ end_of t0 cs
end_of-le t0 [] h = omega arith
end_of-le t0 ((k, t) ∷ cs) h = omega (arith, h.0, end_of-le t cs h.1)

-- A span of time is the sum of its two parts, at any rate.
span_split : (a b c rate : ℕ) → a ≤ b → b ≤ c → (c - a) * rate ≡ (b - a) * rate + (c - b) * rate
span_split a b c rate h k = let e : c - a ≡ (b - a) + (c - b) = omega arith in rw e (omega arith)

-- While no request comes, the level rises by at most the rate.
Level-later :
    (limit t0 t : ℕ) (o : Option Bucket) (p : ℕ)
    → t0 ≤ t
    → Level limit t0 o p
    → (q : ℕ) × Level limit t o q × (q ≤ p + (t - t0) * limit)
Level-later limit t0 t none p le fresh = (limit * token, fresh, omega arith)
Level-later limit t0 t (some b) p le (kept _ n h early) = (
  level-refill limit t b n,
  kept b n h (omega arith),
  omega (arith, span_split b.last t0 t limit early le),
)

spent_lem : (q : ℕ) → spent q + (if leb token q then 1 else 0) * token ≤ q
spent_lem q = ground arith

same_span :
    (l' l : RateLimiter) (cs : Requests) (t : ℕ)
    → l'.limit ≡ l.limit
    → (end_of t cs - t) * l'.limit ≡ (end_of t cs - t) * l.limit
same_span l' l cs t e = ap (λ (x : ℕ). (end_of t cs - t) * x) e

module _ (key : String) where
  rate_from :
      (cs : Requests) (t0 p : ℕ) (l : RateLimiter)
      → 0 < l.limit
      → Level l.limit t0 (Dict.get key l.buckets) p
      → Ordered t0 cs
      → Roomy cs l
      → granted key cs l * token ≤ p + (end_of t0 cs - t0) * l.limit
  unfolding granted Roomy
  rate_from [] t0 p l on v ord room = omega arith
  rate_from ((k, t) ∷ cs) t0 p l on v ord room =
      let l' = (allow k t l).0 in
      let same : l'.limit ≡ l.limit = limit-allow k t l on in
      let (q, w, rise) = Level-later l.limit t0 t (Dict.get key l.buckets) p ord.0 v in
      let whole = span_split t0 t (end_of t cs) l.limit ord.0 (end_of-le t cs ord.1) in
      elim (String_discrete k key) [
        | yes e ↦
            let (ok, rest) = allow-Level k t l on (Dict.get k l.buckets) q refl room.0 (rw e w) in
            let ih = rate_from cs t (spent q) l' (rw same on) (rw (same, ← e) rest) ord.1 room.1 in
            rw (if_pos _ e, ok)
              (omega (arith, ih, same_span l' l cs t same, rise, whole, spent_lem q))
        | no e ↦
            let there : Level l.limit t (Dict.get key l'.buckets) q =
              rw (get-allow_ne k t l on key (λ p. e (sym p)) room.0) w in
            let ih = rate_from cs t q l' (rw same on) (rw same there) ord.1 room.1 in
            rw (if_neg _ e) (omega (arith, ih, same_span l' l cs t same, rise, whole))
      ]

-- From a new limiter with a limit that is not zero, for requests whose times do not run back and
-- while no bucket is evicted, the requests of a key that are let through up to the last time are
-- at most the limit and what a rate of `limit` a minute adds since the first time.
pub rate_bound :
    (limit max_buckets t0 : ℕ) (key : String) (cs : Requests)
    → 0 < limit
    → Ordered t0 cs
    → Roomy cs (init limit max_buckets)
    → granted key cs (init limit max_buckets) * token ≤ limit * (token + (end_of t0 cs - t0))
unfolding init Dict.get
rate_bound limit max_buckets t0 key cs on ord room =
    omega (arith, rate_from key cs t0 (limit * token) (init limit max_buckets) on fresh ord room)
