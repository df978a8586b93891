-- ===== src/Counters/Sums.antt =====
-- What the counters of the endpoints say of the requests that were recorded.
use stpt_query.Common.{
  ℕ, ◌+◌, ◌≤◌, ◌≡◌, ◌∙◌, refl, sym, subst, if_pos, if_neg, String, Bool, true, false, ◌&&◌, Option,
  none, some, List, [], ◌∷◌, length, ite, leb, String_discrete, arith, inl, inr, Option-cases,
  Bool-cases,
}
use mathlib.Core.Option.{some-injective}
use stpt_query.Common.Dict
use stpt_query.Common.Dict.{Dict, get-put, length-put_old, length-put_new}
use stpt_query.Counters.{
  Counter, ServerState, Request, latency_bounds, zeros, fill, new_counter, count, or_new,
  is_refused, record_request, started, record_all,
}

-- A bucket of a longer duration counts no less, and none counts more than the total.
abbrev pub Cumulative : ℕ → List ℕ → Type 0
Cumulative m [] = Unit
Cumulative m (c ∷ []) = c ≤ m
Cumulative m (c ∷ d ∷ cs) = (c ≤ d) × Cumulative m (d ∷ cs)

pub record IsSound (m : Counter) : Type 0 where
  pub halves : m.total ≡ m.ok + m.err
  pub hits : m.cache_hit ≤ m.total
  pub buckets : Cumulative m.total m.latency_buckets
  pub measured : length m.latency_buckets ≡ length latency_bounds

pub record AllSound (s : ServerState) : Type 0 where
  pub sound : (j : String) (m : Counter) → Dict.get j s.metrics ≡ some m → IsSound m
  pub bounded : length s.metrics ≤ 200

-- The bounds are in ascending order.
abbrev Rising : List ℕ → Type 0
Rising [] = Unit
Rising (b ∷ []) = Unit
Rising (b ∷ c ∷ bs) = (b ≤ c) × Rising (c ∷ bs)

fill-Cumulative :
    (d m : ℕ) (bs cs : List ℕ)
    → Rising bs
    → length cs ≡ length bs
    → Cumulative m cs
    → Cumulative (m + 1) (fill d bs cs)
fill-Cumulative d m [] [] r e h = tt
fill-Cumulative d m [] (c ∷ cs) r e h = absurd (omega arith)
fill-Cumulative d m (b ∷ bs) [] r e h = tt
fill-Cumulative d m (b ∷ []) (c ∷ []) r e h = ground arith
fill-Cumulative d m (b ∷ []) (c ∷ c2 ∷ cs) r e h = absurd (omega arith)
fill-Cumulative d m (b ∷ b2 ∷ bs) (c ∷ []) r e h = absurd (omega arith)
fill-Cumulative d m (b ∷ b2 ∷ bs) (c ∷ c2 ∷ cs) r e h =
    (ground (arith, r.0, h.0), fill-Cumulative d m (b2 ∷ bs) (c2 ∷ cs) r.1 (omega arith) h.1)

length-fill : (d : ℕ) (bs cs : List ℕ) → length (fill d bs cs) ≡ length cs
length-fill d [] cs = refl
length-fill d (b ∷ bs) [] = refl
length-fill d (b ∷ bs) (c ∷ cs) = omega (arith, length-fill d bs cs)

zeros-Cumulative : (bs : List ℕ) → Cumulative 0 (zeros bs)
zeros-Cumulative [] = tt
zeros-Cumulative (b ∷ []) = omega arith
zeros-Cumulative (b ∷ c ∷ bs) = (omega arith, zeros-Cumulative (c ∷ bs))

abbrev is_rising : List ℕ → Bool
is_rising [] = true
is_rising (b ∷ []) = true
is_rising (b ∷ c ∷ bs) = leb b c && is_rising (c ∷ bs)

rising : (bs : List ℕ) → is_rising bs ≡ true → Rising bs
rising [] h = tt
rising (b ∷ []) h = tt
rising (b ∷ c ∷ bs) h = (ground arith, rising (c ∷ bs) (ground arith))

new_counter-IsSound : IsSound new_counter
new_counter-IsSound = record {
  halves = refl;
  hits = omega arith;
  buckets = zeros-Cumulative latency_bounds;
  measured = refl;
}

count-IsSound : (q : Request) (m : Counter) → IsSound m → IsSound (count q m)
unfolding count
count-IsSound q m h = record {
  halves = ground (arith, h.halves);
  hits = ground (arith, h.hits);
  buckets =
      fill-Cumulative q.duration_us m.total latency_bounds m.latency_buckets
        (rising latency_bounds refl) h.measured h.buckets;
  measured = length-fill q.duration_us latency_bounds m.latency_buckets ∙ h.measured;
}

or_new-IsSound :
    (o : Option Counter) → ((m : Counter) → o ≡ some m → IsSound m) → IsSound (or_new o)
or_new-IsSound none h = new_counter-IsSound
or_new-IsSound (some m) h = h m refl

-- The counter that a request leaves.
abbrev pub counted : Request → ServerState → Counter
counted q s = count q (or_new (Dict.get q.endpoint s.metrics))

-- The counters after a request that is not refused.
get-record_request :
    (q : Request) (s : ServerState) (j : String)
    → is_refused q.endpoint s ≡ false
    → Dict.get j (record_request q s).metrics
      ≡ ite (String_discrete q.endpoint j) (some (counted q s)) (Dict.get j s.metrics)
unfolding record_request
get-record_request q s j e = rw (e, record_request) (get-put j q.endpoint (counted q s) s.metrics)

length-record_request :
    (q : Request) (s : ServerState)
    → is_refused q.endpoint s ≡ false
    → length s.metrics ≤ 200
    → length (record_request q s).metrics ≤ 200
unfolding record_request
length-record_request q s e h = elim (Option-cases (Dict.get q.endpoint s.metrics)) [
  | inl n ↦ ground (arith, length-put_new q.endpoint (counted q s) s.metrics n)
  | inr (m, f) ↦ ground (arith, length-put_old q.endpoint (counted q s) m s.metrics f)
]

record_request-AllSound :
    (q : Request) (s : ServerState) → AllSound s → AllSound (record_request q s)
unfolding record_request
record_request-AllSound q s h = elim (Bool-cases (is_refused q.endpoint s)) [
  | inl e ↦ rw (e, record_request) h
  | inr e ↦ record {
    sound = λ j m f.
        let fresh : IsSound (counted q s) =
          count-IsSound q (or_new (Dict.get q.endpoint s.metrics))
            (or_new-IsSound (Dict.get q.endpoint s.metrics) (λ n g. h.sound q.endpoint n g)) in
        let there = sym (get-record_request q s j e) ∙ f in
        elim (String_discrete q.endpoint j) [
          | yes p ↦
              subst IsSound
                (some-injective _ _ (sym (if_pos (String_discrete q.endpoint j) p _ _) ∙ there))
                fresh
          | no p ↦ h.sound j m (sym (if_neg (String_discrete q.endpoint j) p _ _) ∙ there)
        ];
    bounded = length-record_request q s e h.bounded;
  }
]

record_all-AllSound :
    (qs : List Request) (s : ServerState) → AllSound s → AllSound (record_all qs s)
unfolding record_all
record_all-AllSound [] s h = h
record_all-AllSound (q ∷ qs) s h =
    record_all-AllSound qs (record_request q s) (record_request-AllSound q s h)

-- From the start of the process, after any requests, there are counters of at most 200
-- endpoints, and for each of them the total is the sum of the successes and the errors, the
-- cache hits are at most the total, there is a bucket for each bound, no bucket of the histogram
-- counts more than a later one, and none more than the total.
pub counters-AllSound : (qs : List Request) → AllSound (record_all qs started)
unfolding Dict.get
counters-AllSound qs =
    record_all-AllSound qs started
      (record { sound = λ j m e. absurd (ground arith); bounded = omega arith })

-- The requests of an endpoint.
abbrev pub requests_of : String → List Request → ℕ
requests_of j [] = 0
requests_of j (q ∷ qs) = ite (String_discrete q.endpoint j) 1 0 + requests_of j qs

abbrev pub total_of : Option Counter → ℕ
total_of none = 0
total_of (some m) = m.total

not_refused :
    (j : String) (s : ServerState) (m : Counter)
    → Dict.get j s.metrics ≡ some m
    → is_refused j s ≡ false
not_refused j s m e = ground arith

step_total :
    (q : Request) (s : ServerState) (j : String) (m : Counter)
    → Dict.get j s.metrics ≡ some m
    → (n : Counter) × (Dict.get j (record_request q s).metrics ≡ some n)
      × (n.total ≡ m.total + ite (String_discrete q.endpoint j) 1 0)
unfolding record_request count
step_total q s j m e = elim (Bool-cases (is_refused q.endpoint s)) [
  | inl r ↦ elim (String_discrete q.endpoint j) [
    | yes p ↦ absurd (ground (arith, not_refused j s m e))
    | no p ↦ (m, ground arith, ground arith)
  ]
  | inr r ↦ elim (String_discrete q.endpoint j) [
    | yes p ↦ (counted q s, ground (arith, get-record_request q s j r), ground arith)
    | no p ↦ (m, ground (arith, get-record_request q s j r), ground arith)
  ]
]

-- Once an endpoint has a counter, every further request of it is counted: after any requests its
-- total has grown by exactly the number of them that are of this endpoint.
pub total_lem :
    (qs : List Request) (s : ServerState) (j : String) (m : Counter)
    → Dict.get j s.metrics ≡ some m
    → total_of (Dict.get j (record_all qs s).metrics) ≡ m.total + requests_of j qs
unfolding record_all
total_lem [] s j m e = ground arith
total_lem (q ∷ qs) s j m e =
    let t = step_total q s j m e in
    total_lem qs (record_request q s) j t.0 t.1 ∙ ground (arith, t.2)
