-- ===== src/Counters.antt =====
-- `ServerState.record` of app/jwxt_state.py: the counters of the endpoints. A duration is a number
-- of microseconds; the rounded duration and the reading of the clock are arguments.
pub mod Sums
mod Tests
use stpt_query.Common.{
  ℕ, zero, ◌+◌, String, Bool, true, false, ◌&&◌, Option, none, some, List, [], ◌∷◌, length, leb,
  if◌then◌else◌,
}
use stpt_query.Common.Dict
use stpt_query.Common.Dict.{Dict}

pub record Counter : Type 0 where
  pub total : ℕ
  pub ok : ℕ
  pub err : ℕ
  pub latency_sum : ℕ
  pub cache_hit : ℕ
  pub latency_buckets : List ℕ

pub record LastReal : Type 0 where
  pub at : ℕ
  pub status : ℕ
  pub passed : Bool
  pub duration : ℕ
  pub from_cache : Bool

pub record ServerState : Type 0 where
  pub metrics : Dict Counter
  pub last_reals : Dict LastReal

-- One request, as the arguments of `record` and what it reads.
pub record Request : Type 0 where
  pub endpoint : String
  pub is_ok : Bool
  pub duration_us : ℕ
  pub rounded : ℕ
  pub hit : Bool
  pub status_code : ℕ
  pub now : ℕ

-- `LATENCY_BUCKETS_MS`, in microseconds
abbrev pub latency_bounds : List ℕ
latency_bounds =
    5000 ∷ 10_000 ∷ 25_000 ∷ 50_000 ∷ 100_000 ∷ 250_000 ∷ 500_000 ∷ 1_000_000 ∷ 2_500_000
    ∷ 5_000_000 ∷ 10_000_000 ∷ []

abbrev pub zeros : List ℕ → List ℕ
zeros [] = []
zeros (b ∷ bs) = 0 ∷ zeros bs

-- The buckets of the duration: each whose bound it does not exceed.
abbrev pub fill : ℕ → List ℕ → List ℕ → List ℕ
fill d [] cs = cs
fill d (b ∷ bs) [] = []
fill d (b ∷ bs) (c ∷ cs) = (if leb d b then c + 1 else c) ∷ fill d bs cs

abbrev pub new_counter : Counter
new_counter = record {
  total = 0;
  ok = 0;
  err = 0;
  latency_sum = 0;
  cache_hit = 0;
  latency_buckets = zeros latency_bounds;
}

unfoldable pub count : Request → Counter → Counter
count q m = record {
  total = m.total + 1;
  ok = if q.is_ok then m.ok + 1 else m.ok;
  err = if q.is_ok then m.err else m.err + 1;
  latency_sum = m.latency_sum + q.duration_us;
  cache_hit = if q.hit then m.cache_hit + 1 else m.cache_hit;
  latency_buckets = fill q.duration_us latency_bounds m.latency_buckets;
}

abbrev pub or_new : Option Counter → Counter
or_new none = new_counter
or_new (some m) = m

abbrev pub is_some : Option Counter → Bool
is_some none = false
is_some (some m) = true

-- `endpoint not in self.metrics and len(self.metrics) >= 200`
abbrev pub is_refused : String → ServerState → Bool
is_refused endpoint s =
    if is_some (Dict.get endpoint s.metrics) then false else leb 200 (length s.metrics)

unfoldable pub record_request : Request → ServerState → ServerState
record_request q s = if is_refused q.endpoint s then s else record {
  metrics = Dict.put q.endpoint (count q (or_new (Dict.get q.endpoint s.metrics))) s.metrics;
  last_reals =
      Dict.put q.endpoint
        (record {
          at = q.now;
          status = q.status_code;
          passed = q.is_ok;
          duration = q.rounded;
          from_cache = q.hit;
        })
        s.last_reals;
}

abbrev pub started : ServerState
started = record { metrics = []; last_reals = [] }

unfoldable pub record_all : List Request → ServerState → ServerState
record_all [] s = s
record_all (q ∷ qs) s = record_all qs (record_request q s)
