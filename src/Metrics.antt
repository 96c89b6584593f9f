-- ===== src/Metrics.antt =====
-- internal/metrics/metrics.go. The counters are `uint64`s and wrap; a latency is a `time.Duration`; the
-- floating-point results go through an interface. Each recording is one step (its additions commute).
pub mod Records
pub mod Percentile
pub mod Interface
pub mod Bags
pub mod Interleaving
use chaos_kvs.Base.{
  ℕ, ◌+◌, ◌-◌, ◌/◌, ◌%◌, ◌≡◌, Bool, List, [], ◌∷◌, ◌++◌, ℤ, pos, negsuc, pos_part, ltb_ℤ, leb_ℤ,
  time_sub, u64, ltb, leb, nat_eq, length, get_or, if◌then◌else◌,
}

-- `float64`, as far as it is used.
pub record Float : Type 1 where
  pub F : Type 0
  pub zero_float : F
  pub from_uint64 : ℕ → F
  pub seconds : ℤ → F  -- `Duration.Seconds`
  pub is_zero : F → Bool
  pub divide : F → F → F
  pub times : F → F → F
  pub ninety_nine_percent : F
  pub truncate : F → ℕ  -- `int(x)` of an `x` that is not negative
  pub one : F
  pub half : F
  pub three_tenths : F
  pub less : F → F → Bool
  pub from_int64 : ℤ → F
  pub thousand : F

pub record Config : Type 0 where
  pub max_latency_samples : ℤ

unfoldable pub default_config : Config
default_config = record { max_latency_samples = pos 1000 }

pub record Metrics : Type 0 where
  pub total_requests : ℕ
  pub success_requests : ℕ
  pub failed_requests : ℕ
  pub total_latency_ns : ℕ
  pub start_time : ℕ
  pub last_reset_time : ℕ
  pub window_requests : ℕ
  pub latencies : List ℤ
  pub max_latency_samples : ℕ

unfoldable pub new_with_config : ℕ → Config → Metrics
new_with_config now config = record {
  total_requests = 0;
  success_requests = 0;
  failed_requests = 0;
  total_latency_ns = 0;
  start_time = now;
  last_reset_time = now;
  window_requests = 0;
  latencies = [];
  max_latency_samples =
      if ltb_ℤ (pos 0) config.max_latency_samples
      then pos_part config.max_latency_samples
      else 1000;
}

unfoldable pub new : ℕ → Metrics
unfolding new_with_config default_config
new now = new_with_config now default_config

-- `uint64(d)` and `time.Duration(n)`: two's complement.
abbrev pub to_uint64 : ℤ → ℕ
to_uint64 (pos n) = u64 n
to_uint64 (negsuc n) = 18446744073709551615 - u64 n

abbrev pub to_int64 : ℕ → ℤ
to_int64 n = if ltb n 9223372036854775808 then pos n else negsuc (18446744073709551615 - n)

unfoldable pub record_success : ℤ → Metrics → Metrics
record_success latency m = record m {
  total_requests = u64 (m.total_requests + 1);
  success_requests = u64 (m.success_requests + 1);
  total_latency_ns = u64 (m.total_latency_ns + to_uint64 latency);
  window_requests = u64 (m.window_requests + 1);
  latencies =
      if ltb (length m.latencies) m.max_latency_samples
      then m.latencies ++ latency ∷ []
      else m.latencies;
}

unfoldable pub record_failure : ℤ → Metrics → Metrics
record_failure latency m = record m {
  total_requests = u64 (m.total_requests + 1);
  failed_requests = u64 (m.failed_requests + 1);
  total_latency_ns = u64 (m.total_latency_ns + to_uint64 latency);
  window_requests = u64 (m.window_requests + 1);
}

unfoldable pub average_latency : Metrics → ℤ
average_latency m =
    if nat_eq m.total_requests 0 then pos 0 else to_int64 (m.total_latency_ns / m.total_requests)

-- `sort.Slice`: the sorted slice of durations is the same whatever the algorithm.
insert_sorted : ℤ → List ℤ → List ℤ
insert_sorted x [] = x ∷ []
insert_sorted x (y ∷ ys) = if leb_ℤ x y then x ∷ y ∷ ys else y ∷ insert_sorted x ys

pub sort : List ℤ → List ℤ
unfolding insert_sorted
sort [] = []
sort (x ∷ xs) = insert_sorted x (sort xs)

unfoldable pub reset : ℕ → Metrics → Metrics
reset now m = record m { window_requests = 0; last_reset_time = now; latencies = [] }

module _ (float : Float) where
  open float use {
    F, zero_float, from_uint64, seconds, is_zero, divide, times, ninety_nine_percent, truncate,
  }

  unfoldable pub rps : ℕ → Metrics → F
  rps now m =
      let elapsed = seconds (time_sub now m.last_reset_time) in
      if is_zero elapsed then zero_float else divide (from_uint64 m.window_requests) elapsed

  unfoldable pub overall_rps : ℕ → Metrics → F
  overall_rps now m =
      let elapsed = seconds (time_sub now m.start_time) in
      if is_zero elapsed then zero_float else divide (from_uint64 m.total_requests) elapsed

  -- The index of the percentile in `n` sorted samples.
  abbrev pub rank : ℕ → ℕ
  rank n =
      let idx = truncate (times (from_uint64 n) ninety_nine_percent) in
      if leb n idx then n - 1 else idx

  unfoldable pub p99_latency : Metrics → ℤ
  unfolding sort
  p99_latency m =
      if nat_eq (length m.latencies) 0
      then pos 0
      else get_or (sort m.latencies) (rank (length (sort m.latencies))) (pos 0)

  unfoldable pub error_rate : Metrics → F
  error_rate m =
      if nat_eq m.total_requests 0
      then zero_float
      else divide (from_uint64 m.failed_requests) (from_uint64 m.total_requests)

  pub record Snapshot : Type 0 where
    pub total_requests : ℕ
    pub success_requests : ℕ
    pub failed_requests : ℕ
    pub rps : F
    pub overall_rps : F
    pub average_latency : ℤ
    pub p99_latency : ℤ
    pub error_rate : F
    pub elapsed : ℤ

  -- Every part is read as the metrics then are: the reads are not one step.
  unfoldable pub take_snapshot : (ℕ → Metrics) → (ℕ → ℕ) → Snapshot
  take_snapshot at clock = record {
    total_requests = (at 0).total_requests;
    success_requests = (at 1).success_requests;
    failed_requests = (at 2).failed_requests;
    rps = rps (clock 0) (at 3);
    overall_rps = overall_rps (clock 1) (at 4);
    average_latency = average_latency (at 5);
    p99_latency = p99_latency (at 6);
    error_rate = error_rate (at 7);
    elapsed = time_sub (clock 2) (at 8).start_time;
  }
