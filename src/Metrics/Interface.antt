-- ===== src/Metrics/Interface.antt =====
-- internal/metrics/metrics.go, `Collector`: the operations that the interface names, what a collector promises, and that
-- the metrics are one.
use chaos_kvs.Base.{ℕ, ◌+◌, ◌≡◌, refl, ℤ, u64}
use chaos_kvs.Metrics.{Float, Metrics, Snapshot, record_success, record_failure, take_snapshot}

unfoldable pub get_total_requests : Metrics → ℕ
get_total_requests m = m.total_requests

unfoldable pub get_success_requests : Metrics → ℕ
get_success_requests m = m.success_requests

unfoldable pub get_failed_requests : Metrics → ℕ
get_failed_requests m = m.failed_requests

module _ (float : Float) where
  -- A snapshot reads the clock.
  pub record Collector (M : Type 0) : Type 0 where
    pub record_success : ℤ → M → M
    pub record_failure : ℤ → M → M
    pub total_requests : M → ℕ
    pub success_requests : M → ℕ
    pub failed_requests : M → ℕ
    pub snapshot : (ℕ → ℕ) → M → Snapshot float

  -- A record moves the total and one of the two counters by one, modulo 2^64, whatever the latency, and a snapshot tells
  -- of the counters.
  pub record IsCollector {M : Type 0} (c : Collector M) : Type 0 where
    pub success_counts :
        (latency : ℤ) (m : M)
        → let m' = c.record_success latency m in
          (c.total_requests m' ≡ u64 (c.total_requests m + 1))
          × (c.success_requests m' ≡ u64 (c.success_requests m + 1))
          × (c.failed_requests m' ≡ c.failed_requests m)
    pub failure_counts :
        (latency : ℤ) (m : M)
        → let m' = c.record_failure latency m in
          (c.total_requests m' ≡ u64 (c.total_requests m + 1))
          × (c.success_requests m' ≡ c.success_requests m)
          × (c.failed_requests m' ≡ u64 (c.failed_requests m + 1))
    pub snapshot_tells :
        (clock : ℕ → ℕ) (m : M)
        → ((c.snapshot clock m).total_requests ≡ c.total_requests m)
          × ((c.snapshot clock m).success_requests ≡ c.success_requests m)
          × ((c.snapshot clock m).failed_requests ≡ c.failed_requests m)

  -- The snapshot of metrics that nobody else uses meanwhile.
  abbrev pub metrics_collector : Collector Metrics
  unfolding record_success record_failure get_total_requests get_success_requests
      get_failed_requests take_snapshot
  metrics_collector = record {
    record_success = record_success;
    record_failure = record_failure;
    total_requests = get_total_requests;
    success_requests = get_success_requests;
    failed_requests = get_failed_requests;
    snapshot = λ clock m. take_snapshot float (λ i. m) clock;
  }

  pub metrics_collector-IsCollector : IsCollector metrics_collector
  unfolding metrics_collector record_success record_failure get_total_requests get_success_requests
      get_failed_requests take_snapshot
  metrics_collector-IsCollector = record {
    success_counts = λ latency m. (refl, refl, refl);
    failure_counts = λ latency m. (refl, refl, refl);
    snapshot_tells = λ clock m. (refl, refl, refl);
  }
