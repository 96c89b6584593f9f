-- ===== src/Scenario/Engine/Results.antt =====
-- internal/scenario/scenario.go, `collectResults`: what a run has come to.
use chaos_kvs.Client.{get_metrics}
use chaos_kvs.Base.{Option, ℕ, none, some, List, String, String_eq, ℤ, map, time_sub}
use chaos_kvs.Base.Order.{Order}
use chaos_kvs.Heap.{Heap}
use chaos_kvs.Node.{status_string}
use chaos_kvs.Cluster.{Cluster, nodes}
use chaos_kvs.Metrics.{Float, take_snapshot}
use chaos_kvs.Metrics
use chaos_kvs.Scenario.Engine.{Engine}

module _ (float : Float) where
  open float use {F}

  pub record Result : Type 0 where
    pub scenario_name : String
    pub start_time : ℕ
    pub end_time : ℕ
    pub duration : ℤ
    pub total_requests : ℕ
    pub success_requests : ℕ
    pub failed_requests : ℕ
    pub error_rate : F
    pub avg_latency : ℤ
    pub p99_latency : ℤ
    pub total_attacks : ℕ
    pub total_recoveries : ℕ
    pub success_recoveries : ℕ
    pub failed_recoveries : ℕ
    pub final_node_status : List (String × String)

  -- With the client's metrics, as they are at each read of the snapshot, and the cluster.
  collected :
      (ℕ → Metrics.Metrics) → (ℕ → ℕ) → ℕ → ℕ → Order → Heap → Cluster → Engine float → Result
  unfolding take_snapshot nodes status_string
  collected at clock start_time end_time order h c e =
      let snapshot = take_snapshot float at clock in
      record {
        scenario_name = e.config.name;
        start_time = start_time;
        end_time = end_time;
        duration = time_sub end_time start_time;
        total_requests = snapshot.total_requests;
        success_requests = snapshot.success_requests;
        failed_requests = snapshot.failed_requests;
        error_rate = snapshot.error_rate;
        avg_latency = snapshot.average_latency;
        p99_latency = snapshot.p99_latency;
        total_attacks = elim e.monkey [ none ↦ 0 | some m ↦ m.attack_count ];
        total_recoveries = elim e.manager [ none ↦ 0 | some m ↦ m.stats.total_recoveries ];
        success_recoveries = elim e.manager [ none ↦ 0 | some m ↦ m.stats.success_recoveries ];
        failed_recoveries = elim e.manager [ none ↦ 0 | some m ↦ m.stats.failed_recoveries ];
        final_node_status =
            map (λ p. ((h.cell p).id, status_string (h.cell p).status)) (nodes order c);
      }

  -- The snapshot is not read in one step: `drift` is what others have made of the client's metrics by each read. Without
  -- a client or a cluster the code panics.
  unfoldable pub collect_results :
      (ℕ → Metrics.Metrics → Metrics.Metrics)
      → (ℕ → ℕ)
      → ℕ
      → ℕ
      → Order
      → Heap
      → Engine float
      → Option Result
  unfolding collected get_metrics
  collect_results drift clock start_time end_time order h e = elim e.client [
    | none ↦ none
    | some client ↦ elim e.cluster [
      | none ↦ none
      | some c ↦ some (
          collected (λ i. drift i (get_metrics float client)) clock start_time end_time order h c e)
    ]
  ]
