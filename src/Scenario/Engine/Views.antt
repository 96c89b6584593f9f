-- ===== src/Scenario/Engine/Views.antt =====
-- internal/scenario/scenario.go: what the engine shows of itself and of its parts while it runs.
use chaos_kvs.Base.{ℕ, Bool, Option}
use mathlib.Core.Option
use chaos_kvs.Cluster.{Cluster}
use chaos_kvs.Chaos
use chaos_kvs.Recovery
use chaos_kvs.Metrics.{Float, Metrics, Snapshot, take_snapshot}
use chaos_kvs.Client.{get_metrics}
use chaos_kvs.Scenario.Engine.{Engine}

module _ (float : Float) where
  unfoldable pub is_running : Engine float → Bool
  is_running e = e.running

  unfoldable pub chaos_stats : Engine float → Option Chaos.Stats
  unfolding Chaos.stats
  chaos_stats e = Option.map Chaos.stats e.monkey

  unfoldable pub recovery_stats : Engine float → Option Recovery.Stats
  unfolding Recovery.get_stats
  recovery_stats e = Option.map Recovery.get_stats e.manager

  -- The snapshot is not read in one step: `drift` is what others have made of the metrics by each read.
  unfoldable pub engine_metrics :
      (ℕ → Metrics → Metrics) → (ℕ → ℕ) → Engine float → Option (Snapshot float)
  unfolding get_metrics take_snapshot
  engine_metrics drift clock e =
      Option.map (λ c. take_snapshot float (λ i. drift i (get_metrics float c)) clock) e.client

  unfoldable pub get_cluster : Engine float → Option Cluster
  get_cluster e = e.cluster
