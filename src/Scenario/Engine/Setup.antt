-- ===== src/Scenario/Engine/Setup.antt =====
-- internal/scenario/scenario.go: what `setup` and the starts of the parts make of an engine, and what `teardown`
-- leaves behind.
use chaos_kvs.Base.{
  ℕ, ◌<◌, ◌≡◌, refl, ap, ◌∙◌, Bool, not, ◌||◌, Option, none, String_eq, pos, ltb_ℤ, arith,
}
use chaos_kvs.Base.Map.{is_some, lookup}
use chaos_kvs.Base.Order.{Order}
use chaos_kvs.Heap.{Heap}
use chaos_kvs.Node.{Node}
use chaos_kvs.Node
use chaos_kvs.Cluster.{
  Cluster, ClusterError, get_node, size, create_nodes, start_all, new as new_cluster,
}
use chaos_kvs.Cluster.Membership.{IsValid, new-IsValid}
use chaos_kvs.Cluster.Creation.{create_nodes_lem, Made, Free}
use chaos_kvs.Cluster.Creation.Stopped.{running_count-create_nodes}
use chaos_kvs.Cluster.Batch.{start_all_quiet}
use chaos_kvs.Metrics.{Float}
use chaos_kvs.Scenario.Engine.{Engine, prepared, setup_parts, setup_nodes, setup, start_parts}

new_cluster-Free : (count : ℕ) → Free count 0 "node" new_cluster
unfolding new_cluster get_node lookup
new_cluster-Free count j lo hi = refl

-- What the setup's first two steps make of a heap.
abbrev pub built : ℕ → Heap → Heap × Cluster × Option ClusterError
built count h = create_nodes (pos count) "node" h new_cluster

pub built_lem :
    (count : ℕ) (h : Heap)
    → ((built count h).2 ≡ none)
      × (size (built count h).1 ≡ count)
      × ((j : ℕ) → j < count → Made "node" j h (built count h).0 (built count h).1)
      × IsValid (built count h).0 (built count h).1
built_lem count h =
    let facts =
      create_nodes_lem count "node" h new_cluster (new_cluster-Free count) (new-IsValid h) in
    (facts.0, unfold size new_cluster in omega (arith, facts.1), facts.2, facts.5)

built-start :
    (count : ℕ) (order : Order) (h : Heap)
    → (start_all order (built count h).0 (built count h).1).1 ≡ none
built-start count order h =
    start_all_quiet order (built count h).0 (built count h).1 (built_lem count h).3
      (running_count-create_nodes count "node" h (new-IsValid h) (new_cluster-Free count))

pub setup_value :
    (float : Float) (num_cpu now count : ℕ) (order : Order) (h : Heap) (e : Engine float)
    → e.config.node_count ≡ pos count
    → setup float num_cpu now order h e ≡ (
      (start_all order (built count h).0 (built count h).1).0,
      prepared float num_cpu now (built count h).1 e,
      none,
    )
unfolding setup
setup_value float num_cpu now count order h e n =
    let (h', c, refused) = built count h in
    ap
      (λ k.
        let r = create_nodes k "node" h new_cluster in
        setup_nodes float num_cpu now order e r.0 r.1 r.2)
      n
    ∙ ap (setup_nodes float num_cpu now order e h' c) (built_lem count h).0
    ∙ ap (setup_parts float num_cpu now c e (start_all order h' c).0) (built-start count order h)

-- The parts that the setup prepares for an engine that has none yet all start, unless chaos is enabled with an
-- interval that is not positive: then the monkey's ticker panics.
pub start_parts_lem :
    (float : Float) (num_cpu now : ℕ) (cancelled : Bool) (c : Cluster) (e : Engine float)
    → e.monkey ≡ none
    → e.manager ≡ none
    → is_some (start_parts float cancelled (prepared float num_cpu now c e))
      ≡ (not e.config.enable_chaos || ltb_ℤ (pos 0) e.config.chaos_interval)
unfolding start_parts prepared
start_parts_lem float num_cpu now cancelled c e no_monkey no_manager = ground arith
