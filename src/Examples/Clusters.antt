-- ===== src/Examples/Clusters.antt =====
-- Calls of a cluster of three nodes, one running, one stopped and one suspended.
use chaos_kvs.Base.{
  ℕ, zero, suc, ◌+◌, ◌≡◌, ◌≢◌, ◌<◌, refl, none, [], ◌∷◌, String, String_eq, pos, arith,
}
use chaos_kvs.Examples.{heap}
use chaos_kvs.Base.Map.{lookup}
use chaos_kvs.Base.Decimal.{decimal}
use chaos_kvs.Heap.{Heap}
use chaos_kvs.Cluster.{Cluster, create_nodes, node_id, get_node, size, new as new_cluster}
use chaos_kvs.Cluster.Membership.{IsValid, new-IsValid}
use chaos_kvs.Cluster.Creation.{Made, Free, create_nodes_lem}

-- The names that CreateNodes makes with another prefix are free.
names-Free : (count : ℕ) → Free count 0 "" new_cluster
unfolding new_cluster get_node lookup
names-Free count j lo hi = refl

-- A cluster that holds the name of round 1.
abbrev taken_cluster : Cluster
taken_cluster = record { nodes = ("node-2", 0) ∷ [] }

first-Free : Free 1 0 "node" taken_cluster
unfolding get_node lookup node_id decimal
first-Free zero lo hi = refl
first-Free (suc j) lo hi = absurd (omega arith)

create_nodes_lem_example :
    let count : ℕ = 2 in
    let prefix : String = "" in
    let h : Heap = heap in
    let c : Cluster = new_cluster in
    let (h', c', e) = create_nodes (pos count) prefix h c in
    (e ≡ none)
    × (size c' ≡ size c + count)
    × ((j : ℕ) → j < count → Made prefix j h h' c')
    × ((id : String)
        → ((j : ℕ) → j < count → node_id prefix j ≢ id)
        → get_node id c' ≡ get_node id c)
    × ((q : ℕ) → q < h.next → h'.cell q ≡ h.cell q)
    × IsValid h' c'
create_nodes_lem_example = create_nodes_lem 2 "" heap new_cluster (names-Free 2) (new-IsValid heap)
