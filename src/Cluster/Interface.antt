-- ===== src/Cluster/Interface.antt =====
-- internal/cluster/cluster.go, `Manager`: the operations that the interface names, what a manager promises, and that a
-- cluster is one.
use chaos_kvs.Base.{
  ℕ, ◌≡◌, ◌∙◌, true, Option, none, some, List, String, String_eq, ◌==◌, length, length-map,
  if◌then◌else◌, arith,
}
use chaos_kvs.Base.Order.{Order}
use chaos_kvs.Base.Count.{has, length-perm}
use chaos_kvs.Heap.{Heap}
use chaos_kvs.Cluster.{
  Cluster, ClusterError, add_node, remove_node, get_node, nodes, pointers, start_all, stop_all,
  size, running_count,
}
use chaos_kvs.Cluster.Membership.{IsValid, add_node_lem, remove_node_lem}
use chaos_kvs.Cluster.Batch.{counts_after, size-counts, has-nodes, has-member}

-- The nodes lie in a heap.
pub record Manager (C : Type 0) : Type 0 where
  pub add_node : ℕ → Heap → C → C × Option ClusterError
  pub remove_node : String → Heap → C → Heap × C × Option ClusterError
  pub get_node : String → C → Option ℕ
  pub nodes : Order → C → List ℕ
  pub start_all : Order → Heap → C → Heap × Option ClusterError
  pub stop_all : Order → Heap → C → Heap × Option ClusterError
  pub size : C → ℕ
  pub running_count : Heap → C → ℕ

-- A node that is added is found under its name, one that is removed is not, and no other name is affected; what is found
-- is among the nodes, which are as many as the size; after a start of all, all run, and after a stop, none does.
pub record IsManager {C : Type 0} (m : Manager C) (Fits : Heap → C → Type 0) : Type 0 where
  pub added :
      (p : ℕ) (id : String) (h : Heap) (c : C)
      → (m.add_node p h c).1 ≡ none
      → m.get_node id (m.add_node p h c).0
        ≡ (if (h.cell p).id == id then some p else m.get_node id c)
  pub removed :
      (id key : String) (h : Heap) (c : C)
      → Fits h c
      → (m.remove_node id h c).2 ≡ none
      → m.get_node key (m.remove_node id h c).1 ≡ (if id == key then none else m.get_node key c)
  pub found :
      (o : Order) (id : String) (c : C) (p : ℕ)
      → m.get_node id c ≡ some p
      → has p (m.nodes o c) ≡ true
  pub sized : (o : Order) (c : C) → length (m.nodes o c) ≡ m.size c
  pub all_run : (o : Order) (h : Heap) (c : C) → m.running_count (m.start_all o h c).0 c ≡ m.size c
  pub none_runs : (o : Order) (h : Heap) (c : C) → m.running_count (m.stop_all o h c).0 c ≡ 0

-- Nobody stops the node that goes between the read of its status and the call.
abbrev pub cluster_manager : Manager Cluster
unfolding add_node remove_node get_node nodes start_all stop_all size running_count
cluster_manager = record {
  add_node = λ p h c. add_node h p c;
  remove_node = remove_node (λ h. h);
  get_node = get_node;
  nodes = nodes;
  start_all = start_all;
  stop_all = stop_all;
  size = size;
  running_count = running_count;
}

length-nodes : (o : Order) (c : Cluster) → length (nodes o c) ≡ size c
unfolding nodes size
length-nodes o c = length-perm (o.apply-perm (pointers c)) ∙ length-map (λ e. e.1) c.nodes

accepted-add :
    (p : ℕ) (id : String) (h : Heap) (c : Cluster)
    → (add_node h p c).1 ≡ none
    → get_node id (add_node h p c).0 ≡ (if (h.cell p).id == id then some p else get_node id c)
accepted-add p id h c e = ground (arith, e, add_node_lem h p c id)

-- A cluster in order is a manager.
pub cluster_manager-IsManager : IsManager cluster_manager IsValid
unfolding cluster_manager
cluster_manager-IsManager = record {
  added = accepted-add;
  removed = λ id key h c v e. (remove_node_lem (λ k. k) id key h c v).0;
  found = λ o id c p e. has-nodes o c p ∙ has-member id p c.nodes (unfold get_node in e);
  sized = length-nodes;
  all_run = λ o h c. (counts_after o h c).0;
  none_runs = λ o h c. omega (arith, (counts_after o h c).1, size-counts (stop_all o h c).0 c);
}
