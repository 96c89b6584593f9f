-- ===== src/Cluster/Creation/Stopped.antt =====
-- internal/cluster/cluster.go, CreateNodes: no node that it makes runs.
use chaos_kvs.Base.{
  ℕ, zero, suc, ◌+◌, ◌≡◌, refl, false, List, [], ◌∷◌, map, String, String_eq, pos, All, arith,
}
use chaos_kvs.Base.Count.{count_if}
use chaos_kvs.Base.Map.{insert}
use chaos_kvs.Heap.{Heap, alloc}
use chaos_kvs.Node.{Node, is_running}
use chaos_kvs.Node
use chaos_kvs.Cluster.{
  Cluster, create_nodes, add_node, running_count, node_id, new as new_cluster, create_from,
}
use chaos_kvs.Cluster.Membership.{IsValid, Fits}
use chaos_kvs.Cluster.Creation.{
  Free, round_heap, round_cluster, create_from-suc, still-Free, round-IsValid,
}

-- No node of a map runs.
abbrev Quiet : Heap → List (String × ℕ) → Type 0
Quiet h = All (λ e. is_running (h.cell e.1).status ≡ false)

insert-Quiet :
    (h : Heap) (id : String) (p : ℕ) (m : List (String × ℕ))
    → is_running (h.cell p).status ≡ false
    → Quiet h m
    → Quiet h (insert id p m)
unfolding insert
insert-Quiet h id p [] f q = (f, tt)
insert-Quiet h id p ((j, k) ∷ m) f q = ground (arith, insert-Quiet h id p m)

alloc-Quiet :
    (n : Node) (h : Heap) (m : List (String × ℕ))
    → All (Fits h) m
    → Quiet h m
    → Quiet (alloc n h).0 m
alloc-Quiet n h [] f q = tt
alloc-Quiet n h ((j, k) ∷ m) f q = ground (arith, alloc-Quiet n h m f.1 q.1)

round-Quiet :
    (i : ℕ) (prefix : String) (h : Heap) (c : Cluster)
    → IsValid h c
    → Quiet h c.nodes
    → Quiet (round_heap i prefix h) (round_cluster i prefix h c).nodes
unfolding add_node Node.new
round-Quiet i prefix h c v q = ground (
  arith,
  alloc-Quiet (Node.new (node_id prefix i)) h c.nodes v.fits q,
  insert-Quiet (round_heap i prefix h) (node_id prefix i) h.next c.nodes,
)

create_from-Quiet :
    (k i : ℕ) (prefix : String) (h : Heap) (c : Cluster)
    → Free k i prefix c
    → IsValid h c
    → Quiet h c.nodes
    → Quiet (create_from k i prefix h c).0 (create_from k i prefix h c).1.nodes
create_from-Quiet zero i prefix h c free v q = unfold create_from in q
create_from-Quiet (suc k) i prefix h c free v q =
    rw (create_from-suc k i prefix h c (free i (omega arith) (omega arith))) (
      create_from-Quiet k (i + 1) prefix (round_heap i prefix h) (round_cluster i prefix h c)
        (still-Free k i prefix h c free) (round-IsValid k i prefix h c free v)
        (round-Quiet i prefix h c v q))

count-Quiet :
    (h : Heap) (m : List (String × ℕ))
    → Quiet h m
    → count_if (λ p. is_running (h.cell p).status) (map (λ e. e.1) m) ≡ 0
count-Quiet h [] q = refl
count-Quiet h ((j, k) ∷ m) q = ground (arith, count-Quiet h m q.1)

pub running_count-create_nodes :
    (count : ℕ) (prefix : String) (h : Heap)
    → IsValid h new_cluster
    → Free count 0 prefix new_cluster
    → let (h', c, e) = create_nodes (pos count) prefix h new_cluster in running_count h' c ≡ 0
unfolding create_nodes running_count
running_count-create_nodes count prefix h v free =
    let r = create_from count 0 prefix h new_cluster in
    count-Quiet r.0 r.1.nodes
      (create_from-Quiet count 0 prefix h new_cluster free v (unfold new_cluster in tt))
