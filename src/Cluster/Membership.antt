-- ===== src/Cluster/Membership.antt =====
-- internal/cluster/cluster.go: which nodes a cluster holds, and under which names.
use chaos_kvs.Base.{
  ℕ, ◌+◌, ◌<◌, ◌≡◌, ◌≢◌, none, some, List, [], ◌∷◌, String, String_eq, arith, All, ◌==◌,
  if◌then◌else◌, Option-cases, inl, inr,
}
use text.Mathlib.TextEquality.{eq_iff}
use chaos_kvs.Base.Map.{
  lookup, insert, delete, is_some, Distinct, insert-Distinct, delete-Distinct, lookup-insert,
  lookup-delete, length-insert, length-delete,
}
use chaos_kvs.Heap.{Heap}
use chaos_kvs.Node.{stopped, is_running, Node, stop}
use chaos_kvs.Cluster.{
  Cluster, already_exists, not_found, new, add_node, stop_if_running, remove_node, get_node, size,
}

-- An entry's key is its node's name, and its node was allocated.
abbrev pub Fits : Heap → String × ℕ → Type 0
Fits h e = ((h.cell e.1).id ≡ e.0) × (e.1 < h.next)

pub record IsValid (h : Heap) (c : Cluster) : Type 0 where
  pub distinct : Distinct c.nodes
  pub fits : All (Fits h) c.nodes

pub new-IsValid : (h : Heap) → IsValid h new
unfolding new
new-IsValid h = ground arith

insert-Fits :
    (h : Heap) (id : String) (p : ℕ) (m : List (String × ℕ))
    → Fits h (id, p)
    → All (Fits h) m
    → All (Fits h) (insert id p m)
unfolding insert
insert-Fits h id p [] f a = (f, tt)
insert-Fits h id p ((j, q) ∷ m) f a = ground (arith, insert-Fits h id p m)

delete-Fits :
    (h : Heap) (id : String) (m : List (String × ℕ)) → All (Fits h) m → All (Fits h) (delete id m)
unfolding delete
delete-Fits h id [] a = tt
delete-Fits h id ((j, q) ∷ m) a = ground (arith, delete-Fits h id m)

-- A heap in which the nodes keep their names serves as well.
pub Fits-heap :
    (h k : Heap) (m : List (String × ℕ))
    → ((q : ℕ) → (k.cell q).id ≡ (h.cell q).id)
    → k.next ≡ h.next
    → All (Fits h) m
    → All (Fits k) m
Fits-heap h k [] same next a = tt
Fits-heap h k ((j, q) ∷ m) same next a = ground (arith, same q, Fits-heap h k m same next a.1)

pub add_node-IsValid :
    (h : Heap) (p : ℕ) (c : Cluster) → p < h.next → IsValid h c → IsValid h (add_node h p c).0
unfolding add_node
add_node-IsValid h p c lt v =
    ground (arith, insert-Distinct (h.cell p).id p c.nodes, insert-Fits h (h.cell p).id p c.nodes)

pub add_node_lem :
    (h : Heap) (p : ℕ) (c : Cluster) (id : String)
    → let (c', e) = add_node h p c in
      (e ≡ (
        if is_some (get_node (h.cell p).id c) then some (already_exists (h.cell p).id) else none))
      × (size c' ≡ (if is_some (get_node (h.cell p).id c) then size c else size c + 1))
      × (get_node id c' ≡ (
          if is_some (get_node (h.cell p).id c)
          then get_node id c
          else if (h.cell p).id == id
          then some p
          else get_node id c))
unfolding add_node get_node size
add_node_lem h p c id =
    ground (arith, lookup-insert (h.cell p).id id p c.nodes, length-insert (h.cell p).id p c.nodes)

stop-id : (n : Node) → (stop n).0.id ≡ n.id
unfolding stop
stop-id n = ground arith

pub remove_node-IsValid :
    (meanwhile : Heap → Heap) (id : String) (h : Heap) (c : Cluster)
    → ((q : ℕ) → ((meanwhile h).cell q).id ≡ (h.cell q).id)
    → (meanwhile h).next ≡ h.next
    → IsValid h c
    → let (h', c', e) = remove_node meanwhile id h c in IsValid h' c'
unfolding remove_node
remove_node-IsValid meanwhile id h c same next v = elim (Option-cases (lookup id c.nodes)) [
  | inl e ↦ rw (e, remove_node) v
  | inr (p, e) ↦
      rw (e, remove_node)
        (record {
          distinct = delete-Distinct id c.nodes v.distinct;
          fits = delete-Fits (stop_if_running meanwhile p h) id c.nodes (
              Fits-heap h (stop_if_running meanwhile p h) c.nodes
                (λ q. ground (arith, same q, stop-id ((meanwhile h).cell p))) (ground arith)
                v.fits);
        })
]

-- In a cluster in order, RemoveNode takes the name out and leaves the others, and fails, with the name, exactly
-- if the cluster has no such node.
pub remove_node_lem :
    (meanwhile : Heap → Heap) (id key : String) (h : Heap) (c : Cluster)
    → IsValid h c
    → let (h', c', e) = remove_node meanwhile id h c in
      (get_node key c' ≡ (if id == key then none else get_node key c))
      × (size c ≡ (if is_some (get_node id c) then size c' + 1 else size c'))
      × (e ≡ (if is_some (get_node id c) then none else some (not_found id)))
unfolding remove_node get_node size
remove_node_lem meanwhile id key h c v =
    ground (arith, eq_iff id key, lookup-delete id key c.nodes, length-delete id c.nodes v.distinct)

-- The node that goes is stopped if it ran, unless another goroutine was faster; a suspended node goes
-- as it is. No other node changes but by what the others did.
pub remove_node-status :
    (id : String) (h : Heap) (c : Cluster) (p q : ℕ)
    → get_node id c ≡ some p
    → let h' = (remove_node (λ k. k) id h c).0 in
      ((h'.cell p).status ≡ (if is_running (h.cell p).status then stopped else (h.cell p).status))
      × (q ≢ p → h'.cell q ≡ h.cell q)
unfolding remove_node get_node stop
remove_node-status id h c p q e = ground arith
