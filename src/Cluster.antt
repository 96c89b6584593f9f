-- ===== src/Cluster.antt =====
-- internal/cluster/cluster.go. A method takes the heap of nodes and returns what it makes of it. The
-- field `ctx`, which is written and never read, is left out, and so are the log lines.
pub mod Membership
pub mod Creation
pub mod Batch
pub mod Interface
use chaos_kvs.Base.{
  ℕ, zero, suc, ◌+◌, Bool, Option, none, some, List, [], map, String, String_eq, ℤ, pos_part,
  length, ltb, if◌then◌else◌,
}
use chaos_kvs.Base.Map.{lookup, insert, delete, is_some}
use chaos_kvs.Base.Order.{Order}
use chaos_kvs.Base.Count.{count_if}
use chaos_kvs.Base.Decimal.{decimal}
use chaos_kvs.Heap.{Heap, alloc, call, each}
use chaos_kvs.Node.{Status, is_running, is_stopped, Node, start, stop}
use chaos_kvs.Node
use Prim.Native.String.{◌++◌ as str_append}

pub record Cluster : Type 0 where
  pub nodes : List (String × ℕ)

pub data ClusterError : Type 0 where
  already_exists not_found : String → ClusterError
  failed_to_start : ℕ → ClusterError

unfoldable pub new : Cluster
new = record { nodes = [] }

unfoldable pub add_node : Heap → ℕ → Cluster → Cluster × Option ClusterError
add_node h p c =
    let id = (h.cell p).id in
    if is_some (lookup id c.nodes)
    then (c, some (already_exists id))
    else (record c { nodes = insert id p c.nodes }, none)

-- `meanwhile` is what other goroutines do between the read of the status and the call of `Stop`, which
-- fails only if they stopped the node; that is logged.
stop_if_running : (Heap → Heap) → ℕ → Heap → Heap
stop_if_running meanwhile p h =
    if is_running (h.cell p).status then (call stop p (meanwhile h)).0 else h

unfoldable pub remove_node :
    (Heap → Heap) → String → Heap → Cluster → Heap × Cluster × Option ClusterError
unfolding stop_if_running
remove_node meanwhile id h c = elim (lookup id c.nodes) [
  | none ↦ (h, c, some (not_found id))
  | some p ↦ (stop_if_running meanwhile p h, record c { nodes = delete id c.nodes }, none)
]

unfoldable pub get_node : String → Cluster → Option ℕ
get_node id c = lookup id c.nodes

abbrev pub pointers : Cluster → List ℕ
pointers c = map (λ e. e.1) c.nodes

unfoldable pub nodes : Order → Cluster → List ℕ
nodes o c = o.apply (pointers c)

-- The order is that in which the goroutines take the nodes' locks.
unfoldable pub start_all : Order → Heap → Cluster → Heap × Option ClusterError
unfolding nodes
start_all o h c =
    let (h', failed) = each start (nodes o c) h in
    (h', if ltb 0 failed then some (failed_to_start failed) else none)

-- The number of nodes that could not be stopped is only logged.
unfoldable pub stop_all : Order → Heap → Cluster → Heap × Option ClusterError
unfolding nodes
stop_all o h c = let (h', failed) = each stop (nodes o c) h in (h', none)

unfoldable pub size : Cluster → ℕ
size c = length c.nodes

abbrev pub has_status : (Status → Bool) → Heap → ℕ → Bool
has_status test h p = test (h.cell p).status

unfoldable pub running_count : Heap → Cluster → ℕ
running_count h c = count_if (has_status is_running h) (pointers c)

unfoldable pub stopped_count : Heap → Cluster → ℕ
stopped_count h c = count_if (has_status is_stopped h) (pointers c)

-- `fmt.Sprintf("%s-%d", prefix, i+1)`
unfoldable pub node_id : String → ℕ → String
node_id prefix i = str_append prefix (str_append "-" (decimal (i + 1)))

-- The rounds of `CreateNodes` from round `i` on, with `k` left.
pub create_from : ℕ → ℕ → String → Heap → Cluster → Heap × Cluster × Option ClusterError
unfolding add_node Node.new
create_from zero i prefix h c = (h, c, none)
create_from (suc k) i prefix h c =
    let (h', p) = alloc (Node.new (node_id prefix i)) h in
    let (c', e) = add_node h' p c in
    elim e [ none ↦ create_from k (i + 1) prefix h' c' | some x ↦ (h', c', some x) ]

unfoldable pub create_nodes : ℤ → String → Heap → Cluster → Heap × Cluster × Option ClusterError
unfolding create_from
create_nodes count prefix h c = create_from (pos_part count) 0 prefix h c
