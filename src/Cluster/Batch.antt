-- ===== src/Cluster/Batch.antt =====
-- internal/cluster/cluster.go: starting and stopping all nodes at once, whatever the order in which
-- the goroutines run, and the counts by status.
use chaos_kvs.Base.{
  ℕ, ◌+◌, ◌≡◌, refl, ap, sym, ◌∙◌, Bool, true, false, none, some, List, [], ◌∷◌, map, String,
  String_eq, arith, if◌then◌else◌, nat_eq, ltb, length, length-map, All,
}
use text.Mathlib.TextEquality.{eq_iff}
use chaos_kvs.Base.Map.{lookup, Distinct}
use chaos_kvs.Base.Order.{Order}
use chaos_kvs.Base.Count.{occurs, has, Once, count_if, count_if-perm, count_if-cong}
use chaos_kvs.Heap.{Heap, each, refuses, cell-each, failed-each}
use chaos_kvs.Node.{running, stopped, is_running, is_stopped, is_suspended, Node, start, stop}
use chaos_kvs.Cluster.{
  Cluster, failed_to_start, get_node, pointers, nodes, start_all, stop_all, size, has_status,
  running_count, stopped_count,
}
use chaos_kvs.Cluster.Membership.{IsValid, Fits}

start_again : (n : Node) → (start (start n).0).0 ≡ (start n).0
unfolding start
start_again n = ground arith

stop_again : (n : Node) → (stop (stop n).0).0 ≡ (stop n).0
unfolding stop
stop_again n = ground arith

-- Every node with a name other than all those of a map is not in it.
pub occurs-absent :
    (h : Heap) (m : List (String × ℕ)) (p : ℕ)
    → lookup (h.cell p).id m ≡ none
    → All (Fits h) m
    → occurs p (map (λ e. e.1) m) ≡ 0
unfolding lookup
occurs-absent h [] p absent a = refl
occurs-absent h ((j, q) ∷ m) p absent a =
    ground (arith, eq_iff j (h.cell p).id, occurs-absent h m p)

occurs-Fits :
    (h : Heap) (m : List (String × ℕ)) → Distinct m → All (Fits h) m → Once (map (λ e. e.1) m)
occurs-Fits h [] d a p = omega arith
occurs-Fits h ((j, q) ∷ m) d a p = ground (arith, occurs-Fits h m d.1 a.1 p, occurs-absent h m q)

-- No node of a cluster has two names.
pub pointers-Once : (h : Heap) (c : Cluster) → IsValid h c → Once (pointers c)
pointers-Once h c v = occurs-Fits h c.nodes v.distinct v.fits

pub nodes-Once : (o : Order) (h : Heap) (c : Cluster) → IsValid h c → Once (nodes o c)
unfolding nodes
nodes-Once o h c v p =
    omega (arith, count_if-perm (nat_eq p) (o.apply-perm (pointers c)), pointers-Once h c v p)

pub has-nodes : (o : Order) (c : Cluster) (p : ℕ) → has p (nodes o c) ≡ has p (pointers c)
unfolding nodes
has-nodes o c p = ap (ltb 0) (count_if-perm (nat_eq p) (o.apply-perm (pointers c)))

-- A member is among the pointers.
pub has-member :
    (id : String) (p : ℕ) (m : List (String × ℕ))
    → lookup id m ≡ some p
    → has p (map (λ e. e.1) m) ≡ true
unfolding lookup
has-member id p [] e = cc
has-member id p ((j, q) ∷ m) e = ground (arith, has-member id p m)

pub start_all-cell :
    (o : Order) (h : Heap) (c : Cluster) (p : ℕ)
    → (start_all o h c).0.cell p ≡ (if has p (pointers c) then (start (h.cell p)).0 else h.cell p)
unfolding start_all
start_all-cell o h c p =
    ground (arith, has-nodes o c p, cell-each start start_again (nodes o c) h p)

pub stop_all-cell :
    (o : Order) (h : Heap) (c : Cluster) (p : ℕ)
    → (stop_all o h c).0.cell p ≡ (if has p (pointers c) then (stop (h.cell p)).0 else h.cell p)
unfolding stop_all
stop_all-cell o h c p = ground (arith, has-nodes o c p, cell-each stop stop_again (nodes o c) h p)

-- In any order, as many calls of `Start` are refused as nodes run.
failed-start :
    (o : Order) (h : Heap) (c : Cluster)
    → IsValid h c
    → (each start (nodes o c) h).1 ≡ running_count h c
unfolding nodes running_count start
failed-start o h c v =
    failed-each start (nodes o c) h (nodes-Once o h c v)
    ∙ (count_if-perm (refuses start h) (o.apply-perm (pointers c))
        ∙ count_if-cong _ _ (pointers c) (λ q e. ground arith))

-- In a cluster in order, in whatever order the goroutines run, StartAll leaves every member running with its
-- contents, gives each member what Start gives it and touches no other node, and fails exactly if some nodes ran
-- already, with their number.
pub start_all_lem :
    (o : Order) (h : Heap) (c : Cluster) (id : String) (p q : ℕ)
    → IsValid h c
    → get_node id c ≡ some p
    → let (h', e) = start_all o h c in
      ((h'.cell p).status ≡ running)
      × ((h'.cell p).contents ≡ (h.cell p).contents)
      × (h'.cell q ≡ (if has q (pointers c) then (start (h.cell q)).0 else h.cell q))
      × (e ≡ (
          if ltb 0 (running_count h c) then some (failed_to_start (running_count h c)) else none))
unfolding get_node
start_all_lem o h c id p q v e = (
  unfold start in ground (arith, start_all-cell o h c p, has-member id p c.nodes e),
  unfold start in ground (arith, start_all-cell o h c p, has-member id p c.nodes e),
  start_all-cell o h c q,
  unfold start_all in ground (arith, failed-start o h c v),
)

-- Where no node runs, none refuses to start.
pub start_all_quiet :
    (o : Order) (h : Heap) (c : Cluster)
    → IsValid h c
    → running_count h c ≡ 0
    → (start_all o h c).1 ≡ none
unfolding start_all
start_all_quiet o h c v quiet = ground (arith, failed-start o h c v)

pub stop_all_lem :
    (o : Order) (h : Heap) (c : Cluster) (id : String) (p q : ℕ)
    → get_node id c ≡ some p
    → let (h', e) = stop_all o h c in
      ((h'.cell p).status ≡ stopped)
      × ((h'.cell p).contents ≡ (h.cell p).contents)
      × (has q (pointers c) ≡ false → h'.cell q ≡ h.cell q)
      × (e ≡ none)
unfolding get_node
stop_all_lem o h c id p q e = (
  unfold stop in ground (arith, stop_all-cell o h c p, has-member id p c.nodes e),
  unfold stop in ground (arith, stop_all-cell o h c p, has-member id p c.nodes e),
  λ out. ground (arith, stop_all-cell o h c q),
  unfold stop_all in refl,
)

-- In a cluster in order, the order in which the goroutines run leaves no trace, in the nodes or in the error.
pub start_all_any_order :
    (o o' : Order) (h : Heap) (c : Cluster)
    → IsValid h c
    → ((p : ℕ) → (start_all o h c).0.cell p ≡ (start_all o' h c).0.cell p)
      × ((start_all o h c).1 ≡ (start_all o' h c).1)
start_all_any_order o o' h c v = (
  λ p. start_all-cell o h c p ∙ sym (start_all-cell o' h c p),
  unfold start_all in ground (arith, failed-start o h c v, failed-start o' h c v),
)

-- The source has no such count.
abbrev pub suspended_count : Heap → Cluster → ℕ
suspended_count h c = count_if (has_status is_suspended h) (pointers c)

census :
    (h : Heap) (ps : List ℕ)
    → length ps
      ≡ count_if (has_status is_running h) ps
        + count_if (has_status is_stopped h) ps
        + count_if (has_status is_suspended h) ps
census h [] = refl
census h (p ∷ ps) = ground (arith, census h ps)

-- Every node is counted under one status.
pub size-counts :
    (h : Heap) (c : Cluster) → size c ≡ running_count h c + stopped_count h c + suspended_count h c
unfolding size running_count stopped_count
size-counts h c = sym (length-map (λ e. e.1) c.nodes) ∙ census h (pointers c)

all_counted :
    (f : ℕ → Bool) (ps : List ℕ)
    → ((p : ℕ) → has p ps ≡ true → f p ≡ true)
    → count_if f ps ≡ length ps
all_counted f [] h = refl
all_counted f (p ∷ ps) h = ground (arith, h p, all_counted f ps (λ q e. h q (ground arith)))

-- After StartAll all nodes count as running, and after StopAll all as stopped, in whatever order and state.
pub counts_after :
    (o : Order) (h : Heap) (c : Cluster)
    → (running_count (start_all o h c).0 c ≡ size c) × (stopped_count (stop_all o h c).0 c ≡ size c)
unfolding size running_count stopped_count
counts_after o h c = (
  all_counted (has_status is_running (start_all o h c).0) (pointers c)
        (λ p e. unfold start in ground (arith, start_all-cell o h c p))
      ∙ length-map (λ e. e.1) c.nodes,
  all_counted (has_status is_stopped (stop_all o h c).0) (pointers c)
        (λ p e. unfold stop in ground (arith, stop_all-cell o h c p))
      ∙ length-map (λ e. e.1) c.nodes,
)
