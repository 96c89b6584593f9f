-- ===== src/Cluster/Creation.antt =====
-- internal/cluster/cluster.go, `CreateNodes`.
pub mod Taken
pub mod Stopped
use text.Mathlib.TextEquality.{eq_iff}
use text.Mathlib.TextLemmas.{append_cancel_left}
use native.Mathlib.Decide.{ℕ_discrete}
use mathlib.Core.Path.{subst}
use chaos_kvs.Base.{
  String_eq, ℕ, zero, suc, ◌+◌, ◌-◌, ◌≤◌, ◌<◌, ◌≡◌, ◌≢◌, refl, ◌∙◌, ◌⊎◌, ◌&&◌, ◌||◌, Option, none,
  some, List, [], ◌∷◌, ◌++◌, String, arith, pos, ◌==◌, if◌then◌else◌, All,
}
use chaos_kvs.Base.Decimal.{decimal, decimal_inj}
use chaos_kvs.Heap.{Heap, alloc}
use chaos_kvs.Node
use chaos_kvs.Node.{Node}
use chaos_kvs.Cluster.{
  Cluster, ClusterError, add_node, get_node, size, node_id, create_from, create_nodes,
}
use chaos_kvs.Cluster.Membership.{add_node_lem, IsValid, add_node-IsValid, Fits}

-- Different rounds make different names.
pub node_id_inj : (prefix : String) (i j : ℕ) → node_id prefix i ≡ node_id prefix j → i ≡ j
unfolding node_id
node_id_inj prefix i j e =
    let same : decimal (i + 1) ≡ decimal (j + 1) =
      append_cancel_left "-" _ _ (append_cancel_left prefix _ _ e) in
    omega (arith, decimal_inj (i + 1) (j + 1) same)

-- The names of the rounds from `i` on, `k` of them, are free.
abbrev pub Free : ℕ → ℕ → String → Cluster → Type 0
Free k i prefix c = (j : ℕ) → i ≤ j → j < i + k → get_node (node_id prefix j) c ≡ none

-- Round `j` made a node, which is new, stopped and empty, and is found under its name.
abbrev pub Made : String → ℕ → Heap → Heap → Cluster → Type 0
Made prefix j before h c =
    (p : ℕ) × (get_node (node_id prefix j) c ≡ some p)
    × (h.cell p ≡ Node.new (node_id prefix j))
    × (before.next ≤ p)
    × (p < h.next)

-- The rounds leave the nodes that were there, find every name free, and end without an error.
record Outcome (k i : ℕ) (prefix : String) (h : Heap) (c : Cluster)
    (r : Heap × Cluster × Option ClusterError) : Type 0 where
  no_error : r.2 ≡ none
  grown : size r.1 ≡ size c + k
  made : (j : ℕ) → i ≤ j → j < i + k → Made prefix j h r.0 r.1
  found :
      (id : String)
      → ((j : ℕ) → i ≤ j → j < i + k → node_id prefix j ≢ id)
      → get_node id r.1 ≡ get_node id c
  kept : (q : ℕ) → q < h.next → r.0.cell q ≡ h.cell q
  allocated : h.next ≤ r.0.next
  valid : IsValid r.0 r.1

-- One round.
abbrev pub round_heap : ℕ → String → Heap → Heap
round_heap i prefix h = (alloc (Node.new (node_id prefix i)) h).0

abbrev pub round_cluster : ℕ → String → Heap → Cluster → Cluster
round_cluster i prefix h c = (add_node (round_heap i prefix h) h.next c).0

Fits-alloc :
    (n : Node) (h : Heap) (m : List (String × ℕ)) → All (Fits h) m → All (Fits (alloc n h).0) m
Fits-alloc n h [] a = tt
Fits-alloc n h ((j, q) ∷ m) a = ground (arith, Fits-alloc n h m a.1)

IsValid-alloc : (n : Node) (h : Heap) (c : Cluster) → IsValid h c → IsValid (alloc n h).0 c
IsValid-alloc n h c v = record { distinct = v.distinct; fits = Fits-alloc n h c.nodes v.fits }

pub round_get :
    (i : ℕ) (prefix id : String) (h : Heap) (c : Cluster)
    → get_node (node_id prefix i) c ≡ none
    → (get_node id (round_cluster i prefix h c)
        ≡ (if node_id prefix i == id then some h.next else get_node id c))
      × (size (round_cluster i prefix h c) ≡ size c + 1)
      × ((add_node (round_heap i prefix h) h.next c).1 ≡ none)
unfolding Node.new
round_get i prefix id h c free = ground (arith, add_node_lem (round_heap i prefix h) h.next c id)

pub create_from-suc :
    (k i : ℕ) (prefix : String) (h : Heap) (c : Cluster)
    → get_node (node_id prefix i) c ≡ none
    → create_from (suc k) i prefix h c
      ≡ create_from k (i + 1) prefix (round_heap i prefix h) (round_cluster i prefix h c)
unfolding create_from
create_from-suc k i prefix h c free = ground (arith, (round_get i prefix "" h c free).2)

module _ (k i : ℕ) (prefix : String) (h : Heap) (c : Cluster) (free : Free (suc k) i prefix c) where
  pub still-Free : Free k (i + 1) prefix (round_cluster i prefix h c)
  still-Free j lo hi = ground (
    arith,
    round_get i prefix (node_id prefix j) h c (free i (omega arith) (omega arith)),
    free j (omega arith) (omega arith),
    node_id_inj prefix i j,
    eq_iff (node_id prefix i) (node_id prefix j),
  )

  round-IsValid : IsValid h c → IsValid (round_heap i prefix h) (round_cluster i prefix h c)
  round-IsValid v =
      add_node-IsValid (round_heap i prefix h) h.next c (omega arith)
        (IsValid-alloc (Node.new (node_id prefix i)) h c v)

  later_names : (j : ℕ) → i + 1 ≤ j → node_id prefix j ≢ node_id prefix i
  later_names j lo e = omega (arith, node_id_inj prefix j i e)

  module _ {r : Heap × Cluster × Option ClusterError}
      (o : Outcome k (i + 1) prefix (round_heap i prefix h) (round_cluster i prefix h c) r) where
    Made-here : Made prefix i h r.0 r.1
    Made-here = (
      h.next,
      ground (
        arith,
        o.found (node_id prefix i) (λ j lo hi. later_names j lo),
        round_get i prefix (node_id prefix i) h c (free i (omega arith) (omega arith)),
        eq_iff (node_id prefix i) (node_id prefix i),
      ),
      ground (arith, o.kept h.next (omega arith)),
      omega arith,
      omega (arith, o.allocated),
    )

    Made-there : (j : ℕ) → i + 1 ≤ j → j < i + 1 + k → Made prefix j h r.0 r.1
    Made-there j lo hi =
        let (p, get, cell, above, below) = o.made j lo hi in (p, get, cell, omega arith, below)

    first_round : Outcome (suc k) i prefix h c r
    first_round = record {
      no_error = o.no_error;
      grown =
          omega
            (arith, o.grown, (round_get i prefix "" h c (free i (omega arith) (omega arith))).1);
      made = λ j lo hi. elim (ℕ_discrete i j) [
        | yes e ↦ subst (λ n. Made prefix n h r.0 r.1) e Made-here
        | no n ↦ Made-there j (omega arith) (omega arith)
      ];
      found = λ id other. ground (
        arith,
        o.found id (λ j lo hi. other j (omega arith) (omega arith)),
        round_get i prefix id h c (free i (omega arith) (omega arith)),
        other i (omega arith) (omega arith),
        eq_iff (node_id prefix i) id,
      );
      kept = λ q lt. ground (arith, o.kept q (omega arith));
      allocated = omega (arith, o.allocated);
      valid = o.valid;
    }

create_from-Outcome :
    (k i : ℕ) (prefix : String) (h : Heap) (c : Cluster)
    → Free k i prefix c
    → IsValid h c
    → Outcome k i prefix h c (create_from k i prefix h c)
create_from-Outcome zero i prefix h c free v =
    unfold create_from in
    record {
      no_error = refl;
      grown = omega arith;
      made = λ j lo hi. absurd (omega arith);
      found = λ id other. refl;
      kept = λ q lt. refl;
      allocated = omega arith;
      valid = v;
    }
create_from-Outcome (suc k) i prefix h c free v =
    rw (create_from-suc k i prefix h c (free i (omega arith) (omega arith))) (
      first_round k i prefix h c free (
        create_from-Outcome k (i + 1) prefix (round_heap i prefix h) (round_cluster i prefix h c)
          (still-Free k i prefix h c free) (round-IsValid k i prefix h c free v)))

-- In a cluster in order in which the names to come are free, CreateNodes succeeds, adds as many nodes as asked
-- for, finds each under the name of its round, new and stopped, leaves the other names and nodes alone, and keeps
-- the cluster in order.
pub create_nodes_lem :
    (count : ℕ) (prefix : String) (h : Heap) (c : Cluster)
    → Free count 0 prefix c
    → IsValid h c
    → let (h', c', e) = create_nodes (pos count) prefix h c in
      (e ≡ none)
      × (size c' ≡ size c + count)
      × ((j : ℕ) → j < count → Made prefix j h h' c')
      × ((id : String)
          → ((j : ℕ) → j < count → node_id prefix j ≢ id)
          → get_node id c' ≡ get_node id c)
      × ((q : ℕ) → q < h.next → h'.cell q ≡ h.cell q)
      × IsValid h' c'
unfolding create_nodes
create_nodes_lem count prefix h c free v =
    let o = create_from-Outcome count 0 prefix h c free v in
    (
      o.no_error,
      o.grown,
      λ j lt. o.made j (omega arith) (omega arith),
      λ id other. o.found id (λ j lo hi. other j (omega arith)),
      o.kept,
      o.valid,
    )
