-- ===== src/Cluster/Creation/Taken.antt =====
-- internal/cluster/cluster.go, `CreateNodes`: a name that is taken.
use text.Mathlib.TextEquality.{eq_iff}
use native.Mathlib.Nat.{add-zero, zero-add}
use chaos_kvs.Base.{ℕ, zero, suc, ◌+◌, ◌<◌, ◌≡◌, ap, none, some, String, String_eq, arith, pos}
use chaos_kvs.Heap.{Heap}
use chaos_kvs.Cluster.{Cluster, already_exists, get_node, size, node_id, create_from, create_nodes}
use chaos_kvs.Cluster.Creation.{
  Free, round_heap, round_cluster, round_get, create_from-suc, still-Free,
}

taken_here :
    (m i : ℕ) (prefix : String) (h : Heap) (c : Cluster) (p : ℕ)
    → get_node (node_id prefix i) c ≡ some p
    → ((create_from (suc m) i prefix h c).2 ≡ some (already_exists (node_id prefix i)))
      × (size (create_from (suc m) i prefix h c).1 ≡ size c)
unfolding create_from get_node size
taken_here m i prefix h c p taken = ground arith

taken_later :
    (m n i : ℕ) (prefix : String) (h : Heap) (c : Cluster) (p : ℕ)
    → n < m
    → Free n i prefix c
    → get_node (node_id prefix (i + n)) c ≡ some p
    → ((create_from m i prefix h c).2 ≡ some (already_exists (node_id prefix (i + n))))
      × (size (create_from m i prefix h c).1 ≡ size c + n)
taken_later zero n i prefix h c p lt free taken = absurd (omega arith)
taken_later (suc m) zero i prefix h c p lt free taken =
    rw (add-zero i, add-zero (size c)) (taken_here m i prefix h c p (rw (add-zero i) at taken))
taken_later (suc m) (suc n) i prefix h c p lt free taken =
    let now = free i (omega arith) (omega arith) in
    let e : i + suc n ≡ i + 1 + n = omega arith in
    rw (create_from-suc m i prefix h c now, e)
      (ground (
        arith,
        (round_get i prefix "" h c now).1,
        taken_later m n (i + 1) prefix (round_heap i prefix h) (round_cluster i prefix h c) p
            (omega arith) (still-Free n i prefix h c free) (still_taken now e),
      ))
  where
    still_taken :
        get_node (node_id prefix i) c ≡ none
        → i + suc n ≡ i + 1 + n
        → get_node (node_id prefix (i + 1 + n)) (round_cluster i prefix h c) ≡ some p
    still_taken now e = ground (
      arith,
      (round_get i prefix (node_id prefix (i + 1 + n)) h c now).0,
      eq_iff (node_id prefix i) (node_id prefix (i + 1 + n)),
      ap (λ x. get_node (node_id prefix x) c) e,
    )

-- If the first name that is taken is that of round `n`, CreateNodes fails with this name, and the nodes of the
-- rounds before stay in the cluster.
pub create_nodes_taken :
    (count n : ℕ) (prefix : String) (h : Heap) (c : Cluster) (p : ℕ)
    → n < count
    → Free n 0 prefix c
    → get_node (node_id prefix n) c ≡ some p
    → let (h', c', e) = create_nodes (pos count) prefix h c in
      (e ≡ some (already_exists (node_id prefix n))) × (size c' ≡ size c + n)
unfolding create_nodes
create_nodes_taken count n prefix h c p lt free taken =
    rw zero-add at (taken_later count n 0 prefix h c p lt free (rw zero-add taken))
