-- ===== src/Chaos/Targets.antt =====
-- internal/chaos/chaos.go, `selectTargets`: whom an attack may hit.
use chaos_kvs.Base.{
  ℕ, ◌≤◌, min, ◌≡◌, refl, ap, ◌∙◌, sym, true, none, some, List, [], ◌∷◌, arith, length, length-take,
  take, ltb, pos, negsuc, nat_eq, Bool-cases, inl, inr, ◌⊎◌, String_eq, Perm,
}
use chaos_kvs.Base.Count.{
  count_if, count_if-perm, filter_by, length-filter_by, occurs-filter_by, occurs-take, has, occurs,
  Once,
}
use chaos_kvs.Base.Order.{Order}
use chaos_kvs.Heap.{Heap}
use chaos_kvs.Node.{running, is_running}
use chaos_kvs.Cluster.{Cluster, nodes, pointers, has_status, running_count}
use chaos_kvs.Cluster.Membership.{IsValid}
use chaos_kvs.Cluster.Batch.{nodes-Once}
use chaos_kvs.Chaos.{Monkey}
use chaos_kvs.Chaos.Injection.{select_targets}

length-count : (xs : List ℕ) → length xs ≡ count_if (λ _. true) xs
length-count [] = refl
length-count (x ∷ xs) = omega (arith, length-count xs)

length-perm : {xs ys : List ℕ} → Perm xs ys → length xs ≡ length ys
length-perm {xs} {ys} p = length-count xs ∙ (count_if-perm (λ _. true) p ∙ sym (length-count ys))

module _ (order shuffle : Order) (h : Heap) (c : Cluster) (m : Monkey) where
  abbrev up : List ℕ
  up = filter_by (has_status is_running h) (nodes order c)

  abbrev chosen : ℕ → List ℕ
  chosen k = take k (shuffle.apply up)

  -- What may be said of any slice of the shuffled nodes.
  chosen_lem :
      (k : ℕ)
      → IsValid h c
      → (length (chosen k) ≡ min k (running_count h c))
        × Once (chosen k)
        × ((q : ℕ)
            → has q (chosen k) ≡ true
            → (has q (pointers c) ≡ true) × ((h.cell q).status ≡ running))
  unfolding running_count nodes
  chosen_lem k v = (
    omega (
      arith,
      length-take {0} k (shuffle.apply up),
      length-perm (shuffle.apply-perm up),
      length-filter_by (has_status is_running h) (nodes order c),
      count_if-perm (has_status is_running h) (order.apply-perm (pointers c)),
    ),
    λ q. omega (
      arith,
      occurs-take k q (shuffle.apply up),
      count_if-perm (nat_eq q) (shuffle.apply-perm up),
      unseen q,
      nodes-Once order h c v q,
    ),
    λ q inside. ground (
      arith,
      occurs-take k q (shuffle.apply up),
      count_if-perm (nat_eq q) (shuffle.apply-perm up),
      occurs-filter_by (has_status is_running h) q (nodes order c),
      count_if-perm (nat_eq q) (order.apply-perm (pointers c)),
    ),
  )
    where
      unseen : (q : ℕ) → occurs q up ≤ occurs q (nodes order c)
      unseen q = ground (arith, occurs-filter_by (has_status is_running h) q (nodes order c))

  -- With `k` targets asked for the slice has that many, or all that there are.
  sliced :
      (k : ℕ) (ps : List ℕ)
      → up ≡ ps
      → m.config.target_count ≡ pos k
      → (j : ℕ) × (select_targets order shuffle h c m ≡ some (chosen j))
        × (min j (length up) ≡ min k (length up))
  unfolding select_targets
  sliced k [] e t = (0, ground arith, ground arith)
  sliced k (p ∷ ps) e t = elim (Bool-cases (ltb (length (p ∷ ps)) k)) [
    | inl more ↦ (length (p ∷ ps), ground arith, ground arith)
    | inr fewer ↦ (k, ground arith, ground arith)
  ]

  -- Everyone is asked for at most once, runs, and is of the cluster; and they are as many as the
  -- configuration says, or as run.
  pub select_targets_lem :
      (k : ℕ)
      → IsValid h c
      → m.config.target_count ≡ pos k
      → (ts : List ℕ) × (select_targets order shuffle h c m ≡ some ts)
        × (length ts ≡ min k (running_count h c))
        × Once ts
        × ((q : ℕ) → has q ts ≡ true → (has q (pointers c) ≡ true) × ((h.cell q).status ≡ running))
  select_targets_lem k v t =
      let (j, e, same) = sliced k up refl t in
      let (count, once, members) = chosen_lem j v in
      (chosen j, e, omega (arith, up_count), once, members)
    where
      up_count : length up ≡ running_count h c
      up_count =
          unfold running_count nodes in
          length-filter_by (has_status is_running h) (order.apply (pointers c))
          ∙ count_if-perm (has_status is_running h) (order.apply-perm (pointers c))

  -- A negative number of targets makes the slice expression panic as soon as a node runs.
  pub select_targets_panics :
      (k : ℕ)
      → m.config.target_count ≡ negsuc k
      → (select_targets order shuffle h c m ≡ none) ⊎ (running_count h c ≡ 0)
  unfolding select_targets running_count nodes
  select_targets_panics k t = by_up up refl
    where
      by_up :
          (ps : List ℕ)
          → up ≡ ps
          → (select_targets order shuffle h c m ≡ none) ⊎ (running_count h c ≡ 0)
      by_up [] e = inr (
          sym (count_if-perm (has_status is_running h) (order.apply-perm (pointers c)))
          ∙ (sym (length-filter_by (has_status is_running h) (order.apply (pointers c)))
              ∙ ap length e))
      by_up (p ∷ ps) e = inl (ground arith)
