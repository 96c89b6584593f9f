-- ===== src/Recovery/Rounds.antt =====
-- internal/recovery/recovery.go, `checkAndRecover`: a round over all nodes does to each what a check of
-- that node alone would do, in any order; and two rounds bring a cluster back.
use text.Mathlib.TextEquality.{eq_iff}
use chaos_kvs.Base.{
  String_eq, ℕ, ◌≡◌, ap, ◌∙◌, sym, true, false, some, List, [], ◌∷◌, arith, map, Bool-cases, inl,
  inr, String, All,
}
use chaos_kvs.Base.Map.{lookup, Distinct}
use chaos_kvs.Base.Count.{has}
use chaos_kvs.Base.Order.{Order}
use chaos_kvs.Events.{Event}
use chaos_kvs.Heap.{Heap}
use chaos_kvs.Cluster.{Cluster, nodes, pointers}
use chaos_kvs.Cluster.Membership.{IsValid, Fits, Fits-heap}
use chaos_kvs.Cluster.Batch.{nodes-Once, has-nodes}
use chaos_kvs.Recovery.{Manager}
use chaos_kvs.Recovery.Checks.{check_and_recover}
use chaos_kvs.Recovery.Fates.{
  calm, checked, Apart, checked-id, cell_outside, check_each-settled, check_each-inside,
}

-- In a cluster in order no two nodes share a name.
member_named :
    (h : Heap) (m : List (String × ℕ)) (p : ℕ)
    → Distinct m
    → All (Fits h) m
    → has p (map (λ e. e.1) m) ≡ true
    → lookup (h.cell p).id m ≡ some p
unfolding lookup
member_named h [] p d a inside = cc
member_named h ((j, q) ∷ m) p d a inside =
    ground (arith, eq_iff j (h.cell p).id, member_named h m p d.1 a.1)

nodes-Apart : (o : Order) (h : Heap) (c : Cluster) → IsValid h c → Apart h (nodes o c)
nodes-Apart o h c v p q hp hq e =
    let named = member_named h c.nodes in
    ground (
      arith,
      ap (λ id. lookup id c.nodes) e,
      named p v.distinct v.fits (sym (has-nodes o c p) ∙ hp),
      named q v.distinct v.fits (sym (has-nodes o c q) ∙ hq),
    )

module _ (clock : ℕ → ℕ) (now : ℕ) (o : Order) (c : Cluster) (h : Heap) (m : Manager)
    (v : IsValid h c) where
  abbrev round : Heap × Manager × List Event
  round = check_and_recover (calm clock) o now c h m

  -- In a check of a cluster in order that nobody interferes with, each member and its tracked state fare as in a
  -- check of that node alone, whatever the order.
  pub round_lem :
      (q : ℕ)
      → has q (pointers c) ≡ true
      → (round.0.cell q ≡ (checked clock now m (h.cell q)).0)
        × (lookup (h.cell q).id round.1.node_states ≡ some (checked clock now m (h.cell q)).1)
  unfolding check_and_recover
  round_lem q inside =
      check_each-inside clock now (nodes o c) h m q (nodes-Once o h c v) (nodes-Apart o h c v)
        (has-nodes o c q ∙ inside)

  pub round_outside : (q : ℕ) → has q (pointers c) ≡ false → round.0.cell q ≡ h.cell q
  unfolding check_and_recover
  round_outside q out = cell_outside clock now (nodes o c) h m q (has-nodes o c q ∙ out)

  pub round-settled :
      (round.1.config ≡ m.config) × (round.1.has_bus ≡ m.has_bus) × (round.0.next ≡ h.next)
  unfolding check_and_recover
  round-settled = check_each-settled clock now (nodes o c) h m

  pub round-id : (q : ℕ) → (round.0.cell q).id ≡ (h.cell q).id
  round-id q = elim (Bool-cases (has q (pointers c))) [
    | inl inside ↦ ap (λ n. n.id) (round_lem q inside).0 ∙ checked-id clock now m (h.cell q)
    | inr out ↦ ap (λ n. n.id) (round_outside q out)
  ]

  pub round-IsValid : IsValid round.0 c
  round-IsValid = record {
    distinct = v.distinct;
    fits = Fits-heap h round.0 c.nodes round-id round-settled.2 v.fits;
  }
