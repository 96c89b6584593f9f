-- ===== src/Recovery/Revival.antt =====
-- internal/recovery/recovery.go: two rounds of the health check, far enough apart, bring every node of a
-- cluster back.
use chaos_kvs.Base.{
  ℕ, ◌≡◌, ◌≢◌, refl, ap, ◌∙◌, Bool, true, false, some, arith, ltb_ℤ, time_sub, String_eq,
}
use chaos_kvs.Base.Map.{lookup}
use chaos_kvs.Base.Count.{has}
use chaos_kvs.Base.Order.{Order}
use chaos_kvs.Heap.{Heap}
use chaos_kvs.Node.{Status, stopped, running, suspended, Node, start, resume, set_delay}
use chaos_kvs.Cluster.{Cluster, pointers}
use chaos_kvs.Cluster.Membership.{IsValid}
use chaos_kvs.Recovery.{Config, NodeState, Stats, Manager}
use chaos_kvs.Recovery.Handlers.{Handled, handle}
use chaos_kvs.Recovery.Checks.{state_of, check_and_recover}
use chaos_kvs.Recovery.Handling.{HasBudget}
use chaos_kvs.Recovery.Rounds.{round_lem, round-settled, round-IsValid, round-id}
use chaos_kvs.Recovery.Fates.{calm, checked}

module _ (config : Config) (has_bus : Bool) (n : Node) (state : NodeState) (stats stats' : Stats)
    (clock clock' : ℕ → ℕ) (t t' : ℕ) (restarts : config.auto_restart ≡ true)
    (resumes : config.auto_resume ≡ true) (started : t ≢ 0)
    (waited : ltb_ℤ (time_sub t' t) config.recovery_delay ≡ false) (fresh : state.failed_at ≡ 0)
    (budget : HasBudget config state) where
  abbrev first : Handled
  first = handle config has_bus clock n.status t n state stats

  abbrev second : Handled
  second = handle config has_bus clock' first.node.status t' first.node first.state stats'

  -- Two checks of a node that nobody else touches.
  twice :
      (s : Status)
      → n.status ≡ s
      → (second.node.status ≡ running) × (second.node.contents ≡ n.contents)
  unfolding handle start resume set_delay
  twice running e = ground arith
  twice stopped e = ground arith
  twice suspended e = ground arith

checked-eq :
    (clock : ℕ → ℕ) (now : ℕ) (m m' : Manager) (n n' : Node) (state : NodeState)
    → n' ≡ n
    → m'.config ≡ m.config
    → m'.has_bus ≡ m.has_bus
    → lookup n'.id m'.node_states ≡ some state
    → (checked clock now m' n').0
      ≡ (handle m.config m.has_bus clock n.status now n state m'.stats).node
checked-eq clock now m m' n n' state e c b l = ground arith

-- In a cluster in order, under a manager that restarts and resumes, take a node of which no failure is noted
-- and that has restarts left. Two checks of all nodes that nobody interferes with, in any orders, the first not
-- at the zero time and the second at least the recovery delay later, leave the node running with its contents.
pub revival :
    (c : Cluster) (h : Heap) (m : Manager) (q : ℕ) (o o' : Order) (clock clock' : ℕ → ℕ) (t t' : ℕ)
    → IsValid h c
    → m.config.auto_restart ≡ true
    → m.config.auto_resume ≡ true
    → t ≢ 0
    → ltb_ℤ (time_sub t' t) m.config.recovery_delay ≡ false
    → has q (pointers c) ≡ true
    → (state_of t (lookup (h.cell q).id m.node_states)).failed_at ≡ 0
    → HasBudget m.config (state_of t (lookup (h.cell q).id m.node_states))
    → let (h', m', _) = check_and_recover (calm clock) o t c h m in
      let (h'', _, _) = check_and_recover (calm clock') o' t' c h' m' in
      ((h''.cell q).status ≡ running) × ((h''.cell q).contents ≡ (h.cell q).contents)
revival c h m q o o' clock clock' t t' v restarts resumes started waited inside fresh budget =
    let (h', m', _) = check_and_recover (calm clock) o t c h m in
    let (cell, state) = round_lem clock t o c h m v q inside in
    let (same_config, same_bus, _) = round-settled clock t o c h m v in
    let (cell', _) = round_lem clock' t' o' c h' m' (round-IsValid clock t o c h m v) q inside in
    let id = round-id clock t o c h m v q in
    let (n, s) = checked clock t m (h.cell q) in
    let found : lookup (h'.cell q).id m'.node_states ≡ some s =
      ap (λ k. lookup k m'.node_states) id ∙ state in
    let e : (check_and_recover (calm clock') o' t' c h' m').0.cell q
        ≡ (handle m.config m.has_bus clock' n.status t' n s m'.stats).node =
      cell' ∙ checked-eq clock' t' m m' n (h'.cell q) s cell same_config same_bus found in
    rw e (
      twice m.config m.has_bus (h.cell q) (state_of t (lookup (h.cell q).id m.node_states)) m.stats
        m'.stats clock clock' t t' restarts resumes started waited fresh budget (h.cell q).status
        refl)
