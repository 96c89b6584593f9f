-- ===== src/Recovery/Faults.antt =====
-- internal/recovery/recovery.go: what its book-keeping gets wrong.
use chaos_kvs.Base.{
  ℕ, ◌+◌, ◌≡◌, ◌≢◌, Bool, true, false, arith, ltb_ℤ, pos, negsuc, time_sub, incr, u64, String_eq,
}
use chaos_kvs.Node.{stopped, running, suspended, Node, start, resume, set_delay}
use chaos_kvs.Recovery.{Config, NodeState, Stats}
use chaos_kvs.Recovery.Handlers.{Handled, handle}
use chaos_kvs.Recovery.Handling.{Due, HasBudget}

-- Several checks of one node, each with what it then is, the statistics kept by nobody else.
module _ (config : Config) (has_bus : Bool) (clock : ℕ → ℕ) where
  abbrev pub check : ℕ → Node → NodeState → Stats → Handled
  check now n state stats = handle config has_bus clock n.status now n state stats

  -- With resumption on, a suspended node that is due and not yet marked as recovered is resumed; that counts as a
  -- success when it is made, and again when the node is next seen running, but once as a recovery.
  pub resumption_counted_twice :
      (t t' : ℕ) (n : Node) (state : NodeState) (stats : Stats)
      → config.auto_resume ≡ true
      → n.status ≡ suspended
      → Due config t state
      → state.is_recovered ≡ false
      → let d = check t n state stats in
        let d' = check t' d.node d.state d.stats in
        (d.node.status ≡ running)
        × (d'.stats.success_recoveries ≡ u64 (u64 (stats.success_recoveries + 1) + 1))
        × (d'.stats.total_recoveries ≡ u64 (stats.total_recoveries + 1))
  unfolding handle resume set_delay
  resumption_counted_twice t t' n state stats auto asleep due not_yet = ground arith

  -- A restart counts once, at the check that sees the node running.
  pub restart_counted_once :
      (t t' : ℕ) (n : Node) (state : NodeState) (stats : Stats)
      → config.auto_restart ≡ true
      → n.status ≡ stopped
      → Due config t state
      → HasBudget config state
      → state.is_recovered ≡ false
      → let d = check t n state stats in
        let d' = check t' d.node d.state d.stats in
        (d.node.status ≡ running)
        × (d.stats.success_recoveries ≡ stats.success_recoveries)
        × (d'.stats.success_recoveries ≡ u64 (stats.success_recoveries + 1))
        × (d'.stats.total_recoveries ≡ u64 (stats.total_recoveries + 1))
  unfolding handle start set_delay
  restart_counted_once t t' n state stats auto down due budget not_yet = ground arith

  -- With restarts on and left, a stopped node of which no failure was noted, and that others start again after its
  -- stop was noticed, keeps its `FailedAt` and its count among the currently failed; when it has stopped again at a
  -- check at least the recovery delay after the first, that check restarts it.
  pub stale_failure :
      (t t' t'' : ℕ) (n up down : Node) (state : NodeState) (stats : Stats)
      → config.auto_restart ≡ true
      → n.status ≡ stopped
      → up.status ≡ running
      → down.status ≡ stopped
      → t ≢ 0
      → state.failed_at ≡ 0
      → state.retry_count ≡ 0
      → HasBudget config state
      → ltb_ℤ (time_sub t'' t) config.recovery_delay ≡ false
      → let d = check t n state stats in
        let d' = check t' up d.state d.stats in
        let d'' = check t'' down d'.state d'.stats in
        (d'.stats.currently_failed ≡ incr stats.currently_failed) × (d''.node.status ≡ running)
  unfolding handle start set_delay
  stale_failure t t' t'' n up down state stats auto a b c started fresh untried budget waited =
      ground arith

  -- A node that is seen suspended first is not counted among the currently failed, but its restart
  -- takes it from them: a count of 0 becomes -1.
  pub currently_failed_negative :
      (t t' : ℕ) (n down : Node) (state : NodeState) (stats : Stats)
      → config.auto_restart ≡ true
      → config.auto_resume ≡ true
      → n.status ≡ suspended
      → down.status ≡ stopped
      → t ≢ 0
      → state.failed_at ≡ 0
      → HasBudget config state
      → ltb_ℤ (time_sub t' t) config.recovery_delay ≡ false
      → stats.currently_failed ≡ pos 0
      → let d = check t n state stats in
        (d.stats.currently_failed ≡ pos 0)
        × ((check t' down d.state d.stats).stats.currently_failed ≡ negsuc 0)
  unfolding handle start set_delay
  currently_failed_negative t t' n down state stats auto auto' a b started fresh budget waited
        zeroed =
      ground arith
