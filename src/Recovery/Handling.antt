-- ===== src/Recovery/Handling.antt =====
-- internal/recovery/recovery.go: when the health check acts on a node, and what comes of it.
use chaos_kvs.Base.{
  ℕ, ◌+◌, ◌≡◌, ◌≢◌, Bool, true, false, ◌&&◌, [], arith, leb_ℤ, ltb_ℤ, pos, time_sub, decr, u64, ◌⊎◌,
}
use chaos_kvs.Node.{Status, stopped, running, suspended, Node, start, resume, set_delay}
use chaos_kvs.Recovery.{Config, NodeState, Stats}
use chaos_kvs.Recovery.Handlers.{Handled, handle}

-- The wait after a failure is over.
abbrev pub Due : Config → ℕ → NodeState → Type 0
Due config now state =
    (state.failed_at ≢ 0) × (ltb_ℤ (time_sub now state.failed_at) config.recovery_delay ≡ false)

-- There are restarts left; a limit that is not positive is none.
abbrev pub HasBudget : Config → NodeState → Type 0
HasBudget config state =
    (ltb_ℤ (pos 0) config.max_retries && leb_ℤ config.max_retries (pos state.retry_count)) ≡ false

module _ (config : Config) (has_bus : Bool) (clock : ℕ → ℕ) (now : ℕ) (n : Node) (state : NodeState)
    (stats : Stats) where
  abbrev at : Status → Handled
  at seen = handle config has_bus clock seen now n state stats

  -- Unless the wait is over and a restart is left, a stopped node stays as it is; and so does one that
  -- was suspended, but that the number of resumptions has no limit.
  pub stopped_node_left :
      (config.auto_restart ≡ false) ⊎ ((¬ Due config now state) ⊎ (¬ HasBudget config state))
      → ((at stopped).node ≡ n) × ((at stopped).events ≡ [])
  unfolding handle
  stopped_node_left h = ground arith

  pub suspended_node_left :
      (config.auto_resume ≡ false) ⊎ (¬ Due config now state)
      → ((at suspended).node ≡ n) × ((at suspended).events ≡ [])
  unfolding handle
  suspended_node_left h = ground arith

  pub stopped_node_restarted :
      config.auto_restart ≡ true
      → Due config now state
      → HasBudget config state
      → n.status ≢ running
      → ((at stopped).node ≡ (start n).0)
        × ((at stopped).node.status ≡ running)
        × ((at stopped).node.contents ≡ n.contents)
        × ((at stopped).state.failed_at ≡ 0)
        × ((at stopped).state.retry_count ≡ state.retry_count + 1)
        × ((at stopped).stats ≡ record stats {
          total_recoveries = u64 (stats.total_recoveries + 1);
          currently_failed = decr stats.currently_failed;
        })
  unfolding handle start
  stopped_node_restarted auto due budget down = ground arith

  pub suspended_node_resumed :
      config.auto_resume ≡ true
      → Due config now state
      → n.status ≡ suspended
      → ((at suspended).node ≡ record n { status = running })
        × ((at suspended).state.failed_at ≡ 0)
        × ((at suspended).state.retry_count ≡ state.retry_count + 1)
        × ((at suspended).stats ≡ record stats {
          total_recoveries = u64 (stats.total_recoveries + 1);
          success_recoveries = u64 (stats.success_recoveries + 1);
        })
  unfolding handle resume
  suspended_node_resumed auto due asleep = ground arith

  -- The attempt fails if another goroutine was faster.
  pub restart_refused :
      config.auto_restart ≡ true
      → Due config now state
      → HasBudget config state
      → n.status ≡ running
      → ((at stopped).node ≡ n)
        × ((at stopped).state.failed_at ≡ now)
        × ((at stopped).stats ≡ record stats {
          total_recoveries = u64 (stats.total_recoveries + 1);
          failed_recoveries = u64 (stats.failed_recoveries + 1);
        })
  unfolding handle start
  restart_refused auto due budget up = ground arith

  -- A handler never stops a node, never touches what it stores, and starts or resumes only on the
  -- read of a stopped or suspended status.
  pub handle_keeps :
      (seen : Status)
      → ((at seen).node.contents ≡ n.contents)
        × ((at seen).node.id ≡ n.id)
        × (n.status ≡ running → (at seen).node.status ≡ running)
        × (seen ≡ running → (at seen).node.status ≡ n.status)
  unfolding handle start resume set_delay
  handle_keeps running = ground arith
  handle_keeps stopped = ground arith
  handle_keeps suspended = ground arith
