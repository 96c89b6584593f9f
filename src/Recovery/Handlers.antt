-- ===== src/Recovery/Handlers.antt =====
-- internal/recovery/recovery.go: what a check does to a node that runs, that is stopped or that is suspended.
use chaos_kvs.Base.{
  ℕ, ◌+◌, Bool, false, not, ◌&&◌, none, some, List, [], ◌++◌, String_eq, pos, ltb_ℤ, leb_ℤ,
  time_sub, incr, decr, u64, ltb, nat_eq, if◌then◌else◌,
}
use chaos_kvs.Events.{
  Event, new_recovery_start_event, new_recovery_success_event, new_recovery_failed_event,
}
use chaos_kvs.Node.{
  Node, Status, stopped, running, suspended, error_string, start, resume, set_delay,
}
use chaos_kvs.Recovery.{Config, NodeState, Stats, publish_event}

-- What a handler works on: the node, its tracked state and the statistics; and the events.
pub record Handled : Type 0 where
  pub node : Node
  pub state : NodeState
  pub stats : Stats
  pub events : List Event

module _ (config : Config) (has_bus : Bool) (clock : ℕ → ℕ) where
  handle_running_node : ℕ → Node → NodeState → Stats → Handled
  handle_running_node now n state stats =
      let should_publish = not state.is_recovered && ltb 0 state.retry_count in
      record {
        node = if config.clear_delay && ltb_ℤ (pos 0) n.delay then set_delay (pos 0) n else n;
        state = record state { last_seen = now; retry_count = 0; is_recovered = false };
        stats =
            if should_publish
            then record stats { success_recoveries = u64 (stats.success_recoveries + 1) }
            else stats;
        events =
            if should_publish
            then publish_event has_bus (new_recovery_success_event (clock 0) n.id)
            else [];
      }

  -- The restart, with the state and the statistics as the attempt left them.
  restart : Node → NodeState → Stats → Handled
  restart n state stats =
      let (n', refused) = start n in
      elim refused [
        | some e ↦ record {
          node = n';
          state = state;
          stats = record stats { failed_recoveries = u64 (stats.failed_recoveries + 1) };
          events =
              publish_event has_bus (new_recovery_start_event (clock 0) n.id state.retry_count)
              ++ publish_event has_bus
                  (new_recovery_failed_event (clock 1) n.id (some (error_string n.id e)));
        }
        | none ↦ record {
          node = n';
          state = record state { failed_at = 0 };
          stats = record stats { currently_failed = decr stats.currently_failed };
          events =
              publish_event has_bus (new_recovery_start_event (clock 0) n.id state.retry_count);
        }
      ]

  handle_stopped_node : ℕ → Node → NodeState → Stats → Handled
  unfolding restart
  handle_stopped_node now n state stats =
      let idle : Handled = record { node = n; state = state; stats = stats; events = [] } in
      if not config.auto_restart
      then idle
      else if nat_eq state.failed_at 0
      then record idle {
        state = record state { failed_at = now };
        stats = record stats { currently_failed = incr stats.currently_failed };
      }
      else if ltb_ℤ (time_sub now state.failed_at) config.recovery_delay
      then idle
      else if ltb_ℤ (pos 0) config.max_retries && leb_ℤ config.max_retries (pos state.retry_count)
      then idle
      else restart n (record state { retry_count = state.retry_count + 1; failed_at = now })
          (record stats { total_recoveries = u64 (stats.total_recoveries + 1) })

  resume_node : Node → NodeState → Stats → Handled
  resume_node n state stats =
      let (n', refused) = resume n in
      elim refused [
        | some e ↦ record {
          node = n';
          state = state;
          stats = record stats { failed_recoveries = u64 (stats.failed_recoveries + 1) };
          events =
              publish_event has_bus (new_recovery_start_event (clock 0) n.id state.retry_count)
              ++ publish_event has_bus
                  (new_recovery_failed_event (clock 1) n.id (some (error_string n.id e)));
        }
        | none ↦ record {
          node = n';
          state = state;
          stats = record stats { success_recoveries = u64 (stats.success_recoveries + 1) };
          events =
              publish_event has_bus (new_recovery_start_event (clock 0) n.id state.retry_count)
              ++ publish_event has_bus (new_recovery_success_event (clock 1) n.id);
        }
      ]

  handle_suspended_node : ℕ → Node → NodeState → Stats → Handled
  unfolding resume_node
  handle_suspended_node now n state stats =
      let idle : Handled = record { node = n; state = state; stats = stats; events = [] } in
      if not config.auto_resume
      then idle
      else if nat_eq state.failed_at 0
      then record idle { state = record state { failed_at = now } }
      else if ltb_ℤ (time_sub now state.failed_at) config.recovery_delay
      then idle
      else resume_node n (record state { retry_count = state.retry_count + 1; failed_at = 0 })
          (record stats { total_recoveries = u64 (stats.total_recoveries + 1) })

  -- The `switch` on the status that was read.
  unfoldable pub handle : Status → ℕ → Node → NodeState → Stats → Handled
  unfolding handle_running_node handle_stopped_node handle_suspended_node
  handle running now n state stats = handle_running_node now n state stats
  handle stopped now n state stats = handle_stopped_node now n state stats
  handle suspended now n state stats = handle_suspended_node now n state stats
