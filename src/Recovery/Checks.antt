-- ===== src/Recovery/Checks.antt =====
-- internal/recovery/recovery.go, `checkAndRecover`. The health check is one goroutine; what others do to a node between
-- the read of its status and the handler is an argument, `meanwhile`, and so are the readings of the clock.
use chaos_kvs.Base.{ℕ, false, Option, none, some, List, [], ◌∷◌, ◌++◌, String_eq}
use chaos_kvs.Base.Map.{lookup, insert}
use chaos_kvs.Base.Order.{Order}
use chaos_kvs.Events.{Event}
use chaos_kvs.Heap.{Heap, write}
use chaos_kvs.Node.{Node}
use chaos_kvs.Cluster.{Cluster, nodes}
use chaos_kvs.Recovery.{Manager, NodeState}
use chaos_kvs.Recovery.Handlers.{Handled, handle}

-- The state that is tracked, or a new one.
abbrev pub state_of : ℕ → Option NodeState → NodeState
state_of now none = record { last_seen = now; failed_at = 0; retry_count = 0; is_recovered = false }
state_of now (some s) = s

-- What the environment does in a check: readings of the clock, and what others make of the node.
pub record Env : Type 0 where
  pub clock : ℕ → ℕ
  pub meanwhile : Node → Node

abbrev pub handled_by : Env → ℕ → Node → Manager → Handled
handled_by env now n m =
    handle m.config m.has_bus env.clock n.status now (env.meanwhile n)
      (state_of now (lookup n.id m.node_states)) m.stats

unfoldable pub check_node : Env → ℕ → ℕ → Heap → Manager → Heap × Manager × List Event
check_node env now p h m =
    let done = handled_by env now (h.cell p) m in
    (
      write p done.node h,
      record m { node_states = insert (h.cell p).id done.state m.node_states; stats = done.stats },
      done.events,
    )

unfoldable pub check_each : Env → ℕ → List ℕ → Heap → Manager → Heap × Manager × List Event
check_each env now [] h m = (h, m, [])
check_each env now (p ∷ ps) h m =
    let (h', m', events) = check_node env now p h m in
    let (h'', m'', more) = check_each env now ps h' m' in (h'', m'', events ++ more)

unfoldable pub check_and_recover :
    Env → Order → ℕ → Cluster → Heap → Manager → Heap × Manager × List Event
unfolding check_each
check_and_recover env o now c h m = check_each env now (nodes o c) h m
