-- ===== src/Recovery/History.antt =====
-- internal/recovery/recovery.go: the calls of a manager and the ticks of its health check, one after the other.
use chaos_kvs.Base.{ℕ, List, [], ◌∷◌, ◌++◌, String_eq, if◌then◌else◌}
use chaos_kvs.Base.Order.{Order}
use mathlib.Core.Option.{get_or}
use chaos_kvs.Events.{Event}
use chaos_kvs.Heap.{Heap}
use chaos_kvs.Cluster.{Cluster}
use chaos_kvs.Recovery.{Config, Manager, reset_stats, set_config, start_manager, stop_manager}
use chaos_kvs.Recovery.Checks.{Env, check_and_recover}

-- A call of the manager (one that panics ends the program, and is followed by none), or a tick of its health check, which meets the heap as all the others left it.
pub data Call : Type 0 where
  starts stops resets : Call
  configures : Config → Call
  ticks : Env → Order → ℕ → Cluster → Heap → Call

unfoldable pub step : Call → Manager → Manager × List Event
unfolding start_manager stop_manager reset_stats set_config check_and_recover
step starts m = (get_or (start_manager m) m, [])
step stops m = (stop_manager m, [])
step resets m = (reset_stats m, [])
step (configures config) m = (set_config config m, [])
step (ticks env o now c h) m =
    if m.running
    then (let (h', m', events) = check_and_recover env o now c h m in (m', events))
    else (m, [])

unfoldable pub run : List Call → Manager → Manager × List Event
run [] m = (m, [])
run (c ∷ cs) m = let (m', events) = step c m in let (m'', more) = run cs m' in (m'', events ++ more)
