-- ===== src/Chaos/History.antt =====
-- internal/chaos/chaos.go: the calls of a monkey and the ticks of its two loops, one after the other.
use chaos_kvs.Base.{ℕ, Option, none, some, List, [], ◌∷◌, String, String_eq, ℤ, if◌then◌else◌}
use mathlib.Core.Option
use chaos_kvs.Base.Order.{OrderOf}
use chaos_kvs.Heap.{Heap}
use chaos_kvs.Cluster.{Cluster}
use chaos_kvs.Chaos.{Config, Monkey, set_config, start}
use chaos_kvs.Chaos.Injection.{Chance, attack}
use chaos_kvs.Chaos.Suspensions.{check_and_resume, stop_monkey}

-- A call of the monkey or a tick of one of its loops, with the cluster and the heap that it meets.
pub data Call : Type 0 where
  starts : Call
  stops : OrderOf (String × ℕ) → Cluster → Heap → Call
  configures : Config → Call
  attacks : (ℤ → String) → Chance → Cluster → Heap → Call
  sweeps : OrderOf (String × ℕ) → ℕ → (ℕ → ℕ) → Cluster → Heap → Call

-- `none` is a panic, which ends the program.
unfoldable pub step : Call → Monkey → Option Monkey
unfolding start stop_monkey set_config attack check_and_resume
step starts m = start m
step (stops o c h) m = some (stop_monkey o c h m).1
step (configures config) m = some (set_config config m)
step (attacks duration_string chance c h) m =
    if m.running then Option.map (λ r. r.1) (attack duration_string chance c h m) else some m
step (sweeps o now clock c h) m =
    if m.resuming then some (check_and_resume o now clock c h m).1 else some m

unfoldable pub run : List Call → Monkey → Option Monkey
run [] m = some m
run (c ∷ cs) m = elim (step c m) [ none ↦ none | some m' ↦ run cs m' ]
