-- ===== src/Scenario/Engine/Running.antt =====
-- internal/scenario/scenario.go, Run: the setup, the starts of the parts, what they do until the time is up, the
-- results and the teardown, with the branches on which it ends earlier.
pub mod Completion
use chaos_kvs.Scenario.Engine.Activity.{Activity, act_all}
use chaos_kvs.Base.{
  List, ℕ, Bool, true, false, Option, none, some, String, ◌⊎◌, inl, inr, if◌then◌else◌,
}
use mathlib.Core.Option
use chaos_kvs.Base.Order.{Order, OrderOf}
use chaos_kvs.Heap.{Heap}
use chaos_kvs.Metrics.{Float}
use chaos_kvs.Metrics
use chaos_kvs.Client
use chaos_kvs.Scenario.Engine.{Engine, EngineError, already_running, setup, start_parts, teardown}
use chaos_kvs.Scenario.Engine.Results.{Result, collect_results}

module _ (float : Float) where
  -- What the runtime and the other goroutines decide in a run: `lapse` is what the goroutines of the parts do until the
  -- time is up, and `late` what they do from then on until the teardown.
  pub record Env : Type 0 where
    pub num_cpu : ℕ
    pub setup_time : ℕ
    pub start_time : ℕ
    pub end_time : ℕ
    pub cancelled : Bool
    pub start_order : Order
    pub lapse : List (Activity float)
    pub drift : ℕ → Metrics.Metrics → Metrics.Metrics
    pub clock : ℕ → ℕ
    pub status_order : Order
    pub late : List (Activity float)
    pub wait : Client.Client float → Client.Client float
    pub resume_order : OrderOf (String × ℕ)
    pub stop_order : Order

  run_torn_down :
      Env
      → Result float
      → Option (Heap × Engine float)
      → Option (Heap × Engine float × (EngineError ⊎ Result float))
  unfolding teardown
  run_torn_down env r none = none
  run_torn_down env r (some (h, e)) =
      Option.map (λ t. (t.0, record t.1 { running = false }, inr r))
        (teardown float env.wait env.resume_order env.stop_order h e)

  run_ended :
      Env
      → Heap
      → Engine float
      → Option (Result float)
      → Option (Heap × Engine float × (EngineError ⊎ Result float))
  unfolding run_torn_down act_all
  run_ended env h e none = none
  run_ended env h e (some r) = run_torn_down env r (act_all float env.late h e)

  -- The results, once the time is up.
  run_result :
      Env
      → Option (Heap × Engine float)
      → Option (Heap × Engine float × (EngineError ⊎ Result float))
  unfolding run_ended collect_results
  run_result env none = none
  run_result env (some (h, e)) =
      run_ended env h e
        (collect_results float env.drift env.clock env.start_time env.end_time env.status_order h e)

  run_lapse :
      Env → Heap → Engine float → Option (Heap × Engine float × (EngineError ⊎ Result float))
  unfolding run_result act_all
  run_lapse env h e = run_result env (act_all float env.lapse h e)

  run_started :
      Env
      → Heap
      → Option (Engine float)
      → Option (Heap × Engine float × (EngineError ⊎ Result float))
  unfolding run_lapse
  run_started env h none = none
  run_started env h (some e) = run_lapse env h e

  run_set_up :
      Env
      → Heap
      → Engine float
      → Option EngineError
      → Option (Heap × Engine float × (EngineError ⊎ Result float))
  unfolding run_started start_parts
  run_set_up env h e none = run_started env h (start_parts float env.cancelled e)
  run_set_up env h e (some x) = some (h, record e { running = false }, inl x)

  -- `none` is a panic, which ends the program.
  unfoldable pub run :
      Env → Heap → Engine float → Option (Heap × Engine float × (EngineError ⊎ Result float))
  unfolding setup run_set_up
  run env h e =
      if e.running
      then some (h, e, inl already_running)
      else (let (h', e', refused) =
            setup float env.num_cpu env.setup_time env.start_order h
              (record e { running = true }) in
          run_set_up env h' e' refused)
