-- ===== src/Main/Program/Completion.antt =====
-- cmd/chaos-kvs/main.go: the program ends with a report and the status 0.
use chaos_kvs.Base.{
  ℕ, ◌≡◌, ap, ◌∙◌, Bool, true, not, ◌||◌, ◌&&◌, Option, some, String, String_eq, pos, ltb_ℤ, inr,
  arith,
}
use mathlib.Core.Option
use chaos_kvs.Metrics.{Float}
use chaos_kvs.Config.{Result as FileResult}
use chaos_kvs.Logger.{Logger}
use chaos_kvs.Scenario.{Config}
use chaos_kvs.Scenario.Presets.Runnable.{is_runnable}
use chaos_kvs.Heap.{Heap}
use chaos_kvs.Scenario.Engine.{Engine, new}
use chaos_kvs.Scenario.Engine.Running.{run}
use chaos_kvs.Scenario.Engine.Results.{Result}
use chaos_kvs.Scenario.Engine.Running.Completion.{run_finished, KeepsOpen}
use chaos_kvs.Scenario.Report.{report}
use chaos_kvs.Main.{build_scenario_config}
use chaos_kvs.Main.Program.{
  Options, Surroundings, print, print_lines, banner, main, exit_built, exit_run, run_scenario,
  reported,
}

-- No flag that only prints or serves is given.
abbrev pub runs_scenario : Options → Bool
runs_scenario o = not (o.show_version || o.list_presets || o.server_mode)

main_value :
    (float : Float) (s : Surroundings float) (o : Options) (l : Logger)
    → runs_scenario o ≡ true
    → main float s o l
      ≡ exit_built float s l
          (build_scenario_config float s.parse_duration s.to_lower s.loaded o.flags)
unfolding main
main_value float s o l h = ground (arith, h)

-- Where the flags give a scenario with a number of nodes that is not negative and, if chaos is enabled, a positive
-- interval and no negative number of targets, and no goroutine closes the channel of the pool while the client's Stop
-- waits for them, the program prints the heading and the report of a result, and its exit status is 0.
pub main_finished :
    (float : Float) (s : Surroundings float) (o : Options) (l : Logger) (c : Config float)
    (count : ℕ)
    → runs_scenario o ≡ true
    → build_scenario_config float s.parse_duration s.to_lower s.loaded o.flags ≡ inr c
    → c.node_count ≡ pos count
    → is_runnable float c ≡ true
    → KeepsOpen float s.env
    → (h' : Heap) × (e' : Engine float) × (r : Result float) × (run float s.env s.heap (new float c)
        ≡ some (h', e', inr r))
      × (main float s o l
          ≡ some (
            print
                (report float s.formats s.status_order r)
                (print_lines (banner float s.formats c) l),
            0,
          ))
unfolding exit_built run_scenario reported exit_run
main_finished float s o l c count h built nodes runnable keeps =
    let (h', e', r, done, _, _, _) = run_finished float s.env s.heap c count nodes runnable keeps in
    (
      h',
      e',
      r,
      done,
      main_value float s o l h
          ∙ ap (exit_built float s l) built
          ∙ ap
              (λ x. Option.map (exit_run float s) (
                Option.map
                  (λ y.
                    reported float s.formats s.status_order
                      (print_lines (banner float s.formats c) l) y.2)
                  x))
              done,
    )

-- The presets with chaos, and no preset at all, which stands for the quick one.
pub data IsChaosPreset : String → Type 0 where
  none_named : IsChaosPreset ""
  resilience : IsChaosPreset "resilience"
  latency : IsChaosPreset "latency"
  stress : IsChaosPreset "stress"
  quick : IsChaosPreset "quick"

-- What matters of such a preset for its run.
IsStartable : (float : Float) → Config float → Type 0
IsStartable float c =
    ((count : ℕ) × (c.node_count ≡ pos count))
    × ((ltb_ℤ (pos 0) c.chaos_interval && not (ltb_ℤ c.chaos_targets (pos 0))) ≡ true)
