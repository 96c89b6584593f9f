-- ===== src/Scenario/Presets.antt =====
-- internal/scenario/presets.go: which presets there are.
pub mod Runnable
use chaos_kvs.Base.{
  ◌≡◌, Bool, ◌||◌, some, List, [], ◌∷◌, String, String_eq, ◌==◌, if◌then◌else◌, arith, false,
}
use text.Mathlib.TextEquality.{eq_iff}
use mathlib.Core.Option
use chaos_kvs.Base.{none}
use chaos_kvs.Base.Map.{lookup}
use chaos_kvs.Metrics.{Float}
use chaos_kvs.Scenario.{
  get_preset, presets, list_presets, basic_scenario, resilience_scenario, latency_scenario,
  stress_scenario, quick_scenario, no_config,
}

abbrev pub among : String → List String → Bool
among name [] = false
among name (n ∷ ns) = n == name || among name ns

-- There is a preset of a name exactly if the list of presets names it, and it goes by that name.
pub get_preset_lem :
    (float : Float) (name : String)
    → Option.map (λ c. c.name) (get_preset float name)
      ≡ (if among name list_presets then some name else none)
unfolding get_preset presets list_presets lookup basic_scenario resilience_scenario latency_scenario
    stress_scenario quick_scenario no_config
get_preset_lem float name = ground (
  arith,
  eq_iff "basic" name,
  eq_iff "resilience" name,
  eq_iff "latency" name,
  eq_iff "stress" name,
  eq_iff "quick" name,
)
