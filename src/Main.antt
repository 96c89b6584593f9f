-- ===== src/Main.antt =====
-- cmd/chaos-kvs/main.go, buildScenarioConfig: the scenario that the flags ask for. The file that LoadFile
-- reads is an argument.
pub mod Building
pub mod Program
use chaos_kvs.Base.{
  Bool, String, String_eq, ℤ, pos, ltb_ℤ, Option, none, some, ◌==◌, not, ◌⊎◌, inl, inr,
  if◌then◌else◌,
}
use chaos_kvs.Metrics.{Float}
use chaos_kvs.Config.{FileConfig, ConfigError, Result, ok, failed, validate, to_scenario_config}
use chaos_kvs.Scenario.{Config, get_preset, quick_scenario}

pub data BuildError : Type 0 where
  cannot_load is_invalid cannot_convert : ConfigError → BuildError
  unknown_preset : String → BuildError

-- The flags but for those that only print or serve.
pub record Flags : Type 0 where
  pub config_file : String
  pub preset_name : String
  pub duration : ℤ
  pub nodes : ℤ
  pub workers : ℤ
  pub enable_chaos : Bool
  pub enable_recovery : Bool

module _ (float : Float) (parse_duration : String → Option ℤ) (to_lower : String → String) where
  from_file : Result (FileConfig float) → BuildError ⊎ Config float
  unfolding validate to_scenario_config
  from_file (failed e) = inl (cannot_load e)
  from_file (ok f) = elim (validate float f) [
    | failed e ↦ inl (is_invalid e)
    | ok _ ↦ elim (to_scenario_config float parse_duration to_lower f) [
      | failed e ↦ inl (cannot_convert e)
      | ok c ↦ inr c
    ]
  ]

  from_preset : String → BuildError ⊎ Config float
  unfolding get_preset
  from_preset name = elim (get_preset float name) [
    | none ↦ inl (unknown_preset name)
    | some c ↦ inr c
  ]

  override : Flags → Config float → Config float
  override flags c = record c {
    duration = if ltb_ℤ (pos 0) flags.duration then flags.duration else c.duration;
    node_count = if ltb_ℤ (pos 0) flags.nodes then flags.nodes else c.node_count;
    client_workers = if ltb_ℤ (pos 0) flags.workers then flags.workers else c.client_workers;
    enable_chaos = flags.enable_chaos;
    enable_recovery = flags.enable_recovery;
  }

  chosen : Result (FileConfig float) → Flags → BuildError ⊎ Config float
  unfolding from_file from_preset quick_scenario
  chosen loaded flags =
      if not (flags.config_file == "")
      then from_file loaded
      else if not (flags.preset_name == "")
      then from_preset flags.preset_name
      else inr (quick_scenario float)

  unfoldable pub build_scenario_config :
      Result (FileConfig float) → Flags → BuildError ⊎ Config float
  unfolding chosen override
  build_scenario_config loaded flags = elim (chosen loaded flags) [
    | inl e ↦ inl e
    | inr c ↦ inr (override flags c)
  ]
