-- ===== src/Scenario.antt =====
-- internal/scenario/scenario.go and presets.go: what a scenario is configured with. Durations are in nanoseconds.
pub mod Presets
pub mod Engine
pub mod Report
use chaos_kvs.Base.{
  Bool, true, false, Option, List, [], ◌∷◌, String, String_eq, ℤ, pos, if◌then◌else◌,
}
use chaos_kvs.Base.Map.{lookup}
use chaos_kvs.Metrics.{Float}
use chaos_kvs.Chaos.{AttackType, attack_kill, attack_suspend, attack_delay}

module _ (float : Float) where
  open float use {F, zero_float, half, three_tenths}

  pub record Config : Type 0 where
    pub name : String
    pub description : String
    pub duration : ℤ
    pub node_count : ℤ
    pub client_workers : ℤ
    pub write_ratio : F
    pub enable_chaos : Bool
    pub chaos_interval : ℤ
    pub chaos_targets : ℤ
    pub attack_types : List AttackType
    pub enable_recovery : Bool
    pub recovery_delay : ℤ
    pub max_retries : ℤ

  unfoldable pub default_config : Config
  default_config = record {
    name = "default";
    description = "Default scenario";
    duration = pos 10000000000;
    node_count = pos 5;
    client_workers = pos 10;
    write_ratio = half;
    enable_chaos = true;
    chaos_interval = pos 2000000000;
    chaos_targets = pos 1;
    attack_types = attack_kill ∷ attack_suspend ∷ attack_delay ∷ [];
    enable_recovery = true;
    recovery_delay = pos 1000000000;
    max_retries = pos 3;
  }

  -- The zero value.
  unfoldable pub no_config : Config
  no_config = record {
    name = "";
    description = "";
    duration = pos 0;
    node_count = pos 0;
    client_workers = pos 0;
    write_ratio = zero_float;
    enable_chaos = false;
    chaos_interval = pos 0;
    chaos_targets = pos 0;
    attack_types = [];
    enable_recovery = false;
    recovery_delay = pos 0;
    max_retries = pos 0;
  }

  -- A field that a preset does not name has its zero value.
  unfoldable pub basic_scenario : Config
  unfolding no_config
  basic_scenario = record no_config {
    name = "basic";
    description = "Basic load test without chaos injection";
    duration = pos 10000000000;
    node_count = pos 3;
    client_workers = pos 10;
    write_ratio = half;
    enable_chaos = false;
    enable_recovery = false;
  }

  unfoldable pub resilience_scenario : Config
  resilience_scenario = record {
    name = "resilience";
    description = "Resilience test with node kills and recovery";
    duration = pos 15000000000;
    node_count = pos 5;
    client_workers = pos 10;
    write_ratio = half;
    enable_chaos = true;
    chaos_interval = pos 3000000000;
    chaos_targets = pos 1;
    attack_types = attack_kill ∷ [];
    enable_recovery = true;
    recovery_delay = pos 1000000000;
    max_retries = pos 3;
  }

  unfoldable pub latency_scenario : Config
  latency_scenario = record {
    name = "latency";
    description = "Latency injection test";
    duration = pos 10000000000;
    node_count = pos 3;
    client_workers = pos 10;
    write_ratio = half;
    enable_chaos = true;
    chaos_interval = pos 2000000000;
    chaos_targets = pos 1;
    attack_types = attack_delay ∷ [];
    enable_recovery = true;
    recovery_delay = pos 500000000;
    max_retries = pos 0;
  }

  unfoldable pub stress_scenario : Config
  stress_scenario = record {
    name = "stress";
    description = "High load stress test with multiple attack types";
    duration = pos 20000000000;
    node_count = pos 7;
    client_workers = pos 50;
    write_ratio = three_tenths;
    enable_chaos = true;
    chaos_interval = pos 2000000000;
    chaos_targets = pos 2;
    attack_types = attack_kill ∷ attack_suspend ∷ attack_delay ∷ [];
    enable_recovery = true;
    recovery_delay = pos 500000000;
    max_retries = pos 5;
  }

  unfoldable pub quick_scenario : Config
  quick_scenario = record {
    name = "quick";
    description = "Quick test for verification";
    duration = pos 5000000000;
    node_count = pos 3;
    client_workers = pos 5;
    write_ratio = half;
    enable_chaos = true;
    chaos_interval = pos 1000000000;
    chaos_targets = pos 1;
    attack_types = attack_suspend ∷ [];
    enable_recovery = true;
    recovery_delay = pos 500000000;
    max_retries = pos 2;
  }

  unfoldable pub presets : List (String × Config)
  unfolding basic_scenario resilience_scenario latency_scenario stress_scenario quick_scenario
  presets =
      ("basic", basic_scenario)
      ∷ ("resilience", resilience_scenario)
      ∷ ("latency", latency_scenario)
      ∷ ("stress", stress_scenario)
      ∷ ("quick", quick_scenario)
      ∷ []

  unfoldable pub get_preset : String → Option Config
  unfolding presets
  get_preset name = lookup name presets

unfoldable pub list_presets : List String
list_presets = "basic" ∷ "resilience" ∷ "latency" ∷ "stress" ∷ "quick" ∷ []
