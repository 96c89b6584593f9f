-- ===== src/Config.antt =====
-- internal/config/config.go: a configuration file as its YAML or JSON decoder leaves it, its validation, and
-- the scenario it describes. The decoders, `time.ParseDuration` and `strings.ToLower` are arguments.
pub mod Reading
pub mod Outcome
use chaos_kvs.Base.{
  Bool, true, false, not, ◌&&◌, ◌||◌, Option, none, some, List, [], ◌∷◌, String, String_eq, ℤ, pos,
  ltb_ℤ, if◌then◌else◌, ◌==◌,
}
use chaos_kvs.Metrics.{Float}
use chaos_kvs.Chaos.{AttackType, attack_kill, attack_suspend, attack_delay}
use chaos_kvs.Scenario
use chaos_kvs.Scenario.{default_config}

pub data ConfigError : Type 0 where
  failed_to_read failed_to_parse_yaml failed_to_parse_json : ConfigError
  unsupported_format : String → ConfigError
  invalid_duration invalid_chaos_interval invalid_recovery_delay : ConfigError
  unknown_attack_type : String → ConfigError
  negative_node_count negative_workers bad_write_ratio negative_targets negative_max_retries :
      ConfigError

-- `(T, error)`
pub data Result (A : Type 0) : Type 0 where
  ok : A → Result A
  failed : ConfigError → Result A

infixl 5 ◌>>=◌ ◌>>◌
abbrev pub ◌>>=◌ : {A B : Type 0} → Result A → (A → Result B) → Result B
ok a >>= f = f a
failed e >>= f = failed e

abbrev pub ◌>>◌ : {B : Type 0} → Result Unit → Result B → Result B
m >> k = m >>= λ _. k

abbrev pub guard : Bool → ConfigError → Result Unit
guard true e = ok tt
guard false e = failed e

pub record ChaosConfig : Type 0 where
  pub enabled : Bool
  pub interval : String
  pub targets : ℤ
  pub attack_types : List String
  pub suspend_time : String
  pub delay_amount : String

pub record RecoveryConfig : Type 0 where
  pub enabled : Bool
  pub delay : String
  pub max_retries : ℤ

abbrev pub attack_named : String → String → Result AttackType
attack_named lower t =
    if lower == "kill"
    then ok attack_kill
    else if lower == "suspend"
    then ok attack_suspend
    else if lower == "delay"
    then ok attack_delay
    else failed (unknown_attack_type t)

unfoldable pub parse_attack_types : (String → String) → List String → Result (List AttackType)
parse_attack_types to_lower [] = ok []
parse_attack_types to_lower (t ∷ ts) = do
  attack ← attack_named (to_lower t) t
  attacks ← parse_attack_types to_lower ts
  ok (attack ∷ attacks)

-- No attack types are the default's.
abbrev pub attack_types_or :
    (String → String) → List String → List AttackType → Result (List AttackType)
attack_types_or to_lower [] default = ok default
attack_types_or to_lower (t ∷ ts) default = parse_attack_types to_lower (t ∷ ts)

-- A duration that is left out is the default's.
abbrev pub parse_or : (String → Option ℤ) → ConfigError → String → ℤ → Result ℤ
parse_or parse_duration e s default =
    if s == "" then ok default else elim (parse_duration s) [ none ↦ failed e | some d ↦ ok d ]

abbrev pub positive_or : ℤ → ℤ → ℤ
positive_or n default = if ltb_ℤ (pos 0) n then n else default

abbrev pub named_or : String → String → String
named_or s default = if s == "" then default else s

module _ (float : Float) where
  open float use {F, zero_float, one, less}

  pub record ClientConfig : Type 0 where
    pub workers : ℤ
    pub write_ratio : F

  pub record FileConfig : Type 0 where
    pub name : String
    pub description : String
    pub duration : String
    pub node_count : ℤ
    pub client : ClientConfig
    pub chaos : ChaosConfig
    pub recovery : RecoveryConfig

  -- What the standard library makes of text.
  unfoldable pub to_scenario_config :
      (String → Option ℤ) → (String → String) → FileConfig → Result (Scenario.Config float)
  unfolding default_config parse_attack_types
  to_scenario_config parse_duration to_lower f =
      let default = default_config float in
      do
        duration ← parse_or parse_duration invalid_duration f.duration default.duration
        interval ←
            parse_or parse_duration invalid_chaos_interval f.chaos.interval default.chaos_interval
        attacks ← attack_types_or to_lower f.chaos.attack_types default.attack_types
        delay ←
            parse_or parse_duration invalid_recovery_delay f.recovery.delay default.recovery_delay
        ok (record {
          name = named_or f.name default.name;
          description = named_or f.description default.description;
          duration = duration;
          node_count = positive_or f.node_count default.node_count;
          client_workers = positive_or f.client.workers default.client_workers;
          write_ratio =
              if less zero_float f.client.write_ratio
              then f.client.write_ratio
              else default.write_ratio;
          enable_chaos = f.chaos.enabled;
          chaos_interval = interval;
          chaos_targets = positive_or f.chaos.targets default.chaos_targets;
          attack_types = attacks;
          enable_recovery = f.recovery.enabled;
          recovery_delay = delay;
          max_retries = positive_or f.recovery.max_retries default.max_retries;
        })

  unfoldable pub validate : FileConfig → Result Unit
  validate f = do
    guard (not (ltb_ℤ f.node_count (pos 0))) negative_node_count
    guard (not (ltb_ℤ f.client.workers (pos 0))) negative_workers
    guard (not (less f.client.write_ratio zero_float || less one f.client.write_ratio))
        bad_write_ratio
    guard (not (ltb_ℤ f.chaos.targets (pos 0))) negative_targets
    guard (not (ltb_ℤ f.recovery.max_retries (pos 0))) negative_max_retries

  -- The file's bytes, if it can be read, and what the two decoders make of them.
  unfoldable pub load_file :
      {Data : Type 0}
      → (String → String)
      → (Data → Option FileConfig)
      → (Data → Option FileConfig)
      → Option Data
      → String
      → Result FileConfig
  load_file to_lower yaml_decode json_decode contents path_ext =
      let ext = to_lower path_ext in
      elim contents [
        | none ↦ failed failed_to_read
        | some contents_read ↦
            if ext == ".yaml" || ext == ".yml"
            then elim (yaml_decode contents_read) [
              | none ↦ failed failed_to_parse_yaml
              | some f ↦ ok f
            ]
            else if ext == ".json"
            then elim (json_decode contents_read) [
              | none ↦ failed failed_to_parse_json
              | some f ↦ ok f
            ]
            else failed (unsupported_format ext)
      ]
