-- ===== src/Main/Building.antt =====
-- cmd/chaos-kvs/main.go, buildScenarioConfig: what the flags decide.
use chaos_kvs.Base.{
  refl, not, ◌||◌, ℕ, ◌≡◌, ap, ◌∙◌, Bool, true, false, Option, String, String_eq, ℤ, pos, ltb_ℤ,
  ◌⊎◌, inl, inr, arith,
}
use chaos_kvs.Base.Map.{is_some, lookup}
use chaos_kvs.Metrics.{Float}
use chaos_kvs.Config.{FileConfig, Result}
use chaos_kvs.Scenario.{Config, basic_scenario, get_preset, presets, no_config}
use chaos_kvs.Scenario.Engine.{new, start_parts, prepared}
use chaos_kvs.Scenario.Engine.Setup.{start_parts_lem}
use chaos_kvs.Cluster.{Cluster}
use chaos_kvs.Main.{Flags, BuildError, build_scenario_config, from_preset, override, chosen}

overridden :
    (float : Float) (parse_duration : String → Option ℤ) (to_lower : String → String)
    (flags : Flags) (c : Config float) (r : BuildError ⊎ Config float)
    → elim r as (λ _. BuildError ⊎ Config float) [
      | inl x ↦ inl x
      | inr d ↦ inr (override float parse_duration to_lower flags d)
    ]
      ≡ inr c
    → (ltb_ℤ (pos 0) flags.duration ≡ true → c.duration ≡ flags.duration)
      × (ltb_ℤ (pos 0) flags.nodes ≡ true → c.node_count ≡ flags.nodes)
      × (ltb_ℤ (pos 0) flags.workers ≡ true → c.client_workers ≡ flags.workers)
      × (c.enable_chaos ≡ flags.enable_chaos)
      × (c.enable_recovery ≡ flags.enable_recovery)
unfolding override
overridden float parse_duration to_lower flags c (inl x) e = ground (arith, e)
overridden float parse_duration to_lower flags c (inr d) e = ground (arith, e)

-- Wherever the scenario comes from, a duration, a number of nodes or a number of workers that is positive
-- replaces its own, and the two switches always do, given or not.
pub build_scenario_config_lem :
    (float : Float) (parse_duration : String → Option ℤ) (to_lower : String → String)
    (loaded : Result (FileConfig float)) (flags : Flags) (c : Config float)
    → build_scenario_config float parse_duration to_lower loaded flags ≡ inr c
    → (ltb_ℤ (pos 0) flags.duration ≡ true → c.duration ≡ flags.duration)
      × (ltb_ℤ (pos 0) flags.nodes ≡ true → c.node_count ≡ flags.nodes)
      × (ltb_ℤ (pos 0) flags.workers ≡ true → c.client_workers ≡ flags.workers)
      × (c.enable_chaos ≡ flags.enable_chaos)
      × (c.enable_recovery ≡ flags.enable_recovery)
unfolding build_scenario_config override
build_scenario_config_lem float parse_duration to_lower loaded flags c e =
    overridden float parse_duration to_lower flags c
      (chosen float parse_duration to_lower loaded flags) e

basic_chosen :
    (float : Float) (parse_duration : String → Option ℤ) (to_lower : String → String)
    (loaded : Result (FileConfig float)) (flags : Flags)
    → flags.config_file ≡ ""
    → flags.preset_name ≡ "basic"
    → chosen float parse_duration to_lower loaded flags ≡ inr (basic_scenario float)
unfolding chosen from_preset get_preset presets lookup
basic_chosen float parse_duration to_lower loaded flags no_file basic =
    ap (λ f. chosen float parse_duration to_lower loaded (record flags { config_file = f })) no_file
    ∙ ap
        (λ p.
          chosen float parse_duration to_lower loaded
            (record flags { config_file = ""; preset_name = p }))
        basic

no_interval :
    (float : Float) (parse_duration : String → Option ℤ) (to_lower : String → String)
    (flags : Flags)
    → flags.enable_chaos ≡ true
    → let c = override float parse_duration to_lower flags (basic_scenario float) in
      (not c.enable_chaos || ltb_ℤ (pos 0) c.chaos_interval) ≡ false
unfolding override basic_scenario no_config
no_interval float parse_duration to_lower flags chaos = ground arith

-- The preset without chaos, with the switch for chaos at its default, gets no interval between attacks: the
-- scenario is built, and its parts do not start, since the ticker of the monkey panics.
pub basic_preset_panics :
    (float : Float) (parse_duration : String → Option ℤ) (to_lower : String → String)
    (loaded : Result (FileConfig float)) (flags : Flags) (num_cpu now : ℕ) (cancelled : Bool)
    (cluster : Cluster)
    → flags.config_file ≡ ""
    → flags.preset_name ≡ "basic"
    → flags.enable_chaos ≡ true
    → (c : Config float) × (build_scenario_config float parse_duration to_lower loaded flags
        ≡ inr c)
      × (is_some (start_parts float cancelled (prepared float num_cpu now cluster (new float c)))
          ≡ false)
unfolding build_scenario_config new
basic_preset_panics float parse_duration to_lower loaded flags num_cpu now cancelled cluster no_file
      basic chaos =
    (
      override float parse_duration to_lower flags (basic_scenario float),
      ap
          (λ r. elim r as (λ _. BuildError ⊎ Config float) [
            | inl x ↦ inl x
            | inr d ↦ inr (override float parse_duration to_lower flags d)
          ])
          (basic_chosen float parse_duration to_lower loaded flags no_file basic),
      start_parts_lem float num_cpu now cancelled cluster
            (new float (override float parse_duration to_lower flags (basic_scenario float))) refl
            refl
          ∙ no_interval float parse_duration to_lower flags chaos,
    )
