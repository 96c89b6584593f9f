-- ===== src/Scenario/Presets/Runnable.antt =====
-- internal/scenario/presets.go: the preset of a name, or the quick one, can be run.
use chaos_kvs.Base.{
  ℕ, zero, suc, ◌≡◌, refl, sym, subst, true, not, ◌||◌, ◌&&◌, Bool, String, String_eq, ℤ, pos,
  negsuc, ltb_ℤ, inl, inr, if◌then◌else◌, Option-cases, All, arith,
}
use mathlib.Core.Option.{get_or}
use chaos_kvs.Base.Map.{lookup-All}
use chaos_kvs.Metrics.{Float}
use chaos_kvs.Scenario.{
  Config, get_preset, presets, quick_scenario, basic_scenario, resilience_scenario,
  latency_scenario, stress_scenario, no_config,
}

-- A number of nodes that is given replaces that of the preset only if it is positive.
pub overridden_count :
    (given : ℤ) (k : ℕ) → (count : ℕ) × ((if ltb_ℤ (pos 0) given then given else pos k) ≡ pos count)
overridden_count (pos zero) k = (k, refl)
overridden_count (pos (suc n)) k = (suc n, ground arith)
overridden_count (negsuc n) k = (k, ground arith)

-- If chaos is enabled, there is a positive interval between the attacks and no negative number of targets.
abbrev pub is_runnable : (float : Float) → Config float → Bool
is_runnable float config =
    not config.enable_chaos
    || (ltb_ℤ (pos 0) config.chaos_interval && not (ltb_ℤ config.chaos_targets (pos 0)))

module _ (float : Float) where
  -- What of a configuration lets its run come to an end.
  abbrev pub IsRunnable : Config float → Type 0
  IsRunnable c = ((count : ℕ) × (c.node_count ≡ pos count)) × (is_runnable float c ≡ true)

  presets-IsRunnable : All (λ e. IsRunnable e.1) (presets float)
  unfolding presets quick_scenario basic_scenario resilience_scenario latency_scenario
      stress_scenario no_config
  presets-IsRunnable = (
    ((3, refl), refl),
    (((5, refl), refl), (((3, refl), refl), (((7, refl), refl), (((3, refl), refl), tt)))),
  )

  pub chosen-IsRunnable :
      (name : String) → IsRunnable (get_or (get_preset float name) (quick_scenario float))
  unfolding get_preset
  chosen-IsRunnable name = elim (Option-cases (get_preset float name)) [
    | inl absent ↦
        subst (λ o. IsRunnable (get_or o (quick_scenario float))) (sym absent)
          (unfold quick_scenario in ((3, refl), refl))
    | inr (c, found) ↦
        subst (λ o. IsRunnable (get_or o (quick_scenario float))) (sym found)
          (lookup-All (λ d. IsRunnable d) name (presets float) presets-IsRunnable found)
  ]
