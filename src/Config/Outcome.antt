-- ===== src/Config/Outcome.antt =====
-- internal/config/config.go: which files ToScenarioConfig refuses, and what it promises of those it accepts.
use chaos_kvs.Base.{
  ◌==◌, ◌≡◌, ◌≢◌, refl, ap, ◌∙◌, Bool, true, false, ◌&&◌, ◌||◌, Option, List, [], ◌∷◌, String,
  String_eq, ℤ, pos, ltb_ℤ, arith, subst,
}
use chaos_kvs.Base.Map.{is_some}
use chaos_kvs.Metrics.{Float}
use chaos_kvs.Chaos.{AttackType}
use chaos_kvs.Scenario
use chaos_kvs.Scenario.{default_config}
use chaos_kvs.Config.{
  Result, ◌>>=◌, ok, failed, ConfigError, attack_named, parse_attack_types, attack_types_or,
  parse_or, positive_or, FileConfig, to_scenario_config,
}

abbrev pub is_ok : {A : Type 0} → Result A → Bool
is_ok (ok a) = true
is_ok (failed e) = false

-- A duration that is left out or that `ParseDuration` reads.
abbrev pub reads : (String → Option ℤ) → String → Bool
reads parse_duration s = s == "" || is_some (parse_duration s)

-- Names of attack types, in any case.
abbrev pub known : String → Bool
known lower = lower == "kill" || lower == "suspend" || lower == "delay"

abbrev pub all_known : (String → String) → List String → Bool
all_known to_lower [] = true
all_known to_lower (t ∷ ts) = known (to_lower t) && all_known to_lower ts

is_ok-parse_or :
    (parse_duration : String → Option ℤ) (e : ConfigError) (s : String) (d : ℤ)
    → is_ok (parse_or parse_duration e s d) ≡ reads parse_duration s
is_ok-parse_or parse_duration e s d = ground arith

is_ok-cons :
    {A : Type 0} (m : Result A) (ms : Result (List A))
    → is_ok (m >>= λ y. ms >>= λ ys. ok (y ∷ ys)) ≡ (is_ok m && is_ok ms)
is_ok-cons (ok y) (ok ys) = refl
is_ok-cons (ok y) (failed e) = refl
is_ok-cons (failed e) ms = refl

is_ok-attack_named : (lower t : String) → is_ok (attack_named lower t) ≡ known lower
is_ok-attack_named lower t = ground arith

is_ok-parse_attack_types :
    (to_lower : String → String) (ts : List String)
    → is_ok (parse_attack_types to_lower ts) ≡ all_known to_lower ts
unfolding parse_attack_types
is_ok-parse_attack_types to_lower [] = refl
is_ok-parse_attack_types to_lower (t ∷ ts) =
    is_ok-cons (attack_named (to_lower t) t) (parse_attack_types to_lower ts)
    ∙ cc (is_ok-attack_named (to_lower t) t, is_ok-parse_attack_types to_lower ts)

is_ok-attack_types_or :
    (to_lower : String → String) (ts : List String) (default : List AttackType)
    → is_ok (attack_types_or to_lower ts default) ≡ all_known to_lower ts
is_ok-attack_types_or to_lower [] default = refl
is_ok-attack_types_or to_lower (t ∷ ts) default = is_ok-parse_attack_types to_lower (t ∷ ts)

is_ok-four :
    {A B C D E : Type 0} (a : Result A) (b : Result B) (c : Result C) (d : Result D)
    (f : A → B → C → D → E)
    → is_ok (a >>= λ x. b >>= λ y. c >>= λ z. d >>= λ w. ok (f x y z w))
      ≡ (is_ok a && (is_ok b && (is_ok c && is_ok d)))
is_ok-four (failed e) b c d f = refl
is_ok-four (ok x) (failed e) c d f = refl
is_ok-four (ok x) (ok y) (failed e) d f = refl
is_ok-four (ok x) (ok y) (ok z) (failed e) f = refl
is_ok-four (ok x) (ok y) (ok z) (ok w) f = refl

-- A file is converted exactly if its durations are left out or can be read and its attack types are known.
pub is_ok-to_scenario_config :
    (float : Float) (parse_duration : String → Option ℤ) (to_lower : String → String)
    (f : FileConfig float)
    → is_ok (to_scenario_config float parse_duration to_lower f) ≡ (
        reads parse_duration f.duration
        && (reads parse_duration f.chaos.interval
            && (all_known to_lower f.chaos.attack_types && reads parse_duration f.recovery.delay)))
unfolding to_scenario_config
is_ok-to_scenario_config float parse_duration to_lower f =
    let default = default_config float in
    is_ok-four (parse_or parse_duration ConfigError.invalid_duration f.duration default.duration)
      (parse_or parse_duration ConfigError.invalid_chaos_interval f.chaos.interval
        default.chaos_interval)
      (attack_types_or to_lower f.chaos.attack_types default.attack_types)
      (parse_or parse_duration ConfigError.invalid_recovery_delay f.recovery.delay
        default.recovery_delay)
      _
    ∙ cc (
      is_ok-parse_or parse_duration ConfigError.invalid_duration f.duration default.duration,
      is_ok-parse_or parse_duration ConfigError.invalid_chaos_interval f.chaos.interval
          default.chaos_interval,
      is_ok-attack_types_or to_lower f.chaos.attack_types default.attack_types,
      is_ok-parse_or parse_duration ConfigError.invalid_recovery_delay f.recovery.delay
          default.recovery_delay,
    )

ok_four :
    {A B C D E : Type 0} (P : E → Type 0) (a : Result A) (b : Result B) (c : Result C)
    (d : Result D) (f : A → B → C → D → E) {e : E}
    → (a >>= λ x. b >>= λ y. c >>= λ z. d >>= λ w. ok (f x y z w)) ≡ ok e
    → ((x : A) (y : B) (z : C) (w : D) → c ≡ ok z → P (f x y z w))
    → P e
ok_four P (failed i) b c d f e h = ground (arith, e)
ok_four P (ok x) (failed i) c d f e h = ground (arith, e)
ok_four P (ok x) (ok y) (failed i) d f e h = ground (arith, e)
ok_four P (ok x) (ok y) (ok z) (failed i) f e h = ground (arith, e)
ok_four P (ok x) (ok y) (ok z) (ok w) f {e = r} e h = subst P (ground (arith, e)) (h x y z w refl)

-- What the parts of the program that run a scenario need of its numbers.
abbrev pub IsUsable : (float : Float) → Scenario.Config float → Type 0
IsUsable float c =
    (ltb_ℤ (pos 0) c.node_count ≡ true)
    × (ltb_ℤ (pos 0) c.client_workers ≡ true)
    × (ltb_ℤ (pos 0) c.chaos_targets ≡ true)
    × (ltb_ℤ (pos 0) c.max_retries ≡ true)
    × (c.attack_types ≢ [])

positive_or-positive : (n d : ℤ) → ltb_ℤ (pos 0) d ≡ true → ltb_ℤ (pos 0) (positive_or n d) ≡ true
positive_or-positive n d h = ground arith

never_empty :
    {A : Type 0} (m : Result A) (ms : Result (List A))
    → (m >>= λ y. ms >>= λ ys. ok (y ∷ ys)) ≢ ok []
never_empty (ok y) (ok ys) e = ground (arith, e)
never_empty (ok y) (failed i) e = ground (arith, e)
never_empty (failed i) ms e = ground (arith, e)

attack_types_or-some :
    (to_lower : String → String) (ts : List String) (default attacks : List AttackType)
    → default ≢ []
    → attack_types_or to_lower ts default ≡ ok attacks
    → attacks ≢ []
unfolding parse_attack_types
attack_types_or-some to_lower [] default attacks n e none_left = n (ground (arith, e, none_left))
attack_types_or-some to_lower (t ∷ ts) default attacks n e none_left =
    never_empty (attack_named (to_lower t) t) (parse_attack_types to_lower ts) (e ∙ ap ok none_left)

-- Whatever the file says, a scenario that it is converted to has at least one node, worker, target and retry,
-- and at least one attack type.
pub to_scenario_config-IsUsable :
    (float : Float) (parse_duration : String → Option ℤ) (to_lower : String → String)
    (f : FileConfig float) (c : Scenario.Config float)
    → to_scenario_config float parse_duration to_lower f ≡ ok c
    → IsUsable float c
unfolding to_scenario_config default_config
to_scenario_config-IsUsable float parse_duration to_lower f c e =
    let default = default_config float in
    ok_four (IsUsable float)
      (parse_or parse_duration ConfigError.invalid_duration f.duration default.duration)
      (parse_or parse_duration ConfigError.invalid_chaos_interval f.chaos.interval
        default.chaos_interval)
      (attack_types_or to_lower f.chaos.attack_types default.attack_types)
      (parse_or parse_duration ConfigError.invalid_recovery_delay f.recovery.delay
        default.recovery_delay)
      _ e
      (λ x y z w attacks. (
        positive_or-positive f.node_count default.node_count refl,
        positive_or-positive f.client.workers default.client_workers refl,
        positive_or-positive f.chaos.targets default.chaos_targets refl,
        positive_or-positive f.recovery.max_retries default.max_retries refl,
        attack_types_or-some to_lower f.chaos.attack_types default.attack_types z
            (λ n. ground (arith, n)) attacks,
      ))
