-- ===== src/Config/Reading.antt =====
-- internal/config/config.go: what the conversion of a configuration file gives, and that every scenario that a
-- file can express is read back from it.
use chaos_kvs.Base.{
  ◌==◌, ◌≡◌, ◌≢◌, ◌↔◌, refl, ap, true, false, Option, some, List, [], ◌∷◌, map, String, String_eq,
  ℤ, pos, ltb_ℤ, arith,
}
use text.Mathlib.TextEquality.{eq_iff}
use chaos_kvs.Metrics.{Float}
use chaos_kvs.Chaos.{AttackType, attack_kill, attack_suspend, attack_delay, attack_string}
use chaos_kvs.Scenario
use chaos_kvs.Scenario.{default_config}
use chaos_kvs.Config.{
  Result, ◌>>=◌, ok, failed, ConfigError, attack_named, parse_attack_types, attack_types_or,
  parse_or, FileConfig, to_scenario_config,
}

attack_named_iff :
    (lower t : String) (a : AttackType) → (attack_named lower t ≡ ok a) ↔ (lower ≡ attack_string a)
unfolding attack_string
attack_named_iff lower t attack_kill =
    (λ e. ground (arith, e, eq_iff lower "kill"), λ e. ap (λ s. attack_named s t) e)
attack_named_iff lower t attack_suspend =
    (λ e. ground (arith, e, eq_iff lower "suspend"), λ e. ap (λ s. attack_named s t) e)
attack_named_iff lower t attack_delay =
    (λ e. ground (arith, e, eq_iff lower "delay"), λ e. ap (λ s. attack_named s t) e)

-- The elements of a list that is read one by one.
both_ok :
    {A : Type 0} (m : Result A) (ms : Result (List A)) (x : A) (xs : List A)
    → (m >>= λ y. ms >>= λ ys. ok (y ∷ ys)) ≡ ok (x ∷ xs)
    → (m ≡ ok x) × (ms ≡ ok xs)
both_ok (ok y) (ok ys) x xs e = (ground (arith, e), ground (arith, e))
both_ok (ok y) (failed c) x xs e = ground (arith, e)
both_ok (failed c) ms x xs e = ground (arith, e)

cons_ok :
    {A : Type 0} {m : Result A} {ms : Result (List A)} {x : A} {xs : List A}
    → m ≡ ok x
    → ms ≡ ok xs
    → (m >>= λ y. ms >>= λ ys. ok (y ∷ ys)) ≡ ok (x ∷ xs)
cons_ok {A} {m} {ms} {x} {xs} p q = rw (p, q) refl

-- A list of names is read as attack types exactly where the names in lower case are theirs, in the same order.
pub parse_attack_types_iff :
    (to_lower : String → String) (ts : List String) (attacks : List AttackType)
    → (parse_attack_types to_lower ts ≡ ok attacks) ↔ (map to_lower ts ≡ map attack_string attacks)
unfolding parse_attack_types
parse_attack_types_iff to_lower [] [] = (λ _. refl, λ _. refl)
parse_attack_types_iff to_lower [] (a ∷ rest) = (λ e. ground (arith, e), λ e. ground (arith, e))
parse_attack_types_iff to_lower (t ∷ ts) [] = (λ e. ground (arith, e), λ e. ground (arith, e))
parse_attack_types_iff to_lower (t ∷ ts) (a ∷ rest) = (
  λ e.
      let both = both_ok (attack_named (to_lower t) t) (parse_attack_types to_lower ts) a rest e in
      cc (
        (attack_named_iff (to_lower t) t a).0 both.0,
        (parse_attack_types_iff to_lower ts rest).0 both.1,
      ),
  λ e.
      cons_ok ((attack_named_iff (to_lower t) t a).1 (ground (arith, e)))
        ((parse_attack_types_iff to_lower ts rest).1 (ground (arith, e))),
)

-- How a scenario is written as a file.
abbrev pub to_file : (float : Float) → (ℤ → String) → Scenario.Config float → FileConfig float
to_file float print c = record {
  name = c.name;
  description = c.description;
  duration = print c.duration;
  node_count = c.node_count;
  client = record { workers = c.client_workers; write_ratio = c.write_ratio };
  chaos = record {
    enabled = c.enable_chaos;
    interval = print c.chaos_interval;
    targets = c.chaos_targets;
    attack_types = map attack_string c.attack_types;
    suspend_time = "";
    delay_amount = "";
  };
  recovery = record {
    enabled = c.enable_recovery;
    delay = print c.recovery_delay;
    max_retries = c.max_retries;
  };
}

-- What is printed of a duration is something that `time.ParseDuration` reads back.
abbrev pub Prints : (String → Option ℤ) → (ℤ → String) → ℤ → Type 0
Prints parse_duration print d = (parse_duration (print d) ≡ some d) × ((print d == "") ≡ false)

abbrev pub Lowers : (String → String) → Type 0
Lowers to_lower = (a : AttackType) → to_lower (attack_string a) ≡ attack_string a

-- A file cannot say that a name is empty, that a number is not positive, or that there are no attacks.
pub record IsExpressible (float : Float) (c : Scenario.Config float) : Type 0 where
  pub named : (c.name == "") ≡ false
  pub described : (c.description == "") ≡ false
  pub has_nodes : ltb_ℤ (pos 0) c.node_count ≡ true
  pub has_workers : ltb_ℤ (pos 0) c.client_workers ≡ true
  pub writes : float.less float.zero_float c.write_ratio ≡ true
  pub has_targets : ltb_ℤ (pos 0) c.chaos_targets ≡ true
  pub attacks : c.attack_types ≢ []
  pub retries : ltb_ℤ (pos 0) c.max_retries ≡ true

map-to_lower :
    (to_lower : String → String) (as_types : List AttackType)
    → Lowers to_lower
    → map to_lower (map attack_string as_types) ≡ map attack_string as_types
map-to_lower to_lower [] l = refl
map-to_lower to_lower (a ∷ rest) l = cc (l a, map-to_lower to_lower rest l)

attack_types_back :
    (to_lower : String → String) (attacks default : List AttackType)
    → Lowers to_lower
    → attacks ≢ []
    → attack_types_or to_lower (map attack_string attacks) default ≡ ok attacks
attack_types_back to_lower [] default l n = absurd (n refl)
attack_types_back to_lower (a ∷ rest) default l n =
    (parse_attack_types_iff to_lower (map attack_string (a ∷ rest)) (a ∷ rest)).1
      (map-to_lower to_lower (a ∷ rest) l)

parse_or_back :
    (parse_duration : String → Option ℤ) (print : ℤ → String) (e : ConfigError) (d default : ℤ)
    → Prints parse_duration print d
    → parse_or parse_duration e (print d) default ≡ ok d
parse_or_back parse_duration print e d default p = ground (arith, p)

-- A scenario that a file can express, written as one with durations that `ParseDuration` reads back and attack
-- types that `ToLower` leaves alone, is read back as it was.
pub to_scenario_config-to_file :
    (float : Float) (parse_duration : String → Option ℤ) (print : ℤ → String)
    (to_lower : String → String) (c : Scenario.Config float)
    → Prints parse_duration print c.duration
    → Prints parse_duration print c.chaos_interval
    → Prints parse_duration print c.recovery_delay
    → Lowers to_lower
    → IsExpressible float c
    → to_scenario_config float parse_duration to_lower (to_file float print c) ≡ ok c
unfolding to_scenario_config
to_scenario_config-to_file float parse_duration print to_lower c p p' p'' l x =
    rw
      (
        parse_or_back parse_duration print ConfigError.invalid_duration c.duration
            (default_config float).duration p,
        parse_or_back parse_duration print ConfigError.invalid_chaos_interval c.chaos_interval
            (default_config float).chaos_interval p',
        parse_or_back parse_duration print ConfigError.invalid_recovery_delay c.recovery_delay
            (default_config float).recovery_delay p'',
        attack_types_back to_lower c.attack_types (default_config float).attack_types l x.attacks,
        x.named,
        x.described,
        x.has_nodes,
        x.has_workers,
        x.writes,
        x.has_targets,
        x.retries,
      )
      refl
