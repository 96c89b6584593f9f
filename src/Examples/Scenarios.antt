-- ===== src/Examples/Scenarios.antt =====
-- Scenarios of a file, of a preset and of an engine.
use chaos_kvs.Base.{
  ℕ, ◌≡◌, refl, Bool, true, false, Option, none, some, List, [], ◌∷◌, String, String_eq, ℤ, pos,
  arith, if◌then◌else◌, ◌==◌,
}
use chaos_kvs.Examples.{heap, cluster, float, Float}
use chaos_kvs.Base.Order.{Order, OrderOf, in_order, backwards}
use chaos_kvs.Base.{◌&&◌, map, ltb_ℤ, ◌↔◌, inr}
use chaos_kvs.Base.Map.{is_some}
use chaos_kvs.Heap.{Heap}
use chaos_kvs.Cluster.{Cluster, size, stopped_count}
use chaos_kvs.Worker
use chaos_kvs.Client
use chaos_kvs.Chaos.{AttackType, attack_kill, attack_suspend, attack_delay, attack_string}
use chaos_kvs.Config.{
  Result, ok, failed, failed_to_read, FileConfig, to_scenario_config, parse_attack_types,
}
use chaos_kvs.Config.Reading.{
  to_file, Lowers, IsExpressible, to_scenario_config-to_file, parse_attack_types_iff,
}
use chaos_kvs.Config.Outcome.{is_ok, reads, all_known, is_ok-to_scenario_config}
use chaos_kvs.Scenario
use chaos_kvs.Scenario.{Config, default_config, quick_scenario}
use chaos_kvs.Scenario.Engine.{Engine, new, start_parts, prepared, teardown}
use chaos_kvs.Scenario.Engine.Results.{Result as RunResult}
use chaos_kvs.Scenario.Engine.Running.{Env}
use chaos_kvs.Scenario.Engine.Activity.{attacks, sweeps, generates, works}
use chaos_kvs.Worker.{idle}
use chaos_kvs.Examples.Monkeys.{chance}
use chaos_kvs.Scenario.Engine.Teardown.{IsAtRest, teardown_lem}
use chaos_kvs.Main.{Flags, build_scenario_config}
use chaos_kvs.Main.Building.{basic_preset_panics}

-- A printer and a parser of durations of one, two and ten seconds.
abbrev print : ℤ → String
print d =
    if ltb_ℤ d (pos 1500000000) then "1s" else if ltb_ℤ d (pos 5000000000) then "2s" else "10s"

abbrev pub parse_duration : String → Option ℤ
parse_duration s =
    if s == "10s"
    then some (pos 10000000000)
    else if s == "2s"
    then some (pos 2000000000)
    else if s == "1s"
    then some (pos 1000000000)
    else none

abbrev pub lower : String → String
lower s = if s == "KILL" then "kill" else s

abbrev file : FileConfig float
file = record (to_file float print (default_config float)) { name = ""; node_count = pos 0 }

lower-Lowers : Lowers lower
unfolding attack_string
lower-Lowers attack_kill = refl
lower-Lowers attack_suspend = refl
lower-Lowers attack_delay = refl

default-IsExpressible : IsExpressible float (default_config float)
unfolding default_config
default-IsExpressible = record {
  named = refl;
  described = refl;
  has_nodes = refl;
  has_workers = refl;
  writes = refl;
  has_targets = refl;
  attacks = λ e. ground (arith, e);
  retries = refl;
}

abbrev client : Client.Client float
client = Client.start float false (Client.new float 2 0 cluster (Client.default_config float))

abbrev engine : Engine float
engine = record (prepared float 2 0 cluster (new float (quick_scenario float))) {
  client = some client;
}

abbrev pub quiet_env : Env float
quiet_env = record {
  num_cpu = 2;
  setup_time = 0;
  start_time = 0;
  end_time = 5;
  cancelled = false;
  start_order = backwards;
  lapse =
      attacks (λ d. "1ms") chance
      ∷ generates 3 4 1 (0 ∷ 1 ∷ []) false 0
      ∷ works [] (idle ∷ [])
      ∷ [];
  drift = λ i m. m;
  late = sweeps in_order 9 (λ i. i) ∷ [];
  clock = λ i. i;
  status_order = in_order;
  wait = λ p. p;
  resume_order = in_order;
  stop_order = in_order;
}

abbrev pub flags : Flags
flags = record {
  config_file = "";
  preset_name = "basic";
  duration = pos 0;
  nodes = pos 0;
  workers = pos 0;
  enable_chaos = true;
  enable_recovery = true;
}

parse_attack_types_iff_example :
    let to_lower : String → String = lower in
    let ts : List String = ("KILL" ∷ "delay" ∷ []) in
    let attacks : List AttackType = (attack_kill ∷ attack_delay ∷ []) in
    (parse_attack_types to_lower ts ≡ ok attacks) ↔ (map to_lower ts ≡ map attack_string attacks)
parse_attack_types_iff_example =
    parse_attack_types_iff lower ("KILL" ∷ "delay" ∷ []) (attack_kill ∷ attack_delay ∷ [])

is_ok-to_scenario_config_example :
    let float : Float = float in
    let parse_duration : String → Option ℤ = parse_duration in
    let to_lower : String → String = lower in
    let f : FileConfig float = file in
    is_ok (to_scenario_config float parse_duration to_lower f) ≡ (
      reads parse_duration f.duration
      && (reads parse_duration f.chaos.interval
          && (all_known to_lower f.chaos.attack_types && reads parse_duration f.recovery.delay)))
is_ok-to_scenario_config_example = is_ok-to_scenario_config float parse_duration lower file

basic_preset_panics_example :
    let float : Float = float in
    let parse_duration : String → Option ℤ = parse_duration in
    let to_lower : String → String = lower in
    let loaded : Result (FileConfig float) = (failed failed_to_read) in
    let flags : Flags = flags in
    let num_cpu : ℕ = 2 in
    let now : ℕ = 0 in
    let cancelled : Bool = false in
    let cluster : Cluster = cluster in
    (c : Config float) × (build_scenario_config float parse_duration to_lower loaded flags ≡ inr c)
    × (is_some (start_parts float cancelled (prepared float num_cpu now cluster (new float c)))
        ≡ false)
basic_preset_panics_example =
    basic_preset_panics float parse_duration lower (failed failed_to_read) flags 2 0 false cluster
      refl refl refl

to_scenario_config-to_file_example :
    let float : Float = float in
    let parse_duration : String → Option ℤ = parse_duration in
    let print : ℤ → String = print in
    let to_lower : String → String = lower in
    let c : Scenario.Config float = (default_config float) in
    to_scenario_config float parse_duration to_lower (to_file float print c) ≡ ok c
unfolding default_config
to_scenario_config-to_file_example =
    to_scenario_config-to_file float parse_duration print lower (default_config float) (refl, refl)
      (refl, refl) (refl, refl) lower-Lowers default-IsExpressible

teardown_lem_example :
    let float : Float = float in
    let wait : Client.Client float → Client.Client float = (λ p. p) in
    let o : OrderOf (String × ℕ) = in_order in
    let order : Order = backwards in
    let h : Heap = heap in
    let e : Engine float = engine in
    let c : Cluster = cluster in
    (h' : Heap) × (e' : Engine float) × (teardown float wait o order h e ≡ some (h', e'))
    × (e'.cluster ≡ some c)
    × (stopped_count h' c ≡ size c)
    × IsAtRest float e'
unfolding prepared new Client.start Client.new Worker.start Worker.new_pool
teardown_lem_example =
    teardown_lem float (λ p. p) in_order backwards heap engine cluster client refl refl (λ p. refl)
      refl
