-- ===== src/Chaos.antt =====
-- internal/chaos/chaos.go. What the runtime and `math/rand` choose, the readings of the clock, and what
-- other goroutines do between the choice of targets and the attack are arguments. Events that go to the
-- bus are returned in order. What Go would panic at is `none`.
pub mod Hits
pub mod Injection
pub mod Suspensions
pub mod History
pub mod Targets
pub mod Attacks
pub mod Resumption
pub mod Panics
use chaos_kvs.Base.{
  ℕ, ◌+◌, ◌-◌, ◌*◌, ◌%◌, ◌≡◌, ◌↔◌, Bool, true, false, Option, none, some, List, [], ◌∷◌, ◌++◌, map,
  String, ℤ, pos, ltb_ℤ, Eq, arith, if◌then◌else◌,
}
use mathlib.Core.Option
use chaos_kvs.Events.{Event}
use chaos_kvs.Events
use chaos_kvs.Node.{suspend}

-- The type is an `int`; no other value is ever made.
pub data AttackType : Type 0 where
  attack_kill attack_suspend attack_delay : AttackType

unfoldable pub attack_string : AttackType → String
attack_string attack_kill = "kill"
attack_string attack_suspend = "suspend"
attack_string attack_delay = "delay"

abbrev pub same_attack : AttackType → AttackType → Bool
same_attack attack_kill attack_kill = true
same_attack attack_suspend attack_suspend = true
same_attack attack_delay attack_delay = true
same_attack _ _ = false

pub same_attack_iff : (a b : AttackType) → (same_attack a b ≡ true) ↔ (a ≡ b)
same_attack_iff a b = ground arith

instance abbrev pub AttackType_eq : Eq AttackType
AttackType_eq = record { beq = same_attack; beq_iff = same_attack_iff }

pub record Config : Type 0 where
  pub interval : ℤ
  pub target_count : ℤ
  pub attack_types : List AttackType
  pub delay_duration : ℤ
  pub suspend_time : ℤ

unfoldable pub default_config : Config
default_config = record {
  interval = pos 5000000000;
  target_count = pos 1;
  attack_types = attack_kill ∷ attack_suspend ∷ attack_delay ∷ [];
  delay_duration = pos 100000000;
  suspend_time = pos 3000000000;
}

pub record Stats : Type 0 where
  pub total_attacks : ℕ
  pub by_type : List (String × ℕ)

pub record Monkey : Type 0 where
  pub config : Config
  pub has_bus : Bool
  pub running : Bool
  pub resuming : Bool  -- the resume loop runs
  pub attack_count : ℕ
  pub attack_by_type : List (AttackType × ℕ)
  pub last_attack : ℕ
  pub suspended_ids : List (String × ℕ)

unfoldable pub new : Config → Monkey
new config = record {
  config = config;
  has_bus = false;
  running = false;
  resuming = false;
  attack_count = 0;
  attack_by_type = [];
  last_attack = 0;
  suspended_ids = [];
}

unfoldable pub set_event_bus : Monkey → Monkey
set_event_bus m = record m { has_bus = true }

abbrev pub publish_event : Bool → Event → List Event
publish_event has_bus e = if has_bus then e ∷ [] else []

-- The attack loop's `NewTicker` panics if the interval is not positive.
unfoldable pub start : Monkey → Option Monkey
start m =
    if m.running
    then some m
    else if ltb_ℤ (pos 0) m.config.interval
    then some (record m { running = true; resuming = ltb_ℤ (pos 0) m.config.suspend_time })
    else none

unfoldable pub set_config : Config → Monkey → Monkey
set_config config m = record m { config = config }

unfoldable pub monkey_is_running : Monkey → Bool
monkey_is_running m = m.running

unfoldable pub get_attack_count : Monkey → ℕ
get_attack_count m = m.attack_count

unfoldable pub stats : Monkey → Stats
stats m = record {
  total_attacks = m.attack_count;
  by_type = map (λ e. (attack_string e.0, e.1)) m.attack_by_type;
}
