-- ===== src/Recovery.antt =====
-- internal/recovery/recovery.go. The health check is one goroutine; what others do to a node between
-- the read of its status and the handler is an argument, `meanwhile`, and so are the readings of the
-- clock. Events that go to the bus are returned in order.
pub mod Fates
pub mod Handlers
pub mod Checks
pub mod History
pub mod Handling
pub mod Counting
pub mod Rounds
pub mod Revival
pub mod Faults
use chaos_kvs.Base.{
  ℕ, ◌+◌, ◌≡◌, Bool, true, false, ◌&&◌, ◌||◌, Option, none, some, List, [], ◌∷◌, ◌++◌, String, ℤ,
  pos, ltb_ℤ, if◌then◌else◌,
}
use chaos_kvs.Events.{Event}
use chaos_kvs.Node.{running}

pub record Config : Type 0 where
  pub health_check_interval : ℤ
  pub recovery_delay : ℤ
  pub max_retries : ℤ
  pub auto_restart : Bool
  pub auto_resume : Bool
  pub clear_delay : Bool

abbrev pub second : ℕ
second = 1000000000

unfoldable pub default_config : Config
default_config = record {
  health_check_interval = pos second;
  recovery_delay = pos 2000000000;
  max_retries = pos 3;
  auto_restart = true;
  auto_resume = true;
  clear_delay = true;
}

-- A time is in nanoseconds, and 0 is the zero time that `IsZero` tests.
pub record NodeState : Type 0 where
  pub last_seen : ℕ
  pub failed_at : ℕ
  pub retry_count : ℕ
  pub is_recovered : Bool

pub record Stats : Type 0 where
  pub total_recoveries : ℕ
  pub success_recoveries : ℕ
  pub failed_recoveries : ℕ
  pub currently_failed : ℤ

abbrev pub no_stats : Stats
no_stats = record {
  total_recoveries = 0;
  success_recoveries = 0;
  failed_recoveries = 0;
  currently_failed = pos 0;
}

pub record Manager : Type 0 where
  pub config : Config
  pub has_bus : Bool
  pub running : Bool
  pub node_states : List (String × NodeState)
  pub stats : Stats

unfoldable pub new : Config → Manager
new config = record {
  config = config;
  has_bus = false;
  running = false;
  node_states = [];
  stats = no_stats;
}

unfoldable pub set_event_bus : Manager → Manager
set_event_bus m = record m { has_bus = true }

unfoldable pub manager_is_running : Manager → Bool
manager_is_running m = m.running

unfoldable pub get_stats : Manager → Stats
get_stats m = m.stats

-- What of an event reaches the bus.
abbrev pub publish_event : Bool → Event → List Event
publish_event has_bus e = if has_bus then e ∷ [] else []

-- `Start` launches the health check, whose `NewTicker` panics (`none`) if the interval is not positive,
-- and `Stop` waits for its end; each does nothing a second time.
unfoldable pub start_manager : Manager → Option Manager
start_manager m =
    if m.running
    then some m
    else if ltb_ℤ (pos 0) m.config.health_check_interval
    then some (record m { running = true })
    else none

unfoldable pub stop_manager : Manager → Manager
stop_manager m = if m.running then record m { running = false } else m

unfoldable pub set_config : Config → Manager → Manager
set_config config m = record m { config = config }

unfoldable pub reset_stats : Manager → Manager
reset_stats m = record m { stats = no_stats }
