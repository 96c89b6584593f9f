-- ===== src/Scenario/Engine.antt =====
-- internal/scenario/scenario.go, Engine: a run is its setup, the starts of its parts, whatever they then do
-- until the time is up, the collection of the results, and the teardown.
pub mod Results
pub mod Setup
pub mod Activity
pub mod Running
pub mod Teardown
pub mod Views
use chaos_kvs.Base.{ℕ, Bool, true, false, Option, none, some, String, map, if◌then◌else◌, ◌⊎◌}
use mathlib.Core.Option
use mathlib.Core.Option.{get_or}
use chaos_kvs.Base.Order.{Order, OrderOf}
use chaos_kvs.Heap.{Heap}
use chaos_kvs.Cluster.{Cluster, ClusterError, create_nodes, start_all, stop_all, new as new_cluster}
use chaos_kvs.Chaos.{Monkey}
use chaos_kvs.Chaos.Suspensions.{stop_monkey}
use chaos_kvs.Chaos
use chaos_kvs.Recovery.{Manager, start_manager, stop_manager}
use chaos_kvs.Recovery
use chaos_kvs.Metrics.{Float}
use chaos_kvs.Metrics
use chaos_kvs.Client
use chaos_kvs.Scenario.{Config}

pub data EngineError : Type 0 where
  already_running : EngineError
  failed_to_create failed_to_start : ClusterError → EngineError

module _ (float : Float) where
  open float use {F}

  pub record Engine : Type 0 where
    pub config : Config float
    pub has_bus : Bool
    pub cluster : Option Cluster
    pub client : Option (Client.Client float)
    pub monkey : Option Monkey
    pub manager : Option Manager
    pub running : Bool

  unfoldable pub new : Config float → Engine
  new config = record {
    config = config;
    has_bus = false;
    cluster = none;
    client = none;
    monkey = none;
    manager = none;
    running = false;
  }

  unfoldable pub set_event_bus : Engine → Engine
  set_event_bus e = record e { has_bus = true }

  -- The configurations that `setup` makes for the parts.
  unfoldable pub client_config : Config float → Client.Config float
  unfolding Client.default_config
  client_config config = record (Client.default_config float) {
    num_workers = config.client_workers;
    write_ratio = config.write_ratio;
  }

  unfoldable pub chaos_config : Config float → Chaos.Config
  unfolding Chaos.default_config
  chaos_config config = record Chaos.default_config {
    interval = config.chaos_interval;
    target_count = config.chaos_targets;
    attack_types = config.attack_types;
  }

  unfoldable pub recovery_config : Config float → Recovery.Config
  unfolding Recovery.default_config
  recovery_config config = record Recovery.default_config {
    recovery_delay = config.recovery_delay;
    max_retries = config.max_retries;
  }

  -- What a part that is enabled is set up with; a part that is not keeps what the engine had.
  unfoldable pub new_monkey : Engine → Option Monkey
  unfolding chaos_config Chaos.new Chaos.set_event_bus
  new_monkey e =
      let m = Chaos.new (chaos_config e.config) in
      if e.config.enable_chaos
      then some (if e.has_bus then Chaos.set_event_bus m else m)
      else e.monkey

  unfoldable pub new_manager : Engine → Option Manager
  unfolding recovery_config Recovery.new Recovery.set_event_bus
  new_manager e =
      let m = Recovery.new (recovery_config e.config) in
      if e.config.enable_recovery
      then some (if e.has_bus then Recovery.set_event_bus m else m)
      else e.manager

  start_if : {A : Type 0} → (A → Option A) → Option A → Option (Option A)
  start_if start none = some none
  start_if start (some a) = Option.map some (start a)

  -- The parts are set up on the cluster, once its nodes are started.
  unfoldable pub prepared : ℕ → ℕ → Cluster → Engine → Engine
  unfolding client_config Client.new new_monkey new_manager
  prepared num_cpu now c e = record e {
    cluster = some c;
    client = some (Client.new float num_cpu now c (client_config e.config));
    monkey = new_monkey e;
    manager = new_manager e;
  }

  setup_parts :
      ℕ → ℕ → Cluster → Engine → Heap → Option ClusterError → Heap × Engine × Option EngineError
  unfolding prepared
  setup_parts num_cpu now c e h none = (h, prepared num_cpu now c e, none)
  setup_parts num_cpu now c e h (some x) =
      (h, record e { cluster = some c }, some (failed_to_start x))

  setup_nodes :
      ℕ
      → ℕ
      → Order
      → Engine
      → Heap
      → Cluster
      → Option ClusterError
      → Heap × Engine × Option EngineError
  unfolding setup_parts start_all
  setup_nodes num_cpu now order e h c none =
      let (h', refused) = start_all order h c in setup_parts num_cpu now c e h' refused
  setup_nodes num_cpu now order e h c (some x) =
      (h, record e { cluster = some c }, some (failed_to_create x))

  -- The numbers of processors and the time are read.
  unfoldable pub setup : ℕ → ℕ → Order → Heap → Engine → Heap × Engine × Option EngineError
  unfolding setup_nodes new_cluster create_nodes
  setup num_cpu now order h e =
      let (h', c, refused) = create_nodes e.config.node_count "node" h new_cluster in
      setup_nodes num_cpu now order e h' c refused

  start_client : Bool → Option (Client.Client float) → Option (Client.Client float)
  unfolding Client.start
  start_client cancelled c = Option.map (Client.start float cancelled) c

  -- `runScenario` up to the wait: the parts are started; `none` is a ticker's panic.
  unfoldable pub start_parts : Bool → Engine → Option Engine
  unfolding start_if start_client Chaos.start start_manager
  start_parts cancelled e = elim (start_if Chaos.start e.monkey) [
    | none ↦ none
    | some monkey ↦ elim (start_if start_manager e.manager) [
      | none ↦ none
      | some manager ↦ some (record e {
        client = start_client cancelled e.client;
        monkey = monkey;
        manager = manager;
      })
    ]
  ]

  -- `none` is the panic of the client's pool.
  stop_client :
      (Client.Client float → Client.Client float)
      → Option (Client.Client float)
      → Option (Option (Client.Client float))
  unfolding Client.stop
  stop_client wait none = some none
  stop_client wait (some c) = Option.map some (Client.stop float wait c)

  stop_chaos : OrderOf (String × ℕ) → Cluster → Heap → Option Monkey → Heap × Option Monkey
  unfolding stop_monkey
  stop_chaos o c h none = (h, none)
  stop_chaos o c h (some m) = let (h', m') = stop_monkey o c h m in (h', some m')

  stop_nodes : Order → Heap → Option Cluster → Heap
  unfolding stop_all
  stop_nodes order h none = h
  stop_nodes order h (some c) = (stop_all order h c).0

  -- The monkey works on the engine's cluster; `client` is the client once it is stopped, unless it panicked.
  teardown_rest :
      OrderOf (String × ℕ)
      → Order
      → Heap
      → Engine
      → Option Cluster
      → Option (Option (Client.Client float))
      → Option (Heap × Engine)
  unfolding stop_chaos stop_nodes stop_manager new_cluster
  teardown_rest o order h e c none = none
  teardown_rest o order h e c (some client) =
      let (h', monkey) = stop_chaos o (get_or c new_cluster) h e.monkey in
      some (
        stop_nodes order h' c,
        record e { client = client; monkey = monkey; manager = Option.map stop_manager e.manager },
      )

  unfoldable pub teardown :
      (Client.Client float → Client.Client float)
      → OrderOf (String × ℕ)
      → Order
      → Heap
      → Engine
      → Option (Heap × Engine)
  unfolding stop_client teardown_rest
  teardown wait o order h e = teardown_rest o order h e e.cluster (stop_client wait e.client)
