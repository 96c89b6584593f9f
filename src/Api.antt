-- ===== src/Api.antt =====
-- internal/api/server.go: the state of the server and the handlers that read and change it. The decoder of the
-- request's body and time.ParseDuration are arguments; what is written to the client is the value of a handler.
pub mod History
pub mod Reports
pub mod Sockets
pub mod Background
pub mod Routes
use chaos_kvs.Base.{
  ℕ, Bool, true, false, not, Option, none, some, List, [], ◌∷◌, map, String, String_eq, ◌==◌, ℤ,
  pos, ltb_ℤ, if◌then◌else◌,
}
use mathlib.Core.Option.{get_or}
use chaos_kvs.Base.Count.{count_if}
use chaos_kvs.Base.Order.{Order}
use chaos_kvs.Heap.{Heap}
use chaos_kvs.Node.{status_string}
use chaos_kvs.Node
use chaos_kvs.Cluster.{Cluster, nodes, running_count, size, new as new_cluster}
use chaos_kvs.Metrics.{Float}
use chaos_kvs.Scenario.{Config, get_preset, quick_scenario, no_config}
use chaos_kvs.Scenario.Engine.{Engine, set_event_bus}
use chaos_kvs.Scenario.Engine
use chaos_kvs.Scenario.Engine.Views.{get_cluster}
use chaos_kvs.Events.Bus.{Bus, new_bus}

pub data HttpMethod : Type 0 where
  get post other_method : HttpMethod

abbrev pub is_get : HttpMethod → Bool
is_get get = true
is_get _ = false

abbrev pub is_post : HttpMethod → Bool
is_post post = true
is_post _ = false

pub record StatusResponse : Type 0 where
  pub running : Bool
  pub scenario_name : String
  pub node_count : ℕ
  pub running_nodes : ℕ
  pub stopped_nodes : ℕ
  pub suspended_nodes : ℕ

-- The delay is in nanoseconds, and left out if it is not positive.
pub record NodeInfo : Type 0 where
  pub id : String
  pub status : String
  pub size : ℕ
  pub delay : Option ℤ

pub record ScenarioRequest : Type 0 where
  pub preset : String
  pub duration : String
  pub nodes : ℤ

pub record PresetInfo : Type 0 where
  pub name : String
  pub description : String

pub data Response : Type 0 where
  method_not_allowed invalid_request_body already_running no_scenario_running stop_requested :
      Response
  status : StatusResponse → Response
  node_list : List NodeInfo → Response
  started : String → Response
  preset_list : List PresetInfo → Response

unfoldable pub preset_infos : List PresetInfo
preset_infos =
    record { name = "basic"; description = "カオスなしの基本負荷テスト" }
    ∷ record { name = "resilience"; description = "ノードkillと復旧のテスト" }
    ∷ record { name = "latency"; description = "レイテンシ注入テスト" }
    ∷ record { name = "stress"; description = "高負荷ストレステスト" }
    ∷ record { name = "quick"; description = "短時間の動作確認" }
    ∷ []

unfoldable pub handle_presets : HttpMethod → Response
unfolding preset_infos
handle_presets method = if not (is_get method) then method_not_allowed else preset_list preset_infos

-- The `switch` over the text of the status.
abbrev pub says : String → Heap → ℕ → Bool
says text h p = status_string (h.cell p).status == text

-- What the handler and the broadcast count in a cluster.
unfoldable pub status_of : Bool → String → Option Cluster → Order → Heap → StatusResponse
unfolding status_string size running_count nodes
status_of running name none order h = record {
  running = running;
  scenario_name = name;
  node_count = 0;
  running_nodes = 0;
  stopped_nodes = 0;
  suspended_nodes = 0;
}
status_of running name (some c) order h = record {
  running = running;
  scenario_name = name;
  node_count = size c;
  running_nodes = running_count h c;
  stopped_nodes = count_if (says "Stopped" h) (nodes order c);
  suspended_nodes = count_if (says "Suspended" h) (nodes order c);
}

abbrev pub node_info : Heap → ℕ → NodeInfo
unfolding status_string Node.get_id Node.get_status Node.size Node.get_delay
node_info h p =
    let n = h.cell p in
    record {
      id = Node.get_id n;
      status = status_string (Node.get_status n);
      size = Node.size n;
      delay = if ltb_ℤ (pos 0) (Node.get_delay n) then some (Node.get_delay n) else none;
    }

module _ (float : Float) where
  pub record Server : Type 0 where
    pub cluster : Option Cluster
    pub engine : Option (Engine float)
    pub config : Config float
    pub running : Bool
    pub event_bus : Bus
    pub ws_clients : List ℕ  -- a connection is known by a number

  unfoldable pub new_server : Server
  unfolding no_config new_bus
  new_server = record {
    cluster = none;
    engine = none;
    config = no_config float;
    running = false;
    event_bus = new_bus;
    ws_clients = [];
  }

  unfoldable pub handle_status : HttpMethod → Order → Heap → Server → Response
  unfolding status_of
  handle_status method order h s =
      if not (is_get method)
      then method_not_allowed
      else status (status_of s.running s.config.name s.cluster order h)

  unfoldable pub handle_nodes : HttpMethod → Order → Heap → Server → Response
  unfolding nodes node_info
  handle_nodes method order h s =
      if not (is_get method)
      then method_not_allowed
      else node_list (elim s.cluster [ none ↦ [] | some c ↦ map (node_info h) (nodes order c) ])

  -- The preset that is asked for, or the quick one, with what the request overrides.
  unfoldable pub requested_config : (String → Option ℤ) → ScenarioRequest → Config float
  unfolding get_preset quick_scenario
  requested_config parse_duration req =
      let config = get_or (get_preset float req.preset) (quick_scenario float) in
      record config {
        duration =
            if req.duration == ""
            then config.duration
            else get_or (parse_duration req.duration) config.duration;
        node_count = if ltb_ℤ (pos 0) req.nodes then req.nodes else config.node_count;
      }

  -- The body is none where it cannot be decoded. The run goes on in the background.
  unfoldable pub handle_scenario_start :
      (String → Option ℤ) → HttpMethod → Option ScenarioRequest → Server → Server × Response
  unfolding requested_config Engine.new set_event_bus new_cluster
  handle_scenario_start parse_duration method none s =
      if not (is_post method) then (s, method_not_allowed) else (s, invalid_request_body)
  handle_scenario_start parse_duration method (some req) s =
      let config = requested_config parse_duration req in
      if not (is_post method)
      then (s, method_not_allowed)
      else if s.running
      then (s, already_running)
      else (
        record s {
          config = config;
          cluster = some new_cluster;
          engine = some (set_event_bus float (Engine.new float config));
          running = true;
        },
        started config.name,
      )

  -- The end of the background run.
  unfoldable pub complete : Server → Server
  complete s = record s { running = false }

  unfoldable pub handle_scenario_stop : HttpMethod → Server → Server × Response
  handle_scenario_stop method s =
      if not (is_post method)
      then (s, method_not_allowed)
      else if not s.running
      then (s, no_scenario_running)
      else (s, stop_requested)

  -- A tick of the broadcast loop tells what the engine's cluster is like, while a scenario runs.
  unfoldable pub broadcast_status : Order → Heap → Server → Option StatusResponse
  unfolding status_of get_cluster
  broadcast_status order h s =
      if not s.running
      then none
      else some (
          status_of s.running s.config.name
            (elim s.engine [ none ↦ none | some e ↦ get_cluster float e ]) order h)
