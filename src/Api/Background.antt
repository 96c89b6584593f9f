-- ===== src/Api/Background.antt =====
-- internal/api/server.go, handleScenarioStart: the goroutine that runs the scenario, and that a scenario that is started
-- comes to its end.
use chaos_kvs.Base.Order.{Order}
use chaos_kvs.Base.{ℕ, Bool, List, true, Option, none, some, String_eq, ◌⊎◌, inl, inr}
use chaos_kvs.Heap.{Heap}
use chaos_kvs.Cluster.{new as new_cluster}
use chaos_kvs.Metrics.{Float}
use chaos_kvs.Scenario.{Config}
use chaos_kvs.Scenario.Engine.{Engine, EngineError, new, set_event_bus}
use chaos_kvs.Scenario.Engine.Results.{Result}
use chaos_kvs.Scenario.Engine.Running.{Env, run}
use chaos_kvs.Api.{Server, complete}
use chaos_kvs.Api.Reports.{broadcast, Message, scenario_complete}

module _ (float : Float) where
  result_of : EngineError ⊎ Result float → Option (Result float)
  result_of (inl e) = none
  result_of (inr r) = some r

  -- What the run and the broadcast at its end meet: the connections that are open then are `clients`.
  pub record Setting : Type 0 where
    pub env : Env float
    pub clients : List ℕ
    pub marshals : Message float → Bool
    pub order : Order

  run_over :
      Setting
      → Server float
      → Option (Heap × Engine float × (EngineError ⊎ Result float))
      → Option (Heap × Server float × List (ℕ × Message float))
  unfolding complete result_of broadcast
  run_over t s none = none
  run_over t s (some (h, e, outcome)) =
      let s' = complete float (record s { engine = some e; ws_clients = t.clients }) in
      some (h, s', broadcast float t.marshals t.order (scenario_complete (result_of outcome)) s')

  -- The goroutine, with the messages that it sends in the end; a panic is `none`, as that of a server without
  -- an engine would be.
  unfoldable pub background :
      Setting → Heap → Server float → Option (Heap × Server float × List (ℕ × Message float))
  unfolding run_over run
  background t h s = elim s.engine [ none ↦ none | some e ↦ run_over t s (run float t.env h e) ]

  -- The server once a scenario is started.
  abbrev started_with : Config float → Server float → Server float
  unfolding new_cluster set_event_bus new
  started_with config s = record s {
    config = config;
    cluster = some new_cluster;
    engine = some (set_event_bus float (new float config));
    running = true;
  }

  -- The server once that run is over.
  abbrev over : Setting → Config float → Server float → Engine float → Server float
  unfolding complete started_with
  over t config s e =
      complete float (record (started_with config s) { engine = some e; ws_clients = t.clients })
