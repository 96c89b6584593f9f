-- ===== src/Examples/Servers.antt =====
-- A server that is asked for two scenarios at once.
use chaos_kvs.Base.{
  ℕ, suc, ◌==◌, ◌+◌, ◌≡◌, true, false, not, none, some, List, [], ◌∷◌, String_eq, pos, false,
}
use chaos_kvs.Examples.{heap, cluster, float}
use chaos_kvs.Examples.Scenarios.{quiet_env, parse_duration}
use chaos_kvs.Base.Order.{Order, backwards}
use chaos_kvs.Heap.{Heap}
use chaos_kvs.Metrics.{Float}
use chaos_kvs.Api.{get, post, ScenarioRequest, status, Server, new_server, handle_status}
use chaos_kvs.Api.Routes.{Reads, Request, route, respond}
use chaos_kvs.Api.Routes.Answers.{starts, opens, allowed, refuses_method, respond_lem}
use chaos_kvs.Events.Bus.{Channels, subscriber_count}
use chaos_kvs.Base.Count.{has}
use chaos_kvs.Api.Background.{Setting}
use chaos_kvs.Scenario.Engine.{Engine}
use chaos_kvs.Api.History.{
  Call, asks, halts, progresses, run, one_if, all_begun, all_ended, one_run, handle_status_blind,
}

abbrev request : ScenarioRequest
request = record { preset = "stress"; duration = ""; nodes = pos 2 }

-- The second request is refused, the first run's engine gets a cluster, and the run goes on after a stop.
abbrev requests : List (Call float)
requests =
    asks (λ s. none) post (some request)
    ∷ asks (λ s. none) post (some request)
    ∷ progresses (λ e. record e { cluster = some cluster })
    ∷ halts post
    ∷ []

one_run_example :
    let float : Float = float in
    let cs : List (Call float) = requests in
    let s : Server float = (new_server float) in
    one_if float s.running + all_begun float cs s
    ≡ all_ended float cs s + one_if float (run float cs s).running
one_run_example = one_run float requests (new_server float)

handle_status_blind_example :
    let float : Float = float in
    let cs : List (Call float) = requests in
    let order : Order = backwards in
    let h : Heap = heap in
    let s = run float cs (new_server float) in
    handle_status float get order h s
    ≡ status (record {
      running = s.running;
      scenario_name = s.config.name;
      node_count = 0;
      running_nodes = 0;
      stopped_nodes = 0;
      suspended_nodes = 0;
    })
handle_status_blind_example = handle_status_blind float requests backwards heap

-- A preset that there is none of, with two nodes.
abbrev unknown : ScenarioRequest
unknown = record { preset = "endless"; duration = "1s"; nodes = pos 2 }

abbrev setting : Setting float
setting = record { env = quiet_env; clients = 4 ∷ 2 ∷ []; marshals = λ m. true; order = backwards }

abbrev reads : Reads float
reads = record {
  order = backwards;
  heap = heap;
  drift = λ i m. m;
  clock = λ i. i;
  parse_duration = parse_duration;
  handshake = some 7;
}

abbrev posted : Request
posted = record { method = post; path = "/api/scenario/start"; body = some unknown }

abbrev no_channels : Channels
no_channels = record { cell = λ p. record { buffer = []; capacity = 0; closed = false }; next = 0 }

respond_lem_example :
    let r : Request = posted in
    let s : Server float = new_server float in
    let (k', s', reply) = respond float reads r no_channels s in
    (starts float r s ≡ false → opens float reads r ≡ false → (k' ≡ no_channels) × (s' ≡ s))
    × (starts float r s ≡ true → s'.running ≡ true)
    × ((ws : ℕ)
        → ("/ws" == r.path) ≡ true
        → reads.handshake ≡ some ws
        → (has ws s'.ws_clients ≡ true)
          × (subscriber_count s'.event_bus ≡ suc (subscriber_count s.event_bus))
          × (s'.running ≡ s.running)
          × (s'.engine ≡ s.engine))
    × (refuses_method float reply ≡ not (allowed (route r.path) r.method))
respond_lem_example = respond_lem float reads posted no_channels (new_server float)
