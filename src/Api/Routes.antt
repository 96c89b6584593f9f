-- ===== src/Api/Routes.antt =====
-- internal/api/server.go, Start: the routes, and which handler answers a request. What ServeMux does with a path that
-- is clean is documented; what the handshake of a WebSocket, the decoder of bodies and ListenAndServe come to is an
-- argument, and what the file server sends is not looked into.
pub mod Answers
use chaos_kvs.Base.{
  ◌∙◌, ℕ, ◌≡◌, ◌&&◌, Option, none, some, List, [], ◌∷◌, String, String_eq, ◌==◌, ℤ, inl, inr,
}
use Prim.Native.String.{◌++◌ as str_append}
use mathlib.Core.Option.{get_or}
use chaos_kvs.Base.Map.{lookup}
use chaos_kvs.Base.Order.{Order}
use chaos_kvs.Heap.{Heap}
use chaos_kvs.Metrics.{Float, Metrics}
use chaos_kvs.Api.{
  HttpMethod, Response, ScenarioRequest, Server, handle_status, handle_nodes, handle_presets,
  handle_scenario_start, handle_scenario_stop,
}
use chaos_kvs.Api.Sockets.{connect}
use chaos_kvs.Events.Bus.{Channels}
use chaos_kvs.Api.Reports.{MetricsResponse, handle_metrics}

pub data Handler : Type 0 where
  status_handler nodes_handler metrics_handler start_handler stop_handler presets_handler : Handler
  web_socket file_server : Handler

unfoldable pub routes : List (String × Handler)
routes =
    ("/api/status", status_handler)
    ∷ ("/api/nodes", nodes_handler)
    ∷ ("/api/metrics", metrics_handler)
    ∷ ("/api/scenario/start", start_handler)
    ∷ ("/api/scenario/stop", stop_handler)
    ∷ ("/api/presets", presets_handler)
    ∷ ("/ws", web_socket)
    ∷ ("/", file_server)
    ∷ []

-- A pattern without a slash at its end is a path; the last one matches what no other does.
unfoldable pub route : String → Handler
unfolding routes
route path = get_or (lookup path routes) file_server

pub data Listened : Type 0 where
  server_closed : Listened
  listen_error : String → Listened

-- The error of Start: that of the embedded files, or that of ListenAndServe unless the server was shut down.
unfoldable pub serve : Option String → Listened → Option String
serve (some e) listened = some (str_append "failed to get static files: " e)
serve none server_closed = none
serve none (listen_error e) = some e

-- A body that cannot be decoded is none.
pub record Request : Type 0 where
  pub method : HttpMethod
  pub path : String
  pub body : Option ScenarioRequest

module _ (float : Float) where
  -- A WebSocket that is open tells of its channel; a handshake that fails and a file are answered by the libraries.
  pub data Reply : Type 0 where
    answer : Response → Reply
    metrics_answer : MetricsResponse float → Reply
    upgrade : Option ℕ → Reply
    file : String → Reply

  -- What the runtime, the clock, the parser of durations and the handshake decide: the connection that it makes, if any.
  pub record Reads : Type 0 where
    pub order : Order
    pub heap : Heap
    pub drift : ℕ → Metrics → Metrics
    pub clock : ℕ → ℕ
    pub parse_duration : String → Option ℤ
    pub handshake : Option ℕ

  upgraded : Option ℕ → Channels → Server float → Channels × Server float × Reply
  unfolding connect
  upgraded none k s = (k, s, upgrade none)
  upgraded (some ws) k s = let (k', s', ch) = connect float ws k s in (k', s', upgrade (some ch))

  unfoldable pub handled :
      Reads → Handler → Request → Channels → Server float → Channels × Server float × Reply
  unfolding handle_status handle_nodes handle_metrics handle_presets handle_scenario_start
      handle_scenario_stop upgraded
  handled e status_handler r k s = (k, s, answer (handle_status float r.method e.order e.heap s))
  handled e nodes_handler r k s = (k, s, answer (handle_nodes float r.method e.order e.heap s))
  handled e metrics_handler r k s = (
    k,
    s,
    elim (handle_metrics float r.method e.drift e.clock s) [
      | inl refused ↦ answer refused
      | inr m ↦ metrics_answer m
    ],
  )
  handled e start_handler r k s =
      let (s', response) = handle_scenario_start float e.parse_duration r.method r.body s in
      (k, s', answer response)
  handled e stop_handler r k s =
      let (s', response) = handle_scenario_stop float r.method s in (k, s', answer response)
  handled e presets_handler r k s = (k, s, answer (handle_presets r.method))
  handled e web_socket r k s = upgraded e.handshake k s
  handled e file_server r k s = (k, s, file r.path)

  unfoldable pub respond :
      Reads → Request → Channels → Server float → Channels × Server float × Reply
  unfolding handled route
  respond e r k s = handled e (route r.path) r k s
