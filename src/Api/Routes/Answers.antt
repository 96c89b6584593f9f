-- ===== src/Api/Routes/Answers.antt =====
-- internal/api/server.go, Start: what a request does to the server, and which requests are refused.
use chaos_kvs.Base.Count.{has}
use chaos_kvs.Base.{
  Option-cases, Bool-cases, ap, sym, subst, ◌∙◌, ℕ, ◌≡◌, refl, Bool, true, false, not, ◌&&◌, some,
  List, [], ◌∷◌, String, String_eq, ◌==◌, inl, inr, arith,
}
use mathlib.Core.Option.{get_or}
use text.Mathlib.TextEquality.{eq_iff}
use chaos_kvs.Base.Map.{lookup, is_some}
use chaos_kvs.Metrics.{Float}
use chaos_kvs.Api.{
  HttpMethod, is_get, is_post, method_not_allowed, Server, handle_status, handle_nodes,
  handle_presets, handle_scenario_start, handle_scenario_stop,
}
use chaos_kvs.Api.Sockets.{connect}
use chaos_kvs.Events.Bus.{Channels}
use chaos_kvs.Api.Reports.{handle_metrics}
use chaos_kvs.Api.Routes.{
  Handler, status_handler, nodes_handler, metrics_handler, start_handler, stop_handler,
  presets_handler, web_socket, file_server, routes, route, Request, Reply, answer, Reads, handled,
  respond,
}
use chaos_kvs.Events.Bus.{subscribe, subscriber_count}
use chaos_kvs.Base.{◌||◌, suc}

abbrev is_start : Handler → Bool
is_start start_handler = true
is_start _ = false

abbrev is_socket : Handler → Bool
is_socket web_socket = true
is_socket _ = false

-- No route but that of a name is of a kind.
abbrev only_at : (Handler → Bool) → String → List (String × Handler) → Bool
only_at is name [] = true
only_at is name ((key, k) ∷ m) =
    let rest = only_at is name m in (not (is k) || (key == name)) && rest

other_path :
    (is : Handler → Bool) (name path : String) (m : List (String × Handler))
    → is file_server ≡ false
    → (name == path) ≡ false
    → only_at is name m ≡ true
    → is (get_or (lookup path m) file_server) ≡ false
unfolding lookup
other_path is name path [] file differs only = file
other_path is name path ((key, k) ∷ m) file differs only = elim (Bool-cases (key == path)) [
  | inl same ↦
      rw same
        (ground (arith, differs, same, only, eq_iff key path, eq_iff key name, eq_iff name path))
  | inr other ↦ rw other (other_path is name path m file differs (ground (arith, only)))
]

route_kind :
    (is : Handler → Bool) (name path : String)
    → is file_server ≡ false
    → is (route name) ≡ true
    → only_at is name routes ≡ true
    → is (route path) ≡ (name == path)
unfolding route
route_kind is name path file here only = elim (Bool-cases (name == path)) [
  | inl same ↦
      subst (λ t. is (route t) ≡ (name == t)) ((eq_iff name path).0 same)
        (here ∙ sym ((eq_iff name name).1 refl))
  | inr differs ↦ other_path is name path routes file differs only ∙ sym differs
]

route-start : (path : String) → is_start (route path) ≡ ("/api/scenario/start" == path)
unfolding route routes lookup
route-start path = route_kind is_start "/api/scenario/start" path refl refl refl

route-socket : (path : String) → is_socket (route path) ≡ ("/ws" == path)
unfolding route routes lookup
route-socket path = route_kind is_socket "/ws" path refl refl refl

-- The methods that a handler answers.
abbrev pub allowed : Handler → HttpMethod → Bool
allowed start_handler method = is_post method
allowed stop_handler method = is_post method
allowed web_socket method = true
allowed file_server method = true
allowed _ method = is_get method

module _ (float : Float) where
  -- A request that starts a scenario.
  abbrev pub starts : Request → Server float → Bool
  starts r s =
      "/api/scenario/start" == r.path && (is_post r.method && (is_some r.body && not s.running))

  -- A request that opens a WebSocket.
  abbrev pub opens : Reads float → Request → Bool
  opens e r = "/ws" == r.path && is_some e.handshake

  abbrev pub refuses_method : Reply float → Bool
  refuses_method (answer method_not_allowed) = true
  refuses_method _ = false

  -- What a request does, by the handler that it gets to.
  abbrev Effects : Reads float → Handler → Request → Channels → Server float → Type 0
  Effects e handler r k s =
      let (k', s', reply) = handled float e handler r k s in
      let starting = is_start handler && (is_post r.method && (is_some r.body && not s.running)) in
      let opening = is_socket handler && is_some e.handshake in
      (starting ≡ false → opening ≡ false → (k' ≡ k) × (s' ≡ s))
      × (starting ≡ true → s'.running ≡ true)
      × ((ws : ℕ)
          → is_socket handler ≡ true
          → e.handshake ≡ some ws
          → (has ws s'.ws_clients ≡ true)
            × (subscriber_count s'.event_bus ≡ suc (subscriber_count s.event_bus))
            × (s'.running ≡ s.running)
            × (s'.engine ≡ s.engine))
      × (refuses_method reply ≡ not (allowed handler r.method))

  handled_lem :
      (e : Reads float) (handler : Handler) (r : Request) (k : Channels) (s : Server float)
      → Effects e handler r k s
  unfolding handled handle_status handle_nodes handle_metrics handle_presets handle_scenario_start
      handle_scenario_stop connect subscribe subscriber_count
  handled_lem e status_handler r k s = ground arith
  handled_lem e nodes_handler r k s = ground arith
  handled_lem e metrics_handler r k s = ground arith
  handled_lem e start_handler r k s = ground arith
  handled_lem e stop_handler r k s = ground arith
  handled_lem e presets_handler r k s = ground arith
  handled_lem e web_socket r k s = elim (Option-cases e.handshake) [
    | inl none_made ↦ rw none_made (ground arith)
    | inr (ws, made) ↦ rw made (ground arith)
  ]
  handled_lem e file_server r k s = ground arith

  -- Whatever the path, the method and the body of a request, the server and the channels are left as they were unless it
  -- starts a scenario, that is, one that can be decoded is posted to /api/scenario/start while none runs, or opens a
  -- WebSocket, that is, asks for /ws with a handshake that succeeds. In the first case a scenario runs then. In the second
  -- the connection is one that broadcasts reach, the bus has one subscriber more, and what runs is as it was. A method is
  -- refused by the server's handlers if and only if the handler of the path does not answer it.
  pub respond_lem :
      (e : Reads float) (r : Request) (k : Channels) (s : Server float)
      → let (k', s', reply) = respond float e r k s in
        (starts r s ≡ false → opens e r ≡ false → (k' ≡ k) × (s' ≡ s))
        × (starts r s ≡ true → s'.running ≡ true)
        × ((ws : ℕ)
            → ("/ws" == r.path) ≡ true
            → e.handshake ≡ some ws
            → (has ws s'.ws_clients ≡ true)
              × (subscriber_count s'.event_bus ≡ suc (subscriber_count s.event_bus))
              × (s'.running ≡ s.running)
              × (s'.engine ≡ s.engine))
        × (refuses_method reply ≡ not (allowed (route r.path) r.method))
  unfolding respond
  respond_lem e r k s =
      let starting = λ (b : Bool). b && (is_post r.method && (is_some r.body && not s.running)) in
      let opening = λ (b : Bool). b && is_some e.handshake in
      let (kept, started, connected, refused) = handled_lem e (route r.path) r k s in
      (
        λ h h'. kept (ap starting (route-start r.path) ∙ h) (ap opening (route-socket r.path) ∙ h'),
        λ h. started (ap starting (route-start r.path) ∙ h),
        λ ws h. connected ws (route-socket r.path ∙ h),
        refused,
      )
