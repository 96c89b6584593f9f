-- ===== src/Api/Sockets.antt =====
-- internal/api/server.go, handleWebSocket: connections, their subscriptions to the event bus, and what is forwarded to
-- them. A panic is `none`.
pub mod Pairs
pub mod Sessions
use chaos_kvs.Base.{ℕ, ℕ_eq, suc, Option, none, some, List, [], ◌∷◌, nat_eq, if◌then◌else◌}
use chaos_kvs.Base.Map.{lookup, delete}
use chaos_kvs.Base.Order.{Order}
use chaos_kvs.Base.Count.{has}
use chaos_kvs.Events.{Event}
use chaos_kvs.Events.Bus.{
  Channels, subscribe, unsubscribe, publish, receive, remove, event, blocks, ended,
}
use chaos_kvs.Metrics.{Float}
use chaos_kvs.Api.{Server, new_server}
use chaos_kvs.Api.Reports.{Message, event_message}

module _ (float : Float) where
  -- The connection is put among those that broadcasts reach, and subscribes; the number is its channel.
  unfoldable pub connect : ℕ → Channels → Server float → Channels × Server float × ℕ
  unfolding subscribe
  connect ws k s =
      let (k', bus, ch) = subscribe k s.event_bus in
      (
        k',
        record s {
          event_bus = bus;
          ws_clients = if has ws s.ws_clients then s.ws_clients else ws ∷ s.ws_clients;
        },
        ch,
      )

  -- What is deferred, once a read from the connection fails.
  unfoldable pub disconnect : ℕ → ℕ → Channels → Server float → Option (Channels × Server float)
  unfolding unsubscribe
  disconnect ws ch k s = elim (unsubscribe ch k s.event_bus) [
    | none ↦ none
    | some (k', bus) ↦ some (k', record s { event_bus = bus; ws_clients = remove ws s.ws_clients })
  ]

  -- A turn of the goroutine that forwards: the event that it takes, if there is one, as a message.
  unfoldable pub forward : ℕ → Channels → Channels × Option (Message float)
  unfolding receive
  forward ch k =
      let (k', received) = receive ch k in
      (k', elim received [ event e ↦ some (event_message e) | blocks ↦ none | ended ↦ none ])

  -- The server with its connections that are open, each with its channel. A new connection has a number of its own.
  pub record World : Type 0 where
    pub channels : Channels
    pub server : Server float
    pub sessions : List (ℕ × ℕ)
    pub next_ws : ℕ

  unfoldable pub new_world : Channels → World
  unfolding new_server
  new_world k = record { channels = k; server = new_server float; sessions = []; next_ws = 0 }

  -- A connection comes or goes, a forwarder takes an event, or one is published by a part of a scenario.
  pub data Call : Type 0 where
    opens : Call
    shuts forwards : ℕ → Call
    publishes : Order → Event → Call

  open_one : World → World
  unfolding connect
  open_one w =
      let (k, s, ch) = connect w.next_ws w.channels w.server in
      record {
        channels = k;
        server = s;
        sessions = (w.next_ws, ch) ∷ w.sessions;
        next_ws = suc w.next_ws;
      }

  -- A connection that is not open cannot be shut.
  shut_one : ℕ → World → Option ℕ → Option World
  unfolding disconnect delete
  shut_one ws w none = some w
  shut_one ws w (some ch) = elim (disconnect ws ch w.channels w.server) [
    | none ↦ none
    | some (k, s) ↦ some (record w { channels = k; server = s; sessions = delete ws w.sessions })
  ]

  unfoldable pub step : Call → World → Option World
  unfolding open_one shut_one forward publish lookup
  step opens w = some (open_one w)
  step (shuts ws) w = shut_one ws w (lookup ws w.sessions)
  step (forwards ch) w = some (record w { channels = (forward ch w.channels).0 })
  step (publishes o e) w = elim (publish o e w.channels w.server.event_bus) [
    | none ↦ none
    | some k ↦ some (record w { channels = k })
  ]

  unfoldable pub run : List Call → World → Option World
  unfolding step
  run [] w = some w
  run (c ∷ cs) w = elim (step c w) [ none ↦ none | some w' ↦ run cs w' ]
