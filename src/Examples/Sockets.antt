-- ===== src/Examples/Sockets.antt =====
-- Two connections, of which one goes.
use chaos_kvs.Base.{◌≡◌, ℕ_eq, some, List, [], ◌∷◌, if◌then◌else◌, true, length, false}
use chaos_kvs.Base.Map.{lookup, is_some}
use chaos_kvs.Base.Order.{in_order, backwards}
use chaos_kvs.Examples.{float}
use chaos_kvs.Events.{Event, new_chaos_resume_event}
use chaos_kvs.Events.Bus.{Channels, subscriber_count}
use chaos_kvs.Api.Reports.{event_message, broadcast}
use chaos_kvs.Api.Sockets.{World, Call, opens, shuts, forwards, publishes, new_world, run}
use chaos_kvs.Api.Sockets.Sessions.{sent_to, sessions_lem}

abbrev channels : Channels
channels = record { cell = λ q. record { buffer = []; capacity = 2; closed = false }; next = 1 }

abbrev happening : Event
happening = new_chaos_resume_event 0 "a"

-- The second shut finds no connection.
abbrev calls : List (Call float)
calls =
    opens
    ∷ opens
    ∷ publishes backwards happening
    ∷ forwards 1
    ∷ shuts 0
    ∷ shuts 0
    ∷ publishes in_order happening
    ∷ []

sessions_lem_example :
    (w : World float) × (run float calls (new_world float channels) ≡ some w)
    × (subscriber_count w.server.event_bus ≡ length w.sessions)
    × (sent_to float 1 (broadcast float (λ _. true) backwards (event_message happening) w.server)
        ≡ (if is_some (lookup 1 w.sessions) then 1 else 0))
sessions_lem_example = sessions_lem float calls channels backwards (event_message happening) 1
