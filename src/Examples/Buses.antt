-- ===== src/Examples/Buses.antt =====
-- A bus with one subscriber.
use chaos_kvs.Base.{ℕ, ◌≡◌, refl, false, some, List, [], ◌∷◌, ◌++◌, String_eq, arith}
use chaos_kvs.Base.Order.{in_order, backwards}
use chaos_kvs.Events.{Event, new_recovery_start_event}
use chaos_kvs.Events.Bus.{Channels, Bus}
use chaos_kvs.Events.Bus.Delivery.{
  Call, subscribes, publishes, receives, State, Good, run, published, read_by, bus_safe, delivery,
}

abbrev event_a : Event
event_a = new_recovery_start_event 1 "a" 0

abbrev event_b : Event
event_b = new_recovery_start_event 2 "b" 0

abbrev channels : Channels
channels = record { cell = λ q. record { buffer = []; capacity = 2; closed = false }; next = 1 }

abbrev bus : Bus
bus = record { subscribers = 0 ∷ []; buffer_size = 2 }

bus-Good : Good (channels, bus)
bus-Good = record {
  once = λ p. ground arith;
  served = λ p e. record {
    open_ended = refl;
    fits = omega arith;
    sized = refl;
    allocated = ground arith;
  };
}

-- The reader takes the first event between the two publications.
abbrev calls : List Call
calls = publishes in_order event_a ∷ receives 0 ∷ subscribes ∷ publishes backwards event_b ∷ []

state_after : (s : State) × (run calls (channels, bus) ≡ some s) × Good s
state_after = bus_safe calls (channels, bus) bus-Good

bus_safe_example :
    let cs : List Call = calls in
    let s : State = (channels, bus) in (s' : State) × (run cs s ≡ some s') × Good s'
bus_safe_example = bus_safe calls (channels, bus) bus-Good

delivery_example :
    let cs : List Call = calls in
    let p : ℕ = 0 in
    let s : State = (channels, bus) in
    let s' : State = state_after.0 in
    read_by p cs s ++ (s'.0.cell p).buffer ≡ (s.0.cell p).buffer ++ published cs
delivery_example =
    delivery calls 0 (channels, bus) state_after.0 bus-Good refl (tt, (tt, (tt, (tt, tt))))
      (omega arith) state_after.1
