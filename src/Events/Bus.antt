-- ===== src/Events/Bus.antt =====
-- internal/events/bus.go. A channel is a buffer of bounded length that may be closed; channels are
-- shared by pointer between the bus and those who read them. What Go would panic at is `none`.
pub mod Safety
pub mod Delivery
use chaos_kvs.Base.{
  ℕ, suc, ◌+◌, ◌≡◌, Bool, true, false, Option, none, some, List, [], ◌∷◌, ◌++◌, length, ltb, nat_eq,
  if◌then◌else◌,
}
use chaos_kvs.Base.Order.{Order}
use chaos_kvs.Base.Count.{has}
use chaos_kvs.Events.{Event}

pub record Channel : Type 0 where
  pub buffer : List Event
  pub capacity : ℕ
  pub closed : Bool

pub record Channels : Type 0 where
  pub cell : ℕ → Channel
  pub next : ℕ

abbrev pub write : ℕ → Channel → Channels → Channels
write p ch k = record k { cell = λ q. if nat_eq p q then ch else k.cell q }

pub record Bus : Type 0 where
  pub subscribers : List ℕ
  pub buffer_size : ℕ

abbrev pub default_buffer_size : ℕ
default_buffer_size = 100

unfoldable pub new_bus : Bus
new_bus = record { subscribers = []; buffer_size = default_buffer_size }

-- `make(chan Event, b.bufferSize)`, added to the set of subscribers.
unfoldable pub subscribe : Channels → Bus → Channels × Bus × ℕ
subscribe k b = (
  record (write k.next (record { buffer = []; capacity = b.buffer_size; closed = false }) k) {
    next = suc k.next;
  },
  record b { subscribers = k.next ∷ b.subscribers },
  k.next,
)

-- `close(ch)` panics if `ch` is closed.
unfoldable pub close : ℕ → Channels → Option Channels
close p k =
    if (k.cell p).closed then none else some (write p (record (k.cell p) { closed = true }) k)

abbrev pub remove : ℕ → List ℕ → List ℕ
remove p [] = []
remove p (q ∷ qs) = if nat_eq p q then remove p qs else q ∷ remove p qs

unfoldable pub unsubscribe : ℕ → Channels → Bus → Option (Channels × Bus)
unfolding close
unsubscribe p k b =
    if has p b.subscribers
    then elim (close p k) [
      | none ↦ none
      | some k' ↦ some (k', record b { subscribers = remove p b.subscribers })
    ]
    else some (k, b)

-- `select { case ch <- event: default: }` panics if `ch` is closed, and drops the event if it is full.
offer : Event → Channel → Option Channel
offer e ch =
    if ch.closed
    then none
    else some (
        if ltb (length ch.buffer) ch.capacity
        then record ch { buffer = ch.buffer ++ e ∷ [] }
        else ch)

publish_each : Event → List ℕ → Channels → Option Channels
unfolding offer
publish_each e [] k = some k
publish_each e (p ∷ ps) k = elim (offer e (k.cell p)) [
  | none ↦ none
  | some ch ↦ publish_each e ps (write p ch k)
]

unfoldable pub publish : Order → Event → Channels → Bus → Option Channels
unfolding publish_each
publish o e k b = publish_each e (o.apply b.subscribers) k

unfoldable pub subscriber_count : Bus → ℕ
subscriber_count b = length b.subscribers

close_each : List ℕ → Channels → Option Channels
unfolding close
close_each [] k = some k
close_each (p ∷ ps) k = elim (close p k) [ none ↦ none | some k' ↦ close_each ps k' ]

unfoldable pub close_all : Order → Channels → Bus → Option (Channels × Bus)
unfolding close_each
close_all o k b = elim (close_each (o.apply b.subscribers) k) [
  | none ↦ none
  | some k' ↦ some (k', record b { subscribers = [] })
]

-- What `<-ch` gives a reader.
pub data Received : Type 0 where
  event : Event → Received
  blocks ended : Received

abbrev pub after_buffer : Bool → List Event → Received
after_buffer shut (e ∷ es) = event e
after_buffer false [] = blocks
after_buffer true [] = ended

abbrev pub tail : List Event → List Event
tail [] = []
tail (e ∷ es) = es

unfoldable pub receive : ℕ → Channels → Channels × Received
receive p k =
    let ch = k.cell p in
    (write p (record ch { buffer = tail ch.buffer }) k, after_buffer ch.closed ch.buffer)
