-- ===== src/Events/Bus/Delivery.antt =====
-- internal/events/bus.go under any interleaving of its callers: a history of calls is a list.
use chaos_kvs.Base.{
  ℕ, ◌+◌, ◌≤◌, ◌≡◌, ◌≢◌, refl, ap, true, false, Option, none, some, List, [], ◌∷◌, ◌++◌, arith,
  length, length-append, nat_eq, if◌then◌else◌, Bool-cases, inl, inr,
}
use mathlib.Core.List.{append_assoc, append-nil}
use chaos_kvs.Base.Order.{Order}
use chaos_kvs.Base.Count.{has}
use chaos_kvs.Events.{Event}
use chaos_kvs.Events.Bus.{
  close, Channels, Bus, subscribe, unsubscribe, publish, close_all, receive, tail, event,
}
use chaos_kvs.Events.Bus.Safety.{
  IsValid, after_publish, publish_lem, subscribe-IsValid, unsubscribe_lem, close_all_lem,
  occurs-remove,
}

-- A call, with the runtime's choices.
pub data Call : Type 0 where
  subscribes : Call
  unsubscribes : ℕ → Call
  publishes : Order → Event → Call
  closes : Order → Call
  receives : ℕ → Call

abbrev pub State : Type 0
State = Channels × Bus

abbrev pub Good : State → Type 0
Good s = IsValid s.0 s.1

-- `none` is a panic.
unfoldable pub step : Call → State → Option State
step subscribes (k, b) = let (k', b', p) = subscribe k b in some (k', b')
step (unsubscribes p) (k, b) = unsubscribe p k b
step (publishes o e) (k, b) = elim (publish o e k b) [ none ↦ none | some k' ↦ some (k', b) ]
step (closes o) (k, b) = close_all o k b
step (receives p) (k, b) = some ((receive p k).0, b)

unfoldable pub run : List Call → State → Option State
run [] s = some s
run (c ∷ cs) s = elim (step c s) [ none ↦ none | some s' ↦ run cs s' ]

length-tail : (es : List Event) → length (tail es) ≤ length es
length-tail [] = omega arith
length-tail (e ∷ es) = omega arith

pub receive-IsValid : (p : ℕ) (k : Channels) (b : Bus) → IsValid k b → IsValid (receive p k).0 b
unfolding receive
receive-IsValid p k b v = record {
  once = v.once;
  served = λ q s. ground (arith, v.served q s, length-tail (k.cell p).buffer);
}

unsubscribe_other :
    (p : ℕ) (k : Channels) (b : Bus) → has p b.subscribers ≡ false → unsubscribe p k b ≡ some (k, b)
unfolding unsubscribe
unsubscribe_other p k b h = rw h

-- No call panics on a bus in order, and the bus stays so.
pub step_safe : (c : Call) (s : State) → Good s → (s' : State) × (step c s ≡ some s') × Good s'
unfolding step
step_safe subscribes (k, b) v = (_, refl, subscribe-IsValid k b v)
step_safe (unsubscribes p) (k, b) v = elim (Bool-cases (has p b.subscribers)) [
  | inl s ↦ let (k', b', e, _, _, _, _, v') = unsubscribe_lem p p k b v s in ((k', b'), e, v')
  | inr s ↦ ((k, b), unsubscribe_other p k b s, v)
]
step_safe (publishes o e) (k, b) v =
    let (done, _, v') = publish_lem o e k b 0 v in ((after_publish o e k b, b), rw (done, step), v')
step_safe (closes o) (k, b) v =
    let (k', b', e, _, _, v') = close_all_lem o k b 0 v in ((k', b'), e, v')
step_safe (receives p) (k, b) v = (_, refl, receive-IsValid p k b v)

-- No history of calls on a bus in order panics, and the bus stays in order: its subscribers are distinct open
-- channels, whose buffers keep to their capacity.
pub bus_safe : (cs : List Call) (s : State) → Good s → (s' : State) × (run cs s ≡ some s') × Good s'
unfolding run
bus_safe [] s v = (s, refl, v)
bus_safe (c ∷ cs) s v =
    let (s', e, v') = step_safe c s v in
    let (s'', e', v'') = bus_safe cs s' v' in (s'', rw (e, run) e', v'')

-- What a history publishes, and what the owner of channel `p` reads in its course.
abbrev pub published : List Call → List Event
published [] = []
published (publishes o e ∷ cs) = e ∷ published cs
published (_ ∷ cs) = published cs

abbrev pub read_now : ℕ → Call → State → List Event
read_now p (receives q) s = elim (receive q s.0).1 [
  | event e ↦ if nat_eq p q then e ∷ [] else []
  | _ ↦ []
]
read_now p _ s = []

pub read_by : ℕ → List Call → State → List Event
read_by p [] s = []
read_by p (c ∷ cs) s = read_now p c s ++ elim (step c s) [ none ↦ [] | some s' ↦ read_by p cs s' ]

-- The owner of channel `p` keeps its subscription.
abbrev pub KeepsOn : ℕ → Call → Type 0
KeepsOn p (unsubscribes q) = q ≢ p
KeepsOn p (closes o) = ⊥
KeepsOn p _ = Unit

abbrev pub Keeps : ℕ → List Call → Type 0
Keeps p [] = Unit
Keeps p (c ∷ cs) = KeepsOn p c × Keeps p cs

-- One call, as channel `p` sees it: it has room for the event that is published, if one is.
step_view :
    (c : Call) (p : ℕ) (s s' : State)
    → Good s
    → has p s.1.subscribers ≡ true
    → KeepsOn p c
    → length (s.0.cell p).buffer + length (published (c ∷ [])) ≤ s.1.buffer_size
    → step c s ≡ some s'
    → (has p s'.1.subscribers ≡ true)
      × (s'.1.buffer_size ≡ s.1.buffer_size)
      × (read_now p c s ++ (s'.0.cell p).buffer ≡ (s.0.cell p).buffer ++ published (c ∷ []))
unfolding step
step_view subscribes p (k, b) s' v sub keep room e =
    unfold subscribe in ground (arith, append-nil (k.cell p).buffer, v.served p sub)
step_view (unsubscribes q) p (k, b) s' v sub keep room e =
    unfold unsubscribe close in
    ground (arith, append-nil (k.cell p).buffer, occurs-remove q p b.subscribers)
step_view (publishes o x) p (k, b) s' v sub keep room e =
    ground (arith, publish_lem o x k b p v, v.served p sub)
step_view (closes o) p (k, b) s' v sub keep room e = absurd keep
step_view (receives q) p (k, b) s' v sub keep room e =
    unfold receive in ground (arith, append-nil (k.cell p).buffer)

published-cons :
    (c : Call) (cs : List Call) → published (c ∷ cs) ≡ published (c ∷ []) ++ published cs
published-cons (publishes o e) cs = refl
published-cons subscribes cs = refl
published-cons _ cs = refl

splice :
    (rn rb rest tb sb p1 p2 : List Event)
    → rn ++ tb ≡ sb ++ p1
    → rb ++ rest ≡ tb ++ p2
    → (rn ++ rb) ++ rest ≡ sb ++ (p1 ++ p2)
splice rn rb rest tb sb p1 p2 h k =
    cc (append_assoc rn rb rest, append_assoc rn tb p2, append_assoc sb p1 p2)

-- On a bus in order, over a history in which the owner of a subscribed channel keeps its subscription, with no
-- more events published than the buffer has room for, what the owner reads and then finds in its buffer is what
-- was in it, followed by all that was published, in order.
pub delivery :
    (cs : List Call) (p : ℕ) (s s' : State)
    → Good s
    → has p s.1.subscribers ≡ true
    → Keeps p cs
    → length (s.0.cell p).buffer + length (published cs) ≤ s.1.buffer_size
    → run cs s ≡ some s'
    → read_by p cs s ++ (s'.0.cell p).buffer ≡ (s.0.cell p).buffer ++ published cs
unfolding run read_by
delivery [] p s s' v sub keep room e = ground (arith, append-nil (s.0.cell p).buffer)
delivery (c ∷ cs) p s s' v sub keep room e =
    let (t, done, v') = step_safe c s v in
    let room_now : length (s.0.cell p).buffer + length (published (c ∷ [])) ≤ s.1.buffer_size =
      omega (
        arith,
        ap length (published-cons c cs),
        length-append {0} (published (c ∷ [])) (published cs),
      ) in
    let (sub', size', view) = step_view c p s t v sub keep.0 room_now done in
    let rest =
      delivery cs p t s' v' sub' keep.1
        (omega (
          arith,
          size',
          ap length view,
          ap length (published-cons c cs),
          length-append {0} (published (c ∷ [])) (published cs),
          length-append {0} (read_now p c s) (t.0.cell p).buffer,
          length-append {0} (s.0.cell p).buffer (published (c ∷ [])),
        ))
        (rw (done, run) at e) in
    rw (done, read_by, published-cons c cs)
      (splice (read_now p c s) (read_by p cs t) (s'.0.cell p).buffer (t.0.cell p).buffer
        (s.0.cell p).buffer (published (c ∷ [])) (published cs) view rest)
