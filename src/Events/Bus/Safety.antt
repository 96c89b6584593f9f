-- ===== src/Events/Bus/Safety.antt =====
-- internal/events/bus.go: no call panics, no buffer overflows, and what a publication does.
use chaos_kvs.Base.{
  ℕ, ◌≤◌, ◌<◌, ◌≡◌, ◌≢◌, refl, ap, ◌∙◌, sym, true, false, some, List, [], ◌∷◌, ◌++◌, arith, length,
  length-append, ltb, nat_eq, if◌then◌else◌,
}
use chaos_kvs.Base.Order.{Order}
use chaos_kvs.Base.Count.{occurs, has, Once, count_if-perm}
use chaos_kvs.Events.{Event}
use chaos_kvs.Events.Bus.{
  Channel, Channels, write, Bus, new_bus, subscribe, close, remove, unsubscribe, publish_each,
  publish, close_each, close_all,
}

pub record IsOpen (k : Channels) (b : Bus) (p : ℕ) : Type 0 where
  pub open_ended : (k.cell p).closed ≡ false
  pub fits : length (k.cell p).buffer ≤ (k.cell p).capacity
  pub sized : (k.cell p).capacity ≡ b.buffer_size
  pub allocated : p < k.next

pub record IsValid (k : Channels) (b : Bus) : Type 0 where
  pub once : Once b.subscribers
  pub served : (p : ℕ) → has p b.subscribers ≡ true → IsOpen k b p

-- A buffer with room takes the event, and a full one drops it.
abbrev pub accept : Event → Channel → Channel
accept e ch =
    if ltb (length ch.buffer) ch.capacity then record ch { buffer = ch.buffer ++ e ∷ [] } else ch

abbrev delivered : Event → List ℕ → Channels → Channels
delivered e [] k = k
delivered e (p ∷ ps) k = delivered e ps (write p (accept e (k.cell p)) k)

cell-delivered :
    (e : Event) (ps : List ℕ) (k : Channels) (q : ℕ)
    → Once ps
    → (delivered e ps k).cell q ≡ (if has q ps then accept e (k.cell q) else k.cell q)
cell-delivered e [] k q o = refl
cell-delivered e (p ∷ ps) k q o = ground (
  arith,
  cell-delivered e ps (write p (accept e (k.cell p)) k) q (λ r. ground (arith, o r)),
  o p,
  o q,
)

next-delivered : (e : Event) (ps : List ℕ) (k : Channels) → (delivered e ps k).next ≡ k.next
next-delivered e [] k = refl
next-delivered e (p ∷ ps) k = next-delivered e ps (write p (accept e (k.cell p)) k)

publish_each_lem :
    (e : Event) (ps : List ℕ) (k : Channels)
    → Once ps
    → ((p : ℕ) → has p ps ≡ true → (k.cell p).closed ≡ false)
    → publish_each e ps k ≡ some (delivered e ps k)
unfolding publish_each
publish_each_lem e [] k o h = refl
publish_each_lem e (p ∷ ps) k o h = ground (
  arith,
  h p,
  publish_each_lem e ps (write p (accept e (k.cell p)) k) (λ r. ground (arith, o r))
      (λ q s. ground (arith, h q, o p)),
)

order-Once : (o : Order) (ps : List ℕ) → Once ps → Once (o.apply ps)
order-Once o ps once p = omega (arith, once p, count_if-perm (nat_eq p) (o.apply-perm ps))

order-has : (o : Order) (ps : List ℕ) (p : ℕ) → has p (o.apply ps) ≡ has p ps
order-has o ps p = ap (ltb 0) (count_if-perm (nat_eq p) (o.apply-perm ps))

-- The channels after a publication.
abbrev pub after_publish : Order → Event → Channels → Bus → Channels
after_publish o e k b = delivered e (o.apply b.subscribers) k

pub publish_lem :
    (o : Order) (e : Event) (k : Channels) (b : Bus) (q : ℕ)
    → IsValid k b
    → (publish o e k b ≡ some (after_publish o e k b))
      × ((after_publish o e k b).cell q
          ≡ (if has q b.subscribers then accept e (k.cell q) else k.cell q))
      × IsValid (after_publish o e k b) b
unfolding publish
publish_lem o e k b q v = (
  publish_each_lem e (o.apply b.subscribers) k (order-Once o b.subscribers v.once)
      (λ p s. (v.served p (sym (order-has o b.subscribers p) ∙ s)).open_ended),
  cell q,
  record {
    once = v.once;
    served = λ p s. ground (
      arith,
      v.served p s,
      cell p,
      next-delivered e (o.apply b.subscribers) k,
      length-append (k.cell p).buffer (e ∷ []),
    );
  },
)
  where
    cell :
        (r : ℕ)
        → (after_publish o e k b).cell r
          ≡ (if has r b.subscribers then accept e (k.cell r) else k.cell r)
    cell r = ground (
      arith,
      cell-delivered e (o.apply b.subscribers) k r (order-Once o b.subscribers v.once),
      order-has o b.subscribers r,
    )

pub new_bus-IsValid : (k : Channels) → IsValid k new_bus
unfolding new_bus
new_bus-IsValid k = record { once = λ p. omega arith; served = λ p s. cc }

pub subscribe-IsValid :
    (k : Channels) (b : Bus) → IsValid k b → let (k', b', p) = subscribe k b in IsValid k' b'
unfolding subscribe
subscribe-IsValid k b v = record {
  once = λ p. ground (arith, v.once p, v.served k.next);
  served = λ p s. ground (arith, v.served p);
}

pub occurs-remove :
    (p q : ℕ) (ps : List ℕ) → occurs q (remove p ps) ≡ (if nat_eq p q then 0 else occurs q ps)
occurs-remove p q [] = ground arith
occurs-remove p q (r ∷ ps) = ground (arith, occurs-remove p q ps)

abbrev shut : ℕ → Channels → Channels
shut p k = write p (record (k.cell p) { closed = true }) k

-- An unsubscribed channel is closed and gets nothing more; its buffer can still be read.
pub unsubscribe_lem :
    (p q : ℕ) (k : Channels) (b : Bus)
    → IsValid k b
    → has p b.subscribers ≡ true
    → (k' : Channels) × (b' : Bus) × (unsubscribe p k b ≡ some (k', b'))
      × (has q b'.subscribers ≡ (if nat_eq p q then false else has q b.subscribers))
      × ((k'.cell p).closed ≡ true)
      × ((k'.cell p).buffer ≡ (k.cell p).buffer)
      × (q ≢ p → k'.cell q ≡ k.cell q)
      × IsValid k' b'
unfolding unsubscribe close
unsubscribe_lem p q k b v s = (
  shut p k,
  record b { subscribers = remove p b.subscribers },
  ground (arith, v.served p s),
  ground (arith, occurs-remove p q b.subscribers),
  ground arith,
  ground arith,
  ground arith,
  record {
    once = λ r. ground (arith, v.once r, occurs-remove p r b.subscribers);
    served = λ r t. ground (arith, v.served r, occurs-remove p r b.subscribers);
  },
)

abbrev shut_each : List ℕ → Channels → Channels
shut_each [] k = k
shut_each (p ∷ ps) k = shut_each ps (shut p k)

close_each_lem :
    (ps : List ℕ) (k : Channels)
    → Once ps
    → ((p : ℕ) → has p ps ≡ true → (k.cell p).closed ≡ false)
    → close_each ps k ≡ some (shut_each ps k)
unfolding close_each close
close_each_lem [] k o h = refl
close_each_lem (p ∷ ps) k o h = ground (
  arith,
  h p,
  close_each_lem ps (shut p k) (λ r. ground (arith, o r)) (λ q s. ground (arith, h q, o p)),
)

cell-shut_each :
    (ps : List ℕ) (k : Channels) (q : ℕ)
    → (shut_each ps k).cell q ≡ (if has q ps then record (k.cell q) { closed = true } else k.cell q)
cell-shut_each [] k q = refl
cell-shut_each (p ∷ ps) k q = ground (arith, cell-shut_each ps (shut p k) q)

-- `Close` closes every subscriber's channel once, and leaves no subscriber.
pub close_all_lem :
    (o : Order) (k : Channels) (b : Bus) (q : ℕ)
    → IsValid k b
    → (k' : Channels) × (b' : Bus) × (close_all o k b ≡ some (k', b'))
      × (b'.subscribers ≡ [])
      × (k'.cell q
          ≡ (if has q b.subscribers then record (k.cell q) { closed = true } else k.cell q))
      × IsValid k' b'
unfolding close_all
close_all_lem o k b q v = (
  shut_each (o.apply b.subscribers) k,
  record b { subscribers = [] },
  ground (
    arith,
    close_each_lem (o.apply b.subscribers) k (order-Once o b.subscribers v.once)
        (λ p s. (v.served p (sym (order-has o b.subscribers p) ∙ s)).open_ended),
  ),
  refl,
  ground (arith, cell-shut_each (o.apply b.subscribers) k q, order-has o b.subscribers q),
  record { once = λ p. omega arith; served = λ p s. cc },
)
