-- ===== src/Client/Load/Holding.antt =====
-- internal/client/client.go: what the generating loop, the queue and the workers keep of the requests, whatever they do.
use chaos_kvs.Base.{
  ℕ, ◌+◌, ◌≤◌, ◌≡◌, refl, ap, ◌∙◌, sym, Bool, true, false, List, length, arith, some, none, Option,
}
use chaos_kvs.Metrics.{Float}
use chaos_kvs.Worker.{Pool, Worker, idle, gone, Turn, is_cancelled, cancel}
use chaos_kvs.Client.Load.{Generator, sending, offering, returned, Load, with_pool}
use chaos_kvs.Client.Load.Pooling.{busy_count, Turn-count, Moved, moved}

-- A request that Submit has been called for and that is not yet accepted.
abbrev pub owed : Generator → ℕ
owed (sending job) = 1
owed (offering job) = 1
owed _ = 0

-- A pool whose context is not cancelled is started, and is not stopping or closed.
abbrev pub Alive : Pool → Type 0
Alive p =
    is_cancelled p ≡ false → (p.context ≡ some false) × (p.stopping ≡ false) × (p.is_closed ≡ false)

abbrev context_cancelled : Option Bool → Bool
context_cancelled c = elim c [ none ↦ false | some cancelled ↦ cancelled ]

pub same-Alive :
    (p q : Pool)
    → q.context ≡ p.context
    → q.stopping ≡ p.stopping
    → q.is_closed ≡ p.is_closed
    → Alive p
    → (is_cancelled q ≡ is_cancelled p) × Alive q
same-Alive p q context stopping closed alive =
    let same = ap context_cancelled context in
    (same, λ h. let (a, b, c) = alive (sym same ∙ h) in (context ∙ a, stopping ∙ b, closed ∙ c))

pub cancelled-Alive : (p : Pool) → Alive p → Alive (record p { context = cancel p.context })
cancelled-Alive p v h = ground (arith, v, h)

pub live_before :
    (p : Pool)
    → is_cancelled (record p { context = cancel p.context }) ≡ false
    → is_cancelled p ≡ false
live_before p h = ground (arith, h)

pub stops-Alive :
    (p : Pool) → Alive p → Alive (record p { stopping = true; context = cancel p.context })
stops-Alive p v h = ground (arith, v, h)

pub closes-Alive :
    (p : Pool)
    → Alive p
    → p.stopping ≡ true
    → Alive (record p { is_closed = true; started = false; stopping = false })
closes-Alive p v s h = ground (arith, v h, s)

module _ (float : Float) (limit capacity workers : ℕ) where
  abbrev pub room : ℕ
  room = limit + capacity + workers

  -- The requests accepted are those performed, those that wait and those that a worker performs.
  pub record Holds (l : Load float) : Type 0 where
    pub limited : l.client.config.requests_limit ≡ limit
    pub sized : l.client.pool.capacity ≡ capacity
    pub staffed : length l.client.pool.workers ≡ workers
    pub queued : length l.client.pool.jobs ≤ capacity
    pub accounted :
        length l.accepted_requests
        ≡ l.client.metrics.total_requests
          + length l.client.pool.jobs
          + busy_count l.client.pool.workers
    pub bounded : length l.accepted_requests + owed l.generator ≤ room
    pub alive : Alive l.client.pool
    pub reached :
        l.generator ≡ returned
        → is_cancelled l.client.pool ≡ false
        → limit ≤ l.client.metrics.total_requests

  -- A pool with the same room and the same number of workers, whose jobs are no more than fit and, with those that are
  -- worked on, are as many as before.
  pub repool-Holds :
      (l : Load float) (p : Pool)
      → Holds l
      → p.capacity ≡ l.client.pool.capacity
      → length p.workers ≡ length l.client.pool.workers
      → length p.jobs ≤ capacity
      → length p.jobs + busy_count p.workers
        ≡ length l.client.pool.jobs + busy_count l.client.pool.workers
      → Alive p
      → (is_cancelled p ≡ false → is_cancelled l.client.pool ≡ false)
      → Holds (with_pool float p l)
  repool-Holds l p v room_same staff fits balance alive back = record {
    limited = v.limited;
    sized = room_same ∙ v.sized;
    staffed = staff ∙ v.staffed;
    queued = fits;
    accounted = omega (arith, v.accounted, balance);
    bounded = v.bounded;
    alive = alive;
    reached = λ g h. v.reached g (back h);
  }

  pub begins-Holds :
      (l : Load float) (p : Pool)
      → Holds l
      → Moved l.client.pool p 0 2
      → Holds (with_pool float p l)
  begins-Holds l p v (moved jobs working staff room_same context stopping closed) =
      let (same, alive) = same-Alive l.client.pool p context stopping closed v.alive in
      repool-Holds l p v room_same staff (omega (arith, v.queued)) (omega arith) alive
        (λ h. sym same ∙ h)

  pub leaves-Holds :
      (l : Load float) (ws : List Worker)
      → Holds l
      → Turn idle gone l.client.pool.workers ws
      → Holds (with_pool float (record l.client.pool { workers = ws }) l)
  leaves-Holds l ws v t =
      repool-Holds l (record l.client.pool { workers = ws }) v refl (omega (arith, Turn-count t))
        v.queued (omega (arith, Turn-count t)) v.alive (λ h. h)
