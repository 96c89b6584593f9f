-- ===== src/Worker.antt =====
-- internal/worker/worker.go: a pool of goroutines that take jobs from a buffered channel. A job is known by
-- a number. `ctx` is absent before the first Start, then says whether it is cancelled.
pub mod Queue
pub mod Submission
use chaos_kvs.Base.{
  ℕ, zero, ◌*◌, Bool, true, false, not, ◌&&◌, ◌||◌, Option, none, some, List, [], ◌∷◌, ◌++◌, ℤ, pos,
  pos_part, ltb_ℤ, ltb, length, if◌then◌else◌, suc, ◌≡◌, ◌⊎◌,
}

pub record PoolConfig : Type 0 where
  pub num_workers : ℤ
  pub queue_factor : ℤ

unfoldable pub default_pool_config : PoolConfig
default_pool_config = record { num_workers = pos 0; queue_factor = pos 100 }

-- A goroutine of the pool: at its `select`, in a job, or returned.
pub data Worker : Type 0 where
  idle : Worker
  busy : ℕ → Worker
  gone : Worker

pub record Pool : Type 0 where
  pub num_workers : ℕ
  pub capacity : ℕ
  pub jobs : List ℕ  -- the next to be received is first
  pub is_closed : Bool
  pub context : Option Bool
  pub workers : List Worker
  pub started : Bool
  pub stopping : Bool

-- The number of processors is the runtime's.
unfoldable pub new_pool_with_config : ℕ → PoolConfig → Pool
new_pool_with_config num_cpu config =
    let num_workers =
      if ltb_ℤ (pos 0) config.num_workers then pos_part config.num_workers else num_cpu in
    let queue_factor =
      if ltb_ℤ (pos 0) config.queue_factor then pos_part config.queue_factor else 100 in
    record {
      num_workers = num_workers;
      capacity = num_workers * queue_factor;
      jobs = [];
      is_closed = false;
      context = none;
      workers = [];
      started = false;
      stopping = false;
    }

unfoldable pub new_pool : ℕ → ℤ → Pool
unfolding new_pool_with_config default_pool_config
new_pool num_cpu num_workers =
    new_pool_with_config num_cpu (record default_pool_config { num_workers = num_workers })

abbrev pub idle_workers : ℕ → List Worker → List Worker
idle_workers zero ws = ws
idle_workers (suc n) ws = idle ∷ idle_workers n ws

-- The flag says whether the context given is cancelled.
unfoldable pub start : Bool → Pool → Pool
start cancelled p = if p.started then p else record p {
  context = some cancelled;
  started = true;
  workers = idle_workers p.num_workers p.workers;
}

pub data Sent : Type 0 where
  accepted refused panics waits : Sent

abbrev pub is_cancelled : Pool → Bool
is_cancelled p = elim p.context [ none ↦ false | some cancelled ↦ cancelled ]

-- The `select` that sends. When both cases are ready, the flag says whether the runtime takes `ctx.Done()`.
unfoldable pub send : Bool → ℕ → Pool → Sent × Pool
send choice job p =
    let ready = p.is_closed || ltb (length p.jobs) p.capacity in
    if is_cancelled p && (choice || not ready)
    then (refused, p)
    else if p.is_closed
    then (panics, p)
    else if ready
    then (accepted, record p { jobs = p.jobs ++ job ∷ [] })
    else (waits, p)

-- With no other goroutine between its checks and its `select`.
unfoldable pub submit_wait : Bool → ℕ → Pool → Sent × Pool
unfolding send
submit_wait choice job p = if p.stopping then (refused, p) else elim p.context [
  | none ↦ (panics, p)
  | some cancelled ↦ if cancelled then (refused, p) else send choice job p
]

-- A panic is recovered.
abbrev pub recovered : Sent → Sent
recovered panics = refused
recovered sent = sent

unfoldable pub submit : Bool → ℕ → Pool → Sent × Pool
unfolding submit_wait
submit choice job p = let sent = submit_wait choice job p in (recovered sent.0, sent.1)

abbrev pub cancel : Option Bool → Option Bool
cancel none = none
cancel (some cancelled) = some true

-- Stop up to `wg.Wait()`; nothing if the pool is not started.
unfoldable pub stop : Pool → Option Pool
stop p = if p.started then some (record p { stopping = true; context = cancel p.context }) else none

abbrev pub is_gone : Worker → Bool
is_gone gone = true
is_gone w = false

abbrev pub all_gone : List Worker → Bool
all_gone [] = true
all_gone (w ∷ ws) = is_gone w && all_gone ws

-- The rest of Stop, once every worker has returned: nothing where `close` panics, on a closed channel.
unfoldable pub stop_rest : Pool → Option Pool
stop_rest p =
    if p.is_closed
    then none
    else some (record p { is_closed = true; started = false; stopping = false })

unfoldable pub queue_size : Pool → ℕ
queue_size p = length p.jobs

-- One worker's state changes.
pub data Turn : Worker → Worker → List Worker → List Worker → Type 0 where
  here : {v w : Worker} {ws : List Worker} → Turn v w (v ∷ ws) (w ∷ ws)
  there : {v w u : Worker} {ws ws' : List Worker} → Turn v w ws ws' → Turn v w (u ∷ ws) (u ∷ ws')

pub data Label : Type 0 where
  quiet : Label
  accepts begins ends : ℕ → Label

-- What the pool's goroutines and its callers may do next, in any order. A sender may have made its checks
-- long before it sends.
pub data Step : Pool → Label → Pool → Type 0 where
  starts : {p : Pool} (cancelled : Bool) → Step p quiet (start cancelled p)
  cancels : {p : Pool} → Step p quiet (record p { context = cancel p.context })
  sends :
      {p p' : Pool} (choice : Bool) (job : ℕ)
      → send choice job p ≡ (accepted, p')
      → Step p (accepts job) p'
  receives :
      {p : Pool} {ws : List Worker} (job : ℕ) (rest : List ℕ)
      → p.jobs ≡ job ∷ rest
      → Turn idle (busy job) p.workers ws
      → Step p (begins job) (record p { jobs = rest; workers = ws })
  finishes :
      {p : Pool} {ws : List Worker} (job : ℕ)
      → Turn (busy job) idle p.workers ws
      → Step p (ends job) (record p { workers = ws })
  leaves :
      {p : Pool} {ws : List Worker}
      → (is_cancelled p ≡ true) ⊎ ((p.is_closed ≡ true) × (p.jobs ≡ []))
      → Turn idle gone p.workers ws
      → Step p quiet (record p { workers = ws })
  stops : {p p' : Pool} → stop p ≡ some p' → Step p quiet p'
  closes : {p p' : Pool} → all_gone p.workers ≡ true → stop_rest p ≡ some p' → Step p quiet p'

pub data Trace : Pool → List Label → Pool → Type 0 where
  done : {p : Pool} → Trace p [] p
  then_do :
      {p q r : Pool} {l : Label} {ls : List Label} → Step p l q → Trace q ls r → Trace p (l ∷ ls) r
