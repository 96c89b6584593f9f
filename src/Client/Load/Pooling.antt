-- ===== src/Client/Load/Pooling.antt =====
-- internal/client/client.go and internal/worker/worker.go: what the steps of a pool do to the number of its jobs, of its
-- workers and of those that work.
use chaos_kvs.Base.{
  ℕ, ◌+◌, ◌≤◌, ◌<◌, ◌≡◌, refl, ap, Bool, true, false, List, [], ◌∷◌, length, length-append, arith,
  some,
}
use chaos_kvs.Base.Count.{count_if}
use chaos_kvs.Worker.{
  Pool, Worker, idle, busy, gone, Turn, accepted, refused, recovered, send, begins, ends, Step,
  stop_rest, stop, cancel,
}

abbrev pub works : Worker → Bool
works (busy job) = true
works _ = false

-- How many workers are in a job.
abbrev pub busy_count : List Worker → ℕ
busy_count ws = count_if works ws

pub Turn-count :
    {v w : Worker} {ws ws' : List Worker}
    → Turn v w ws ws'
    → (busy_count ws + busy_count (w ∷ []) ≡ busy_count ws' + busy_count (v ∷ []))
      × (length ws ≡ length ws')
Turn-count Turn.here = omega arith
Turn-count (Turn.there t) = omega (arith, Turn-count t)

-- What a worker's step leaves of the numbers of a pool.
pub data Moved (p q : Pool) (waiting working : ℕ) : Type 0 where
  moved :
      length q.jobs + 1 ≡ length p.jobs + waiting
      → busy_count q.workers + 1 ≡ busy_count p.workers + working
      → length q.workers ≡ length p.workers
      → q.capacity ≡ p.capacity
      → q.context ≡ p.context
      → q.stopping ≡ p.stopping
      → q.is_closed ≡ p.is_closed
      → Moved p q waiting working

pub begins-Moved : {p q : Pool} {job : ℕ} → Step p (begins job) q → Moved p q 0 2
begins-Moved (Step.receives {p} job rest e t) =
    let c = Turn-count t in
    moved (omega (arith, ap length e)) (omega (arith, c)) (omega (arith, c)) refl refl refl refl

pub ends-Moved : {p q : Pool} {job : ℕ} → Step p (ends job) q → Moved p q 1 0
ends-Moved (Step.finishes {p} job t) =
    let c = Turn-count t in moved refl (omega (arith, c)) (omega (arith, c)) refl refl refl refl

-- A submission that is accepted adds one job to a queue that had room.
pub data Added (p q : Pool) : Type 0 where
  added :
      length q.jobs ≡ length p.jobs + 1
      → length p.jobs < p.capacity
      → q.workers ≡ p.workers
      → q.capacity ≡ p.capacity
      → q.context ≡ p.context
      → q.stopping ≡ p.stopping
      → q.is_closed ≡ p.is_closed
      → Added p q

pub send-Added :
    (choice : Bool) (job : ℕ) (p q : Pool) → send choice job p ≡ (accepted, q) → Added p q
unfolding send
send-Added choice job p q e =
    added (ground (arith, length-append p.jobs (job ∷ []))) (ground arith) (ground arith)
      (ground arith) (ground arith) (ground arith) (ground arith)

-- An open pool whose context is not cancelled turns no sender away.
pub send-refused :
    (choice : Bool) (job : ℕ) (p : Pool)
    → recovered (send choice job p).0 ≡ refused
    → p.context ≡ some false
    → p.is_closed ≡ false
    → ⊥
unfolding send
send-refused choice job p e a b = ground arith

pub stop-pool :
    (p q : Pool) → stop p ≡ some q → q ≡ record p { stopping = true; context = cancel p.context }
unfolding stop
stop-pool p q e = ground arith

pub stop_rest-pool :
    (p q : Pool)
    → stop_rest p ≡ some q
    → q ≡ record p { is_closed = true; started = false; stopping = false }
unfolding stop_rest
stop_rest-pool p q e = ground arith

pub busy_count-bound : (ws : List Worker) → busy_count ws ≤ length ws
busy_count-bound [] = omega arith
busy_count-bound (idle ∷ ws) = omega (arith, busy_count-bound ws)
busy_count-bound (busy job ∷ ws) = omega (arith, busy_count-bound ws)
busy_count-bound (gone ∷ ws) = omega (arith, busy_count-bound ws)
