-- ===== src/Client/Load.antt =====
-- internal/client/client.go: the generating loop, the pool that it feeds and the jobs that the workers run, as steps
-- in any order. A job is known to the pool by its place among the requests that the pool has accepted.
pub mod Pooling
pub mod Holding
pub mod Generating
pub mod Accounts
pub mod Limit
use chaos_kvs.Base.{
  ℕ, ◌+◌, ◌≡◌, Bool, true, false, List, [], ◌∷◌, ◌++◌, ℤ, leb, length, get_or, if◌then◌else◌, some,
  ◌⊎◌,
}
use chaos_kvs.Base.Order.{Order}
use chaos_kvs.Heap.{Heap}
use chaos_kvs.Node.{Meanwhile, Bytes}
use chaos_kvs.Cluster.{nodes}
use chaos_kvs.Metrics.{Float}
use chaos_kvs.Worker.{
  Pool, Worker, idle, gone, Turn, accepted, refused, send, recovered, begins, ends, Step,
  is_cancelled, all_gone, stop_rest,
}
use chaos_kvs.Worker
use chaos_kvs.Client.{Client, Job, execute, generate_request, returns, requests}
use chaos_kvs.Client

-- The goroutine of `generateRequests`: at the head of its loop, in Submit before its checks or at its `select`, or
-- returned.
pub data Generator : Type 0 where
  checking : Generator
  sending offering : Job → Generator
  returned : Generator

-- What a job number that the pool cannot have accepted would stand for.
abbrev pub no_job : Job
no_job = record { pointer = 0; key = ""; is_write = true }

module _ (float : Float) where
  open float use {F}

  pub record Load : Type 0 where
    pub client : Client float
    pub generator : Generator
    pub targets : List ℕ
    pub accepted_requests : List Job
    pub heap : Heap

  -- Start, of a client that does not run, and the nodes that the loop reads first.
  unfoldable pub begin_load : Bool → Order → Heap → Client float → Load
  unfolding Client.start nodes
  begin_load cancelled order h c = record {
    client = Client.start float cancelled c;
    generator = if leb (length (nodes order c.cluster)) 0 then returned else checking;
    targets = nodes order c.cluster;
    accepted_requests = [];
    heap = h;
  }

  abbrev pub with_pool : Pool → Load → Load
  with_pool p l = record l { client = record l.client { pool = p } }

  -- The end of a job: the node and the metrics change as the job says.
  unfoldable pub performed : Meanwhile → Bytes → ℤ → ℕ → Pool → Load → Load
  unfolding execute
  performed meanwhile value latency job p l =
      let (h, m) =
        execute meanwhile value latency (get_or l.accepted_requests job no_job) l.heap
          l.client.metrics in
      record l { client = record l.client { pool = p; metrics = m }; heap = h }

  -- Stop first cancels, then waits for the loop to return, and then stops the pool. Other parts change the heap.
  pub data Advance : Load → Load → Type 0 where
    draws :
        {l : Load} (r k : ℕ) (x : F) (job : Job)
        → l.generator ≡ checking
        → generate_request float r k x l.targets l.client ≡ requests job
        → Advance l (record l { generator = sending job })
    quits :
        {l : Load} (r k : ℕ) (x : F)
        → l.generator ≡ checking
        → generate_request float r k x l.targets l.client ≡ returns
        → Advance l (record l { generator = returned })
    passes :
        {l : Load} (job : Job)
        → l.generator ≡ sending job
        → l.client.pool.stopping ≡ false
        → l.client.pool.context ≡ some false
        → Advance l (record l { generator = offering job })
    gives_up :
        {l : Load} (job : Job)
        → l.generator ≡ sending job
        → (l.client.pool.stopping ≡ true) ⊎ (is_cancelled l.client.pool ≡ true)
        → Advance l (record l { generator = returned })
    hands_over :
        {l : Load} {p : Pool} (choice : Bool) (job : Job)
        → l.generator ≡ offering job
        → send choice (length l.accepted_requests) l.client.pool ≡ (accepted, p)
        → Advance l (record (with_pool p l) {
          generator = checking;
          accepted_requests = l.accepted_requests ++ job ∷ [];
        })
    turned_away :
        {l : Load} (choice : Bool) (job : Job)
        → l.generator ≡ offering job
        → recovered (send choice (length l.accepted_requests) l.client.pool).0 ≡ refused
        → Advance l (record l { generator = returned })
    takes :
        {l : Load} {p : Pool} (job : ℕ)
        → Step l.client.pool (begins job) p
        → Advance l (with_pool p l)
    performs :
        {l : Load} {p : Pool} (job : ℕ) (meanwhile : Meanwhile) (value : Bytes) (latency : ℤ)
        → Step l.client.pool (ends job) p
        → Advance l (performed meanwhile value latency job p l)
    leaves :
        {l : Load} {ws : List Worker}
        → (is_cancelled l.client.pool ≡ true)
          ⊎ ((l.client.pool.is_closed ≡ true) × (l.client.pool.jobs ≡ []))
        → Turn idle gone l.client.pool.workers ws
        → Advance l (with_pool (record l.client.pool { workers = ws }) l)
    cancels :
        {l : Load}
        → Advance l
            (with_pool (record l.client.pool { context = Worker.cancel l.client.pool.context }) l)
    stops :
        {l : Load} {p : Pool}
        → l.generator ≡ returned
        → Worker.stop l.client.pool ≡ some p
        → Advance l (with_pool p l)
    closes :
        {l : Load} {p : Pool}
        → l.client.pool.stopping ≡ true
        → all_gone l.client.pool.workers ≡ true
        → stop_rest l.client.pool ≡ some p
        → Advance l (with_pool p l)
    disturbs : {l : Load} (h : Heap) → Advance l (record l { heap = h })

  pub data Course : Load → Load → Type 0 where
    over : {l : Load} → Course l l
    then_on : {k l m : Load} → Advance k l → Course l m → Course k m
