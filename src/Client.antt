-- ===== src/Client.antt =====
-- internal/client/client.go. What `math/rand` draws, the readings of the clock, the random bytes of a value and
-- what other goroutines do meanwhile are arguments.
pub mod Requests
pub mod Load
use chaos_kvs.Base.{
  ℕ, ◌+◌, ◌%◌, Bool, true, false, ◌&&◌, Option, none, some, List, [], ◌∷◌, String, ℤ, pos, pos_part,
  ltb_ℤ, ltb, leb, length, get_or, if◌then◌else◌,
}
use Prim.Native.String.{◌++◌ as str_append}
use chaos_kvs.Base.Decimal.{decimal}
use chaos_kvs.Heap.{Heap, write}
use chaos_kvs.Node.{Node, Meanwhile, Bytes}
use chaos_kvs.Node
use chaos_kvs.Cluster.{Cluster}
use mathlib.Core.Option
use chaos_kvs.Metrics.{Float, Metrics, Snapshot, record_success, record_failure, take_snapshot}
use chaos_kvs.Metrics
use chaos_kvs.Worker.{Pool, new_pool, is_cancelled}
use chaos_kvs.Worker

-- A request: which node, which key, and whether it writes.
pub record Job : Type 0 where
  pub pointer : ℕ
  pub key : String
  pub is_write : Bool

-- The job that `createJob` returns, run: `value` is written, and `latency` is measured.
unfoldable pub execute : Meanwhile → Bytes → ℤ → Job → Heap → Metrics → Heap × Metrics
unfolding Node.set Node.get record_success record_failure
execute meanwhile value latency job h m =
    let node = h.cell job.pointer in
    if job.is_write
    then (let (node', refused) = Node.set meanwhile job.key value node in
        (
          write job.pointer node' h,
          elim refused [ none ↦ record_success latency m | some e ↦ record_failure latency m ],
        ))
    else (write job.pointer (Node.get meanwhile job.key node).0 h, record_success latency m)

module _ (float : Float) where
  open float use {F, half, less}

  pub record Config : Type 0 where
    pub num_workers : ℤ
    pub write_ratio : F
    pub key_range : ℤ
    pub value_size : ℤ
    pub requests_limit : ℕ

  unfoldable pub default_config : Config
  default_config = record {
    num_workers = pos 0;
    write_ratio = half;
    key_range = pos 10000;
    value_size = pos 100;
    requests_limit = 0;
  }

  pub record Client : Type 0 where
    pub config : Config
    pub cluster : Cluster
    pub pool : Pool
    pub metrics : Metrics
    pub running : Bool

  unfoldable pub new : ℕ → ℕ → Cluster → Config → Client
  unfolding new_pool Metrics.new
  new num_cpu now c config = record {
    config = config;
    cluster = c;
    pool = new_pool num_cpu config.num_workers;
    metrics = Metrics.new now;
    running = false;
  }

  unfoldable pub start : Bool → Client → Client
  unfolding Worker.start
  start cancelled c =
      if c.running then c else record c { running = true; pool = Worker.start cancelled c.pool }

  -- `wait` is what the generating loop and the workers make of the client while Stop waits for them, first for the loop,
  -- once all are told to end; `none` is the panic of the pool's Stop.
  unfoldable pub stop : (Client → Client) → Client → Option Client
  unfolding Worker.stop Worker.stop_rest
  stop wait c =
      if c.running
      then elim (Worker.stop c.pool) [
        | none ↦ some (record c { running = false })
        | some stopping ↦
            let c' = wait (record c { running = false; pool = stopping }) in
            elim (Worker.stop_rest c'.pool) [
              | none ↦ none
              | some pool ↦ some (record c' { running = false; pool = pool })
            ]
      ]
      else some c

  abbrev pub limit_reached : Client → Bool
  limit_reached c =
      ltb 0 c.config.requests_limit && leb c.config.requests_limit c.metrics.total_requests

  -- What a round of the generating loop comes to: `Intn` panics where the range of the keys is not positive.
  pub data Round : Type 0 where
    returns panics : Round
    requests : Job → Round

  -- One round of `generateRequests`, up to the submission, over the nodes that were read before the loop. The
  -- first two numbers are reduced as `Intn` reduces them; the third is `Float64`'s.
  unfoldable pub generate_request : ℕ → ℕ → F → List ℕ → Client → Round
  generate_request r k x targets c =
      if is_cancelled c.pool
      then returns
      else if limit_reached c
      then returns
      else if ltb_ℤ (pos 0) c.config.key_range
      then requests (record {
        pointer = get_or targets (r % length targets) 0;
        key = str_append "key-" (decimal (k % pos_part c.config.key_range));
        is_write = less x c.config.write_ratio;
      })
      else panics

  unfoldable pub get_metrics : Client → Metrics
  get_metrics c = c.metrics

  unfoldable pub is_running : Client → Bool
  is_running c = c.running

  -- A run from the start to the stop, with the snapshot after it: `lapse` is what the goroutines make of the client
  -- until it is stopped.
  unfoldable pub run_between :
      Bool
      → (Client → Client)
      → (Client → Client)
      → (ℕ → ℕ)
      → Client
      → Option (Client × Snapshot float)
  unfolding start stop take_snapshot
  run_between cancelled lapse wait clock c =
      Option.map (λ c'. (c', take_snapshot float (λ i. c'.metrics) clock))
        (stop wait (lapse (start cancelled c)))

  -- The wait ends with the time or the cancellation.
  unfoldable pub run_for :
      Bool
      → (ℤ → Client → Client)
      → (Client → Client)
      → (ℕ → ℕ)
      → ℤ
      → Client
      → Option (Client × Snapshot float)
  unfolding run_between
  run_for cancelled lapse wait clock duration c =
      run_between cancelled (lapse duration) wait clock c

  -- The wait ends with the generating loop.
  unfoldable pub run_requests :
      Bool
      → (Client → Client)
      → (Client → Client)
      → (ℕ → ℕ)
      → ℕ
      → Client
      → Option (Client × Snapshot float)
  unfolding run_between
  run_requests cancelled lapse wait clock count c =
      run_between cancelled lapse wait clock
        (record c { config = record c.config { requests_limit = count } })
