-- ===== src/Client/Load/Limit.antt =====
-- internal/client/client.go: how many requests a run with a limit performs.
use chaos_kvs.Base.{
  ℕ, zero, suc, ◌+◌, ◌≤◌, ◌<◌, ◌≡◌, refl, Bool, false, [], length, arith, some, ℤ, get_or, inl, inr,
  ◌⊎◌,
}
use chaos_kvs.Base.Order.{Order}
use chaos_kvs.Heap.{Heap}
use chaos_kvs.Metrics.{Float, Metrics, Snapshot, take_snapshot}
use chaos_kvs.Metrics
use chaos_kvs.Worker
use chaos_kvs.Cluster.{Cluster, nodes}
use chaos_kvs.Worker.{
  Pool, new_pool, new_pool_with_config, idle_workers, Worker, is_cancelled, stop_rest, stop,
}
use chaos_kvs.Client
use chaos_kvs.Client.{Client, new, start, run_requests, run_between}
use chaos_kvs.Client.Load.{
  returned, Load, Advance, Course, performed, begin_load, with_pool, no_job,
}
use chaos_kvs.Client.Load.Pooling.{busy_count, moved, ends-Moved}
use chaos_kvs.Client.Load.Holding.{room, Holds}
use chaos_kvs.Client.Load.Accounts.{Advance-Holds, Course-Holds, total-execute}

idle_workers-numbers :
    (n : ℕ) → (length (idle_workers n []) ≡ n) × (busy_count (idle_workers n []) ≡ 0)
idle_workers-numbers zero = (refl, refl)
idle_workers-numbers (suc n) = omega (arith, idle_workers-numbers n)

-- What RunRequests starts from: a new client with its limit set.
abbrev pub limited_client :
    (float : Float) → ℕ → ℕ → Cluster → Client.Config float → ℕ → Client float
limited_client float num_cpu now cluster config count =
    let c = new float num_cpu now cluster config in
    record c { config = record c.config { requests_limit = count } }

begin_load-Holds :
    (float : Float) (num_cpu now count : ℕ) (cluster : Cluster) (config : Client.Config float)
    (cancelled : Bool) (order : Order) (h : Heap)
    → 0 < length (nodes order cluster)
    → let pool = new_pool num_cpu config.num_workers in
      Holds float count pool.capacity pool.num_workers
        (begin_load float cancelled order h (limited_client float num_cpu now cluster config count))
unfolding begin_load start new new_pool new_pool_with_config Worker.start Metrics.new
    Metrics.new_with_config
begin_load-Holds float num_cpu now count cluster config cancelled order h some_node =
    let numbers = idle_workers-numbers (new_pool num_cpu config.num_workers).num_workers in
    record {
      limited = refl;
      sized = refl;
      staffed = omega (arith, numbers);
      queued = omega arith;
      accounted = omega (arith, numbers);
      bounded = ground arith;
      alive = λ e. ground arith;
      reached = λ g e. absurd (ground arith);
    }

module _ (float : Float) (limit capacity workers : ℕ) (positive : 0 < limit)
    (small : room float limit capacity workers < 18446744073709551616) where
  Advance-grows :
      {k l : Load float}
      → Holds float limit capacity workers k
      → Advance float k l
      → k.client.metrics.total_requests ≤ l.client.metrics.total_requests
  unfolding performed
  Advance-grows v (Advance.performs {l} {p} job meanwhile value latency s) = elim (ends-Moved s) [
    | moved _ working _ _ _ _ _ ↦ omega (
      arith,
      v.accounted,
      v.bounded,
      total-execute float limit capacity workers meanwhile value latency
          (get_or l.accepted_requests job no_job) l.heap l.client.metrics
          (omega (arith, v.accounted, v.bounded)),
    )
  ]
  Advance-grows v (Advance.draws r k x job g e) = omega arith
  Advance-grows v (Advance.quits r k x g e) = omega arith
  Advance-grows v (Advance.hands_over choice job g e) = omega arith
  Advance-grows v (Advance.passes job g a b) = omega arith
  Advance-grows v (Advance.gives_up job g h) = omega arith
  Advance-grows v (Advance.turned_away choice job g e) = omega arith
  Advance-grows v (Advance.takes job s) = omega arith
  Advance-grows v (Advance.leaves _ t) = omega arith
  Advance-grows v Advance.cancels = omega arith
  Advance-grows v (Advance.stops g e) = omega arith
  Advance-grows v (Advance.closes s _ e) = omega arith
  Advance-grows v (Advance.disturbs h) = omega arith

  Course-grows :
      {k l : Load float}
      → Holds float limit capacity workers k
      → Course float k l
      → k.client.metrics.total_requests ≤ l.client.metrics.total_requests
  Course-grows v Course.over = omega arith
  Course-grows v (Course.then_on a path) = omega (
    arith,
    Advance-grows v a,
    Course-grows (Advance-Holds float limit capacity workers positive small v a) path,
  )

-- The snapshot shows the client as it was left by the loop or, where it had to be stopped, by the workers.
snapshot_total :
    (float : Float) (cancelled : Bool) (clock : ℕ → ℕ) (count : ℕ) (c d d' c' : Client float)
    (s : Snapshot float)
    → run_requests float cancelled (λ _. d) (λ _. d') clock count c ≡ some (c', s)
    → (s.total_requests ≡ d.metrics.total_requests) ⊎ (s.total_requests ≡ d'.metrics.total_requests)
unfolding run_requests run_between Client.stop Worker.stop stop_rest take_snapshot
snapshot_total float cancelled clock count c d d' c' s e = ground arith

-- The number asked for, what the queue holds and one for each worker.
abbrev pub most_requests : ℕ → ℕ → ℤ → ℕ
most_requests num_cpu count num_workers =
    let pool = new_pool num_cpu num_workers in count + pool.capacity + pool.num_workers

-- A new client on a cluster with nodes is asked for a positive number of requests, which with those that the queue holds
-- and one for each worker stays below 2^64. When its loop has returned and its
-- workers have been stopped, RunRequests tells of no more requests than asked for, those that the queue holds and one for
-- each worker; and of no fewer than asked for, unless the context was cancelled.
pub run_requests_within :
    (float : Float) (num_cpu now count : ℕ) (cluster : Cluster) (config : Client.Config float)
    (cancelled : Bool) (order : Order) (h : Heap) (clock : ℕ → ℕ) (l l' : Load float) (p : Pool)
    (c' : Client float) (s : Snapshot float)
    → 0 < count
    → 0 < length (nodes order cluster)
    → most_requests num_cpu count config.num_workers < 18446744073709551616
    → Course float
        (begin_load float cancelled order h (limited_client float num_cpu now cluster config count))
        l
    → l.generator ≡ returned
    → stop l.client.pool ≡ some p
    → Course float (with_pool float p l) l'
    → run_requests float cancelled
        (λ _. l.client)
        (λ _. l'.client)
        clock
        count
        (new float num_cpu now cluster config)
      ≡ some (c', s)
    → (s.total_requests ≤ most_requests num_cpu count config.num_workers)
      × (is_cancelled l.client.pool ≡ false → count ≤ s.total_requests)
run_requests_within float num_cpu now count cluster config cancelled order h clock l l' p c' s
      positive some_node small path g stopping path' e =
    let pool = new_pool num_cpu config.num_workers in
    let before =
      Course-Holds float count pool.capacity pool.num_workers positive small
        (begin_load-Holds float num_cpu now count cluster config cancelled order h some_node)
        path in
    let stopped =
      Advance-Holds float count pool.capacity pool.num_workers positive small before
        (Advance.stops g stopping) in
    let after =
      Course-Holds float count pool.capacity pool.num_workers positive small stopped path' in
    let grows =
      Course-grows float count pool.capacity pool.num_workers positive small stopped path' in
    elim (snapshot_total float cancelled clock count (new float num_cpu now cluster config) l.client
      l'.client c' s e) [
        | inl same ↦ (
          omega (arith, same, before.accounted, before.bounded),
          λ live. omega (arith, same, before.reached g live),
        )
        | inr same ↦ (
          omega (arith, same, after.accounted, after.bounded),
          λ live. omega (arith, same, before.reached g live, grows),
        )
      ]
