-- ===== src/Client/Requests.antt =====
-- internal/client/client.go: what a run of requests leaves in the metrics.
use chaos_kvs.Base.{
  ◌+◌, ◌≡◌, refl, ap, ◌∙◌, Bool, not, ◌&&◌, List, [], ◌∷◌, map, String_eq, ℤ, u64, length,
  if◌then◌else◌, arith,
}
use chaos_kvs.Base.Count.{count_if}
use chaos_kvs.Heap.{Heap}
use chaos_kvs.Node.{is_running, apply_delay, set, Meanwhile, Bytes}
use chaos_kvs.Metrics.{Metrics}
use chaos_kvs.Metrics.Records.{Call, succeeds, fails, successes, failures, counters_run}
use chaos_kvs.Metrics.Records
use chaos_kvs.Client.{Job, execute}

-- A request with the heap that it meets and what its environment does.
pub record Attempt : Type 0 where
  pub job : Job
  pub heap : Heap
  pub meanwhile : Meanwhile
  pub value : Bytes
  pub latency : ℤ

-- Only a write fails, where the node does not run after the node's delay.
abbrev pub is_refused : Attempt → Bool
is_refused a =
    let n = a.heap.cell a.job.pointer in
    a.job.is_write && not (is_running (a.meanwhile (apply_delay n) n).status)

unfoldable pub run : List Attempt → Metrics → Metrics
unfolding execute
run [] m = m
run (a ∷ as_more) m = run as_more (execute a.meanwhile a.value a.latency a.job a.heap m).1

abbrev as_call : Attempt → Call
as_call a = if is_refused a then fails a.latency else succeeds a.latency

execute-call :
    (a : Attempt) (m : Metrics)
    → (execute a.meanwhile a.value a.latency a.job a.heap m).1 ≡ Records.step (as_call a) m
unfolding execute set Records.step
execute-call a m = ground arith

run-calls :
    (attempts : List Attempt) (m : Metrics) → run attempts m ≡ Records.run (map as_call attempts) m
unfolding run Records.run
run-calls [] m = refl
run-calls (a ∷ rest) m =
    ap (run rest) (execute-call a m) ∙ run-calls rest (Records.step (as_call a) m)

failures-calls :
    (attempts : List Attempt) → failures (map as_call attempts) ≡ count_if is_refused attempts
failures-calls [] = refl
failures-calls (a ∷ rest) = ground (arith, failures-calls rest)

successes-calls :
    (attempts : List Attempt)
    → successes (map as_call attempts) + count_if is_refused attempts ≡ length attempts
successes-calls [] = refl
successes-calls (a ∷ rest) = ground (arith, successes-calls rest)

-- Over any run of requests, modulo 2^64, the failures grow by the writes that met a node that was not running
-- after its delay, all other requests count as successes, and the total by all of them.
pub run_lem :
    (attempts : List Attempt) (m : Metrics)
    → let m' = run attempts m in
      (u64 m'.failed_requests ≡ u64 (m.failed_requests + count_if is_refused attempts))
      × (u64 (m'.success_requests + count_if is_refused attempts)
          ≡ u64 (m.success_requests + length attempts))
      × (u64 m'.total_requests ≡ u64 (m.total_requests + length attempts))
run_lem attempts m = omega (
  arith,
  ap (λ c. c.failed_requests) (run-calls attempts m),
  ap (λ c. c.success_requests) (run-calls attempts m),
  ap (λ c. c.total_requests) (run-calls attempts m),
  failures-calls attempts,
  successes-calls attempts,
  counters_run (map as_call attempts) m,
)
