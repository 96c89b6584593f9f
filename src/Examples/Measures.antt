-- ===== src/Examples/Measures.antt =====
-- Metrics of a few requests.
use chaos_kvs.Base.{
  ℕ, ◌+◌, ◌≡◌, ◌≤◌, ◌<◌, true, false, List, [], ◌∷◌, String_eq, pos, negsuc, arith,
}
use chaos_kvs.Examples.{heap, float, Float}
use chaos_kvs.Base.{◌/◌, u64, length, take, ltb_ℤ, leb_ℤ}
use chaos_kvs.Base.Count.{count_if}
use chaos_kvs.Node.{at_once}
use chaos_kvs.Metrics.{
  Config, Metrics, new, new_with_config, average_latency, p99_latency, rank, take_snapshot,
}
use chaos_kvs.Metrics.Interleaving.{snapshot_any_order}
use mathlib.Core.List.{reverse_perm}
use chaos_kvs.Base.{refl}
use chaos_kvs.Metrics.Records.{
  Call, succeeds, fails, resets, run, successes, failures, time_spent, recent, samples_run,
  average_latency_run,
}
use chaos_kvs.Metrics.Percentile.{p99_latency_lem}
use chaos_kvs.Client.Requests.{Attempt, is_refused, run_lem}
use chaos_kvs.Client.Requests

abbrev calls : List Call
calls =
    succeeds (pos 10)
    ∷ fails (pos 30)
    ∷ resets 7
    ∷ succeeds (pos 20)
    ∷ succeeds (pos 60)
    ∷ succeeds (pos 5)
    ∷ []

abbrev small : Config
small = record { max_latency_samples = pos 2 }

abbrev some_metrics : Metrics
some_metrics = record (new_with_config 0 small) {
  latencies = pos 9 ∷ pos 3 ∷ negsuc 1 ∷ pos 3 ∷ [];
}

-- A write to each node, of which only the first runs, and a read from the second.
abbrev write_to : ℕ → Attempt
write_to p = record {
  job = record { pointer = p; key = "key-1"; is_write = true };
  heap = heap;
  meanwhile = at_once;
  value = 7 ∷ [];
  latency = pos 4;
}

abbrev read_from : ℕ → Attempt
read_from p = record {
  job = record { pointer = p; key = "key-1"; is_write = false };
  heap = heap;
  meanwhile = at_once;
  value = [];
  latency = pos 4;
}

p99_latency_lem_example :
    let float : Float = float in
    let m : Metrics = some_metrics in
    let v = p99_latency float m in
    (rank float (length m.latencies) < length m.latencies)
    × (count_if (λ x. ltb_ℤ x v) m.latencies ≤ rank float (length m.latencies))
    × (rank float (length m.latencies) < count_if (λ x. leb_ℤ x v) m.latencies)
p99_latency_lem_example = p99_latency_lem float some_metrics (omega arith)

samples_run_example :
    let cs : List Call = calls in
    let now : ℕ = 3 in
    let config : Config = small in
    let m = new_with_config now config in
    ((run cs m).latencies ≡ take m.max_latency_samples (recent [] cs))
    × (length (run cs m).latencies ≤ m.max_latency_samples)
samples_run_example = samples_run calls 3 small

average_latency_run_example :
    let cs : List Call = calls in
    let now : ℕ = 3 in
    average_latency (run cs (new now)) ≡ pos (time_spent cs / (successes cs + failures cs))
average_latency_run_example = average_latency_run calls 3 (omega arith) (omega arith) (omega arith)

run_lem_example :
    let attempts : List Attempt = (write_to 0 ∷ write_to 1 ∷ read_from 1 ∷ write_to 2 ∷ []) in
    let m : Metrics = (new 0) in
    let m' = Requests.run attempts m in
    (u64 m'.failed_requests ≡ u64 (m.failed_requests + count_if is_refused attempts))
    × (u64 (m'.success_requests + count_if is_refused attempts)
        ≡ u64 (m.success_requests + length attempts))
    × (u64 m'.total_requests ≡ u64 (m.total_requests + length attempts))
run_lem_example = run_lem (write_to 0 ∷ write_to 1 ∷ read_from 1 ∷ write_to 2 ∷ []) (new 0)

-- Two successes and a failure, and the same in another order.
snapshot_any_order_example :
    let m : Metrics = new 0 in
    take_snapshot float
      (λ i. run (succeeds (pos 7) ∷ fails (pos 9) ∷ succeeds (pos 3) ∷ []) m)
      (λ i. i)
    ≡ take_snapshot float
        (λ i. run (succeeds (pos 3) ∷ fails (pos 9) ∷ succeeds (pos 7) ∷ []) m)
        (λ i. i)
unfolding new
snapshot_any_order_example =
    snapshot_any_order float (λ i. i) (succeeds (pos 7) ∷ fails (pos 9) ∷ succeeds (pos 3) ∷ [])
      (succeeds (pos 3) ∷ fails (pos 9) ∷ succeeds (pos 7) ∷ []) (new 0)
      (reverse_perm (succeeds (pos 3) ∷ fails (pos 9) ∷ succeeds (pos 7) ∷ [])) refl (omega arith)
