-- ===== src/Examples/Managers.antt =====
-- Health checks of the cluster of the examples.
use chaos_kvs.Base.{ℕ, ◌+◌, ◌≡◌, refl, true, false, some, List, [], ◌∷◌, String_eq, pos, arith}
use chaos_kvs.Examples.{heap, cluster, cluster-IsValid}
use chaos_kvs.Base.Order.{Order, in_order, backwards}
use chaos_kvs.Base.Map.{lookup}
use chaos_kvs.Heap.{Heap}
use chaos_kvs.Node.{running}
use chaos_kvs.Cluster.{Cluster}
use chaos_kvs.Recovery.{Config, NodeState, no_stats, Manager}
use chaos_kvs.Recovery.Checks.{check_and_recover}
use chaos_kvs.Recovery.History.{Call, stops, ticks, run}
use chaos_kvs.Recovery.Rounds.{round_lem}
use chaos_kvs.Recovery.Fates.{calm, checked}
use chaos_kvs.Recovery.Revival.{revival}
use chaos_kvs.Recovery.Counting.{Accounts, Within, run-Accounts, run-Within}

abbrev config : Config
config = record {
  health_check_interval = pos 1;
  recovery_delay = pos 2;
  max_retries = pos 3;
  auto_restart = true;
  auto_resume = true;
  clear_delay = true;
}

abbrev manager : Manager
manager = record {
  config = config;
  has_bus = true;
  running = true;
  node_states = [];
  stats = no_stats;
}

abbrev careful : Manager
careful = record manager { config = record config { auto_resume = false } }

-- Two checks, and a third after a stop, which does nothing.
abbrev calls : List Call
calls =
    ticks (calm (λ i. i)) in_order 1 cluster heap
    ∷ ticks (calm (λ i. i)) backwards 5 cluster heap
    ∷ stops
    ∷ ticks (calm (λ i. i)) in_order 6 cluster heap
    ∷ []

-- A failure that was noted at 1.
abbrev failed : NodeState
failed = record { last_seen = 0; failed_at = 1; retry_count = 0; is_recovered = false }

abbrev fresh : NodeState
fresh = record { last_seen = 0; failed_at = 0; retry_count = 0; is_recovered = false }

-- No node is tracked yet.
careful-Within : Within 3 careful.node_states
unfolding lookup
careful-Within id s e = ground (arith, e)

revival_example :
    let c : Cluster = cluster in
    let h : Heap = heap in
    let m : Manager = manager in
    let q : ℕ = 1 in
    let o : Order = in_order in
    let o' : Order = backwards in
    let clock : ℕ → ℕ = (λ i. i) in
    let clock' : ℕ → ℕ = (λ i. i + 9) in
    let t : ℕ = 1 in
    let t' : ℕ = 4 in
    let (h', m', _) = check_and_recover (calm clock) o t c h m in
    let (h'', _, _) = check_and_recover (calm clock') o' t' c h' m' in
    ((h''.cell q).status ≡ running) × ((h''.cell q).contents ≡ (h.cell q).contents)
unfolding lookup
revival_example =
    revival cluster heap manager 1 in_order backwards (λ i. i) (λ i. i + 9) 1 4 cluster-IsValid refl
      refl (omega arith) refl refl refl refl

round_lem_example :
    let clock : ℕ → ℕ = (λ i. i) in
    let now : ℕ = 1 in
    let o : Order = backwards in
    let c : Cluster = cluster in
    let h : Heap = heap in
    let m : Manager = manager in
    let q : ℕ = 1 in
    ((check_and_recover (calm clock) o now c h m).0.cell q ≡ (checked clock now m (h.cell q)).0)
    × (lookup (h.cell q).id (check_and_recover (calm clock) o now c h m).1.node_states
        ≡ some (checked clock now m (h.cell q)).1)
round_lem_example = round_lem (λ i. i) 1 backwards cluster heap manager cluster-IsValid 1 refl

run-Accounts_example :
    let cs : List Call = calls in
    let m : Manager = manager in let (m', events) = run cs m in Accounts m.stats m'.stats events
run-Accounts_example = run-Accounts calls manager (tt) refl

run-Within_example :
    let limit : ℕ = 3 in
    let cs : List Call = calls in let m : Manager = careful in Within limit (run cs m).0.node_states
run-Within_example = run-Within 3 calls careful (tt) (refl, omega arith, refl) careful-Within
