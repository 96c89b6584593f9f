-- ===== src/Examples/Monkeys.antt =====
-- Attacks and resumptions on the cluster of the examples.
use chaos_kvs.Base.{
  ℕ, ◌+◌, ◌≡◌, ◌≢◌, refl, true, false, none, some, List, [], ◌∷◌, String, String_eq, ℤ, pos,
  if◌then◌else◌,
}
use chaos_kvs.Examples.{heap, cluster, cluster-IsValid}
use chaos_kvs.Base.Order.{OrderOf, in_order, backwards}
use chaos_kvs.Base.{ltb, length, min, nat_eq, u64}
use chaos_kvs.Base.Map.{lookup, is_some}
use chaos_kvs.Base.Count.{has, count_if, Once}
use chaos_kvs.Events.{Event}
use chaos_kvs.Heap.{Heap}
use chaos_kvs.Node.{running, suspended, resume}
use chaos_kvs.Cluster.{Cluster, pointers, running_count, get_node}
use chaos_kvs.Chaos.{AttackType, attack_suspend, attack_kill, same_attack, Monkey, Config, new}
use chaos_kvs.Chaos.Injection.{Chance, select_attack_type, attack}
use chaos_kvs.Chaos.Suspensions.{check_and_resume, stop_monkey}
use chaos_kvs.Chaos.History.{Call, starts, stops, attacks, sweeps, configures, run}
use chaos_kvs.Chaos.Attacks.{attack_lem}
use chaos_kvs.Chaos.Hits.{attacked, tally}
use chaos_kvs.Chaos.Resumption.{due, due_for, points_to, check_and_resume_lem, stop_monkey_lem}
use chaos_kvs.Chaos.Panics.{IsOrderly, monkey_safe, new-IsOrderly}

abbrev config : Config
config = record {
  interval = pos 5;
  target_count = pos 2;
  attack_types = attack_suspend ∷ attack_kill ∷ [];
  delay_duration = pos 1;
  suspend_time = pos 3;
}

abbrev pub chance : Chance
chance = record {
  order = backwards;
  shuffle = in_order;
  pick = 4;
  clock = λ i. i;
  finished = 9;
  meanwhile = λ h. h;
}

-- A running monkey that tracks the suspended node and one that is gone.
abbrev tracking : Monkey
tracking = record (new config) {
  running = true;
  resuming = true;
  suspended_ids = ("c", 1) ∷ ("z", 4) ∷ [];
}

abbrev calls : List Call
calls =
    starts
    ∷ attacks (λ d. "1ms") chance cluster heap
    ∷ sweeps backwards 9 (λ i. i) cluster heap
    ∷ configures config
    ∷ stops in_order cluster heap
    ∷ []

attack_lem_example :
    let duration_string : ℤ → String = (λ d. "1ms") in
    let chance : Chance = chance in
    let c : Cluster = cluster in
    let h : Heap = heap in
    let m : Monkey = (new config) in
    let k : ℕ = 2 in
    let a = select_attack_type chance.pick m in
    (ts : List ℕ) × (r : Heap × Monkey × List Event) × (attack duration_string chance c h m
      ≡ some r)
    × (length ts ≡ min k (running_count h c))
    × Once ts
    × ((q : ℕ) → has q ts ≡ true → (has q (pointers c) ≡ true) × ((h.cell q).status ≡ running))
    × ((q : ℕ) → r.0.cell q ≡ (if has q ts then attacked a m.config (h.cell q) else h.cell q))
    × ((b : AttackType)
        → u64 (tally b r.1.attack_by_type) ≡ (
            if same_attack a b
            then u64 (tally b m.attack_by_type + length ts)
            else u64 (tally b m.attack_by_type)))
    × (a ≡ attack_suspend
        → (q : ℕ) → has q ts ≡ true
        → is_some (lookup (h.cell q).id r.1.suspended_ids) ≡ true)
    × (r.1.attack_count
        ≡ (if nat_eq (length ts) 0 then m.attack_count else u64 (m.attack_count + 1)))
unfolding new
attack_lem_example =
    attack_lem (λ d. "1ms") chance cluster heap (new config) 2 cluster-IsValid refl refl

monkey_safe_example :
    let cs : List Call = calls in
    let m : Monkey = (new config) in (m' : Monkey) × (run cs m ≡ some m') × IsOrderly m'
monkey_safe_example =
    monkey_safe calls (new config) (tt, (tt, (tt, ((refl, refl), (tt, tt)))))
      (new-IsOrderly config (refl, refl))

check_and_resume_lem_example :
    let now : ℕ = 5 in
    let c : Cluster = cluster in
    let o : OrderOf (String × ℕ) = backwards in
    let clock : ℕ → ℕ = (λ i. i) in
    let h : Heap = heap in
    let m : Monkey = tracking in
    let id : String = "c" in
    let q : ℕ = 2 in
    let (h', m', events) = check_and_resume o now clock c h m in
    (h'.cell q ≡ (
      if ltb 0 (count_if (due_for now c m.config q) m.suspended_ids)
      then (resume (h.cell q)).0
      else h.cell q))
    × (lookup id m'.suspended_ids ≡ elim (lookup id m.suspended_ids) [
      | none ↦ none
      | some since ↦ if due now m.config (id, since) then none else some since
    ])
unfolding lookup new
check_and_resume_lem_example =
    check_and_resume_lem 5 cluster backwards (λ i. i) heap tracking "c" 2 (refl, (refl, tt))

stop_monkey_lem_example :
    let o : OrderOf (String × ℕ) = backwards in
    let c : Cluster = cluster in
    let h : Heap = heap in
    let m : Monkey = tracking in
    let (h', m') = stop_monkey o c h m in
    (m'.running ≡ false)
    × (m'.resuming ≡ false)
    × (m'.suspended_ids ≡ [])
    × ((q : ℕ)
        → h'.cell q ≡ (
            if ltb 0 (count_if (points_to c q) m.suspended_ids)
            then (resume (h.cell q)).0
            else h.cell q))
    × ((id : String) (p : ℕ)
        → is_some (lookup id m.suspended_ids) ≡ true
        → get_node id c ≡ some p
        → (h'.cell p).status ≢ suspended)
unfolding new
stop_monkey_lem_example = stop_monkey_lem backwards cluster heap tracking refl
