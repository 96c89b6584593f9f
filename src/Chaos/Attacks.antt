-- ===== src/Chaos/Attacks.antt =====
-- internal/chaos/chaos.go, `attack`: what an attack does to its targets, to the other nodes and to the
-- monkey's book-keeping.
use chaos_kvs.Base.{
  String_eq, ℕ, ◌+◌, min, ◌≡◌, refl, true, some, List, [], ◌∷◌, arith, length, ℤ, pos, u64, nat_eq,
  if◌then◌else◌, String,
}
use chaos_kvs.Base.Map.{lookup, is_some}
use chaos_kvs.Base.Count.{has, Once}
use chaos_kvs.Events.{Event}
use chaos_kvs.Heap.{Heap}
use chaos_kvs.Node.{running}
use chaos_kvs.Cluster.{Cluster, pointers, running_count}
use chaos_kvs.Cluster.Membership.{IsValid}
use chaos_kvs.Chaos.{AttackType, attack_suspend, same_attack, Monkey}
use chaos_kvs.Chaos.Injection.{Chance, select_attack_type, attack_targets, attack}
use chaos_kvs.Chaos.Targets.{select_targets_lem}
use chaos_kvs.Chaos.Hits.{attacked, tally, attack_each-Hit}

attack_targets_lem :
    (duration_string : ℤ → String) (chance : Chance) (ts : List ℕ) (h : Heap) (m : Monkey)
    → Once ts
    → ((q : ℕ) → has q ts ≡ true → (h.cell q).status ≡ running)
    → chance.meanwhile h ≡ h
    → let a = select_attack_type chance.pick m in
      let r = attack_targets duration_string chance ts h m in
      ((q : ℕ) → r.0.cell q ≡ (if has q ts then attacked a m.config (h.cell q) else h.cell q))
      × ((b : AttackType)
          → u64 (tally b r.1.attack_by_type) ≡ (
              if same_attack a b
              then u64 (tally b m.attack_by_type + length ts)
              else u64 (tally b m.attack_by_type)))
      × (a ≡ attack_suspend
          → (q : ℕ) → has q ts ≡ true
          → is_some (lookup (h.cell q).id r.1.suspended_ids) ≡ true)
      × (r.1.attack_count
          ≡ (if nat_eq (length ts) 0 then m.attack_count else u64 (m.attack_count + 1)))
unfolding attack_targets
attack_targets_lem duration_string chance [] h m once up calm =
    (λ q. refl, λ b. ground arith, λ e q inside. cc, ground arith)
attack_targets_lem duration_string chance (p ∷ ps) h m once up calm = rw calm (
    let hit =
      attack_each-Hit duration_string (select_attack_type chance.pick m) chance.clock 0 (p ∷ ps) h m
        once up in
    (hit.cell, hit.counted, hit.tracked, ground (arith, hit.same_count)))

-- In a cluster in order, an attack that nobody interferes with, with a target count that is not negative, hits as
-- many running members as it is told to or as there are, each once and all by one kind of attack, leaves the rest
-- alone, counts its hits by kind and itself if there was any, and tracks those that it suspends.
pub attack_lem :
    (duration_string : ℤ → String) (chance : Chance) (c : Cluster) (h : Heap) (m : Monkey) (k : ℕ)
    → IsValid h c
    → m.config.target_count ≡ pos k
    → chance.meanwhile h ≡ h
    → let a = select_attack_type chance.pick m in
      (ts : List ℕ) × (r : Heap × Monkey × List Event) × (attack duration_string chance c h m
        ≡ some r)
      × (length ts ≡ min k (running_count h c))
      × Once ts
      × ((q : ℕ) → has q ts ≡ true → (has q (pointers c) ≡ true) × ((h.cell q).status ≡ running))
      × ((q : ℕ) → r.0.cell q ≡ (if has q ts then attacked a m.config (h.cell q) else h.cell q))
      × ((b : AttackType)
          → u64 (tally b r.1.attack_by_type) ≡ (
              if same_attack a b
              then u64 (tally b m.attack_by_type + length ts)
              else u64 (tally b m.attack_by_type)))
      × (a ≡ attack_suspend
          → (q : ℕ) → has q ts ≡ true
          → is_some (lookup (h.cell q).id r.1.suspended_ids) ≡ true)
      × (r.1.attack_count
          ≡ (if nat_eq (length ts) 0 then m.attack_count else u64 (m.attack_count + 1)))
unfolding attack
attack_lem duration_string chance c h m k v t calm =
    let (ts, e, count, once, members) =
      select_targets_lem chance.order chance.shuffle h c m k v t in
    let (cell, counted, tracked, total) =
      attack_targets_lem duration_string chance ts h m once (λ q inside. (members q inside).1)
        calm in
    (
      ts,
      attack_targets duration_string chance ts h m,
      rw (e, attack),
      count,
      once,
      members,
      cell,
      counted,
      tracked,
      total,
    )
