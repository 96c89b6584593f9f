-- ===== src/Chaos/Injection.antt =====
-- internal/chaos/chaos.go, `attack`: the choice of the targets and of the kind, and what is done to each.
use chaos_kvs.Base.{
  ℕ, ◌+◌, ◌*◌, ◌%◌, Option, none, some, List, [], ◌∷◌, ◌++◌, String, String_eq, ℤ, pos, pos_part,
  ltb_ℤ, u64, ltb, length, take, get_or, if◌then◌else◌,
}
use chaos_kvs.Base.Map.{lookup, insert}
use chaos_kvs.Base.Order.{Order}
use chaos_kvs.Base.Count.{filter_by}
use chaos_kvs.Events.{Event, new_chaos_attack_event, new_chaos_attack_event_with_delay}
use chaos_kvs.Events
use chaos_kvs.Heap.{Heap, write, call}
use chaos_kvs.Node.{is_running, stop, suspend, set_delay}
use chaos_kvs.Cluster.{Cluster, nodes, has_status}
use chaos_kvs.Chaos.{
  AttackType, AttackType_eq, Monkey, attack_delay, attack_kill, attack_suspend, publish_event,
}

-- `running[:count]` of the shuffled nodes panics if the count is negative.
unfoldable pub select_targets : Order → Order → Heap → Cluster → Monkey → Option (List ℕ)
select_targets order shuffle h c m =
    let running = filter_by (has_status is_running h) (nodes order c) in
    let count = m.config.target_count in
    elim running [
      | [] ↦ some []
      | p ∷ ps ↦
          if ltb_ℤ (pos (length (p ∷ ps))) count
          then some (take (length (p ∷ ps)) (shuffle.apply (p ∷ ps)))
          else if ltb_ℤ count (pos 0)
          then none
          else some (take (pos_part count) (shuffle.apply (p ∷ ps)))
    ]

-- `pick` is what `rand.Intn` is made from.
unfoldable pub select_attack_type : ℕ → Monkey → AttackType
select_attack_type pick m =
    let types = m.config.attack_types in
    if ltb 0 (length types) then get_or types (pick % length types) attack_kill else attack_kill

-- `m.attackByType[a]++`
abbrev pub bump : AttackType → List (AttackType × ℕ) → List (AttackType × ℕ)
bump a counts = elim (lookup a counts) [
  | none ↦ insert a 1 counts
  | some k ↦ insert a (u64 (k + 1)) counts
]

-- An attack on one node. `now` and `later` are the readings of the clock on its way.
attack_node_kill : ℕ → ℕ → Heap → Monkey → Heap × Monkey × List Event
attack_node_kill later p h m =
    let (h', refused) = call stop p h in
    elim refused [
      | some e ↦ (h', m, [])
      | none ↦ (
        h',
        record m { attack_by_type = bump attack_kill m.attack_by_type },
        publish_event m.has_bus (new_chaos_attack_event later (h.cell p).id Events.kill),
      )
    ]

attack_node_suspend : ℕ → ℕ → ℕ → Heap → Monkey → Heap × Monkey × List Event
attack_node_suspend now later p h m =
    let (h', refused) = call suspend p h in
    elim refused [
      | some e ↦ (h', m, [])
      | none ↦ (
        h',
        record m {
          suspended_ids = insert (h.cell p).id now m.suspended_ids;
          attack_by_type = bump attack_suspend m.attack_by_type;
        },
        publish_event m.has_bus (new_chaos_attack_event later (h.cell p).id Events.suspend),
      )
    ]

attack_node_delay : (ℤ → String) → ℕ → ℕ → Heap → Monkey → Heap × Monkey × List Event
attack_node_delay duration_string later p h m = (
  write p (set_delay m.config.delay_duration (h.cell p)) h,
  record m { attack_by_type = bump attack_delay m.attack_by_type },
  publish_event m.has_bus (
      new_chaos_attack_event_with_delay duration_string later (h.cell p).id
        m.config.delay_duration),
)

unfoldable pub execute_attack :
    (ℤ → String) → AttackType → ℕ → ℕ → ℕ → Heap → Monkey → Heap × Monkey × List Event
unfolding attack_node_kill attack_node_suspend attack_node_delay
execute_attack duration_string attack_kill now later p h m = attack_node_kill later p h m
execute_attack duration_string attack_suspend now later p h m = attack_node_suspend now later p h m
execute_attack duration_string attack_delay now later p h m =
    attack_node_delay duration_string later p h m

-- The loop over the targets, from the `i`-th on.
unfoldable pub attack_each :
    (ℤ → String) → AttackType → (ℕ → ℕ) → ℕ → List ℕ → Heap → Monkey → Heap × Monkey × List Event
attack_each duration_string a clock i [] h m = (h, m, [])
attack_each duration_string a clock i (p ∷ ps) h m =
    let (h', m', events) =
      execute_attack duration_string a (clock (2 * i)) (clock (2 * i + 1)) p h m in
    let (h'', m'', more) = attack_each duration_string a clock (i + 1) ps h' m' in
    (h'', m'', events ++ more)

-- The choices of one attack.
pub record Chance : Type 0 where
  pub order : Order
  pub shuffle : Order
  pub pick : ℕ
  pub clock : ℕ → ℕ
  pub finished : ℕ
  pub meanwhile : Heap → Heap

unfoldable pub attack_targets :
    (ℤ → String) → Chance → List ℕ → Heap → Monkey → Heap × Monkey × List Event
unfolding attack_each
attack_targets duration_string chance [] h m = (h, m, [])
attack_targets duration_string chance (p ∷ ps) h m =
    let a = select_attack_type chance.pick m in
    let (h', m', events) =
      attack_each duration_string a chance.clock 0 (p ∷ ps) (chance.meanwhile h) m in
    (
      h',
      record m' { attack_count = u64 (m'.attack_count + 1); last_attack = chance.finished },
      events,
    )

unfoldable pub attack :
    (ℤ → String) → Chance → Cluster → Heap → Monkey → Option (Heap × Monkey × List Event)
unfolding attack_targets
attack duration_string chance c h m = elim (select_targets chance.order chance.shuffle h c m) [
  | none ↦ none
  | some targets ↦ some (attack_targets duration_string chance targets h m)
]
