-- ===== src/Chaos/Panics.antt =====
-- internal/chaos/chaos.go: what may make the monkey panic, and what its book-keeping keeps.
use chaos_kvs.Base.{
  ℕ, ◌+◌, ◌*◌, ◌≡◌, ◌≢◌, refl, ◌∙◌, sym, true, false, none, some, List, [], ◌∷◌, arith, ltb_ℤ, ℤ,
  pos, u64, Bool-cases, Option-cases, inl, inr, String, String_eq,
}
use chaos_kvs.Base.Map.{lookup, Distinct}
use chaos_kvs.Base.Order.{Order, OrderOf}
use chaos_kvs.Events.{Event}
use chaos_kvs.Heap.{Heap}
use chaos_kvs.Cluster.{Cluster}
use chaos_kvs.Base.Map.{insert-Distinct, delete-Distinct}
use chaos_kvs.Chaos.{
  AttackType, attack_kill, attack_suspend, attack_delay, AttackType_eq, Config, Monkey, new,
}
use chaos_kvs.Chaos.Injection.{
  Chance, bump, select_targets, select_attack_type, execute_attack, attack_each, attack_targets,
  attack,
}
use chaos_kvs.Chaos.Suspensions.{check_entry, check_entries, check_and_resume}
use chaos_kvs.Chaos.History.{Call, starts, stops, configures, attacks, sweeps, step, run}

-- A configuration that the monkey can run with.
abbrev pub IsSound : Config → Type 0
IsSound config =
    (ltb_ℤ (pos 0) config.interval ≡ true) × (ltb_ℤ config.target_count (pos 0) ≡ false)

-- Between two calls: nothing is tracked or counted twice, and the resume loop runs only with the other.
pub record IsOrderly (m : Monkey) : Type 0 where
  pub tracked : Distinct m.suspended_ids
  pub counted : Distinct m.attack_by_type
  pub loops : m.resuming ≡ true → m.running ≡ true
  pub sound : IsSound m.config

abbrev Lists : Monkey → Monkey → Type 0
Lists m m' =
    (Distinct m.suspended_ids → Distinct m'.suspended_ids)
    × (Distinct m.attack_by_type → Distinct m'.attack_by_type)
    × (m'.running ≡ m.running)
    × (m'.resuming ≡ m.resuming)
    × (m'.config ≡ m.config)

bump-Distinct :
    (a : AttackType) (counts : List (AttackType × ℕ)) → Distinct counts → Distinct (bump a counts)
bump-Distinct a counts d = elim (Option-cases (lookup a counts)) [
  | inl e ↦ rw (e, bump) (insert-Distinct a 1 counts d)
  | inr (k, e) ↦ rw (e, bump) (insert-Distinct a (u64 (k + 1)) counts d)
]

execute_attack-Lists :
    (duration_string : ℤ → String) (a : AttackType) (now later p : ℕ) (h : Heap) (m : Monkey)
    → Lists m (execute_attack duration_string a now later p h m).1
unfolding execute_attack
execute_attack-Lists duration_string attack_kill now later p h m =
    ground (arith, bump-Distinct attack_kill m.attack_by_type)
execute_attack-Lists duration_string attack_suspend now later p h m = ground (
  arith,
  bump-Distinct attack_suspend m.attack_by_type,
  insert-Distinct (h.cell p).id now m.suspended_ids,
)
execute_attack-Lists duration_string attack_delay now later p h m =
    ground (arith, bump-Distinct attack_delay m.attack_by_type)

attack_each-Lists :
    (duration_string : ℤ → String) (a : AttackType) (clock : ℕ → ℕ) (i : ℕ) (ts : List ℕ) (h : Heap)
    (m : Monkey)
    → Lists m (attack_each duration_string a clock i ts h m).1
unfolding attack_each
attack_each-Lists duration_string a clock i [] h m = (λ d. d, λ d. d, refl, refl, refl)
attack_each-Lists duration_string a clock i (p ∷ ps) h m =
    let (h', m', events) =
      execute_attack duration_string a (clock (2 * i)) (clock (2 * i + 1)) p h m in
    let (t, k, r, s, c) =
      execute_attack-Lists duration_string a (clock (2 * i)) (clock (2 * i + 1)) p h m in
    let (t', k', r', s', c') = attack_each-Lists duration_string a clock (i + 1) ps h' m' in
    (λ d. t' (t d), λ d. k' (k d), r' ∙ r, s' ∙ s, c' ∙ c)

attack_targets-Lists :
    (duration_string : ℤ → String) (chance : Chance) (ts : List ℕ) (h : Heap) (m : Monkey)
    → Lists m (attack_targets duration_string chance ts h m).1
unfolding attack_targets
attack_targets-Lists duration_string chance [] h m = (λ d. d, λ d. d, refl, refl, refl)
attack_targets-Lists duration_string chance (p ∷ ps) h m =
    attack_each-Lists duration_string (select_attack_type chance.pick m) chance.clock 0 (p ∷ ps)
      (chance.meanwhile h) m

check_entry-Lists :
    (now : ℕ) (clock : ℕ → ℕ) (c : Cluster) (e : String × ℕ) (h : Heap) (m : Monkey)
    → Lists m (check_entry now clock c e h m).1
unfolding check_entry
check_entry-Lists now clock c (key, since) h m = ground (arith, delete-Distinct key m.suspended_ids)

check_entries-Lists :
    (now : ℕ) (clock : ℕ → ℕ) (c : Cluster) (es : List (String × ℕ)) (h : Heap) (m : Monkey)
    → Lists m (check_entries now clock c es h m).1
unfolding check_entries
check_entries-Lists now clock c [] h m = (λ d. d, λ d. d, refl, refl, refl)
check_entries-Lists now clock c (e ∷ es) h m =
    let (h', m', events) = check_entry now clock c e h m in
    let (t, k, r, s, f) = check_entry-Lists now clock c e h m in
    let (t', k', r', s', f') = check_entries-Lists now (λ i. clock (i + 1)) c es h' m' in
    (λ d. t' (t d), λ d. k' (k d), r' ∙ r, s' ∙ s, f' ∙ f)

Lists-IsOrderly : (m m' : Monkey) → Lists m m' → IsOrderly m → IsOrderly m'
Lists-IsOrderly m m' (t, k, r, s, c) v = record {
  tracked = t v.tracked;
  counted = k v.counted;
  loops = λ e. r ∙ v.loops (sym s ∙ e);
  sound = ground (arith, v.sound);
}

-- Every configuration that is set is sound.
abbrev pub SetsSound : Call → Type 0
SetsSound (configures config) = IsSound config
SetsSound _ = Unit

abbrev pub Sound : List Call → Type 0
Sound [] = Unit
Sound (c ∷ cs) = SetsSound c × Sound cs

targets-ne-none :
    (order shuffle : Order) (h : Heap) (c : Cluster) (m : Monkey)
    → IsSound m.config
    → select_targets order shuffle h c m ≢ none
unfolding select_targets
targets-ne-none order shuffle h c m s e = ground arith

targets_some :
    (order shuffle : Order) (h : Heap) (c : Cluster) (m : Monkey)
    → IsSound m.config
    → (ts : List ℕ) × (select_targets order shuffle h c m ≡ some ts)
targets_some order shuffle h c m s = elim (Option-cases (select_targets order shuffle h c m)) [
  | inl e ↦ absurd (targets-ne-none order shuffle h c m s e)
  | inr found ↦ found
]

attacks_safe :
    (duration_string : ℤ → String) (chance : Chance) (c : Cluster) (h : Heap) (m : Monkey)
    → IsOrderly m
    → (r : Heap × Monkey × List Event) × (attack duration_string chance c h m ≡ some r)
      × IsOrderly r.1
unfolding attack
attacks_safe duration_string chance c h m v =
    let (ts, e) = targets_some chance.order chance.shuffle h c m v.sound in
    (
      attack_targets duration_string chance ts h m,
      rw (e, attack),
      Lists-IsOrderly m _ (attack_targets-Lists duration_string chance ts h m) v,
    )

-- An attack by a monkey with a sound configuration succeeds, and leaves the configuration.
pub attack_sound :
    (duration_string : ℤ → String) (chance : Chance) (c : Cluster) (h : Heap) (m : Monkey)
    → IsSound m.config
    → (r : Heap × Monkey × List Event) × (attack duration_string chance c h m ≡ some r)
      × (r.1.config ≡ m.config)
unfolding attack
attack_sound duration_string chance c h m s =
    let (ts, e) = targets_some chance.order chance.shuffle h c m s in
    (
      attack_targets duration_string chance ts h m,
      rw (e, attack),
      (attack_targets-Lists duration_string chance ts h m).4,
    )

pub config-check_and_resume :
    (o : OrderOf (String × ℕ)) (now : ℕ) (clock : ℕ → ℕ) (c : Cluster) (h : Heap) (m : Monkey)
    → (check_and_resume o now clock c h m).1.config ≡ m.config
unfolding check_and_resume
config-check_and_resume o now clock c h m =
    (check_entries-Lists now clock c (o.apply m.suspended_ids) h m).4

pub step_safe :
    (c : Call) (m : Monkey)
    → SetsSound c
    → IsOrderly m
    → (m' : Monkey) × (step c m ≡ some m') × IsOrderly m'
unfolding step
step_safe starts m s v = elim (Bool-cases m.running) [
  | inl up ↦ (m, ground arith, v)
  | inr down ↦ (
    record m { running = true; resuming = ltb_ℤ (pos 0) m.config.suspend_time },
    ground arith,
    record { tracked = v.tracked; counted = v.counted; loops = λ e. refl; sound = v.sound },
  )
]
step_safe (stops o c h) m s v = elim (Bool-cases m.running) [
  | inl up ↦ (
    record m { running = false; resuming = false; suspended_ids = [] },
    ground arith,
    record { tracked = tt; counted = v.counted; loops = λ e. cc; sound = v.sound },
  )
  | inr down ↦ (m, ground arith, v)
]
step_safe (configures config) m s v = (
  record m { config = config },
  refl,
  record { tracked = v.tracked; counted = v.counted; loops = v.loops; sound = s },
)
step_safe (attacks duration_string chance c h) m s v = elim (Bool-cases m.running) [
  | inl up ↦
      let (r, e, v') = attacks_safe duration_string chance c h m v in (r.1, ground (arith, e), v')
  | inr down ↦ (m, ground arith, v)
]
step_safe (sweeps o now clock c h) m s v = elim (Bool-cases m.resuming) [
  | inl up ↦ (
    (check_entries now clock c (o.apply m.suspended_ids) h m).1,
    ground arith,
    Lists-IsOrderly m _ (check_entries-Lists now clock c (o.apply m.suspended_ids) h m) v,
  )
  | inr down ↦ (m, ground arith, v)
]

-- A monkey in order never panics over a history whose new configurations have a
-- positive interval and no negative target count, whatever happens to the nodes around it; and it stays in order.
pub monkey_safe :
    (cs : List Call) (m : Monkey)
    → Sound cs
    → IsOrderly m
    → (m' : Monkey) × (run cs m ≡ some m') × IsOrderly m'
unfolding run
monkey_safe [] m s v = (m, refl, v)
monkey_safe (c ∷ cs) m s v =
    let (m', e, v') = step_safe c m s.0 v in
    let (m'', e', v'') = monkey_safe cs m' s.1 v' in (m'', rw (e, run) e', v'')

pub new-IsOrderly : (config : Config) → IsSound config → IsOrderly (new config)
unfolding new
new-IsOrderly config s = record { tracked = tt; counted = tt; loops = λ e. cc; sound = s }
