-- ===== src/Chaos/Hits.antt =====
-- internal/chaos/chaos.go, `attack`: what the loop over the targets does to them, and what it counts.
use text.Mathlib.TextEquality.{eq_iff}
use mathlib.Core.Path.{subst}
use native.Mathlib.Decide.{ℕ_discrete}
use chaos_kvs.Base.{
  ℕ, ◌+◌, ◌*◌, ◌≡◌, refl, ◌∙◌, true, none, some, List, [], ◌∷◌, ◌++◌, arith, length, length-append,
  ℤ, u64, nat_eq, if◌then◌else◌, Option-cases, inl, inr, String, String_eq,
}
use chaos_kvs.Base.Map.{lookup, insert, lookup-insert, is_some}
use chaos_kvs.Base.Count.{has, Once}
use chaos_kvs.Events.{Event}
use chaos_kvs.Heap.{Heap}
use chaos_kvs.Node.{running, suspended, Node, stop, suspend, set_delay}
use chaos_kvs.Chaos.{
  AttackType, attack_kill, attack_suspend, attack_delay, same_attack, same_attack_iff,
  AttackType_eq, Config, Monkey,
}
use chaos_kvs.Chaos.Injection.{bump, execute_attack, attack_each}

-- What an attack makes of a running node.
abbrev pub attacked : AttackType → Config → Node → Node
attacked attack_kill config n = (stop n).0
attacked attack_suspend config n = record n { status = suspended }
attacked attack_delay config n = set_delay config.delay_duration n

abbrev pub tally : AttackType → List (AttackType × ℕ) → ℕ
tally a counts = elim (lookup a counts) [ none ↦ 0 | some k ↦ k ]

tally-bump :
    (a b : AttackType) (counts : List (AttackType × ℕ))
    → u64 (tally b (bump a counts))
      ≡ (if same_attack a b then u64 (tally b counts + 1) else u64 (tally b counts))
tally-bump a b counts = elim (Option-cases (lookup a counts)) [
  | inl e ↦ ground (arith, same_attack_iff a b, lookup-insert a b 1 counts)
  | inr (k, e) ↦ ground (arith, same_attack_iff a b, lookup-insert a b (u64 (k + 1)) counts)
]

-- One attack on a running node.
execute_attack_lem :
    (duration_string : ℤ → String) (a b : AttackType) (now later p q : ℕ) (h : Heap) (m : Monkey)
    → (h.cell p).status ≡ running
    → let (h', m', events) = execute_attack duration_string a now later p h m in
      (h'.cell q ≡ (if nat_eq p q then attacked a m.config (h.cell p) else h.cell q))
      × (u64 (tally b m'.attack_by_type) ≡ (
          if same_attack a b
          then u64 (tally b m.attack_by_type + 1)
          else u64 (tally b m.attack_by_type)))
      × (m'.suspended_ids ≡ (
          if same_attack a attack_suspend
          then insert (h.cell p).id now m.suspended_ids
          else m.suspended_ids))
      × (m'.config ≡ m.config)
      × (m'.attack_count ≡ m.attack_count)
      × (m'.has_bus ≡ m.has_bus)
      × (length events ≡ (if m.has_bus then 1 else 0))
unfolding execute_attack stop suspend
execute_attack_lem duration_string attack_kill b now later p q h m up =
    ground (arith, tally-bump attack_kill b m.attack_by_type)
execute_attack_lem duration_string attack_suspend b now later p q h m up =
    ground (arith, tally-bump attack_suspend b m.attack_by_type)
execute_attack_lem duration_string attack_delay b now later p q h m up =
    ground (arith, tally-bump attack_delay b m.attack_by_type)

-- What an attack on `ts` comes to, from heap `h` and monkey `m`.
pub record Hit (a : AttackType) (ts : List ℕ) (h : Heap) (m : Monkey)
    (r : Heap × Monkey × List Event) : Type 0 where
  pub cell : (q : ℕ) → r.0.cell q ≡ (if has q ts then attacked a m.config (h.cell q) else h.cell q)
  pub counted :
      (b : AttackType)
      → u64 (tally b r.1.attack_by_type) ≡ (
          if same_attack a b
          then u64 (tally b m.attack_by_type + length ts)
          else u64 (tally b m.attack_by_type))
  pub tracked :
      a ≡ attack_suspend
      → (q : ℕ) → has q ts ≡ true
      → is_some (lookup (h.cell q).id r.1.suspended_ids) ≡ true
  pub remembered :
      (id : String)
      → is_some (lookup id m.suspended_ids) ≡ true
      → is_some (lookup id r.1.suspended_ids) ≡ true
  pub same_config : r.1.config ≡ m.config
  pub same_count : r.1.attack_count ≡ m.attack_count
  pub same_bus : r.1.has_bus ≡ m.has_bus
  pub events : length r.2 ≡ (if m.has_bus then length ts else 0)

attacked-id : (a : AttackType) (config : Config) (n : Node) → (attacked a config n).id ≡ n.id
unfolding stop set_delay
attacked-id attack_kill config n = ground arith
attacked-id attack_suspend config n = refl
attacked-id attack_delay config n = refl

-- The entries of `suspendedIDs` after one attack.
first_tracked :
    (a : AttackType) (id key : String) (now : ℕ) (before after : List (String × ℕ))
    → after ≡ (if same_attack a attack_suspend then insert id now before else before)
    → (is_some (lookup key before) ≡ true → is_some (lookup key after) ≡ true)
      × (a ≡ attack_suspend → is_some (lookup id after) ≡ true)
first_tracked attack_kill id key now before after e = (λ s. ground arith, λ s. cc)
first_tracked attack_delay id key now before after e = (λ s. ground arith, λ s. cc)
first_tracked attack_suspend id key now before after e = (
  λ s. ground (arith, lookup-insert id key now before),
  λ s. ground (arith, lookup-insert id id now before, eq_iff id id),
)

module _ (duration_string : ℤ → String) (a : AttackType) (now later p : ℕ) (ps : List ℕ) (h : Heap)
    (m : Monkey) (once : Once (p ∷ ps)) (up : (h.cell p).status ≡ running) where
  abbrev first : Heap × Monkey × List Event
  first = execute_attack duration_string a now later p h m

  spec :
      (b : AttackType) (q : ℕ)
      → (first.0.cell q ≡ (if nat_eq p q then attacked a m.config (h.cell p) else h.cell q))
        × (u64 (tally b first.1.attack_by_type) ≡ (
            if same_attack a b
            then u64 (tally b m.attack_by_type + 1)
            else u64 (tally b m.attack_by_type)))
        × (first.1.suspended_ids ≡ (
            if same_attack a attack_suspend
            then insert (h.cell p).id now m.suspended_ids
            else m.suspended_ids))
        × (first.1.config ≡ m.config)
        × (first.1.attack_count ≡ m.attack_count)
        × (first.1.has_bus ≡ m.has_bus)
        × (length first.2 ≡ (if m.has_bus then 1 else 0))
  spec b q = execute_attack_lem duration_string a b now later p q h m up

  marks :
      (key : String)
      → (is_some (lookup key m.suspended_ids) ≡ true
          → is_some (lookup key first.1.suspended_ids) ≡ true)
        × (a ≡ attack_suspend → is_some (lookup (h.cell p).id first.1.suspended_ids) ≡ true)
  marks key =
      first_tracked a (h.cell p).id key now m.suspended_ids first.1.suspended_ids (spec a p).2

  still_tracked :
      (r : Heap × Monkey × List Event)
      → Hit a ps first.0 first.1 r
      → a ≡ attack_suspend
      → (q : ℕ) → has q (p ∷ ps) ≡ true
      → is_some (lookup (h.cell q).id r.1.suspended_ids) ≡ true
  still_tracked r hit e q inside = elim (ℕ_discrete p q) [
    | yes same ↦
        subst (λ x. is_some (lookup (h.cell x).id r.1.suspended_ids) ≡ true) same
          (hit.remembered (h.cell p).id ((marks "").1 e))
    | no other ↦
        let kept : first.0.cell q ≡ h.cell q = ground (arith, spec a q) in
        subst (λ n. is_some (lookup n.id r.1.suspended_ids) ≡ true) kept
          (hit.tracked e q (ground arith))
  ]

  -- The rest of the loop does not meet `p` again.
  Hit-cons :
      (r : Heap × Monkey × List Event)
      → Hit a ps first.0 first.1 r
      → Hit a (p ∷ ps) h m (r.0, r.1, first.2 ++ r.2)
  Hit-cons r hit = record {
    cell = λ q. ground (arith, hit.cell q, spec a q, once p);
    counted = λ b. ground (arith, hit.counted b, spec b p);
    tracked = λ e q inside. still_tracked r hit e q inside;
    remembered = λ id s. hit.remembered id ((marks id).0 s);
    same_config = hit.same_config ∙ (spec a p).3;
    same_count = hit.same_count ∙ (spec a p).4;
    same_bus = hit.same_bus ∙ (spec a p).5;
    events = ground (arith, hit.events, spec a p, length-append first.2 r.2);
  }

pub attack_each-Hit :
    (duration_string : ℤ → String) (a : AttackType) (clock : ℕ → ℕ) (i : ℕ) (ts : List ℕ) (h : Heap)
    (m : Monkey)
    → Once ts
    → ((q : ℕ) → has q ts ≡ true → (h.cell q).status ≡ running)
    → Hit a ts h m (attack_each duration_string a clock i ts h m)
unfolding attack_each
attack_each-Hit duration_string a clock i [] h m once up = record {
  cell = λ q. refl;
  counted = λ b. ground arith;
  tracked = λ e q inside. cc;
  remembered = λ id s. s;
  same_config = refl;
  same_count = refl;
  same_bus = refl;
  events = ground arith;
}
attack_each-Hit duration_string a clock i (p ∷ ps) h m once up =
    let r = execute_attack duration_string a (clock (2 * i)) (clock (2 * i + 1)) p h m in
    let up_now : (h.cell p).status ≡ running = up p (ground arith) in
    Hit-cons duration_string a (clock (2 * i)) (clock (2 * i + 1)) p ps h m once up_now
      (attack_each duration_string a clock (i + 1) ps r.0 r.1)
      (attack_each-Hit duration_string a clock (i + 1) ps r.0 r.1 (λ q. ground (arith, once q))
        (λ q inside. ground (
          arith,
          up q,
          once p,
          spec duration_string a (clock (2 * i)) (clock (2 * i + 1)) p ps h m once up_now a q,
        )))
