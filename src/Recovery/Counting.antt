-- ===== src/Recovery/Counting.antt =====
-- internal/recovery/recovery.go: the statistics against the events, and the limit on retries.
use mathlib.Core.Path.{subst}
use chaos_kvs.Base.{
  ℕ, ◌+◌, ◌≤◌, ◌<◌, ◌≡◌, sym, Bool, true, false, some, List, [], ◌∷◌, ◌++◌, arith, pos, u64,
  if_cases, Option-cases, inl, inr, ◌⊎◌, String, String_eq,
}
use chaos_kvs.Base.Map.{lookup, lookup-insert}
use chaos_kvs.Base.Count.{count_if}
use chaos_kvs.Events.{
  Event, recovery_start, recovery_success, recovery_failed, new_recovery_start_event,
  new_recovery_success_event, new_recovery_failed_event,
}
use chaos_kvs.Heap.{Heap}
use chaos_kvs.Node.{Status, stopped, running, suspended, Node, start, resume}
use chaos_kvs.Cluster.{nodes}
use chaos_kvs.Recovery.{Config, NodeState, Stats, Manager}
use chaos_kvs.Recovery.Handlers.{handle}
use chaos_kvs.Recovery.Checks.{Env, state_of, check_node, check_each}
use chaos_kvs.Recovery.History.{Call, starts, stops, resets, configures, ticks, step, run}

abbrev pub is_start : Event → Bool
is_start e = elim e.event_type [ recovery_start ↦ true | _ ↦ false ]

abbrev pub is_success : Event → Bool
is_success e = elim e.event_type [ recovery_success ↦ true | _ ↦ false ]

abbrev pub is_failure : Event → Bool
is_failure e = elim e.event_type [ recovery_failed ↦ true | _ ↦ false ]

count_if-append {ℓ} :
    {A : Type ℓ} (f : A → Bool) (xs ys : List A)
    → count_if f (xs ++ ys) ≡ count_if f xs + count_if f ys
count_if-append f [] ys = omega arith
count_if-append f (x ∷ xs) ys = omega (arith, count_if-append f xs ys)

-- The counters have moved from `s` to `t` by the events, up to their wrap-around.
pub record Accounts (s t : Stats) (events : List Event) : Type 0 where
  pub total : u64 t.total_recoveries ≡ u64 (s.total_recoveries + count_if is_start events)
  pub success : u64 t.success_recoveries ≡ u64 (s.success_recoveries + count_if is_success events)
  pub failed : u64 t.failed_recoveries ≡ u64 (s.failed_recoveries + count_if is_failure events)

Accounts-append :
    (s t u : Stats) (xs ys : List Event)
    → Accounts s t xs
    → Accounts t u ys
    → Accounts s u (xs ++ ys)
Accounts-append s t u xs ys a b = omega (
  arith,
  count_if-append {0} is_start xs ys,
  count_if-append {0} is_success xs ys,
  count_if-append {0} is_failure xs ys,
)

handle-Accounts :
    (config : Config) (has_bus : Bool) (clock : ℕ → ℕ) (now : ℕ) (n : Node) (state : NodeState)
    (stats : Stats) (seen : Status)
    → has_bus ≡ true
    → let done = handle config has_bus clock seen now n state stats in
      Accounts stats done.stats done.events
unfolding handle new_recovery_start_event new_recovery_success_event new_recovery_failed_event start
    resume
handle-Accounts config has_bus clock now n state stats running bus = ground arith
handle-Accounts config has_bus clock now n state stats stopped bus = ground arith
handle-Accounts config has_bus clock now n state stats suspended bus = ground arith

-- What no check changes.
abbrev Settled : Manager → Manager → Type 0
Settled m m' = (m'.config ≡ m.config) × (m'.has_bus ≡ m.has_bus) × (m'.running ≡ m.running)

check_each-Accounts :
    (env : Env) (now : ℕ) (ps : List ℕ) (h : Heap) (m : Manager)
    → m.has_bus ≡ true
    → let (h', m', events) = check_each env now ps h m in
      Accounts m.stats m'.stats events × Settled m m'
unfolding check_each check_node
check_each-Accounts env now [] h m bus = ground arith
check_each-Accounts env now (p ∷ ps) h m bus =
    let (h', m', events) = check_node env now p h m in
    let (h'', m'', more) = check_each env now ps h' m' in
    let (later, settled) = check_each-Accounts env now ps h' m' bus in
    (
      Accounts-append m.stats m'.stats m''.stats events more
          (handle-Accounts m.config m.has_bus env.clock now (env.meanwhile (h.cell p))
            (state_of now (lookup (h.cell p).id m.node_states)) m.stats (h.cell p).status bus)
          later,
      settled,
    )

-- A history in which nobody resets the statistics.
abbrev pub NoReset : List Call → Type 0
NoReset [] = Unit
NoReset (resets ∷ cs) = ⊥
NoReset (_ ∷ cs) = NoReset cs

step-Accounts :
    (c : Call) (cs : List Call) (m : Manager)
    → NoReset (c ∷ cs)
    → m.has_bus ≡ true
    → let (m', events) = step c m in
      Accounts m.stats m'.stats events × (m'.has_bus ≡ true) × NoReset cs
unfolding step
step-Accounts starts cs m n bus = ground arith
step-Accounts stops cs m n bus = ground arith
step-Accounts resets cs m n bus = absurd n
step-Accounts (configures config) cs m n bus = ground arith
step-Accounts (ticks env o now c h) cs m n bus =
    let (accounts, settled) = check_each-Accounts env now (nodes o c) h m bus in
    ground (arith, accounts, settled)

-- With a bus, and over a history without a reset, the total, the successes and the failures grow, modulo 2^64,
-- by the events of their kinds, whatever the calls and whatever others do to the nodes.
pub run-Accounts :
    (cs : List Call) (m : Manager)
    → NoReset cs
    → m.has_bus ≡ true
    → let (m', events) = run cs m in Accounts m.stats m'.stats events
unfolding run
run-Accounts [] m n bus = ground arith
run-Accounts (c ∷ cs) m n bus =
    let (m', events) = step c m in
    let (now, bus', n') = step-Accounts c cs m n bus in
    Accounts-append m.stats m'.stats (run cs m').0.stats events (run cs m').1 now
      (run-Accounts cs m' n' bus')

-- No tracked node has more than `limit` retries.
abbrev pub Within : ℕ → List (String × NodeState) → Type 0
Within limit states =
    (id : String) (s : NodeState) → lookup id states ≡ some s → s.retry_count ≤ limit

-- The limit binds where suspended nodes are not resumed: resumptions are not held to it.
abbrev pub Limited : ℕ → Config → Type 0
Limited limit config = (config.max_retries ≡ pos limit) × (0 < limit) × (config.auto_resume ≡ false)

handle-within :
    (limit : ℕ) (config : Config) (has_bus : Bool) (clock : ℕ → ℕ) (now : ℕ) (n : Node)
    (state : NodeState) (stats : Stats) (seen : Status)
    → Limited limit config
    → state.retry_count ≤ limit
    → (handle config has_bus clock seen now n state stats).state.retry_count ≤ limit
unfolding handle start
handle-within limit config has_bus clock now n state stats running l w = ground arith
handle-within limit config has_bus clock now n state stats stopped l w = ground arith
handle-within limit config has_bus clock now n state stats suspended l w = ground arith

state_of-Within :
    (limit now : ℕ) (id : String) (states : List (String × NodeState))
    → Within limit states
    → (state_of now (lookup id states)).retry_count ≤ limit
state_of-Within limit now id states w = elim (Option-cases (lookup id states)) [
  | inl e ↦ rw e (omega arith)
  | inr (s, e) ↦ rw e (w id s e)
]

check_node-Within :
    (limit : ℕ) (env : Env) (now p : ℕ) (h : Heap) (m : Manager)
    → Limited limit m.config
    → Within limit m.node_states
    → Within limit (check_node env now p h m).1.node_states
unfolding check_node
check_node-Within limit env now p h m l w id s e =
    let n = h.cell p in
    let state = state_of now (lookup n.id m.node_states) in
    ground (
      arith,
      lookup-insert n.id id
          (handle m.config m.has_bus env.clock n.status now (env.meanwhile n) state m.stats).state
          m.node_states,
      w id s,
      handle-within limit m.config m.has_bus env.clock now (env.meanwhile n) state m.stats n.status
          l (state_of-Within limit now n.id m.node_states w),
    )

check_each-Within :
    (limit : ℕ) (env : Env) (now : ℕ) (ps : List ℕ) (h : Heap) (m : Manager)
    → Limited limit m.config
    → Within limit m.node_states
    → let m' = (check_each env now ps h m).1 in
      Limited limit m'.config × Within limit m'.node_states
unfolding check_each
check_each-Within limit env now [] h m l w = (l, w)
check_each-Within limit env now (p ∷ ps) h m l w =
    let (h', m', events) = check_node env now p h m in
    check_each-Within limit env now ps h' m' (unfold check_node in l)
      (check_node-Within limit env now p h m l w)

-- A history in which the configuration stays.
abbrev pub NoConfig : List Call → Type 0
NoConfig [] = Unit
NoConfig (configures config ∷ cs) = ⊥
NoConfig (_ ∷ cs) = NoConfig cs

started_cases :
    (m : Manager) → ((step starts m).0 ≡ m) ⊎ ((step starts m).0 ≡ record m { running = true })
unfolding step
started_cases m = ground arith

step-Within :
    (limit : ℕ) (c : Call) (cs : List Call) (m : Manager)
    → NoConfig (c ∷ cs)
    → Limited limit m.config
    → Within limit m.node_states
    → let m' = (step c m).0 in Limited limit m'.config × Within limit m'.node_states × NoConfig cs
unfolding step
step-Within limit starts cs m n l w =
    let kept = λ (r : Manager). Limited limit r.config × Within limit r.node_states × NoConfig cs in
    elim (started_cases m) [
      | inl e ↦ subst kept (sym e) (l, w, n)
      | inr e ↦ subst kept (sym e) (l, w, n)
    ]
step-Within limit stops cs m n l w =
    if_cases (λ (r : Manager). Limited limit r.config × Within limit r.node_states × NoConfig cs)
      m.running (l, w, n) (l, w, n)
step-Within limit resets cs m n l w = (l, w, n)
step-Within limit (configures config) cs m n l w = absurd n
step-Within limit (ticks env o now c h) cs m n l w =
    let (l', w') = check_each-Within limit env now (nodes o c) h m l w in
    if_cases
      (λ (r : Manager × List Event).
        Limited limit r.0.config × Within limit r.0.node_states × NoConfig cs)
      m.running (l', w', n) (l, w, n)

-- Over a history that leaves the configuration alone, under a positive limit and without resumption of suspended
-- nodes, no tracked node gets more retries than the limit if none has.
pub run-Within :
    (limit : ℕ) (cs : List Call) (m : Manager)
    → NoConfig cs
    → Limited limit m.config
    → Within limit m.node_states
    → Within limit (run cs m).0.node_states
unfolding run
run-Within limit [] m n l w = w
run-Within limit (c ∷ cs) m n l w =
    let (l', w', n') = step-Within limit c cs m n l w in run-Within limit cs (step c m).0 n' l' w'
