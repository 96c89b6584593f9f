-- ===== src/Recovery/Fates.antt =====
-- internal/recovery/recovery.go, `checkAndRecover`: what the loop over the nodes does to each of them.
use text.Mathlib.TextEquality.{eq_iff}
use native.Mathlib.Decide.{ℕ_discrete}
use mathlib.Core.Path.{subst}
use chaos_kvs.Base.{
  ℕ, ◌≡◌, ◌≢◌, refl, ap, ◌∙◌, sym, Bool, true, false, some, List, [], ◌∷◌, arith, String, String_eq,
}
use chaos_kvs.Base.Map.{lookup, lookup-insert}
use chaos_kvs.Base.Count.{has, Once}
use chaos_kvs.Heap.{Heap}
use chaos_kvs.Node.{Status, stopped, running, suspended, Node}
use chaos_kvs.Recovery.{Config, NodeState, Stats, Manager}
use chaos_kvs.Recovery.Handlers.{handle}
use chaos_kvs.Recovery.Checks.{Env, state_of, handled_by, check_node, check_each}
use chaos_kvs.Recovery.Handling.{handle_keeps}

-- Nobody else touches the nodes while a check runs.
abbrev pub calm : (ℕ → ℕ) → Env
calm clock = record { clock = clock; meanwhile = λ n. n }

-- What a check of a node alone makes of it and of its tracked state.
abbrev pub checked : (ℕ → ℕ) → ℕ → Manager → Node → Node × NodeState
checked clock now m n = let done = handled_by (calm clock) now n m in (done.node, done.state)

handle-stats :
    (config : Config) (has_bus : Bool) (clock : ℕ → ℕ) (seen : Status) (now : ℕ) (n : Node)
    (state : NodeState) (s t : Stats)
    → ((handle config has_bus clock seen now n state s).node
        ≡ (handle config has_bus clock seen now n state t).node)
      × ((handle config has_bus clock seen now n state s).state
          ≡ (handle config has_bus clock seen now n state t).state)
unfolding handle
handle-stats config has_bus clock running now n state s t = ground arith
handle-stats config has_bus clock stopped now n state s t = ground arith
handle-stats config has_bus clock suspended now n state s t = ground arith

-- The nodes of a list have names of their own.
abbrev pub Apart : Heap → List ℕ → Type 0
Apart h ps = (p q : ℕ) → has p ps ≡ true → has q ps ≡ true → (h.cell p).id ≡ (h.cell q).id → p ≡ q

module _ (clock : ℕ → ℕ) (now : ℕ) where
  -- A manager that agrees on what bears on node `n`.
  checked-cong :
      (m m' : Manager) (n : Node)
      → m'.config ≡ m.config
      → m'.has_bus ≡ m.has_bus
      → lookup n.id m'.node_states ≡ lookup n.id m.node_states
      → checked clock now m' n ≡ checked clock now m n
  checked-cong m m' n c b l = ground (
    arith,
    handle-stats m.config m.has_bus clock n.status now n (state_of now (lookup n.id m.node_states))
        m'.stats m.stats,
  )

  pub checked-id : (m : Manager) (n : Node) → (checked clock now m n).0.id ≡ n.id
  checked-id m n =
      (handle_keeps m.config m.has_bus clock now n (state_of now (lookup n.id m.node_states))
        m.stats n.status).1

  -- The heap and the manager after a check of `p`.
  abbrev heap_of : ℕ → Heap → Manager → Heap
  heap_of p h m = (check_node (calm clock) now p h m).0

  abbrev manager_of : ℕ → Heap → Manager → Manager
  manager_of p h m = (check_node (calm clock) now p h m).1

  check_node-id : (p r : ℕ) (h : Heap) (m : Manager) → ((heap_of p h m).cell r).id ≡ (h.cell r).id
  unfolding check_node
  check_node-id p r h m = ground (arith, checked-id m (h.cell p))

  check_node_self :
      (p : ℕ) (h : Heap) (m : Manager)
      → ((heap_of p h m).cell p ≡ (checked clock now m (h.cell p)).0)
        × (lookup (h.cell p).id (manager_of p h m).node_states
            ≡ some (checked clock now m (h.cell p)).1)
        × ((manager_of p h m).config ≡ m.config)
        × ((manager_of p h m).has_bus ≡ m.has_bus)
        × ((heap_of p h m).next ≡ h.next)
  unfolding check_node
  check_node_self p h m = ground (
    arith,
    eq_iff (h.cell p).id (h.cell p).id,
    lookup-insert (h.cell p).id (h.cell p).id (checked clock now m (h.cell p)).1 m.node_states,
  )

  check_node-cell : (p q : ℕ) (h : Heap) (m : Manager) → p ≢ q → (heap_of p h m).cell q ≡ h.cell q
  unfolding check_node
  check_node-cell p q h m n = ground arith

  check_node-state :
      (p : ℕ) (id : String) (h : Heap) (m : Manager)
      → (h.cell p).id ≢ id
      → lookup id (manager_of p h m).node_states ≡ lookup id m.node_states
  unfolding check_node
  check_node-state p id h m n = ground (
    arith,
    eq_iff (h.cell p).id id,
    lookup-insert (h.cell p).id id (checked clock now m (h.cell p)).1 m.node_states,
  )

  Apart-tail :
      (p : ℕ) (ps : List ℕ) (h : Heap) (m : Manager) → Apart h (p ∷ ps) → Apart (heap_of p h m) ps
  Apart-tail p ps h m a q r hq hr e =
      a q r (ground arith) (ground arith)
        (sym (check_node-id p q h m) ∙ (e ∙ check_node-id p r h m))

  pub check_each-settled :
      (ps : List ℕ) (h : Heap) (m : Manager)
      → let (h', m', events) = check_each (calm clock) now ps h m in
        (m'.config ≡ m.config) × (m'.has_bus ≡ m.has_bus) × (h'.next ≡ h.next)
  unfolding check_each
  check_each-settled [] h m = (refl, refl, refl)
  check_each-settled (p ∷ ps) h m =
      ground
        (arith, check_each-settled ps (heap_of p h m) (manager_of p h m), check_node_self p h m)

  pub cell_outside :
      (ps : List ℕ) (h : Heap) (m : Manager) (q : ℕ)
      → has q ps ≡ false
      → (check_each (calm clock) now ps h m).0.cell q ≡ h.cell q
  unfolding check_each
  cell_outside [] h m q out = refl
  cell_outside (p ∷ ps) h m q out =
      cell_outside ps (heap_of p h m) (manager_of p h m) q (ground arith)
      ∙ check_node-cell p q h m (λ e. ground arith)

  state_outside :
      (ps : List ℕ) (h : Heap) (m : Manager) (id : String)
      → ((p : ℕ) → has p ps ≡ true → (h.cell p).id ≢ id)
      → lookup id (check_each (calm clock) now ps h m).1.node_states ≡ lookup id m.node_states
  unfolding check_each
  state_outside [] h m id other = refl
  state_outside (p ∷ ps) h m id other =
      state_outside ps (heap_of p h m) (manager_of p h m) id
        (λ r hr e. other r (ground arith) (sym (check_node-id p r h m) ∙ e))
      ∙ check_node-state p id h m (other p (ground arith))

  -- What a round over `ps` does to node `q`.
  abbrev Fares : List ℕ → Heap → Manager → ℕ → Heap → Manager → Type 0
  Fares ps h m q before was =
      ((check_each (calm clock) now ps h m).0.cell q ≡ (checked clock now was (before.cell q)).0)
      × (lookup (before.cell q).id (check_each (calm clock) now ps h m).1.node_states
          ≡ some (checked clock now was (before.cell q)).1)

  Fares-first :
      (p : ℕ) (ps : List ℕ) (h : Heap) (m : Manager)
      → Apart h (p ∷ ps)
      → has p ps ≡ false
      → Fares ps (heap_of p h m) (manager_of p h m) p h m
  Fares-first p ps h m a out =
      let (cell, state, _, _, _) = check_node_self p h m in
      (
        cell_outside ps (heap_of p h m) (manager_of p h m) p out ∙ cell,
        state_outside ps (heap_of p h m) (manager_of p h m) (h.cell p).id (λ r hr e.
              ground (arith, a r p (ground arith) (ground arith) (sym (check_node-id p r h m) ∙ e)))
            ∙ state,
      )

  Fares-later :
      (p q : ℕ) (ps : List ℕ) (h : Heap) (m : Manager)
      → Apart h (p ∷ ps)
      → p ≢ q
      → has q ps ≡ true
      → Fares ps (heap_of p h m) (manager_of p h m) q (heap_of p h m) (manager_of p h m)
      → Fares ps (heap_of p h m) (manager_of p h m) q h m
  Fares-later p q ps h m a n more fares = (
    fares.0 ∙ (ap (λ n'. (checked clock now (manager_of p h m) n').0) cell ∙ ap (λ r. r.0) same),
    ap (λ n'. lookup n'.id after.node_states) (sym cell)
        ∙ (fares.1
            ∙ (ap (λ n'. some (checked clock now (manager_of p h m) n').1) cell
                ∙ ap (λ r. some r.1) same)),
  )
    where
      after : Manager
      after = (check_each (calm clock) now ps (heap_of p h m) (manager_of p h m)).1

      cell : (heap_of p h m).cell q ≡ h.cell q
      cell = check_node-cell p q h m n

      named : (h.cell p).id ≢ (h.cell q).id
      named e = n (a p q (ground arith) (ground arith) e)

      same : checked clock now (manager_of p h m) (h.cell q) ≡ checked clock now m (h.cell q)
      same =
          let (_, _, c, b, _) = check_node_self p h m in
          checked-cong m (manager_of p h m) (h.cell q) c b
            (check_node-state p (h.cell q).id h m named)

  pub check_each-inside :
      (ps : List ℕ) (h : Heap) (m : Manager) (q : ℕ)
      → Once ps
      → Apart h ps
      → has q ps ≡ true
      → Fares ps h m q h m
  unfolding check_each
  check_each-inside [] h m q o a inside = cc
  check_each-inside (p ∷ ps) h m q o a inside = elim (ℕ_discrete p q) [
    | yes e ↦
        subst (λ r. Fares ps (heap_of p h m) (manager_of p h m) r h m) e
          (Fares-first p ps h m a (ground (arith, o p)))
    | no n ↦ Fares-later p q ps h m a n (ground arith) (
        check_each-inside ps (heap_of p h m) (manager_of p h m) q (λ r. ground (arith, o r))
          (Apart-tail p ps h m a) (ground arith))
  ]
