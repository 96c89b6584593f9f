-- ===== src/Chaos/Resumption.antt =====
-- internal/chaos/chaos.go: when suspended nodes are resumed, by the sweep of the resume loop and at
-- the monkey's end.
use text.Mathlib.TextEquality.{eq_iff}
use chaos_kvs.Base.{
  ap, ◌∙◌, ℕ, ◌+◌, ◌<◌, ◌≡◌, ◌≢◌, refl, Bool, true, false, ◌&&◌, none, some, List, [], ◌∷◌, arith,
  ltb, leb_ℤ, time_sub, nat_eq, if◌then◌else◌, Option-cases, inl, inr, String, String_eq, ◌==◌,
}
use chaos_kvs.Base.Map.{lookup, delete, lookup-delete, Distinct, is_some}
use chaos_kvs.Base.Count.{count_if, count_if-perm}
use chaos_kvs.Base.Order.{OrderOf}
use chaos_kvs.Heap.{Heap, call}
use chaos_kvs.Node.{suspended, Node, resume}
use chaos_kvs.Cluster.{Cluster, get_node}
use chaos_kvs.Chaos.{AttackType_eq, Config, Monkey}
use chaos_kvs.Chaos.Suspensions.{
  check_entry, check_entries, check_and_resume, resume_each, stop_monkey,
}

-- The suspension that an entry records has lasted long enough.
abbrev pub due : ℕ → Config → String × ℕ → Bool
due now config e = leb_ℤ config.suspend_time (time_sub now e.1)

-- An entry names the node at `q`.
abbrev pub points_to : Cluster → ℕ → String × ℕ → Bool
points_to c q e = elim (get_node e.0 c) [ none ↦ false | some p ↦ nat_eq p q ]

resume_again : (n : Node) → (resume (resume n).0).0 ≡ (resume n).0
unfolding resume
resume_again n = ground arith

check_entry_lem :
    (now : ℕ) (clock : ℕ → ℕ) (c : Cluster) (e : String × ℕ) (h : Heap) (m : Monkey) (q : ℕ)
    (id : String)
    → let (h', m', events) = check_entry now clock c e h m in
      (h'.cell q
        ≡ (if due now m.config e && points_to c q e then (resume (h.cell q)).0 else h.cell q))
      × (m'.suspended_ids
          ≡ (if due now m.config e then delete e.0 m.suspended_ids else m.suspended_ids))
      × (m'.config ≡ m.config)
unfolding check_entry
check_entry_lem now clock c (key, since) h m q id = elim (Option-cases (get_node key c)) [
  | inl e ↦ ground arith
  | inr (p, e) ↦ ground arith
]

module _ (now : ℕ) (c : Cluster) where
  -- How many entries of a list are due and name `q`; how many are due under a key.
  abbrev pub due_for : Config → ℕ → String × ℕ → Bool
  due_for config q e = due now config e && points_to c q e

  abbrev pub due_under : Config → String → String × ℕ → Bool
  due_under config id e = due now config e && (e.0 == id)

  cell-check_entries :
      (clock : ℕ → ℕ) (es : List (String × ℕ)) (h : Heap) (m : Monkey) (q : ℕ)
      → (check_entries now clock c es h m).0.cell q
        ≡ (if ltb 0 (count_if (due_for m.config q) es) then (resume (h.cell q)).0 else h.cell q)
  unfolding check_entries
  cell-check_entries clock [] h m q = refl
  cell-check_entries clock (e ∷ es) h m q =
      let (h', m', events) = check_entry now clock c e h m in
      ground (
        arith,
        resume_again (h.cell q),
        check_entry_lem now clock c e h m q "",
        cell-check_entries (λ i. clock (i + 1)) es h' m' q,
      )

  lookup-check_entries :
      (clock : ℕ → ℕ) (es : List (String × ℕ)) (h : Heap) (m : Monkey) (id : String)
      → lookup id (check_entries now clock c es h m).1.suspended_ids
        ≡ (if ltb 0 (count_if (due_under m.config id) es) then none else lookup id m.suspended_ids)
  unfolding check_entries
  lookup-check_entries clock [] h m id = refl
  lookup-check_entries clock (e ∷ es) h m id =
      let (h', m', events) = check_entry now clock c e h m in
      ground (
        arith,
        check_entry_lem now clock c e h m 0 id,
        lookup-check_entries (λ i. clock (i + 1)) es h' m' id,
        lookup-delete e.0 id m.suspended_ids,
      )

  due_count :
      (config : Config) (id : String) (es : List (String × ℕ))
      → Distinct es
      → count_if (due_under config id) es ≡ elim (lookup id es) [
        | none ↦ 0
        | some since ↦ if due now config (id, since) then 1 else 0
      ]
  unfolding lookup
  due_count config id [] d = refl
  due_count config id ((key, since) ∷ es) d =
      ground (arith, eq_iff key id, due_count config id es d.1)

  -- With no name tracked twice, a sweep in any order resumes exactly the nodes named by an entry whose suspension
  -- has lasted the suspend time, and forgets exactly those entries.
  pub check_and_resume_lem :
      (o : OrderOf (String × ℕ)) (clock : ℕ → ℕ) (h : Heap) (m : Monkey) (id : String) (q : ℕ)
      → Distinct m.suspended_ids
      → let (h', m', events) = check_and_resume o now clock c h m in
        (h'.cell q ≡ (
          if ltb 0 (count_if (due_for m.config q) m.suspended_ids)
          then (resume (h.cell q)).0
          else h.cell q))
        × (lookup id m'.suspended_ids ≡ elim (lookup id m.suspended_ids) [
          | none ↦ none
          | some since ↦ if due now m.config (id, since) then none else some since
        ])
  unfolding check_and_resume
  check_and_resume_lem o clock h m id q d = (
    ground (
      arith,
      cell-check_entries clock (o.apply m.suspended_ids) h m q,
      count_if-perm (due_for m.config q) (o.apply-perm m.suspended_ids),
    ),
    ground (
      arith,
      lookup-check_entries clock (o.apply m.suspended_ids) h m id,
      count_if-perm (due_under m.config id) (o.apply-perm m.suspended_ids),
      due_count m.config id m.suspended_ids d,
    ),
  )

cell-resume_each :
    (c : Cluster) (es : List (String × ℕ)) (h : Heap) (q : ℕ)
    → (resume_each c es h).cell q
      ≡ (if ltb 0 (count_if (points_to c q) es) then (resume (h.cell q)).0 else h.cell q)
unfolding resume_each
cell-resume_each c [] h q = refl
cell-resume_each c ((id, since) ∷ es) h q = elim (Option-cases (get_node id c)) [
  | inl e ↦ ground (arith, cell-resume_each c es h q)
  | inr (p, e) ↦
      ground (arith, resume_again (h.cell q), cell-resume_each c es (call resume p h).0 q)
]

tracked_counts :
    (c : Cluster) (id : String) (q : ℕ) (es : List (String × ℕ))
    → is_some (lookup id es) ≡ true
    → get_node id c ≡ some q
    → 0 < count_if (points_to c q) es
unfolding lookup
tracked_counts c id q [] s e = cc
tracked_counts c id q ((key, since) ∷ es) s e =
    ground (arith, eq_iff key id, tracked_counts c id q es)

-- After the Stop of a monkey that ran, whatever it tracks, it does not run, neither of its loops goes on, and it tracks
-- nothing; each node is resumed if an entry names it and as it was if none does, and so a tracked node of the cluster is
-- not suspended.
pub stop_monkey_lem :
    (o : OrderOf (String × ℕ)) (c : Cluster) (h : Heap) (m : Monkey)
    → m.running ≡ true
    → let (h', m') = stop_monkey o c h m in
      (m'.running ≡ false)
      × (m'.resuming ≡ false)
      × (m'.suspended_ids ≡ [])
      × ((q : ℕ)
          → h'.cell q ≡ (
              if ltb 0 (count_if (points_to c q) m.suspended_ids)
              then (resume (h.cell q)).0
              else h.cell q))
      × ((id : String) (p : ℕ)
          → is_some (lookup id m.suspended_ids) ≡ true
          → get_node id c ≡ some p
          → (h'.cell p).status ≢ suspended)
unfolding stop_monkey resume
stop_monkey_lem o c h m up = (
  ground arith,
  ground arith,
  ground arith,
  λ q. ground (arith, resumed q),
  λ id p s e. ground (arith, resumed p, tracked_counts c id p m.suspended_ids s e),
)
  where
    resumed :
        (q : ℕ)
        → (resume_each c (o.apply m.suspended_ids) h).cell q ≡ (
            if ltb 0 (count_if (points_to c q) m.suspended_ids)
            then (resume (h.cell q)).0
            else h.cell q)
    resumed q =
        cell-resume_each c (o.apply m.suspended_ids) h q
        ∙ ap (λ k. if ltb 0 k then (resume (h.cell q)).0 else h.cell q)
            (count_if-perm (points_to c q) (o.apply-perm m.suspended_ids))
