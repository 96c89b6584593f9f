-- ===== src/Chaos/Suspensions.antt =====
-- internal/chaos/chaos.go: the nodes that are suspended are resumed in time, or when the monkey stops.
use chaos_kvs.Base.{
  ℕ, ◌+◌, false, none, some, List, [], ◌∷◌, ◌++◌, String, String_eq, leb_ℤ, time_sub, if◌then◌else◌,
}
use chaos_kvs.Base.Map.{delete}
use chaos_kvs.Base.Order.{OrderOf}
use chaos_kvs.Events.{Event, new_chaos_resume_event}
use chaos_kvs.Heap.{Heap, call}
use chaos_kvs.Node.{resume}
use chaos_kvs.Cluster.{Cluster, get_node}
use chaos_kvs.Chaos.{Monkey, publish_event}

-- The resumption of an entry that is taken from `suspendedIDs`.
resume_entry : (ℕ → ℕ) → Cluster → String → Heap → Monkey → Heap × Monkey × List Event
resume_entry clock c id h m = elim (get_node id c) [
  | none ↦ (h, m, [])
  | some p ↦
      let (h', refused) = call resume p h in
      elim refused [
        | none ↦ (h', m, publish_event m.has_bus (new_chaos_resume_event (clock 0) id))
        | some e ↦ (h', m, [])
      ]
]

-- One entry of `suspendedIDs` in the sweep of `checkAndResume`.
unfoldable pub check_entry :
    ℕ → (ℕ → ℕ) → Cluster → String × ℕ → Heap → Monkey → Heap × Monkey × List Event
unfolding resume_entry
check_entry now clock c (id, since) h m =
    if leb_ℤ m.config.suspend_time (time_sub now since)
    then resume_entry clock c id h (record m { suspended_ids = delete id m.suspended_ids })
    else (h, m, [])

unfoldable pub check_entries :
    ℕ → (ℕ → ℕ) → Cluster → List (String × ℕ) → Heap → Monkey → Heap × Monkey × List Event
unfolding check_entry
check_entries now clock c [] h m = (h, m, [])
check_entries now clock c (e ∷ es) h m =
    let (h', m', events) = check_entry now clock c e h m in
    let (h'', m'', more) = check_entries now (λ i. clock (i + 1)) c es h' m' in
    (h'', m'', events ++ more)

-- `range` over a map from which its body deletes visits every entry that was there once.
unfoldable pub check_and_resume :
    OrderOf (String × ℕ) → ℕ → (ℕ → ℕ) → Cluster → Heap → Monkey → Heap × Monkey × List Event
unfolding check_entries
check_and_resume o now clock c h m = check_entries now clock c (o.apply m.suspended_ids) h m

unfoldable pub resume_each : Cluster → List (String × ℕ) → Heap → Heap
resume_each c [] h = h
resume_each c ((id, since) ∷ es) h = elim (get_node id c) [
  | none ↦ resume_each c es h
  | some p ↦ resume_each c es (call resume p h).0
]

unfoldable pub resume_all : OrderOf (String × ℕ) → Cluster → Heap → Monkey → Heap × Monkey
unfolding resume_each
resume_all o c h m = (resume_each c (o.apply m.suspended_ids) h, record m { suspended_ids = [] })

-- `Stop` waits for both loops, and resumes what is still suspended.
unfoldable pub stop_monkey : OrderOf (String × ℕ) → Cluster → Heap → Monkey → Heap × Monkey
unfolding resume_all
stop_monkey o c h m =
    if m.running then resume_all o c h (record m { running = false; resuming = false }) else (h, m)
