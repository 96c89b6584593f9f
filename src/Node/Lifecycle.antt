-- ===== src/Node/Lifecycle.antt =====
-- internal/node/node.go: the life of a node, as a relation between statuses, and what holds of a node
-- between two calls.
use chaos_kvs.Base.{String_eq, ◌≡◌, ◌≢◌, refl, Option, none, some, String, ℤ, arith}
use chaos_kvs.Base.Map.{Distinct, insert-Distinct, delete-Distinct}
use chaos_kvs.Node.{
  Status, stopped, running, suspended, live, NodeError, Bytes, Node, new, start, stop, suspend,
  resume, set_delay, set_locked, delete_key,
}

-- A call that may change a node. `Get`, `Keys` and `Size` change nothing.
pub data Op : Type 0 where
  starts stops suspends resumes : Op
  delays : ℤ → Op
  sets : String → Bytes → Op
  deletes : String → Op

unfoldable pub step : Op → Node → Node × Option NodeError
unfolding start stop suspend resume set_delay set_locked delete_key
step starts n = start n
step stops n = stop n
step suspends n = suspend n
step resumes n = resume n
step (delays d) n = (set_delay d n, none)
step (sets key value) n = set_locked key value n
step (deletes key) n = delete_key key n

-- The edges of the life cycle, each with the call that takes it.
pub data Edge : Op → Status → Status → Type 0 where
  boot : Edge starts stopped running
  restart : Edge starts suspended running
  kill : Edge stops running stopped
  kill_suspended : Edge stops suspended stopped
  pause : Edge suspends running suspended
  unpause : Edge resumes suspended running
  keep_delay : {d : ℤ} {s : Status} → Edge (delays d) s s
  keep_set : {key : String} {value : Bytes} → Edge (sets key value) running running
  keep_delete : {key : String} → Edge (deletes key) running running

ruleset edges =
    (boot, restart, kill, kill_suspended, pause, unpause, keep_delay, keep_set, keep_delete)

pub record IsValid (n : Node) : Type 0 where
  pub one_entry : Distinct n.contents
  pub up : n.status ≢ stopped → n.context ≡ some live
  pub down : n.status ≡ stopped → n.context ≢ some live

accepted : {o : Op} {s t : Status} → Edge o s t → (n : Node) → n.status ≡ s → (step o n).1 ≡ none
unfolding step
accepted boot n e = ground arith
accepted restart n e = ground arith
accepted kill n e = ground arith
accepted kill_suspended n e = ground arith
accepted pause n e = ground arith
accepted unpause n e = ground arith
accepted keep_delay n e = refl
accepted keep_set n e = ground arith
accepted keep_delete n e = ground arith

-- A call that is not refused takes an edge of the life cycle.
pub step-Edge : (o : Op) (n : Node) → (step o n).1 ≡ none → Edge o n.status (step o n).0.status
unfolding step
step-Edge o n h = grind (arith, edges)

-- A call that is refused changes nothing, and from that status the life cycle has no edge for it.
pub step_refused :
    (o : Op) (n : Node) {x : NodeError}
    → (step o n).1 ≡ some x
    → ((step o n).0 ≡ n) × ((t : Status) → ¬ Edge o n.status t)
step_refused o n h = (unfold step in ground arith, λ t edge. cc (accepted edge n refl))

pub new-IsValid : (id : String) → IsValid (new id)
unfolding new
new-IsValid id = ground arith

pub step-IsValid : (o : Op) (n : Node) → IsValid n → IsValid (step o n).0
unfolding step
step-IsValid (sets key value) n v = ground (arith, insert-Distinct key value n.contents)
step-IsValid (deletes key) n v = ground (arith, delete-Distinct key n.contents)
step-IsValid o n v = ground arith
