-- ===== src/Node/Store.antt =====
-- internal/node/node.go as the `Store` that its interface promises: what a read returns, told from the
-- calls alone and not from the map.
use chaos_kvs.Base.{
  ◌≡◌, refl, Option, none, some, List, [], ◌∷◌, String, String_eq, arith, ◌==◌, if◌then◌else◌,
}
use chaos_kvs.Base.Map.{lookup, lookup-insert, lookup-delete}
use chaos_kvs.Node.{
  Status, stopped, running, suspended, is_running, is_suspended, at_once, Bytes, Node, new, get,
}
use chaos_kvs.Node.Lifecycle.{
  Op, starts, stops, suspends, resumes, delays, sets, deletes, step, IsValid, step-IsValid,
}

-- The node after a history of calls, the last call first.
pub run : List Op → Node → Node
run [] n = n
run (o ∷ h) n = (step o (run h n)).0

pub run-IsValid : (h : List Op) (n : Node) → IsValid n → IsValid (run h n)
unfolding run
run-IsValid [] n v = v
run-IsValid (o ∷ h) n v = step-IsValid o (run h n) (run-IsValid h n v)

-- The status that a history leaves.
abbrev pub status_after : List Op → Status
status_after [] = stopped
status_after (starts ∷ h) = running
status_after (stops ∷ h) = stopped
status_after (suspends ∷ h) = let s = status_after h in if is_running s then suspended else s
status_after (resumes ∷ h) = let s = status_after h in if is_suspended s then running else s
status_after (delays d ∷ h) = status_after h
status_after (sets key value ∷ h) = status_after h
status_after (deletes key ∷ h) = status_after h

-- What a history last wrote under a key: only writes that met a running node count, and neither a
-- stop nor a suspension forgets them.
abbrev pub written : String → List Op → Option Bytes
written k [] = none
written k (sets key value ∷ h) =
    let old = written k h in
    if is_running (status_after h) then (if key == k then some value else old) else old
written k (deletes key ∷ h) =
    let old = written k h in
    if is_running (status_after h) then (if key == k then none else old) else old
written k (_ ∷ h) = written k h

status-run : (id : String) (h : List Op) → (run h (new id)).status ≡ status_after h
unfolding run step
status-run id [] = unfold new in refl
status-run id (starts ∷ h) = ground (arith, status-run id h)
status-run id (o ∷ h) = ground (arith, status-run id h)

lookup-run : (id k : String) (h : List Op) → lookup k (run h (new id)).contents ≡ written k h
unfolding run step
lookup-run id k [] = unfold new lookup in refl
lookup-run id k (sets key value ∷ h) =
    ground (
      arith,
      status-run id h,
      lookup-run id k h,
      lookup-insert key k value (run h (new id)).contents,
    )
lookup-run id k (deletes key ∷ h) =
    ground
      (arith, status-run id h, lookup-run id k h, lookup-delete key k (run h (new id)).contents)
lookup-run id k (o ∷ h) = ground (arith, lookup-run id k h)

-- After any history of calls on a new node, a read gives what the history last wrote under the key while the
-- node ran, if the node runs, and nothing otherwise.
pub get-run :
    (id k : String) (h : List Op)
    → (get at_once k (run h (new id))).1
      ≡ (if is_running (status_after h) then written k h else none)
unfolding get
get-run id k h = ground (arith, status-run id h, lookup-run id k h)
