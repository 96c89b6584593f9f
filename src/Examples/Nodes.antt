-- ===== src/Examples/Nodes.antt =====
-- The life of a node and its store, at concrete nodes.
use chaos_kvs.Base.{◌≡◌, refl, none, List, [], ◌∷◌, String, String_eq, if◌then◌else◌}
use chaos_kvs.Examples.{node_a, node_c}
use chaos_kvs.Node.{Node, already_running, new, start, get, at_once, is_running, Status}
use chaos_kvs.Node.Lifecycle.{Op, starts, stops, sets, step, Edge, step-Edge, step_refused}
use chaos_kvs.Node.Store.{run, status_after, written, get-run}

-- The last call first: what is written while the node runs survives a stop; what meets a stopped node is lost.
abbrev history : List Op
history = starts ∷ sets "k" (3 ∷ []) ∷ stops ∷ sets "k" (2 ∷ []) ∷ sets "j" (1 ∷ []) ∷ starts ∷ []

get-run_example :
    let id : String = "n" in
    let k : String = "k" in
    let h : List Op = history in
    (get at_once k (run h (new id))).1 ≡ (if is_running (status_after h) then written k h else none)
get-run_example = get-run "n" "k" history

step-Edge_example :
    let o : Op = starts in let n : Node = node_c in Edge o n.status (step o n).0.status
unfolding step start
step-Edge_example = step-Edge starts node_c refl

step_refused_example :
    let o : Op = starts in
    let n : Node = node_a in ((step o n).0 ≡ n) × ((t : Status) → ¬ Edge o n.status t)
unfolding step start
step_refused_example = step_refused starts node_a {x = already_running} refl
