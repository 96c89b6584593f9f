-- ===== src/Node.antt =====
-- internal/node/node.go. A `*Node` method returns the new node and the error; the lock makes each
-- method one step, but for the sleep of `applyDelay`, which stands before the lock is taken.
pub mod Lifecycle
pub mod Store
pub mod Interface
use Prim.Native.String.{◌++◌ as str_append}
use chaos_kvs.Base.{
  ℕ, ◌≡◌, Bool, true, false, not, Option, none, some, List, [], ◌∷◌, String, ℤ, pos, pos_part,
  ltb_ℤ, length, map, String_eq, if◌then◌else◌,
}
use chaos_kvs.Base.Map.{lookup, insert, delete}

pub data Status : Type 0 where
  stopped running suspended : Status

-- `Status.String`.
unfoldable pub status_string : Status → String
status_string stopped = "stopped"
status_string running = "running"
status_string suspended = "suspended"

abbrev pub is_running : Status → Bool
is_running running = true
is_running _ = false

abbrev pub is_stopped : Status → Bool
is_stopped stopped = true
is_stopped _ = false

abbrev pub is_suspended : Status → Bool
is_suspended suspended = true
is_suspended _ = false

-- A context that `context.WithCancel` derived, and whether its `cancel` was called.
pub data Context : Type 0 where
  live cancelled : Context

pub data NodeError : Type 0 where
  already_running already_stopped not_running not_suspended : NodeError

-- The text of the error that a method returns.
unfoldable pub error_string : String → NodeError → String
error_string id already_running = str_append "node " (str_append id " is already running")
error_string id already_stopped = str_append "node " (str_append id " is already stopped")
error_string id not_running = str_append "node " (str_append id " is not running")
error_string id not_suspended = str_append "node " (str_append id " is not suspended")

abbrev pub Bytes : Type 0
Bytes = List ℕ

pub record Node : Type 0 where
  pub id : String
  pub status : Status
  pub delay : ℤ
  pub contents : List (String × Bytes)
  pub context : Option Context

unfoldable pub new : String → Node
new id = record { id = id; status = stopped; delay = pos 0; contents = []; context = none }

unfoldable pub get_id : Node → String
get_id n = n.id

unfoldable pub get_status : Node → Status
get_status n = n.status

unfoldable pub get_delay : Node → ℤ
get_delay n = n.delay

unfoldable pub start : Node → Node × Option NodeError
start n =
    if is_running n.status
    then (n, some already_running)
    else (record n { context = some live; status = running }, none)

-- `if n.cancel != nil { n.cancel() }`
abbrev pub cancel : Option Context → Option Context
cancel none = none
cancel (some c) = some cancelled

unfoldable pub stop : Node → Node × Option NodeError
stop n =
    if is_stopped n.status
    then (n, some already_stopped)
    else (record n { context = cancel n.context; status = stopped }, none)

unfoldable pub suspend : Node → Node × Option NodeError
suspend n =
    if not (is_running n.status)
    then (n, some not_running)
    else (record n { status = suspended }, none)

unfoldable pub resume : Node → Node × Option NodeError
resume n =
    if not (is_suspended n.status)
    then (n, some not_suspended)
    else (record n { status = running }, none)

unfoldable pub set_delay : ℤ → Node → Node
set_delay d n = record n { delay = d }

-- How long `applyDelay` sleeps, in nanoseconds.
unfoldable pub apply_delay : Node → ℕ
apply_delay n = if ltb_ℤ (pos 0) n.delay then pos_part n.delay else 0

-- What other goroutines make of a node while the caller sleeps so long.
abbrev pub Meanwhile : Type 0
Meanwhile = ℕ → Node → Node

abbrev pub at_once : Meanwhile
at_once slept n = n

-- `Get` and `Set` sleep first, and then act on the node as they find it under the lock.
get_locked : String → Node → Option Bytes
get_locked key n = if not (is_running n.status) then none else lookup key n.contents

unfoldable pub get : Meanwhile → String → Node → Node × Option Bytes
unfolding get_locked apply_delay
get meanwhile key n = let n' = meanwhile (apply_delay n) n in (n', get_locked key n')

set_locked : String → Bytes → Node → Node × Option NodeError
set_locked key value n =
    if not (is_running n.status)
    then (n, some not_running)
    else (record n { contents = insert key value n.contents }, none)

unfoldable pub set : Meanwhile → String → Bytes → Node → Node × Option NodeError
unfolding set_locked apply_delay
set meanwhile key value n = set_locked key value (meanwhile (apply_delay n) n)

unfoldable pub delete_key : String → Node → Node × Option NodeError
delete_key key n =
    if not (is_running n.status)
    then (n, some not_running)
    else (record n { contents = delete key n.contents }, none)

unfoldable pub keys : Node → List String
keys n = map (λ e. e.0) n.contents

unfoldable pub size : Node → ℕ
size n = length n.contents
