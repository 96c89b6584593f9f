-- ===== src/Examples.antt =====
-- Nodes, a cluster and runtime choices that the examples share.
pub mod Nodes
pub mod Clusters
pub mod Buses
pub mod Monkeys
pub mod Managers
pub mod Measures
pub mod Pools
pub mod Scenarios
pub mod Servers
pub mod Loads
pub mod Sockets
pub mod Programs
use chaos_kvs.Base.{ℕ, ◌+◌, some, [], ◌∷◌, pos, pos_part, nat_eq, ltb, if◌then◌else◌, refl, arith}
use chaos_kvs.Base.Map.{lookup}
use chaos_kvs.Heap.{Heap}
use chaos_kvs.Node.{Node, stopped, running, suspended, live, cancelled}
use chaos_kvs.Cluster.{Cluster}
use chaos_kvs.Cluster.Membership.{IsValid}
use chaos_kvs.Metrics.{Float}

abbrev pub node_a : Node
node_a = record {
  id = "a";
  status = running;
  delay = pos 0;
  contents = ("k", 1 ∷ []) ∷ [];
  context = some live;
}

abbrev pub node_b : Node
node_b = record {
  id = "b";
  status = stopped;
  delay = pos 0;
  contents = ("k", 2 ∷ []) ∷ [];
  context = some cancelled;
}

abbrev pub node_c : Node
node_c = record { id = "c"; status = suspended; delay = pos 5; contents = []; context = some live }

abbrev pub nodes_abc : ℕ → Node
nodes_abc p = if nat_eq p 0 then node_a else if nat_eq p 1 then node_b else node_c

abbrev pub heap : Heap
heap = record { cell = nodes_abc; next = 3 }

abbrev pub cluster : Cluster
cluster = record { nodes = ("a", 0) ∷ ("b", 1) ∷ ("c", 2) ∷ [] }

pub cluster-IsValid : IsValid heap cluster
unfolding lookup
cluster-IsValid = record {
  distinct = (refl, (refl, (refl, tt)));
  fits = ((refl, omega arith), ((refl, omega arith), ((refl, omega arith), tt)));
}

-- Tenths stand for floating-point numbers.
abbrev pub float : Float
float = record {
  F = ℕ;
  zero_float = 0;
  from_uint64 = λ n. n;
  seconds = λ d. 1;
  is_zero = λ x. nat_eq x 0;
  divide = λ x y. x;
  times = λ x y. x;
  ninety_nine_percent = 10;
  truncate = λ x. x;
  one = 10;
  half = 5;
  three_tenths = 3;
  less = ltb;
  from_int64 = pos_part;
  thousand = 10000;
}
