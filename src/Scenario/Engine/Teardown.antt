-- ===== src/Scenario/Engine/Teardown.antt =====
-- internal/scenario/scenario.go: what `teardown` leaves behind.
use chaos_kvs.Base.{
  ℕ, ◌≡◌, refl, ap, ◌∙◌, true, false, Option, none, some, String, String_eq, arith,
}
use mathlib.Core.Option
use chaos_kvs.Base.{Option-cases, inl, inr}
use chaos_kvs.Base.Map.{is_some}
use chaos_kvs.Base.Order.{Order, OrderOf}
use chaos_kvs.Heap.{Heap}
use chaos_kvs.Cluster.{Cluster, size, stopped_count, stop_all}
use chaos_kvs.Cluster.Batch.{counts_after}
use chaos_kvs.Metrics.{Float}
use chaos_kvs.Client
use chaos_kvs.Worker
use chaos_kvs.Chaos.{Monkey}
use chaos_kvs.Chaos.Suspensions.{stop_monkey}
use chaos_kvs.Recovery.{Manager, stop_manager}
use chaos_kvs.Scenario.Engine.{Engine, teardown, teardown_rest, stop_client, stop_chaos, stop_nodes}

-- A part that is there is at rest.
abbrev pub IsAtRest : (float : Float) → Engine float → Type 0
IsAtRest float e =
    (elim e.client [ none ↦ false | some c ↦ c.running ] ≡ false)
    × (elim e.monkey [ none ↦ false | some m ↦ m.running ] ≡ false)
    × (elim e.manager [ none ↦ false | some m ↦ m.running ] ≡ false)

client_stops :
    (float : Float) (wait : Client.Client float → Client.Client float) (c : Client.Client float)
    → ((k : Client.Client float) → (wait k).pool.is_closed ≡ k.pool.is_closed)
    → c.pool.is_closed ≡ false
    → is_some (Client.stop float wait c) ≡ true
unfolding Client.stop Worker.stop Worker.stop_rest
client_stops float wait c keeps open_pool = ground (
  arith,
  keeps (record c {
    running = false;
    pool = record c.pool { stopping = true; context = Worker.cancel c.pool.context };
  }),
)

stopped_client :
    (float : Float) (wait : Client.Client float → Client.Client float) (c c' : Client.Client float)
    → Client.stop float wait c ≡ some c'
    → c'.running ≡ false
unfolding Client.stop Worker.stop Worker.stop_rest
stopped_client float wait c c' e = ground arith

stop_client_lem :
    (float : Float) (wait : Client.Client float → Client.Client float) (c : Client.Client float)
    → ((k : Client.Client float) → (wait k).pool.is_closed ≡ k.pool.is_closed)
    → c.pool.is_closed ≡ false
    → (c' : Client.Client float) × (stop_client float wait (some c) ≡ some (some c'))
      × (c'.running ≡ false)
unfolding stop_client
stop_client_lem float wait c keeps open_pool = elim (Option-cases (Client.stop float wait c)) [
  | inl e ↦ absurd (ground (arith, e, client_stops float wait c keeps open_pool))
  | inr (c', e) ↦ (c', ap (λ r. Option.map some r) e, stopped_client float wait c c' e)
]

stop_chaos_rest :
    (float : Float) (o : OrderOf (String × ℕ)) (c : Cluster) (h : Heap) (m : Option Monkey)
    → elim (stop_chaos float o c h m).1 [ none ↦ false | some m' ↦ m'.running ] ≡ false
unfolding stop_chaos stop_monkey
stop_chaos_rest float o c h none = refl
stop_chaos_rest float o c h (some m) = ground arith

stop_manager_rest :
    (m : Option Manager)
    → elim (Option.map stop_manager m) [ none ↦ false | some m' ↦ m'.running ] ≡ false
unfolding stop_manager
stop_manager_rest none = refl
stop_manager_rest (some m) = ground arith

-- With a client whose pool nobody has closed, and workers that do not close it, the teardown of an engine
-- ends without a panic; then every node of the cluster counts as stopped, and no part runs.
pub teardown_lem :
    (float : Float) (wait : Client.Client float → Client.Client float) (o : OrderOf (String × ℕ))
    (order : Order) (h : Heap) (e : Engine float) (c : Cluster) (client : Client.Client float)
    → e.cluster ≡ some c
    → e.client ≡ some client
    → ((k : Client.Client float) → (wait k).pool.is_closed ≡ k.pool.is_closed)
    → client.pool.is_closed ≡ false
    → (h' : Heap) × (e' : Engine float) × (teardown float wait o order h e ≡ some (h', e'))
      × (e'.cluster ≡ some c)
      × (stopped_count h' c ≡ size c)
      × IsAtRest float e'
unfolding teardown teardown_rest stop_nodes
teardown_lem float wait o order h e c client has_cluster has_client keeps open_pool =
    let (client', stopping, rest) = stop_client_lem float wait client keeps open_pool in
    let monkeys = stop_chaos float o c h e.monkey in
    (
      (stop_all order monkeys.0 c).0,
      record e {
        client = some client';
        monkey = monkeys.1;
        manager = Option.map stop_manager e.manager;
      },
      ap (λ k. teardown_rest float o order h e k (stop_client float wait e.client)) has_cluster
          ∙ ap (λ k. teardown_rest float o order h e (some c) (stop_client float wait k)) has_client
          ∙ ap (teardown_rest float o order h e (some c)) stopping,
      has_cluster,
      (counts_after order monkeys.0 c).1,
      (rest, stop_chaos_rest float o c h e.monkey, stop_manager_rest e.manager),
    )
