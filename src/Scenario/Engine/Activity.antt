-- ===== src/Scenario/Engine/Activity.antt =====
-- internal/scenario/scenario.go, runScenario: what the goroutines of the parts do while a scenario runs, one after the
-- other. A tick is a step; what others do in its pauses, and what is drawn at random, are its arguments.
pub mod Safety
use chaos_kvs.Base.{ℕ, ◌≡◌, ◌&&◌, Bool, Option, none, some, List, [], ◌∷◌, String, ℤ, if◌then◌else◌}
use mathlib.Core.Option
use mathlib.Core.Option.{get_or}
use chaos_kvs.Base.Order.{Order, OrderOf}
use chaos_kvs.Heap.{Heap}
use chaos_kvs.Node.{Meanwhile, Bytes}
use chaos_kvs.Cluster.{Cluster, new as new_cluster}
use chaos_kvs.Chaos.{Monkey}
use chaos_kvs.Chaos.Injection.{Chance, attack}
use chaos_kvs.Chaos.Suspensions.{check_and_resume}
use chaos_kvs.Recovery.{Manager}
use chaos_kvs.Recovery.Checks.{Env, check_and_recover}
use chaos_kvs.Metrics.{Float}
use chaos_kvs.Worker.{Worker, submit}
use chaos_kvs.Client.{Client, Job, execute, generate_request, Round, returns, panics, requests}
use chaos_kvs.Scenario.Engine.{Engine}

module _ (float : Float) where
  open float use {F}

  -- A tick of the monkey's attack loop or of its resume loop, and one of the health check; a round of the client's
  -- generating loop, over the nodes that it read, with the number under which the pool knows the job; the run of a job by
  -- a worker, with its latency; and what
  -- the workers make of the queue and of themselves as they take a job, end one or return.
  pub data Activity : Type 0 where
    attacks : (ℤ → String) → Chance → Activity
    sweeps : OrderOf (String × ℕ) → ℕ → (ℕ → ℕ) → Activity
    checks : Env → Order → ℕ → Activity
    generates : ℕ → ℕ → F → List ℕ → Bool → ℕ → Activity
    performs : Meanwhile → Bytes → ℤ → Job → Activity
    works : List ℕ → List Worker → Activity

  -- The cluster that the parts were made with is that of the engine. A part that is not there does nothing.
  abbrev pub cluster_of : Engine float → Cluster
  unfolding new_cluster
  cluster_of e = get_or e.cluster new_cluster

  unfoldable pub attack_tick :
      (ℤ → String) → Chance → Heap → Engine float → Option Monkey → Option (Heap × Engine float)
  unfolding attack
  attack_tick duration_string chance h e none = some (h, e)
  attack_tick duration_string chance h e (some m) =
      if m.running
      then Option.map (λ r. (r.0, record e { monkey = some r.1 }))
          (attack duration_string chance (cluster_of e) h m)
      else some (h, e)

  unfoldable pub resume_tick :
      OrderOf (String × ℕ) → ℕ → (ℕ → ℕ) → Heap → Engine float → Option Monkey → Heap × Engine float
  unfolding check_and_resume
  resume_tick o now clock h e none = (h, e)
  resume_tick o now clock h e (some m) =
      if m.resuming
      then (let (h', m', events) = check_and_resume o now clock (cluster_of e) h m in
          (h', record e { monkey = some m' }))
      else (h, e)

  unfoldable pub check_tick :
      Env → Order → ℕ → Heap → Engine float → Option Manager → Heap × Engine float
  unfolding check_and_recover
  check_tick env o now h e none = (h, e)
  check_tick env o now h e (some m) =
      if m.running
      then (let (h', m', events) = check_and_recover env o now (cluster_of e) h m in
          (h', record e { manager = some m' }))
      else (h, e)

  -- What a round of the generating loop makes of the client.
  unfoldable pub submitted :
      Bool → ℕ → Heap → Engine float → Client float → Round float → Option (Heap × Engine float)
  unfolding submit
  submitted choice number h e c returns = some (h, e)
  submitted choice number h e c panics = none
  submitted choice number h e c (requests job) =
      some (h, record e { client = some (record c { pool = (submit choice number c.pool).1 }) })

  unfoldable pub performed :
      Meanwhile
      → Bytes
      → ℤ
      → Job
      → Heap
      → Engine float
      → Client float
      → Option (Heap × Engine float)
  unfolding execute
  performed meanwhile value latency job h e c =
      let (h', m) = execute meanwhile value latency job h c.metrics in
      some (h', record e { client = some (record c { metrics = m }) })

  abbrev pub worked :
      List ℕ → List Worker → Heap → Engine float → Client float → Option (Heap × Engine float)
  worked jobs workers h e c =
      let pool = record c.pool { jobs = jobs; workers = workers } in
      some (h, record e { client = some (record c { pool = pool }) })

  unfoldable pub on_client :
      (Client float → Option (Heap × Engine float))
      → Heap
      → Engine float
      → Option (Client float)
      → Option (Heap × Engine float)
  on_client does h e none = some (h, e)
  on_client does h e (some c) = does c

  unfoldable pub act : Activity → Heap → Engine float → Option (Heap × Engine float)
  unfolding attack_tick resume_tick check_tick submitted generate_request performed on_client
  act (attacks duration_string chance) h e = attack_tick duration_string chance h e e.monkey
  act (sweeps o now clock) h e = some (resume_tick o now clock h e e.monkey)
  act (checks env o now) h e = some (check_tick env o now h e e.manager)
  act (generates r k x targets choice number) h e =
      on_client (λ c. submitted choice number h e c (generate_request float r k x targets c)) h e
        e.client
  act (performs meanwhile value latency job) h e =
      on_client (λ c. performed meanwhile value latency job h e c) h e e.client
  act (works jobs workers) h e = on_client (λ c. worked jobs workers h e c) h e e.client

  -- `none` is a panic, which ends the program.
  unfoldable pub act_all : List Activity → Heap → Engine float → Option (Heap × Engine float)
  unfolding act
  act_all [] h e = some (h, e)
  act_all (a ∷ rest) h e = elim (act a h e) [ none ↦ none | some (h', e') ↦ act_all rest h' e' ]
