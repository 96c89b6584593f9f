-- ===== src/Api/History.antt =====
-- internal/api/server.go over any history of requests and of ends of runs.
use chaos_kvs.Base.{
  ℕ, ◌+◌, ◌≡◌, refl, ap, ◌∙◌, Bool, false, Option, none, some, List, [], ◌∷◌, String, String_eq,
  ◌==◌, ℤ, if◌then◌else◌, arith, ◌⊎◌, inl, inr, true,
}
use chaos_kvs.Base.Count.{count_if, count_if-perm}
use chaos_kvs.Base.Order.{Order}
use chaos_kvs.Heap.{Heap}
use chaos_kvs.Node.{Status, status_string, running, stopped, suspended}
use chaos_kvs.Cluster.{Cluster, nodes, running_count, stopped_count, size, new as new_cluster}
use chaos_kvs.Cluster.Batch.{suspended_count, size-counts}
use chaos_kvs.Metrics.{Float}
use chaos_kvs.Scenario.Engine.{Engine}
use chaos_kvs.Api.{
  Response, started, HttpMethod, get, ScenarioRequest, status, status_of, says, Server, new_server,
  handle_status, handle_scenario_start, handle_scenario_stop, complete,
}

module _ (float : Float) where
  -- A request to start or to stop, the end of a run, or what a run makes of its engine meanwhile.
  pub data Call : Type 0 where
    asks : (String → Option ℤ) → HttpMethod → Option ScenarioRequest → Call
    halts : HttpMethod → Call
    completes : Call
    progresses : (Engine float → Engine float) → Call

  unfoldable pub step : Call → Server float → Server float
  unfolding handle_scenario_start handle_scenario_stop complete
  step (asks parse_duration method req) s =
      (handle_scenario_start float parse_duration method req s).0
  step (halts method) s = (handle_scenario_stop float method s).0
  step completes s = complete float s
  step (progresses f) s = record s { engine = elim s.engine [ none ↦ none | some e ↦ some (f e) ] }

  unfoldable pub run : List Call → Server float → Server float
  unfolding step
  run [] s = s
  run (c ∷ cs) s = run cs (step c s)

  -- How many runs a history begins and ends.
  abbrev pub one_if : Bool → ℕ
  one_if b = if b then 1 else 0

  -- The answer tells whether the run is accepted.
  abbrev pub says_started : Response → Bool
  says_started (started name) = true
  says_started _ = false

  abbrev pub begun : Call → Server float → ℕ
  unfolding handle_scenario_start
  begun (asks parse_duration method req) s =
      one_if (says_started (handle_scenario_start float parse_duration method req s).1)
  begun _ s = 0

  abbrev pub ended : Call → Server float → ℕ
  ended completes s = one_if s.running
  ended _ s = 0

  unfoldable pub all_begun : List Call → Server float → ℕ
  unfolding step
  all_begun [] s = 0
  all_begun (c ∷ cs) s = begun c s + all_begun cs (step c s)

  unfoldable pub all_ended : List Call → Server float → ℕ
  unfolding step
  all_ended [] s = 0
  all_ended (c ∷ cs) s = ended c s + all_ended cs (step c s)

  step_counts :
      (c : Call) (s : Server float)
      → one_if s.running + begun c s ≡ ended c s + one_if (step c s).running
  unfolding step handle_scenario_start handle_scenario_stop complete
  step_counts (asks parse_duration HttpMethod.post (some req)) s = ground arith
  step_counts (asks parse_duration HttpMethod.post none) s = ground arith
  step_counts (asks parse_duration HttpMethod.get (some req)) s = ground arith
  step_counts (asks parse_duration HttpMethod.get none) s = ground arith
  step_counts (asks parse_duration HttpMethod.other_method (some req)) s = ground arith
  step_counts (asks parse_duration HttpMethod.other_method none) s = ground arith
  step_counts (halts method) s = ground arith
  step_counts completes s = ground arith
  step_counts (progresses f) s = ground arith

  -- Over any history, the requests that are answered by a start are as many as the runs that end, but for the one that
  -- went on before and the one that still goes on: two never go on at once.
  pub one_run :
      (cs : List Call) (s : Server float)
      → one_if s.running + all_begun cs s ≡ all_ended cs s + one_if (run cs s).running
  unfolding run all_begun all_ended
  one_run [] s = omega arith
  one_run (c ∷ cs) s = omega (arith, step_counts c s, one_run cs (step c s))

  -- The server's own cluster is absent or empty.
  IsBlind : Server float → Type 0
  IsBlind s = (s.cluster ≡ none) ⊎ (s.cluster ≡ some new_cluster)

  step-IsBlind : (c : Call) (s : Server float) → IsBlind s → IsBlind (step c s)
  unfolding IsBlind step handle_scenario_start handle_scenario_stop complete
  step-IsBlind (asks parse_duration method none) s v = ground arith
  step-IsBlind (asks parse_duration method (some req)) s v = ground arith
  step-IsBlind (halts method) s v = ground arith
  step-IsBlind completes s v = v
  step-IsBlind (progresses f) s v = v

  run-IsBlind : (cs : List Call) (s : Server float) → IsBlind s → IsBlind (run cs s)
  unfolding run
  run-IsBlind [] s v = v
  run-IsBlind (c ∷ cs) s v = run-IsBlind cs (step c s) (step-IsBlind c s v)

  empty_status :
      (up : Bool) (name : String) (order : Order) (h : Heap)
      → status_of up name (some new_cluster) order h ≡ status_of up name none order h
  unfolding status_of new_cluster nodes size running_count
  empty_status up name order h = ground (
    arith,
    count_if-perm (says "Stopped" h) (order.apply-perm []),
    count_if-perm (says "Suspended" h) (order.apply-perm []),
  )

  -- Whatever a new server has been asked to run, and whatever its engine's cluster is like, its status reports no
  -- node at all.
  pub handle_status_blind :
      (cs : List Call) (order : Order) (h : Heap)
      → let s = run cs (new_server float) in
        handle_status float get order h s
        ≡ status (record {
          running = s.running;
          scenario_name = s.config.name;
          node_count = 0;
          running_nodes = 0;
          stopped_nodes = 0;
          suspended_nodes = 0;
        })
  unfolding handle_status status_of IsBlind new_server
  handle_status_blind cs order h =
      let s = run cs (new_server float) in
      elim (run-IsBlind cs (new_server float) (inl refl)) [
        | inl e ↦ ap (λ c. status (status_of s.running s.config.name c order h)) e
        | inr e ↦
            ap (λ c. status (status_of s.running s.config.name c order h)) e
            ∙ ap status (empty_status s.running s.config.name order h)
      ]

small_letters :
    (s : Status)
    → ((status_string s == "Stopped") ≡ false) × ((status_string s == "Suspended") ≡ false)
unfolding status_string
small_letters running = (refl, refl)
small_letters stopped = (refl, refl)
small_letters suspended = (refl, refl)

never_capital :
    (h : Heap) (ps : List ℕ)
    → (count_if (says "Stopped" h) ps ≡ 0) × (count_if (says "Suspended" h) ps ≡ 0)
never_capital h [] = (refl, refl)
never_capital h (p ∷ ps) = ground (arith, small_letters (h.cell p).status, never_capital h ps)

-- In the status of any cluster, all nodes are counted, and those that run; of the others, which are the stopped and
-- the suspended ones, none is counted as stopped or as suspended.
pub status_of_lem :
    (up : Bool) (name : String) (c : Cluster) (order : Order) (h : Heap)
    → let r = status_of up name (some c) order h in
      (r.node_count ≡ r.running_nodes + stopped_count h c + suspended_count h c)
      × (r.stopped_nodes ≡ 0)
      × (r.suspended_nodes ≡ 0)
unfolding status_of
status_of_lem up name c order h =
    (size-counts h c, (never_capital h (nodes order c)).0, (never_capital h (nodes order c)).1)
