-- ===== src/Scenario/Engine/Running/Completion.antt =====
-- internal/scenario/scenario.go, Run: a whole run of a new engine, from its setup to its teardown.
use chaos_kvs.Scenario.Engine.{start_if, client_config, chaos_config, new_monkey}
use chaos_kvs.Scenario.Engine.Activity.Safety.{IsReady, act_all-IsReady}
use chaos_kvs.Chaos.{Monkey}
use chaos_kvs.Chaos
use chaos_kvs.Chaos.Panics.{IsSound}
use chaos_kvs.Base.{
  ◌&&◌, Option, if◌then◌else◌, ℕ, ◌≡◌, refl, sym, ap, ◌∙◌, Bool, true, false, not, inl, inr, none,
  some, String_eq, pos, ltb_ℤ, Option-cases, arith,
}
use mathlib.Core.Option
use chaos_kvs.Base.Map.{is_some}
use chaos_kvs.Heap.{Heap}
use chaos_kvs.Cluster.{Cluster, size, stopped_count, start_all}
use chaos_kvs.Metrics.{Float}
use chaos_kvs.Worker
use chaos_kvs.Client
use chaos_kvs.Scenario.{Config}
use chaos_kvs.Scenario.Presets.Runnable.{is_runnable}
use chaos_kvs.Scenario.Engine.{
  already_running, Engine, new, start_parts, start_client, prepared, setup,
}
use chaos_kvs.Scenario.Engine.Results.{Result, collect_results}
use chaos_kvs.Scenario.Engine.Running.{
  Env, run, run_lapse, run_ended, run_torn_down, run_result, run_started, run_set_up,
}
use chaos_kvs.Scenario.Engine.Setup.{setup_value, start_parts_lem, built, built_lem}
use chaos_kvs.Scenario.Engine.Teardown.{IsAtRest, teardown_lem}

-- While the client's Stop waits for its goroutines, none of them closes the channel of the jobs, which only the rest of the
-- pool's Stop does.
abbrev pub KeepsOpen : (float : Float) → Env float → Type 0
KeepsOpen float env = (k : Client.Client float) → (env.wait k).pool.is_closed ≡ k.pool.is_closed

abbrev is_client_ready : (float : Float) → Option (Client.Client float) → Bool
is_client_ready float none = false
is_client_ready float (some k) = not k.pool.is_closed && ltb_ℤ (pos 0) k.config.key_range

abbrev is_monkey_sound : Option Monkey → Bool
is_monkey_sound none = true
is_monkey_sound (some m) =
    ltb_ℤ (pos 0) m.config.interval && not (ltb_ℤ m.config.target_count (pos 0))

started_client :
    (float : Float) (num_cpu now : ℕ) (cancelled : Bool) (c : Cluster) (e e' : Engine float)
    → start_parts float cancelled (prepared float num_cpu now c e) ≡ some e'
    → (e'.cluster ≡ some c) × (is_client_ready float e'.client ≡ true)
unfolding start_parts start_client prepared client_config Client.default_config Client.start
    Client.new Worker.start Worker.new_pool Worker.new_pool_with_config
started_client float num_cpu now cancelled c e e' started = ground arith

started_monkey :
    (float : Float) (num_cpu now : ℕ) (cancelled : Bool) (c : Cluster) (e e' : Engine float)
    → e.monkey ≡ none
    → is_runnable float e.config ≡ true
    → start_parts float cancelled (prepared float num_cpu now c e) ≡ some e'
    → is_monkey_sound e'.monkey ≡ true
unfolding start_parts start_if prepared new_monkey chaos_config Chaos.new Chaos.set_event_bus
    Chaos.start
started_monkey float num_cpu now cancelled c e e' no_monkey runnable started = ground arith

monkey-IsSound : (m : Monkey) → is_monkey_sound (some m) ≡ true → IsSound m.config
monkey-IsSound m h = ground (arith, h)

prepared-IsReady :
    (float : Float) (c : Cluster) (e : Engine float)
    → e.cluster ≡ some c
    → is_client_ready float e.client ≡ true
    → is_monkey_sound e.monkey ≡ true
    → IsReady float c e
prepared-IsReady float c e has_cluster client monkey = record {
  has_cluster = has_cluster;
  has_client = elim (Option-cases e.client) [
    | inl gone ↦ absurd (ground (arith, sym (ap (is_client_ready float) gone) ∙ client))
    | inr (k, found) ↦
        let h : is_client_ready float (some k) ≡ true =
          sym (ap (is_client_ready float) found) ∙ client in
        (k, found, ground (arith, h), ground (arith, h))
  ];
  sound = λ m same. monkey-IsSound m (sym (ap is_monkey_sound same) ∙ monkey);
}

-- The results, the last doings of the parts and the teardown, once the time is up.
torn_down :
    (float : Float) (env : Env float) (h : Heap) (e : Engine float) (c : Cluster) (r : Result float)
    → KeepsOpen float env
    → IsReady float c e
    → (h' : Heap) × (e' : Engine float) × (run_ended float env h e (some r) ≡ some (h', e', inr r))
      × (e'.running ≡ false)
      × (e'.cluster ≡ some c)
      × (stopped_count h' c ≡ size c)
      × IsAtRest float e'
unfolding run_ended run_torn_down
torn_down float env h e c r keeps v =
    let (g, d, late, w) = act_all-IsReady float c env.late h e v in
    let (client, has_client, open_pool, _) = w.has_client in
    let (h', e', done, same, stopped, rest) =
      teardown_lem float env.wait env.resume_order env.stop_order g d c client w.has_cluster
        has_client keeps open_pool in
    (
      h',
      record e' { running = false },
      ap (run_torn_down float env r) late
          ∙ ap (Option.map (λ t. (t.0, record t.1 { running = false }, inr r))) done,
      refl,
      same,
      stopped,
      rest,
    )

-- With a client and a cluster there are results.
collects :
    (float : Float) (env : Env float) (h : Heap) (e : Engine float) (c : Cluster)
    → IsReady float c e
    → (r : Result float) × (collect_results float env.drift env.clock env.start_time env.end_time
          env.status_order h e
        ≡ some r)
unfolding collect_results
collects float env h e c v =
    let (client, has_client, _, _) = v.has_client in
    elim (Option-cases (
      collect_results float env.drift env.clock env.start_time env.end_time env.status_order h e)) [
        | inl panics ↦ absurd (ground (arith, panics, has_client, v.has_cluster))
        | inr found ↦ found
      ]

-- The wait and the teardown of an engine that is set up.
lapse_lem :
    (float : Float) (env : Env float) (h : Heap) (e : Engine float) (c : Cluster)
    → KeepsOpen float env
    → IsReady float c e
    → (h' : Heap) × (e' : Engine float) × (r : Result float) × (run_lapse float env h e
        ≡ some (h', e', inr r))
      × (e'.running ≡ false)
      × (e'.cluster ≡ some c)
      × (stopped_count h' c ≡ size c)
      × IsAtRest float e'
unfolding run_lapse run_result
lapse_lem float env h e c keeps v =
    let (g, d, lapsed, w) = act_all-IsReady float c env.lapse h e v in
    let (r, collected) = collects float env g d c w in
    let (h', e', done, halted, same, stopped, rest) = torn_down float env g d c r keeps w in
    (
      h',
      e',
      r,
      ap (run_result float env) lapsed ∙ ap (run_ended float env g d) collected ∙ done,
      halted,
      same,
      stopped,
      rest,
    )

-- The run of an engine that does not run yet starts with the setup.
run_value :
    (float : Float) (env : Env float) (h : Heap) (e : Engine float)
    → e.running ≡ false
    → run float env h e ≡ (
        let (h', e', refused) =
          setup float env.num_cpu env.setup_time env.start_order h (record e { running = true }) in
        run_set_up float env h' e' refused)
unfolding run
run_value float env h e rests =
    ap
      (λ b.
        if b
        then some (h, e, inl already_running)
        else (let (h', e', refused) =
              setup float env.num_cpu env.setup_time env.start_order h
                (record e { running = true }) in
            run_set_up float env h' e' refused))
      rests

-- The run of an engine that has not run yet, with or without an event bus.
pub fresh_run_finished :
    (float : Float) (env : Env float) (h : Heap) (e0 : Engine float) (count : ℕ)
    → e0.running ≡ false
    → e0.monkey ≡ none
    → e0.manager ≡ none
    → e0.config.node_count ≡ pos count
    → is_runnable float e0.config ≡ true
    → KeepsOpen float env
    → (h' : Heap) × (e' : Engine float) × (r : Result float) × (run float env h e0
        ≡ some (h', e', inr r))
      × (e'.running ≡ false)
      × IsAtRest float e'
      × ((c : Cluster) × (e'.cluster ≡ some c) × (size c ≡ count) × (stopped_count h' c ≡ count))
unfolding run_set_up
fresh_run_finished float env h e0 count rests no_monkey no_manager n runnable keeps =
    let e = record e0 { running = true } in
    let c = (built count h).1 in
    let h' = (start_all env.start_order (built count h).0 c).0 in
    let made = prepared float env.num_cpu env.setup_time c e in
    let startable_parts =
      start_parts_lem float env.num_cpu env.setup_time env.cancelled c e no_monkey no_manager in
    elim (Option-cases (start_parts float env.cancelled made)) [
      | inl panics ↦ absurd (ground (arith, ap is_some panics, startable_parts, runnable))
      | inr (e', started) ↦
          let (has_cluster, client) =
            started_client float env.num_cpu env.setup_time env.cancelled c e e' started in
          let monkey =
            started_monkey float env.num_cpu env.setup_time env.cancelled c e e' no_monkey runnable
              started in
          let (h'', e'', r, done, halted, same, stopped, rest) =
            lapse_lem float env h' e' c keeps
              (prepared-IsReady float c e' has_cluster client monkey) in
          (
            h'',
            e'',
            r,
            run_value float env h e0 rests
                ∙ ap (λ k. run_set_up float env k.0 k.1 k.2)
                    (setup_value float env.num_cpu env.setup_time count env.start_order h e n)
                ∙ ap (run_started float env h') started
                ∙ done,
            halted,
            rest,
            (c, same, (built_lem count h).1, stopped ∙ (built_lem count h).1),
          )
    ]

pub run_finished :
    (float : Float) (env : Env float) (h : Heap) (config : Config float) (count : ℕ)
    → config.node_count ≡ pos count
    → is_runnable float config ≡ true
    → KeepsOpen float env
    → (h' : Heap) × (e' : Engine float) × (r : Result float) × (run float env h (new float config)
        ≡ some (h', e', inr r))
      × (e'.running ≡ false)
      × IsAtRest float e'
      × ((c : Cluster) × (e'.cluster ≡ some c) × (size c ≡ count) × (stopped_count h' c ≡ count))
unfolding new
run_finished float env h config count n runnable keeps =
    fresh_run_finished float env h (new float config) count refl refl refl n runnable keeps
