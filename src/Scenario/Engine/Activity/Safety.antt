-- ===== src/Scenario/Engine/Activity/Safety.antt =====
-- internal/scenario/scenario.go, runScenario: the goroutines of the parts do not panic while a scenario runs.
use chaos_kvs.Base.{
  ℕ, ◌≡◌, ap, ◌∙◌, sym, refl, subst, Bool, true, false, Option, none, some, List, [], ◌∷◌, String,
  ℤ, pos, ltb_ℤ, if◌then◌else◌, Bool-cases, inl, inr, arith,
}
use mathlib.Core.Option.{get_or}
use chaos_kvs.Base.Order.{Order, OrderOf}
use chaos_kvs.Heap.{Heap}
use chaos_kvs.Cluster.{Cluster}
use chaos_kvs.Chaos.{Monkey}
use chaos_kvs.Chaos.Injection.{Chance}
use chaos_kvs.Chaos.Suspensions.{check_and_resume}
use chaos_kvs.Chaos.Panics.{IsSound, attack_sound, config-check_and_resume}
use chaos_kvs.Recovery.{Manager}
use chaos_kvs.Recovery.Checks.{Env, check_and_recover}
use chaos_kvs.Metrics.{Float}
use chaos_kvs.Worker.{Pool, submit, submit_wait, send}
use chaos_kvs.Client.{Client, execute, generate_request, Round, returns, panics, requests}
use chaos_kvs.Scenario.Engine.{Engine}
use chaos_kvs.Scenario.Engine.Activity.{
  cluster_of, Activity, attacks, sweeps, checks, generates, performs, works, worked, attack_tick,
  resume_tick, check_tick, submitted, act, act_all, on_client, performed,
}

module _ (float : Float) where
  -- An engine that is set up with cluster `c`, whose client draws keys into a pool that is open, and whose monkey, if
  -- there is one, has a positive interval and no negative number of targets.
  pub record IsReady (c : Cluster) (e : Engine float) : Type 0 where
    pub has_cluster : e.cluster ≡ some c
    pub has_client :
        (k : Client float) × (e.client ≡ some k)
        × (k.pool.is_closed ≡ false)
        × (ltb_ℤ (pos 0) k.config.key_range ≡ true)
    pub sound : (m : Monkey) → e.monkey ≡ some m → IsSound m.config

  abbrev Safe : Cluster → Option (Heap × Engine float) → Type 0
  Safe c r = (h' : Heap) × (e' : Engine float) × (r ≡ some (h', e')) × IsReady c e'

  with_monkey :
      (c : Cluster) (e : Engine float) (m : Monkey)
      → IsReady c e
      → IsSound m.config
      → IsReady c (record e { monkey = some m })
  with_monkey c e m v s = record {
    has_cluster = v.has_cluster;
    has_client = v.has_client;
    sound = λ n same. subst (λ o. IsSound (get_or o m).config) same s;
  }

  with_client :
      (c : Cluster) (e : Engine float) (k : Client float)
      → IsReady c e
      → k.pool.is_closed ≡ false
      → ltb_ℤ (pos 0) k.config.key_range ≡ true
      → IsReady c (record e { client = some k })
  with_client c e k v open_pool keys = record {
    has_cluster = v.has_cluster;
    has_client = (k, refl, open_pool, keys);
    sound = v.sound;
  }

  either-IsReady :
      (c : Cluster) (b : Bool) (r s : Heap × Engine float)
      → IsReady c r.1
      → IsReady c s.1
      → IsReady c (if b then r else s).1
  either-IsReady c true r s v w = v
  either-IsReady c false r s v w = w

  attack_tick-IsReady :
      (c : Cluster) (duration_string : ℤ → String) (chance : Chance) (h : Heap) (e : Engine float)
      (o : Option Monkey)
      → e.monkey ≡ o
      → IsReady c e
      → Safe c (attack_tick float duration_string chance h e o)
  unfolding attack_tick
  attack_tick-IsReady c duration_string chance h e none same v = (h, e, refl, v)
  attack_tick-IsReady c duration_string chance h e (some m) same v = elim (Bool-cases m.running) [
    | inl up ↦
        let s = v.sound m same in
        let (r, done, kept) = attack_sound duration_string chance (cluster_of float e) h m s in
        (
          r.0,
          record e { monkey = some r.1 },
          ground (arith, up, done),
          with_monkey c e r.1 v (subst IsSound (sym kept) s),
        )
    | inr down ↦ (h, e, ground (arith, down), v)
  ]

  resume_tick-IsReady :
      (c : Cluster) (o : OrderOf (String × ℕ)) (now : ℕ) (clock : ℕ → ℕ) (h : Heap)
      (e : Engine float) (monkey : Option Monkey)
      → e.monkey ≡ monkey
      → IsReady c e
      → IsReady c (resume_tick float o now clock h e monkey).1
  unfolding resume_tick check_and_resume
  resume_tick-IsReady c o now clock h e none same v = v
  resume_tick-IsReady c o now clock h e (some m) same v =
      let r = check_and_resume o now clock (cluster_of float e) h m in
      either-IsReady c m.resuming (r.0, record e { monkey = some r.1 }) (h, e)
        (with_monkey c e r.1 v (
          subst IsSound (sym (config-check_and_resume o now clock (cluster_of float e) h m))
            (v.sound m same)))
        v

  check_tick-IsReady :
      (c : Cluster) (env : Env) (o : Order) (now : ℕ) (h : Heap) (e : Engine float)
      (manager : Option Manager)
      → IsReady c e
      → IsReady c (check_tick float env o now h e manager).1
  unfolding check_tick check_and_recover
  check_tick-IsReady c env o now h e none v = v
  check_tick-IsReady c env o now h e (some m) v =
      let r = check_and_recover env o now (cluster_of float e) h m in
      either-IsReady c m.running (r.0, record e { manager = some r.1 }) (h, e)
        (record { has_cluster = v.has_cluster; has_client = v.has_client; sound = v.sound }) v

  submit-closed :
      (choice : Bool) (number : ℕ) (p : Pool) → (submit choice number p).1.is_closed ≡ p.is_closed
  unfolding submit submit_wait send
  submit-closed choice number p = ground arith

  -- With keys to draw from a round does not panic.
  round_safe :
      (r k : ℕ) (x : float.F) (targets : List ℕ) (client : Client float)
      → ltb_ℤ (pos 0) client.config.key_range ≡ true
      → generate_request float r k x targets client ≡ panics
      → ⊥
  unfolding generate_request
  round_safe r k x targets client keys e = ground (arith, keys, e)

  submitted-IsReady :
      (c : Cluster) (choice : Bool) (number : ℕ) (h : Heap) (e : Engine float) (k : Client float)
      (round : Round float)
      → (round ≡ panics → ⊥)
      → IsReady c e
      → k.pool.is_closed ≡ false
      → ltb_ℤ (pos 0) k.config.key_range ≡ true
      → Safe c (submitted float choice number h e k round)
  unfolding submitted
  submitted-IsReady c choice number h e k returns safe v open_pool keys = (h, e, refl, v)
  submitted-IsReady c choice number h e k panics safe v open_pool keys = absurd (safe refl)
  submitted-IsReady c choice number h e k (requests job) safe v open_pool keys =
      let k' = record k { pool = (submit choice number k.pool).1 } in
      (
        h,
        record e { client = some k' },
        refl,
        with_client c e k' v (submit-closed choice number k.pool ∙ open_pool) keys,
      )

  on_client-Safe :
      (c : Cluster) (does : Client float → Option (Heap × Engine float)) (h : Heap)
      (e : Engine float) (o : Option (Client float))
      → e.client ≡ o
      → IsReady c e
      → ((k : Client float)
          → k.pool.is_closed ≡ false
          → ltb_ℤ (pos 0) k.config.key_range ≡ true
          → Safe c (does k))
      → Safe c (on_client float does h e o)
  unfolding on_client
  on_client-Safe c does h e none same v all = (h, e, refl, v)
  on_client-Safe c does h e (some k) same v all =
      let (k', found, open_pool, keys) = v.has_client in
      subst (λ x. Safe c (does x)) (ap (λ o. get_or o k') (sym found ∙ same))
        (all k' open_pool keys)

  act-IsReady :
      (c : Cluster) (a : Activity float) (h : Heap) (e : Engine float)
      → IsReady c e
      → Safe c (act float a h e)
  unfolding act performed execute
  act-IsReady c (attacks duration_string chance) h e v =
      attack_tick-IsReady c duration_string chance h e e.monkey refl v
  act-IsReady c (sweeps o now clock) h e v =
      let r = resume_tick float o now clock h e e.monkey in
      (r.0, r.1, refl, resume_tick-IsReady c o now clock h e e.monkey refl v)
  act-IsReady c (checks env o now) h e v =
      let r = check_tick float env o now h e e.manager in
      (r.0, r.1, refl, check_tick-IsReady c env o now h e e.manager v)
  act-IsReady c (generates r k x targets choice number) h e v =
      on_client-Safe c
        (λ client.
          submitted float choice number h e client (generate_request float r k x targets client))
        h e e.client refl v
        (λ client open_pool keys.
          submitted-IsReady c choice number h e client (generate_request float r k x targets client)
            (round_safe r k x targets client keys) v open_pool keys)
  act-IsReady c (performs meanwhile value latency job) h e v =
      on_client-Safe c (λ client. performed float meanwhile value latency job h e client) h e
        e.client refl v
        (λ client open_pool keys.
          let r = execute meanwhile value latency job h client.metrics in
          let client' = record client { metrics = r.1 } in
          (r.0, record e { client = some client' }, refl, with_client c e client' v open_pool keys))
  act-IsReady c (works jobs workers) h e v =
      on_client-Safe c (λ client. worked float jobs workers h e client) h e e.client refl v
        (λ client open_pool keys.
          let pool = record client.pool { jobs = jobs; workers = workers } in
          let client' = record client { pool = pool } in
          (h, record e { client = some client' }, refl, with_client c e client' v open_pool keys))

  pub act_all-IsReady :
      (c : Cluster) (activities : List (Activity float)) (h : Heap) (e : Engine float)
      → IsReady c e
      → Safe c (act_all float activities h e)
  unfolding act_all
  act_all-IsReady c [] h e v = (h, e, refl, v)
  act_all-IsReady c (a ∷ rest) h e v =
      let (h', e', done, v') = act-IsReady c a h e v in
      let (h'', e'', done', v'') = act_all-IsReady c rest h' e' v' in
      (
        h'',
        e'',
        ap
              (λ r. elim r as (λ _. Option (Heap × Engine float)) [
                | none ↦ none
                | some (g, d) ↦ act_all float rest g d
              ])
              done
            ∙ done',
        v'',
      )
