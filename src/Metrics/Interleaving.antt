-- ===== src/Metrics/Interleaving.antt =====
-- internal/metrics/metrics.go: the records of workers that run at the same time leave the same metrics, but for the order
-- of the samples, in whatever order they come.
use chaos_kvs.Base.{
  ℕ, ◌+◌, ◌≤◌, ◌≡◌, refl, sym, ap, ◌∙◌, Bool, true, false, List, [], ◌∷◌, ◌++◌, ℤ, u64, time_sub,
  subst, length, length-append, ltb, if◌then◌else◌, arith, Perm, subst,
}
use mathlib.Core.Logic.{∥∥₁_elim}
use mathlib.Core.List.Perm
use mathlib.Core.List.{Permᴰ, append_assoc}
use native.Mathlib.Nat.{ℕ_set}
use chaos_kvs.Base.Count.{count_if, count_if-perm, length-perm}
use chaos_kvs.Metrics.{
  Float, Metrics, record_success, record_failure, to_uint64, average_latency, rps, overall_rps,
  error_rate, take_snapshot, reset,
}
use chaos_kvs.Metrics.Bags.{p99_any_order}
use chaos_kvs.Metrics.Records.{Call, succeeds, fails, resets, step, run}

abbrev pub is_success : Call → Bool
is_success (succeeds latency) = true
is_success _ = false

abbrev pub is_reset : Call → Bool
is_reset (resets now) = true
is_reset _ = false

-- The same metrics, with the samples in any order.
abbrev pub SameView : Metrics → Metrics → Type 0
SameView m m' =
    (m.total_requests ≡ m'.total_requests)
    × (m.success_requests ≡ m'.success_requests)
    × (m.failed_requests ≡ m'.failed_requests)
    × (m.total_latency_ns ≡ m'.total_latency_ns)
    × (m.start_time ≡ m'.start_time)
    × (m.last_reset_time ≡ m'.last_reset_time)
    × (m.window_requests ≡ m'.window_requests)
    × (m.max_latency_samples ≡ m'.max_latency_samples)
    × Perm m.latencies m'.latencies

SameView-prop : (m m' : Metrics) → IsProp (SameView m m')
SameView-prop m m' = hlevel ℕ_set

SameView-refl : (m : Metrics) → SameView m m
SameView-refl m = (refl, refl, refl, refl, refl, refl, refl, refl, Perm.rfl)

SameView-trans : (k l m : Metrics) → SameView k l → SameView l m → SameView k m
SameView-trans k l m (a, b, c, d, e, f, g, h, p) (a', b', c', d', e', f', g', h', q) =
    (a ∙ a', b ∙ b', c ∙ c', d ∙ d', e ∙ e', f ∙ f', g ∙ g', h ∙ h', Perm.trans p q)

kept-perm :
    (b b' : Bool) (x : ℤ) (xs ys : List ℤ)
    → b ≡ b'
    → Perm xs ys
    → Perm (if b then xs ++ x ∷ [] else xs) (if b' then ys ++ x ∷ [] else ys)
kept-perm true true x xs ys e p = Perm.append_right (x ∷ []) p
kept-perm false false x xs ys e p = p
kept-perm true false x xs ys e p = absurd (ground (arith, e))
kept-perm false true x xs ys e p = absurd (ground (arith, e))

same_room : (a b n k : ℕ) → a ≡ b → n ≡ k → ltb a n ≡ ltb b k
same_room a b n k e d = ap (λ c. ltb c n) e ∙ ap (ltb b) d

step-SameView : (c : Call) (m m' : Metrics) → SameView m m' → SameView (step c m) (step c m')
unfolding step record_success record_failure reset
step-SameView (succeeds latency) m m' (a, b, c, d, e, f, g, h, p) = (
  ap (λ n. u64 (n + 1)) a,
  ap (λ n. u64 (n + 1)) b,
  c,
  ap (λ n. u64 (n + to_uint64 latency)) d,
  e,
  f,
  ap (λ n. u64 (n + 1)) g,
  h,
  kept-perm (ltb (length m.latencies) m.max_latency_samples)
      (ltb (length m'.latencies) m'.max_latency_samples) latency m.latencies m'.latencies
      (same_room (length m.latencies) (length m'.latencies) m.max_latency_samples
        m'.max_latency_samples (length-perm p) h)
      p,
)
step-SameView (fails latency) m m' (a, b, c, d, e, f, g, h, p) = (
  ap (λ n. u64 (n + 1)) a,
  b,
  ap (λ n. u64 (n + 1)) c,
  ap (λ n. u64 (n + to_uint64 latency)) d,
  e,
  f,
  ap (λ n. u64 (n + 1)) g,
  h,
  p,
)
step-SameView (resets now) m m' (a, b, c, d, e, f, g, h, p) =
    (a, b, c, d, e, refl, refl, h, Perm.rfl)

step-room :
    (c : Call) (m : Metrics)
    → ((step c m).max_latency_samples ≡ m.max_latency_samples)
      × (length (step c m).latencies ≤ length m.latencies + (if is_success c then 1 else 0))
unfolding step record_success record_failure reset
step-room (succeeds latency) m = (refl, ground (arith, length-append m.latencies (latency ∷ [])))
step-room (fails latency) m = (refl, omega arith)
step-room (resets now) m = (refl, omega arith)

-- Two samples that both find room.
both_kept :
    (n : ℕ) (x y : ℤ) (xs : List ℤ)
    → length xs + 2 ≤ n
    → (if ltb (length (if ltb (length xs) n then xs ++ x ∷ [] else xs)) n
        then (if ltb (length xs) n then xs ++ x ∷ [] else xs) ++ y ∷ []
        else (if ltb (length xs) n then xs ++ x ∷ [] else xs))
      ≡ xs ++ (x ∷ y ∷ [])
both_kept n x y xs h = ground (arith, length-append xs (x ∷ []), append_assoc xs (x ∷ []) (y ∷ []))

sums_commute : (a b c : ℕ) → u64 (u64 (a + b) + c) ≡ u64 (u64 (a + c) + b)
sums_commute a b c = omega arith

step-swap :
    (a b : Call) (m : Metrics)
    → is_reset a ≡ false
    → is_reset b ≡ false
    → length m.latencies + (if is_success a then 1 else 0) + (if is_success b then 1 else 0)
      ≤ m.max_latency_samples
    → SameView (step b (step a m)) (step a (step b m))
unfolding step record_success record_failure
step-swap (succeeds x) (succeeds y) m p q room = (
  refl,
  refl,
  refl,
  sums_commute m.total_latency_ns (to_uint64 x) (to_uint64 y),
  refl,
  refl,
  refl,
  refl,
  subst (λ xs. Perm xs (step (succeeds x) (step (succeeds y) m)).latencies)
      (sym (both_kept m.max_latency_samples x y m.latencies (omega arith)))
      (subst (λ xs. Perm (m.latencies ++ (x ∷ y ∷ [])) xs)
        (sym (both_kept m.max_latency_samples y x m.latencies (omega arith)))
        (Perm.append_left m.latencies (Perm.swap y x []))),
)
step-swap (succeeds x) (fails y) m p q room = (
  refl,
  refl,
  refl,
  sums_commute m.total_latency_ns (to_uint64 x) (to_uint64 y),
  refl,
  refl,
  refl,
  refl,
  Perm.rfl,
)
step-swap (fails x) (succeeds y) m p q room = (
  refl,
  refl,
  refl,
  sums_commute m.total_latency_ns (to_uint64 x) (to_uint64 y),
  refl,
  refl,
  refl,
  refl,
  Perm.rfl,
)
step-swap (fails x) (fails y) m p q room = (
  refl,
  refl,
  refl,
  sums_commute m.total_latency_ns (to_uint64 x) (to_uint64 y),
  refl,
  refl,
  refl,
  refl,
  Perm.rfl,
)
step-swap (resets now) b m p q room = absurd (ground (arith, p))
step-swap a (resets now) m p q room = absurd (ground (arith, q))

run-SameView : (cs : List Call) (m m' : Metrics) → SameView m m' → SameView (run cs m) (run cs m')
unfolding run
run-SameView [] m m' v = v
run-SameView (c ∷ cs) m m' v = run-SameView cs (step c m) (step c m') (step-SameView c m m' v)

run-permᴰ :
    {cs cs' : List Call} (m m' : Metrics)
    → Permᴰ cs cs'
    → SameView m m'
    → count_if is_reset cs ≡ 0
    → length m.latencies + count_if is_success cs ≤ m.max_latency_samples
    → SameView (run cs m) (run cs' m')
unfolding run
run-permᴰ m m' Permᴰ.nil v none_resets room = v
run-permᴰ m m' (Permᴰ.cons {a = a} {l₁ = xs} {l₂ = ys} e p) v none_resets room =
    let roomy = step-room a m in
    subst (λ b. SameView (run xs (step a m)) (run ys (step b m'))) e
      (run-permᴰ (step a m) (step a m') p (step-SameView a m m' v) (omega (arith, none_resets))
        (omega (arith, roomy, room)))
run-permᴰ m m' (Permᴰ.swap {a = a} {b = b} {a' = a'} {l = zs} e d) v none_resets room =
    let swapped =
      SameView-trans (step b (step a m)) (step a (step b m)) (step a (step b m'))
        (step-swap a b m (ground (arith, none_resets)) (ground (arith, none_resets))
          (omega (arith, room)))
        (step-SameView a (step b m) (step b m') (step-SameView b m m' v)) in
    subst (λ c. SameView (run zs (step b (step a m))) (run zs (step c (step a' m')))) e
      (subst (λ c. SameView (run zs (step b (step a m))) (run zs (step a (step c m')))) d
        (run-SameView zs (step b (step a m)) (step a (step b m')) swapped))
run-permᴰ m m' (Permᴰ.trans {l₁ = xs} {l₂ = ys} p q) v none_resets room =
    SameView-trans (run xs m) (run ys m) _ (run-permᴰ m m p (SameView-refl m) none_resets room) (
      run-permᴰ m m' q v (sym (count_if-perm is_reset ∣ p ∣₁) ∙ none_resets)
        (omega (arith, room, count_if-perm is_success ∣ p ∣₁)))

-- The same metrics give the same snapshot.
snapshot-SameView :
    (float : Float) (clock : ℕ → ℕ) (m m' : Metrics)
    → SameView m m'
    → take_snapshot float (λ i. m) clock ≡ take_snapshot float (λ i. m') clock
unfolding take_snapshot rps overall_rps average_latency error_rate
snapshot-SameView float clock m m' (a, b, c, d, e, f, g, h, p) = λ i. record {
  total_requests = a i;
  success_requests = b i;
  failed_requests = c i;
  rps = rps float (clock 0) (record m { window_requests = g i; last_reset_time = f i });
  overall_rps = overall_rps float (clock 1) (record m { start_time = e i; total_requests = a i });
  average_latency = average_latency (record m { total_requests = a i; total_latency_ns = d i });
  p99_latency = p99_any_order float m m' p i;
  error_rate = error_rate float (record m { total_requests = a i; failed_requests = c i });
  elapsed = time_sub (clock 2) (e i);
}

-- The records of successes and failures, whose samples all find room, come in any order to the same snapshot, that
-- is read at the same times: counters, rates, average and percentile.
pub snapshot_any_order :
    (float : Float) (clock : ℕ → ℕ) (cs cs' : List Call) (m : Metrics)
    → Perm cs cs'
    → count_if is_reset cs ≡ 0
    → length m.latencies + count_if is_success cs ≤ m.max_latency_samples
    → take_snapshot float (λ i. run cs m) clock ≡ take_snapshot float (λ i. run cs' m) clock
snapshot_any_order float clock cs cs' m p none_resets room =
    snapshot-SameView float clock (run cs m) (run cs' m) (
      ∥∥₁_elim p (SameView-prop (run cs m) (run cs' m))
        (λ q. run-permᴰ m m q (SameView-refl m) none_resets room))
