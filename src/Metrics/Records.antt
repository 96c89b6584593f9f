-- ===== src/Metrics/Records.antt =====
-- internal/metrics/metrics.go: what the counters, the samples and the average say of what was recorded.
use chaos_kvs.Base.{
  ℕ, zero, suc, ◌+◌, ◌/◌, ◌≤◌, ◌<◌, ◌≡◌, refl, ap, sym, ◌∙◌, true, List, [], ◌∷◌, ◌++◌, ℤ, pos, u64,
  ltb, nat_eq, length, take, if◌then◌else◌, arith, length-take,
}
use native.Mathlib.Nat.{div-le_self}
use chaos_kvs.Metrics.{
  Metrics, Config, new, new_with_config, record_success, record_failure, reset, average_latency,
  to_uint64, to_int64, default_config,
}

pub data Call : Type 0 where
  succeeds fails : ℤ → Call
  resets : ℕ → Call

unfoldable pub step : Call → Metrics → Metrics
unfolding record_success record_failure reset
step (succeeds latency) m = record_success latency m
step (fails latency) m = record_failure latency m
step (resets now) m = reset now m

unfoldable pub run : List Call → Metrics → Metrics
run [] m = m
run (c ∷ cs) m = run cs (step c m)

-- What a history holds.
abbrev pub successes : List Call → ℕ
successes [] = 0
successes (succeeds latency ∷ cs) = successes cs + 1
successes (_ ∷ cs) = successes cs

abbrev pub failures : List Call → ℕ
failures [] = 0
failures (fails latency ∷ cs) = failures cs + 1
failures (_ ∷ cs) = failures cs

abbrev pub time_spent : List Call → ℕ
time_spent [] = 0
time_spent (succeeds latency ∷ cs) = to_uint64 latency + time_spent cs
time_spent (fails latency ∷ cs) = to_uint64 latency + time_spent cs
time_spent (resets now ∷ cs) = time_spent cs

-- The latencies of the successes since the last reset, after those of `old`; and how many requests.
abbrev pub recent : List ℤ → List Call → List ℤ
recent old [] = old
recent old (succeeds latency ∷ cs) = recent (old ++ latency ∷ []) cs
recent old (fails latency ∷ cs) = recent old cs
recent old (resets now ∷ cs) = recent [] cs

abbrev pub recent_requests : ℕ → List Call → ℕ
recent_requests old [] = old
recent_requests old (succeeds latency ∷ cs) = recent_requests (u64 (old + 1)) cs
recent_requests old (fails latency ∷ cs) = recent_requests (u64 (old + 1)) cs
recent_requests old (resets now ∷ cs) = recent_requests 0 cs

-- The counters are, modulo 2^64, where the collector began plus what the history holds; a reset leaves the
-- totals alone, and the window counts the requests since the last one.
pub counters_run :
    (cs : List Call) (m : Metrics)
    → let m' = run cs m in
      (u64 m'.success_requests ≡ u64 (m.success_requests + successes cs))
      × (u64 m'.failed_requests ≡ u64 (m.failed_requests + failures cs))
      × (u64 m'.total_requests ≡ u64 (m.total_requests + successes cs + failures cs))
      × (u64 m'.total_latency_ns ≡ u64 (m.total_latency_ns + time_spent cs))
      × (m'.window_requests ≡ recent_requests m.window_requests cs)
unfolding run step
counters_run [] m = ground arith
counters_run (succeeds latency ∷ cs) m = ground (arith, counters_run cs (step (succeeds latency) m))
counters_run (fails latency ∷ cs) m = ground (arith, counters_run cs (step (fails latency) m))
counters_run (resets now ∷ cs) m = ground (arith, counters_run cs (step (resets now) m))

take-nil {ℓ} : {A : Type ℓ} (n : ℕ) → take {A = A} n [] ≡ []
take-nil zero = refl
take-nil (suc n) = refl

ltb-zero-suc : (n : ℕ) → ltb 0 (suc n) ≡ true
ltb-zero-suc n = ground arith

-- Keeping a latency while there is room is keeping the first ones of all.
take-snoc {ℓ} :
    {A : Type ℓ} (n : ℕ) (xs : List A) (x : A)
    → (if ltb (length (take n xs)) n then take n xs ++ x ∷ [] else take n xs)
      ≡ take n (xs ++ x ∷ [])
take-snoc zero xs x = ground arith
take-snoc (suc n) [] x =
    ap (λ b. if b then x ∷ [] else []) (ltb-zero-suc n) ∙ ap (λ xs. x ∷ xs) (sym (take-nil n))
take-snoc (suc n) (y ∷ xs) x = ground (arith, take-snoc n xs x)

samples_from :
    (cs : List Call) (m : Metrics) (old : List ℤ)
    → m.latencies ≡ take m.max_latency_samples old
    → (run cs m).latencies ≡ take m.max_latency_samples (recent old cs)
unfolding run step record_success record_failure reset
samples_from [] m old e = e
samples_from (succeeds latency ∷ cs) m old e =
    samples_from cs (step (succeeds latency) m) (old ++ latency ∷ []) (
      ap (λ kept. if ltb (length kept) m.max_latency_samples then kept ++ latency ∷ [] else kept) e
      ∙ take-snoc m.max_latency_samples old latency)
samples_from (fails latency ∷ cs) m old e = samples_from cs (step (fails latency) m) old e
samples_from (resets now ∷ cs) m old e =
    samples_from cs (step (resets now) m) [] (sym (take-nil m.max_latency_samples))

-- The average of a collector whose requests and latencies have not wrapped.
average_run :
    (cs : List Call) (m : Metrics)
    → m.total_requests + successes cs + failures cs < 18446744073709551616
    → m.total_latency_ns + time_spent cs < 9223372036854775808
    → ((run cs m).total_requests ≡ m.total_requests + successes cs + failures cs)
      × ((run cs m).total_latency_ns ≡ m.total_latency_ns + time_spent cs)
unfolding run step record_success record_failure reset
average_run [] m p q = ground arith
average_run (succeeds latency ∷ cs) m p q =
    ground (arith, average_run cs (step (succeeds latency) m))
average_run (fails latency ∷ cs) m p q = ground (arith, average_run cs (step (fails latency) m))
average_run (resets now ∷ cs) m p q = ground (arith, average_run cs (step (resets now) m))

quotient_kept :
    (a b : ℕ)
    → 0 < b
    → a < 9223372036854775808
    → (if nat_eq b 0 then pos 0 else to_int64 (a / b)) ≡ pos (a / b)
quotient_kept a b l h = ground (arith, div-le_self a b)

abbrev average_of : ℕ → ℕ → ℤ
average_of time requests = if nat_eq requests 0 then pos 0 else to_int64 (time / requests)

-- A collector started at `now` that has recorded at least one request, fewer than 2^64, whose latencies
-- sum up to less than 2^63, reports their whole quotient.
pub average_latency_run :
    (cs : List Call) (now : ℕ)
    → 0 < successes cs + failures cs
    → successes cs + failures cs < 18446744073709551616
    → time_spent cs < 9223372036854775808
    → average_latency (run cs (new now)) ≡ pos (time_spent cs / (successes cs + failures cs))
unfolding average_latency new new_with_config default_config
average_latency_run cs now l p q =
    let counted = average_run cs (new now) (omega arith) (omega arith) in
    let requests : (run cs (new now)).total_requests ≡ successes cs + failures cs =
      omega (arith, counted.0) in
    let time : (run cs (new now)).total_latency_ns ≡ time_spent cs = omega (arith, counted.1) in
    ap (λ n. average_of (run cs (new now)).total_latency_ns n) requests
    ∙ ap (λ t. average_of t (successes cs + failures cs)) time
    ∙ quotient_kept (time_spent cs) (successes cs + failures cs) l q

-- The samples are the first latencies, up to the collector's limit, of the successes since the last reset.
pub samples_run :
    (cs : List Call) (now : ℕ) (config : Config)
    → let m = new_with_config now config in
      ((run cs m).latencies ≡ take m.max_latency_samples (recent [] cs))
      × (length (run cs m).latencies ≤ m.max_latency_samples)
unfolding new_with_config
samples_run cs now config =
    let m = new_with_config now config in
    let kept = samples_from cs m [] (sym (take-nil m.max_latency_samples)) in
    (kept, omega (arith, ap length kept, length-take m.max_latency_samples (recent [] cs)))
