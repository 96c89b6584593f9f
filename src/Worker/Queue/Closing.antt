-- ===== src/Worker/Queue/Closing.antt =====
-- internal/worker/worker.go: the bound on the queue, and that a closed channel stays closed.
use chaos_kvs.Base.{
  ℕ, ◌≤◌, ◌≡◌, refl, ap, ◌∙◌, true, none, List, [], ◌∷◌, ◌++◌, length, length-append, arith,
}
use chaos_kvs.Worker.{Pool, PoolConfig, new_pool_with_config, Worker, Label, Step, Trace, stop_rest}
use chaos_kvs.Worker.Queue.{
  SendFacts, send_facts, start_facts, stop_facts, stop_rest_facts, accepted_jobs,
  accepted_jobs-cons,
}

Kept : Pool → Pool → Type 0
Kept p q =
    (length p.jobs ≤ p.capacity → length q.jobs ≤ q.capacity)
    × (p.is_closed ≡ true → q.is_closed ≡ true)

same-Kept :
    (p q : Pool)
    → q.jobs ≡ p.jobs
    → q.capacity ≡ p.capacity
    → (p.is_closed ≡ true → q.is_closed ≡ true)
    → Kept p q
unfolding Kept
same-Kept p q jobs capacity closed = (λ h. omega (arith, ap length jobs), closed)

send-Kept : (job : ℕ) (p q : Pool) → SendFacts job p q → Kept p q
unfolding Kept
send-Kept job p q (SendFacts.facts jobs _ room capacity closed _) =
    (λ h. omega (arith, ap length jobs, length-append p.jobs (job ∷ [])), λ h. closed ∙ h)

receive-Kept :
    (p : Pool) (ws : List Worker) (job : ℕ) (rest : List ℕ)
    → p.jobs ≡ job ∷ rest
    → Kept p (record p { jobs = rest; workers = ws })
unfolding Kept
receive-Kept p ws job rest e = (λ h. omega (arith, ap length e), λ h. h)

Step-Kept : {p q : Pool} {l : Label} → Step p l q → Kept p q
Step-Kept (Step.starts {p} cancelled) =
    let f = start_facts cancelled p in same-Kept p _ f.0 f.1 (λ h. f.2 ∙ h)
Step-Kept (Step.cancels {p}) = same-Kept p _ refl refl (λ h. h)
Step-Kept (Step.sends {p} {p'} choice job e) = send-Kept job p p' (send_facts choice job p p' e)
Step-Kept (Step.receives {p} {ws} job rest e t) = receive-Kept p ws job rest e
Step-Kept (Step.finishes {p} job t) = same-Kept p _ refl refl (λ h. h)
Step-Kept (Step.leaves {p} _ t) = same-Kept p _ refl refl (λ h. h)
Step-Kept (Step.stops {p} {p'} e) =
    let f = stop_facts p p' e in same-Kept p p' f.0 f.2 (λ h. f.3 ∙ h)
Step-Kept (Step.closes {p} {p'} _ e) =
    let f = stop_rest_facts p p' e in same-Kept p p' f.0 f.2 (λ _. f.3)

Trace-Kept : {p q : Pool} {ls : List Label} → Trace p ls q → Kept p q
unfolding Kept
Trace-Kept Trace.done = (λ h. h, λ h. h)
Trace-Kept (Trace.then_do s path) =
    (λ h. (Trace-Kept path).0 ((Step-Kept s).0 h), λ h. (Trace-Kept path).1 ((Step-Kept s).1 h))

-- However a new pool is used, no more jobs wait than its queue has room for.
pub queue-bound :
    (num_cpu : ℕ) (config : PoolConfig) {q : Pool} {ls : List Label}
    → Trace (new_pool_with_config num_cpu config) ls q
    → length q.jobs ≤ q.capacity
unfolding new_pool_with_config Kept
queue-bound num_cpu config path = (Trace-Kept path).0 (omega arith)

closed_accepts :
    {p q : Pool} {l : Label} → p.is_closed ≡ true → Step p l q → accepted_jobs (l ∷ []) ≡ []
closed_accepts h (Step.starts cancelled) = refl
closed_accepts h Step.cancels = refl
closed_accepts h (Step.sends {p} {p'} choice job e) = elim (send_facts choice job p p' e) [
  | SendFacts.facts _ _ _ _ _ open_still ↦ ground (arith, h, open_still)
]
closed_accepts h (Step.receives job rest e t) = refl
closed_accepts h (Step.finishes job t) = refl
closed_accepts h (Step.leaves _ t) = refl
closed_accepts h (Step.stops e) = refl
closed_accepts h (Step.closes _ e) = refl

closed-stop_rest : (p : Pool) → p.is_closed ≡ true → stop_rest p ≡ none
unfolding stop_rest
closed-stop_rest p h = ground arith

-- A pool that a Stop has closed accepts no job any more, started again or not, and the next Stop that gets
-- to `close` panics.
pub closed_for_good :
    {p q : Pool} {ls : List Label}
    → p.is_closed ≡ true
    → Trace p ls q
    → (accepted_jobs ls ≡ []) × (stop_rest q ≡ none)
unfolding Kept
closed_for_good h (Trace.done {p}) = (refl, closed-stop_rest p h)
closed_for_good h (Trace.then_do {p} {q} {r} {l} {ls} s path) =
    let rest = closed_for_good ((Step-Kept s).1 h) path in
    (
      accepted_jobs-cons l ls ∙ ap (λ xs. xs ++ accepted_jobs ls) (closed_accepts h s) ∙ rest.0,
      rest.1,
    )
