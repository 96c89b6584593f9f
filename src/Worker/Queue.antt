-- ===== src/Worker/Queue.antt =====
-- internal/worker/worker.go: what becomes of the jobs that the pool accepts.
pub mod Closing
use chaos_kvs.Base.{
  ℕ, zero, suc, ◌+◌, ◌≤◌, ◌<◌, ◌≡◌, refl, sym, ap, ◌∙◌, Bool, true, false, some, List, [], ◌∷◌,
  ◌++◌, nat_eq, length, arith,
}
use chaos_kvs.Base.Count.{count_if, occurs}
use mathlib.Core.List.{append_assoc, append-nil}
use chaos_kvs.Worker.{
  Pool, Worker, idle, busy, gone, accepted, Label, quiet, accepts, begins, ends, Turn, here, there,
  Step, Trace, start, send, stop, stop_rest, idle_workers, all_gone,
}

-- What a history has accepted and begun, in order, and how often it has ended a job.
abbrev pub accepted_jobs : List Label → List ℕ
accepted_jobs [] = []
accepted_jobs (accepts job ∷ ls) = job ∷ accepted_jobs ls
accepted_jobs (_ ∷ ls) = accepted_jobs ls

abbrev pub begun_jobs : List Label → List ℕ
begun_jobs [] = []
begun_jobs (begins job ∷ ls) = job ∷ begun_jobs ls
begun_jobs (_ ∷ ls) = begun_jobs ls

abbrev pub ended_jobs : List Label → List ℕ
ended_jobs [] = []
ended_jobs (ends job ∷ ls) = job ∷ ended_jobs ls
ended_jobs (_ ∷ ls) = ended_jobs ls

abbrev is_busy : ℕ → Worker → Bool
is_busy job idle = false
is_busy job (busy other) = nat_eq job other
is_busy job gone = false

-- How many workers are in a job.
abbrev pub in_progress : ℕ → List Worker → ℕ
in_progress job ws = count_if (is_busy job) ws

-- A send that is accepted puts the job last, where there is room, and changes nothing else.
data SendFacts (job : ℕ) (p p' : Pool) : Type 0 where
  facts :
      p'.jobs ≡ p.jobs ++ job ∷ []
      → p'.workers ≡ p.workers
      → length p.jobs < p.capacity
      → p'.capacity ≡ p.capacity
      → p'.is_closed ≡ p.is_closed
      → p.is_closed ≡ false
      → SendFacts job p p'

send_facts :
    (choice : Bool) (job : ℕ) (p p' : Pool)
    → send choice job p ≡ (accepted, p')
    → SendFacts job p p'
unfolding send
send_facts choice job p p' e =
    facts (ground arith) (ground arith) (ground arith) (ground arith) (ground arith) (ground arith)

stop_facts :
    (p p' : Pool)
    → stop p ≡ some p'
    → (p'.jobs ≡ p.jobs)
      × (p'.workers ≡ p.workers)
      × (p'.capacity ≡ p.capacity)
      × (p'.is_closed ≡ p.is_closed)
unfolding stop
stop_facts p p' e = ground arith

stop_rest_facts :
    (p p' : Pool)
    → stop_rest p ≡ some p'
    → (p'.jobs ≡ p.jobs)
      × (p'.workers ≡ p.workers)
      × (p'.capacity ≡ p.capacity)
      × (p'.is_closed ≡ true)
unfolding stop_rest
stop_rest_facts p p' e = ground arith

start_facts :
    (cancelled : Bool) (p : Pool)
    → ((start cancelled p).jobs ≡ p.jobs)
      × ((start cancelled p).capacity ≡ p.capacity)
      × ((start cancelled p).is_closed ≡ p.is_closed)
unfolding start
start_facts cancelled p = ground arith

in_progress-idle_workers :
    (job n : ℕ) (ws : List Worker) → in_progress job (idle_workers n ws) ≡ in_progress job ws
in_progress-idle_workers job zero ws = refl
in_progress-idle_workers job (suc n) ws = ground (arith, in_progress-idle_workers job n ws)

in_progress-start :
    (job : ℕ) (cancelled : Bool) (p : Pool)
    → in_progress job (start cancelled p).workers ≡ in_progress job p.workers
unfolding start
in_progress-start job cancelled p =
    ground (arith, in_progress-idle_workers job p.num_workers p.workers)

in_progress-Turn :
    {v w : Worker} {ws ws' : List Worker} (job : ℕ)
    → Turn v w ws ws'
    → in_progress job ws + in_progress job (w ∷ []) ≡ in_progress job ws' + in_progress job (v ∷ [])
in_progress-Turn job here = omega arith
in_progress-Turn job (there t) = omega (arith, in_progress-Turn job t)

Step-queue :
    {p q : Pool} {l : Label}
    → Step p l q
    → p.jobs ++ accepted_jobs (l ∷ []) ≡ begun_jobs (l ∷ []) ++ q.jobs
Step-queue (Step.starts {p} cancelled) = append-nil p.jobs ∙ sym (start_facts cancelled p).0
Step-queue (Step.cancels {p}) = append-nil p.jobs
Step-queue (Step.sends {p} {p'} choice job e) = elim (send_facts choice job p p' e) [
  | SendFacts.facts jobs _ _ _ _ _ ↦ sym jobs
]
Step-queue (Step.receives {p} job rest e t) = append-nil p.jobs ∙ e
Step-queue (Step.finishes {p} job t) = append-nil p.jobs
Step-queue (Step.leaves {p} _ t) = append-nil p.jobs
Step-queue (Step.stops {p} {p'} e) = append-nil p.jobs ∙ sym (stop_facts p p' e).0
Step-queue (Step.closes {p} {p'} _ e) = append-nil p.jobs ∙ sym (stop_rest_facts p p' e).0

Step-progress :
    {p q : Pool} {l : Label} (job : ℕ)
    → Step p l q
    → occurs job (begun_jobs (l ∷ [])) + in_progress job p.workers
      ≡ occurs job (ended_jobs (l ∷ [])) + in_progress job q.workers
Step-progress job (Step.starts {p} cancelled) = omega (arith, in_progress-start job cancelled p)
Step-progress job (Step.cancels {p}) = omega arith
Step-progress job (Step.sends {p} {p'} choice other e) = elim (send_facts choice other p p' e) [
  | SendFacts.facts _ workers _ _ _ _ ↦ omega (arith, ap (in_progress job) workers)
]
Step-progress job (Step.receives other rest e t) = ground (arith, in_progress-Turn job t)
Step-progress job (Step.finishes other t) = ground (arith, in_progress-Turn job t)
Step-progress job (Step.leaves _ t) = ground (arith, in_progress-Turn job t)
Step-progress job (Step.stops {p} {p'} e) =
    omega (arith, ap (in_progress job) (stop_facts p p' e).1)
Step-progress job (Step.closes {p} {p'} _ e) =
    omega (arith, ap (in_progress job) (stop_rest_facts p p' e).1)

accepted_jobs-cons :
    (l : Label) (ls : List Label)
    → accepted_jobs (l ∷ ls) ≡ accepted_jobs (l ∷ []) ++ accepted_jobs ls
accepted_jobs-cons quiet ls = refl
accepted_jobs-cons (accepts job) ls = refl
accepted_jobs-cons (begins job) ls = refl
accepted_jobs-cons (ends job) ls = refl

begun_jobs-cons :
    (l : Label) (ls : List Label) → begun_jobs (l ∷ ls) ≡ begun_jobs (l ∷ []) ++ begun_jobs ls
begun_jobs-cons quiet ls = refl
begun_jobs-cons (accepts job) ls = refl
begun_jobs-cons (begins job) ls = refl
begun_jobs-cons (ends job) ls = refl

-- Whatever the goroutines do, the jobs that waited and those accepted since, in order, are those begun since
-- followed by those that wait now: jobs begin in the order in which they are accepted, none twice, and none
-- is lost.
pub Trace-queue :
    {p q : Pool} {ls : List Label}
    → Trace p ls q
    → p.jobs ++ accepted_jobs ls ≡ begun_jobs ls ++ q.jobs
Trace-queue (Trace.done {p}) = append-nil p.jobs
Trace-queue (Trace.then_do {p} {q} {r} {l} {ls} s path) =
    ap (λ xs. p.jobs ++ xs) (accepted_jobs-cons l ls)
    ∙ sym (append_assoc p.jobs (accepted_jobs (l ∷ [])) (accepted_jobs ls))
    ∙ ap (λ xs. xs ++ accepted_jobs ls) (Step-queue s)
    ∙ append_assoc (begun_jobs (l ∷ [])) q.jobs (accepted_jobs ls)
    ∙ ap (λ xs. begun_jobs (l ∷ []) ++ xs) (Trace-queue path)
    ∙ sym (append_assoc (begun_jobs (l ∷ [])) (begun_jobs ls) r.jobs)
    ∙ ap (λ xs. xs ++ r.jobs) (sym (begun_jobs-cons l ls))

Trace-progress :
    {p q : Pool} {ls : List Label} (job : ℕ)
    → Trace p ls q
    → occurs job (begun_jobs ls) + in_progress job p.workers
      ≡ occurs job (ended_jobs ls) + in_progress job q.workers
Trace-progress job Trace.done = refl
Trace-progress job (Trace.then_do {l = quiet} s path) =
    omega (arith, Step-progress job s, Trace-progress job path)
Trace-progress job (Trace.then_do {l = accepts other} s path) =
    omega (arith, Step-progress job s, Trace-progress job path)
Trace-progress job (Trace.then_do {l = begins other} s path) =
    omega (arith, Step-progress job s, Trace-progress job path)
Trace-progress job (Trace.then_do {l = ends other} s path) =
    omega (arith, Step-progress job s, Trace-progress job path)

all_gone-in_progress : (job : ℕ) (ws : List Worker) → all_gone ws ≡ true → in_progress job ws ≡ 0
all_gone-in_progress job [] e = refl
all_gone-in_progress job (idle ∷ ws) e = ground arith
all_gone-in_progress job (busy other ∷ ws) e = ground arith
all_gone-in_progress job (gone ∷ ws) e = omega (arith, all_gone-in_progress job ws e)

-- From a pool without workers, once every worker has returned (what Stop waits for), each job has ended as
-- often as it has begun.
pub drained :
    {p q : Pool} {ls : List Label} (job : ℕ)
    → p.workers ≡ []
    → Trace p ls q
    → all_gone q.workers ≡ true
    → occurs job (begun_jobs ls) ≡ occurs job (ended_jobs ls)
drained {p} {q} job e path h =
    omega
      (arith, Trace-progress job path, ap (in_progress job) e, all_gone-in_progress job q.workers h)
