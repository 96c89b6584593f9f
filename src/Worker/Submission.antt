-- ===== src/Worker/Submission.antt =====
-- internal/worker/worker.go, Submit and SubmitWait: what a submission comes to on every branch.
use chaos_kvs.Base.{◌++◌, ◌∷◌, [], ◌<◌, length, some, false, ℕ, ◌≡◌, Bool, arith, ◌≢◌}
use chaos_kvs.Worker.{
  Pool, Sent, accepted, refused, panics, waits, send, submit, submit_wait, accepts, Step, sends,
}

-- What a submission that turned out so makes of the pool. An accepted job is put behind those that wait, which had room
-- for it in a pool that is started, neither stopping, cancelled nor closed, and this is a step of the pool; else the pool
-- is left alone; no panic comes out.
abbrev pub Submitted : Sent → ℕ → Pool → Pool → Type 0
Submitted accepted job p p' =
    (p' ≡ record p { jobs = p.jobs ++ job ∷ [] })
    × (length p.jobs < p.capacity)
    × (p.context ≡ some false)
    × (p.stopping ≡ false)
    × (p.is_closed ≡ false)
    × Step p (accepts job) p'
Submitted refused job p p' = p' ≡ p
Submitted waits job p p' = p' ≡ p
Submitted panics job p p' = ⊥

send-accepted :
    (choice : Bool) (job : ℕ) (p p' : Pool)
    → submit choice job p ≡ (accepted, p')
    → send choice job p ≡ (accepted, p')
unfolding submit submit_wait
send-accepted choice job p p' e = ground arith

accepted_lem :
    (choice : Bool) (job : ℕ) (p p' : Pool)
    → submit choice job p ≡ (accepted, p')
    → (p' ≡ record p { jobs = p.jobs ++ job ∷ [] })
      × (length p.jobs < p.capacity)
      × (p.context ≡ some false)
      × (p.stopping ≡ false)
      × (p.is_closed ≡ false)
unfolding submit submit_wait send
accepted_lem choice job p p' e = ground arith

left_alone :
    (choice : Bool) (job : ℕ) (sent : Sent) (p p' : Pool)
    → sent ≢ accepted
    → submit choice job p ≡ (sent, p')
    → p' ≡ p
unfolding submit submit_wait send
left_alone choice job sent p p' n e = ground arith

never_panics : (choice : Bool) (job : ℕ) (p p' : Pool) → submit choice job p ≢ (panics, p')
unfolding submit submit_wait send
never_panics choice job p p' e = ground arith

-- Whatever the state of the pool, started or not, stopping or closed, Submit does not panic; a job that it accepts is
-- put behind those that wait, which had room for it, in a pool that has a context that is not cancelled, does not stop and
-- is not closed, as a step of the pool; and otherwise the pool is as it was.
pub submit_lem :
    (choice : Bool) (job : ℕ) (sent : Sent) (p p' : Pool)
    → submit choice job p ≡ (sent, p')
    → Submitted sent job p p'
submit_lem choice job accepted p p' e =
    let (queued, room, live, goes_on, open_pool) = accepted_lem choice job p p' e in
    (queued, room, live, goes_on, open_pool, sends choice job (send-accepted choice job p p' e))
submit_lem choice job refused p p' e = left_alone choice job refused p p' (λ n. ground (arith, n)) e
submit_lem choice job waits p p' e = left_alone choice job waits p p' (λ n. ground (arith, n)) e
submit_lem choice job panics p p' e = never_panics choice job p p' e
