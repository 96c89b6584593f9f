-- ===== src/Examples/Pools.antt =====
-- A pool of one worker, from its start to its end and beyond.
use chaos_kvs.Base.{ℕ, ◌≡◌, refl, true, false, none, some, List, [], ◌∷◌, ◌++◌, String_eq, pos, inl}
use chaos_kvs.Base.Count.{occurs}
use chaos_kvs.Worker.{
  PoolConfig, Pool, Worker, idle, busy, gone, new_pool_with_config, start, send, stop, stop_rest,
  Label, quiet, accepts, begins, ends, here, starts, sends, receives, finishes, leaves, stops,
  Trace, done, then_do, submit_wait,
}
use chaos_kvs.Worker.{Sent, accepted, submit}
use chaos_kvs.Worker.Submission.{Submitted, submit_lem}
use chaos_kvs.Worker.Queue.{accepted_jobs, begun_jobs, ended_jobs, Trace-queue, drained}
use chaos_kvs.Worker.Queue.Closing.{closed_for_good}

abbrev config : PoolConfig
config = record { num_workers = pos 1; queue_factor = pos 2 }

abbrev fresh : Pool
fresh = new_pool_with_config 8 config

abbrev stage : List ℕ → Worker → Pool
stage jobs w = record {
  num_workers = 1;
  capacity = 2;
  jobs = jobs;
  is_closed = false;
  context = some false;
  workers = w ∷ [];
  started = true;
  stopping = false;
}

abbrev stopped_at : List ℕ → Worker → Pool
stopped_at jobs w = record (stage jobs w) { context = some true; stopping = true }

abbrev closed_with : List ℕ → Pool
closed_with jobs = record (stage jobs gone) {
  context = some true;
  is_closed = true;
  started = false;
}

abbrev labels : List Label
labels = quiet ∷ accepts 4 ∷ accepts 5 ∷ begins 4 ∷ ends 4 ∷ quiet ∷ quiet ∷ []

-- Two jobs are accepted, one is done, and the worker leaves when the pool is stopped.
to_the_end : Trace fresh labels (stopped_at (5 ∷ []) gone)
unfolding new_pool_with_config start send stop
to_the_end = then_do (starts {p = fresh} false) (
    then_do (sends {p = stage [] idle} {p' = stage (4 ∷ []) idle} false 4 refl) (
      then_do (sends {p = stage (4 ∷ []) idle} {p' = stage (4 ∷ 5 ∷ []) idle} false 5 refl) (
        then_do (receives {p = stage (4 ∷ 5 ∷ []) idle} 4 (5 ∷ []) refl here) (
          then_do (finishes {p = stage (5 ∷ []) (busy 4)} 4 here) (
            then_do (stops {p = stage (5 ∷ []) idle} {p' = stopped_at (5 ∷ []) idle} refl)
              (then_do (leaves {p = stopped_at (5 ∷ []) idle} (inl refl) here) done))))))

-- Started again, the closed pool has an idle worker more.
again : Trace (closed_with (5 ∷ [])) (quiet ∷ []) (start false (closed_with (5 ∷ [])))
again = then_do (starts {p = closed_with (5 ∷ [])} false) done

submit_lem_example :
    let job : ℕ = 4 in
    let sent : Sent = accepted in
    let p : Pool = (stage [] idle) in
    let p' : Pool = (stage (4 ∷ []) idle) in Submitted sent job p p'
unfolding submit submit_wait send
submit_lem_example = submit_lem false 4 accepted (stage [] idle) (stage (4 ∷ []) idle) refl

Trace-queue_example :
    let p : Pool = fresh in
    let q : Pool = (stopped_at (5 ∷ []) gone) in
    let ls : List Label = labels in p.jobs ++ accepted_jobs ls ≡ begun_jobs ls ++ q.jobs
Trace-queue_example =
    Trace-queue {p = fresh} {q = (stopped_at (5 ∷ []) gone)} {ls = labels} to_the_end

drained_example :
    let ls : List Label = labels in
    let job : ℕ = 4 in occurs job (begun_jobs ls) ≡ occurs job (ended_jobs ls)
unfolding new_pool_with_config
drained_example =
    drained {p = fresh} {q = (stopped_at (5 ∷ []) gone)} {ls = labels} 4 refl to_the_end refl

closed_for_good_example :
    let q : Pool = (start false (closed_with (5 ∷ []))) in
    let ls : List Label = (quiet ∷ []) in (accepted_jobs ls ≡ []) × (stop_rest q ≡ none)
closed_for_good_example =
    closed_for_good {p = (closed_with (5 ∷ []))} {q = (start false (closed_with (5 ∷ [])))}
      {ls = (quiet ∷ [])} refl again
