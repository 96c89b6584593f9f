-- ===== src/Examples/Loads.antt =====
-- A client with one worker that is asked for one request and performs two.
use chaos_kvs.Base.{
  ℕ, ◌≡◌, ◌≤◌, refl, true, false, some, List, [], ◌∷◌, ◌++◌, String_eq, pos, inl, arith,
}
use chaos_kvs.Examples.{heap, cluster, float}
use chaos_kvs.Base.Order.{in_order}
use chaos_kvs.Base.Decimal.{decimal}
use chaos_kvs.Cluster.{nodes}
use chaos_kvs.Node.{at_once}
use chaos_kvs.Metrics.{Snapshot, take_snapshot}
use chaos_kvs.Worker.{
  Pool, busy, idle, gone, new_pool, is_cancelled, send, stop, here, receives, finishes,
}
use chaos_kvs.Worker
use chaos_kvs.Client.{Client, Job, default_config, new, generate_request, run_requests}
use chaos_kvs.Client
use chaos_kvs.Client.Load.{
  Load, checking, sending, offering, passes, returned, begin_load, with_pool, performed, draws,
  quits, hands_over, takes, performs, leaves, Course, over, then_on,
}
use chaos_kvs.Client.Load.Limit.{limited_client, most_requests, run_requests_within}

abbrev config : Client.Config float
unfolding default_config
config = record (default_config float) { num_workers = pos 1 }

abbrev begun : Load float
unfolding begin_load new
begun = begin_load float false in_order heap (limited_client float 8 0 cluster config 1)

abbrev job : Job
job = record { pointer = 0; key = "key-0"; is_write = false }

abbrev with_workers : List ℕ → Worker.Worker → Load float → Load float
with_workers jobs w l = with_pool float (record l.client.pool { jobs = jobs; workers = w ∷ [] }) l

abbrev accepting : List ℕ → Load float → Load float
accepting jobs l = record (with_pool float (record l.client.pool { jobs = jobs }) l) {
  generator = checking;
  accepted_requests = l.accepted_requests ++ job ∷ [];
}

abbrev accepted_one : Load float
accepted_one = accepting (0 ∷ []) (record begun { generator = sending job })

abbrev accepted_two : Load float
accepted_two =
    accepting (1 ∷ []) (record (with_workers [] (busy 0) accepted_one) { generator = sending job })

abbrev done_one : Load float
unfolding performed
done_one =
    performed float at_once [] (pos 7) 0 (record accepted_two.client.pool { workers = idle ∷ [] })
      accepted_two

abbrev done_two : Load float
unfolding performed
done_two =
    let l = with_workers [] (busy 1) done_one in
    performed float at_once [] (pos 7) 1 (record l.client.pool { workers = idle ∷ [] }) l

abbrev last : Load float
last = record done_two { generator = returned }

-- The second request is accepted before the first one is counted.
two_requests : Course float begun last
unfolding begun done_one done_two config default_config begin_load new generate_request send
    performed new_pool decimal
two_requests =
    let second = with_workers [] (busy 0) accepted_one in
    let third = with_workers [] (busy 1) done_one in
    then_on (draws {l = begun} 0 0 9 job refl refl) (
      then_on (passes {l = record begun { generator = sending job }} job refl refl refl) (
        then_on
          (hands_over {l = record begun { generator = offering job }} {p = accepted_one.client.pool}
            false job refl refl)
          (then_on (takes {l = accepted_one} {p = second.client.pool} 0 (receives 0 [] refl here)) (
            then_on (draws {l = second} 0 0 9 job refl refl) (
              then_on (passes {l = record second { generator = sending job }} job refl refl refl) (
                then_on
                  (hands_over {l = record second { generator = offering job }}
                    {p = accepted_two.client.pool} false job refl refl)
                  (then_on (performs {l = accepted_two} 0 at_once [] (pos 7) (finishes 0 here)) (
                    then_on
                      (takes {l = done_one} {p = third.client.pool} 1 (receives 1 [] refl here))
                      (then_on (performs {l = third} 1 at_once [] (pos 7) (finishes 1 here))
                        (then_on (quits {l = done_two} 0 0 9 refl refl) over))))))))))

abbrev stopping : Pool
unfolding done_two
stopping = record last.client.pool { stopping = true; context = some true }

abbrev at_end : Load float
unfolding stopping
at_end = with_pool float (record stopping { workers = gone ∷ [] }) last

abbrev left_client : Client float
unfolding at_end
left_client = record at_end.client {
  running = false;
  pool = record at_end.client.pool { is_closed = true; started = false; stopping = false };
}

abbrev told : Snapshot float
unfolding left_client
told = take_snapshot float (λ i. left_client.metrics) (λ i. i)

-- Two are told of, though one was asked for.
two_told : told.total_requests ≡ 2
unfolding told left_client at_end stopping done_two done_one begun begin_load performed new
    take_snapshot
two_told = refl

run_requests_within_example :
    (told.total_requests ≤ most_requests 8 1 (pos 1))
    × (is_cancelled last.client.pool ≡ false → 1 ≤ told.total_requests)
unfolding begun done_one done_two config default_config begin_load new new_pool stopping at_end
    left_client told nodes stop run_requests
run_requests_within_example =
    run_requests_within float 8 0 1 cluster config false in_order heap (λ i. i) last at_end stopping
      left_client told (omega arith) (omega arith) (omega arith) two_requests refl refl
      (then_on (leaves {l = with_pool float stopping last} (inl refl) here) over) refl
