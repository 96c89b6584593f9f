-- ===== src/Client/Load/Accounts.antt =====
-- internal/client/client.go: every step of a run keeps the account of the requests.
use chaos_kvs.Base.{
  ℕ, ◌+◌, ◌<◌, ◌≡◌, refl, ◌∙◌, sym, true, false, List, length, arith, ℤ, get_or, subst,
}
use chaos_kvs.Heap.{Heap}
use chaos_kvs.Node.{set, Meanwhile}
use chaos_kvs.Metrics.{Float, Metrics}
use chaos_kvs.Worker.{Pool, cancel}
use chaos_kvs.Client.{Job, execute}
use chaos_kvs.Client.Load.{Load, Advance, Course, performed, with_pool, no_job}
use chaos_kvs.Client.Load.Pooling.{
  Moved, moved, begins-Moved, ends-Moved, send-Added, stop-pool, stop_rest-pool,
}
use chaos_kvs.Client.Load.Holding.{
  Holds, room, same-Alive, repool-Holds, begins-Holds, leaves-Holds, cancelled-Alive, live_before,
  stops-Alive, closes-Alive,
}
use chaos_kvs.Client.Load.Generating.{
  draws-Holds, quits-Holds, hands_over-Holds, gives_up-Holds, passes-Holds, turned_away-Holds,
}

module _ (float : Float) (limit capacity workers : ℕ) where
  pub total-execute :
      (meanwhile : Meanwhile) (value : List ℕ) (latency : ℤ) (job : Job) (h : Heap) (m : Metrics)
      → m.total_requests + 1 < 18446744073709551616
      → (execute meanwhile value latency job h m).1.total_requests ≡ m.total_requests + 1
  unfolding execute set
  total-execute meanwhile value latency job h m small = ground arith

  ends-Holds :
      (l : Load float) (p : Pool) (meanwhile : Meanwhile) (value : List ℕ) (latency : ℤ) (job : ℕ)
      → room float limit capacity workers < 18446744073709551616
      → Holds float limit capacity workers l
      → Moved l.client.pool p 1 0
      → Holds float limit capacity workers (performed float meanwhile value latency job p l)
  unfolding performed
  ends-Holds l p meanwhile value latency job small v
        (moved jobs working staff room_same context stopping closed) =
      let (same, alive) = same-Alive l.client.pool p context stopping closed v.alive in
      let total =
        total-execute meanwhile value latency (get_or l.accepted_requests job no_job) l.heap
          l.client.metrics (omega (arith, v.accounted, v.bounded)) in
      record {
        limited = v.limited;
        sized = room_same ∙ v.sized;
        staffed = staff ∙ v.staffed;
        queued = omega (arith, v.queued);
        accounted = omega (arith, v.accounted, total);
        bounded = v.bounded;
        alive = alive;
        reached = λ g h. omega (arith, v.reached g (sym same ∙ h), total);
      }

  pub Advance-Holds :
      {k l : Load float}
      → 0 < limit
      → room float limit capacity workers < 18446744073709551616
      → Holds float limit capacity workers k
      → Advance float k l
      → Holds float limit capacity workers l
  Advance-Holds positive small v (Advance.draws {l} r k x job g e) =
      draws-Holds float limit capacity workers l r k x job positive v e
  Advance-Holds positive small v (Advance.quits {l} r k x g e) =
      quits-Holds float limit capacity workers l r k x v e g
  Advance-Holds positive small v (Advance.passes {l} job g _ _) =
      passes-Holds float limit capacity workers l job v g
  Advance-Holds positive small v (Advance.gives_up {l} job g h) =
      gives_up-Holds float limit capacity workers l v h
  Advance-Holds positive small v (Advance.hands_over {l} {p} choice job g e) =
      hands_over-Holds float limit capacity workers l p job v g
        (send-Added choice (length l.accepted_requests) l.client.pool p e)
  Advance-Holds positive small v (Advance.turned_away {l} choice job g e) =
      turned_away-Holds float limit capacity workers l choice v e
  Advance-Holds positive small v (Advance.takes {l} {p} job s) =
      begins-Holds float limit capacity workers l p v (begins-Moved s)
  Advance-Holds positive small v (Advance.performs {l} {p} job meanwhile value latency s) =
      ends-Holds l p meanwhile value latency job small v (ends-Moved s)
  Advance-Holds positive small v (Advance.leaves {l} {ws} _ t) =
      leaves-Holds float limit capacity workers l ws v t
  Advance-Holds positive small v (Advance.cancels {l}) =
      let p = l.client.pool in
      repool-Holds float limit capacity workers l (record p { context = cancel p.context }) v refl
        refl v.queued refl (cancelled-Alive p v.alive) (live_before p)
  Advance-Holds positive small v (Advance.stops {l} {p} g e) =
      let q = l.client.pool in
      subst (λ k. Holds float limit capacity workers (with_pool float k l)) (sym (stop-pool q p e))
        (repool-Holds float limit capacity workers l
          (record q { stopping = true; context = cancel q.context }) v refl refl v.queued refl
          (stops-Alive q v.alive) (live_before q))
  Advance-Holds positive small v (Advance.closes {l} {p} s _ e) =
      let q = l.client.pool in
      subst (λ k. Holds float limit capacity workers (with_pool float k l))
        (sym (stop_rest-pool q p e))
        (repool-Holds float limit capacity workers l
          (record q { is_closed = true; started = false; stopping = false }) v refl refl v.queued
          refl (closes-Alive q v.alive s) (λ h. h))
  Advance-Holds positive small v (Advance.disturbs {l} h) = record {
    limited = v.limited;
    sized = v.sized;
    staffed = v.staffed;
    queued = v.queued;
    accounted = v.accounted;
    bounded = v.bounded;
    alive = v.alive;
    reached = v.reached;
  }

  pub Course-Holds :
      {k l : Load float}
      → 0 < limit
      → room float limit capacity workers < 18446744073709551616
      → Holds float limit capacity workers k
      → Course float k l
      → Holds float limit capacity workers l
  Course-Holds positive small v Course.over = v
  Course-Holds positive small v (Course.then_on a path) =
      Course-Holds positive small (Advance-Holds positive small v a) path
