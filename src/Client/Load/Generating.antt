-- ===== src/Client/Load/Generating.antt =====
-- internal/client/client.go: the generating loop keeps the account of the requests.
use chaos_kvs.Base.{
  ◌⊎◌, ℕ, ◌≤◌, ◌<◌, ◌≡◌, ap, ◌∙◌, Bool, false, List, [], ◌∷◌, ◌++◌, length, length-append, arith,
  true, inl, inr,
}
use chaos_kvs.Metrics.{Float}
use chaos_kvs.Worker.{Pool, refused, is_cancelled}
use chaos_kvs.Client.{Client, Job, generate_request, returns, requests}
use chaos_kvs.Client.Load.{checking, sending, offering, returned, Load, with_pool, recovered, send}
use chaos_kvs.Client.Load.Pooling.{busy_count, Added, added, send-refused, busy_count-bound}
use chaos_kvs.Client.Load.Holding.{Holds, owed, same-Alive}

module _ (float : Float) (limit capacity workers : ℕ) where
  drawn :
      (r k : ℕ) (x : float.F) (targets : List ℕ) (c : Client float) (job : Job)
      → 0 < c.config.requests_limit
      → generate_request float r k x targets c ≡ requests job
      → c.metrics.total_requests < c.config.requests_limit
  unfolding generate_request
  drawn r k x targets c job h e = ground arith

  quit :
      (r k : ℕ) (x : float.F) (targets : List ℕ) (c : Client float)
      → generate_request float r k x targets c ≡ returns
      → is_cancelled c.pool ≡ false
      → c.config.requests_limit ≤ c.metrics.total_requests
  unfolding generate_request
  quit r k x targets c e h = ground arith

  pub draws-Holds :
      (l : Load float) (r k : ℕ) (x : float.F) (job : Job)
      → 0 < limit
      → Holds float limit capacity workers l
      → generate_request float r k x l.targets l.client ≡ requests job
      → Holds float limit capacity workers (record l { generator = sending job })
  draws-Holds l r k x job positive v e = record {
    limited = v.limited;
    sized = v.sized;
    staffed = v.staffed;
    queued = v.queued;
    accounted = v.accounted;
    bounded = omega (
      arith,
      v.limited,
      v.queued,
      v.accounted,
      v.staffed,
      busy_count-bound l.client.pool.workers,
      drawn r k x l.targets l.client job (omega (arith, v.limited)) e,
    );
    alive = v.alive;
    reached = λ g h. absurd (ground (arith, g));
  }

  pub quits-Holds :
      (l : Load float) (r k : ℕ) (x : float.F)
      → Holds float limit capacity workers l
      → generate_request float r k x l.targets l.client ≡ returns
      → l.generator ≡ checking
      → Holds float limit capacity workers (record l { generator = returned })
  quits-Holds l r k x v e g = record {
    limited = v.limited;
    sized = v.sized;
    staffed = v.staffed;
    queued = v.queued;
    accounted = v.accounted;
    bounded = omega (arith, v.bounded);
    alive = v.alive;
    reached = λ _ h. omega (arith, v.limited, quit r k x l.targets l.client e h);
  }

  pub passes-Holds :
      (l : Load float) (job : Job)
      → Holds float limit capacity workers l
      → l.generator ≡ sending job
      → Holds float limit capacity workers (record l { generator = offering job })
  passes-Holds l job v g = record {
    limited = v.limited;
    sized = v.sized;
    staffed = v.staffed;
    queued = v.queued;
    accounted = v.accounted;
    bounded = omega (arith, v.bounded, ap owed g);
    alive = v.alive;
    reached = λ r h. absurd (ground (arith, r));
  }

  pub hands_over-Holds :
      (l : Load float) (p : Pool) (job : Job)
      → Holds float limit capacity workers l
      → l.generator ≡ offering job
      → Added l.client.pool p
      → Holds float limit capacity workers (record (with_pool float p l) {
        generator = checking;
        accepted_requests = l.accepted_requests ++ job ∷ [];
      })
  hands_over-Holds l p job v g (added jobs roomy staff room_same context stopping closed) =
      let (same, alive) = same-Alive l.client.pool p context stopping closed v.alive in
      record {
        limited = v.limited;
        sized = room_same ∙ v.sized;
        staffed = ap length staff ∙ v.staffed;
        queued = omega (arith, v.sized);
        accounted =
            omega (
              arith,
              v.accounted,
              length-append l.accepted_requests (job ∷ []),
              ap busy_count staff,
            );
        bounded = omega (arith, v.bounded, ap owed g, length-append l.accepted_requests (job ∷ []));
        alive = alive;
        reached = λ c h. absurd (ground (arith, c));
      }

  -- The loop returns with its request, which only a pool at its end makes it do.
  pub returns-Holds :
      (l : Load float)
      → Holds float limit capacity workers l
      → (is_cancelled l.client.pool ≡ false → ⊥)
      → Holds float limit capacity workers (record l { generator = returned })
  returns-Holds l v ended = record {
    limited = v.limited;
    sized = v.sized;
    staffed = v.staffed;
    queued = v.queued;
    accounted = v.accounted;
    bounded = omega (arith, v.bounded);
    alive = v.alive;
    reached = λ _ h. absurd (ended h);
  }

  pub gives_up-Holds :
      (l : Load float)
      → Holds float limit capacity workers l
      → (l.client.pool.stopping ≡ true) ⊎ (is_cancelled l.client.pool ≡ true)
      → Holds float limit capacity workers (record l { generator = returned })
  gives_up-Holds l v (inl stopping) =
      returns-Holds l v (λ h. ground (arith, (v.alive h).1, stopping))
  gives_up-Holds l v (inr over) = returns-Holds l v (λ h. ground (arith, h, over))

  pub turned_away-Holds :
      (l : Load float) (choice : Bool)
      → Holds float limit capacity workers l
      → recovered (send choice (length l.accepted_requests) l.client.pool).0 ≡ refused
      → Holds float limit capacity workers (record l { generator = returned })
  turned_away-Holds l choice v e = returns-Holds l v (λ h.
      let (live, _, still_open) = v.alive h in
      send-refused choice (length l.accepted_requests) l.client.pool e live still_open)
