-- ===== src/Api/Sockets/Sessions.antt =====
-- internal/api/server.go, handleWebSocket and broadcast: the open connections, the subscribers and the clients of
-- broadcasts stay the same, over any history.
use chaos_kvs.Base.{
  ℕ, ◌≤◌, ◌≡◌, refl, ap, ◌∙◌, true, Option, none, some, List, [], ◌∷◌, map, nat_eq, length,
  if◌then◌else◌, arith, ℕ_eq, Bool,
}
use chaos_kvs.Base.Map.{lookup, delete, is_some}
use chaos_kvs.Base.Order.{Order}
use chaos_kvs.Base.Count.{occurs, has, count_if-perm}
use chaos_kvs.Events.Bus.{
  Channels, Bus, new_bus, subscribe, unsubscribe, remove, subscriber_count, close,
}
use chaos_kvs.Events.Bus.Safety.{
  IsValid, new_bus-IsValid, subscribe-IsValid, unsubscribe_lem, occurs-remove, publish_lem,
  after_publish,
}
use chaos_kvs.Events.Bus.Delivery.{receive-IsValid}
use chaos_kvs.Metrics.{Float}
use chaos_kvs.Api.{Server, new_server, new_bus}
use chaos_kvs.Api.Reports.{Message, broadcast}
use chaos_kvs.Api.Sockets.{
  World, new_world, Call, opens, shuts, forwards, publishes, connect, disconnect, forward, open_one,
  shut_one, step, run,
}
use chaos_kvs.Api.Sockets.Pairs.{
  conns, chans, length-remove, lookup-occurs, found-channel, conns-delete, chans-delete,
}

module _ (float : Float) where
  record IsConnected (w : World float) : Type 0 where
    bus : IsValid w.channels w.server.event_bus
    subscribed : (p : ℕ) → occurs p w.server.event_bus.subscribers ≡ occurs p (chans w.sessions)
    reached : (ws : ℕ) → occurs ws w.server.ws_clients ≡ occurs ws (conns w.sessions)
    once : (ws : ℕ) → occurs ws (conns w.sessions) ≤ 1
    fresh : (ws : ℕ) → w.next_ws ≤ ws → occurs ws (conns w.sessions) ≡ 0
    same_length : length w.server.event_bus.subscribers ≡ length w.sessions

  new_world-IsConnected : (k : Channels) → IsConnected (new_world float k)
  unfolding new_world new_server
  new_world-IsConnected k = record {
    bus = new_bus-IsValid k;
    subscribed = λ p. unfold new_bus in refl;
    reached = λ ws. refl;
    once = λ ws. omega arith;
    fresh = λ ws h. refl;
    same_length = unfold new_bus in refl;
  }

  open_one-IsConnected : (w : World float) → IsConnected w → IsConnected (open_one float w)
  unfolding open_one connect
  open_one-IsConnected w v = record {
    bus = subscribe-IsValid w.channels w.server.event_bus v.bus;
    subscribed = λ p. unfold subscribe in ground (arith, v.subscribed p);
    reached = λ ws. ground (arith, v.reached ws, v.reached w.next_ws, v.fresh w.next_ws);
    once = λ ws. ground (arith, v.once ws, v.fresh ws);
    fresh = λ ws h. ground (arith, v.fresh ws);
    same_length = unfold subscribe in omega (arith, v.same_length);
  }

  disconnect_value :
      (ws ch : ℕ) (k k' : Channels) (s : Server float) (b' : Bus)
      → unsubscribe ch k s.event_bus ≡ some (k', b')
      → disconnect float ws ch k s
        ≡ some (k', record s { event_bus = b'; ws_clients = remove ws s.ws_clients })
  unfolding disconnect
  disconnect_value ws ch k k' s b' e = ground (arith, e)

  shut_value :
      (ws ch : ℕ) (w : World float) (k : Channels) (s : Server float)
      → disconnect float ws ch w.channels w.server ≡ some (k, s)
      → shut_one float ws w (some ch)
        ≡ some (record w { channels = k; server = s; sessions = delete ws w.sessions })
  unfolding shut_one
  shut_value ws ch w k s e = ground (arith, e)

  left_subscribers :
      (ch : ℕ) (k k' : Channels) (b b' : Bus)
      → unsubscribe ch k b ≡ some (k', b')
      → has ch b.subscribers ≡ true
      → b'.subscribers ≡ remove ch b.subscribers
  unfolding unsubscribe close
  left_subscribers ch k k' b b' e h = ground (arith, e)

  shut_one-IsConnected :
      (ws : ℕ) (w : World float) (found : Option ℕ)
      → IsConnected w
      → lookup ws w.sessions ≡ found
      → (w' : World float) × (shut_one float ws w found ≡ some w') × IsConnected w'
  unfolding shut_one
  shut_one-IsConnected ws w none v e = (w, refl, v)
  shut_one-IsConnected ws w (some ch) v e =
      let b = w.server.event_bus in
      let there : has ch b.subscribers ≡ true =
        ground (arith, v.subscribed ch, found-channel ws ch w.sessions e) in
      let (k', b', done, _, _, _, _, valid) = unsubscribe_lem ch ch w.channels b v.bus there in
      let left = left_subscribers ch w.channels k' b b' done there in
      let s' = record w.server { event_bus = b'; ws_clients = remove ws w.server.ws_clients } in
      (
        record w { channels = k'; server = s'; sessions = delete ws w.sessions },
        shut_value ws ch w k' s' (disconnect_value ws ch w.channels k' w.server b' done),
        record {
          bus = valid;
          subscribed = λ p.
              ap (occurs p) left
              ∙ ground (
                arith,
                v.subscribed p,
                v.bus.once p,
                occurs-remove ch p b.subscribers,
                chans-delete ws ch p w.sessions (v.once ws) e,
              );
          reached = λ u. ground (
            arith,
            v.reached u,
            occurs-remove ws u w.server.ws_clients,
            conns-delete ws u w.sessions,
          );
          once = λ u. ground (arith, v.once u, conns-delete ws u w.sessions);
          fresh = λ u h. ground (arith, v.fresh u h, conns-delete ws u w.sessions);
          same_length = ground (
            arith,
            ap length left,
            v.same_length,
            length-remove ch b.subscribers,
            there,
            v.bus.once ch,
            chans-delete ws ch ch w.sessions (v.once ws) e,
          );
        },
      )

  step-IsConnected :
      (c : Call float) (w : World float)
      → IsConnected w
      → (w' : World float) × (step float c w ≡ some w') × IsConnected w'
  unfolding step
  step-IsConnected opens w v = (open_one float w, refl, open_one-IsConnected w v)
  step-IsConnected (shuts ws) w v = shut_one-IsConnected ws w (lookup ws w.sessions) v refl
  step-IsConnected (forwards ch) w v = (
    record w { channels = (forward float ch w.channels).0 },
    refl,
    record {
      bus = unfold forward in receive-IsValid ch w.channels w.server.event_bus v.bus;
      subscribed = v.subscribed;
      reached = v.reached;
      once = v.once;
      fresh = v.fresh;
      same_length = v.same_length;
    },
  )
  step-IsConnected (publishes o e) w v =
      let k = after_publish o e w.channels w.server.event_bus in
      let (done, _, valid) = publish_lem o e w.channels w.server.event_bus 0 v.bus in
      (
        record w { channels = k },
        ap
            (λ r. elim r as (λ _. Option (World float)) [
              | none ↦ none
              | some k' ↦ some (record w { channels = k' })
            ])
            done,
        record {
          bus = valid;
          subscribed = v.subscribed;
          reached = v.reached;
          once = v.once;
          fresh = v.fresh;
          same_length = v.same_length;
        },
      )

  run-IsConnected :
      (cs : List (Call float)) (w : World float)
      → IsConnected w
      → (w' : World float) × (run float cs w ≡ some w') × IsConnected w'
  unfolding run
  run-IsConnected [] w v = (w, refl, v)
  run-IsConnected (c ∷ cs) w v =
      let (w', done, v') = step-IsConnected c w v in
      let (w'', rest, v'') = run-IsConnected cs w' v' in
      (
        w'',
        ap (λ r. elim r as (λ _. Option (World float)) [ none ↦ none | some u ↦ run float cs u ])
              done
            ∙ rest,
        v'',
      )

  -- How often a broadcast is sent to a connection.
  abbrev pub sent_to : ℕ → List (ℕ × Message float) → ℕ
  sent_to ws sends = occurs ws (map (λ e. e.0) sends)

  pub sent_to-broadcast :
      (marshals : Message float → Bool) (ws : ℕ) (order : Order) (message : Message float)
      (s : Server float)
      → marshals message ≡ true
      → sent_to ws (broadcast float marshals order message s) ≡ occurs ws s.ws_clients
  unfolding broadcast
  sent_to-broadcast marshals ws order message s encoded =
      ap (λ b. sent_to ws (if b then map (λ x. (x, message)) (order.apply s.ws_clients) else []))
        encoded
      ∙ ap (occurs ws) (map-fst (order.apply s.ws_clients))
      ∙ count_if-perm (nat_eq ws) (order.apply-perm s.ws_clients)
    where
      map-fst :
          (xs : List ℕ) → map {A = ℕ × Message float} (λ e. e.0) (map (λ x. (x, message)) xs) ≡ xs
      map-fst [] = refl
      map-fst (x ∷ xs) = ap (λ ys. x ∷ ys) (map-fst xs)

  -- Over any history of connections that come and go, of events published and of events forwarded, the server does not
  -- panic; the bus has one subscriber for each open connection; and a broadcast whose message can be encoded is sent
  -- once to each connection that is open, and to no other.
  pub sessions_lem :
      (cs : List (Call float)) (k : Channels) (order : Order) (message : Message float) (ws : ℕ)
      → (w : World float) × (run float cs (new_world float k) ≡ some w)
        × (subscriber_count w.server.event_bus ≡ length w.sessions)
        × (sent_to ws (broadcast float (λ _. true) order message w.server)
            ≡ (if is_some (lookup ws w.sessions) then 1 else 0))
  unfolding subscriber_count
  sessions_lem cs k order message ws =
      let (w, done, v) = run-IsConnected cs (new_world float k) (new_world-IsConnected k) in
      (
        w,
        done,
        v.same_length,
        sent_to-broadcast (λ _. true) ws order message w.server refl
            ∙ ground (arith, v.reached ws, v.once ws, lookup-occurs ws w.sessions),
      )
