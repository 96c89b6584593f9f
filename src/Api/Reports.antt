-- ===== src/Api/Reports.antt =====
-- internal/api/server.go: what the server tells of a running scenario: its metrics when asked for, and each second a
-- message to all connections.
use chaos_kvs.Base.{
  ℕ, zero, suc, ◌/◌, Bool, not, Option, none, some, List, [], map, ℤ, pos, negsuc, if◌then◌else◌,
  ◌⊎◌, inl, inr,
}
use mathlib.Core.Option
use chaos_kvs.Base.Order.{Order}
use chaos_kvs.Heap.{Heap}
use chaos_kvs.Chaos
use chaos_kvs.Recovery
use chaos_kvs.Events.{Event}
use chaos_kvs.Metrics.{Float, Metrics, Snapshot}
use chaos_kvs.Scenario.Engine.Results.{Result}
use chaos_kvs.Scenario.Engine.Views.{chaos_stats, recovery_stats, engine_metrics}
use chaos_kvs.Api.{
  HttpMethod, is_get, Response, method_not_allowed, StatusResponse, Server, broadcast_status,
}

abbrev negated : ℕ → ℤ
negated zero = pos 0
negated (suc n) = negsuc n

-- `Duration.Microseconds`: the quotient is cut towards zero.
abbrev pub microseconds : ℤ → ℤ
microseconds (pos n) = pos (n / 1000)
microseconds (negsuc n) = negated (suc n / 1000)

-- An option of the engine, which may be absent itself.
abbrev pub of_engine : {A B : Type 0} → (A → Option B) → Option A → Option B
of_engine f none = none
of_engine f (some a) = f a

module _ (float : Float) where
  open float use {F, zero_float, divide, from_int64, thousand}

  pub record MetricsResponse : Type 0 where
    pub total_requests : ℕ
    pub success_requests : ℕ
    pub failed_requests : ℕ
    pub rps : F
    pub avg_latency_ms : F
    pub p99_latency_ms : F
    pub error_rate : F

  abbrev pub milliseconds : ℤ → F
  milliseconds d = divide (from_int64 (microseconds d)) thousand

  unfoldable pub metrics_response : Snapshot float → MetricsResponse
  metrics_response m = record {
    total_requests = m.total_requests;
    success_requests = m.success_requests;
    failed_requests = m.failed_requests;
    rps = m.rps;
    avg_latency_ms = milliseconds m.average_latency;
    p99_latency_ms = milliseconds m.p99_latency;
    error_rate = m.error_rate;
  }

  -- The zero value.
  abbrev pub no_response : MetricsResponse
  no_response = record {
    total_requests = 0;
    success_requests = 0;
    failed_requests = 0;
    rps = zero_float;
    avg_latency_ms = zero_float;
    p99_latency_ms = zero_float;
    error_rate = zero_float;
  }

  abbrev response_or : Option (Snapshot float) → MetricsResponse
  unfolding metrics_response
  response_or none = no_response
  response_or (some m) = metrics_response m

  unfoldable pub handle_metrics :
      HttpMethod → (ℕ → Metrics → Metrics) → (ℕ → ℕ) → Server float → Response ⊎ MetricsResponse
  unfolding response_or engine_metrics
  handle_metrics method drift clock s =
      if not (is_get method)
      then inl method_not_allowed
      else inr (response_or (of_engine (engine_metrics float drift clock) s.engine))

  pub data Message : Type 0 where
    status_update :
        StatusResponse
        → Option Chaos.Stats
        → Option Recovery.Stats
        → Option MetricsResponse
        → Message
    scenario_complete : Option (Result float) → Message
    event_message : Event → Message

  -- What a tick of the broadcast loop sends, while a scenario runs.
  unfoldable pub tick_message :
      (ℕ → Metrics → Metrics) → (ℕ → ℕ) → Order → Heap → Server float → Option Message
  unfolding broadcast_status chaos_stats recovery_stats engine_metrics metrics_response
  tick_message drift clock order h s =
      Option.map
        (λ status.
          status_update status (of_engine (chaos_stats float) s.engine)
            (of_engine (recovery_stats float) s.engine)
            (Option.map metrics_response (of_engine (engine_metrics float drift clock) s.engine)))
        (broadcast_status float order h s)

  -- Each connection that the server then knows gets the message, unless json.Marshal refuses it; a send that fails is
  -- ignored.
  unfoldable pub broadcast : (Message → Bool) → Order → Message → Server float → List (ℕ × Message)
  broadcast marshals order message s =
      if marshals message then map (λ ws. (ws, message)) (order.apply s.ws_clients) else []
