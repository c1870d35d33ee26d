-- ===== src/CircuitBreaker/Events.antt =====
-- The requests that a circuit breaker of internal/health/circuit_breaker.go is told of.
use rapid_proxy.Prelude.{Clock, List, [], ◌∷◌}
use rapid_proxy.Floats.{Float64}
use rapid_proxy.CircuitBreaker.{CircuitBreaker, record_success, record_failure}

pub data Event : Type 0 where
  success failure : Event

module _ {F : Type 0} (fl : Float64 F) where
  unfoldable pub record_event : Event → Clock → CircuitBreaker F → CircuitBreaker F
  record_event success = record_success fl
  record_event failure = record_failure fl

  -- The requests that a breaker is told of, in order.
  unfoldable pub record_events : List (Event × Clock) → CircuitBreaker F → CircuitBreaker F
  record_events [] cb = cb
  record_events ((e, t) ∷ es) cb = record_events es (record_event e t cb)
