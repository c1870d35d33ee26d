-- ===== src/Client/Accounting.antt =====
-- What requests do to a client's counters, and what they leave alone.
use rapid_proxy.Prelude.{
  ℕ, ◌+◌, ◌%◌, ◌^◌, ◌≡◌, refl, ◌∙◌, arith, Bool, true, false, Option, List, [], ◌∷◌, Int64, Clock,
  add64, leb64, if◌then◌else◌, length,
}
use Prim.Native.String.{String}
use rapid_proxy.Floats.{Float64}
use rapid_proxy.Transport.{Transport}
use rapid_proxy.Client.{
  ProxyClient, Outcome, transport_error, answered, do_request, get_metrics, new_proxy_client,
  set_circuit_breaker,
}
use rapid_proxy.Client.Interfaces.{CircuitBreaker}

-- A status below 400.
abbrev pub succeeded : {E : Type 0} → Outcome E → Bool
succeeded (transport_error e) = false
succeeded (answered resp) = if leb64 400 resp.status_code then false else true

abbrev pub successes : {E : Type 0} → List (Clock × Outcome E) → ℕ
successes [] = 0
successes ((t, o) ∷ os) = (if succeeded o then 1 else 0) + successes os

module _ {L B E : Type 0} (brk : CircuitBreaker B E) where
  unfoldable pub do_requests : List (Clock × Outcome E) → ProxyClient L B E → ProxyClient L B E
  do_requests [] c = c
  do_requests ((t, o) ∷ os) c = do_requests os (do_request brk t o c).0

  pub do_request-counts :
      (t : Clock) (o : Outcome E) (c : ProxyClient L B E)
      → let c' = (do_request brk t o c).0 in
        (c'.total_requests ≡ add64 c.total_requests 1)
        × (c'.success_requests
            ≡ (if succeeded o then add64 c.success_requests 1 else c.success_requests))
        × (c'.failed_requests
            ≡ (if succeeded o then c.failed_requests else add64 c.failed_requests 1))
        × (c'.state ≡ c.state)
        × (c'.concurrency_sem ≡ c.concurrency_sem)
        × (c'.rate_limiter ≡ c.rate_limiter)
  unfolding do_request
  do_request-counts t (transport_error e) c = ground arith
  do_request-counts t (answered resp) c = ground arith

  -- After any requests the total has grown by their number, the successes by the answers with a
  -- status below 400, and successes and failures together as much as the total, all modulo 2 ^ 64.
  pub do_requests-counts :
      (os : List (Clock × Outcome E)) (c : ProxyClient L B E)
      → let c' = do_requests os c in
        (c'.total_requests % 2 ^ 64 ≡ (c.total_requests + length os) % 2 ^ 64)
        × (c'.success_requests % 2 ^ 64 ≡ (c.success_requests + successes os) % 2 ^ 64)
        × ((c'.success_requests + c'.failed_requests + c.total_requests) % 2 ^ 64
            ≡ (c'.total_requests + c.success_requests + c.failed_requests) % 2 ^ 64)
  unfolding do_requests
  do_requests-counts [] c = omega arith
  do_requests-counts ((t, o) ∷ os) c =
      ground (arith, do_request-counts t o c, do_requests-counts os (do_request brk t o c).0)

  do_requests-state :
      (os : List (Clock × Outcome E)) (c : ProxyClient L B E) → (do_requests os c).state ≡ c.state
  unfolding do_requests
  do_requests-state [] c = refl
  do_requests-state ((t, o) ∷ os) c =
      do_requests-state os (do_request brk t o c).0 ∙ (do_request-counts t o c).3

module _ (L : Type 0) {B E : Type 0} (brk : CircuitBreaker B E) where
  -- The state that a client's metrics report is "healthy" after any requests: no outcome, and no
  -- verdict of the circuit breaker, reaches the field that they read.
  pub metrics_healthy :
      {F : Type 0} (fl : Float64 F) (url : String) (transport : Option Transport)
      (timeout now : Int64) (os : List (Clock × Outcome E)) (breaker : Option B)
      → (get_metrics fl (
          do_requests brk os (
            set_circuit_breaker breaker
              (new_proxy_client {L = L} url transport timeout now)))).state_name
        ≡ "healthy"
  unfolding get_metrics new_proxy_client set_circuit_breaker
  metrics_healthy fl url transport timeout now os breaker = rw (
      do_requests-state brk os
        (set_circuit_breaker breaker (new_proxy_client {L = L} url transport timeout now)))
