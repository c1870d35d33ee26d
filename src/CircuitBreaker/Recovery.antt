-- ===== src/CircuitBreaker/Recovery.antt =====
-- Waiting after a trip, the probe of a dead proxy, and the fresh start.
use rapid_proxy.Prelude.{
  ◌+◌, ◌≤◌, ◌<◌, ◌⊎◌, ◌≡◌, ◌≢◌, ◌↔◌, refl, Int64, IsNonneg, arith, Clock, true, List, [], ◌∷◌,
}
use rapid_proxy.Floats.{Float64}
use rapid_proxy.SlidingWindow.{reset}
use rapid_proxy.CircuitBreaker.{
  CircuitBreaker, state_healthy, state_dead, is_healthy, should_recover, should_degrade,
  record_success, record_failure,
}

module _ {F : Type 0} (fl : Float64 F) where
  -- A breaker that a failure brings to dead at the reading `t 9` is healthy at a time from then on
  -- exactly if more than `recovery_timeout`, not negative, has passed; all times lie after the
  -- epoch.
  pub trip_waits :
      (t : Clock) (now : Int64) (cb : CircuitBreaker F)
      → cb.state ≢ state_dead
      → (record_failure fl t cb).state ≡ state_dead
      → IsNonneg (t 9)
      → IsNonneg now
      → IsNonneg cb.recovery_timeout
      → t 9 ≤ now
      → (is_healthy now (record_failure fl t cb) ≡ true) ↔ (t 9 + cb.recovery_timeout < now)
  unfolding record_failure is_healthy
  trip_waits t now cb alive dead ht hn hr le = (λ h. ground arith, λ h. ground arith)

  dead_failure :
      (t : Clock) (cb : CircuitBreaker F)
      → cb.state ≡ state_dead
      → ((record_failure fl t cb).state ≡ state_dead)
        × ((record_failure fl t cb).last_state_change ≡ cb.last_state_change)
        × ((record_failure fl t cb).recovery_timeout ≡ cb.recovery_timeout)
  unfolding record_failure should_degrade
  dead_failure t cb d = ground arith

  pub record_failures : List Clock → CircuitBreaker F → CircuitBreaker F
  record_failures [] cb = cb
  record_failures (t ∷ ts) cb = record_failures ts (record_failure fl t cb)

  dead_failures :
      (ts : List Clock) (cb : CircuitBreaker F)
      → cb.state ≡ state_dead
      → ((record_failures ts cb).state ≡ state_dead)
        × ((record_failures ts cb).last_state_change ≡ cb.last_state_change)
        × ((record_failures ts cb).recovery_timeout ≡ cb.recovery_timeout)
  unfolding record_failures
  dead_failures [] cb d = (d, refl, refl)
  dead_failures (t ∷ ts) cb d =
      ground (arith, dead_failure t cb d, dead_failures ts (record_failure fl t cb))

  -- If a dead breaker admits requests at `now`, it admits them at any later time, after any number
  -- of failures in between; the times and the timeout are not negative.
  pub failed_probes_admitted :
      (ts : List Clock) (now now' : Int64) (cb : CircuitBreaker F)
      → cb.state ≡ state_dead
      → is_healthy now cb ≡ true
      → IsNonneg cb.last_state_change
      → IsNonneg cb.recovery_timeout
      → cb.last_state_change ≤ now
      → now ≤ now'
      → IsNonneg now'
      → is_healthy now' (record_failures ts cb) ≡ true
  unfolding is_healthy
  failed_probes_admitted ts now now' cb d h hl hr le le' hn = ground (arith, dead_failures ts cb d)

  -- A success that brings a breaker back to healthy clears both windows and notes the time; any
  -- other success leaves the state and the time of its last change.
  pub recovery_clears :
      (t : Clock) (cb : CircuitBreaker F)
      → let cb' = record_success fl t cb in
        ((cb.state ≢ state_healthy)
          × (cb'.state ≡ state_healthy)
          × (cb'.requests.buckets ≡ [])
          × (cb'.failures.buckets ≡ [])
          × (cb'.last_state_change ≡ t 8))
        ⊎ ((cb'.state ≡ cb.state) × (cb'.last_state_change ≡ cb.last_state_change))
  unfolding record_success should_recover reset
  recovery_clears t cb = ground arith
