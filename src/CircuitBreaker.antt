-- ===== src/CircuitBreaker.antt =====
-- internal/health/circuit_breaker.go. An operation reads the clock several times: `t k` is the
-- reading of its k-th place in the text, in the order in which the places are reached.
pub mod Events
pub mod Recovery
pub mod Samples
pub mod Trips
pub mod Race
use Prim.Native.String.{String}
use rapid_proxy.Prelude.{
  ℕ, ◌+◌, ◌*◌, Bool, true, false, not, ◌&&◌, ◌||◌, Option, none, some, Int64, Clock, sub64, div64,
  ltb64, leb64, nanos_per_sec, ◌==◌, if◌then◌else◌,
}
use rapid_proxy.Floats.{Float64}
use rapid_proxy.SlidingWindow.{
  SlidingWindow, new_sliding_window, increment, count, reset as reset_window,
}

abbrev pub state_healthy : ℕ
state_healthy = 0

abbrev pub state_degraded : ℕ
state_degraded = 1

abbrev pub state_dead : ℕ
state_dead = 2

pub record Config (F : Type 0) : Type 0 where
  pub failure_threshold : F
  pub degraded_threshold : F
  pub min_requests : Int64
  pub recovery_timeout : Int64
  pub window_size : Int64

pub record CircuitBreaker (F : Type 0) : Type 0 where
  pub state : ℕ
  pub requests : SlidingWindow
  pub failures : SlidingWindow
  pub failure_threshold : F
  pub degraded_threshold : F
  pub min_requests : Int64
  pub recovery_timeout : Int64
  pub window_size : Int64
  pub last_state_change : Int64
  pub last_failure : Int64
  pub last_success : Int64

-- The clock from its n-th place on.
abbrev pub later : ℕ → Clock → Clock
later n t k = t (n + k)

unfoldable pub state_name : ℕ → String
state_name s =
    if s == state_healthy
    then "healthy"
    else (if s == state_degraded
        then "degraded"
        else (if s == state_dead then "dead" else "unknown"))

module _ {F : Type 0} where
  unfoldable pub can_attempt_recovery : Int64 → CircuitBreaker F → Bool
  can_attempt_recovery now cb = ltb64 cb.recovery_timeout (sub64 now cb.last_state_change)

  unfoldable pub is_healthy : Int64 → CircuitBreaker F → Bool
  unfolding can_attempt_recovery
  is_healthy now cb =
      if cb.state == state_dead
      then can_attempt_recovery now cb
      else cb.state == state_healthy || cb.state == state_degraded

  unfoldable pub reset : CircuitBreaker F → CircuitBreaker F
  reset cb = record cb { requests = reset_window cb.requests; failures = reset_window cb.failures }

  unfoldable pub transition_to : ℕ → Int64 → CircuitBreaker F → CircuitBreaker F
  unfolding reset
  transition_to new_state now cb =
      let swapped = record cb { state = new_state } in
      let changed = record swapped { last_state_change = now } in
      if cb.state == new_state
      then swapped
      else (if new_state == state_healthy then reset changed else changed)

module _ {F : Type 0} (fl : Float64 F) where
  unfoldable pub default_config : Config F
  default_config = record {
    failure_threshold = fl.literal 1 2;
    degraded_threshold = fl.literal 1 5;
    min_requests = 10;
    recovery_timeout = 60 * nanos_per_sec;
    window_size = 60 * nanos_per_sec;
  }

  abbrev config_or_default : Option (Config F) → Config F
  config_or_default none = default_config
  config_or_default (some c) = c

  unfoldable pub new_circuit_breaker : Option (Config F) → Clock → CircuitBreaker F
  unfolding default_config
  new_circuit_breaker config t =
      let c = config_or_default config in
      record {
        state = state_healthy;
        requests = new_sliding_window c.window_size nanos_per_sec;
        failures = new_sliding_window c.window_size nanos_per_sec;
        failure_threshold = c.failure_threshold;
        degraded_threshold = c.degraded_threshold;
        min_requests = c.min_requests;
        recovery_timeout = c.recovery_timeout;
        window_size = c.window_size;
        last_state_change = t 0;
        last_failure = 0;
        last_success = t 1;
      }

  unfoldable pub get_error_rate : Clock → CircuitBreaker F → F
  get_error_rate t cb =
      let total = count (t 0) (t 1) cb.requests in
      if total == 0
      then fl.literal 0 1
      else fl.div (fl.of_int (count (t 2) (t 3) cb.failures)) (fl.of_int total)

  unfoldable pub should_trip : Clock → CircuitBreaker F → Bool
  should_trip t cb =
      if ltb64 (count (t 0) (t 1) cb.requests) cb.min_requests
      then false
      else fl.leb cb.failure_threshold (get_error_rate (later 2 t) cb)

  unfoldable pub should_degrade : Clock → CircuitBreaker F → Bool
  should_degrade t cb =
      let error_rate = get_error_rate (later 2 t) cb in
      if not (cb.state == state_healthy)
      then false
      else (if ltb64 (count (t 0) (t 1) cb.requests) cb.min_requests
          then false
          else fl.leb cb.degraded_threshold error_rate && fl.ltb error_rate cb.failure_threshold)

  unfoldable pub should_recover : Clock → CircuitBreaker F → Bool
  should_recover t cb =
      if cb.state == state_healthy
      then false
      else (if fl.ltb cb.degraded_threshold (get_error_rate t cb)
          then false
          else leb64 (div64 cb.min_requests 2) (count (t 4) (t 5) cb.requests))

  unfoldable pub record_success : Clock → CircuitBreaker F → CircuitBreaker F
  unfolding transition_to
  record_success t cb =
      let told = record cb { requests = increment (t 0) cb.requests; last_success = t 1 } in
      if should_recover (later 2 t) told then transition_to state_healthy (t 8) told else told

  abbrev pub after_failure : Clock → CircuitBreaker F → CircuitBreaker F
  after_failure t told =
      if should_trip (later 3 t) told
      then transition_to state_dead (t 9) told
      else (if should_degrade (later 9 t) told
          then transition_to state_degraded (t 15) told
          else told)

  unfoldable pub record_failure : Clock → CircuitBreaker F → CircuitBreaker F
  unfolding transition_to
  record_failure t cb = after_failure t (record cb {
    requests = increment (t 0) cb.requests;
    failures = increment (t 1) cb.failures;
    last_failure = t 2;
  })

pub record CircuitBreakerStats (F : Type 0) : Type 0 where
  pub state : String
  pub total_requests : Int64
  pub total_failures : Int64
  pub error_rate : F
  pub last_success : Int64
  pub last_failure : Int64
  pub last_state_change : Int64
  pub window_size : Int64

unfoldable pub get_stats :
    {F : Type 0} → Float64 F → Clock → CircuitBreaker F → CircuitBreakerStats F
get_stats fl t cb = record {
  state = state_name cb.state;
  total_requests = count (t 0) (t 1) cb.requests;
  total_failures = count (t 2) (t 3) cb.failures;
  error_rate = get_error_rate fl (later 4 t) cb;
  last_success = cb.last_success;
  last_failure = cb.last_failure;
  last_state_change = cb.last_state_change;
  window_size = cb.window_size;
}
