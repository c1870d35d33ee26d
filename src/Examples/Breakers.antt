-- ===== src/Examples/Breakers.antt =====
-- Circuit breakers of internal/health at concrete values, with fractions for floats.
use rapid_proxy.Prelude.{
  ◌==◌, ℕ, ◌+◌, ◌*◌, ◌≡◌, refl, arith, true, some, List, [], ◌∷◌, Clock, nanos_per_sec,
}
use rapid_proxy.Floats.{Fraction, fractions}
use rapid_proxy.SlidingWindow.Refine.{IsValid, record_all}
use rapid_proxy.CircuitBreaker.Trips.{events_at, too_many, record_failure-dead}
use rapid_proxy.SlidingWindow.{
  reset, increment, increment_by, cleanup, add_to, delete_before, count, count_since, count_loop,
}
use rapid_proxy.CircuitBreaker.{
  CircuitBreaker, Config, new_circuit_breaker, state_dead, state_healthy, is_healthy,
  can_attempt_recovery, record_failure, should_trip, should_degrade, get_error_rate, transition_to,
}
use rapid_proxy.CircuitBreaker.Events.{Event, success, failure, record_events}
use rapid_proxy.CircuitBreaker.Recovery.{record_failures, failed_probes_admitted}
use rapid_proxy.CircuitBreaker.Samples.{new_circuit_breaker-healthy}

abbrev settings : Config Fraction
settings = record {
  failure_threshold = record { top = 1; below = 1 };
  degraded_threshold = record { top = 1; below = 4 };
  min_requests = 2;
  recovery_timeout = 60 * nanos_per_sec;
  window_size = 60 * nanos_per_sec;
}

-- The clock of an operation that starts at second `s`.
abbrev at : ℕ → Clock
at s k = s * nanos_per_sec + k

-- One failure a second ago: the next one trips it.
abbrev tense : CircuitBreaker Fraction
tense = record {
  state = 0;
  requests = record {
    window_size = 60000000000;
    bucket_size = 1000000000;
    buckets = (100, 1) ∷ [];
  };
  failures = record {
    window_size = 60000000000;
    bucket_size = 1000000000;
    buckets = (100, 1) ∷ [];
  };
  failure_threshold = record { top = 1; below = 1 };
  degraded_threshold = record { top = 1; below = 4 };
  min_requests = 1;
  recovery_timeout = 60000000000;
  window_size = 60000000000;
  last_state_change = 0;
  last_failure = 100000000000;
  last_success = 0;
}

tense_trips : (record_failure fractions (at 102) tense).state ≡ state_dead
unfolding record_failure should_trip should_degrade get_error_rate transition_to increment
    increment_by cleanup add_to delete_before count count_since count_loop
tense_trips = refl

tense-IsValid : IsValid tense.requests
tense-IsValid = ground arith

one_failure : tense.requests ≡ record_all ((at 100 0, 1) ∷ []) (reset tense.requests)
unfolding record_all reset increment_by cleanup add_to delete_before
one_failure = refl

record_failure-dead_example :
    ((record_failure fractions (at 102) tense).state == state_dead)
    ≡ too_many fractions tense
        (events_at tense.requests (at 102 3) (at 102 4) ((at 100 0, 1) ∷ (at 102 0, 1) ∷ []))
        (events_at tense.requests (at 102 5) (at 102 6) ((at 100 0, 1) ∷ (at 102 0, 1) ∷ []))
        (events_at tense.failures (at 102 7) (at 102 8) ((at 100 0, 1) ∷ (at 102 1, 1) ∷ []))
record_failure-dead_example =
    record_failure-dead fractions (at 102) tense tense.requests tense.failures ((at 100 0, 1) ∷ [])
      ((at 100 0, 1) ∷ []) (λ e. cc) tense-IsValid tense-IsValid one_failure one_failure
      (omega arith) (λ k. omega arith) (omega arith) (omega arith) ((omega arith, omega arith), tt)
      ((omega arith, omega arith), tt)

abbrev dead : CircuitBreaker Fraction
dead = record tense { state = state_dead; last_state_change = 102000000000 }

dead_admitted : is_healthy 200000000000 dead ≡ true
unfolding is_healthy can_attempt_recovery
dead_admitted = refl

failed_probes_admitted_example :
    is_healthy 201000000000 (record_failures fractions (at 200 ∷ at 201 ∷ []) dead) ≡ true
failed_probes_admitted_example =
    failed_probes_admitted fractions (at 200 ∷ at 201 ∷ []) 200000000000 201000000000 dead refl
      dead_admitted (omega arith) (omega arith) (omega arith) (omega arith) (omega arith)

abbrev history : List (Event × Clock)
history = (failure, at 103) ∷ (success, at 104) ∷ []

abbrev patient : Config Fraction
patient = record settings { min_requests = 4 }

new_circuit_breaker-healthy_example :
    (record_events fractions history (new_circuit_breaker fractions (some patient) (at 100))).state
    ≡ state_healthy
new_circuit_breaker-healthy_example =
    new_circuit_breaker-healthy fractions patient (at 100) history (omega arith) (omega arith)
