-- ===== src/Examples/Trips.antt =====
-- Calls of `RecordFailure` that race, at concrete values, with fractions for floats.
use rapid_proxy.Prelude.{ℕ, zero, suc, ◌≡◌, refl, true, List, [], ◌∷◌, ◌++◌, Clock, ltb64, sub64}
use rapid_proxy.Floats.{Fraction, fractions}
use rapid_proxy.SlidingWindow.{
  increment, increment_by, cleanup, add_to, delete_before, count, count_since, count_loop,
}
use rapid_proxy.CircuitBreaker.{CircuitBreaker, state_dead, state_degraded, is_healthy}
use rapid_proxy.CircuitBreaker.Race.{telling, counting, should_trip, System, step, run, start}
use rapid_proxy.CircuitBreaker.Race.Dead.{run-dead}

-- Three successes in the window, a breaker that trips at one failure in two.
abbrev calm : CircuitBreaker Fraction
calm = record {
  state = 0;
  requests = record {
    window_size = 60000000000;
    bucket_size = 1000000000;
    buckets = (100, 3) ∷ [];
  };
  failures = record { window_size = 60000000000; bucket_size = 1000000000; buckets = [] };
  failure_threshold = record { top = 1; below = 2 };
  degraded_threshold = record { top = 1; below = 4 };
  min_requests = 2;
  recovery_timeout = 60000000000;
  window_size = 60000000000;
  last_state_change = 0;
  last_failure = 0;
  last_success = 0;
}

abbrev clock : Clock
clock k = 100500000000

-- Call `i` takes `n` steps.
abbrev steps : ℕ → ℕ → List (ℕ × Clock)
steps i zero = []
steps i (suc n) = (i, clock) ∷ steps i n

-- The first call finds the breaker healthy and decides to degrade it; then the third trips it.
abbrev until_trip : List (ℕ × Clock)
until_trip = steps 0 10 ++ steps 1 2 ++ steps 2 8

abbrev three : System Fraction
three = start calm (true ∷ true ∷ true ∷ [])

tripped : (run fractions until_trip three).breaker.state ≡ state_dead
unfolding run step increment increment_by cleanup add_to delete_before count count_since count_loop
tripped = refl

-- The swap of the first call makes the dead breaker degraded.
untripped : (run fractions (until_trip ++ (0, clock) ∷ []) three).breaker.state ≡ state_degraded
unfolding run step increment increment_by cleanup add_to delete_before count count_since count_loop
untripped = refl

abbrev dead : System Fraction
dead = record {
  breaker = record calm { state = 2; last_state_change = 100000000000 };
  calls = telling true ∷ counting should_trip ∷ [];
}

run-dead_example :
    ((run fractions (steps 0 9 ++ steps 1 9) dead).breaker.state ≡ state_dead)
    × (is_healthy 130000000000 (run fractions (steps 0 9 ++ steps 1 9) dead).breaker
        ≡ ltb64 60000000000 (sub64 130000000000 100000000000))
run-dead_example =
    run-dead fractions (steps 0 9 ++ steps 1 9) dead 130000000000 refl (refl, (tt, tt))
