-- ===== src/CircuitBreaker/Samples.antt =====
-- The minimum sample: what a breaker does before it has seen enough requests.
use rapid_proxy.Prelude.{
  ℕ, ◌+◌, ◌≤◌, ◌<◌, ◌≡◌, refl, Int64, IsNonneg, arith, Clock, Bool, List, [], ◌∷◌, length, sub64,
  some,
}
use rapid_proxy.Floats.{Float64}
use rapid_proxy.SlidingWindow.{
  SlidingWindow, add_to, delete_before, cleanup, in_window, increment, count, count_since,
  new_sliding_window,
}
use rapid_proxy.SlidingWindow.Keys.{tally, count_loop-tally}
use rapid_proxy.CircuitBreaker.{
  CircuitBreaker, Config, state_healthy, should_recover, should_degrade, should_trip,
  record_success, record_failure, new_circuit_breaker,
}
use rapid_proxy.CircuitBreaker.Events.{Event, success, failure, record_event, record_events}

-- At most n requests are in the buckets.
abbrev Holds : ℕ → SlidingWindow → Type 0
Holds n sw = (inside : Int64 → Bool) → tally inside sw.buckets ≤ n

tally-add_to-le :
    (inside : Int64 → Bool) (key : Int64) (m : List (Int64 × Int64))
    → tally inside (add_to key 1 m) ≤ tally inside m + 1
unfolding tally add_to
tally-add_to-le inside key [] = ground arith
tally-add_to-le inside key ((k, c) ∷ rest) = ground (arith, tally-add_to-le inside key rest)

tally-delete_before-le :
    (inside : Int64 → Bool) (c : Int64) (m : List (Int64 × Int64))
    → tally inside (delete_before c m) ≤ tally inside m
unfolding tally delete_before
tally-delete_before-le inside c [] = omega arith
tally-delete_before-le inside c ((k, n) ∷ rest) =
    ground (arith, tally-delete_before-le inside c rest)

increment-Holds :
    (now : Int64) (n : ℕ) (sw : SlidingWindow) → Holds n sw → Holds (n + 1) (increment now sw)
unfolding increment cleanup
increment-Holds now n sw h inside =
    omega (arith, h inside, tally-add_to-le inside _ sw.buckets, tally-delete_before-le inside _ _)

count-le : (asked now : Int64) (n : ℕ) (sw : SlidingWindow) → Holds n sw → count asked now sw ≤ n
unfolding count count_since
count-le asked now n sw h =
    let inside = in_window sw.bucket_size (sub64 asked sw.window_size) now in
    omega (arith, h inside, count_loop-tally inside 0 sw.buckets (omega arith))

module _ {F : Type 0} (fl : Float64 F) where
  event-healthy :
      (e : Event) (t : Clock) (n : ℕ) (cb : CircuitBreaker F)
      → cb.state ≡ state_healthy
      → Holds n cb.requests
      → n + 1 < cb.min_requests
      → IsNonneg cb.min_requests
      → ((record_event fl e t cb).state ≡ state_healthy)
        × ((record_event fl e t cb).requests ≡ increment (t 0) cb.requests)
        × ((record_event fl e t cb).min_requests ≡ cb.min_requests)
  unfolding record_event record_success record_failure should_recover should_trip should_degrade
  event-healthy success t n cb e h lt hm = ground arith
  event-healthy failure t n cb e h lt hm =
      let told = increment (t 0) cb.requests in
      let holds = increment-Holds (t 0) n cb.requests h in
      ground
        (arith, count-le (t 3) (t 4) (n + 1) told holds, count-le (t 9) (t 10) (n + 1) told holds)

  -- With fewer requests than `min_requests` since it was healthy with empty windows, a breaker
  -- stays healthy, whatever came of the requests and whenever they came.
  pub few_requests_healthy :
      (es : List (Event × Clock)) (n : ℕ) (cb : CircuitBreaker F)
      → cb.state ≡ state_healthy
      → Holds n cb.requests
      → n + length es < cb.min_requests
      → IsNonneg cb.min_requests
      → (record_events fl es cb).state ≡ state_healthy
  unfolding record_events
  few_requests_healthy [] n cb e h lt hm = e
  few_requests_healthy ((e, t) ∷ es) n cb he h lt hm =
      let (healthy, told, same) = event-healthy e t n cb he h (omega arith) hm in
      few_requests_healthy es (n + 1) (record_event fl e t cb) healthy
        (rw told (increment-Holds (t 0) n cb.requests h)) (omega arith) (omega arith)

  -- A new breaker is still healthy after fewer requests than `min_requests`, not negative,
  -- whatever came of them and at whatever times.
  pub new_circuit_breaker-healthy :
      (c : Config F) (t : Clock) (es : List (Event × Clock))
      → IsNonneg c.min_requests
      → length es < c.min_requests
      → (record_events fl es (new_circuit_breaker fl (some c) t)).state ≡ state_healthy
  unfolding new_circuit_breaker new_sliding_window tally
  new_circuit_breaker-healthy c t es hm lt =
      few_requests_healthy es 0 (new_circuit_breaker fl (some c) t) refl (λ inside. omega arith)
        (omega arith) (omega arith)
