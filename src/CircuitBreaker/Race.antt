-- ===== src/CircuitBreaker/Race.antt =====
-- `RecordFailure` and `RecordSuccess` of internal/health/circuit_breaker.go under any interleaving of
-- any number of calls. One step of a call is one access to what the calls share, with the local work
-- that follows it: an atomic field, or one of the two windows. A window's operation is one step; the wait
-- for its RWMutex is left out, so a step never blocks.
pub mod Dead
use rapid_proxy.Prelude.{
  ℕ, zero, suc, Bool, true, false, ◌&&◌, Option, none, some, List, [], ◌∷◌, Int64, Clock, div64,
  leb64, ltb64, ◌==◌, if◌then◌else◌, get_elem?, set,
}
use rapid_proxy.Floats.{Float64}
use rapid_proxy.SlidingWindow.{increment, count, reset as reset_window}
use rapid_proxy.CircuitBreaker.{CircuitBreaker, state_healthy, state_degraded, state_dead}

-- What a call asks of the breaker.
pub data Question : Type 0 where
  should_trip should_degrade should_recover : Question

-- Where a call stands, with the locals that are live there.
pub data Pc : Type 0 where
  telling : (failed : Bool) → Pc  -- before `requests.Increment`
  telling_failure : Pc  -- before `failures.Increment`
  stamping_failure stamping_success : Pc  -- before the store of the time
  checking : Question → Pc  -- before the state is read
  counting : Question → Pc  -- before `requests.Count` against the minimum
  rating : Question → Pc  -- before `requests.Count` of `GetErrorRate`
  dividing : Question → (total : Int64) → Pc  -- before `failures.Count`
  swapping : (new_state : ℕ) → Pc
  changing : (new_state : ℕ) → Pc  -- before the store of `lastStateChange`
  resetting_requests resetting_failures returned : Pc

-- Where a call goes on that is not to change the state.
abbrev otherwise : Question → Pc
otherwise should_trip = checking should_degrade
otherwise _ = returned

module _ {F : Type 0} (fl : Float64 F) where
  -- With the error rate.
  abbrev rated : Question → F → CircuitBreaker F → Pc
  rated should_trip rate cb =
      if fl.leb cb.failure_threshold rate then swapping state_dead else checking should_degrade
  rated should_degrade rate cb =
      if fl.leb cb.degraded_threshold rate && fl.ltb rate cb.failure_threshold
      then swapping state_degraded
      else returned
  rated should_recover rate cb =
      if fl.ltb cb.degraded_threshold rate then returned else counting should_recover

  -- With the number of requests.
  abbrev enough : Question → Int64 → CircuitBreaker F → Pc
  enough should_recover total cb =
      if leb64 (div64 cb.min_requests 2) total then swapping state_healthy else returned
  enough q total cb = if ltb64 total cb.min_requests then otherwise q else rating q

  -- With the state.
  abbrev checked : Question → ℕ → Pc
  checked should_recover state = if state == state_healthy then returned else rating should_recover
  checked q state = if state == state_healthy then counting q else returned

  -- One step of one call.
  unfoldable pub move : Clock → Pc → CircuitBreaker F → CircuitBreaker F × Pc
  move t (telling failed) cb = (
    record cb { requests = increment (t 0) cb.requests },
    if failed then telling_failure else stamping_success,
  )
  move t telling_failure cb =
      (record cb { failures = increment (t 0) cb.failures }, stamping_failure)
  move t stamping_failure cb = (record cb { last_failure = t 0 }, counting should_trip)
  move t stamping_success cb = (record cb { last_success = t 0 }, checking should_recover)
  move t (checking q) cb = (cb, checked q cb.state)
  move t (counting q) cb = (cb, enough q (count (t 0) (t 1) cb.requests) cb)
  move t (rating q) cb =
      let total = count (t 0) (t 1) cb.requests in
      (cb, if total == 0 then rated q (fl.literal 0 1) cb else dividing q total)
  move t (dividing q total) cb =
      (cb, rated q (fl.div (fl.of_int (count (t 0) (t 1) cb.failures)) (fl.of_int total)) cb)
  move t (swapping s) cb = (record cb { state = s }, if cb.state == s then returned else changing s)
  move t (changing s) cb = (
    record cb { last_state_change = t 0 },
    if s == state_healthy then resetting_requests else returned,
  )
  move t resetting_requests cb =
      (record cb { requests = reset_window cb.requests }, resetting_failures)
  move t resetting_failures cb = (record cb { failures = reset_window cb.failures }, returned)
  move t returned cb = (cb, returned)

pub record System (F : Type 0) : Type 0 where
  pub breaker : CircuitBreaker F
  pub calls : List Pc

module _ {F : Type 0} (fl : Float64 F) where
  abbrev step_call : ℕ → Clock → System F → Option Pc → System F
  step_call i t s none = s
  step_call i t s (some p) =
      let (cb, p') = move fl t p s.breaker in record { breaker = cb; calls = set s.calls i p' }

  -- Call `i` takes a step, with the clock as it is then.
  unfoldable pub step : ℕ × Clock → System F → System F
  unfolding move
  step (i, t) s = step_call i t s (get_elem? s.calls i)

  -- The scheduler chooses a call and a time for each step.
  unfoldable pub run : List (ℕ × Clock) → System F → System F
  run [] s = s
  run (x ∷ xs) s = run xs (step x s)

-- The calls that begin: `true` for `RecordFailure`.
abbrev pub begun : List Bool → List Pc
begun [] = []
begun (f ∷ rest) = telling f ∷ begun rest

abbrev pub start : {F : Type 0} → CircuitBreaker F → List Bool → System F
start cb fs = record { breaker = cb; calls = begun fs }
