-- ===== src/TokenBucket/Race.antt =====
-- `TryAcquire` of internal/ratelimit/token_bucket.go under any interleaving of any number of calls:
-- one access to shared memory or to the clock is one step, and the next step of a call follows from
-- where it stands. A goroutine that calls again is another entry of `calls`.
pub mod Bounds
pub mod Limit
use rapid_proxy.Prelude.{
  ℕ, zero, suc, Bool, true, false, Option, none, some, List, [], ◌∷◌, Int64, add64, sub64,
  le_zero64, ltb64, ◌==◌, if◌then◌else◌, set, get_elem?,
}
use rapid_proxy.TokenBucket.{TokenBucket, earned, add_tokens}

-- Where a call stands, with the locals that are live there.
pub data Pc : Type 0 where
  idle : Pc  -- before `time.Now` of `maybeRefill`
  clock_read : (now : Int64) → Pc  -- before `lastRefill.Load`
  last_read : (now last : Int64) → Pc  -- before the compare-and-swap of `lastRefill`
  adding : (new_tokens : Int64) → Pc  -- head of the loop of `maybeRefill`
  add_cas : (new_tokens current : Int64) → Pc
  taking : Pc  -- head of the loop of `TryAcquire`
  take_cas : (current : Int64) → Pc
  returned : Bool → Pc

-- Before the compare-and-swap of `lastRefill` only locals are read.
abbrev swap_last : Int64 → Int64 → TokenBucket → TokenBucket × Pc
swap_last now last tb =
    let elapsed = sub64 now last in
    let new_tokens = earned elapsed tb.refill_rate in
    if le_zero64 elapsed
    then (tb, taking)
    else (if le_zero64 new_tokens
        then (tb, taking)
        else (if tb.last_refill == last
            then (record tb { last_refill = now }, adding new_tokens)
            else (tb, taking)))

-- One step of one call; `clock` is what `time.Now` would return.
unfoldable pub move : Int64 → TokenBucket → Pc → TokenBucket × Pc
move clock tb idle = (tb, clock_read clock)
move clock tb (clock_read now) = (tb, last_read now tb.last_refill)
move clock tb (last_read now last) = swap_last now last tb
move clock tb (adding n) = (tb, add_cas n tb.tokens)
move clock tb (add_cas n current) =
    if tb.tokens == current then (add_tokens n tb, taking) else (tb, adding n)
move clock tb taking =
    if le_zero64 tb.tokens then (tb, returned false) else (tb, take_cas tb.tokens)
move clock tb (take_cas current) =
    if tb.tokens == current
    then (record tb { tokens = sub64 current 1 }, returned true)
    else (tb, taking)
move clock tb (returned got) = (tb, returned got)

pub record System : Type 0 where
  pub bucket : TokenBucket
  pub calls : List Pc

step_call : ℕ → Int64 → System → Option Pc → System
step_call i clock s none = s
step_call i clock s (some p) =
    let (tb, p') = move clock s.bucket p in record { bucket = tb; calls = set s.calls i p' }

-- Call `i` takes a step at the time `clock`.
unfoldable pub step : ℕ × Int64 → System → System
unfolding step_call
step (i, clock) s = step_call i clock s (get_elem? s.calls i)

-- The scheduler chooses a call and a time for each step.
unfoldable pub run : List (ℕ × Int64) → System → System
run [] s = s
run (x ∷ xs) s = run xs (step x s)

abbrev pub idle_calls : ℕ → List Pc
idle_calls zero = []
idle_calls (suc n) = idle ∷ idle_calls n

abbrev pub start : ℕ → TokenBucket → System
start n tb = record { bucket = tb; calls = idle_calls n }
