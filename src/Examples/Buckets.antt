-- ===== src/Examples/Buckets.antt =====
-- Token buckets and sliding windows of internal/ratelimit at concrete values.
use rapid_proxy.Prelude.{
  ℕ, ◌+◌, ◌*◌, ◌-◌, ◌^◌, ◌≤◌, ◌<◌, ◌≡◌, ◌≢◌, refl, arith, false, List, [], ◌∷◌, All, Int64,
  IsNonneg, nanos_per_sec,
}
use rapid_proxy.TokenBucket.{
  TokenBucket, maybe_refill, earned, try_acquire, acquire, acquired, Wake, timer, ctx_done,
}
use rapid_proxy.TokenBucket.Bounds.{IsValid, Op, acquires, sets_capacity, sets_rate, resets, IsSane}
use rapid_proxy.TokenBucket.Rate.{
  acquire_all, acquire_all_limit, try_acquire_overflow, IsPaced, acquire_all-paced,
}
use rapid_proxy.TokenBucket.Race.{run, start}
use rapid_proxy.TokenBucket.Race.Limit.{granted, run_limit}
use rapid_proxy.SlidingWindow.{
  SlidingWindow, count, count_since, count_loop, increment_by, cleanup, add_to, delete_before,
  reset,
}
use rapid_proxy.SlidingWindow.Refine
use rapid_proxy.SlidingWindow.Refine.{record_all}
use rapid_proxy.SlidingWindow.Window.{total_between, count-record_all_window}

-- Ten tokens a second, three left at second 1.
abbrev bucket : TokenBucket
bucket = record { capacity = 10; refill_rate = 10; tokens = 3; last_refill = nanos_per_sec }

abbrev empty : TokenBucket
empty = record { capacity = 10; refill_rate = 10; tokens = 0; last_refill = nanos_per_sec }

bucket-IsValid : IsValid bucket
bucket-IsValid = ground arith

empty-IsValid : IsValid empty
empty-IsValid = ground arith

try_acquire_test : (try_acquire (2 * nanos_per_sec) bucket).0.tokens ≡ 9
unfolding try_acquire maybe_refill earned
try_acquire_test = refl

-- Two calls that alternate over one bucket.
abbrev schedule : List (ℕ × Int64)
schedule =
    (0, 2000000000)
    ∷ (1, 2000000000)
    ∷ (0, 2000000000)
    ∷ (1, 2000000000)
    ∷ (0, 2000000000)
    ∷ (1, 2000000000)
    ∷ (0, 2000000000)
    ∷ (1, 2000000000)
    ∷ (0, 2000000000)
    ∷ (0, 2000000000)
    ∷ []

schedule-IsNonneg : All (λ x. IsNonneg x.1) schedule
schedule-IsNonneg = ground arith

run_limit_example :
    let s = run schedule (start 2 bucket) in
    (s.bucket.tokens ≤ s.bucket.capacity)
    × (granted s.calls * nanos_per_sec + bucket.last_refill * bucket.refill_rate
        ≤ bucket.tokens * nanos_per_sec + s.bucket.last_refill * bucket.refill_rate)
run_limit_example = run_limit 2 schedule bucket schedule-IsNonneg bucket-IsValid

abbrev attempts : List Int64
attempts = 1000000000 ∷ 1050000000 ∷ 1200000000 ∷ 1300000000 ∷ 1300000000 ∷ []

attempts-early : All (λ t. t ≤ 2 * nanos_per_sec) attempts
attempts-early = ground arith

acquire_all_limit_example :
    (acquire_all attempts bucket).1 * nanos_per_sec
    ≤ bucket.tokens * nanos_per_sec + (2 * nanos_per_sec - bucket.last_refill) * bucket.refill_rate
acquire_all_limit_example =
    acquire_all_limit attempts (2 * nanos_per_sec) bucket (omega arith) attempts-early
      bucket-IsValid (omega arith)

abbrev ops : List Op
ops = acquires 1500000000 ∷ sets_capacity 5 ∷ sets_rate 0 ∷ resets 3000000000 ∷ []

ops-IsSane : All IsSane ops
ops-IsSane = ground arith

-- A tenth of a second, then longer, then a tenth again.
abbrev paced : List Int64
paced = 1100000000 ∷ 1350000000 ∷ 1450000000 ∷ []

paced-IsPaced : IsPaced 10 1000000000 paced
paced-IsPaced = ground arith

acquire_all-paced_example : (acquire_all paced empty).1 ≡ 3
acquire_all-paced_example = acquire_all-paced paced empty empty-IsValid paced-IsPaced

-- Ten million tokens a second, idle for a thousand seconds.
abbrev fast : TokenBucket
fast = record { capacity = 10000000; refill_rate = 10000000; tokens = 0; last_refill = 0 }

fast-IsValid : IsValid fast
fast-IsValid = ground arith

try_acquire_overflow_example : try_acquire (1000 * nanos_per_sec) fast ≡ (fast, false)
try_acquire_overflow_example =
    try_acquire_overflow (1000 * nanos_per_sec) fast (omega arith) fast-IsValid refl (omega arith)
      (omega arith)

abbrev waits : List (Int64 × Wake ℕ)
waits = (1010000000, timer) ∷ (1020000000, ctx_done 7) ∷ []

waits-IsNonneg : All (λ w. IsNonneg w.0) waits
waits-IsNonneg = ground arith

cancelled_wait : (acquire waits empty).1 ≢ acquired
unfolding acquire try_acquire maybe_refill earned
cancelled_wait e = cc

abbrev polls : List Int64
polls = 1010000000 ∷ 1020000000 ∷ []

-- A window of ten seconds in buckets of one.
abbrev window : SlidingWindow
window = record { window_size = 10000000000; bucket_size = 1000000000; buckets = [] }

window-IsValid : Refine.IsValid window
window-IsValid = ground arith

abbrev events : List (Int64 × Int64)
events = (100500000000, 1) ∷ (101900000000, 2) ∷ (102500000000, 1) ∷ (109000000000, 1) ∷ []

events-in_time : All (λ e. (window.window_size ≤ e.0) × (e.0 ≤ 112300000000)) events
events-in_time = ground arith

-- Of the four, the first two are too old, the third lies in the bucket that straddles the window's
-- beginning.
events_small :
    total_between (112300000000 - window.window_size + 1) (112300000000 + 1) events < 2 ^ 63
unfolding total_between
events_small = omega arith

count-record_all_window_example :
    (total_between (112300000000 - window.window_size + window.bucket_size) 112300000001 events
      ≤ count 112300000000 112300000001 (record_all events (reset window)))
    × (count 112300000000 112300000001 (record_all events (reset window))
        ≤ total_between (112300000000 - window.window_size + 1) (112300000000 + 1) events)
count-record_all_window_example =
    count-record_all_window 112300000000 112300000001 events window window-IsValid (omega arith)
      (omega arith) (omega arith) events-in_time events_small

-- Two events of the window, of which one is counted.
window_test :
    (total_between (112300000000 - window.window_size + 1) (112300000000 + 1) events ≡ 2)
    × (count 112300000000 112300000001 (record_all events (reset window)) ≡ 1)
unfolding total_between count count_since count_loop record_all increment_by cleanup add_to
    delete_before reset
window_test = (refl, refl)
