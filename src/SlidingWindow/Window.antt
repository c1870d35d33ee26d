-- ===== src/SlidingWindow/Window.antt =====
-- What `Count` of internal/ratelimit/sliding_window.go says of the events of the last window.
use rapid_proxy.Prelude.{
  ℕ, ◌+◌, ◌*◌, ◌-◌, ◌/◌, ◌^◌, ◌≤◌, ◌<◌, ◌&&◌, List, [], ◌∷◌, Int64, arith, leb, ltb, IsNonneg, All,
  if◌then◌else◌,
}
use rapid_proxy.SlidingWindow.{SlidingWindow, count, reset}
use rapid_proxy.SlidingWindow.Refine.{IsValid, record_all, events_in, count-record_all}

-- The amounts of the events, at their own times, from `low` to before `high`.
unfoldable pub total_between : ℕ → ℕ → List (Int64 × Int64) → ℕ
total_between low high [] = 0
total_between low high ((t, d) ∷ es) =
    (if leb low t && ltb t high then d else 0) + total_between low high es

bucket_begin : (t b : ℕ) → 0 < b → (t / b * b ≤ t) × (t < t / b * b + b)
bucket_begin t b h = (grind arith, grind arith)

-- A bucket that begins in the window has only events of the window, and a whole bucket of the window
-- is counted.
total_between-events_in :
    (b since now asked : ℕ) (es : List (Int64 × Int64))
    → 0 < b
    → All (λ e. e.0 ≤ asked) es
    → (total_between (since + b) now es ≤ events_in b since now es)
      × (events_in b since now es ≤ total_between (since + 1) (asked + 1) es)
unfolding total_between events_in
total_between-events_in b since now asked [] p h = (omega arith, omega arith)
total_between-events_in b since now asked ((t, d) ∷ es) p h =
    let rest = total_between-events_in b since now asked es p h.1 in
    let begin = bucket_begin t b p in (ground arith, ground arith)

no_later :
    (w asked : ℕ) (es : List (Int64 × Int64))
    → All (λ e. (w ≤ e.0) × (e.0 ≤ asked)) es
    → All (λ e. e.0 ≤ asked) es
no_later w asked [] h = tt
no_later w asked (e ∷ es) h = (h.0.1, no_later w asked es h.1)

-- For a window and buckets of positive sizes, after a reset, with events none later than the count nor
-- earlier than one window after the epoch, and amounts that add up, over the last window, to less than
-- 2 ^ 63: `Count` returns no more than the amounts of the events of the last window, and no less than
-- those of the events that are at least a bucket's size younger than the window's beginning and earlier
-- than the second reading. What it can miss of the last window is thus within one bucket's size of its
-- beginning, or at its end.
pub count-record_all_window :
    (asked now : Int64) (es : List (Int64 × Int64)) (sw : SlidingWindow)
    → IsValid sw
    → IsNonneg asked
    → IsNonneg now
    → sw.window_size ≤ asked
    → All (λ e. (sw.window_size ≤ e.0) × (e.0 ≤ asked)) es
    → total_between (asked - sw.window_size + 1) (asked + 1) es < 2 ^ 63
    → (total_between (asked - sw.window_size + sw.bucket_size) now es
        ≤ count asked now (record_all es (reset sw)))
      × (count asked now (record_all es (reset sw))
          ≤ total_between (asked - sw.window_size + 1) (asked + 1) es)
count-record_all_window asked now es sw v ha hn w h small =
    let since = asked - sw.window_size in
    let counted = count-record_all asked now es sw v ha hn w h in
    let (least, most) =
      total_between-events_in sw.bucket_size since now asked es v.bucket_positive.0
        (no_later sw.window_size asked es h) in
    rw counted (omega (arith, least, most, small), omega (arith, least, most, small))
