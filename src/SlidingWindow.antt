-- ===== src/SlidingWindow.antt =====
-- internal/ratelimit/sliding_window.go. The map from bucket keys to counts is an association list
-- without repeated keys; an instant is its UnixNano.
pub mod Keys
pub mod Refine
pub mod Window
use rapid_proxy.Floats.{Float64}
use rapid_proxy.Prelude.{
  Clock, ℕ, ◌*◌, Bool, true, false, ◌&&◌, List, [], ◌∷◌, Int64, add64, sub64, mul64, div64, ltb64,
  le_zero64, nanos_per_sec, ◌==◌, if◌then◌else◌, length,
}

pub record SlidingWindow : Type 0 where
  pub window_size : Int64
  pub bucket_size : Int64
  pub buckets : List (Int64 × Int64)

unfoldable pub new_sliding_window : Int64 → Int64 → SlidingWindow
new_sliding_window window_size bucket_size = record {
  window_size = if le_zero64 window_size then 60 * nanos_per_sec else window_size;
  bucket_size = if le_zero64 bucket_size then nanos_per_sec else bucket_size;
  buckets = [];
}

abbrev pub bucket_key : SlidingWindow → Int64 → Int64
bucket_key sw t = div64 t sw.bucket_size

-- `buckets[key] += delta`
unfoldable pub add_to : Int64 → Int64 → List (Int64 × Int64) → List (Int64 × Int64)
add_to key delta [] = (key, delta) ∷ []
add_to key delta ((k, count) ∷ rest) =
    if k == key then (k, add64 count delta) ∷ rest else (k, count) ∷ add_to key delta rest

-- The loop of `cleanup`.
unfoldable pub delete_before : Int64 → List (Int64 × Int64) → List (Int64 × Int64)
delete_before cutoff_key [] = []
delete_before cutoff_key ((k, count) ∷ rest) =
    let kept = delete_before cutoff_key rest in
    if ltb64 k cutoff_key then kept else (k, count) ∷ kept

unfoldable pub cleanup : Int64 → SlidingWindow → SlidingWindow
cleanup now sw =
    let cutoff = sub64 now sw.window_size in
    record sw { buckets = delete_before (bucket_key sw cutoff) sw.buckets }

unfoldable pub increment_by : Int64 → Int64 → SlidingWindow → SlidingWindow
increment_by now delta sw =
    cleanup now (record sw { buckets = add_to (bucket_key sw now) delta sw.buckets })

unfoldable pub increment : Int64 → SlidingWindow → SlidingWindow
unfolding increment_by
increment now sw = increment_by now 1 sw

-- `bucketTimestamp.After(since) && bucketTimestamp.Before(now)`
abbrev pub in_window : Int64 → Int64 → Int64 → Int64 → Bool
in_window bucket_size since now k =
    let timestamp = mul64 k bucket_size in ltb64 since timestamp && ltb64 timestamp now

-- The loop of `CountSince`.
unfoldable pub count_loop : (Int64 → Bool) → Int64 → List (Int64 × Int64) → Int64
count_loop inside total [] = total
count_loop inside total ((k, count) ∷ rest) =
    count_loop inside (if inside k then add64 total count else total) rest

unfoldable pub count_since : Int64 → Int64 → SlidingWindow → Int64
count_since since now sw = count_loop (in_window sw.bucket_size since now) 0 sw.buckets

-- `asked` is the reading of `Count`, `now` that of `CountSince`.
unfoldable pub count : Int64 → Int64 → SlidingWindow → Int64
unfolding count_since
count asked now sw = count_since (sub64 asked sw.window_size) now sw

unfoldable pub reset : SlidingWindow → SlidingWindow
reset sw = record sw { buckets = [] }

unfoldable pub num_buckets : SlidingWindow → ℕ
num_buckets sw = length sw.buckets

pub record SlidingWindowStats (F : Type 0) : Type 0 where
  pub window_size : Int64
  pub bucket_size : Int64
  pub count : Int64
  pub rate : F
  pub num_buckets : ℕ

module _ {F : Type 0} (fl : Float64 F) (seconds : Int64 → F) where
  -- `seconds` is `time.Duration.Seconds`.
  unfoldable pub rate : Int64 → Int64 → SlidingWindow → F
  rate asked now sw =
      let s = seconds sw.window_size in
      if fl.eqb s (fl.literal 0 1)
      then fl.literal 0 1
      else fl.div (fl.of_int (count asked now sw)) s

  unfoldable pub stats : Clock → SlidingWindow → SlidingWindowStats F
  unfolding rate
  stats t sw = record {
    window_size = sw.window_size;
    bucket_size = sw.bucket_size;
    count = count (t 0) (t 1) sw;
    rate = rate (t 2) (t 3) sw;
    num_buckets = num_buckets sw;
  }
