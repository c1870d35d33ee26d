-- ===== src/SlidingWindow/Refine.antt =====
-- A sliding window against the list of the events that it was told of.
use rapid_proxy.Prelude.{
  ℕ, ◌+◌, ◌*◌, ◌-◌, ◌/◌, ◌%◌, ◌^◌, ◌≤◌, ◌<◌, ◌≡◌, refl, ap, Bool, true, false, ◌&&◌, List, [], ◌∷◌,
  ◌++◌, Int64, arith, sub64, div64, ltb64, ltb, IsNonneg, IsPositive, All, if◌then◌else◌,
}
use rapid_proxy.SlidingWindow.{
  SlidingWindow, bucket_key, add_to, delete_before, cleanup, increment_by, in_window, count_since,
  count, reset,
}
use rapid_proxy.SlidingWindow.Keys.{
  tally, count_loop-tally, tally-add_to, tally-delete_before, inside_kept,
}

-- Events are (time, amount), the oldest first.
unfoldable pub record_all : List (Int64 × Int64) → SlidingWindow → SlidingWindow
record_all [] sw = sw
record_all ((t, d) ∷ es) sw = record_all es (increment_by t d sw)

pub record_all-append :
    (es : List (Int64 × Int64)) (t d : Int64) (sw : SlidingWindow)
    → record_all (es ++ (t, d) ∷ []) sw ≡ increment_by t d (record_all es sw)
unfolding record_all
record_all-append [] t d sw = refl
record_all-append ((u, e) ∷ es) t d sw = record_all-append es t d (increment_by u e sw)

-- What is counted of a list of events: those whose time, rounded down to a multiple of the bucket
-- size, lies strictly between `since` and `now`.
unfoldable pub events_in : ℕ → ℕ → ℕ → List (Int64 × Int64) → ℕ
events_in b since now [] = 0
events_in b since now ((t, d) ∷ es) =
    (if ltb since (t / b * b) && ltb (t / b * b) now then d else 0) + events_in b since now es

abbrev pub HasKeys : List (Int64 × Int64) → Type 0
HasKeys = All (λ b. IsNonneg b.0)

pub record IsValid (sw : SlidingWindow) : Type 0 where
  pub window_positive : IsPositive sw.window_size
  pub bucket_positive : IsPositive sw.bucket_size
  pub keys : HasKeys sw.buckets

HasKeys-add_to :
    (key d : Int64) (m : List (Int64 × Int64)) → IsNonneg key → HasKeys m → HasKeys (add_to key d m)
unfolding add_to
HasKeys-add_to key d [] hk h = (hk, tt)
HasKeys-add_to key d ((k, c) ∷ rest) hk h = ground (arith, HasKeys-add_to key d rest hk h.1)

HasKeys-delete_before :
    (c : Int64) (m : List (Int64 × Int64)) → HasKeys m → HasKeys (delete_before c m)
unfolding delete_before
HasKeys-delete_before c [] h = tt
HasKeys-delete_before c ((k, n) ∷ rest) h = ground (arith, HasKeys-delete_before c rest h.1)

round_down : (t b : ℕ) → 0 < b → (t / b * b ≤ t) × (t / b ≤ t)
round_down t b h = (grind arith, grind arith)

key-IsNonneg :
    (t b : Int64) → IsPositive b → IsNonneg t → (div64 t b ≡ t / b) × (div64 t b < 2 ^ 63)
key-IsNonneg t b hb ht = ground (arith, round_down t b hb.0)

pub increment_by-IsValid :
    (t d : Int64) (sw : SlidingWindow) → IsNonneg t → IsValid sw → IsValid (increment_by t d sw)
unfolding increment_by cleanup
increment_by-IsValid t d sw ht v = record {
  window_positive = v.window_positive;
  bucket_positive = v.bucket_positive;
  keys =
      HasKeys-delete_before _ _ (
        HasKeys-add_to _ d sw.buckets (key-IsNonneg t sw.bucket_size v.bucket_positive ht).1
          v.keys);
}

-- A key is in the window exactly when its event's rounded time is.
in_window-key :
    (b since now t : Int64)
    → IsPositive b
    → IsNonneg since
    → IsNonneg now
    → IsNonneg t
    → in_window b since now (div64 t b) ≡ (ltb since (t / b * b) && ltb (t / b * b) now)
in_window-key b since now t hb hs hn ht =
    rw ((key-IsNonneg t b hb ht).0) (ground (arith, round_down t b hb.0))

sub64_true : (a b : Int64) → IsNonneg a → b ≤ a → sub64 a b ≡ a - b
sub64_true a b h l = omega arith

module _ (asked now : Int64) (ha : IsNonneg asked) (hn : IsNonneg now) where
  -- An event is no later than the count, and no earlier than one window after the epoch.
  abbrev InTime : SlidingWindow → Int64 × Int64 → Type 0
  InTime sw e = (sw.window_size ≤ e.0) × (e.0 ≤ asked)

  abbrev inside : SlidingWindow → Int64 → Bool
  inside sw = in_window sw.bucket_size (sub64 asked sw.window_size) now

  kept-All :
      (sw : SlidingWindow) (t : Int64) (m : List (Int64 × Int64))
      → IsValid sw
      → InTime sw (t, 0)
      → HasKeys m
      → All
          (λ b. inside sw b.0 ≡ true → ltb64 b.0 (bucket_key sw (sub64 t sw.window_size)) ≡ false)
          m
  kept-All sw t [] v h hk = tt
  kept-All sw t ((k, c) ∷ rest) v h hk = (
    inside_kept sw.window_size sw.bucket_size t asked now k v.bucket_positive v.window_positive h.0
        h.1 ha hk.0,
    kept-All sw t rest v h hk.1,
  )

  tally-increment_by :
      (sw : SlidingWindow) (t d : Int64)
      → IsValid sw
      → InTime sw (t, d)
      → tally (inside sw) (increment_by t d sw).buckets % 2 ^ 64
        ≡ (tally (inside sw) sw.buckets + (if inside sw (div64 t sw.bucket_size) then d else 0))
          % 2 ^ 64
  unfolding increment_by cleanup
  tally-increment_by sw t d v h =
      rw
        (tally-delete_before (inside sw) (bucket_key sw (sub64 t sw.window_size))
          (add_to (div64 t sw.bucket_size) d sw.buckets)
          (kept-All sw t _ v h (
            HasKeys-add_to _ d sw.buckets
              (key-IsNonneg t sw.bucket_size v.bucket_positive (omega arith)).1 v.keys)))
        (tally-add_to (inside sw) (div64 t sw.bucket_size) d sw.buckets)

  inside-event :
      (sw : SlidingWindow) (t : Int64)
      → IsValid sw
      → sw.window_size ≤ t
      → t ≤ asked
      → sw.window_size ≤ asked
      → inside sw (div64 t sw.bucket_size) ≡ (
          ltb (asked - sw.window_size) (t / sw.bucket_size * sw.bucket_size)
          && ltb (t / sw.bucket_size * sw.bucket_size) now)
  inside-event sw t v low high w = rw (sub64_true asked sw.window_size ha w) (
      in_window-key sw.bucket_size (asked - sw.window_size) now t v.bucket_positive (omega arith) hn
        (omega arith))

  tally-record_all :
      (es : List (Int64 × Int64)) (sw : SlidingWindow)
      → IsValid sw
      → All (InTime sw) es
      → sw.window_size ≤ asked
      → tally (inside sw) (record_all es sw).buckets % 2 ^ 64
        ≡ (tally (inside sw) sw.buckets + events_in sw.bucket_size (asked - sw.window_size) now es)
          % 2 ^ 64
  unfolding record_all events_in increment_by cleanup
  tally-record_all [] sw v h w = omega arith
  tally-record_all ((t, d) ∷ es) sw v h w =
      let counted : (if inside sw (div64 t sw.bucket_size) then d else 0) ≡ (
          if ltb (asked - sw.window_size) (t / sw.bucket_size * sw.bucket_size)
            && ltb (t / sw.bucket_size * sw.bucket_size) now
          then d
          else 0) =
        ap (λ (b : Bool). if b then d else 0) (inside-event sw t v h.0.0 h.0.1 w) in
      omega (
        arith,
        counted,
        tally-increment_by sw t d v h.0,
        tally-record_all es (increment_by t d sw) (increment_by-IsValid t d sw (omega arith) v) h.1
            w,
      )

record_all-sizes :
    (es : List (Int64 × Int64)) (sw : SlidingWindow)
    → ((record_all es sw).window_size ≡ sw.window_size)
      × ((record_all es sw).bucket_size ≡ sw.bucket_size)
unfolding record_all increment_by cleanup
record_all-sizes [] sw = (refl, refl)
record_all-sizes ((t, d) ∷ es) sw = record_all-sizes es (increment_by t d sw)

-- For events since a reset, none later than the count or earlier than one window after the epoch,
-- `Count` returns what the list of the events gives, modulo 2 ^ 64: sharing buckets and deleting old
-- ones changes no count. Which events of the last window rounding to buckets leaves out is said in
-- SlidingWindow.Window.
pub count-record_all :
    (asked now : Int64) (es : List (Int64 × Int64)) (sw : SlidingWindow)
    → IsValid sw
    → IsNonneg asked
    → IsNonneg now
    → sw.window_size ≤ asked
    → All (λ e. (sw.window_size ≤ e.0) × (e.0 ≤ asked)) es
    → count asked now (record_all es (reset sw))
      ≡ events_in sw.bucket_size (asked - sw.window_size) now es % 2 ^ 64
unfolding count count_since reset tally
count-record_all asked now es sw v ha hn w h =
    let (same_window, same_bucket) = record_all-sizes es (reset sw) in
    let sum =
      tally-record_all asked now ha hn es (reset sw)
        (record {
          window_positive = v.window_positive;
          bucket_positive = v.bucket_positive;
          keys = tt;
        })
        h w in
    rw (same_window, same_bucket)
      (omega (
        arith,
        sum,
        count_loop-tally (inside asked now ha hn (reset sw)) 0 (record_all es (reset sw)).buckets
            (omega arith),
      ))
