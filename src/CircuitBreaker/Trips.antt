-- ===== src/CircuitBreaker/Trips.antt =====
-- When a failure brings the breaker down, by the requests and the failures that it was told of.
use rapid_proxy.Prelude.{
  ℕ, ◌+◌, ◌-◌, ◌%◌, ◌^◌, ◌≤◌, ◌≡◌, ◌≢◌, refl, sym, ap, ◌∙◌, Int64, IsNonneg, arith, Clock, Bool,
  true, false, List, [], ◌∷◌, ◌++◌, All, All-append, ltb64, ◌==◌, if◌then◌else◌, Bool-cases, inl,
  inr,
}
use rapid_proxy.Floats.{Float64}
use rapid_proxy.SlidingWindow.{SlidingWindow, increment, count, reset}
use rapid_proxy.SlidingWindow.Refine.{
  IsValid, record_all, record_all-append, count-record_all, events_in,
}
use rapid_proxy.CircuitBreaker.{
  CircuitBreaker, state_degraded, state_dead, should_trip, should_degrade, get_error_rate,
  transition_to, record_failure, after_failure, later,
}

-- The events whose buckets begin in the window of `sw`, at a count that reads the clock at `asked` and at `now`.
abbrev pub events_at : SlidingWindow → Int64 → Int64 → List (Int64 × Int64) → Int64
events_at sw asked now es = events_in sw.bucket_size (asked - sw.window_size) now es % 2 ^ 64

-- An event that the window, since the epoch, has room for.
abbrev pub IsPast : SlidingWindow → Int64 → Int64 × Int64 → Type 0
IsPast sw now e = (sw.window_size ≤ e.0) × (e.0 ≤ now)

count-event :
    (sw : SlidingWindow) (t asked now : Int64) (es : List (Int64 × Int64))
    → IsValid sw
    → IsNonneg asked
    → IsNonneg now
    → sw.window_size ≤ t
    → t ≤ asked
    → All (IsPast sw t) es
    → count asked now (increment t (record_all es (reset sw)))
      ≡ events_at sw asked now (es ++ (t, 1) ∷ [])
unfolding increment
count-event sw t asked now es v ha hn low le h =
    ap (count asked now) (sym (record_all-append es t 1 (reset sw)))
    ∙ count-record_all asked now (es ++ (t, 1) ∷ []) sw v ha hn (omega arith)
        (All-append _ es (t, 1) (earlier es h) (low, le))
  where
    earlier :
        (es : List (Int64 × Int64))
        → All (IsPast sw t) es
        → All (λ e. (sw.window_size ≤ e.0) × (e.0 ≤ asked)) es
    earlier [] a = tt
    earlier (e ∷ es) a = ((a.0.0, omega arith), earlier es a.1)

module _ {F : Type 0} (fl : Float64 F) where
  -- The decision by numbers: `n` requests are enough, and of `n'` requests `m` failures are too many.
  abbrev pub too_many : CircuitBreaker F → ℕ → ℕ → ℕ → Bool
  too_many cb n n' m =
      if ltb64 n cb.min_requests
      then false
      else fl.leb cb.failure_threshold
          (if n' == 0 then fl.literal 0 1 else fl.div (fl.of_int m) (fl.of_int n'))

  -- A breaker that a step has left alone, or taken to another state.
  not_dead :
      (s now : ℕ) (cb : CircuitBreaker F)
      → s ≢ state_dead
      → ((transition_to s now cb).state == state_dead) ≡ false
  unfolding transition_to
  not_dead s now cb ne = ground arith

  is_dead :
      (now : ℕ) (cb : CircuitBreaker F)
      → ((transition_to state_dead now cb).state == state_dead) ≡ true
  unfolding transition_to
  is_dead now cb = ground arith

  after-dead :
      (t : Clock) (told : CircuitBreaker F)
      → told.state ≢ state_dead
      → ((after_failure fl t told).state == state_dead) ≡ should_trip fl (later 3 t) told
  after-dead t told ne = elim (Bool-cases (should_trip fl (later 3 t) told)) [
    | inl y ↦ rw y (is_dead (t 9) told)
    | inr n ↦ elim (Bool-cases (should_degrade fl (later 9 t) told)) [
      | inl d ↦ rw (n, d) (not_dead state_degraded (t 15) told (λ e. cc))
      | inr d ↦ rw (n, d) (ground arith)
    ]
  ]

  -- Of a breaker that is not dead and whose windows, with positive sizes, hold the requests `rs`
  -- and the failures `fs` since a reset, none later than the failure or earlier than one window
  -- after the epoch: a failure at the rising readings `t` brings it to dead exactly if the requests
  -- counted are at least `min_requests` and the failures counted make at least `failure_threshold` of
  -- the requests counted then, all counts modulo 2 ^ 64. An event, the failing request too, is counted if the bucket that it
  -- falls into begins later than one window before `Count`'s reading and earlier than `CountSince`'s:
  -- the bucket in which the window begins is left out, and so is one that begins at the very reading.
  pub record_failure-dead :
      (t : Clock) (cb : CircuitBreaker F) (sw sf : SlidingWindow) (rs fs : List (Int64 × Int64))
      → cb.state ≢ state_dead
      → IsValid sw
      → IsValid sf
      → cb.requests ≡ record_all rs (reset sw)
      → cb.failures ≡ record_all fs (reset sf)
      → IsNonneg (t 8)
      → ((k : ℕ) → t k ≤ t (k + 1))
      → sw.window_size ≤ t 0
      → sf.window_size ≤ t 1
      → All (IsPast sw (t 0)) rs
      → All (IsPast sf (t 1)) fs
      → ((record_failure fl t cb).state == state_dead)
        ≡ too_many cb
            (events_at sw (t 3) (t 4) (rs ++ (t 0, 1) ∷ []))
            (events_at sw (t 5) (t 6) (rs ++ (t 0, 1) ∷ []))
            (events_at sf (t 7) (t 8) (fs ++ (t 1, 1) ∷ []))
  unfolding record_failure should_trip get_error_rate
  record_failure-dead t cb sw sf rs fs ne v vf er ef hn up low lowf past pastf =
      let early : (t 3 ≤ t 4) × (t 4 ≤ t 5) × (t 5 ≤ t 6) × (t 6 ≤ t 7) × (t 7 ≤ t 8) =
        (up 3, up 4, up 5, up 6, up 7) in
      let first : (t 0 ≤ t 3) × (t 1 ≤ t 3) =
        (omega (arith, up 0, up 1, up 2), omega (arith, up 1, up 2)) in
      let a =
        count-event sw (t 0) (t 3) (t 4) rs v (omega arith) (omega arith) low (omega arith) past in
      let b =
        count-event sw (t 0) (t 5) (t 6) rs v (omega arith) (omega arith) low (omega arith) past in
      let c =
        count-event sf (t 1) (t 7) (t 8) fs vf (omega arith) (omega arith) lowf (omega arith)
          pastf in
      after-dead t _ ne ∙ rw (er, ef, a, b, c) refl
