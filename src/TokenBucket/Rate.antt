-- ===== src/TokenBucket/Rate.antt =====
-- How many tokens a bucket hands out over time.
use rapid_proxy.Prelude.{
  length, subst, ◌∙◌, ℕ, zero, suc, ◌+◌, ◌*◌, ◌-◌, ◌/◌, ◌%◌, ◌^◌, ◌≤◌, ◌<◌, ◌↔◌, min, ◌≡◌, refl, ap,
  ◌⊎◌, inl, inr, Bool, true, false, arith, Int64, sub64, le_zero64, IsNonneg, nanos_per_sec, List,
  [], ◌∷◌, All, if◌then◌else◌,
}
use rapid_proxy.TokenBucket.{TokenBucket, earned, maybe_refill, try_acquire}
use rapid_proxy.TokenBucket.Bounds.{
  IsValid, Refill, unchanged, refill, maybe_refill-Refill, maybe_refill-IsValid,
}

-- Every reading attempts `TryAcquire` once; the count is of the attempts that got a token.
pub acquire_all : List Int64 → TokenBucket → TokenBucket × ℕ
acquire_all [] tb = (tb, 0)
acquire_all (now ∷ rest) tb =
    let (tb', got) = try_acquire now tb in
    let (last, n) = acquire_all rest tb' in (last, if got then suc n else n)

abbrev as_count : Bool → ℕ
as_count true = 1
as_count false = 0

-- One attempt on the balance sheet, in units of 10^-9 token.
record Step (tb tb' : TokenBucket) (got : Bool) : Type 0 where
  valid : IsValid tb'
  same_rate : tb'.refill_rate ≡ tb.refill_rate
  balance :
      (tb'.tokens + as_count got) * nanos_per_sec + tb.last_refill * tb.refill_rate
      ≤ tb.tokens * nanos_per_sec + tb'.last_refill * tb.refill_rate
  forward : tb.last_refill ≤ tb'.last_refill

pub sub-mul : (a b r : ℕ) → b ≤ a → (a - b) * r + b * r ≡ a * r
sub-mul a b r h = omega (arith, ap (λ (x : ℕ). x * r) (sub-add a b h))
  where
    sub-add : (a b : ℕ) → b ≤ a → a - b + b ≡ a
    sub-add a b h = omega arith

pub mul_mono : (a b r : ℕ) → a ≤ b → a * r ≤ b * r
mul_mono a b r h = grind arith

Refill-balance :
    {now : Int64} {tb tb' : TokenBucket}
    → Refill now tb tb'
    → (tb'.tokens * nanos_per_sec + tb.last_refill * tb.refill_rate
        ≤ tb.tokens * nanos_per_sec + tb'.last_refill * tb.refill_rate)
      × (tb'.refill_rate ≡ tb.refill_rate)
      × (tb.last_refill ≤ tb'.last_refill)
      × ((tb'.last_refill ≡ tb.last_refill) ⊎ (tb'.last_refill ≡ now))
Refill-balance unchanged = (omega arith, refl, omega arith, inl refl)
Refill-balance {now} {tb} (refill n pos later paid cap grows few) = (
  omega (arith, sub-mul now tb.last_refill tb.refill_rate (omega arith)),
  refl,
  omega arith,
  inr refl,
)

module _ (now stop : Int64) (tb : TokenBucket) (hn : now ≤ stop) (hs : IsNonneg stop)
    (v : IsValid tb) where
  try_acquire-Step : Step tb (try_acquire now tb).0 (try_acquire now tb).1
  unfolding try_acquire
  try_acquire-Step =
      let filled = maybe_refill-Refill now tb (omega arith) v in
      let filled_valid = maybe_refill-IsValid now tb (omega arith) v in
      let sheet = Refill-balance filled in ground arith

  try_acquire-last : tb.last_refill ≤ stop → (try_acquire now tb).0.last_refill ≤ stop
  unfolding try_acquire
  try_acquire-last h =
      let sheet = Refill-balance (maybe_refill-Refill now tb (omega arith) v) in ground arith

acquire_all-balance :
    (ts : List Int64) (stop : Int64) (tb : TokenBucket)
    → IsNonneg stop
    → All (λ t. t ≤ stop) ts
    → IsValid tb
    → tb.last_refill ≤ stop
    → (acquire_all ts tb).1 * nanos_per_sec + tb.last_refill * tb.refill_rate
      ≤ tb.tokens * nanos_per_sec + stop * tb.refill_rate
unfolding acquire_all
acquire_all-balance [] stop tb hs h v l =
    omega (arith, mul_mono tb.last_refill stop tb.refill_rate l)
acquire_all-balance (now ∷ ts) stop tb hs h v l =
    let s = try_acquire-Step now stop tb h.0 hs v in
    let rest = rw s.same_rate at (
      acquire_all-balance ts stop (try_acquire now tb).0 hs h.1 s.valid
        (try_acquire-last now stop tb h.0 hs v l)) in
    ground arith

-- The rate limit: of attempts at any times up to `stop`, a valid bucket last refilled no later
-- than `stop` grants at most the tokens that it holds and what `refill_rate` tokens a second add
-- until `stop`.
pub acquire_all_limit :
    (ts : List Int64) (stop : Int64) (tb : TokenBucket)
    → IsNonneg stop
    → All (λ t. t ≤ stop) ts
    → IsValid tb
    → tb.last_refill ≤ stop
    → (acquire_all ts tb).1 * nanos_per_sec
      ≤ tb.tokens * nanos_per_sec + (stop - tb.last_refill) * tb.refill_rate
acquire_all_limit ts stop tb hs h v l =
    omega
      (arith, acquire_all-balance ts stop tb hs h v l, sub-mul stop tb.last_refill tb.refill_rate l)

sub64_true : (a b : Int64) → IsNonneg a → b ≤ a → sub64 a b ≡ a - b
sub64_true a b h l = omega arith

earned_exact : (e r : Int64) → e * r < 2 ^ 63 → earned e r ≡ e * r / nanos_per_sec
unfolding earned
earned_exact e r h = ground arith

earned_wrapped : (e r : Int64) → 2 ^ 63 ≤ e * r % 2 ^ 64 → le_zero64 (earned e r) ≡ true
unfolding earned
earned_wrapped e r h = ground arith

-- For a valid bucket, last refilled no later than `now`, with a product of elapsed time and rate
-- below 2 ^ 63, `maybeRefill` leaves what the bucket held and all whole tokens that the elapsed
-- time has earned, up to the capacity.
pub maybe_refill-tokens :
    (now : Int64) (tb : TokenBucket)
    → IsNonneg now
    → IsValid tb
    → tb.last_refill ≤ now
    → (now - tb.last_refill) * tb.refill_rate < 2 ^ 63
    → (maybe_refill now tb).tokens
      ≡ min tb.capacity (tb.tokens + (now - tb.last_refill) * tb.refill_rate / nanos_per_sec)
unfolding maybe_refill
maybe_refill-tokens now tb hn v l small =
    rw
      (sub64_true now tb.last_refill hn l, earned_exact (now - tb.last_refill) tb.refill_rate small)
      (ground arith)

-- Under the same conditions an attempt succeeds exactly if what the bucket held and what the
-- elapsed time has earned make one token.
pub try_acquire_iff :
    (now : Int64) (tb : TokenBucket)
    → IsNonneg now
    → IsValid tb
    → tb.last_refill ≤ now
    → (now - tb.last_refill) * tb.refill_rate < 2 ^ 63
    → ((try_acquire now tb).1 ≡ true)
      ↔ (nanos_per_sec ≤ tb.tokens * nanos_per_sec + (now - tb.last_refill) * tb.refill_rate)
unfolding try_acquire
try_acquire_iff now tb hn v l small =
    let exact = maybe_refill-tokens now tb hn v l small in (λ h. ground arith, λ h. ground arith)

-- Where the product of elapsed time and rate wraps to a negative number, a valid empty bucket
-- refuses and stays as it is, however long it has been idle.
pub try_acquire_overflow :
    (now : Int64) (tb : TokenBucket)
    → IsNonneg now
    → IsValid tb
    → tb.tokens ≡ 0
    → tb.last_refill < now
    → 2 ^ 63 ≤ (now - tb.last_refill) * tb.refill_rate % 2 ^ 64
    → try_acquire now tb ≡ (tb, false)
unfolding try_acquire maybe_refill
try_acquire_overflow now tb hn v e l big =
    rw
      (
        sub64_true now tb.last_refill hn (omega arith),
        earned_wrapped (now - tb.last_refill) tb.refill_rate big,
      )
      (ground arith)

-- Readings from `t` on, each as long after the one before as `rate` takes to earn a token, or longer,
-- with no product of time and rate that wraps.
abbrev pub IsPaced : ℕ → Int64 → List Int64 → Type 0
IsPaced rate t [] = Unit {0}
IsPaced rate t (now ∷ later) =
    (t ≤ now)
    × (nanos_per_sec ≤ (now - t) * rate)
    × ((now - t) * rate < 2 ^ 63)
    × IsNonneg now
    × IsPaced rate now later

earned_attempt :
    (d t : Int64) (tb : TokenBucket)
    → IsNonneg (t + d)
    → IsValid tb
    → tb.last_refill ≡ t
    → nanos_per_sec ≤ d * tb.refill_rate
    → d * tb.refill_rate < 2 ^ 63
    → ((try_acquire (t + d) tb).1 ≡ true)
      × ((try_acquire (t + d) tb).0.last_refill ≡ t + d)
      × ((try_acquire (t + d) tb).0.refill_rate ≡ tb.refill_rate)
unfolding try_acquire maybe_refill
earned_attempt d t tb hn v e enough small =
    let moved : 0 < d = grind arith in
    let elapsed : sub64 (t + d) tb.last_refill ≡ d = omega arith in
    rw (elapsed, earned_exact d tb.refill_rate small) (ground arith)

-- The sustained rate: of attempts that begin as long after the last refill, and follow each other as
-- long, as a token takes to be earned, or longer, every one succeeds, whatever the valid bucket held at
-- first. The times lie after the epoch and the products of time and rate below 2 ^ 63.
pub acquire_all-paced :
    (ts : List Int64) (tb : TokenBucket)
    → IsValid tb
    → IsPaced tb.refill_rate tb.last_refill ts
    → (acquire_all ts tb).1 ≡ length ts
unfolding acquire_all
acquire_all-paced [] tb v h = refl
acquire_all-paced (now ∷ ts) tb v (le, enough, small, hn, later) =
    let at : tb.last_refill + (now - tb.last_refill) ≡ now = omega (arith, le) in
    let attempt =
      earned_attempt (now - tb.last_refill) tb.last_refill tb (rw at hn) v refl enough small in
    let (got, moved, same) =
      subst
        (λ x.
          ((try_acquire x tb).1 ≡ true)
          × ((try_acquire x tb).0.last_refill ≡ x)
          × ((try_acquire x tb).0.refill_rate ≡ tb.refill_rate))
        at attempt in
    let v' = (try_acquire-Step now now tb (omega arith) hn v).valid in
    let rest = acquire_all-paced ts (try_acquire now tb).0 v' (rw (moved, same) later) in
    rw (got, rest) refl

-- `n` readings, each `d` nanoseconds after the one before.
abbrev pub paced : ℕ → Int64 → Int64 → List Int64
paced zero d t = []
paced (suc n) d t = (t + d) ∷ paced n d (t + d)

length-paced : (n : ℕ) (d t : Int64) → length (paced n d t) ≡ n
length-paced zero d t = refl
length-paced (suc n) d t = omega (arith, length-paced n d (t + d))

paced-IsPaced :
    (n : ℕ) (rate d t : Int64)
    → IsNonneg (t + n * d)
    → nanos_per_sec ≤ d * rate
    → d * rate < 2 ^ 63
    → IsPaced rate t (paced n d t)
paced-IsPaced zero rate d t hn enough small = tt
paced-IsPaced (suc n) rate d t hn enough small =
    let since : t + d - t ≡ d = omega arith in
    (
      omega arith,
      rw since enough,
      rw since small,
      omega arith,
      paced-IsPaced n rate d (t + d) (omega arith) enough small,
    )

-- Attempts at a fixed distance.
pub acquire_all-paced_evenly :
    (n : ℕ) (d : Int64) (tb : TokenBucket)
    → IsNonneg (tb.last_refill + n * d)
    → IsValid tb
    → nanos_per_sec ≤ d * tb.refill_rate
    → d * tb.refill_rate < 2 ^ 63
    → (acquire_all (paced n d tb.last_refill) tb).1 ≡ n
acquire_all-paced_evenly n d tb hn v enough small =
    acquire_all-paced (paced n d tb.last_refill) tb v
      (paced-IsPaced n tb.refill_rate d tb.last_refill hn enough small)
    ∙ length-paced n d tb.last_refill
