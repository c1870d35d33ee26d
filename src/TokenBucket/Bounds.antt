-- ===== src/TokenBucket/Bounds.antt =====
-- The bounds of a token bucket, over all its operations.
use rapid_proxy.Prelude.{
  ◌+◌, ◌*◌, ◌-◌, ◌^◌, ◌≤◌, ◌<◌, ◌≡◌, ap, ◌⊎◌, inl, inr, false, ℕ, arith, Int64, Bool-cases, List,
  [], ◌∷◌, All, sub64, le_zero64, IsNonneg, IsPositive, nanos_per_sec,
}
use rapid_proxy.TokenBucket.{
  TokenBucket, earned, new_token_bucket, maybe_refill, try_acquire, available, reset, set_capacity,
  set_refill_rate,
}

-- Far above any rate in use; `current + newTokens` stays below 2 ^ 63 with it.
abbrev pub max_capacity : Int64
max_capacity = 2 ^ 62

pub record IsValid (tb : TokenBucket) : Type 0 where
  pub capacity_positive : 0 < tb.capacity
  pub capacity_bounded : tb.capacity ≤ max_capacity
  pub rate_positive : IsPositive tb.refill_rate
  pub within : tb.tokens ≤ tb.capacity
  pub refilled : IsNonneg tb.last_refill

pub new_token_bucket-IsValid :
    (c r now : Int64)
    → c < 2 ^ 64
    → r < 2 ^ 64
    → IsNonneg now
    → (c ≤ max_capacity) ⊎ (2 ^ 63 ≤ c)
    → IsValid (new_token_bucket c r now)
unfolding new_token_bucket
new_token_bucket-IsValid c r now hc hr hn h = ground arith

-- A test that the clock has moved on makes the wrapped difference the true one.
pub elapsed_true :
    (now last : Int64)
    → IsNonneg now
    → IsNonneg last
    → le_zero64 (sub64 now last) ≡ false
    → (last < now) × (sub64 now last ≡ now - last)
elapsed_true now last hn hl h = ground arith

-- Tokens that count as positive are paid for by the product, also where it wraps.
pub earned-le :
    (e r : Int64)
    → le_zero64 (earned e r) ≡ false
    → (0 < earned e r) × (earned e r * nanos_per_sec ≤ e * r) × (earned e r < 2 ^ 34)
unfolding earned
earned-le e r h = ground arith

-- What a refill does: nothing, or it adds some tokens that the elapsed time has earned.
pub data Refill (now : Int64) (tb : TokenBucket) : TokenBucket → Type 0 where
  unchanged : Refill now tb tb
  refill :
      (n : ℕ) {t : Int64}
      → 0 < t
      → tb.last_refill < now
      → n * nanos_per_sec ≤ (now - tb.last_refill) * tb.refill_rate
      → t ≤ tb.capacity
      → tb.tokens ≤ t
      → t ≤ tb.tokens + n
      → Refill now tb (record tb { last_refill = now; tokens = t })

pub maybe_refill-Refill :
    (now : Int64) (tb : TokenBucket)
    → IsNonneg now
    → IsValid tb
    → Refill now tb (maybe_refill now tb)
unfolding maybe_refill
maybe_refill-Refill now tb hn v = elim (Bool-cases (le_zero64 (sub64 now tb.last_refill))) [
  | inl e ↦ rw (e, maybe_refill) unchanged
  | inr e ↦ elim (Bool-cases (le_zero64 (earned (sub64 now tb.last_refill) tb.refill_rate))) [
    | inl d ↦ rw (e, d, maybe_refill) unchanged
    | inr d ↦
        let (later, eq) = elapsed_true now tb.last_refill hn v.refilled e in
        let (pos, paid, small) = earned-le (sub64 now tb.last_refill) tb.refill_rate d in
        rw (e, d, maybe_refill)
          (refill (earned (sub64 now tb.last_refill) tb.refill_rate) (ground arith) later
            (omega (arith, paid, ap (λ (x : ℕ). x * tb.refill_rate) eq)) (ground arith)
            (ground arith) (ground arith))
  ]
]

-- The operations that change a bucket, as one type.
pub data Op : Type 0 where
  acquires fills resets : (now : Int64) → Op
  sets_capacity sets_rate : (value : Int64) → Op

pub apply : Op → TokenBucket → TokenBucket
apply (acquires now) tb = (try_acquire now tb).0
apply (fills now) tb = (available now tb).0
apply (resets now) tb = reset now tb
apply (sets_capacity c) tb = set_capacity c tb
apply (sets_rate r) tb = set_refill_rate r tb

-- Clock readings lie after the epoch, a new capacity is not absurd; any rate is allowed.
abbrev pub IsSane : Op → Type 0
IsSane (acquires now) = IsNonneg now
IsSane (fills now) = IsNonneg now
IsSane (resets now) = IsNonneg now
IsSane (sets_capacity c) = (c ≤ max_capacity) ⊎ (2 ^ 63 ≤ c)
IsSane (sets_rate r) = r < 2 ^ 64

Refill-IsValid :
    {now : Int64} {tb tb' : TokenBucket}
    → IsNonneg now
    → Refill now tb tb'
    → IsValid tb
    → IsValid tb'
Refill-IsValid hn unchanged v = v
Refill-IsValid hn (refill n pos later paid cap grows few) v = ground arith

pub maybe_refill-IsValid :
    (now : Int64) (tb : TokenBucket) → IsNonneg now → IsValid tb → IsValid (maybe_refill now tb)
maybe_refill-IsValid now tb hn v = Refill-IsValid hn (maybe_refill-Refill now tb hn v) v

pub apply-IsValid : (op : Op) (tb : TokenBucket) → IsSane op → IsValid tb → IsValid (apply op tb)
unfolding apply try_acquire available reset set_capacity set_refill_rate
apply-IsValid (acquires now) tb h v = ground (arith, maybe_refill-IsValid now tb h v)
apply-IsValid (fills now) tb h v = maybe_refill-IsValid now tb h v
apply-IsValid (resets now) tb h v = ground arith
apply-IsValid (sets_capacity c) tb h v = ground arith
apply-IsValid (sets_rate r) tb h v = ground arith

pub apply_all : List Op → TokenBucket → TokenBucket
apply_all [] tb = tb
apply_all (op ∷ ops) tb = apply_all ops (apply op tb)

-- A valid bucket is valid after any sane operations in any order: its tokens are at most its
-- capacity, which stays positive and at most 2 ^ 62, as does its rate stay positive.
pub apply_all-IsValid :
    (ops : List Op) (tb : TokenBucket) → All IsSane ops → IsValid tb → IsValid (apply_all ops tb)
unfolding apply_all
apply_all-IsValid [] tb h v = v
apply_all-IsValid (op ∷ ops) tb h v =
    apply_all-IsValid ops (apply op tb) h.1 (apply-IsValid op tb h.0 v)
