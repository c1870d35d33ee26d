-- ===== src/TokenBucket/Blocking.antt =====
-- `Acquire`: the loop over `TryAcquire` with a wait between two attempts.
use rapid_proxy.Prelude.{
  ◌≡◌, refl, ◌≢◌, false, arith, Int64, Bool-cases, inl, inr, IsNonneg, List, [], ◌∷◌, All,
}
use rapid_proxy.TokenBucket.{TokenBucket, try_acquire, Wake, timer, ctx_done, acquired, acquire}
use rapid_proxy.TokenBucket.Bounds.{
  IsValid, Refill, unchanged, refill, maybe_refill-Refill, maybe_refill-IsValid,
}

Refill-tokens :
    {now : Int64} {tb tb' : TokenBucket}
    → Refill now tb tb'
    → IsValid tb
    → tb'.tokens ≡ 0
    → tb' ≡ tb
Refill-tokens unchanged v e = refl
Refill-tokens (refill n pos later paid cap grows few) v e = absurd (omega arith)

-- A refused attempt leaves the bucket as it was.
pub try_acquire_refused :
    (now : Int64) (tb : TokenBucket)
    → IsNonneg now
    → IsValid tb
    → (try_acquire now tb).1 ≡ false
    → (try_acquire now tb).0 ≡ tb
unfolding try_acquire
try_acquire_refused now tb hn v h =
    ground
      (arith, maybe_refill-IsValid now tb hn v, Refill-tokens (maybe_refill-Refill now tb hn v) v)

-- An `Acquire` on a valid bucket, at times after the epoch, that returns without a token or has
-- not returned leaves the bucket as it was.
pub acquire_refused :
    {E : Type 0} (ws : List (Int64 × Wake E)) (tb : TokenBucket)
    → All (λ w. IsNonneg w.0) ws
    → IsValid tb
    → (acquire ws tb).1 ≢ acquired
    → (acquire ws tb).0 ≡ tb
unfolding acquire
acquire_refused [] tb h v ne = refl
acquire_refused ((now, ctx_done e) ∷ rest) tb h v ne =
    ground (arith, try_acquire_refused now tb h.0 v)
acquire_refused ((now, timer) ∷ rest) tb h v ne = elim (Bool-cases (try_acquire now tb).1) [
  | inl got ↦ absurd (ne (rw got))
  | inr refused ↦
      let same = try_acquire_refused now tb h.0 v refused in
      rw (refused, same) (acquire_refused rest tb h.1 v (λ e. ne (rw (refused, same) e)))
]

abbrev pub timers : {E : Type 0} → List Int64 → List (Int64 × Wake E)
timers [] = []
timers (now ∷ ts) = (now, timer) ∷ timers ts
