-- ===== src/TokenBucket/Race/Bounds.antt =====
-- What one step of one call does to the bucket, and what the locals of the calls say.
use rapid_proxy.Prelude.{
  ℕ, ◌+◌, ◌*◌, ◌^◌, ◌≤◌, ◌<◌, ◌≡◌, ap, true, false, Int64, arith, sub64, le_zero64, IsNonneg,
  nanos_per_sec,
}
use rapid_proxy.TokenBucket.{TokenBucket, earned}
use rapid_proxy.TokenBucket.Bounds.{IsValid, elapsed_true, earned-le}
use rapid_proxy.TokenBucket.Rate.{sub-mul}
use rapid_proxy.TokenBucket.Race.{
  Pc, idle, clock_read, last_read, adding, add_cas, taking, take_cas, returned, move,
}

-- The tokens that a call has minted and not yet added, or has taken.
abbrev pub weight : Pc → ℕ
weight (adding n) = n
weight (add_cas n _) = n
weight (returned true) = 1
weight _ = 0

abbrev pub IsFresh : Pc → Type 0
IsFresh (clock_read now) = IsNonneg now
IsFresh (last_read now last) = IsNonneg now × IsNonneg last
IsFresh (adding n) = n < 2 ^ 34
IsFresh (add_cas n _) = n < 2 ^ 34
IsFresh (take_cas current) = (0 < current) × IsNonneg current
IsFresh _ = Unit {0}

-- One step on the balance sheet, in units of 10^-9 token.
pub record Moves (tb : TokenBucket) (p : Pc) (tb' : TokenBucket) (p' : Pc) : Type 0 where
  pub valid : IsValid tb'
  pub local_facts : IsFresh p'
  pub same_rate : tb'.refill_rate ≡ tb.refill_rate
  pub same_capacity : tb'.capacity ≡ tb.capacity
  pub balance :
      (tb'.tokens + weight p') * nanos_per_sec + tb.last_refill * tb.refill_rate
      ≤ (tb.tokens + weight p) * nanos_per_sec + tb'.last_refill * tb.refill_rate

-- A swap of `lastRefill` from `last` to `now` pays for the tokens that it mints.
minted :
    (now last r : Int64)
    → IsNonneg now
    → IsNonneg last
    → le_zero64 (sub64 now last) ≡ false
    → le_zero64 (earned (sub64 now last) r) ≡ false
    → (earned (sub64 now last) r * nanos_per_sec + last * r ≤ now * r)
      × (earned (sub64 now last) r < 2 ^ 34)
minted now last r hn hl h k =
    let (later, eq) = elapsed_true now last hn hl h in
    let (pos, paid, small) = earned-le (sub64 now last) r k in
    (omega (arith, paid, ap (λ (x : ℕ). x * r) eq, sub-mul now last r (omega arith)), small)

module _ (clock : Int64) (tb : TokenBucket) (hc : IsNonneg clock) (v : IsValid tb) where
  pub move-Moves : (p : Pc) → IsFresh p → Moves tb p (move clock tb p).0 (move clock tb p).1
  unfolding move
  move-Moves idle f = ground arith
  move-Moves (clock_read now) f = ground arith
  move-Moves (last_read now last) f = ground (arith, minted now last tb.refill_rate f.0 f.1)
  move-Moves (adding n) f = ground arith
  move-Moves (add_cas n current) f = ground arith
  move-Moves taking f = ground arith
  move-Moves (take_cas current) f = ground arith
  move-Moves (returned true) f = ground arith
  move-Moves (returned false) f = ground arith
