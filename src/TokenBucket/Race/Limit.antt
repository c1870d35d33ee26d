-- ===== src/TokenBucket/Race/Limit.antt =====
-- The rate limit and the bounds under every interleaving.
use rapid_proxy.Prelude.{
  ℕ, zero, suc, ◌+◌, ◌*◌, ◌≤◌, ◌≡◌, refl, ap, subst, ◌∙◌, true, some, List, [], ◌∷◌, All, Int64,
  arith, IsNonneg, nanos_per_sec, set, get_elem?, Option-cases, inl, inr,
}
use rapid_proxy.TokenBucket.{TokenBucket}
use rapid_proxy.TokenBucket.Bounds.{IsValid}
use rapid_proxy.TokenBucket.Race.{Pc, returned, move, System, step, run, idle_calls, start}
use rapid_proxy.TokenBucket.Race.Bounds.{weight, IsFresh, move-Moves}

-- The weight of all calls.
pub total : List Pc → ℕ
total [] = 0
total (p ∷ ps) = weight p + total ps

-- How many calls have returned with a token.
pub granted : List Pc → ℕ
granted [] = 0
granted (returned true ∷ ps) = suc (granted ps)
granted (_ ∷ ps) = granted ps

granted-le-total : (ps : List Pc) → granted ps ≤ total ps
unfolding granted total
granted-le-total [] = omega arith
granted-le-total (returned true ∷ ps) = omega (arith, granted-le-total ps)
granted-le-total (p ∷ ps) = omega (arith, granted-le-total ps)

total-set :
    (ps : List Pc) (i : ℕ) (p p' : Pc)
    → get_elem? ps i ≡ some p
    → total (set ps i p') + weight p ≡ total ps + weight p'
unfolding total
total-set [] i p p' e = cc
total-set (q ∷ ps) zero p p' e = ground arith
total-set (q ∷ ps) (suc i) p p' e = omega (arith, total-set ps i p p' e)

All-set : (ps : List Pc) (i : ℕ) (p' : Pc) → IsFresh p' → All IsFresh ps → All IsFresh (set ps i p')
All-set [] i p' f h = tt
All-set (q ∷ ps) zero p' f h = (f, h.1)
All-set (q ∷ ps) (suc i) p' f h = (h.0, All-set ps i p' f h.1)

All-get : (ps : List Pc) (i : ℕ) (p : Pc) → All IsFresh ps → get_elem? ps i ≡ some p → IsFresh p
All-get [] i p h e = cc
All-get (q ∷ ps) zero p h e = subst IsFresh (cc) h.0
All-get (q ∷ ps) (suc i) p h e = All-get ps i p h.1 e

-- Between steps: the bucket is valid, the locals of each call are in range, and all tokens held,
-- taken or on their way since the bucket was `tb` are paid for by elapsed time.
pub record Inv (tb : TokenBucket) (s : System) : Type 0 where
  pub valid : IsValid s.bucket
  pub locals : All IsFresh s.calls
  pub same_rate : s.bucket.refill_rate ≡ tb.refill_rate
  pub balance :
      (s.bucket.tokens + total s.calls) * nanos_per_sec + tb.last_refill * tb.refill_rate
      ≤ tb.tokens * nanos_per_sec + s.bucket.last_refill * tb.refill_rate

pub step-Inv :
    (tb : TokenBucket) (x : ℕ × Int64) (s : System) → IsNonneg x.1 → Inv tb s → Inv tb (step x s)
unfolding step
step-Inv tb (i, clock) s hc v = elim (Option-cases (get_elem? s.calls i)) [
  | inl e ↦ rw (e, step) v
  | inr (p, e) ↦
      let m = move-Moves clock s.bucket hc v.valid p (All-get s.calls i p v.locals e) in
      rw (e, step)
        (record {
          valid = m.valid;
          locals = All-set s.calls i _ m.local_facts v.locals;
          same_rate = m.same_rate ∙ v.same_rate;
          balance = omega (
            arith,
            m.balance,
            v.balance,
            total-set s.calls i p (move clock s.bucket p).1 e,
            ap (λ (r : ℕ). s.bucket.last_refill * r) v.same_rate,
            ap (λ (r : ℕ). (move clock s.bucket p).0.last_refill * r) v.same_rate,
          );
        })
]

pub run-Inv :
    (tb : TokenBucket) (xs : List (ℕ × Int64)) (s : System)
    → All (λ x. IsNonneg x.1) xs
    → Inv tb s
    → Inv tb (run xs s)
unfolding run
run-Inv tb [] s h v = v
run-Inv tb (x ∷ xs) s h v = run-Inv tb xs (step x s) h.1 (step-Inv tb x s h.0 v)

total-idle_calls : (n : ℕ) → total (idle_calls n) ≡ 0
unfolding total
total-idle_calls zero = refl
total-idle_calls (suc n) = omega (arith, total-idle_calls n)

IsFresh-idle_calls : (n : ℕ) → All IsFresh (idle_calls n)
IsFresh-idle_calls zero = tt
IsFresh-idle_calls (suc n) = (tt, IsFresh-idle_calls n)

start-Inv : (n : ℕ) (tb : TokenBucket) → IsValid tb → Inv tb (start n tb)
start-Inv n tb v = record {
  valid = v;
  locals = IsFresh-idle_calls n;
  same_rate = refl;
  balance = omega (arith, total-idle_calls n);
}

-- From a valid bucket and `n` idle calls of `TryAcquire`, no schedule whose clock readings lie
-- after the epoch brings the tokens above the capacity, or grants more tokens than the bucket held
-- and the rate has added up to the last refill.
pub run_limit :
    (n : ℕ) (xs : List (ℕ × Int64)) (tb : TokenBucket)
    → All (λ x. IsNonneg x.1) xs
    → IsValid tb
    → let s = run xs (start n tb) in
      (s.bucket.tokens ≤ s.bucket.capacity)
      × (granted s.calls * nanos_per_sec + tb.last_refill * tb.refill_rate
          ≤ tb.tokens * nanos_per_sec + s.bucket.last_refill * tb.refill_rate)
run_limit n xs tb h v =
    let inv = run-Inv tb xs (start n tb) h (start-Inv n tb v) in
    (inv.valid.within, omega (arith, inv.balance, granted-le-total (run xs (start n tb)).calls))
