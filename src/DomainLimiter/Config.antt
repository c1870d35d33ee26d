-- ===== src/DomainLimiter/Config.antt =====
-- What limits a configuration turns into.
use Prim.Native.String.{String}
use text.Mathlib.TextEquality.{eq_iff}
use rapid_proxy.Prelude.{
  ℕ, ◌+◌, ◌*◌, ◌^◌, ◌≤◌, ◌<◌, ◌≡◌, refl, subst, Option, none, some, [], ◌∷◌, Int64, Clock, IsNonneg,
  IsPositive, ◌⊎◌, mul64, le_zero64, if◌then◌else◌, Map, lookup, insert, lookup-insert, arith,
  nanos_per_sec, All,
}
use rapid_proxy.TokenBucket.{TokenBucket, new_token_bucket}
use rapid_proxy.TokenBucket.Bounds.{IsValid}
use rapid_proxy.TokenBucket.Rate.{acquire_all, paced, acquire_all-paced_evenly}
use rapid_proxy.DomainLimiter.{add_limiters, new_domain_limiter, get_limiter}

-- No key twice, as in a Go map.
abbrev pub NoRepeat : Map Int64 → Type 0
NoRepeat [] = Unit {0}
NoRepeat ((d, rps) ∷ rest) = (lookup d rest ≡ none) × NoRepeat rest

-- Capacity, refill rate and tokens.
abbrev pub shape : Option TokenBucket → Option (Int64 × Int64 × Int64)
shape none = none
shape (some tb) = some (tb.capacity, tb.refill_rate, tb.tokens)

-- A positive limit: that many tokens, refilled at twice the limit. Any other: none.
abbrev pub limited : Option Int64 → Option (Int64 × Int64 × Int64)
limited none = none
limited (some rps) = if le_zero64 rps then none else some (rps, mul64 rps 2, rps)

-- The buckets that are not configured now are those that were there before.
add_limiters_other :
    (limits : Map Int64) (t : Clock) (made : Map TokenBucket) (domain : String)
    → lookup domain limits ≡ none
    → lookup domain (add_limiters limits t made) ≡ lookup domain made
unfolding add_limiters lookup
add_limiters_other [] t made domain h = refl
add_limiters_other ((d, rps) ∷ rest) t made domain h = ground (
  arith,
  add_limiters_other rest (λ (k : ℕ). t (k + 1))
      (if le_zero64 rps then made else insert d (new_token_bucket rps (mul64 rps 2) (t 0)) made)
      domain,
  lookup-insert d domain (new_token_bucket rps (mul64 rps 2) (t 0)) made,
)

new-shape :
    (rps : Int64) (now : Int64)
    → IsPositive rps
    → rps < 2 ^ 62
    → shape (some (new_token_bucket rps (mul64 rps 2) now)) ≡ some (rps, mul64 rps 2, rps)
unfolding new_token_bucket
new-shape rps now p h = ground arith

-- Every configured limit is below 2 ^ 62, so that twice the limit is an int64.
abbrev pub AreSmall : Map Int64 → Type 0
AreSmall = All (λ e. (e.1 < 2 ^ 62) ⊎ (2 ^ 63 ≤ e.1))

add_limiters-shape :
    (limits : Map Int64) (t : Clock) (made : Map TokenBucket) (domain : String)
    → NoRepeat limits
    → AreSmall limits
    → lookup domain made ≡ none
    → shape (lookup domain (add_limiters limits t made)) ≡ limited (lookup domain limits)
unfolding add_limiters lookup
add_limiters-shape [] t made domain u s e = rw e
add_limiters-shape ((d, rps) ∷ rest) t made domain u s e =
    let made' : Map TokenBucket =
      if le_zero64 rps then made else insert d (new_token_bucket rps (mul64 rps 2) (t 0)) made in
    ground (
      arith,
      eq_iff d domain,
      new-shape rps (t 0),
      add_limiters_other rest (λ (k : ℕ). t (k + 1)) made' domain,
      add_limiters-shape rest (λ (k : ℕ). t (k + 1)) made' domain u.1 s.1,
      lookup-insert d domain (new_token_bucket rps (mul64 rps 2) (t 0)) made,
    )

-- For limits with no domain twice, below 2 ^ 62 or negative: each domain with a positive limit
-- gets a full bucket of that many tokens, refilled at twice the limit a second; every other domain
-- has none.
pub new_domain_limiter-shape :
    (limits : Map Int64) (t : Clock) (domain : String)
    → NoRepeat limits
    → AreSmall limits
    → shape (get_limiter (new_domain_limiter limits t) domain) ≡ limited (lookup domain limits)
unfolding new_domain_limiter get_limiter lookup
new_domain_limiter-shape [] t domain u s = refl
new_domain_limiter-shape (limit ∷ rest) t domain u s =
    add_limiters-shape (limit ∷ rest) t [] domain u s refl

new-facts :
    (rps : Int64) (now : Int64)
    → 0 < rps
    → rps < 2 ^ 61
    → IsNonneg now
    → IsValid (new_token_bucket rps (mul64 rps 2) now)
      × ((new_token_bucket rps (mul64 rps 2) now).refill_rate ≡ 2 * rps)
      × ((new_token_bucket rps (mul64 rps 2) now).last_refill ≡ now)
unfolding new_token_bucket
new-facts rps now pos small hn = ground arith

-- Where one domain has the limit `rps`, positive and below 2 ^ 61, the bucket made for it grants
-- `n` attempts in a row that are each `d` nanoseconds apart, if `d` is long enough for one token
-- at twice the limit; all times lie after the epoch, and the product is below 2 ^ 63.
pub limit_doubled :
    (domain : String) (rps d : Int64) (n : ℕ) (t : Clock) (tb : TokenBucket)
    → 0 < rps
    → rps < 2 ^ 61
    → IsNonneg (t 0 + n * d)
    → get_limiter (new_domain_limiter ((domain, rps) ∷ []) t) domain ≡ some tb
    → nanos_per_sec ≤ d * (2 * rps)
    → d * (2 * rps) < 2 ^ 63
    → (acquire_all (paced n d (t 0)) tb).1 ≡ n
unfolding new_domain_limiter get_limiter add_limiters lookup insert
limit_doubled domain rps d n t tb pos small hn e enough fits =
    let made : tb ≡ new_token_bucket rps (mul64 rps 2) (t 0) =
      ground (arith, eq_iff domain domain) in
    let (valid, rate, last) = new-facts rps (t 0) pos small (omega arith) in
    rw made (
      subst (λ x. (acquire_all (paced n d x) (new_token_bucket rps (mul64 rps 2) (t 0))).1 ≡ n) last
        (acquire_all-paced_evenly n d (new_token_bucket rps (mul64 rps 2) (t 0)) (rw last hn) valid
          (rw rate enough) (rw rate fits)))
