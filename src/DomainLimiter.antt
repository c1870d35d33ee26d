-- ===== src/DomainLimiter.antt =====
-- internal/ratelimit/domain_limiter.go. A nil `*DomainLimiter` is `none`; Go's map is an association
-- list, and its iteration order that of the list.
pub mod Config
pub mod Isolation
use Prim.Native.String.{String}
use rapid_proxy.Prelude.{
  Bool, true, false, Option, none, some, List, [], ◌∷◌, Int64, Clock, mul64, le_zero64,
  if◌then◌else◌, Map, lookup, insert, keys, ◌+◌,
}
use rapid_proxy.TokenBucket.{TokenBucket, new_token_bucket, Wake, Acquired, acquired}
use rapid_proxy.TokenBucket

pub record DomainLimiter : Type 0 where
  pub limiters : Map TokenBucket

-- The loop of `NewDomainLimiter`; the k-th bucket reads the clock at `t k`.
unfoldable pub add_limiters : Map Int64 → Clock → Map TokenBucket → Map TokenBucket
add_limiters [] t made = made
add_limiters ((domain, rps) ∷ rest) t made =
    add_limiters rest (λ k. t (k + 1))
      (if le_zero64 rps
        then made
        else insert domain (new_token_bucket rps (mul64 rps 2) (t 0)) made)

unfoldable pub new_domain_limiter : Map Int64 → Clock → Option DomainLimiter
new_domain_limiter [] t = none
new_domain_limiter (limit ∷ rest) t = some (record { limiters = add_limiters (limit ∷ rest) t [] })

unfoldable pub get_limiter : Option DomainLimiter → String → Option TokenBucket
get_limiter none domain = none
get_limiter (some dl) domain = lookup domain dl.limiters

unfoldable pub has_limit : Option DomainLimiter → String → Bool
has_limit none domain = false
has_limit (some dl) domain = elim (lookup domain dl.limiters) [ none ↦ false | some tb ↦ true ]

unfoldable pub get_domains : Option DomainLimiter → List String
get_domains none = []
get_domains (some dl) = keys dl.limiters

-- The bucket is shared by pointer: a change of it is a write to its entry.
put_back : {A : Type 0} → String → DomainLimiter → TokenBucket × A → Option DomainLimiter × A
put_back domain dl (tb, a) = (some (record { limiters = insert domain tb dl.limiters }), a)

unfoldable pub try_acquire : Int64 → Option DomainLimiter → String → Option DomainLimiter × Bool
unfolding put_back
try_acquire now none domain = (none, true)
try_acquire now (some dl) domain = elim (lookup domain dl.limiters) [
  | none ↦ (some dl, true)
  | some tb ↦ put_back domain dl (TokenBucket.try_acquire now tb)
]

unfoldable pub acquire :
    {E : Type 0}
    → List (Int64 × Wake E)
    → Option DomainLimiter
    → String
    → Option DomainLimiter × Acquired E
unfolding put_back
acquire ws none domain = (none, acquired)
acquire ws (some dl) domain = elim (lookup domain dl.limiters) [
  | none ↦ (some dl, acquired)
  | some tb ↦ put_back domain dl (TokenBucket.acquire ws tb)
]
