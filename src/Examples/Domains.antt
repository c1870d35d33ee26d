-- ===== src/Examples/Domains.antt =====
-- Domain limits of internal/ratelimit/domain_limiter.go at concrete values.
use rapid_proxy.Prelude.{
  ◌+◌, ◌≡◌, refl, arith, Option, some, [], ◌∷◌, Int64, Clock, Map, lookup, insert, nanos_per_sec,
  inl,
}
use rapid_proxy.TokenBucket.{new_token_bucket}
use rapid_proxy.TokenBucket.Rate.{acquire_all, paced}
use rapid_proxy.DomainLimiter.{DomainLimiter, add_limiters, new_domain_limiter, get_limiter}
use rapid_proxy.DomainLimiter.Config.{NoRepeat, AreSmall, limit_doubled}

abbrev limits : Map Int64
limits = ("example.com", 5) ∷ ("example.org", 0) ∷ []

abbrev clock : Clock
clock k = nanos_per_sec + k

limits-NoRepeat : NoRepeat limits
unfolding lookup
limits-NoRepeat = (refl, (refl, tt))

limits-AreSmall : AreSmall limits
limits-AreSmall = (inl (omega arith), (inl (omega arith), tt))

abbrev one_limit : Option DomainLimiter
one_limit = new_domain_limiter (("example.com", 5) ∷ []) clock

made : get_limiter one_limit "example.com" ≡ some (new_token_bucket 5 10 (clock 0))
unfolding new_domain_limiter get_limiter add_limiters lookup insert
made = refl

limit_doubled_example :
    (acquire_all (paced 20 100000000 (clock 0)) (new_token_bucket 5 10 (clock 0))).1 ≡ 20
limit_doubled_example =
    limit_doubled "example.com" 5 100000000 20 clock (new_token_bucket 5 10 (clock 0)) (omega arith)
      (omega arith) (omega arith) made (omega arith) (omega arith)
