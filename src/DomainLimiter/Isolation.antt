-- ===== src/DomainLimiter/Isolation.antt =====
-- What an attempt for one domain does to the buckets of all domains.
use Prim.Native.String.{String}
use text.Mathlib.Text.{◌==◌ as str_eq}
use text.Mathlib.TextEquality.{eq_iff}
use rapid_proxy.Prelude.{
  ◌≡◌, refl, Bool, true, false, ◌||◌, Option, none, some, List, [], ◌∷◌, Int64, if◌then◌else◌, Map,
  lookup, lookup-insert, keys, arith, Option-cases, inl, inr,
}
use rapid_proxy.TokenBucket
use rapid_proxy.TokenBucket.{TokenBucket}
use rapid_proxy.DomainLimiter.{DomainLimiter, get_limiter, has_limit, get_domains, try_acquire}

-- What the bucket of the asked domain says; a domain with no bucket is let through.
abbrev pub answer : Int64 → Option TokenBucket → Bool
answer now none = true
answer now (some tb) = (TokenBucket.try_acquire now tb).1

abbrev pub charged : Int64 → Option TokenBucket → Option TokenBucket
charged now none = none
charged now (some tb) = some (TokenBucket.try_acquire now tb).0

-- An attempt answers as the bucket of its domain does, charges that bucket and no other.
pub try_acquire_lem :
    (now : Int64) (dl : Option DomainLimiter) (domain other : String)
    → ((try_acquire now dl domain).1 ≡ answer now (get_limiter dl domain))
      × (get_limiter (try_acquire now dl domain).0 other ≡ (
          if str_eq domain other then charged now (get_limiter dl other) else get_limiter dl other))
unfolding try_acquire get_limiter
try_acquire_lem now none domain other = ground arith
try_acquire_lem now (some dl) domain other = elim (Option-cases (lookup domain dl.limiters)) [
  | inl e ↦ ground (arith, eq_iff domain other)
  | inr (tb, e) ↦ ground (
    arith,
    eq_iff domain other,
    lookup-insert domain other (TokenBucket.try_acquire now tb).0 dl.limiters,
  )
]

pub member : String → List String → Bool
member d [] = false
member d (x ∷ xs) = str_eq x d || member d xs

has_limit-keys :
    (domain : String) (m : Map TokenBucket)
    → has_limit (some (record { limiters = m })) domain ≡ member domain (keys m)
unfolding has_limit member lookup
has_limit-keys domain [] = refl
has_limit-keys domain ((k, tb) ∷ m) = ground (arith, has_limit-keys domain m)

-- `GetDomains` lists exactly the domains that have a limit.
pub has_limit-get_domains :
    (dl : Option DomainLimiter) (domain : String)
    → has_limit dl domain ≡ member domain (get_domains dl)
unfolding has_limit get_domains member
has_limit-get_domains none domain = refl
has_limit-get_domains (some dl) domain = has_limit-keys domain dl.limiters
