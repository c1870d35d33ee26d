-- ===== src/Examples/Lookups.antt =====
-- The setters of internal/connection/manager.go on a manager with two proxies.
use rapid_proxy.Prelude.{none, some, [], ◌∷◌, Map, Option}
use rapid_proxy.TokenBucket.{TokenBucket}

abbrev limiter : Option TokenBucket
limiter = some (record { capacity = 5; refill_rate = 5; tokens = 5; last_refill = 0 })

abbrev limiters : Map (Option TokenBucket)
limiters = ("http://c:8080", none) ∷ ("http://b:8080", limiter) ∷ []
