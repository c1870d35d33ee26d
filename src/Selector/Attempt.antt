-- ===== src/Selector/Attempt.antt =====
-- One round of the selection loop.
use mathlib.Core.Option
use rapid_proxy.Prelude.{
  ◌≡◌, arith, Bool, true, false, ◌&&◌, Option, none, some, Int64, Clock, if◌then◌else◌,
  Option-cases, inl, inr,
}
use rapid_proxy.Client.{ProxyClient, try_acquire_concurrency, release_concurrency}
use rapid_proxy.Client.Interfaces.{RateLimiter, CircuitBreaker}
use rapid_proxy.Client.Slots.{has_slot}
use rapid_proxy.Selector.{try_client, breaker_passes, Verdict, take, skip}

module _ {L B E : Type 0} (lim : RateLimiter L E) (brk : CircuitBreaker B E) where
  abbrev pub limiter_grants : Int64 → Option L → Bool
  limiter_grants now none = true
  limiter_grants now (some l) = (lim.try_acquire now l).1

  -- A healthy proxy with a free slot and a token.
  abbrev pub is_available : Clock → ProxyClient L B E → Bool
  is_available t c =
      breaker_passes lim brk (t 0) c
      && (has_slot c.concurrency_sem && limiter_grants (t 1) c.rate_limiter)

  pub record Attempted (c c' : ProxyClient L B E) (v : Verdict) (available : Bool) : Type 0 where
    pub verdict : v ≡ (if available then take else skip)
    pub same_url : c'.proxy_url ≡ c.proxy_url
    pub same_domains : c'.domain_limiter ≡ c.domain_limiter
    pub same_breaker : c'.circuit_breaker ≡ c.circuit_breaker
    pub refused : available ≡ false → c'.concurrency_sem ≡ c.concurrency_sem
    pub held :
        available ≡ true
        → Option.map (λ d. d.concurrency_sem) (release_concurrency c') ≡ some c.concurrency_sem

  pub try_client-Attempted :
      (t : Clock) (c : ProxyClient L B E)
      → Attempted c (try_client lim brk t c).0 (try_client lim brk t c).1 (is_available t c)
  unfolding try_client breaker_passes try_acquire_concurrency release_concurrency
  try_client-Attempted t c = elim (Option-cases c.concurrency_sem) [
    | inl e ↦ elim (Option-cases c.rate_limiter) [
      | inl d ↦ ground arith
      | inr (l, d) ↦ ground arith
    ]
    | inr (sem, e) ↦ elim (Option-cases c.rate_limiter) [
      | inl d ↦ ground arith
      | inr (l, d) ↦ ground arith
    ]
  ]
