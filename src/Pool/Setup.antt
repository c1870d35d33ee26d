-- ===== src/Pool/Setup.antt =====
-- The clients of a pool that `New` of rapidproxy/pool.go has built.
use Prim.Native.String.{String}
use rapid_proxy.Prelude.{
  ℕ, zero, suc, ◌+◌, ◌≤◌, ◌≡◌, refl, ap, ◌∙◌, arith, ◌^◌, true, Option, none, some, List, [], ◌∷◌,
  Int64, Clock, IsNonneg, IsPositive, length, get_elem?, ltb64, ◌==◌, Bool-cases, inl, inr,
}
use rapid_proxy.Floats.{Float64}
use rapid_proxy.TokenBucket.{TokenBucket, new_token_bucket, try_acquire, take_token}
use rapid_proxy.TokenBucket.Bounds.{
  Refill, unchanged, refill, maybe_refill-Refill, new_token_bucket-IsValid,
}
use rapid_proxy.CircuitBreaker.{CircuitBreaker, new_circuit_breaker, is_healthy}
use rapid_proxy.Client.{
  set_rate_limiter, set_circuit_breaker, set_concurrency_semaphore, set_domain_limiter,
}
use rapid_proxy.DomainLimiter.{new_domain_limiter}
use rapid_proxy.Client.Slots.{has_slot}
use rapid_proxy.Selector.{breaker_passes}
use rapid_proxy.Selector.Attempt.{is_available}
use rapid_proxy.Pool.{
  Pool, pool, new, checked, connect, assemble, manager_config, Client, for_each, set_up,
  set_limiters, set_breakers, set_semaphores, set_domain_limiters, token_bucket_limiter,
  health_breaker, breaker_config,
}
use rapid_proxy.Config.{Config, ConfigError, apply_defaults}
use rapid_proxy.Config.Validity.{InRange, validated_defaults, validate_sound}
use rapid_proxy.Manager.{Made, Manager, new_manager}
use rapid_proxy.Manager.Clients.{new_manager-free}
use rapid_proxy.Selector.{RoundRobinSelector}

get_elem?-for_each :
    {C : Type 0} (f : ℕ → C → C) (j : ℕ) (cs : List C) (k : ℕ) (c' : C)
    → get_elem? (for_each f j cs) k ≡ some c'
    → (c : C) × (get_elem? cs k ≡ some c) × (c' ≡ f (j + k) c)
unfolding for_each
get_elem?-for_each f j [] k c' e = cc
get_elem?-for_each f j (c ∷ cs) zero c' e = (c, refl, ground arith)
get_elem?-for_each f j (c ∷ cs) (suc k) c' e =
    let (d, g, same) = get_elem?-for_each f (suc j) cs k c' e in
    (d, g, same ∙ ap (λ (i : ℕ). f i d) (omega arith))

get_elem?-for_each_all :
    {C : Type 0} (f : ℕ → C → C) (cs : List C) (k : ℕ) (c' : C)
    → get_elem? (for_each f 0 cs) k ≡ some c'
    → (c : C) × (get_elem? cs k ≡ some c) × (c' ≡ f k c)
get_elem?-for_each_all f cs k c' e =
    let (c, g, same) = get_elem?-for_each f 0 cs k c' e in
    (c, g, same ∙ ap (λ (i : ℕ). f i c) (omega arith))

full_grants :
    (r now now' : Int64)
    → IsPositive r
    → r ≤ 2 ^ 62
    → IsNonneg now
    → IsNonneg now'
    → (try_acquire now' (new_token_bucket r r now)).1 ≡ true
unfolding try_acquire new_token_bucket
full_grants r now now' hr hc hn hn' =
    let v = new_token_bucket-IsValid r r now (omega arith) (omega arith) hn (inl hc) in
    by_refill (maybe_refill-Refill now' (new_token_bucket r r now) hn' v)
  where
    by_refill :
        {tb : TokenBucket} → Refill now' (new_token_bucket r r now) tb → (take_token tb).1 ≡ true
    by_refill unchanged = ground arith
    by_refill (refill n p l q c t u) = ground arith

module _ {F E : Type 0} (fl : Float64 F) where
  -- A client that `set_up` leaves, with the client it was made from.
  record SetUp (config : Config F) (t : ℕ → ℕ → Clock) (k : ℕ) (c c' : Client F E) : Type 0 where
    same_url : c'.proxy_url ≡ c.proxy_url
    limiter :
        c'.rate_limiter
        ≡ some (new_token_bucket config.rate_limit_per_proxy config.rate_limit_per_proxy (t 0 k 0))
    breaker :
        c'.circuit_breaker ≡ some (new_circuit_breaker fl (some (breaker_config config)) (t 1 k))
    slot : has_slot c.concurrency_sem ≡ true → has_slot c'.concurrency_sem ≡ true

  -- What the two optional steps leave alone.
  record Same (c c' : Client F E) : Type 0 where
    url : c'.proxy_url ≡ c.proxy_url
    limiter : c'.rate_limiter ≡ c.rate_limiter
    breaker : c'.circuit_breaker ≡ c.circuit_breaker
    slot : has_slot c.concurrency_sem ≡ true → has_slot c'.concurrency_sem ≡ true

  set_semaphores-Same :
      (config : Config F) (cs : List (Client F E)) (k : ℕ) (c' : Client F E)
      → get_elem? (set_semaphores fl config cs) k ≡ some c'
      → (c : Client F E) × (get_elem? cs k ≡ some c) × Same c c'
  unfolding set_semaphores set_concurrency_semaphore
  set_semaphores-Same config cs k c' e =
      elim (Bool-cases (ltb64 0 config.max_concurrent_per_proxy)) [
        | inl b ↦
            let (c, g, same) =
              get_elem?-for_each_all
                (λ i. set_concurrency_semaphore config.max_concurrent_per_proxy) cs k c'
                (rw (b, set_semaphores) at e) in
            (c, g, rw same (ground arith))
        | inr b ↦ (
          c',
          rw (b, set_semaphores) at e,
          record { url = refl; limiter = refl; breaker = refl; slot = λ h. h },
        )
      ]

  set_domain_limiters-Same :
      (config : Config F) (t : ℕ → Clock) (cs : List (Client F E)) (k : ℕ) (c' : Client F E)
      → get_elem? (set_domain_limiters fl config t cs) k ≡ some c'
      → (c : Client F E) × (get_elem? cs k ≡ some c) × Same c c'
  unfolding set_domain_limiters set_domain_limiter
  set_domain_limiters-Same config t cs k c' e =
      elim (Bool-cases (length config.domain_rate_limits == 0)) [
        | inl b ↦ (
          c',
          rw (b, set_domain_limiters) at e,
          record { url = refl; limiter = refl; breaker = refl; slot = λ h. h },
        )
        | inr b ↦
            let (c, g, same) =
              get_elem?-for_each_all
                (λ i. set_domain_limiter (new_domain_limiter config.domain_rate_limits (t i))) cs k
                c' (rw (b, set_domain_limiters) at e) in
            (c, g, rw same (record { url = refl; limiter = refl; breaker = refl; slot = λ h. h }))
      ]

  set_up-SetUp :
      (config : Config F) (t : ℕ → ℕ → Clock) (cs : List (Client F E)) (k : ℕ) (c' : Client F E)
      → get_elem? (set_up fl config t cs) k ≡ some c'
      → (c : Client F E) × (get_elem? cs k ≡ some c) × SetUp config t k c c'
  unfolding set_up set_limiters set_breakers set_rate_limiter set_circuit_breaker
  set_up-SetUp config t cs k c' e =
      let (c3, g3, same3) = set_domain_limiters-Same config (t 2) _ k c' e in
      let (c2, g2, same2) = set_semaphores-Same config _ k c3 g3 in
      let (c1, g1, same1) = get_elem?-for_each_all _ _ k c2 g2 in
      let (c, g, same) = get_elem?-for_each_all _ cs k c1 g1 in
      (
        c,
        g,
        record {
          same_url =
              same3.url
              ∙ same2.url
              ∙ ap (λ (x : Client F E). x.proxy_url) same1
              ∙ ap (λ (x : Client F E). x.proxy_url) same;
          limiter =
              same3.limiter
              ∙ same2.limiter
              ∙ ap (λ (x : Client F E). x.rate_limiter) same1
              ∙ ap (λ (x : Client F E). x.rate_limiter) same;
          breaker =
              same3.breaker ∙ same2.breaker ∙ ap (λ (x : Client F E). x.circuit_breaker) same1;
          slot = λ h. same3.slot (same2.slot (rw (same1, same) h));
        },
      )

module _ {F E J : Type 0} (fl : Float64 F) where
  assemble-manager :
      (config : Config F) (m : Manager TokenBucket (CircuitBreaker F) E)
      (o : Option RoundRobinSelector) (now : Int64) (p : Pool F E J)
      → assemble fl config m o now ≡ pool p
      → p.manager ≡ m
  unfolding assemble
  assemble-manager config m none now p h = cc
  assemble-manager config m (some sel) now p h = cc

  connect-clients :
      (config : Config F) (t : ℕ → ℕ → Clock)
      (made : Made E (Manager TokenBucket (CircuitBreaker F) E)) (p : Pool F E J)
      → connect fl config t made ≡ pool p
      → (m : Manager TokenBucket (CircuitBreaker F) E) × (made ≡ Made.ok m)
        × (p.manager.clients ≡ set_up fl config t m.clients)
  unfolding connect
  connect-clients config t (Made.error e) p h = cc
  connect-clients config t (Made.ok m) p h = (
    m,
    refl,
    ap (λ (x : Manager TokenBucket (CircuitBreaker F) E). x.clients)
        (assemble-manager config _ _ (t 4 0 0) p h),
  )

  checked-clients :
      (parse : String → Option E) (t : ℕ → ℕ → Clock) (config : Config F) (o : Option ConfigError)
      (p : Pool F E J)
      → checked fl parse t config o ≡ pool p
      → let d = apply_defaults fl config in
        (m : Manager TokenBucket (CircuitBreaker F) E) × (o ≡ none)
        × (new_manager parse (manager_config d) (t 3 0) ≡ Made.ok m)
        × (p.manager.clients ≡ set_up fl d t m.clients)
  unfolding checked
  checked-clients parse t config (some e) p h = cc
  checked-clients parse t config none p h =
      let (m, made, same) = connect-clients (apply_defaults fl config) t _ p h in
      (m, refl, made, same)

  -- Every client of a pool that `New` has made from a configuration in range, with a rate limit of
  -- at most 2 ^ 62, passes the selector's checks at any reading of the clock after the epoch: its
  -- breaker is healthy, it has a free slot, and a token.
  pub new-available :
      (parse : String → Option E) (t : ℕ → ℕ → Clock) (config : Config F) (p : Pool F E J)
      (now : Clock) (k : ℕ) (c : Client F E)
      → InRange config
      → config.rate_limit_per_proxy ≤ 2 ^ 62
      → ((n i j : ℕ) → IsNonneg (t n i j))
      → IsNonneg (now 1)
      → new fl parse t (some config) ≡ pool p
      → get_elem? p.manager.clients k ≡ some c
      → is_available token_bucket_limiter (health_breaker fl) now c ≡ true
  unfolding new breaker_passes is_healthy new_circuit_breaker
  new-available parse t config p now k c range small clock hn h g =
      let (m, fine, made, same) = checked-clients parse t config _ p h in
      let (c0, g0, set) =
        set_up-SetUp fl (apply_defaults fl config) t m.clients k c (rw same at g) in
      let free = new_manager-free parse _ _ m made k c0 g0 in
      let valid = validate_sound fl config range fine in
      let kept = (validated_defaults fl config range fine).2 in
      let granted =
        full_grants config.rate_limit_per_proxy (t 0 k 0) (now 1) valid.rate_positive small
          (clock 0 k 0) hn in
      let slot = set.slot (rw free refl) in
      rw (slot, set.limiter, kept, granted, set.breaker, breaker_passes) refl
