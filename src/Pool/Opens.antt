-- ===== src/Pool/Opens.antt =====
-- When `New` of rapidproxy/pool.go succeeds.
use Prim.Native.String.{String}
use rapid_proxy.Prelude.{
  ℕ, suc, ◌+◌, ◌<◌, ◌≡◌, refl, ap, ◌∙◌, arith, false, Option, none, some, List, [], ◌∷◌, ◌++◌,
  Clock, length, insert, ltb64, ◌==◌, All, Bool-cases, inl, inr,
}
use rapid_proxy.Floats.{Float64}
use rapid_proxy.Transport.{new_transport}
use rapid_proxy.Client.{
  ProxyClient, set_rate_limiter, set_circuit_breaker, set_concurrency_semaphore, set_domain_limiter,
  new_proxy_client,
}
use rapid_proxy.Manager
use rapid_proxy.Manager.{Made, Manager, init_clients, new_manager}
use rapid_proxy.Manager.Clients.{urls, new_manager-urls}
use rapid_proxy.Selector.{RoundRobinSelector, new_round_robin_selector}
use rapid_proxy.Config.{Config, validate, apply_defaults}
use rapid_proxy.Config.Validity.{InRange, validate_sound, validated_defaults}
use rapid_proxy.Worker.Queue.{new_queue}
use rapid_proxy.Pool.{
  Pool, pool, new, checked, connect, assemble, manager_config, for_each, set_up, set_limiters,
  set_breakers, set_semaphores, set_domain_limiters, Client,
}

module _ {L B E : Type 0} where
  init_clients-ok :
      (parse : String → Option E) (us : List String) (t : Clock) (m : Manager L B E)
      → All (λ u. parse u ≡ none) us
      → (m' : Manager L B E) × (init_clients parse us t m ≡ Made.ok m')
  unfolding init_clients
  init_clients-ok parse [] t m h = (m, refl)
  init_clients-ok parse (u ∷ us) t m h =
      let first = record m {
        clients =
            m.clients
            ++ new_proxy_client u (some (new_transport u m.config.transport_config))
                m.config.request_timeout (t 0)
              ∷ [];
        clients_map = insert u (length m.clients) m.clients_map;
      } in
      let (m', e) = init_clients-ok parse us (λ k. t (k + 1)) first h.1 in
      (m', rw (h.0, init_clients) e)

urls-for_each :
    {L B E : Type 0} (f : ℕ → ProxyClient L B E → ProxyClient L B E) (k : ℕ)
    (cs : List (ProxyClient L B E))
    → ((i : ℕ) (c : ProxyClient L B E) → (f i c).proxy_url ≡ c.proxy_url)
    → urls (for_each f k cs) ≡ urls cs
unfolding for_each
urls-for_each f k [] h = refl
urls-for_each f k (c ∷ cs) h =
    let others = urls-for_each f (suc k) cs h in
    rw (h k c) (ap (λ (us : List String). c.proxy_url ∷ us) others)

module _ {L B E : Type 0} where
  new_manager-ok :
      (parse : String → Option E) (config : Manager.Config) (t : Clock)
      → 0 < length config.proxy_urls
      → All (λ u. parse u ≡ none) config.proxy_urls
      → (m : Manager L B E) × (new_manager parse config t ≡ Made.ok m)
  unfolding new_manager
  new_manager-ok parse config t h all =
      let (m, e) =
        init_clients-ok parse config.proxy_urls t
          (record { config = config; clients = []; clients_map = [] }) all in
      (m, rw (positive, new_manager) e)
    where
      positive : (length config.proxy_urls == 0) ≡ false
      positive = ground arith

module _ {F E : Type 0} (fl : Float64 F) where
  set_semaphores-urls :
      (config : Config F) (cs : List (Client F E)) → urls (set_semaphores fl config cs) ≡ urls cs
  unfolding set_semaphores set_concurrency_semaphore
  set_semaphores-urls config cs = elim (Bool-cases (ltb64 0 config.max_concurrent_per_proxy)) [
    | inl b ↦ rw (b, set_semaphores) (urls-for_each _ 0 cs (λ i c. ground arith))
    | inr b ↦ rw (b, set_semaphores) refl
  ]

  set_domain_limiters-urls :
      (config : Config F) (t : ℕ → Clock) (cs : List (Client F E))
      → urls (set_domain_limiters fl config t cs) ≡ urls cs
  unfolding set_domain_limiters set_domain_limiter
  set_domain_limiters-urls config t cs = elim (Bool-cases (length config.domain_rate_limits == 0)) [
    | inl b ↦ rw (b, set_domain_limiters) refl
    | inr b ↦ rw (b, set_domain_limiters) (urls-for_each _ 0 cs (λ i c. refl))
  ]

  set_up-urls :
      (config : Config F) (t : ℕ → ℕ → Clock) (cs : List (Client F E))
      → urls (set_up fl config t cs) ≡ urls cs
  unfolding set_up set_limiters set_breakers set_rate_limiter set_circuit_breaker
  set_up-urls config t cs =
      set_domain_limiters-urls config (t 2) _
      ∙ set_semaphores-urls config _
      ∙ urls-for_each _ 0 _ (λ i c. refl)
      ∙ urls-for_each _ 0 cs (λ i c. refl)

module _ {F E : Type 0} where
  length-urls : (cs : List (Client F E)) → length (urls cs) ≡ length cs
  length-urls [] = refl
  length-urls (c ∷ cs) = ap suc (length-urls cs)

  some_selector :
      (cs : List (Client F E)) (us : List String)
      → urls cs ≡ us
      → 0 < length us
      → (s : RoundRobinSelector) × (new_round_robin_selector cs
            (some (record { max_retries = length cs }))
          ≡ some s)
        × (s.max_retries ≡ length us)
  unfolding new_round_robin_selector
  some_selector [] us e h = absurd (ground arith)
  some_selector (c ∷ cs) us e h = (_, refl, ground (arith, length-urls (c ∷ cs)))

module _ {F E J : Type 0} (fl : Float64 F) where
  -- `New` succeeds for a configuration in range that `Validate` accepts and whose proxy URLs all
  -- parse: it makes one client for each URL, in their order, an empty open queue of the configured
  -- size, and a selector with one round for each URL.
  pub new-opens :
      (parse : String → Option E) (t : ℕ → ℕ → Clock) (config : Config F)
      → InRange config
      → validate fl config ≡ none
      → All (λ u. parse u ≡ none) config.proxy_urls
      → (p : Pool F E J) × (new fl parse t (some config) ≡ pool p)
        × (urls p.manager.clients ≡ config.proxy_urls)
        × (p.queue ≡ new_queue config.queue_size)
        × (p.selector.max_retries ≡ length config.proxy_urls)
  unfolding new checked connect assemble apply_defaults
  new-opens parse t config range fine all =
      let v = validate_sound fl config range fine in
      let d = apply_defaults fl config in
      let (m, made) = new_manager-ok parse (manager_config d) (t 3 0) v.some_proxy all in
      let same =
        set_up-urls fl d t m.clients ∙ new_manager-urls parse (manager_config d) (t 3 0) m made in
      let (sel, chosen, tries) =
        some_selector (set_up fl d t m.clients) config.proxy_urls same v.some_proxy in
      let made_pool : Pool F E J = record {
        config = d;
        manager = record m { clients = set_up fl d t m.clients };
        selector = sel;
        num_workers = d.num_workers;
        queue = new_queue d.queue_size;
        collector_start = t 4 0 0;
      } in
      let (_, size, _, _, _, _) = validated_defaults fl config range fine in
      (
        made_pool,
        rw (fine, made, chosen, new, checked, connect, assemble) refl,
        same,
        ap new_queue size,
        tries,
      )
