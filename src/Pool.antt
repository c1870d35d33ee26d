-- ===== src/Pool.antt =====
-- rapidproxy/pool.go: how `New` puts the components together, and the batches. The concrete token
-- bucket and circuit breaker fill the interfaces of the client.
pub mod Setup
pub mod Opens
pub mod Batch
pub mod Request
pub mod Calls
use Prim.Native.String.{String}
use rapid_proxy.Prelude.{
  ℕ, zero, suc, ◌*◌, Bool, true, false, Option, none, some, List, [], ◌∷◌, Int64, Clock, le_zero64,
  nanos_per_sec, ltb64, ◌==◌, if◌then◌else◌, length,
}
use rapid_proxy.Floats.{Float64}
use rapid_proxy.TokenBucket.{TokenBucket, new_token_bucket}
use rapid_proxy.TokenBucket
use rapid_proxy.DomainLimiter.{new_domain_limiter}
use rapid_proxy.CircuitBreaker.{CircuitBreaker, new_circuit_breaker}
use rapid_proxy.CircuitBreaker
use rapid_proxy.Client.{
  ProxyClient, set_rate_limiter, set_circuit_breaker, set_concurrency_semaphore, set_domain_limiter,
}
use rapid_proxy.Client.Interfaces.{RateLimiter}
use rapid_proxy.Client.Interfaces
use rapid_proxy.Manager.{Manager, ManagerError, Made, new_manager}
use rapid_proxy.Manager
use rapid_proxy.Manager.Stats.{Stats, ProxyStats, Collector, collect_stats, collect_proxy_stats}
use rapid_proxy.Selector.{RoundRobinSelector, new_round_robin_selector}
use rapid_proxy.Config.{Config, ConfigError, default_config, validate, apply_defaults}
use rapid_proxy.Worker.Queue.{Queue, new_pool, stop}

abbrev pub token_bucket_limiter : {E : Type 0} → RateLimiter TokenBucket E
token_bucket_limiter = record {
  try_acquire = TokenBucket.try_acquire;
  acquire = TokenBucket.acquire;
}

-- The implementation does not look at the error.
abbrev pub health_breaker :
    {F E : Type 0} → Float64 F → Interfaces.CircuitBreaker (CircuitBreaker F) E
health_breaker fl = record {
  record_success = CircuitBreaker.record_success fl;
  record_failure = λ err. CircuitBreaker.record_failure fl;
  is_healthy = CircuitBreaker.is_healthy;
  get_state = λ cb. cb.state;
}

abbrev pub Client : Type 0 → Type 0 → Type 0
Client F E = ProxyClient TokenBucket (CircuitBreaker F) E

pub record Pool (F E J : Type 0) : Type 0 where
  pub config : Config F
  pub manager : Manager TokenBucket (CircuitBreaker F) E
  pub selector : RoundRobinSelector
  pub num_workers : Int64
  pub queue : Queue J
  pub collector_start : Int64

pub data NewError (E : Type 0) : Type 0 where
  invalid_config : ConfigError → NewError E
  manager_error : ManagerError E → NewError E
  no_selector : NewError E

-- `for _, client := range clients`, with the number of the round.
unfoldable pub for_each : {C : Type 0} → (ℕ → C → C) → ℕ → List C → List C
for_each f k [] = []
for_each f k (c ∷ cs) = f k c ∷ for_each f (suc k) cs

abbrev pub breaker_config : {F : Type 0} → Config F → CircuitBreaker.Config F
breaker_config config = record {
  failure_threshold = config.failure_threshold;
  degraded_threshold = config.degraded_threshold;
  min_requests = config.min_requests_for_trip;
  recovery_timeout = config.recovery_timeout;
  window_size = 60 * nanos_per_sec;
}

abbrev pub manager_config : {F : Type 0} → Config F → Manager.Config
manager_config config = record {
  proxy_urls = config.proxy_urls;
  transport_config = some (record {
    max_idle_conns = config.max_idle_conns;
    max_idle_conns_per_host = config.max_idle_conns_per_host;
    max_conns_per_host = config.max_concurrent_per_proxy;
    idle_conn_timeout = config.idle_conn_timeout;
    dial_timeout = config.dial_timeout;
    tls_handshake_timeout = config.tls_handshake_timeout;
    response_header_timeout = config.response_header_timeout;
    keep_alive = config.keep_alive;
    expect_continue_timeout = 0;
    insecure_skip_verify = config.insecure_skip_verify;
    tls_min_version = 0;
    disable_compression = false;
    disable_keep_alives = false;
    force_attempt_http2 = false;
  });
  request_timeout = config.request_timeout;
  idle_cleanup_interval = config.idle_cleanup_interval;
  idle_cleanup_timeout = config.idle_cleanup_timeout;
}

module _ {F E : Type 0} (fl : Float64 F) where
  unfoldable pub set_limiters : Config F → (ℕ → Int64) → List (Client F E) → List (Client F E)
  set_limiters config t =
      for_each
        (λ k.
          set_rate_limiter
            (some (new_token_bucket config.rate_limit_per_proxy config.rate_limit_per_proxy (t k))))
        0

  unfoldable pub set_breakers : Config F → (ℕ → Clock) → List (Client F E) → List (Client F E)
  set_breakers config t =
      for_each
        (λ k.
          set_circuit_breaker (some (new_circuit_breaker fl (some (breaker_config config)) (t k))))
        0

  unfoldable pub set_semaphores : Config F → List (Client F E) → List (Client F E)
  set_semaphores config cs =
      if ltb64 0 config.max_concurrent_per_proxy
      then for_each (λ k. set_concurrency_semaphore config.max_concurrent_per_proxy) 0 cs
      else cs

  unfoldable pub set_domain_limiters :
      Config F → (ℕ → Clock) → List (Client F E) → List (Client F E)
  set_domain_limiters config t cs =
      if length config.domain_rate_limits == 0
      then cs
      else for_each (λ k. set_domain_limiter (new_domain_limiter config.domain_rate_limits (t k))) 0
          cs

  -- Steps 4 to 5.6 of `New`; `t n k` reads the clock in the n-th loop for the k-th client.
  unfoldable pub set_up : Config F → (ℕ → ℕ → Clock) → List (Client F E) → List (Client F E)
  unfolding set_limiters set_breakers set_semaphores set_domain_limiters
  set_up config t cs =
      set_domain_limiters config (t 2)
        (set_semaphores config (set_breakers config (t 1) (set_limiters config (λ k. t 0 k 0) cs)))

pub data New (E A : Type 0) : Type 0 where
  pool : A → New E A
  failed : NewError E → New E A

module _ {F E J : Type 0} (fl : Float64 F) where
  -- Steps 6 to 9, once the clients are set up.
  unfoldable pub assemble :
      Config F
      → Manager TokenBucket (CircuitBreaker F) E
      → Option RoundRobinSelector
      → Int64
      → New E (Pool F E J)
  assemble config m none now = failed no_selector
  assemble config m (some sel) now = pool (record {
    config = config;
    manager = m;
    selector = sel;
    num_workers = config.num_workers;
    queue =
        (new_pool
          (some (record { num_workers = config.num_workers; queue_size = config.queue_size }))).0;
    collector_start = now;
  })

  unfoldable pub connect :
      Config F
      → (ℕ → ℕ → Clock)
      → Made E (Manager TokenBucket (CircuitBreaker F) E)
      → New E (Pool F E J)
  unfolding assemble
  connect config t (Made.error e) = failed (manager_error e)
  connect config t (Made.ok m) =
      let cs = set_up fl config t m.clients in
      assemble config (record m { clients = cs })
        (new_round_robin_selector cs (some (record { max_retries = length cs }))) (t 4 0 0)

  unfoldable pub checked :
      (String → Option E) → (ℕ → ℕ → Clock) → Config F → Option ConfigError → New E (Pool F E J)
  unfolding connect
  checked parse t config (some e) = failed (invalid_config e)
  checked parse t config none =
      let c = apply_defaults fl config in connect c t (new_manager parse (manager_config c) (t 3 0))

  unfoldable pub new :
      (String → Option E) → (ℕ → ℕ → Clock) → Option (Config F) → New E (Pool F E J)
  unfolding checked
  new parse t none = checked parse t (default_config fl) (validate fl (default_config fl))
  new parse t (some config) = checked parse t config (validate fl config)

module _ {F E J : Type 0} where
  abbrev collector : Pool F E J → Collector TokenBucket (CircuitBreaker F) E
  collector p = record { manager = p.manager; start_time = p.collector_start }

  unfoldable pub stats : Int64 → Pool F E J → Stats
  stats now p = record (collect_stats now (collector p)) {
    worker_count = p.num_workers;
    queue_size = length p.queue.jobs;
    queue_capacity = p.queue.capacity;
  }

  unfoldable pub proxy_stats : Float64 F → Pool F E J → List (ProxyStats F E)
  proxy_stats fl p = collect_proxy_stats fl (collector p)

  -- `none`: `Stop` panics. Closing the manager changes nothing that is modelled.
  unfoldable pub close : Pool F E J → Option (Pool F E J)
  close p = elim (stop p.queue) [ none ↦ none | some q ↦ some (record p { queue = q }) ]
