-- ===== src/Examples/Pools.antt =====
-- Configurations, managers and pools of rapidproxy and internal/connection at concrete values.
use Prim.Native.String.{String}
use rapid_proxy.Prelude.{
  ℕ, ◌≤◌, ◌≡◌, refl, arith, true, false, Option, none, some, [], ◌∷◌, Clock, All, length, get_elem?,
  lookup, insert,
}
use rapid_proxy.Floats.{Fraction, fractions}
use rapid_proxy.TokenBucket.{TokenBucket, new_token_bucket}
use rapid_proxy.CircuitBreaker.{CircuitBreaker, new_circuit_breaker}
use rapid_proxy.Transport.{TransportConfig, new_transport}
use rapid_proxy.Client.{
  new_proxy_client, set_rate_limiter, set_circuit_breaker, set_concurrency_semaphore,
  set_domain_limiter,
}
use rapid_proxy.Config.{Config, validate, apply_defaults}
use rapid_proxy.Config.Validity.{InRange, validated_defaults}
use rapid_proxy.Manager
use rapid_proxy.Manager.{Manager, new_manager, init_clients, get_client}
use rapid_proxy.Manager.Clients.{urls}
use rapid_proxy.Manager.Stats.{Collector}
use rapid_proxy.Selector.Attempt.{is_available}
use rapid_proxy.Worker.Queue.{new_queue}
use rapid_proxy.Pool.{
  Pool, Client, pool, new, checked, connect, assemble, manager_config, breaker_config, set_up,
  set_limiters, set_breakers, set_semaphores, set_domain_limiters, for_each, token_bucket_limiter,
  health_breaker,
}
use rapid_proxy.Selector.{new_round_robin_selector}
use rapid_proxy.DomainLimiter.{new_domain_limiter}
use rapid_proxy.Pool.Opens.{new-opens}
use rapid_proxy.Pool.Setup.{new-available}

-- Five requests a second for each of two proxies.
abbrev config : Config Fraction
config = record {
  proxy_urls = "http://a:8080" ∷ "http://b:8080" ∷ [];
  num_workers = 4;
  queue_size = 16;
  max_idle_conns = 0;
  max_idle_conns_per_host = 0;
  idle_conn_timeout = 0;
  dial_timeout = 0;
  tls_handshake_timeout = 0;
  keep_alive = 0;
  response_header_timeout = 0;
  request_timeout = 0;
  rate_limit_per_proxy = 5;
  max_concurrent_per_proxy = 3;
  domain_rate_limits = ("example.com", 2) ∷ [];
  failure_threshold = record { top = 1; below = 1 };
  degraded_threshold = record { top = 1; below = 4 };
  min_requests_for_trip = 0;
  recovery_timeout = 0;
  idle_cleanup_interval = 0;
  idle_cleanup_timeout = 0;
  insecure_skip_verify = false;
}

abbrev pub parse : String → Option ℕ
parse url = none

abbrev pub clocks : ℕ → ℕ → Clock
clocks n k i = 1000000000

config-InRange : InRange config
config-InRange = ground arith

config-valid : validate fractions config ≡ none
unfolding validate
config-valid = refl

validated_defaults_example :
    let d = apply_defaults fractions config in
    (d.num_workers ≡ config.num_workers)
    × (d.queue_size ≡ config.queue_size)
    × (d.rate_limit_per_proxy ≡ config.rate_limit_per_proxy)
    × (d.failure_threshold ≡ config.failure_threshold)
    × (d.degraded_threshold ≡ config.degraded_threshold)
    × (validate fractions d ≡ none)
validated_defaults_example = validated_defaults fractions config config-InRange config-valid

new-opens_example :
    (p : Pool Fraction ℕ ℕ) × (new fractions parse clocks (some config) ≡ pool p)
    × (urls p.manager.clients ≡ config.proxy_urls)
    × (p.queue ≡ new_queue config.queue_size)
    × (p.selector.max_retries ≡ length config.proxy_urls)
new-opens_example =
    new-opens fractions parse clocks config config-InRange config-valid (refl, (refl, tt))

abbrev transport_config : Option TransportConfig
transport_config = (manager_config (apply_defaults fractions config)).transport_config

abbrev pub settings : Manager.Config
settings = record {
  proxy_urls = "http://a:8080" ∷ "http://b:8080" ∷ [];
  transport_config = transport_config;
  request_timeout = 30000000000;
  idle_cleanup_interval = 120000000000;
  idle_cleanup_timeout = 90000000000;
}

abbrev client : String → Client Fraction ℕ
client url = new_proxy_client url (some (new_transport url transport_config)) 30000000000 1000000000

abbrev pub manager : Manager TokenBucket (CircuitBreaker Fraction) ℕ
manager = record {
  config = settings;
  clients = client "http://a:8080" ∷ client "http://b:8080" ∷ [];
  clients_map = ("http://a:8080", 0) ∷ ("http://b:8080", 1) ∷ [];
}

pub manager_made : new_manager parse settings (clocks 3 0) ≡ Manager.ok manager
unfolding new_manager init_clients insert
manager_made = refl

found : get_client "http://b:8080" manager ≡ some (client "http://b:8080")
unfolding get_client lookup
found = refl

abbrev collector : Collector TokenBucket (CircuitBreaker Fraction) ℕ
collector = record { manager = manager; start_time = 1000000000 }

manager_states : All (λ c. c.state ≤ 2) manager.clients
unfolding new_proxy_client
manager_states = (omega arith, (omega arith, tt))

abbrev full : Config Fraction
full = apply_defaults fractions config

abbrev opened : Pool Fraction ℕ ℕ
opened = record {
  config = full;
  manager = record {
    config = manager_config full;
    clients = set_up fractions full clocks manager.clients;
    clients_map = manager.clients_map;
  };
  selector = record {
    current_index = 0;
    max_retries = 2;
    total_selections = 0;
    success_selections = 0;
    failed_selections = 0;
  };
  num_workers = 4;
  queue = new_queue 16;
  collector_start = 1000000000;
}

opened_by_new : new fractions parse clocks (some config) ≡ pool opened
unfolding new checked connect assemble validate apply_defaults new_manager init_clients insert
    set_up set_limiters set_breakers set_semaphores set_domain_limiters for_each
    new_round_robin_selector
opened_by_new = refl

abbrev first : Client Fraction ℕ
first = record (client "http://a:8080") {
  rate_limiter = some (new_token_bucket 5 5 1000000000);
  circuit_breaker = some (new_circuit_breaker fractions (some (breaker_config full)) (clocks 1 0));
  concurrency_sem = some (record { capacity = 3; used = 0 });
  domain_limiter = new_domain_limiter (("example.com", 2) ∷ []) (clocks 2 0);
}

first_opened : get_elem? opened.manager.clients 0 ≡ some first
unfolding set_up set_limiters set_breakers set_semaphores set_domain_limiters for_each
    apply_defaults set_rate_limiter set_circuit_breaker set_concurrency_semaphore set_domain_limiter
first_opened = refl

new-available_example :
    is_available token_bucket_limiter (health_breaker fractions) (λ k. 2000000000) first ≡ true
new-available_example =
    new-available fractions parse clocks config opened (λ k. 2000000000) 0 first config-InRange
      (omega arith) (λ n i j. omega arith) (omega arith) opened_by_new first_opened
