-- ===== src/Examples/Proxies.antt =====
-- Clients and the selector of internal/connection and internal/selector at concrete values.
use Prim.Native.String.{String}
use rapid_proxy.Prelude.{
  All, ◌≢◌, ℕ, ◌%◌, ◌<◌, ◌≡◌, refl, arith, Bool, true, false, Option, none, some, List, [], ◌∷◌,
  Int64, Clock, add64, length, get_elem?,
}
use rapid_proxy.Floats.{Fraction, fractions}
use rapid_proxy.TokenBucket.{TokenBucket}
use rapid_proxy.TokenBucket
use rapid_proxy.CircuitBreaker
use rapid_proxy.CircuitBreaker.{new_circuit_breaker}
use rapid_proxy.Client.{
  Outcome, answered, transport_error, new_proxy_client, set_circuit_breaker,
  try_acquire_concurrency, release_concurrency, get_metrics,
}
use rapid_proxy.Client.Accounting.{do_requests, metrics_healthy}
use rapid_proxy.Selector.{
  selected, RoundRobinSelector, all_proxies_busy, select, select_loop, try_client, breaker_passes,
}
use rapid_proxy.Selector.Attempt.{is_available}
use rapid_proxy.Selector.Choice.{visit, first_available, select-first_available, select-busy}
use rapid_proxy.Selector.Rotation.{IsReady, choices, choices-once}
use rapid_proxy.Pool.{Client, token_bucket_limiter, health_breaker}

-- A proxy with one slot and, at second 1, `tokens` tokens.
abbrev proxy : String → Int64 → Client Fraction ℕ
proxy url tokens = record {
  proxy_url = url;
  transport = none;
  timeout = 30000000000;
  total_requests = 0;
  success_requests = 0;
  failed_requests = 0;
  state = 0;
  last_error = none;
  last_success = 1000000000;
  last_failure = 0;
  rate_limiter =
      some (record { capacity = 10; refill_rate = 10; tokens = tokens; last_refill = 1000000000 });
  circuit_breaker = none;
  concurrency_sem = some (record { capacity = 1; used = 0 });
  domain_limiter = none;
}

abbrev used_up : Client Fraction ℕ
used_up = proxy "http://a:8080" 0

abbrev ready : Client Fraction ℕ
ready = proxy "http://b:8080" 4

abbrev proxies : List (Client Fraction ℕ)
proxies = used_up ∷ ready ∷ []

abbrev busy_proxies : List (Client Fraction ℕ)
busy_proxies = used_up ∷ proxy "http://b:8080" 0 ∷ []

abbrev selector : RoundRobinSelector
selector = record {
  current_index = 1;
  max_retries = 2;
  total_selections = 1;
  success_selections = 1;
  failed_selections = 0;
}

abbrev no_end : ℕ → Option ℕ
no_end k = none

abbrev clocks : ℕ → Clock
clocks i k = 1000000001

select-first_available_example :
    (select token_bucket_limiter (health_breaker fractions) no_end clocks selector proxies).2
    ≡ first_available token_bucket_limiter
        (health_breaker fractions)
        2
        0
        (add64 1 1 % length proxies)
        no_end
        clocks
        proxies
select-first_available_example =
    select-first_available token_bucket_limiter (health_breaker fractions) no_end clocks selector
      proxies (omega arith) (omega arith) (omega arith)

busy :
    (select token_bucket_limiter (health_breaker fractions) no_end clocks selector busy_proxies).2
    ≡ all_proxies_busy
unfolding select select_loop try_client breaker_passes try_acquire_concurrency release_concurrency
    TokenBucket.try_acquire TokenBucket.maybe_refill TokenBucket.earned
busy = refl

select-busy_example :
    (i : ℕ) × (i < length busy_proxies)
    × (visit (add64 selector.current_index 1 % length busy_proxies) i (length busy_proxies) ≡ 0)
    × (is_available token_bucket_limiter (health_breaker fractions) (clocks i) used_up ≡ false)
select-busy_example =
    select-busy token_bucket_limiter (health_breaker fractions) no_end clocks selector busy_proxies
      (omega arith) (omega arith) refl busy 0 used_up (omega arith) refl

abbrev outcomes : List (Clock × Outcome ℕ)
outcomes =
    (clocks 0, answered (record { status_code = 200; body = none }))
    ∷ (clocks 1, answered (record { status_code = 503; body = none }))
    ∷ (clocks 2, transport_error 7)
    ∷ []

metrics_healthy_example :
    (get_metrics fractions (
      do_requests (health_breaker {E = ℕ} fractions) outcomes (
        set_circuit_breaker none (
          new_proxy_client {L = TokenBucket} "http://a:8080" none 30000000000
            1000000000)))).state_name
    ≡ "healthy"
metrics_healthy_example =
    metrics_healthy TokenBucket (health_breaker {E = ℕ} fractions) fractions "http://a:8080" none
      30000000000 1000000000 outcomes none

abbrev bare : Client Fraction ℕ
bare = record ready { concurrency_sem = none }

abbrev slot_uses : List Bool
slot_uses = true ∷ true ∷ true ∷ false ∷ false ∷ false ∷ []

-- Two proxies with a breaker, a limiter and slots, each with some tokens.
abbrev guarded : String → Client Fraction ℕ
guarded url = record (proxy url 4) {
  circuit_breaker = some (new_circuit_breaker fractions none (λ k. 1000000000));
}

abbrev guarded_clients : List (Client Fraction ℕ)
guarded_clients = guarded "http://a:8080" ∷ guarded "http://b:8080" ∷ []

abbrev second_1 : ℕ → ℕ → Clock
second_1 m i k = 1000000001

guarded-IsReady :
    All (IsReady token_bucket_limiter (health_breaker {E = ℕ} fractions) second_1) guarded_clients
unfolding breaker_passes new_circuit_breaker CircuitBreaker.is_healthy TokenBucket.try_acquire
    TokenBucket.maybe_refill TokenBucket.earned
guarded-IsReady = (λ m. refl, (λ m. refl, tt))

abbrev turner : RoundRobinSelector
turner = record {
  current_index = 6;
  max_retries = 2;
  total_selections = 6;
  success_selections = 6;
  failed_selections = 0;
}

choices-once_example :
    let out =
      choices token_bucket_limiter
        (health_breaker {E = ℕ} fractions)
        2
        second_1
        turner
        guarded_clients in
    ((j : ℕ) × (j < 2) × (get_elem? out j ≡ some (selected 0)))
    × ((i j : ℕ)
        → i < j
        → j < 2
        → get_elem? out i ≡ some (selected 0)
        → get_elem? out j ≢ some (selected 0))
choices-once_example =
    choices-once token_bucket_limiter (health_breaker fractions) second_1 turner guarded_clients 0
      (omega arith) (omega arith) guarded-IsReady (omega arith) (omega arith)
