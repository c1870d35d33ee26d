-- ===== src/Client.antt =====
-- internal/connection/client.go. The rate limiter and the circuit breaker are used through the
-- file's two interfaces; a nil interface, pointer or channel is `none`. What `http.Client.Do`
-- returns is an argument.
pub mod Steps
pub mod Interfaces
pub mod Accounting
pub mod Slots
use Prim.Native.String.{String}
use mathlib.Core.Option
use rapid_proxy.Prelude.{
  ℕ, zero, suc, ◌+◌, Bool, true, false, ◌||◌, Option, none, some, Int64, Clock, add64, ltb, ltb64,
  leb64, le_zero64, ◌==◌, if◌then◌else◌, List,
}
use rapid_proxy.Floats.{Float64}
use rapid_proxy.DomainLimiter.{DomainLimiter}
use rapid_proxy.Transport.{Transport}
use Interfaces.{RateLimiter, CircuitBreaker}

abbrev pub state_healthy : ℕ
state_healthy = 0

abbrev pub state_degraded : ℕ
state_degraded = 1

abbrev pub state_dead : ℕ
state_dead = 2

-- A buffered channel of empty structs, as a semaphore.
pub record Semaphore : Type 0 where
  pub capacity : ℕ
  pub used : ℕ

pub record ProxyClient (L B E : Type 0) : Type 0 where
  pub proxy_url : String
  pub transport : Option Transport
  pub timeout : Int64
  pub total_requests : Int64
  pub success_requests : Int64
  pub failed_requests : Int64
  pub state : ℕ
  pub last_error : Option (E × Int64)
  pub last_success : Int64
  pub last_failure : Int64
  pub rate_limiter : Option L
  pub circuit_breaker : Option B
  pub concurrency_sem : Option Semaphore
  pub domain_limiter : Option DomainLimiter

-- `body` holds the bytes that reading the body gives, and is `none` where the source has nil.
pub record Response : Type 0 where
  pub status_code : Int64
  pub body : Option (List ℕ)

-- What `http.Client.Do` returns: an error or a response.
pub data Outcome (E : Type 0) : Type 0 where
  transport_error : E → Outcome E
  answered : Response → Outcome E

pub record ProxyMetrics (F E : Type 0) : Type 0 where
  pub proxy_url : String
  pub state_name : String
  pub total_requests : Int64
  pub success_requests : Int64
  pub failed_requests : Int64
  pub error_rate : F
  pub last_success : Int64
  pub last_failure : Int64
  pub last_error : Option E

module _ {L B E : Type 0} where
  unfoldable pub new_proxy_client : String → Option Transport → Int64 → Int64 → ProxyClient L B E
  new_proxy_client proxy_url transport timeout now = record {
    proxy_url = proxy_url;
    transport = transport;
    timeout = timeout;
    total_requests = 0;
    success_requests = 0;
    failed_requests = 0;
    state = state_healthy;
    last_error = none;
    last_success = now;
    last_failure = 0;
    rate_limiter = none;
    circuit_breaker = none;
    concurrency_sem = none;
    domain_limiter = none;
  }

  unfoldable pub is_healthy : ProxyClient L B E → Bool
  is_healthy c = c.state == state_healthy || c.state == state_degraded

  unfoldable pub get_state_name : ProxyClient L B E → String
  get_state_name c =
      if c.state == state_healthy
      then "healthy"
      else (if c.state == state_degraded
          then "degraded"
          else (if c.state == state_dead then "dead" else "unknown"))

  unfoldable pub set_state : ℕ → ProxyClient L B E → ProxyClient L B E
  set_state s c = record c { state = s }

  unfoldable pub set_rate_limiter : Option L → ProxyClient L B E → ProxyClient L B E
  set_rate_limiter limiter c = record c { rate_limiter = limiter }

  unfoldable pub set_circuit_breaker : Option B → ProxyClient L B E → ProxyClient L B E
  set_circuit_breaker breaker c = record c { circuit_breaker = breaker }

  unfoldable pub set_domain_limiter : Option DomainLimiter → ProxyClient L B E → ProxyClient L B E
  set_domain_limiter limiter c = record c { domain_limiter = limiter }

  unfoldable pub set_concurrency_semaphore : Int64 → ProxyClient L B E → ProxyClient L B E
  set_concurrency_semaphore capacity c =
      if le_zero64 capacity
      then c
      else (record c { concurrency_sem = some (record { capacity = capacity; used = 0 }) })

  -- A send that would block takes the `default` case.
  unfoldable pub try_acquire_concurrency : ProxyClient L B E → ProxyClient L B E × Bool
  try_acquire_concurrency c = elim c.concurrency_sem [
    | none ↦ (c, true)
    | some sem ↦
        if ltb sem.used sem.capacity
        then (record c { concurrency_sem = some (record sem { used = suc sem.used }) }, true)
        else (c, false)
  ]

  receive : ProxyClient L B E → ℕ → ℕ → Option (ProxyClient L B E)
  receive c capacity zero = none
  receive c capacity (suc n) =
      some (record c { concurrency_sem = some (record { capacity = capacity; used = n }) })

  -- `none`: the receive from the empty channel blocks.
  unfoldable pub release_concurrency : ProxyClient L B E → Option (ProxyClient L B E)
  unfolding receive
  release_concurrency c = elim c.concurrency_sem [
    | none ↦ some c
    | some sem ↦ receive c sem.capacity sem.used
  ]

  unfoldable pub get_metrics : {F : Type 0} → Float64 F → ProxyClient L B E → ProxyMetrics F E
  unfolding get_state_name
  get_metrics fl c = record {
    proxy_url = c.proxy_url;
    state_name = get_state_name c;
    total_requests = c.total_requests;
    success_requests = c.success_requests;
    failed_requests = c.failed_requests;
    error_rate =
        if ltb64 0 c.total_requests
        then fl.div (fl.of_int c.failed_requests) (fl.of_int c.total_requests)
        else fl.literal 0 1;
    last_success = c.last_success;
    last_failure = c.last_failure;
    last_error = Option.map (λ e. e.0) c.last_error;
  }

-- `lastError` keeps its value where there is no error to store.
abbrev stored_error : {E : Type 0} → Option E → Int64 → Option (E × Int64) → Option (E × Int64)
stored_error none now old = old
stored_error (some e) now old = some (e, now)

module _ {L B E : Type 0} (brk : CircuitBreaker B E) where
  unfoldable pub record_success : Clock → ProxyClient L B E → ProxyClient L B E
  record_success t c = record c {
    success_requests = add64 c.success_requests 1;
    last_success = t 0;
    circuit_breaker = Option.map (brk.record_success (λ k. t (1 + k))) c.circuit_breaker;
  }

  unfoldable pub record_failure : Clock → Option E → ProxyClient L B E → ProxyClient L B E
  record_failure t err c = record c {
    failed_requests = add64 c.failed_requests 1;
    last_failure = t 0;
    last_error = stored_error err (t 1) c.last_error;
    circuit_breaker = Option.map (brk.record_failure err (λ k. t (2 + k))) c.circuit_breaker;
  }

  unfoldable pub after_outcome : Clock → Outcome E → ProxyClient L B E → ProxyClient L B E
  unfolding record_success record_failure
  after_outcome t (transport_error e) c = record_failure t (some e) c
  after_outcome t (answered resp) c =
      if leb64 400 resp.status_code then record_failure t none c else record_success t c

  -- `Do` returns the outcome as it is.
  unfoldable pub do_request : Clock → Outcome E → ProxyClient L B E → ProxyClient L B E × Outcome E
  unfolding after_outcome
  do_request t outcome c =
      (after_outcome t outcome (record c { total_requests = add64 c.total_requests 1 }), outcome)
