-- ===== src/Config.antt =====
-- rapidproxy/config.go. Durations and Go's int are int64 patterns; the texts of the errors are left
-- out.
pub mod Validity
use Prim.Native.String.{String}
use rapid_proxy.Prelude.{
  ◌*◌, Bool, true, false, ◌||◌, Option, none, some, List, [], Int64, le_zero64, ltb64,
  nanos_per_sec, ◌==◌, if◌then◌else◌, Map, length,
}
use rapid_proxy.Floats.{Float64}

pub record Config (F : Type 0) : Type 0 where
  pub proxy_urls : List String
  pub num_workers : Int64
  pub queue_size : Int64
  pub max_idle_conns : Int64
  pub max_idle_conns_per_host : Int64
  pub idle_conn_timeout : Int64
  pub dial_timeout : Int64
  pub tls_handshake_timeout : Int64
  pub keep_alive : Int64
  pub response_header_timeout : Int64
  pub request_timeout : Int64
  pub rate_limit_per_proxy : Int64
  pub max_concurrent_per_proxy : Int64
  pub domain_rate_limits : Map Int64
  pub failure_threshold : F
  pub degraded_threshold : F
  pub min_requests_for_trip : Int64
  pub recovery_timeout : Int64
  pub idle_cleanup_interval : Int64
  pub idle_cleanup_timeout : Int64
  pub insecure_skip_verify : Bool

-- The returns of `Validate`, in the order of its tests.
pub data ConfigError : Type 0 where
  no_proxies num_workers_not_positive queue_size_not_positive : ConfigError
  rate_limit_not_positive failure_threshold_range degraded_threshold_range : ConfigError
  max_concurrent_negative thresholds_crossed : ConfigError

-- `x == 0` picks the default.
abbrev or_default : Int64 → Int64 → Int64
or_default x d = if x == 0 then d else x

module _ {F : Type 0} (fl : Float64 F) where
  abbrev pub zero_float : F
  zero_float = fl.literal 0 1

  abbrev pub one_float : F
  one_float = fl.literal 1 1

  unfoldable pub default_config : Config F
  default_config = record {
    proxy_urls = [];
    num_workers = 1000;
    queue_size = 10000;
    max_idle_conns = 1000;
    max_idle_conns_per_host = 10;
    idle_conn_timeout = 90 * nanos_per_sec;
    dial_timeout = 5 * nanos_per_sec;
    tls_handshake_timeout = 5 * nanos_per_sec;
    keep_alive = 30 * nanos_per_sec;
    response_header_timeout = 10 * nanos_per_sec;
    request_timeout = 30 * nanos_per_sec;
    rate_limit_per_proxy = 10;
    max_concurrent_per_proxy = 0;
    domain_rate_limits = [];
    failure_threshold = fl.literal 1 2;
    degraded_threshold = fl.literal 1 5;
    min_requests_for_trip = 10;
    recovery_timeout = 60 * nanos_per_sec;
    idle_cleanup_interval = 2 * 60 * nanos_per_sec;
    idle_cleanup_timeout = 90 * nanos_per_sec;
    insecure_skip_verify = false;
  }

  abbrev out_of_unit : F → Bool
  out_of_unit x = fl.leb x zero_float || fl.ltb one_float x

  -- `none` is a nil error.
  unfoldable pub validate : Config F → Option ConfigError
  validate c =
      if length c.proxy_urls == 0
      then some no_proxies
      else (if le_zero64 c.num_workers
          then some num_workers_not_positive
          else (if le_zero64 c.queue_size
              then some queue_size_not_positive
              else (if le_zero64 c.rate_limit_per_proxy
                  then some rate_limit_not_positive
                  else (if out_of_unit c.failure_threshold
                      then some failure_threshold_range
                      else (if out_of_unit c.degraded_threshold
                          then some degraded_threshold_range
                          else (if ltb64 c.max_concurrent_per_proxy 0
                              then some max_concurrent_negative
                              else (if fl.leb c.failure_threshold c.degraded_threshold
                                  then some thresholds_crossed
                                  else none)))))))

  unfoldable pub apply_defaults : Config F → Config F
  unfolding default_config
  apply_defaults c =
      let d = default_config in
      record c {
        num_workers = or_default c.num_workers d.num_workers;
        queue_size = or_default c.queue_size d.queue_size;
        max_idle_conns = or_default c.max_idle_conns d.max_idle_conns;
        max_idle_conns_per_host = or_default c.max_idle_conns_per_host d.max_idle_conns_per_host;
        idle_conn_timeout = or_default c.idle_conn_timeout d.idle_conn_timeout;
        dial_timeout = or_default c.dial_timeout d.dial_timeout;
        tls_handshake_timeout = or_default c.tls_handshake_timeout d.tls_handshake_timeout;
        keep_alive = or_default c.keep_alive d.keep_alive;
        response_header_timeout = or_default c.response_header_timeout d.response_header_timeout;
        request_timeout = or_default c.request_timeout d.request_timeout;
        rate_limit_per_proxy = or_default c.rate_limit_per_proxy d.rate_limit_per_proxy;
        failure_threshold =
            if fl.eqb c.failure_threshold zero_float
            then d.failure_threshold
            else c.failure_threshold;
        degraded_threshold =
            if fl.eqb c.degraded_threshold zero_float
            then d.degraded_threshold
            else c.degraded_threshold;
        min_requests_for_trip = or_default c.min_requests_for_trip d.min_requests_for_trip;
        recovery_timeout = or_default c.recovery_timeout d.recovery_timeout;
        idle_cleanup_interval = or_default c.idle_cleanup_interval d.idle_cleanup_interval;
        idle_cleanup_timeout = or_default c.idle_cleanup_timeout d.idle_cleanup_timeout;
      }
