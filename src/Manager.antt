-- ===== src/Manager.antt =====
-- internal/connection/manager.go and internal/metrics/stats.go. The clients are shared by pointer:
-- they stand in one list, and the map by URL holds their indices. What `url.Parse` answers is a
-- parameter (`none`: no error). The cleanup goroutine and `Close` are in Lifecycle.
pub mod Clients
pub mod Setters
pub mod Lifecycle
pub mod Stats
use Prim.Native.String.{String}
use rapid_proxy.Prelude.{
  ℕ, zero, suc, ◌+◌, Bool, true, false, Option, none, some, List, [], ◌∷◌, ◌++◌, map, Int64, Clock,
  ◌*◌, nanos_per_sec, sub64, ltb64, ◌==◌, if◌then◌else◌, Map, lookup, insert, length, get_elem?,
  set,
}
use rapid_proxy.Floats.{Float64}
use rapid_proxy.Transport.{TransportConfig, new_transport, default_transport_config}
use rapid_proxy.Client.{
  ProxyClient, ProxyMetrics, new_proxy_client, set_rate_limiter, set_circuit_breaker, get_metrics,
  state_healthy, state_degraded, state_dead,
}

pub record Config : Type 0 where
  pub proxy_urls : List String
  pub transport_config : Option TransportConfig
  pub request_timeout : Int64
  pub idle_cleanup_interval : Int64
  pub idle_cleanup_timeout : Int64

unfoldable pub default_config : Config
unfolding default_transport_config
default_config = record {
  proxy_urls = [];
  transport_config = some default_transport_config;
  request_timeout = 30 * nanos_per_sec;
  idle_cleanup_interval = 120 * nanos_per_sec;
  idle_cleanup_timeout = 90 * nanos_per_sec;
}

pub record Manager (L B E : Type 0) : Type 0 where
  pub config : Config
  pub clients : List (ProxyClient L B E)
  pub clients_map : Map ℕ

pub data ManagerError (E : Type 0) : Type 0 where
  no_proxy_urls : ManagerError E
  invalid_proxy_url : String → E → ManagerError E
  proxy_not_found : String → ManagerError E

pub data Made (E A : Type 0) : Type 0 where
  ok : A → Made E A
  error : ManagerError E → Made E A

pub record ManagerStats : Type 0 where
  pub total_proxies : ℕ
  pub healthy_proxies : ℕ
  pub degraded_proxies : ℕ
  pub dead_proxies : ℕ

module _ {L B E : Type 0} where
  -- The loop of `initClients`; the k-th client reads the clock at `t k`.
  unfoldable pub init_clients :
      (String → Option E) → List String → Clock → Manager L B E → Made E (Manager L B E)
  init_clients parse [] t m = ok m
  init_clients parse (url ∷ rest) t m =
      let made = record m {
        clients =
            m.clients
            ++ new_proxy_client url (some (new_transport url m.config.transport_config))
                m.config.request_timeout (t 0)
              ∷ [];
        clients_map = insert url (length m.clients) m.clients_map;
      } in
      let others = init_clients parse rest (λ k. t (k + 1)) made in
      elim (parse url) [ some e ↦ error (invalid_proxy_url url e) | none ↦ others ]

  unfoldable pub new_manager : (String → Option E) → Config → Clock → Made E (Manager L B E)
  new_manager parse config t =
      if length config.proxy_urls == 0
      then error no_proxy_urls
      else init_clients parse config.proxy_urls t
          (record { config = config; clients = []; clients_map = [] })

  -- `NewManager` with a pointer that may be nil.
  unfoldable pub new_manager_or_default :
      (String → Option E) → Option Config → Clock → Made E (Manager L B E)
  unfolding new_manager default_config
  new_manager_or_default parse none t = new_manager parse default_config t
  new_manager_or_default parse (some config) t = new_manager parse config t

  unfoldable pub get_client : String → Manager L B E → Option (ProxyClient L B E)
  get_client url m = elim (lookup url m.clients_map) [
    | none ↦ none
    | some i ↦ get_elem? m.clients i
  ]

  -- The loop of `GetHealthyCount`, `GetDegradedCount` and `GetDeadCount`.
  unfoldable pub count_state : ℕ → List (ProxyClient L B E) → ℕ
  count_state s [] = 0
  count_state s (c ∷ cs) = (if c.state == s then 1 else 0) + count_state s cs

  unfoldable pub get_stats : Manager L B E → ManagerStats
  unfolding count_state
  get_stats m = record {
    total_proxies = length m.clients;
    healthy_proxies = count_state state_healthy m.clients;
    degraded_proxies = count_state state_degraded m.clients;
    dead_proxies = count_state state_dead m.clients;
  }

  unfoldable pub all_metrics : {F : Type 0} → Float64 F → Manager L B E → List (ProxyMetrics F E)
  all_metrics fl m = map (get_metrics fl) m.clients

  -- A change of the client that the map has for the URL.
  abbrev change_client :
      String → (ProxyClient L B E → ProxyClient L B E) → Manager L B E → Option (Manager L B E)
  change_client url f m = elim (lookup url m.clients_map) [
    | none ↦ none
    | some i ↦ elim (get_elem? m.clients i) [
      | none ↦ none
      | some c ↦ some (record m { clients = set m.clients i (f c) })
    ]
  ]

  abbrev or_not_found : String → Option (Manager L B E) → Made E (Manager L B E)
  or_not_found url none = error (proxy_not_found url)
  or_not_found url (some m) = ok m

  unfoldable pub set_client_rate_limiter :
      String → Option L → Manager L B E → Made E (Manager L B E)
  set_client_rate_limiter url limiter m =
      or_not_found url (change_client url (set_rate_limiter limiter) m)

  unfoldable pub set_client_circuit_breaker :
      String → Option B → Manager L B E → Made E (Manager L B E)
  set_client_circuit_breaker url breaker m =
      or_not_found url (change_client url (set_circuit_breaker breaker) m)

  abbrev or_same : Manager L B E → Option (Manager L B E) → Manager L B E
  or_same m none = m
  or_same m (some m') = m'

  unfoldable pub set_rate_limiters : Map (Option L) → Manager L B E → Manager L B E
  set_rate_limiters [] m = m
  set_rate_limiters ((url, limiter) ∷ rest) m =
      set_rate_limiters rest (or_same m (change_client url (set_rate_limiter limiter) m))

  unfoldable pub set_circuit_breakers : Map (Option B) → Manager L B E → Manager L B E
  set_circuit_breakers [] m = m
  set_circuit_breakers ((url, breaker) ∷ rest) m =
      set_circuit_breakers rest (or_same m (change_client url (set_circuit_breaker breaker) m))

  -- The URLs of the clients whose idle connections `cleanup` closes.
  unfoldable pub cleanup : Int64 → Int64 → List (ProxyClient L B E) → List String
  cleanup timeout now [] = []
  cleanup timeout now (c ∷ cs) =
      let rest = cleanup timeout now cs in
      if ltb64 timeout (sub64 now c.last_success) then c.proxy_url ∷ rest else rest
