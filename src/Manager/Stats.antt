-- ===== src/Manager/Stats.antt =====
-- `GetStats` and the statistics that internal/metrics passes on.
use rapid_proxy.Prelude.{
  ℕ, ◌+◌, ◌≤◌, ◌≡◌, refl, arith, List, [], ◌∷◌, All, length, Option, Int64, sub64, map,
}
use Prim.Native.String.{String}
use rapid_proxy.Floats.{Float64}
use rapid_proxy.Client.{ProxyClient, ProxyMetrics, state_healthy, state_degraded, state_dead}
use rapid_proxy.Manager.{Manager, count_state, get_stats, all_metrics}

-- `Stats` of internal/metrics/stats.go; the pool fills in the last three.
pub record Stats : Type 0 where
  pub total_proxies : ℕ
  pub healthy_proxies : ℕ
  pub degraded_proxies : ℕ
  pub dead_proxies : ℕ
  pub worker_count : ℕ
  pub queue_size : ℕ
  pub queue_capacity : ℕ
  pub uptime : Int64

pub record Collector (L B E : Type 0) : Type 0 where
  pub manager : Manager L B E
  pub start_time : Int64

-- `ProxyStats`, field by field.
pub record ProxyStats (F E : Type 0) : Type 0 where
  pub proxy_url : String
  pub state : String
  pub total_requests : Int64
  pub success_requests : Int64
  pub failed_requests : Int64
  pub error_rate : F
  pub last_success : Int64
  pub last_failure : Int64
  pub last_error : Option E

abbrev proxy_stats : {F E : Type 0} → ProxyMetrics F E → ProxyStats F E
proxy_stats m = record {
  proxy_url = m.proxy_url;
  state = m.state_name;
  total_requests = m.total_requests;
  success_requests = m.success_requests;
  failed_requests = m.failed_requests;
  error_rate = m.error_rate;
  last_success = m.last_success;
  last_failure = m.last_failure;
  last_error = m.last_error;
}

module _ {L B E : Type 0} where
  unfoldable pub new_collector : Manager L B E → Int64 → Collector L B E
  new_collector m now = record { manager = m; start_time = now }

  unfoldable pub collect_stats : Int64 → Collector L B E → Stats
  unfolding get_stats
  collect_stats now c =
      let s = get_stats c.manager in
      record {
        total_proxies = s.total_proxies;
        healthy_proxies = s.healthy_proxies;
        degraded_proxies = s.degraded_proxies;
        dead_proxies = s.dead_proxies;
        worker_count = 0;
        queue_size = 0;
        queue_capacity = 0;
        uptime = sub64 now c.start_time;
      }

  -- `GetProxyStats`
  unfoldable pub collect_proxy_stats :
      {F : Type 0} → Float64 F → Collector L B E → List (ProxyStats F E)
  unfolding all_metrics
  collect_proxy_stats fl c = map proxy_stats (all_metrics fl c.manager)

  counted :
      (cs : List (ProxyClient L B E))
      → All (λ c. c.state ≤ 2) cs
      → count_state state_healthy cs + count_state state_degraded cs + count_state state_dead cs
        ≡ length cs
  unfolding count_state
  counted [] h = omega arith
  counted (c ∷ cs) h = ground (arith, counted cs h.1)

  -- While each client is in one of the three states, the three counts add up to all proxies.
  pub stats_partition :
      (now : Int64) (r : Collector L B E)
      → All (λ c. c.state ≤ 2) r.manager.clients
      → let s = collect_stats now r in
        (s.healthy_proxies + s.degraded_proxies + s.dead_proxies ≡ s.total_proxies)
        × (s.total_proxies ≡ length r.manager.clients)
  unfolding collect_stats
  stats_partition now r h = (counted r.manager.clients h, refl)
