-- ===== src/Worker/Stats.antt =====
-- `GetStats` of internal/worker/pool.go.
use rapid_proxy.Prelude.{ℕ, Int64, ltb64, if◌then◌else◌, length}
use rapid_proxy.Floats.{Float64}
use rapid_proxy.Worker.{State}
use rapid_proxy.Worker.Queue.{Queue}

pub record PoolStats (F : Type 0) : Type 0 where
  pub num_workers : ℕ
  pub active_workers : ℕ
  pub queue_size : ℕ
  pub queue_capacity : ℕ
  pub total_jobs : Int64
  pub success_jobs : Int64
  pub failed_jobs : Int64
  pub success_rate : F

unfoldable pub get_stats :
    {F L B E J : Type 0} → Float64 F → ℕ → ℕ → Queue J → State L B E → PoolStats F
get_stats fl num_workers active q s = record {
  num_workers = num_workers;
  active_workers = active;
  queue_size = length q.jobs;
  queue_capacity = q.capacity;
  total_jobs = s.total_jobs;
  success_jobs = s.success_jobs;
  failed_jobs = s.failed_jobs;
  success_rate =
      if ltb64 0 s.total_jobs
      then fl.div (fl.of_int s.success_jobs) (fl.of_int s.total_jobs)
      else fl.literal 0 1;
}
