-- ===== src/Examples/Races.antt =====
-- Two jobs of internal/worker at once over one client with one slot.
use Prim.Native.String.{String}
use rapid_proxy.Prelude.{
  ℕ, zero, suc, ◌+◌, ◌*◌, ◌%◌, ◌^◌, ◌≤◌, ◌<◌, ◌≡◌, refl, arith, none, some, List, [], ◌∷◌,
  get_elem?,
}
use rapid_proxy.Floats.{Fraction, fractions}
use rapid_proxy.TokenBucket.{TokenBucket, maybe_refill, earned}
use rapid_proxy.TokenBucket
use rapid_proxy.CircuitBreaker.{CircuitBreaker}
use rapid_proxy.Client.{answered, try_acquire_concurrency, release_concurrency}
use rapid_proxy.Client.Slots.{Within, capacity_of}
use rapid_proxy.Selector.{rounds, breaker_passes}
use rapid_proxy.Worker.{State, Result, Env, execute_job}
use rapid_proxy.Worker.Race.Solo.{env_of, alone}
use rapid_proxy.Worker.Race.Solo.Equal.{run-execute_job}
use rapid_proxy.Worker.Race.{Input, Job, System, ended, step, run}
use rapid_proxy.Worker.Race.Slots.{holders, begin, run_slots}
use rapid_proxy.Worker.Race.Finish.{turns, run_finishes}
use rapid_proxy.Worker.Race.Complete.{run_counts}
use rapid_proxy.Pool.{Client, token_bucket_limiter, health_breaker}

abbrev pub proxy : Client Fraction ℕ
proxy = record {
  proxy_url = "http://a:8080";
  transport = none;
  timeout = 30000000000;
  total_requests = 0;
  success_requests = 0;
  failed_requests = 0;
  state = 0;
  last_error = none;
  last_success = 1000000000;
  last_failure = 0;
  rate_limiter =
      some (record { capacity = 10; refill_rate = 10; tokens = 3; last_refill = 1000000000 });
  circuit_breaker = none;
  concurrency_sem = some (record { capacity = 1; used = 0 });
  domain_limiter = none;
}

abbrev pub state : State TokenBucket (CircuitBreaker Fraction) ℕ
state = record {
  total_jobs = 4;
  success_jobs = 3;
  failed_jobs = 1;
  selector = record {
    current_index = 4;
    max_retries = 1;
    total_selections = 4;
    success_selections = 4;
    failed_selections = 0;
  };
  clients = proxy ∷ [];
}

abbrev hosts : List String
hosts = "example.com" ∷ "example.org" ∷ []

abbrev input : Input ℕ
input = record {
  clock = λ k. 1000000001;
  ctx = none;
  outcome = answered (record { status_code = 200; body = some (104 ∷ 105 ∷ []) });
}

-- The jobs take turns.
abbrev alternate : ℕ → List (ℕ × Input ℕ)
alternate zero = []
alternate (suc n) = (0, input) ∷ (1, input) ∷ alternate n

abbrev schedule : List (ℕ × Input ℕ)
schedule = alternate 21

-- After six turns the first job has the slot.
abbrev held : Client Fraction ℕ
held = record proxy { concurrency_sem = some (record { capacity = 1; used = 1 }) }

abbrev midway : System TokenBucket (CircuitBreaker Fraction) ℕ
midway = run token_bucket_limiter (health_breaker fractions) (alternate 6) (begin state hosts)

is_held : get_elem? midway.state.clients 0 ≡ some held
unfolding run step breaker_passes try_acquire_concurrency
is_held = refl

run_slots_example :
    (c : Client Fraction ℕ) × (get_elem? state.clients 0 ≡ some c)
    × (capacity_of held.concurrency_sem ≡ capacity_of c.concurrency_sem)
    × Within (holders 0 midway.jobs) held.concurrency_sem
run_slots_example =
    run_slots token_bucket_limiter (health_breaker fractions) (alternate 6) state hosts 0 held
      ((refl, omega arith), tt) is_held

run_finishes_example :
    (job : Job ℕ) × (x : Result ℕ) × (get_elem?
        (run token_bucket_limiter (health_breaker fractions) schedule (begin state hosts)).jobs
        1
      ≡ some job)
    × (job.pc ≡ ended x)
run_finishes_example =
    run_finishes token_bucket_limiter (health_breaker fractions) schedule state hosts 1
      ((refl, omega arith), tt) (refl, tt) (omega arith) (omega arith) (omega arith)

enough : (j : ℕ) → j < 2 → 16 + 5 * rounds state.selector.max_retries ≤ turns j schedule
enough zero h = omega arith
enough (suc zero) h = omega arith
enough (suc (suc j)) h = absurd (omega arith)

abbrev finished : State TokenBucket (CircuitBreaker Fraction) ℕ
finished = (run token_bucket_limiter (health_breaker fractions) schedule (begin state hosts)).state

run_counts_example :
    (finished.total_jobs % 2 ^ 64 ≡ 6)
    × ((finished.success_jobs + finished.failed_jobs) % 2 ^ 64 ≡ 6)
    × (finished.selector.total_selections % 2 ^ 64 ≡ 6)
    × ((finished.selector.success_selections + finished.selector.failed_selections) % 2 ^ 64 ≡ 6)
run_counts_example =
    run_counts token_bucket_limiter (health_breaker fractions) schedule state hosts
      ((refl, omega arith), tt) (refl, tt) (omega arith) enough

-- The second job finds the only slot taken and ends with an error.
race_results : (finished.success_jobs ≡ 4) × (finished.failed_jobs ≡ 2)
unfolding run step breaker_passes try_acquire_concurrency TokenBucket.try_acquire maybe_refill
    earned release_concurrency
race_results = (refl, refl)

abbrev alone_env : Env ℕ
alone_env =
    env_of token_bucket_limiter (health_breaker fractions) 1000000001 none input.outcome
      "example.com" input.outcome

run-execute_job_example :
    let (s', sent) = execute_job token_bucket_limiter (health_breaker fractions) alone_env state in
    (n : ℕ) × (r : Result ℕ) × (sent ≡ some r)
    × (run token_bucket_limiter
          (health_breaker fractions)
          (alone token_bucket_limiter
            (health_breaker fractions)
            1000000001
            none
            input.outcome
            "example.com"
            n)
          (begin state ("example.com" ∷ []))
        ≡ record {
          state = s';
          jobs = record { hostname = "example.com"; started = 1000000001; pc = ended r } ∷ [];
        })
run-execute_job_example =
    run-execute_job token_bucket_limiter (health_breaker fractions) 1000000001 none input.outcome
      "example.com" state (omega arith) (refl, tt)
