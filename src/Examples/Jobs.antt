-- ===== src/Examples/Jobs.antt =====
-- Jobs and the queue of internal/worker at concrete values.
use Prim.Native.String.{String}
use rapid_proxy.Prelude.{
  ℕ, ◌+◌, ◌≤◌, All, length, ◌≡◌, ◌≢◌, refl, arith, true, false, none, some, List, [], ◌∷◌, map,
}
use rapid_proxy.Floats.{Fraction, fractions}
use rapid_proxy.TokenBucket.{TokenBucket}
use rapid_proxy.CircuitBreaker.{CircuitBreaker}
use rapid_proxy.Client.{answered}
use rapid_proxy.Worker.{Env, State, execute_job}
use rapid_proxy.Worker.Release.{execute_job-finishes}
use rapid_proxy.Worker.Queue.{
  Queue, History, Reach, begin, next, submits, receives, Inv, Reach-Inv, new_queue, submit, stop,
  cancel, close_jobs, panicked, SubmitBlocking, is_panic, submit-stop,
}
use rapid_proxy.Pool.{Client, token_bucket_limiter, health_breaker}
use rapid_proxy.Pool.Batch.{
  Request, finished, context_done, received, context_error, job_taken, job_sent, context_cancelled,
  queue_closed, meanwhile, without_first, jobs_sent, all_sent, all_taken, Moved, do_batch, collect,
  result_of, do_batch-fits,
}

abbrev proxy : Client Fraction ℕ
proxy = record {
  proxy_url = "http://a:8080";
  transport = none;
  timeout = 30000000000;
  total_requests = 0;
  success_requests = 0;
  failed_requests = 0;
  state = 0;
  last_error = none;
  last_success = 1000000000;
  last_failure = 0;
  rate_limiter =
      some (record { capacity = 10; refill_rate = 10; tokens = 3; last_refill = 1000000000 });
  circuit_breaker = none;
  concurrency_sem = some (record { capacity = 1; used = 0 });
  domain_limiter = none;
}

abbrev state : State TokenBucket (CircuitBreaker Fraction) ℕ
state = record {
  total_jobs = 4;
  success_jobs = 3;
  failed_jobs = 1;
  selector = record {
    current_index = 4;
    max_retries = 1;
    total_selections = 4;
    success_selections = 4;
    failed_selections = 0;
  };
  clients = proxy ∷ [];
}

abbrev env : Env ℕ
env = record {
  ctx = λ k. none;
  select_clock = λ i k. 1000000001;
  hostname = "example.com";
  waits = [];
  outcome = answered (record { status_code = 200; body = some (104 ∷ 105 ∷ []) });
  do_clock = λ k. 1000000002;
  start = 1000000000;
  finish = 1000000003;
}

sent : (execute_job token_bucket_limiter (health_breaker fractions) env state).1 ≢ none
sent =
    execute_job-finishes token_bucket_limiter (health_breaker fractions) env state (omega arith)
      (refl, tt)

abbrev history : History ℕ
history = record {
  queue = record { jobs = 6 ∷ []; capacity = 2; closed = false; ctx_done = false };
  submitted = 5 ∷ 6 ∷ [];
  taken = 5 ∷ [];
}

history-Reach : Reach 2 history
unfolding submit new_queue
history-Reach =
    next (next (next (begin refl) (submits 5 refl refl)) (submits 6 refl refl))
      (receives 5 (6 ∷ []) refl refl)

history-Inv : Inv 2 history
history-Inv = Reach-Inv history-Reach

abbrev stopped : Queue ℕ
stopped = record { jobs = 6 ∷ []; capacity = 2; closed = true; ctx_done = true }

is_stopped : stop history.queue ≡ some stopped
unfolding stop cancel close_jobs
is_stopped = refl

submit-stop_example :
    ((submit 7 stopped).1 ≡ panicked)
    × ((b : SubmitBlocking {E = ℕ} none stopped) × (is_panic b ≡ true))
submit-stop_example = submit-stop none 7 history.queue stopped is_stopped

-- Another caller's job comes between the two of the batch, after a worker has taken one.
abbrev batch : List (Request ℕ String ℕ)
batch =
    record { job = 7; before = job_taken ∷ []; awaited = finished "ok" }
    ∷ record { job = 8; before = job_sent 5 ∷ context_cancelled ∷ []; awaited = context_done 3 }
    ∷ []

abbrev wide : Queue ℕ
wide = record { jobs = 6 ∷ []; capacity = 4; closed = false; ctx_done = false }

batch-sent : length wide.jobs + length (all_sent batch) ≤ wide.capacity
unfolding all_sent jobs_sent
batch-sent = omega arith

batch_open : All (λ r. All (λ e. e ≢ queue_closed) r.before) batch
batch_open = ((λ e. cc, tt), ((λ e. cc, (λ e. cc, tt)), tt))

do_batch-fits_example :
    (q' : Queue ℕ) × (do_batch batch wide ≡ some (q', map (λ r. collect r.awaited) batch))
    × Moved (all_taken batch) wide.jobs (all_sent batch) q'.jobs
do_batch-fits_example = do_batch-fits batch wide refl batch_open batch-sent

batch_queue :
    do_batch batch wide
    ≡ some (
      record { jobs = 7 ∷ 5 ∷ 8 ∷ []; capacity = 4; closed = false; ctx_done = true },
      received "ok" ∷ context_error 3 ∷ [],
    )
unfolding do_batch meanwhile without_first submit cancel result_of collect
batch_queue = refl
