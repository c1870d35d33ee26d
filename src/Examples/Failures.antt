-- ===== src/Examples/Failures.antt =====
-- The errors of calls of rapidproxy at concrete values.
use rapid_proxy.Prelude.{
  ℕ, ◌≡◌, refl, arith, false, Option, none, some, List, [], ◌∷◌, map, All, length,
}
use rapid_proxy.Worker
use rapid_proxy.Worker.{all_proxies_busy}
use rapid_proxy.Worker.Queue.{Queue, SubmitBlocking, sends, submit}
use rapid_proxy.Pool.Request.{do_with_context}
use rapid_proxy.Pool.Batch.{
  BatchResult, Request, finished, closed, received, rejected, do_batch, meanwhile, result_of,
  collect,
}
use rapid_proxy.Errors.{
  Error, Result, sentinel, selector_all_proxies_busy, err_all_proxies_busy, text, returns,
  to_result, job_error, IsOne, IsForeign, met, batch_result, do_with_context-errors,
  do_batch-errors,
}

abbrev busy_result : Worker.Result ℕ
busy_result = record {
  response = none;
  body = [];
  proxy_url = "";
  duration = 20;
  error = some all_proxies_busy;
}

abbrev queue : Queue ℕ
queue = record { jobs = []; capacity = 1; closed = false; ctx_done = false }

abbrev way : SubmitBlocking {E = ℕ} none queue
way = sends refl (omega arith)

abbrev busy_call : Option (Result ℕ) × Option (Error ℕ)
busy_call = (
  some (record {
    response = none;
    body = [];
    proxy_used = "";
    latency = 20;
    error = some (sentinel selector_all_proxies_busy);
  }),
  none,
)

busy_returns : returns (do_with_context 7 queue way (finished busy_result)).1 ≡ some busy_call
unfolding returns do_with_context to_result job_error
busy_returns = refl

-- Printed, the two errors cannot be told apart.
same_text : text selector_all_proxies_busy ≡ text err_all_proxies_busy
unfolding text
same_text = refl

do_with_context-errors_example : IsOne busy_call × All (λ e. IsForeign e) (met busy_call)
do_with_context-errors_example =
    do_with_context-errors 7 queue way (finished busy_result) busy_call busy_returns

abbrev batch : List (Request ℕ (Worker.Result ℕ) ℕ)
batch =
    record { job = 1; before = []; awaited = finished busy_result }
    ∷ record { job = 2; before = []; awaited = closed }
    ∷ []

abbrev full : Queue ℕ
full = record { jobs = 1 ∷ []; capacity = 1; closed = false; ctx_done = false }

abbrev outcomes : List (BatchResult (Worker.Result ℕ) ℕ)
outcomes = received busy_result ∷ rejected ∷ []

batch_done : do_batch batch queue ≡ some (full, outcomes)
unfolding do_batch submit meanwhile result_of collect
batch_done = refl

do_batch-errors_example :
    (length (map batch_result outcomes) ≡ 2)
    × All (λ r. All (λ e. IsForeign e) (met (some r, none))) (map batch_result outcomes)
do_batch-errors_example = do_batch-errors batch queue full outcomes batch_done
