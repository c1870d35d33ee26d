-- ===== src/Errors.antt =====
-- rapidproxy/errors.go and rapidproxy/result.go, with the error values of internal/worker and
-- internal/selector: which of them a caller of the pool meets.
use Prim.Native.String.{String}
use rapid_proxy.Prelude.{
  ℕ, ◌≡◌, ◌≢◌, ◌⊎◌, inl, inr, refl, ap, Option, none, some, List, [], ◌∷◌, Int64, map, All, length,
  sym, suc, Option-cases, ◌∙◌,
}
use rapid_proxy.Client.{Response}
use rapid_proxy.Worker
use rapid_proxy.Worker.{JobError, all_proxies_busy, context_error, request_error}
use rapid_proxy.Worker.Queue.{Queue, SubmitBlocking, Sent, accepted, queue_full, panicked, submit}
use rapid_proxy.Pool.Request.{DoResult, do_with_context}
use rapid_proxy.Pool.Request
use rapid_proxy.Pool.Batch.{Awaited, BatchResult, Request, do_batch, result_of, meanwhile}
use rapid_proxy.Pool.Batch

-- The values that `errors.New` has made; no two are equal, whatever their texts.
pub data Sentinel : Type 0 where
  err_no_proxies err_all_proxies_busy err_queue_full err_pool_closed : Sentinel
  err_timeout err_context_cancelled : Sentinel
  worker_queue_full worker_pool_closed : Sentinel
  selector_all_proxies_busy selector_no_proxies : Sentinel

unfoldable pub text : Sentinel → String
text err_no_proxies = "no proxy URLs provided"
text err_all_proxies_busy = "all proxies are busy or unhealthy"
text err_queue_full = "worker pool queue is full"
text err_pool_closed = "pool is closed"
text err_timeout = "request timeout"
text err_context_cancelled = "context cancelled"
text worker_queue_full = "worker pool queue is full"
text worker_pool_closed = "worker pool is closed"
text selector_all_proxies_busy = "all proxies are busy or unhealthy"
text selector_no_proxies = "no proxies available"

-- An error: one of these values, or one of another package.
pub data Error (E : Type 0) : Type 0 where
  sentinel : Sentinel → Error E
  other : E → Error E

pub record Result (E : Type 0) : Type 0 where
  pub response : Option Response
  pub body : List ℕ
  pub proxy_used : String
  pub latency : Int64
  pub error : Option (Error E)

module _ {E : Type 0} where
  unfoldable pub job_error : JobError E → Error E
  job_error all_proxies_busy = sentinel selector_all_proxies_busy
  job_error (context_error e) = other e
  job_error (request_error e) = other e

  -- The result of a worker, as the pool passes it on.
  unfoldable pub to_result : Worker.Result E → Result E
  unfolding job_error
  to_result r = record {
    response = r.response;
    body = r.body;
    proxy_used = r.proxy_url;
    latency = r.duration;
    error = elim r.error [ none ↦ none | some e ↦ some (job_error e) ];
  }

  -- `&Result{Error: err}`
  abbrev pub failed : Error E → Result E
  failed e = record { response = none; body = []; proxy_used = ""; latency = 0; error = some e }

  -- The two values that a call of `DoWithContext` returns; `none`: it panics.
  unfoldable pub returns :
      DoResult (Worker.Result E) E → Option (Option (Result E) × Option (Error E))
  unfolding to_result
  returns (Request.received r) = some (some (to_result r), none)
  returns (Request.context_error e) = some (none, some (other e))
  returns Request.worker_pool_closed = some (none, some (sentinel worker_pool_closed))
  returns Request.pool_closed = some (none, some (sentinel err_pool_closed))
  returns Request.panicked = none

  unfoldable pub batch_result : BatchResult (Worker.Result E) E → Result E
  unfolding to_result
  batch_result (Batch.received r) = to_result r
  batch_result (Batch.context_error e) = failed (other e)
  batch_result Batch.pool_closed = failed (sentinel err_pool_closed)
  batch_result Batch.rejected = failed (sentinel worker_queue_full)

  -- The errors that a caller can look at.
  abbrev pub met : Option (Result E) × Option (Error E) → List (Error E)
  met (none, none) = []
  met (none, some e) = e ∷ []
  met (some r, none) = elim r.error [ none ↦ [] | some e ↦ e ∷ [] ]
  met (some r, some e) = e ∷ elim r.error [ none ↦ [] | some e' ↦ e' ∷ [] ]

  -- Not one of the values of rapidproxy/errors.go but `ErrPoolClosed`.
  abbrev pub IsForeign : Error E → Type 0
  IsForeign e =
      (e ≢ sentinel err_no_proxies)
      × (e ≢ sentinel err_all_proxies_busy)
      × (e ≢ sentinel err_queue_full)
      × (e ≢ sentinel err_timeout)
      × (e ≢ sentinel err_context_cancelled)

  IsForeign-other : (e : E) → IsForeign (other e)
  IsForeign-other e = (λ p. cc, λ p. cc, λ p. cc, λ p. cc, λ p. cc)

  IsForeign-sentinel :
      (s : Sentinel)
      → (s ≡ worker_queue_full)
        ⊎ ((s ≡ worker_pool_closed) ⊎ ((s ≡ selector_all_proxies_busy) ⊎ (s ≡ err_pool_closed)))
      → IsForeign (sentinel s)
  IsForeign-sentinel s (inl p) = rw p (λ q. cc, λ q. cc, λ q. cc, λ q. cc, λ q. cc)
  IsForeign-sentinel s (inr (inl p)) = rw p (λ q. cc, λ q. cc, λ q. cc, λ q. cc, λ q. cc)
  IsForeign-sentinel s (inr (inr (inl p))) = rw p (λ q. cc, λ q. cc, λ q. cc, λ q. cc, λ q. cc)
  IsForeign-sentinel s (inr (inr (inr p))) = rw p (λ q. cc, λ q. cc, λ q. cc, λ q. cc, λ q. cc)

  job_error-IsForeign : (e : JobError E) → IsForeign (job_error e)
  unfolding job_error
  job_error-IsForeign all_proxies_busy =
      IsForeign-sentinel selector_all_proxies_busy (inr (inr (inl refl)))
  job_error-IsForeign (context_error e) = IsForeign-other e
  job_error-IsForeign (request_error e) = IsForeign-other e

  to_result-IsForeign :
      (r : Worker.Result E) → All (λ e. IsForeign e) (met (some (to_result r), none))
  unfolding to_result
  to_result-IsForeign r = by_error r.error refl
    where
      by_error :
          (o : Option (JobError E))
          → r.error ≡ o
          → All (λ e. IsForeign e) (met (some (to_result r), none))
      by_error none p = rw (p, to_result) tt
      by_error (some e) p = rw (p, to_result) (job_error-IsForeign e, tt)

  batch_result-IsForeign :
      (r : BatchResult (Worker.Result E) E)
      → All (λ e. IsForeign e) (met (some (batch_result r), none))
  unfolding batch_result
  batch_result-IsForeign (Batch.received r) = to_result-IsForeign r
  batch_result-IsForeign (Batch.context_error e) = (IsForeign-other e, tt)
  batch_result-IsForeign Batch.pool_closed =
      (IsForeign-sentinel err_pool_closed (inr (inr (inr refl))), tt)
  batch_result-IsForeign Batch.rejected = (IsForeign-sentinel worker_queue_full (inl refl), tt)

  -- What a call returns: a result or an error, never both.
  abbrev pub IsOne : Option (Result E) × Option (Error E) → Type 0
  IsOne (o, e) = ((o ≡ none) × (e ≢ none)) ⊎ ((o ≢ none) × (e ≡ none))

  returns-IsForeign :
      (d : DoResult (Worker.Result E) E) (out : Option (Result E) × Option (Error E))
      → returns d ≡ some out
      → IsOne out × All (λ e. IsForeign e) (met out)
  unfolding returns
  returns-IsForeign (Request.received r) out h =
      let p : (some (to_result r), none) ≡ out = cc in
      rw (← p) (inr (λ q. cc, refl), to_result-IsForeign r)
  returns-IsForeign (Request.context_error e) out h =
      let p : (none, some (other e)) ≡ out = cc in
      rw (← p) (inl (refl, λ q. cc), (IsForeign-other e, tt))
  returns-IsForeign Request.worker_pool_closed out h =
      let p : (none, some (sentinel worker_pool_closed)) ≡ out = cc in
      rw (← p) (inl (refl, λ q. cc), (IsForeign-sentinel worker_pool_closed (inr (inl refl)), tt))
  returns-IsForeign Request.pool_closed out h =
      let p : (none, some (sentinel err_pool_closed)) ≡ out = cc in
      rw (← p)
        (inl (refl, λ q. cc), (IsForeign-sentinel err_pool_closed (inr (inr (inr refl))), tt))
  returns-IsForeign Request.panicked out h = cc

length-map : {A B : Type 0} (f : A → B) (xs : List A) → length (map f xs) ≡ length xs
length-map f [] = refl
length-map f (x ∷ xs) = ap suc (length-map f xs)

batch_results-IsForeign :
    {E : Type 0} (rs : List (BatchResult (Worker.Result E) E))
    → All (λ r. All (λ e. IsForeign e) (met (some r, none))) (map batch_result rs)
batch_results-IsForeign [] = tt
batch_results-IsForeign (r ∷ rs) = (batch_result-IsForeign r, batch_results-IsForeign rs)

module _ {J E : Type 0} where
  -- A call of `DoWithContext` that does not panic returns either a result or an error, and neither that
  -- error nor the result's is ever the package's own `ErrNoProxies`, `ErrAllProxiesBusy`,
  -- `ErrQueueFull`, `ErrTimeout` or `ErrContextCancelled`, whichever way the call goes.
  pub do_with_context-errors :
      {ctx : Option E} (j : J) (q : Queue J) (b : SubmitBlocking ctx q)
      (a : Awaited (Worker.Result E) E) (out : Option (Result E) × Option (Error E))
      → returns (do_with_context j q b a).1 ≡ some out
      → IsOne out × All (λ e. IsForeign e) (met out)
  do_with_context-errors j q b a out h = returns-IsForeign (do_with_context j q b a).1 out h

  same_results :
      (x : Queue J × List (BatchResult (Worker.Result E) E)) (q' : Queue J)
      (out : List (BatchResult (Worker.Result E) E))
      → some x ≡ some (q', out)
      → length out ≡ length x.1
  same_results x q' out e =
      let p : x ≡ (q', out) = cc in
      sym (ap (λ (y : Queue J × List (BatchResult (Worker.Result E) E)). length y.1) p)

  do_batch-length :
      (rs : List (Request J (Worker.Result E) E)) (q q' : Queue J)
      (out : List (BatchResult (Worker.Result E) E))
      → do_batch rs q ≡ some (q', out)
      → length out ≡ length rs
  unfolding do_batch
  do_batch-length [] q q' out h = same_results (q, []) q' out h
  do_batch-length (r ∷ rs) q q' out h =
      by_sent (submit r.job (meanwhile r.before q)).1 refl
        (Option-cases (do_batch rs (submit r.job (meanwhile r.before q)).0))
        (λ q2 out2 e. do_batch-length rs (submit r.job (meanwhile r.before q)).0 q2 out2 e)
    where
      q1 : Queue J
      q1 = (submit r.job (meanwhile r.before q)).0

      by_sent :
          (sent : Sent)
          → (submit r.job (meanwhile r.before q)).1 ≡ sent
          → (do_batch rs q1 ≡ none)
            ⊎ ((x : Queue J × List (BatchResult (Worker.Result E) E)) × (do_batch rs q1 ≡ some x))
          → ((q2 : Queue J) (out2 : List (BatchResult (Worker.Result E) E))
              → do_batch rs q1 ≡ some (q2, out2)
              → length out2 ≡ length rs)
          → length out ≡ suc (length rs)
      by_sent panicked p o ih = cc (rw (p, do_batch) at h)
      by_sent accepted p (inl e) ih = cc (rw (p, e, do_batch) at h)
      by_sent queue_full p (inl e) ih = cc (rw (p, e, do_batch) at h)
      by_sent accepted p (inr ((q2, out2), e)) ih =
          same_results (q2, result_of r.awaited accepted ∷ out2) q' out (rw (p, e, do_batch) at h)
          ∙ ap suc (ih q2 out2 e)
      by_sent queue_full p (inr ((q2, out2), e)) ih =
          same_results (q2, result_of r.awaited queue_full ∷ out2) q' out (rw (p, e, do_batch) at h)
          ∙ ap suc (ih q2 out2 e)

  -- A batch that does not panic has one result for each request, and no error among them is one of
  -- those of the package but `ErrPoolClosed`.
  pub do_batch-errors :
      (rs : List (Request J (Worker.Result E) E)) (q q' : Queue J)
      (out : List (BatchResult (Worker.Result E) E))
      → do_batch rs q ≡ some (q', out)
      → (length (map batch_result out) ≡ length rs)
        × All (λ r. All (λ e. IsForeign e) (met (some r, none))) (map batch_result out)
  do_batch-errors rs q q' out h =
      (length-map batch_result out ∙ do_batch-length rs q q' out h, batch_results-IsForeign out)
