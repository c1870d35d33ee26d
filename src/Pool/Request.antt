-- ===== src/Pool/Request.antt =====
-- `DoWithContext` of rapidproxy/pool.go: which way `SubmitBlocking` goes is an argument, and so is what
-- the second `select` meets first.
use rapid_proxy.Prelude.{◌≡◌, ◌≢◌, refl, true, false, Option, some, inl, inr, ◌⊎◌}
use rapid_proxy.Worker.Queue.{Queue, SubmitBlocking, sends, send_panics, context_ends, push}
use rapid_proxy.Pool.Batch.{Awaited, finished, context_done, closed}

-- What a call of `DoWithContext` comes to. The closed pool has an error of internal/worker, which
-- `SubmitBlocking` returns, and one of rapidproxy.
pub data DoResult (R E : Type 0) : Type 0 where
  received : R → DoResult R E
  context_error : E → DoResult R E
  worker_pool_closed pool_closed panicked : DoResult R E

module _ {R E : Type 0} where
  abbrev pub awaited_result : Awaited R E → DoResult R E
  awaited_result (finished r) = received r
  awaited_result (context_done e) = context_error e
  awaited_result closed = pool_closed

module _ {J R E : Type 0} where
  unfoldable pub do_with_context :
      {ctx : Option E} (j : J) (q : Queue J)
      → SubmitBlocking ctx q
      → Awaited R E
      → Queue J × DoResult R E
  do_with_context j q (sends o h) a = (push j q, awaited_result a)
  do_with_context j q (send_panics c) a = (q, panicked)
  do_with_context j q (context_ends e c) a = (q, context_error e)
  do_with_context j q (SubmitBlocking.pool_closed c) a = (q, worker_pool_closed)

  -- For a queue that is closed exactly if the pool's context is done. On an open pool a call never
  -- panics: it adds its job at the end of the queue and returns what it has awaited, or it returns
  -- the error of its context and leaves the queue alone. Once the pool is stopped, a call leaves
  -- the queue alone and never returns a response, whichever way it goes.
  pub do_with_context_lem :
      {ctx : Option E} (j : J) (q : Queue J) (b : SubmitBlocking ctx q) (a : Awaited R E)
      → q.closed ≡ q.ctx_done
      → let (q', r) = do_with_context j q b a in
        (q.closed ≡ false
          → ((q' ≡ push j q) × (r ≡ awaited_result a) × (r ≢ panicked))
            ⊎ ((q' ≡ q) × ((e : E) × (ctx ≡ some e) × (r ≡ context_error e))))
        × (q.closed ≡ true → (q' ≡ q) × ((x : R) → r ≢ received x))
  unfolding do_with_context
  do_with_context_lem j q (sends o h) (finished x) s = (λ c. inl (refl, refl, λ e. cc), λ c. cc)
  do_with_context_lem j q (sends o h) (context_done x) s = (λ c. inl (refl, refl, λ e. cc), λ c. cc)
  do_with_context_lem j q (sends o h) closed s = (λ c. inl (refl, refl, λ e. cc), λ c. cc)
  do_with_context_lem j q (send_panics o) a s = (λ c. cc, λ c. (refl, λ x e. cc))
  do_with_context_lem j q (context_ends e c) a s =
      (λ o. inr (refl, (e, c, refl)), λ o. (refl, λ x p. cc))
  do_with_context_lem j q (SubmitBlocking.pool_closed d) a s = (λ c. cc, λ c. (refl, λ x e. cc))
