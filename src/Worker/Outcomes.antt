-- ===== src/Worker/Outcomes.antt =====
-- How a job can end, once it has a client.
use rapid_proxy.Prelude.{
  ℕ, ◌≡◌, ◌≢◌, refl, arith, Option, none, some, Clock, set, Option-cases, inl, inr,
}
use rapid_proxy.TokenBucket.{Acquired, acquired, cancelled, waiting}
use rapid_proxy.DomainLimiter
use rapid_proxy.DomainLimiter.{DomainLimiter}
use rapid_proxy.Client.{
  ProxyClient, Semaphore, Outcome, transport_error, answered, do_request, release_concurrency,
}
use rapid_proxy.Client.Slots.{Holding, Holding-same}
use rapid_proxy.Client.Accounting.{do_request-counts}
use rapid_proxy.Client.Interfaces.{RateLimiter, CircuitBreaker}
use rapid_proxy.Worker.{
  Env, State, Result, Executed, JobError, failure, success, fail, succeed, release_slot, perform,
  after_limit, limit_domain,
}

module _ {L B E : Type 0} where
  -- How a job that has a client with these domain limits can end: with a response, with an error, or,
  -- only if there are limits, not yet.
  pub data Served (idx : ℕ) (sem : Option Semaphore) (limits : Option DomainLimiter)
      (s : State L B E) (out : Executed L B E) : Type 0 where
    responded :
        (c : ProxyClient L B E) (r : Result E)
        → c.concurrency_sem ≡ sem
        → r.error ≡ none
        → r.response ≢ none
        → out ≡ (record (succeed s) { clients = set s.clients idx c }, some r)
        → Served idx sem limits s out
    failed :
        (c : ProxyClient L B E) (r : Result E)
        → c.concurrency_sem ≡ sem
        → r.error ≢ none
        → r.response ≡ none
        → out ≡ (record (fail s) { clients = set s.clients idx c }, some r)
        → Served idx sem limits s out
    unfinished :
        (c : ProxyClient L B E)
        → limits ≢ none
        → out ≡ (record s { clients = set s.clients idx c }, none)
        → Served idx sem limits s out

  release_slot_lem :
      (idx : ℕ) (sem : Option Semaphore) (c : ProxyClient L B E) (s : State L B E) (r : Result E)
      → Holding sem c
      → (c' : ProxyClient L B E) × (c'.concurrency_sem ≡ sem)
        × (release_slot idx c s r ≡ (record s { clients = set s.clients idx c' }, some r))
  unfolding release_slot
  release_slot_lem idx sem c s r h = elim (Option-cases (release_concurrency c)) [
    | inl n ↦ absurd (ground arith)
    | inr (c', e) ↦ (c', ground arith, rw (e, release_slot))
  ]

module _ {L B E : Type 0} (lim : RateLimiter L E) (brk : CircuitBreaker B E) where
  do_request-outcome :
      (t : Clock) (o : Outcome E) (c : ProxyClient L B E) → (do_request brk t o c).1 ≡ o
  unfolding do_request
  do_request-outcome t o c = refl

  perform-Served :
      (env : Env E) (idx : ℕ) (sem : Option Semaphore) (limits : Option DomainLimiter)
      (c : ProxyClient L B E) (s : State L B E)
      → Holding sem c
      → Served idx sem limits s (perform lim brk env idx c s)
  unfolding perform
  perform-Served env idx sem limits c s h =
      by_outcome env.outcome (do_request-outcome env.do_clock env.outcome c)
    where
      c1 : ProxyClient L B E
      c1 = (do_request brk env.do_clock env.outcome c).0

      holding : Holding sem c1
      holding = Holding-same sem c c1 (do_request-counts brk env.do_clock env.outcome c).4 h

      by_outcome :
          (o : Outcome E)
          → (do_request brk env.do_clock env.outcome c).1 ≡ o
          → Served idx sem limits s (perform lim brk env idx c s)
      by_outcome (transport_error e) q =
          let r = failure env c.proxy_url (JobError.request_error e) in
          let (c', same, out) = release_slot_lem idx sem c1 (fail s) r holding in
          failed c' r same (λ x. cc) refl (rw (q, perform) out)
      by_outcome (answered resp) q =
          let r = success env c.proxy_url resp in
          let (c', same, out) = release_slot_lem idx sem c1 (succeed s) r holding in
          responded c' r same refl (λ x. cc) (rw (q, perform) out)

  after_limit-Served :
      (env : Env E) (idx : ℕ) (sem : Option Semaphore) (limits : Option DomainLimiter)
      (c : ProxyClient L B E) (s : State L B E) (got : Acquired E)
      → limits ≢ none
      → Holding sem c
      → Served idx sem limits s (after_limit lim brk env idx c s got)
  unfolding after_limit
  after_limit-Served env idx sem limits c s acquired n h = perform-Served env idx sem limits c s h
  after_limit-Served env idx sem limits c s (cancelled e) n h =
      let r = failure env c.proxy_url (JobError.context_error e) in
      let (c', same, out) = release_slot_lem idx sem c (fail s) r h in
      failed c' r same (λ x. cc) refl out
  after_limit-Served env idx sem limits c s waiting n h = unfinished c n refl

  pub limit_domain-Served :
      (env : Env E) (idx : ℕ) (sem : Option Semaphore) (c : ProxyClient L B E) (s : State L B E)
      → Holding sem c
      → Served idx sem c.domain_limiter s (limit_domain lim brk env idx c s)
  unfolding limit_domain
  limit_domain-Served env idx sem c s h = elim (Option-cases c.domain_limiter) [
    | inl n ↦ rw (n, limit_domain) (perform-Served env idx sem none c s h)
    | inr (dl, e) ↦
        let taken = DomainLimiter.acquire env.waits (some dl) env.hostname in
        let charged = record c { domain_limiter = taken.0 } in
        rw (e, limit_domain)
          (after_limit-Served env idx sem (some dl) charged s taken.1 (λ n. cc)
            (Holding-same sem c charged refl h))
  ]
