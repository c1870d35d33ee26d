-- ===== src/Worker.antt =====
-- internal/worker/job.go and `executeJob` of internal/worker/pool.go: what becomes of one job. What
-- the job meets on its way is its `Env`; the interleaving with other jobs is not modelled here.
pub mod Outcomes
pub mod Release
pub mod Queue
pub mod Shutdown
pub mod Stats
pub mod Race
use Prim.Native.String.{String}
use rapid_proxy.Prelude.{
  ℕ, Bool, true, false, Option, none, some, List, [], Int64, Clock, add64, sub64, set, get_elem?,
}
use rapid_proxy.TokenBucket.{Wake, Acquired, acquired, cancelled, waiting}
use rapid_proxy.DomainLimiter
use rapid_proxy.Client.{
  ProxyClient, Response, Outcome, transport_error, answered, do_request, release_concurrency,
}
use rapid_proxy.Client.Interfaces.{RateLimiter, CircuitBreaker}
use rapid_proxy.Selector
use rapid_proxy.Selector.{RoundRobinSelector, Selection, select}

-- The errors of a job: `ErrAllProxiesBusy`, that of its context, that of the HTTP client.
pub data JobError (E : Type 0) : Type 0 where
  all_proxies_busy : JobError E
  context_error : E → JobError E
  request_error : E → JobError E

pub record Result (E : Type 0) : Type 0 where
  pub response : Option Response
  pub body : List ℕ
  pub proxy_url : String
  pub duration : Int64
  pub error : Option (JobError E)

-- The job's context and readings of the clock, `req.URL.Hostname()`, the waits of the domain limiter,
-- what the HTTP client returns, and the readings at the start and at each `time.Since(start)`.
pub record Env (E : Type 0) : Type 0 where
  pub ctx : ℕ → Option E
  pub select_clock : ℕ → Clock
  pub hostname : String
  pub waits : List (Int64 × Wake E)
  pub outcome : Outcome E
  pub do_clock : Clock
  pub start : Int64
  pub finish : Int64

-- The part of the pool that a job changes, with the selector and the clients behind it.
pub record State (L B E : Type 0) : Type 0 where
  pub total_jobs : Int64
  pub success_jobs : Int64
  pub failed_jobs : Int64
  pub selector : RoundRobinSelector
  pub clients : List (ProxyClient L B E)

-- What the job's call leaves, and the result that it has sent; `none`: the call has not returned, since
-- it is stuck or still waiting.
abbrev pub Executed : Type 0 → Type 0 → Type 0 → Type 0
Executed L B E = State L B E × Option (Result E)

abbrev pub failure : {E : Type 0} → Env E → String → JobError E → Result E
failure env url e = record {
  response = none;
  body = [];
  proxy_url = url;
  duration = sub64 env.finish env.start;
  error = some e;
}

abbrev pub body_of : Response → List ℕ
body_of resp = elim resp.body [ none ↦ [] | some bytes ↦ bytes ]

abbrev pub success : {E : Type 0} → Env E → String → Response → Result E
success env url resp = record {
  response = some resp;
  body = body_of resp;
  proxy_url = url;
  duration = sub64 env.finish env.start;
  error = none;
}

module _ {L B E : Type 0} where
  abbrev pub fail : State L B E → State L B E
  fail s = record s { failed_jobs = add64 s.failed_jobs 1 }

  abbrev pub succeed : State L B E → State L B E
  succeed s = record s { success_jobs = add64 s.success_jobs 1 }

  -- The deferred release, when the function returns.
  pub release_slot : ℕ → ProxyClient L B E → State L B E → Result E → Executed L B E
  release_slot idx c s r = elim (release_concurrency c) [
    | none ↦ (record s { clients = set s.clients idx c }, none)
    | some c' ↦ (record s { clients = set s.clients idx c' }, some r)
  ]

module _ {L B E : Type 0} (lim : RateLimiter L E) (brk : CircuitBreaker B E) where
  -- Steps 2 to 4: the request, its body and the result.
  pub perform : Env E → ℕ → ProxyClient L B E → State L B E → Executed L B E
  unfolding release_slot
  perform env idx c s =
      let c' = (do_request brk env.do_clock env.outcome c).0 in
      elim ((do_request brk env.do_clock env.outcome c).1) [
        | transport_error e ↦
            release_slot idx c' (fail s) (failure env c.proxy_url (request_error e))
        | answered resp ↦ release_slot idx c' (succeed s) (success env c.proxy_url resp)
      ]

  -- What `dl.Acquire` returns decides.
  pub after_limit : Env E → ℕ → ProxyClient L B E → State L B E → Acquired E → Executed L B E
  unfolding perform
  after_limit env idx c s acquired = perform env idx c s
  after_limit env idx c s (cancelled e) =
      release_slot idx c (fail s) (failure env c.proxy_url (context_error e))
  after_limit env idx c s waiting = (record s { clients = set s.clients idx c }, none)

  -- The per-proxy domain limit, if the client has one.
  pub limit_domain : Env E → ℕ → ProxyClient L B E → State L B E → Executed L B E
  unfolding after_limit
  limit_domain env idx c s = elim c.domain_limiter [
    | none ↦ perform env idx c s
    | some dl ↦
        let (dl', got) = DomainLimiter.acquire env.waits (some dl) env.hostname in
        after_limit env idx (record c { domain_limiter = dl' }) s got
  ]

  with_client : Env E → ℕ → Option (ProxyClient L B E) → State L B E → Executed L B E
  unfolding limit_domain
  with_client env idx none s = (s, none)
  with_client env idx (some c) s = limit_domain env idx c s

  pub after_select : Env E → Selection E → State L B E → Executed L B E
  unfolding with_client
  after_select env (Selection.selected idx) s = with_client env idx (get_elem? s.clients idx) s
  after_select env Selection.all_proxies_busy s = (fail s, some (failure env "" all_proxies_busy))
  after_select env (Selection.cancelled e) s = (fail s, some (failure env "" (context_error e)))
  after_select env Selection.blocked s = (s, none)
  after_select env Selection.out_of_range s = (s, none)

  unfoldable pub execute_job : Env E → State L B E → Executed L B E
  unfolding after_select
  execute_job env s =
      let (selector', clients', found) =
        select lim brk env.ctx env.select_clock s.selector s.clients in
      after_select env found
        (record s { total_jobs = add64 s.total_jobs 1; selector = selector'; clients = clients' })
