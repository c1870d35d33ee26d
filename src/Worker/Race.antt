-- ===== src/Worker/Race.antt =====
-- `executeJob` of internal/worker/pool.go, with `Select` in it, for any number of jobs over the same
-- clients under any interleaving. One step of a job is one access to what the jobs share, with the
-- local work that follows it; a call of a limiter or a breaker is one access (TokenBucket.Race and
-- CircuitBreaker.Race look into them).
pub mod Slots
pub mod Progress
pub mod Finish
pub mod Counters
pub mod Complete
pub mod Solo
pub mod Arrivals
use Prim.Native.String.{String}
use rapid_proxy.Prelude.{
  ℕ, zero, suc, ◌%◌, Bool, true, false, Option, none, some, List, [], ◌∷◌, Int64, Clock, add64,
  sub64, ltb, if◌then◌else◌, length, get_elem?, set,
}
use rapid_proxy.DomainLimiter
use rapid_proxy.Client.{
  ProxyClient, Response, Outcome, transport_error, answered, try_acquire_concurrency,
  release_concurrency,
}
use rapid_proxy.Client.Steps.{count_outcome, stamp_outcome, note_error, error_of, tell_breaker}
use rapid_proxy.Client.Interfaces.{RateLimiter, CircuitBreaker}
use rapid_proxy.Selector.{
  Selection, RoundRobinSelector, rounds, breaker_passes, count_selection, selected,
}
use rapid_proxy.Selector
use rapid_proxy.Worker.{
  JobError, all_proxies_busy, context_error, request_error, Result, State, body_of, fail, succeed,
}

-- What one step reads of the world: the clock, the job's context, and what `http.Client.Do` returns.
pub record Input (E : Type 0) : Type 0 where
  pub clock : Clock
  pub ctx : Option E
  pub outcome : Outcome E

-- `Select` at one client, in round `i` from `start`.
pub data Visit : Type 0 where
  checking : Visit  -- before the circuit breaker
  claiming : Visit  -- before `TryAcquireConcurrency`
  limiting : Visit  -- with a slot, before the rate limiter
  undoing : Visit  -- with a slot, before the `ReleaseConcurrency` of a refused attempt

-- The job with a slot of its client.
pub data Serve (E : Type 0) : Type 0 where
  chosen : Serve E  -- before `Select` counts its success
  waiting : Serve E  -- before an attempt of the domain limiter
  sleeping : Serve E  -- between two attempts
  cancelling : (url : String) (e : E) → Serve E  -- the wait has ended with an error
  sending : Serve E  -- before `Do`
  in_flight : Serve E  -- before `http.Client.Do` returns
  recording : Outcome E → Serve E  -- before the outcome is counted at the client
  stamping : Outcome E → Serve E  -- before its time is stored
  noting : Outcome E → Serve E  -- before the error, if there is one, is stored
  telling : Outcome E → Serve E  -- before the circuit breaker is told
  answering : Outcome E → Serve E  -- `Do` has returned
  settling : Result E → Serve E  -- before the job is counted
  releasing : Result E → Serve E  -- the result is sent; before the deferred `ReleaseConcurrency`

pub data Pc (E : Type 0) : Type 0 where
  queued selecting rotating : Pc E
  looping : (start i : ℕ) → Pc E
  visiting : Visit → (start i idx : ℕ) → Pc E
  serving : Serve E → (idx : ℕ) → Pc E
  refusing : JobError E → Pc E  -- before `Select` counts its failure
  failing : JobError E → Pc E  -- before the job is counted
  ended : Result E → Pc E

pub record Job (E : Type 0) : Type 0 where
  pub hostname : String
  pub started : Int64
  pub pc : Pc E

pub record System (L B E : Type 0) : Type 0 where
  pub state : State L B E
  pub jobs : List (Job E)

-- `Result` with an error, at the time `now`.
abbrev pub failed_at : {E : Type 0} → Int64 → Int64 → String → JobError E → Result E
failed_at started now url e = record {
  response = none;
  body = [];
  proxy_url = url;
  duration = sub64 now started;
  error = some e;
}

abbrev pub result_at : {E : Type 0} → Int64 → Int64 → String → Outcome E → Result E
result_at started now url (transport_error e) = failed_at started now url (request_error e)
result_at started now url (answered resp) = record {
  response = some resp;
  body = body_of resp;
  proxy_url = url;
  duration = sub64 now started;
  error = none;
}

abbrev pub refusal : {E : Type 0} → JobError E → Selection E
refusal (context_error e) = Selection.cancelled e
refusal _ = Selection.all_proxies_busy

-- What a job has put into its channel, which has room for it.
abbrev pub result_channel : {E : Type 0} → Pc E → Option (Result E)
result_channel (serving (releasing r) idx) = some r
result_channel (ended r) = some r
result_channel _ = none

module _ {L B E : Type 0} where
  -- A step that works on client `idx`; with no such client the job is stuck.
  pub at_client :
      ℕ → (ProxyClient L B E → ProxyClient L B E × Pc E) → Pc E → State L B E → State L B E × Pc E
  at_client idx f stuck s = elim (get_elem? s.clients idx) [
    | none ↦ (s, stuck)
    | some c ↦ (record s { clients = set s.clients idx (f c).0 }, (f c).1)
  ]

  abbrev pub told : Selection E → State L B E → State L B E
  told found s = record s { selector = count_selection found s.selector }

  abbrev pub count_job : Result E → State L B E → State L B E
  count_job r s = elim r.error [ none ↦ succeed s | some e ↦ fail s ]

  -- The head of the loop of `Select`.
  abbrev loop_head : Input E → ℕ → ℕ → State L B E → Pc E
  loop_head inp start i s =
      if ltb i (rounds s.selector.max_retries)
      then (elim inp.ctx [
        | some e ↦ refusing (context_error e)
        | none ↦ visiting checking start i (add64 start i % length s.clients)
      ])
      else refusing all_proxies_busy

module _ {L B E : Type 0} (lim : RateLimiter L E) (brk : CircuitBreaker B E) where
  -- A step of `Select` at its client.
  unfoldable pub visit : Input E → Visit → ℕ → ℕ → ℕ → ProxyClient L B E → ProxyClient L B E × Pc E
  visit inp checking start i idx c = (
    c,
    if breaker_passes lim brk (inp.clock 0) c
        then visiting claiming start i idx
        else looping start (suc i),
  )
  visit inp claiming start i idx c =
      let (c', got) = try_acquire_concurrency c in
      (c', if got then visiting limiting start i idx else looping start (suc i))
  visit inp limiting start i idx c = elim c.rate_limiter [
    | none ↦ (c, serving chosen idx)
    | some l ↦
        let (l', granted) = lim.try_acquire (inp.clock 0) l in
        (
          record c { rate_limiter = some l' },
          if granted then serving chosen idx else visiting undoing start i idx,
        )
  ]
  visit inp undoing start i idx c = elim (release_concurrency c) [
    | none ↦ (c, visiting undoing start i idx)
    | some c' ↦ (c', looping start (suc i))
  ]

  -- A step of the job at the client that it has.
  unfoldable pub serve :
      Input E → Job E → Serve E → ℕ → ProxyClient L B E → ProxyClient L B E × Pc E
  serve inp job waiting idx c = elim c.domain_limiter [
    | none ↦ (c, serving sending idx)
    | some dl ↦
        let (dl', got) = DomainLimiter.try_acquire (inp.clock 0) (some dl) job.hostname in
        (
          record c { domain_limiter = dl' },
          if got then serving sending idx else serving sleeping idx,
        )
  ]
  serve inp job sleeping idx c = elim inp.ctx [
    | some e ↦ (c, serving (cancelling c.proxy_url e) idx)
    | none ↦ (c, serving waiting idx)
  ]
  serve inp job sending idx c =
      (record c { total_requests = add64 c.total_requests 1 }, serving in_flight idx)
  serve inp job in_flight idx c = (c, serving (recording inp.outcome) idx)
  serve inp job (recording o) idx c = (count_outcome o c, serving (stamping o) idx)
  serve inp job (stamping o) idx c = (stamp_outcome (inp.clock 0) o c, serving (noting o) idx)
  serve inp job (noting o) idx c =
      (note_error (inp.clock 0) (error_of o) c, serving (telling o) idx)
  serve inp job (telling o) idx c = (tell_breaker brk inp.clock o c, serving (answering o) idx)
  serve inp job (answering o) idx c =
      (c, serving (settling (result_at job.started (inp.clock 0) c.proxy_url o)) idx)
  serve inp job (releasing r) idx c = elim (release_concurrency c) [
    | none ↦ (c, serving (releasing r) idx)
    | some c' ↦ (c', ended r)
  ]
  serve inp job s idx c = (c, serving s idx)

  -- A step that counts what the job has done at its client.
  unfoldable pub settle : Input E → Job E → Serve E → ℕ → State L B E → State L B E × Pc E
  unfolding serve at_client
  settle inp job chosen idx s = (told (selected idx) s, serving waiting idx)
  settle inp job (cancelling url e) idx s =
      (fail s, serving (releasing (failed_at job.started (inp.clock 0) url (context_error e))) idx)
  settle inp job (settling r) idx s = (count_job r s, serving (releasing r) idx)
  settle inp job p idx s = at_client idx (serve inp job p idx) (serving p idx) s

  -- One step of one job.
  unfoldable pub move : Input E → Job E → Pc E → State L B E → State L B E × Pc E
  unfolding visit settle at_client
  move inp job queued s = (record s { total_jobs = add64 s.total_jobs 1 }, selecting)
  move inp job selecting s = (
    record s {
      selector = record (s.selector) { total_selections = add64 s.selector.total_selections 1 };
    },
    rotating,
  )
  move inp job rotating s =
      let next = add64 s.selector.current_index 1 in
      (
        record s { selector = record (s.selector) { current_index = next } },
        looping (next % length s.clients) 0,
      )
  move inp job (looping start i) s = (s, loop_head inp start i s)
  move inp job (visiting v start i idx) s =
      at_client idx (visit inp v start i idx) (visiting v start i idx) s
  move inp job (serving p idx) s = settle inp job p idx s
  move inp job (refusing e) s = (told (refusal e) s, failing e)
  move inp job (failing e) s = (fail s, ended (failed_at job.started (inp.clock 0) "" e))
  move inp job (ended r) s = (s, ended r)

  -- `time.Now` follows the first count.
  abbrev pub starts_at : Int64 → Job E → Pc E → Int64
  starts_at now job queued = now
  starts_at now job _ = job.started

  unfoldable pub step_job : ℕ → Input E → System L B E → Option (Job E) → System L B E
  unfolding move
  step_job j inp sys none = sys
  step_job j inp sys (some job) =
      let (s, pc) = move inp job job.pc sys.state in
      record {
        state = s;
        jobs =
            set sys.jobs j (record job { started = starts_at (inp.clock 0) job job.pc; pc = pc });
      }

  -- Job `j` takes a step.
  unfoldable pub step : ℕ × Input E → System L B E → System L B E
  unfolding step_job
  step (j, inp) sys = step_job j inp sys (get_elem? sys.jobs j)

  -- The scheduler chooses a job for each step, and the world what it reads.
  unfoldable pub run : List (ℕ × Input E) → System L B E → System L B E
  run [] sys = sys
  run (x ∷ xs) sys = run xs (step x sys)

abbrev pub new_job : {E : Type 0} → String → Job E
new_job hostname = record { hostname = hostname; started = 0; pc = queued }
