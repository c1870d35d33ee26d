-- ===== src/Pool/Calls.antt =====
-- The calls of `DoWithContext` and the requests of `DoBatchWithContext` of rapidproxy/pool.go at work: any
-- number of them, the job queue, the workers that execute the jobs of Worker.Race, the contexts of the
-- calls and `Close`, in any interleaving. Call `k` has made job `k`; the requests of a batch are calls of
-- their own, each with its goroutine.
pub mod Queueing
pub mod Placing
pub mod Results
pub mod Slots
pub mod Measure
pub mod Going
pub mod Settle
use Prim.Native.String.{String}
use rapid_proxy.Prelude.{
  ℕ, ◌≡◌, ◌≢◌, Bool, true, false, Option, none, some, List, [], ◌∷◌, ◌++◌, get_elem?, set,
}
use rapid_proxy.Client.Interfaces.{RateLimiter, CircuitBreaker}
use rapid_proxy.Worker.{State, Result}
use rapid_proxy.Worker.Queue.{
  Queue, Sent, accepted, queue_full, SubmitBlocking, sends, send_panics, context_ends, pool_closed,
  push, submit,
}
use rapid_proxy.Worker.Race.{Input, ended, Job, result_channel}
use rapid_proxy.Worker.Race.Arrivals.{with_job}
use rapid_proxy.Worker.Race
use rapid_proxy.Worker.Race.Slots.{begin}
use rapid_proxy.Worker.Shutdown.{Hand, busy, Crew, Chosen, Stopper, start, worker_turn, stop_step}
use rapid_proxy.Pool.Batch.{Awaited, finished, context_done, closed}
use rapid_proxy.Pool.Request.{DoResult, context_error, worker_pool_closed, panicked, awaited_result}

-- Where a call stands.
pub data Stage (E : Type 0) : Type 0 where
  submitting awaiting rejected : Stage E
  returned : DoResult (Result E) E → Stage E

-- A call of `DoWithContext`, which blocks until its job is in the queue, or a request of a batch, which
-- does not; with the error of its context once that has ended.
pub record Call (E : Type 0) : Type 0 where
  pub blocking : Bool
  pub ctx : Option E
  pub stage : Stage E

-- The queue holds the numbers of the jobs; `ctx_done` is the context of the pool, which is not that of
-- its workers.
pub record Running (L B E : Type 0) : Type 0 where
  pub race : Race.System L B E
  pub crew : Crew ℕ
  pub calls : List (Call E)
  pub ctx_done : Bool

module _ {E : Type 0} where
  -- Where a call stands after `SubmitBlocking`, and the queue.
  abbrev pub submitted : {ctx : Option E} {q : Queue ℕ} → SubmitBlocking ctx q → Stage E
  submitted (sends o h) = awaiting
  submitted (send_panics c) = returned panicked
  submitted (context_ends e c) = returned (context_error e)
  submitted (pool_closed c) = returned worker_pool_closed

  -- And after `Submit`.
  abbrev pub tried : Sent → Stage E
  tried accepted = awaiting
  tried queue_full = rejected
  tried Sent.panicked = returned panicked

  abbrev pub queue_after : {ctx : Option E} → ℕ → (q : Queue ℕ) → SubmitBlocking ctx q → Queue ℕ
  queue_after k q (sends o h) = push k q
  queue_after k q _ = q

module _ {L B E : Type 0} where
  -- The pool that `New` has made, with no call yet.
  unfoldable pub opened : State L B E → ℕ → ℕ → Running L B E
  opened s num_workers queue_size = record {
    race = begin s [];
    crew = start num_workers queue_size;
    calls = [];
    ctx_done = false;
  }

  abbrev pub call_becomes : ℕ → Call E → Running L B E → Running L B E
  call_becomes k c s = record s { calls = set s.calls k c }

  -- The cases of the second `select` that are ready for call `k`.
  abbrev pub IsReady : Awaited (Result E) E → ℕ → Call E → Running L B E → Type 0
  IsReady (finished r) k c s =
      (job : Job E) × (get_elem? s.race.jobs k ≡ some job) × (result_channel job.pc ≡ some r)
  IsReady (context_done e) k c s = c.ctx ≡ some e
  IsReady closed k c s = s.ctx_done ≡ true

  -- A worker leaves a job only at its end.
  abbrev pub IsThrough : Hand ℕ → Running L B E → Type 0
  IsThrough (busy j) s =
      (job : Job E) × (r : Result E) × (get_elem? s.race.jobs j ≡ some job) × (job.pc ≡ ended r)
  IsThrough _ s = Unit {0}

module _ {L B E : Type 0} (lim : RateLimiter L E) (brk : CircuitBreaker B E) where
  -- One step of one goroutine.
  pub data Step (s s' : Running L B E) : Type 0 where
    arrives :
        (hostname : String) (blocking : Bool)
        → s' ≡ record s {
          race = with_job hostname s.race;
          calls = s.calls ++ record { blocking = blocking; ctx = none; stage = submitting } ∷ [];
        }
        → Step s s'
    expires :
        (k : ℕ) (c : Call E) (e : E)
        → get_elem? s.calls k ≡ some c
        → c.ctx ≡ none
        → s' ≡ call_becomes k (record c { ctx = some e }) s
        → Step s s'
    submits :
        (k : ℕ) (c : Call E) (b : SubmitBlocking c.ctx s.crew.queue)
        → get_elem? s.calls k ≡ some c
        → c.stage ≡ submitting
        → c.blocking ≡ true
        → s' ≡ record (call_becomes k (record c { stage = submitted b }) s) {
          crew = record (s.crew) { queue = queue_after k s.crew.queue b };
        }
        → Step s s'
    tries :
        (k : ℕ) (c : Call E)
        → get_elem? s.calls k ≡ some c
        → c.stage ≡ submitting
        → c.blocking ≡ false
        → s' ≡ record (call_becomes k (record c { stage = tried (submit k s.crew.queue).1 }) s) {
          crew = record (s.crew) { queue = (submit k s.crew.queue).0 };
        }
        → Step s s'
    awaits :
        (k : ℕ) (c : Call E) (a : Awaited (Result E) E)
        → get_elem? s.calls k ≡ some c
        → c.stage ≡ awaiting
        → IsReady a k c s
        → s' ≡ call_becomes k (record c { stage = returned (awaited_result a) }) s
        → Step s s'
    turns :
        (chosen : Chosen) (i : ℕ) (hand : Hand ℕ) (crew : Crew ℕ)
        → get_elem? s.crew.workers i ≡ some hand
        → IsThrough hand s
        → worker_turn chosen i hand s.crew ≡ some crew
        → s' ≡ record s { crew = crew }
        → Step s s'
    executes :
        (i j : ℕ) (c : Call E) (job : Job E) (inp : Input E)
        → get_elem? s.crew.workers i ≡ some (busy j)
        → get_elem? s.calls j ≡ some c
        → get_elem? s.race.jobs j ≡ some job
        → ((r : Result E) → job.pc ≢ ended r)
        → inp.ctx ≡ c.ctx
        → s' ≡ record s { race = Race.step lim brk (j, inp) s.race }
        → Step s s'
    cancels : s.ctx_done ≡ false → s' ≡ record s { ctx_done = true } → Step s s'
    stops :
        (crew : Crew ℕ)
        → s.ctx_done ≡ true
        → stop_step s.crew.stopper s.crew ≡ some crew
        → s' ≡ record s { crew = crew }
        → Step s s'

  pub data Reach (s0 : State L B E) (num_workers queue_size : ℕ) : Running L B E → Type 0 where
    opens : Reach s0 num_workers queue_size (opened s0 num_workers queue_size)
    next :
        {s s' : Running L B E}
        → Reach s0 num_workers queue_size s
        → Step s s'
        → Reach s0 num_workers queue_size s'
