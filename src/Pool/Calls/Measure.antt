-- ===== src/Pool/Calls/Measure.antt =====
-- How many steps the calls of `DoWithContext` can still take.
use rapid_proxy.Prelude.{
  inl, inr, ℕ, ◌+◌, ◌*◌, ◌<◌, ◌≡◌, refl, ap, arith, Bool, true, false, Option, none, some, List, [],
  ◌∷◌, get_elem?, length-append, set, sum_by, sum_by-append, sum_by-set,
}
use rapid_proxy.Client.{ProxyClient}
use rapid_proxy.Client.Interfaces.{RateLimiter, CircuitBreaker}
use rapid_proxy.Worker.Queue.{SubmitBlocking, sends, send_panics, context_ends, pool_closed}
use rapid_proxy.Worker.Race.{Job, new_job}
use rapid_proxy.Worker.Race.Slots.{tally}
use rapid_proxy.Worker.Race.Progress.{work}
use rapid_proxy.Worker.Race.Finish.{Alive, step-Alive}
use rapid_proxy.Worker.Race.Arrivals.{with_job-Alive, step-tally}
use rapid_proxy.Worker.Shutdown.{Crew, Stopper, serving, cancelling, joining, stopped, stop_step}
use rapid_proxy.Worker.Shutdown.Return.{left_of, turn-less}
use rapid_proxy.Pool.Request.{context_error, worker_pool_closed, panicked, awaited_result}
use rapid_proxy.Pool.Calls.Queueing.{tries_cases}
use rapid_proxy.Pool.Calls.{
  tries, Stage, submitting, awaiting, rejected, returned, Call, Running, submitted, Step, arrives,
  expires, submits, awaits, turns, executes, cancels, stops, queue_after,
}

module _ {E : Type 0} where
  abbrev stage_left : Stage E → ℕ
  stage_left submitting = 4
  stage_left awaiting = 1
  stage_left rejected = 0
  stage_left (returned d) = 0

  abbrev context_left : Option E → ℕ
  context_left none = 1
  context_left (some e) = 0

  abbrev call_left : Call E → ℕ
  call_left c = context_left c.ctx + stage_left c.stage

abbrev stop_left : Stopper → ℕ
stop_left serving = 3
stop_left cancelling = 2
stop_left joining = 1
stop_left stopped = 0

abbrev shut_left : Bool → ℕ
shut_left true = 0
shut_left false = 1

module _ {L B E : Type 0} where
  -- A bound on the steps of all goroutines with no further call, with `r` rounds for `Select`.
  abbrev pub remaining : ℕ → Running L B E → ℕ
  remaining r s =
      tally (work r) s.race.jobs
      + left_of s.crew
      + sum_by call_left s.calls
      + stop_left s.crew.stopper
      + shut_left s.ctx_done

-- What a call adds.
abbrev pub per_call : ℕ → ℕ
per_call r = 21 + 5 * r

stop-less :
    {J : Type 0} (st : Stopper) (c c' : Crew J)
    → c.stopper ≡ st
    → stop_step st c ≡ some c'
    → (left_of c' ≡ left_of c) × (stop_left c'.stopper < stop_left c.stopper)
unfolding stop_step
stop-less serving c c' p t = rw p (ground arith)
stop-less cancelling c c' p t = rw p (ground arith)
stop-less joining c c' p t = rw p (ground arith)
stop-less stopped c c' p t = cc

module _ {L B E : Type 0} (lim : RateLimiter L E) (brk : CircuitBreaker B E) where
  submits-less :
      (r k : ℕ) (s : Running L B E) (c : Call E) (b : SubmitBlocking c.ctx s.crew.queue)
      → get_elem? s.calls k ≡ some c
      → c.stage ≡ submitting
      → remaining r (record s {
        calls = set s.calls k (record c { stage = submitted b });
        crew = record (s.crew) { queue = queue_after k s.crew.queue b };
      })
        < remaining r s
  submits-less r k s c (sends o h) g p =
      let m = sum_by-set call_left s.calls k c (record c { stage = awaiting }) g in
      let was = ap stage_left p in
      let more = length-append s.crew.queue.jobs (k ∷ []) in omega (arith, m, was, more)
  submits-less r k s c (send_panics o) g p =
      let m = sum_by-set call_left s.calls k c (record c { stage = returned (panicked) }) g in
      let was = ap stage_left p in omega (arith, m, was)
  submits-less r k s c (context_ends e o) g p =
      let m =
        sum_by-set call_left s.calls k c (record c { stage = returned (context_error e) }) g in
      let was = ap stage_left p in omega (arith, m, was)
  submits-less r k s c (pool_closed o) g p =
      let m =
        sum_by-set call_left s.calls k c (record c { stage = returned (worker_pool_closed) }) g in
      let was = ap stage_left p in omega (arith, m, was)

  -- A call that arrives.
  abbrev pub arrival : {s s' : Running L B E} → Step lim brk s s' → ℕ
  arrival (arrives h b e) = 1
  arrival _ = 0

  -- Every step but an arrival leaves less to do, and an arrival no more than its own share.
  pub step-remaining :
      (r : ℕ) (cs : List (ProxyClient L B E)) {s s' : Running L B E}
      → Alive r cs s.race
      → (st : Step lim brk s s') → remaining r s' < remaining r s + arrival st * (1 + per_call r)
  step-remaining r cs {s} v (arrives h b e) =
      let fresh : Call E = record { blocking = b; ctx = none; stage = submitting } in
      let jobs_more = sum_by-append (λ (y : Job E). work r y.pc) s.race.jobs (new_job h) in
      let calls_more = sum_by-append call_left s.calls fresh in
      rw e (omega (arith, jobs_more, calls_more))
  step-remaining r cs {s} v (expires k c x g n e) =
      let m = sum_by-set call_left s.calls k c (record c { ctx = some x }) g in
      let was = ap context_left n in rw e (omega (arith, m, was))
  step-remaining r cs {s} v (submits k c b g p n e) =
      rw e (omega (arith, submits-less r k s c b g p))
  step-remaining r cs {s} {s'} v (tries k c g p n e) = elim (tries_cases k c s s' e) [
    | inl (o, lt, e') ↦ rw e' (omega (arith, submits-less r k s c (sends o lt) g p))
    | inr (inl e') ↦
        let m = sum_by-set call_left s.calls k c (record c { stage = rejected }) g in
        let was = ap stage_left p in rw e' (omega (arith, m, was))
    | inr (inr (o, e')) ↦ rw e' (omega (arith, submits-less r k s c (send_panics o) g p))
  ]
  step-remaining r cs {s} v (awaits k c a g p y e) =
      let m =
        sum_by-set call_left s.calls k c (record c { stage = returned (awaited_result a) }) g in
      let was = ap stage_left p in rw e (omega (arith, m, was))
  step-remaining r cs {s} v (turns chosen i hand crew g t w e) =
      let (less, same) = turn-less chosen i hand s.crew crew g w in
      let same' = ap stop_left same in rw e (omega (arith, less, same'))
  step-remaining r cs {s} v (executes i j c job inp w gc gj ne same e) =
      let less = step-tally lim brk r cs j inp s.race job v gj ne in rw e (omega (arith, less))
  step-remaining r cs {s} v (cancels d e) = let was = ap shut_left d in rw e (omega (arith, was))
  step-remaining r cs {s} v (stops crew d t e) =
      let (same, less) = stop-less s.crew.stopper s.crew crew refl t in
      rw e (omega (arith, same, less))

  pub step-running :
      (r : ℕ) (cs : List (ProxyClient L B E)) {s s' : Running L B E}
      → Step lim brk s s'
      → Alive r cs s.race
      → Alive r cs s'.race
  step-running r cs {s} (arrives h b e) v = rw e (with_job-Alive r cs h s.race v)
  step-running r cs (expires k c x g n e) v = rw e v
  step-running r cs (submits k c b g p n e) v = rw e v
  step-running r cs (tries k c g p n e) v = rw e v
  step-running r cs (awaits k c a g p y e) v = rw e v
  step-running r cs (turns chosen i hand crew g t w e) v = rw e v
  step-running r cs {s} (executes i j c job inp w gc gj ne same e) v =
      rw e (step-Alive lim brk r cs (j, inp) s.race v)
  step-running r cs (cancels d e) v = rw e v
  step-running r cs (stops crew d t e) v = rw e v
