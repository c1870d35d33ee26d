-- ===== src/Pool/Calls/Queueing.antt =====
-- The queue, the workers and `Stop` below the calls of `DoWithContext`: what a step of the pool does to
-- them, and where the number of a job is.
use rapid_proxy.Prelude.{
  ◌<◌, ◌∙◌, false, length, ℕ, zero, suc, ◌+◌, ◌≡◌, refl, subst, sym, ap, arith, true, Option, some,
  List, [], ◌∷◌, ◌⊎◌, inl, inr, ◌==◌, if◌then◌else◌, get_elem?, sum_by, sum_by-append, sum_by-set,
  some_injective,
}
use rapid_proxy.Client.Interfaces.{RateLimiter, CircuitBreaker}
use rapid_proxy.Worker.{State}
use rapid_proxy.Worker.Queue.{
  Queue, Sent, submit, submit_cases, SubmitBlocking, sends, send_panics, context_ends, pool_closed,
  push,
}
use rapid_proxy.Worker.Shutdown.{
  Hand, busy, entering, looping, returned, Crew, Chosen, on_done, on_job, Stopper, serving,
  cancelling, joining, stopped, hired, becomes, leave, receive, start, worker_turn, stop_step, Done,
}
use rapid_proxy.Worker.Shutdown
use rapid_proxy.Pool.Request.{panicked}
use rapid_proxy.Pool.Calls.{
  Call, call_becomes, tried, awaiting, rejected, returned, tries, Running, opened, queue_after,
  Step, arrives, expires, submits, awaits, turns, executes, cancels, stops, Reach, opens, next,
}

abbrev pub is_job : ℕ → ℕ → ℕ
is_job k j = if j == k then 1 else 0

abbrev pub hand_has : ℕ → Hand ℕ → ℕ
hand_has k (busy j) = is_job k j
hand_has k _ = 0

-- How often the number of a job is in the queue or in the hands of a worker.
abbrev pub tickets : ℕ → Crew ℕ → ℕ
tickets k c = sum_by (is_job k) c.queue.jobs + sum_by (hand_has k) c.workers

hired-tickets : (k n : ℕ) → sum_by (hand_has k) (hired n) ≡ 0
hired-tickets k zero = refl
hired-tickets k (suc n) = omega (arith, hired-tickets k n)

pub start-tickets : (k n size : ℕ) → tickets k (start n size) ≡ 0
unfolding start
start-tickets k n size = omega (arith, hired-tickets k n)

-- A worker gives up the job that it has, and takes one from the queue.
pub turn-tickets :
    (chosen : Chosen) (i k : ℕ) (hand : Hand ℕ) (c c' : Crew ℕ)
    → get_elem? c.workers i ≡ some hand
    → worker_turn chosen i hand c ≡ some c'
    → tickets k c' + hand_has k hand ≡ tickets k c
unfolding worker_turn
turn-tickets chosen i k entering c c' e t =
    let m = sum_by-set (hand_has k) c.workers i entering looping e in
    let q : record (becomes i looping c) { active = c.active + 1 } ≡ c' = cc in
    subst (λ x. tickets k x + 0 ≡ tickets k c) q (omega (arith, m))
turn-tickets on_done i k looping c c' e t =
    let m = sum_by-set (hand_has k) c.workers i looping returned e in
    let q : leave i c ≡ c' = ground arith in
    subst (λ x. tickets k x + 0 ≡ tickets k c) q (omega (arith, m))
turn-tickets on_job i k looping c c' e t = received c.queue.jobs refl t
  where
    received :
        (jobs : List ℕ)
        → c.queue.jobs ≡ jobs
        → receive i jobs c ≡ some c'
        → tickets k c' + 0 ≡ tickets k c
    received [] p t =
        let m = sum_by-set (hand_has k) c.workers i looping returned e in
        let q : leave i c ≡ c' = ground arith in
        subst (λ x. tickets k x + 0 ≡ tickets k c) q (omega (arith, m))
    received (j ∷ rest) p t =
        let m = sum_by-set (hand_has k) c.workers i looping (busy j) e in
        let n = ap (sum_by (is_job k)) p in
        let q : record (becomes i (busy j) c) { queue = record (c.queue) { jobs = rest } } ≡ c' =
          cc in
        subst (λ x. tickets k x + 0 ≡ tickets k c) q (omega (arith, m, n))
turn-tickets chosen i k (busy j) c c' e t =
    let m = sum_by-set (hand_has k) c.workers i (busy j) looping e in
    let q : becomes i looping c ≡ c' = cc in
    subst (λ x. tickets k x + is_job k j ≡ tickets k c) q (omega (arith, m))
turn-tickets chosen i k returned c c' e t = cc

pub stop-tickets :
    (s : Stopper) (k : ℕ) (c c' : Crew ℕ) → stop_step s c ≡ some c' → tickets k c' ≡ tickets k c
unfolding stop_step
stop-tickets serving k c c' t = sym (ap (tickets k) (some_injective _ c' t))
stop-tickets cancelling k c c' t = sym (ap (tickets k) (some_injective _ c' t))
stop-tickets joining k c c' t =
    let q : record c { stopper = stopped } ≡ c' = ground arith in sym (ap (tickets k) q)
stop-tickets stopped k c c' t = cc

-- A turn of a worker leaves the context and the closing of the queue alone.
pub turn-flags :
    (chosen : Chosen) (i : ℕ) (hand : Hand ℕ) (c c' : Crew ℕ)
    → worker_turn chosen i hand c ≡ some c'
    → (c'.queue.ctx_done ≡ c.queue.ctx_done) × (c'.queue.closed ≡ c.queue.closed)
unfolding worker_turn
turn-flags chosen i entering c c' t = ground arith
turn-flags on_done i looping c c' t = ground arith
turn-flags on_job i looping c c' t = received c.queue.jobs t
  where
    received :
        (jobs : List ℕ)
        → receive i jobs c ≡ some c'
        → (c'.queue.ctx_done ≡ c.queue.ctx_done) × (c'.queue.closed ≡ c.queue.closed)
    received [] t = ground arith
    received (j ∷ rest) t = ground arith
turn-flags chosen i (busy j) c c' t = ground arith
turn-flags chosen i returned c c' t = cc

-- `Stop` undoes neither.
pub stop-flags :
    (s : Stopper) (c c' : Crew ℕ)
    → stop_step s c ≡ some c'
    → (c.queue.ctx_done ≡ true → c'.queue.ctx_done ≡ true)
      × (c.queue.closed ≡ true → c'.queue.closed ≡ true)
unfolding stop_step
stop-flags serving c c' t = ground arith
stop-flags cancelling c c' t = ground arith
stop-flags joining c c' t = ground arith
stop-flags stopped c c' t = cc

pub push-tickets :
    (k j : ℕ) (c : Crew ℕ)
    → tickets k (record c { queue = push j c.queue }) ≡ tickets k c + is_job k j
push-tickets k j c = omega (arith, sum_by-append (is_job k) c.queue.jobs j)

submits-crew :
    {E : Type 0} {ctx : Option E} (k : ℕ) (c : Crew ℕ) (b : SubmitBlocking ctx c.queue)
    → let c' = record c { queue = queue_after k c.queue b } in (c' ≡ c) ⊎ Shutdown.Step c c'
submits-crew k c (sends o h) = inr (Shutdown.Step.submits k o h refl)
submits-crew k c (send_panics o) = inl refl
submits-crew k c (context_ends e o) = inl refl
submits-crew k c (pool_closed o) = inl refl

-- The pool after `Submit`.
abbrev after_try : {L B E : Type 0} → ℕ → Call E → Running L B E → Queue ℕ × Sent → Running L B E
after_try k c s x = record (call_becomes k (record c { stage = tried x.1 }) s) {
  crew = record (s.crew) { queue = x.0 };
}

-- What a step with `Submit` comes to.
pub tries_cases :
    {L B E : Type 0} (k : ℕ) (c : Call E) (s s' : Running L B E)
    → s' ≡ record (call_becomes k (record c { stage = tried (submit k s.crew.queue).1 }) s) {
      crew = record (s.crew) { queue = (submit k s.crew.queue).0 };
    }
    → ((s.crew.queue.closed ≡ false)
        × (length s.crew.queue.jobs < s.crew.queue.capacity)
        × (s' ≡ record (call_becomes k (record c { stage = awaiting }) s) {
          crew = record (s.crew) { queue = push k s.crew.queue };
        }))
      ⊎ ((s' ≡ call_becomes k (record c { stage = rejected }) s)
          ⊎ ((s.crew.queue.closed ≡ true)
              × (s' ≡ call_becomes k (record c { stage = returned panicked }) s)))
tries_cases k c s s' e = elim (submit_cases k s.crew.queue) [
  | inl (o, lt, p) ↦ inl (o, lt, e ∙ ap (after_try k c s) p)
  | inr (inl p) ↦ inr (inl (e ∙ ap (after_try k c s) p))
  | inr (inr (o, p)) ↦ inr (inr (o, e ∙ ap (after_try k c s) p))
]

module _ {L B E : Type 0} {lim : RateLimiter L E} {brk : CircuitBreaker B E} where
  -- A step of the pool is one of the workers' system, or none.
  pub Step-crew :
      {s s' : Running L B E} → Step lim brk s s' → (s'.crew ≡ s.crew) ⊎ Shutdown.Step s.crew s'.crew
  Step-crew (arrives h b e) = inl (ap (λ x. x.crew) e)
  Step-crew (expires k c x g n e) = inl (ap (λ x. x.crew) e)
  Step-crew {s} (submits k c b g p n e) =
      subst (λ x. (x.crew ≡ s.crew) ⊎ Shutdown.Step s.crew x.crew) (sym e) (submits-crew k s.crew b)
  Step-crew {s} {s'} (tries k c g p n e) = elim (tries_cases k c s s' e) [
    | inl (o, lt, e') ↦
        inr (subst (λ x. Shutdown.Step s.crew x.crew) (sym e') (Shutdown.Step.submits k o lt refl))
    | inr (inl e') ↦ inl (ap (λ x. x.crew) e')
    | inr (inr (o, e')) ↦ inl (ap (λ x. x.crew) e')
  ]
  Step-crew (awaits k c a g p y e) = inl (ap (λ x. x.crew) e)
  Step-crew {s} (turns chosen i hand crew g h t e) =
      inr (subst (λ x. Shutdown.Step s.crew x.crew) (sym e) (Shutdown.Step.turns chosen i hand g t))
  Step-crew (executes i j c job inp g h y n p e) = inl (ap (λ x. x.crew) e)
  Step-crew (cancels d e) = inl (ap (λ x. x.crew) e)
  Step-crew {s} (stops crew d t e) =
      inr (subst (λ x. Shutdown.Step s.crew x.crew) (sym e) (Shutdown.Step.stops t))

  -- In every state that the callers, the workers and `Close` of a pool reach, the workers, the queue and
  -- `Stop` are in a state that they reach by themselves.
  pub Reach-crew :
      {s0 : State L B E} {n size : ℕ} {s : Running L B E}
      → Reach lim brk s0 n size s
      → Shutdown.Reach n size s.crew
  unfolding opened
  Reach-crew opens = Shutdown.Reach.starts
  Reach-crew (next r st) = elim (Step-crew st) [
    | inl e ↦ subst (Shutdown.Reach _ _) (sym e) (Reach-crew r)
    | inr m ↦ Shutdown.Reach.next (Reach-crew r) m
  ]
