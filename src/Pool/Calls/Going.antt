-- ===== src/Pool/Calls/Going.antt =====
-- That a pool whose calls are not done, or whose `Close` waits, can go on.
use native.Mathlib.Decide.{ℕ_discrete}
use rapid_proxy.Prelude.{
  ◌==◌, ◌∙◌, some_injective, ℕ, zero, suc, ◌<◌, ◌≡◌, ◌≤◌, ◌≢◌, ◌⊎◌, refl, ap, subst, arith, sym,
  true, Option, none, some, List, [], ◌∷◌, inl, inr, Bool-cases, get_elem?, length, sum_by,
  sum_by-some, get_elem?-sum_by,
}
use rapid_proxy.Client.{ProxyClient, answered}
use rapid_proxy.Client.Interfaces.{RateLimiter, CircuitBreaker}
use rapid_proxy.Selector.Frame.{get_elem?-lt, lt-get_elem?}
use rapid_proxy.Worker.{Result}
use rapid_proxy.Worker.Queue.{sends, send_panics, pool_closed}
use rapid_proxy.Worker.Race.{Input, Pc, ended, Job}
use rapid_proxy.Worker.Race.Progress.{work}
use rapid_proxy.Worker.Race.Finish.{Alive, done_working}
use rapid_proxy.Worker.Shutdown.{
  Hand, entering, looping, busy, Crew, Stopper, serving, cancelling, joining, stopped, becomes,
  leave, on_done, on_job, receive, worker_turn, stop_step,
}
use rapid_proxy.Worker.Shutdown
use rapid_proxy.Worker.Shutdown.Away.{IsOrderly, HasSizes}
use rapid_proxy.Pool.Batch.{finished, closed}
use rapid_proxy.Pool.Calls.{
  tries, stops, Stage, submitting, awaiting, rejected, returned, Call, Running, result_channel,
  Step, submits, awaits, turns, executes,
}
use rapid_proxy.Pool.Calls.Queueing.{tickets, hand_has, is_job}
use rapid_proxy.Pool.Calls.Placing.{Inv, Placed}

-- The call has come to its end.
abbrev pub IsDone : {E : Type 0} → Stage E → Type 0
IsDone submitting = ⊥
IsDone awaiting = ⊥
IsDone _ = Unit {0}

module _ {L B E : Type 0} (lim : RateLimiter L E) (brk : CircuitBreaker B E) where
  -- A step that a worker takes, a call already there, or `Stop` once `Close` has begun.
  abbrev pub IsInner : {s s' : Running L B E} → Step lim brk s s' → Type 0
  IsInner (submits k c b g p n e) = Unit {0}
  IsInner (tries k c g p n e) = Unit {0}
  IsInner (awaits k c a g p y e) = Unit {0}
  IsInner (turns chosen i hand crew g t w e) = Unit {0}
  IsInner (executes i j c job inp w gc gj ne same e) = Unit {0}
  IsInner (stops crew d t e) = Unit {0}
  IsInner _ = ⊥

  abbrev pub AllReturned : Running L B E → Type 0
  AllReturned s =
      ((k : ℕ) (c : Call E) → get_elem? s.calls k ≡ some c → IsDone c.stage)
      × (s.ctx_done ≡ true → s.crew.stopper ≡ stopped)

  abbrev pub CanGo : Running L B E → Type 0
  CanGo s = (s1 : Running L B E) × (st : Step lim brk s s1) × IsInner st

  -- What the state of a pool that is used well is like.
  pub record Fit (r : ℕ) (cs : List (ProxyClient L B E)) (n size : ℕ) (s : Running L B E)
      : Type 0 where
    pub inv : Inv s
    pub orderly : IsOrderly s.crew
    pub sizes : HasSizes n size s.crew
    pub alive : Alive r cs s.race
    pub crew_inv : Shutdown.Inv s.crew

has_ended :
    {E : Type 0} (pc : Pc E) → ((r : Result E) × (pc ≡ ended r)) ⊎ ((r : Result E) → pc ≢ ended r)
has_ended pc = elim (ℕ_discrete (work 0 pc) 0) [
  | yes z ↦ inl (done_working 0 pc (omega (arith, z)))
  | no z ↦ inr (λ r e. z (ap (work 0) e))
]

first_of : (js : List ℕ) → 0 < length js → (j : ℕ) × (rest : List ℕ) × (js ≡ j ∷ rest)
first_of [] h = absurd (omega arith)
first_of (j ∷ rest) h = (j, rest, refl)

ticket_somewhere :
    (k : ℕ) (c : Crew ℕ)
    → tickets k c ≡ 1
    → (0 < length c.queue.jobs) ⊎ ((i : ℕ) × (get_elem? c.workers i ≡ some (busy k)))
ticket_somewhere k c e = elim (ℕ_discrete (sum_by (hand_has k) c.workers) 0) [
  | yes z ↦ inl (some_job c.queue.jobs (omega (arith, e, z)))
  | no z ↦
      let (i, hand, g, h) = sum_by-some (hand_has k) c.workers (omega (arith, z)) in
      inr (i, g ∙ ap some (same hand h))
]
  where
    some_job : (js : List ℕ) → 0 < sum_by (is_job k) js → 0 < length js
    some_job [] h = absurd (omega arith)
    some_job (j ∷ js) h = omega arith

    same : (hand : Hand ℕ) → 0 < hand_has k hand → hand ≡ busy k
    same (busy j) h = ap busy (ground arith)
    same entering h = absurd (omega arith)
    same looping h = absurd (omega arith)
    same Hand.returned h = absurd (omega arith)

module _ {E : Type 0} where
  abbrev Returned : List (Call E) → Type 0
  Returned cs = (k : ℕ) (c : Call E) → get_elem? cs k ≡ some c → IsDone c.stage

  abbrev Pending : List (Call E) → Type 0
  Pending cs =
      (k : ℕ) × (c : Call E) × (get_elem? cs k ≡ some c)
      × ((c.stage ≡ submitting) ⊎ (c.stage ≡ awaiting))

  Returned-cons :
      (c : Call E) (cs : List (Call E)) → IsDone c.stage → Returned cs → Returned (c ∷ cs)
  Returned-cons c cs e all zero x g =
      subst (λ (y : Call E). IsDone y.stage) (some_injective c x g) e
  Returned-cons c cs e all (suc k) x g = all k x g

  pending : (cs : List (Call E)) → Returned cs ⊎ Pending cs
  pending [] = inl (λ k c g. cc)
  pending (c ∷ cs) = by_stage c.stage refl (pending cs)
    where
      by_stage :
          (st : Stage E)
          → c.stage ≡ st
          → Returned cs ⊎ Pending cs
          → Returned (c ∷ cs) ⊎ Pending (c ∷ cs)
      by_stage submitting e o = inr (0, c, refl, inl e)
      by_stage awaiting e o = inr (0, c, refl, inr e)
      by_stage rejected e (inl all) = inl (Returned-cons c cs (rw e tt) all)
      by_stage rejected e (inr (k, x, g, h)) = inr (suc k, x, g, h)
      by_stage (returned d) e (inl all) = inl (Returned-cons c cs (rw e tt) all)
      by_stage (returned d) e (inr (k, x, g, h)) = inr (suc k, x, g, h)

module _ {L B E : Type 0} (lim : RateLimiter L E) (brk : CircuitBreaker B E) (r : ℕ)
    (cs : List (ProxyClient L B E)) (n size : ℕ) where
  abbrev some_input : Option E → Input E
  some_input o = record {
    clock = λ k. 0;
    ctx = o;
    outcome = answered (record { status_code = 200; body = none });
  }

  -- A worker with a job.
  busy_goes :
      (s : Running L B E) (i j : ℕ)
      → Fit lim brk r cs n size s
      → get_elem? s.crew.workers i ≡ some (busy j)
      → CanGo lim brk s
  unfolding worker_turn
  busy_goes s i j v w = elim (ltb_cases j (length s.calls)) [
    | inl lt ↦
        let (c, gc) = lt-get_elem? s.calls j lt in
        let (job, gj) = lt-get_elem? s.race.jobs j (omega (arith, lt, v.inv.same_length)) in
        elim (has_ended job.pc) [
          | inl (x, d) ↦ (_, turns on_job i (busy j) _ w (job, x, gj, d) refl refl, tt)
          | inr ne ↦ (_, executes i j c job (some_input c.ctx) w gc gj ne refl refl, tt)
        ]
    | inr le ↦
        let held = get_elem?-sum_by (hand_has j) s.crew.workers i (busy j) w in
        let has : hand_has j (busy j) ≡ 1 = ground arith in
        absurd (omega (arith, held, has, v.inv.unplaced j le))
  ]
    where
      ltb_cases : (a b : ℕ) → (a < b) ⊎ (b ≤ a)
      ltb_cases a b = ground arith

  -- A worker that has not returned, once the workers' context is done.
  present_goes :
      (s : Running L B E) (i : ℕ) (hand : Hand ℕ)
      → Fit lim brk r cs n size s
      → get_elem? s.crew.workers i ≡ some hand
      → s.crew.queue.ctx_done ≡ true
      → 0 < Shutdown.present hand
      → CanGo lim brk s
  unfolding worker_turn
  present_goes s i entering v w d h = (_, turns on_done i entering _ w tt refl refl, tt)
  present_goes s i looping v w d h =
      let t : worker_turn on_done i looping s.crew ≡ some (leave i s.crew) = ground arith in
      (_, turns on_done i looping (leave i s.crew) w tt t refl, tt)
  present_goes s i (busy j) v w d h = busy_goes s i j v w
  present_goes s i Hand.returned v w d h = absurd (omega arith)

  -- A worker that has not returned, with a job in the queue.
  hand_goes :
      (s : Running L B E) (i : ℕ) (hand : Hand ℕ)
      → Fit lim brk r cs n size s
      → get_elem? s.crew.workers i ≡ some hand
      → 0 < length s.crew.queue.jobs
      → (hand ≡ Hand.returned) ⊎ CanGo lim brk s
  unfolding worker_turn
  hand_goes s i entering v w h = inr (_, turns on_job i entering _ w tt refl refl, tt)
  hand_goes s i looping v w h =
      let (j, rest, e) = first_of s.crew.queue.jobs h in
      let crew = record (becomes i (busy j) s.crew) {
        queue = record (s.crew.queue) { jobs = rest };
      } in
      let t : worker_turn on_job i looping s.crew ≡ some crew =
        ap (λ (js : List ℕ). receive i js s.crew) e in
      inr (record s { crew = crew }, turns on_job i looping crew w tt t refl, tt)
  hand_goes s i (busy j) v w h = inr (busy_goes s i j v w)
  hand_goes s i Hand.returned v w h = inl refl

  queue_goes :
      (s : Running L B E)
      → Fit lim brk r cs n size s
      → 0 < n
      → 0 < length s.crew.queue.jobs
      → (s.crew.queue.ctx_done ≡ true) ⊎ CanGo lim brk s
  queue_goes s v p h =
      let (hand, w) = lt-get_elem? s.crew.workers 0 (omega (arith, p, v.sizes.0)) in
      elim (hand_goes s 0 hand v w h) [
        | inl e ↦ inl (v.orderly.away 0 (w ∙ ap some e))
        | inr go ↦ inr go
      ]

  submitting_goes :
      (s : Running L B E) (k : ℕ) (c : Call E)
      → Fit lim brk r cs n size s
      → 0 < n
      → 0 < size
      → get_elem? s.calls k ≡ some c
      → c.stage ≡ submitting
      → c.blocking ≡ true
      → CanGo lim brk s
  submitting_goes s k c v p q g e b = elim (Bool-cases s.crew.queue.closed) [
    | inl o ↦ (_, submits k c (send_panics o) g e b refl, tt)
    | inr o ↦ elim (room s.crew.queue.capacity (length s.crew.queue.jobs)) [
      | inl lt ↦ (_, submits k c (sends o lt) g e b refl, tt)
      | inr le ↦ elim (queue_goes s v p (omega (arith, le, q, v.sizes.1))) [
        | inl d ↦ (_, submits k c (pool_closed d) g e b refl, tt)
        | inr go ↦ go
      ]
    ]
  ]
    where
      room : (a b : ℕ) → (b < a) ⊎ (a ≤ b)
      room a b = ground arith

  awaiting_goes :
      (s : Running L B E) (k : ℕ) (c : Call E) (job : Job E)
      → Fit lim brk r cs n size s
      → 0 < n
      → get_elem? s.calls k ≡ some c
      → get_elem? s.race.jobs k ≡ some job
      → c.stage ≡ awaiting
      → Placed {E = E} awaiting (tickets k s.crew) job.pc
      → CanGo lim brk s
  awaiting_goes s k c job v p g gj e (inl one) = elim (ticket_somewhere k s.crew one) [
    | inl h ↦ elim (queue_goes s v p h) [
      | inl d ↦ (_, awaits k c closed g e (v.inv.shut_first d) refl, tt)
      | inr go ↦ go
    ]
    | inr (i, w) ↦ busy_goes s i k v w
  ]
  awaiting_goes s k c job v p g gj e (inr (z, d)) =
      (_, awaits k c (finished d.0) g e (job, gj, ap result_channel d.1) refl, tt)

  -- `Stop`, once `Close` has begun.
  stopping_goes :
      (s : Running L B E)
      → Fit lim brk r cs n size s
      → s.ctx_done ≡ true
      → (st : Stopper) → s.crew.stopper ≡ st
      → (s.crew.stopper ≡ stopped) ⊎ CanGo lim brk s
  unfolding stop_step worker_turn
  stopping_goes s v d serving e =
      let crew = record (s.crew) {
        queue = record (s.crew.queue) { ctx_done = true };
        stopper = cancelling;
      } in
      inr (_, stops crew d (ap (λ (x : Stopper). stop_step x s.crew) e) refl, tt)
  stopping_goes s v d cancelling e =
      let crew = record (s.crew) {
        queue = record (s.crew.queue) { closed = true };
        stopper = joining;
      } in
      inr (_, stops crew d (ap (λ (x : Stopper). stop_step x s.crew) e) refl, tt)
  stopping_goes s v d stopped e = inl e
  stopping_goes s v d joining e = elim (Bool-cases (s.crew.wg == 0)) [
    | inl z ↦
        let t : stop_step s.crew.stopper s.crew ≡ some (record (s.crew) { stopper = stopped }) =
          rw e (ground arith) in
        inr (_, stops (record (s.crew) { stopper = stopped }) d t refl, tt)
    | inr z ↦
        let (i, hand, w, h) =
          sum_by-some Shutdown.present s.crew.workers (ground (arith, v.crew_inv.waited)) in
        let done = subst (λ x. Shutdown.Done x s.crew) e v.crew_inv.done in
        inr (present_goes s i hand v w done.0 h)
  ]

  -- All calls have returned, or an inner step can be taken.
  pub goes_on :
      (s : Running L B E)
      → Fit lim brk r cs n size s
      → 0 < n
      → 0 < size
      → AllReturned lim brk s ⊎ CanGo lim brk s
  goes_on s v p q = elim (pending s.calls) [
    | inl all ↦ elim (Bool-cases s.ctx_done) [
      | inl d ↦ elim (stopping_goes s v d s.crew.stopper refl) [
        | inl e ↦ inl (all, λ z. e)
        | inr go ↦ inr go
      ]
      | inr d ↦ inl (all, λ z. cc (sym d ∙ z))
    ]
    | inr (k, c, g, inl e) ↦ inr (elim (Bool-cases c.blocking) [
      | inl b ↦ submitting_goes s k c v p q g e b
      | inr b ↦ (_, tries k c g e b refl, tt)
    ])
    | inr (k, c, g, inr e) ↦
        let (job, gj) =
          lt-get_elem? s.race.jobs k
            (omega (arith, get_elem?-lt s.calls k c g, v.inv.same_length)) in
        let placed =
          subst (λ st. Placed st (tickets k s.crew) job.pc) e (v.inv.at_call k c job g gj).0 in
        inr (awaiting_goes s k c job v p g gj e placed)
  ]
