-- ===== src/Pool/Calls/Results.antt =====
-- What the calls of `DoWithContext` return.
use Prim.Native.String.{String}
use rapid_proxy.Prelude.{
  ℕ, ◌<◌, ◌≡◌, ◌≤◌, ◌≢◌, ◌⊎◌, refl, sym, subst, ◌∙◌, arith, Bool, true, get_elem?-none,
  Option-cases, set, none, some, [], ◌∷◌, ◌++◌, inl, inr, get_elem?, get_elem?-append_cases,
  get_elem?-sum_by, length, length-append, some_injective,
}
use rapid_proxy.Client.Interfaces.{RateLimiter, CircuitBreaker}
use rapid_proxy.Selector.Frame.{get_elem?-lt, lt-get_elem?}
use rapid_proxy.Worker.{State, Result}
use rapid_proxy.Worker.Queue.{
  Queue, new_queue, SubmitBlocking, sends, send_panics, context_ends, pool_closed,
}
use rapid_proxy.Worker.Race.{Input, Pc, ended, Job, new_job, result_channel, step}
use rapid_proxy.Worker.Race.Arrivals.{with_job, step-jobs, length-step}
use rapid_proxy.Worker.Shutdown.{Hand, busy, start}
use rapid_proxy.Worker.Shutdown.Away.{Reach-IsOrderly}
use rapid_proxy.Pool.Batch.{Awaited, finished, context_done, closed}
use rapid_proxy.Pool.Request.{awaited_result}
use rapid_proxy.Pool.Calls.{
  tries, Stage, submitting, awaiting, rejected, returned, Call, Running, submitted, IsReady, Step,
  arrives, expires, submits, awaits, turns, executes, cancels, stops, Reach, opens, next, opened,
  queue_after,
}
use rapid_proxy.Pool.Calls.Queueing.{
  tries_cases, tickets, hand_has, is_job, start-tickets, turn-tickets, stop-tickets, push-tickets,
  turn-flags, stop-flags, Reach-crew,
}
use rapid_proxy.Pool.Calls.Placing.{
  Explains, Placed, Justified, Later-Justified, same-Later, Inv, crew-Inv, call-Inv,
}

module _ {E : Type 0} where
  at_most_one : (st : Stage E) (n : ℕ) (pc : Pc E) → Placed st n pc → n ≤ 1
  at_most_one submitting n pc p = omega (arith, p.0)
  at_most_one awaiting n pc (inl p) = omega (arith, p)
  at_most_one awaiting n pc (inr (p, d)) = omega (arith, p)
  at_most_one rejected n pc p = omega (arith, p.0)
  at_most_one (returned d) n pc p = p

  executed-Placed :
      (st : Stage E) (n : ℕ) (pc pc' : Pc E)
      → 0 < n
      → ((r : Result E) → pc ≢ ended r)
      → Placed st n pc
      → Placed st n pc'
  executed-Placed submitting n pc pc' h ne p = absurd (omega (arith, h, p.0))
  executed-Placed awaiting n pc pc' h ne (inl p) = inl p
  executed-Placed awaiting n pc pc' h ne (inr (p, d)) = absurd (ne d.0 d.1)
  executed-Placed rejected n pc pc' h ne p = absurd (omega (arith, h, p.0))
  executed-Placed (returned d) n pc pc' h ne p = p

  expires-Placed :
      (st : Stage E) (c : Call E) (e : E) (pc : Pc E) (q : Queue ℕ) (d : Bool)
      → c.ctx ≡ none
      → Justified st c.ctx pc q d
      → Justified st (some e) pc q d
  expires-Placed st c e pc q d n ju =
      Later-Justified st
        (record {
          same_error = λ x h. cc;
          same_result = λ r h. h;
          still_done = λ h. h;
          still_closed = λ h. h;
          still_shut = λ h. h;
        })
        ju

module _ {L B E : Type 0} where
  arrives-Inv :
      (s : Running L B E) (hostname : String) (blocking : Bool)
      → Inv s
      → Inv (record s {
        race = with_job hostname s.race;
        calls = s.calls ++ record { blocking = blocking; ctx = none; stage = submitting } ∷ [];
      })
  arrives-Inv s hostname blocking v = record {
    same_length =
        length-append s.race.jobs (new_job hostname ∷ [])
        ∙ omega (arith, length-append s.calls (fresh ∷ []), v.same_length);
    at_call = λ k c job g h.
        both k c job (get_elem?-append_cases s.calls fresh k c g)
          (get_elem?-append_cases s.race.jobs (new_job hostname) k job h);
    unplaced = λ k le. v.unplaced k (omega (arith, le, length-append s.calls (fresh ∷ [])));
    shut_first = v.shut_first;
  }
    where
      fresh : Call E
      fresh = record { blocking = blocking; ctx = none; stage = submitting }

      both :
          (k : ℕ) (c : Call E) (job : Job E)
          → (get_elem? s.calls k ≡ some c) ⊎ ((k ≡ length s.calls) × (fresh ≡ c))
          → (get_elem? s.race.jobs k ≡ some job)
            ⊎ ((k ≡ length s.race.jobs) × (new_job hostname ≡ job))
          → Placed c.stage (tickets k s.crew) job.pc
            × Justified c.stage c.ctx job.pc s.crew.queue s.ctx_done
      both k c job (inl g) (inl h) = v.at_call k c job g h
      both k c job (inl g) (inr (p, q)) =
          absurd (omega (arith, get_elem?-lt s.calls k c g, p, v.same_length))
      both k c job (inr (p, q)) (inl h) =
          absurd (omega (arith, get_elem?-lt s.race.jobs k job h, p, v.same_length))
      both k c job (inr (p, q)) (inr (p', q')) =
          rw (← q, ← q') ((v.unplaced k (omega (arith, p)), refl), tt)

  submits-Inv :
      (s : Running L B E) (k : ℕ) (c : Call E) (b : SubmitBlocking c.ctx s.crew.queue)
      → Inv s
      → get_elem? s.calls k ≡ some c
      → c.stage ≡ submitting
      → Inv (record s {
        calls = set s.calls k (record c { stage = submitted b });
        crew = record (s.crew) { queue = queue_after k s.crew.queue b };
      })
  submits-Inv s k c (sends o h) v g p =
      call-Inv s k c _ _ v g (λ i ne. push-tickets i k s.crew ∙ omega (arith, other i ne)) refl refl
        (λ job gj pl ju.
          let pl' = subst (λ st. Placed st (tickets k s.crew) job.pc) p pl in
          (inl (push-tickets k k s.crew ∙ ground (arith, pl'.0)), tt))
    where
      other : (i : ℕ) → k ≢ i → is_job i k ≡ 0
      other i ne = ground arith
  submits-Inv s k c (send_panics o) v g p =
      call-Inv s k c _ _ v g (λ i ne. refl) refl refl
        (λ job gj pl ju.
          let pl' = subst (λ st. Placed st (tickets k s.crew) job.pc) p pl in
          (omega (arith, pl'.0), o))
  submits-Inv s k c (context_ends e o) v g p =
      call-Inv s k c _ _ v g (λ i ne. refl) refl refl
        (λ job gj pl ju.
          let pl' = subst (λ st. Placed st (tickets k s.crew) job.pc) p pl in
          (omega (arith, pl'.0), o))
  submits-Inv s k c (pool_closed o) v g p =
      call-Inv s k c _ _ v g (λ i ne. refl) refl refl
        (λ job gj pl ju.
          let pl' = subst (λ st. Placed st (tickets k s.crew) job.pc) p pl in
          (omega (arith, pl'.0), o))

  ready :
      (s : Running L B E) (k : ℕ) (c : Call E) (a : Awaited (Result E) E) (job : Job E)
      → IsReady a k c s
      → get_elem? s.race.jobs k ≡ some job
      → Explains c.ctx job.pc s.crew.queue s.ctx_done (awaited_result a)
  ready s k c (finished r) job (job1, g1, e) g =
      let same = some_injective job1 job (sym g1 ∙ g) in
      subst (λ x. result_channel x.pc ≡ some r) same e
  ready s k c (context_done e) job h g = h
  ready s k c closed job h g = h

  at_most_one_ticket : (s : Running L B E) → Inv s → (k : ℕ) → tickets k s.crew ≤ 1
  at_most_one_ticket s v k = elim (Option-cases (get_elem? s.calls k)) [
    | inl e ↦ let out = get_elem?-none s.calls k e in omega (arith, v.unplaced k out)
    | inr (c, e) ↦
        let (job, h) =
          lt-get_elem? s.race.jobs k (omega (arith, v.same_length, get_elem?-lt s.calls k c e)) in
        at_most_one c.stage _ job.pc (v.at_call k c job e h).0
  ]

module _ {L B E : Type 0} (lim : RateLimiter L E) (brk : CircuitBreaker B E) where
  executes-Inv :
      (s : Running L B E) (i j : ℕ) (job : Job E) (inp : Input E)
      → Inv s
      → get_elem? s.crew.workers i ≡ some (busy j)
      → get_elem? s.race.jobs j ≡ some job
      → ((r : Result E) → job.pc ≢ ended r)
      → Inv (record s { race = step lim brk (j, inp) s.race })
  executes-Inv s i j job inp v w g ne = record {
    same_length = length-step lim brk j inp s.race job g ∙ v.same_length;
    at_call = λ k c job' gk gj. elim (step-jobs lim brk j k inp s.race job job' g gj) [
      | inl (p, keeps) ↦
          let (pl, ju) = v.at_call k c job gk (rw (← p) g) in
          let has : hand_has j (busy j) ≡ 1 = ground arith in
          let held = get_elem?-sum_by (hand_has j) s.crew.workers i (busy j) w in
          let some_ticket : 0 < tickets k s.crew = rw (← p) (omega (arith, has, held)) in
          (
            executed-Placed c.stage _ job.pc job'.pc some_ticket ne pl,
            Later-Justified c.stage
                (record {
                  same_error = λ e h. h;
                  same_result = keeps;
                  still_done = λ h. h;
                  still_closed = λ h. h;
                  still_shut = λ h. h;
                })
                ju,
          )
      | inr (p, gj') ↦ v.at_call k c job' gk gj'
    ];
    unplaced = v.unplaced;
    shut_first = v.shut_first;
  }

  pub step-Inv : {s s' : Running L B E} → Step lim brk s s' → Inv s → Inv s'
  step-Inv {s} (arrives h b e) v = subst Inv (sym e) (arrives-Inv s h b v)
  step-Inv {s} (expires k c x g n e) v = subst Inv (sym e) (
      call-Inv s k c _ s.crew v g (λ i ne. refl) refl refl
        (λ job gj pl ju. (pl, expires-Placed c.stage c x job.pc s.crew.queue s.ctx_done n ju)))
  step-Inv {s} (submits k c b g p n e) v = subst Inv (sym e) (submits-Inv s k c b v g p)
  step-Inv {s} {s'} (tries k c g p n e) v = elim (tries_cases k c s s' e) [
    | inl (o, lt, e') ↦ subst Inv (sym e') (submits-Inv s k c (sends o lt) v g p)
    | inr (inl e') ↦ subst Inv (sym e') (
        call-Inv s k c (record c { stage = rejected }) s.crew v g (λ i ne. refl) refl refl
          (λ job gj pl ju. (subst (λ st. Placed st (tickets k s.crew) job.pc) p pl, tt)))
    | inr (inr (o, e')) ↦ subst Inv (sym e') (submits-Inv s k c (send_panics o) v g p)
  ]
  step-Inv {s} (awaits k c a g p y e) v = subst Inv (sym e) (
      call-Inv s k c _ s.crew v g (λ i ne. refl) refl refl
        (λ job gj pl ju. (at_most_one c.stage _ job.pc pl, ready s k c a job y gj)))
  step-Inv {s} (turns chosen i hand crew g t w e) v =
      let (same_done, same_closed) = turn-flags chosen i hand s.crew crew w in
      subst Inv (sym e) (
        crew-Inv s crew hand v t (λ k. turn-tickets chosen i k hand s.crew crew g w)
          (λ z. rw same_done z) (λ z. rw same_closed z) (λ z. v.shut_first (rw (← same_done) z)))
  step-Inv {s} (executes i j c job inp w gc gj ne same e) v =
      subst Inv (sym e) (executes-Inv s i j job inp v w gj ne)
  step-Inv {s} (cancels d e) v = subst Inv (sym e) (record {
    same_length = v.same_length;
    at_call = λ k c job g h.
        let (pl, ju) = v.at_call k c job g h in
        (pl, Later-Justified c.stage (same-Later (λ z. z) (λ z. z) (λ z. refl)) ju);
    unplaced = v.unplaced;
    shut_first = λ z. refl;
  })
  step-Inv {s} (stops crew d t e) v =
      let (still_done, still_closed) = stop-flags s.crew.stopper s.crew crew t in
      subst Inv (sym e) (
        crew-Inv s crew Hand.entering v tt
          (λ k. omega (arith, stop-tickets s.crew.stopper k s.crew crew t)) still_done still_closed
          (λ z. d))

  pub Reach-Inv :
      {s0 : State L B E} {n size : ℕ} {s : Running L B E} → Reach lim brk s0 n size s → Inv s
  unfolding opened start new_queue
  Reach-Inv {n = n} {size = size} opens = record {
    same_length = refl;
    at_call = λ k c job g h. cc;
    unplaced = λ k le. start-tickets k n size;
    shut_first = λ z. cc;
  }
  Reach-Inv (next r st) = step-Inv st (Reach-Inv r)

  -- In every state that the callers, the workers and `Close` of a pool can reach, each call has its
  -- job. A call that is still submitting, or was rejected, has a job that is nowhere and has not begun;
  -- the job of a call that awaits it is once in the queue or with one worker, or has ended, so that none
  -- is lost; no job is in two places. What a call has returned is the result of its own job, an error
  -- that its own context has, or an error of the pool, that only after `Close` has begun.
  pub Reach-calls :
      {s0 : State L B E} {n size : ℕ} {s : Running L B E} (k : ℕ) (c : Call E)
      → Reach lim brk s0 n size s
      → get_elem? s.calls k ≡ some c
      → (job : Job E) × (get_elem? s.race.jobs k ≡ some job)
        × Placed c.stage (tickets k s.crew) job.pc
        × Justified c.stage c.ctx job.pc s.crew.queue s.ctx_done
        × (s.crew.queue.closed ≡ true → s.ctx_done ≡ true)
        × (s.crew.queue.ctx_done ≡ true → s.ctx_done ≡ true)
  Reach-calls {s = s} k c r g =
      let v = Reach-Inv r in
      let orderly = Reach-IsOrderly (Reach-crew r) in
      let (job, e) =
        lt-get_elem? s.race.jobs k (omega (arith, v.same_length, get_elem?-lt s.calls k c g)) in
      let (pl, ju) = v.at_call k c job g e in
      (job, e, pl, ju, λ z. v.shut_first (orderly.cancelled_first z), v.shut_first)
