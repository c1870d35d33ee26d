-- ===== src/Worker/Shutdown/Away.antt =====
-- When a worker of internal/worker/pool.go can have returned.
use rapid_proxy.Prelude.{
  ℕ, zero, suc, ◌≡◌, refl, subst, sym, arith, true, some, List, [], ◌∷◌, ap, get_elem?,
  get_elem?-set_cases, inl, inr, Bool-cases, set, ◌+◌, length, length-set, ◌∙◌,
}
use rapid_proxy.Worker.Shutdown.{
  Hand, entering, looping, returned, busy, serving, cancelling, joining, stopped, Stopper, Crew,
  Chosen, on_done, on_job, hired, becomes, leave, receive, start, worker_turn, stop_step, turns,
  submits, stops, Reach, starts, next, Done, Reach-Inv,
}

hired-entering :
    {J : Type 0} (n i : ℕ) (hand : Hand J) → get_elem? (hired n) i ≡ some hand → hand ≡ entering
hired-entering zero i hand e = cc
hired-entering (suc n) zero hand e = cc
hired-entering (suc n) (suc i) hand e = hired-entering n i hand e

length-hired : (J : Type 0) (n : ℕ) → length (hired {J = J} n) ≡ n
length-hired J zero = refl
length-hired J (suc n) = ap suc (length-hired J n)

module _ {J : Type 0} where
  -- A worker returns once its context is done, and the queue is closed after that.
  pub record IsOrderly (c : Crew J) : Type 0 where
    pub cancelled_first : c.queue.closed ≡ true → c.queue.ctx_done ≡ true
    pub away : (i : ℕ) → get_elem? c.workers i ≡ some returned → c.queue.ctx_done ≡ true

  moved :
      (c c' : Crew J) (i : ℕ) (hand : Hand J)
      → IsOrderly c
      → c'.workers ≡ set c.workers i hand
      → c'.queue.ctx_done ≡ c.queue.ctx_done
      → c'.queue.closed ≡ c.queue.closed
      → (hand ≡ returned → c.queue.ctx_done ≡ true)
      → IsOrderly c'
  moved c c' i hand v w d q h = record {
    cancelled_first = λ e. rw d (v.cancelled_first (rw q at e));
    away = λ k e. rw d (elim (get_elem?-set_cases c.workers i k hand returned (rw w at e)) [
      | inl (p, x) ↦ h (sym x)
      | inr (p, x) ↦ v.away k x
    ]);
  }

  turn-IsOrderly :
      (chosen : Chosen) (i : ℕ) (hand : Hand J) (c c' : Crew J)
      → IsOrderly c
      → worker_turn chosen i hand c ≡ some c'
      → IsOrderly c'
  unfolding worker_turn
  turn-IsOrderly chosen i entering c c' v t =
      let q : record (becomes i looping c) { active = c.active + 1 } ≡ c' = cc in
      subst IsOrderly q (moved c _ i looping v refl refl refl (λ e. cc))
  turn-IsOrderly on_done i looping c c' v t = elim (Bool-cases c.queue.ctx_done) [
    | inl d ↦
        let q : leave i c ≡ c' = ground arith in
        subst IsOrderly q (moved c _ i returned v refl refl refl (λ e. d))
    | inr d ↦ cc (rw d at t)
  ]
  turn-IsOrderly on_job i looping c c' v t = received c.queue.jobs t
    where
      received : (jobs : List J) → receive i jobs c ≡ some c' → IsOrderly c'
      received [] t = elim (Bool-cases c.queue.closed) [
        | inl d ↦
            let q : leave i c ≡ c' = ground arith in
            subst IsOrderly q (moved c _ i returned v refl refl refl (λ e. v.cancelled_first d))
        | inr d ↦ cc (rw d at t)
      ]
      received (j ∷ rest) t =
          let q : record (becomes i (busy j) c) { queue = record (c.queue) { jobs = rest } } ≡ c' =
            cc in
          subst IsOrderly q (moved c _ i (busy j) v refl refl refl (λ e. cc))
  turn-IsOrderly chosen i (busy j) c c' v t =
      let q : becomes i looping c ≡ c' = cc in
      subst IsOrderly q (moved c _ i looping v refl refl refl (λ e. cc))
  turn-IsOrderly chosen i returned c c' v t = cc

  stop-IsOrderly :
      (s : Stopper) (c c' : Crew J)
      → c.stopper ≡ s
      → Done s c
      → IsOrderly c
      → stop_step s c ≡ some c'
      → IsOrderly c'
  unfolding stop_step
  stop-IsOrderly serving c c' p d v t =
      let q : record c { queue = record (c.queue) { ctx_done = true }; stopper = cancelling } ≡ c' =
        cc in
      subst IsOrderly q (record { cancelled_first = λ e. refl; away = λ i e. refl })
  stop-IsOrderly cancelling c c' p d v t =
      let q : record c { queue = record (c.queue) { closed = true }; stopper = joining } ≡ c' =
        cc in
      subst IsOrderly q (record { cancelled_first = λ e. d; away = v.away })
  stop-IsOrderly joining c c' p d v t =
      let q : record c { stopper = stopped } ≡ c' = ground arith in
      subst IsOrderly q (record { cancelled_first = v.cancelled_first; away = v.away })
  stop-IsOrderly stopped c c' p d v t = cc

  pub Reach-IsOrderly : {n size : ℕ} {c : Crew J} → Reach n size c → IsOrderly c
  unfolding start
  Reach-IsOrderly {n = n} starts = record {
    cancelled_first = λ e. cc;
    away = λ i e. cc (hired-entering n i returned e);
  }
  Reach-IsOrderly (next {c} {c'} r (turns chosen i hand e t)) =
      turn-IsOrderly chosen i hand c c' (Reach-IsOrderly r) t
  Reach-IsOrderly (next {c} {c'} r (submits j open_q lt e)) =
      let v = Reach-IsOrderly r in
      subst IsOrderly (sym e) (record { cancelled_first = v.cancelled_first; away = v.away })
  Reach-IsOrderly (next {c} {c'} r (stops t)) =
      stop-IsOrderly c.stopper c c' refl (Reach-Inv r).done (Reach-IsOrderly r) t

  -- What stays as it was made.
  abbrev pub HasSizes : ℕ → ℕ → Crew J → Type 0
  HasSizes n size c = (length c.workers ≡ n) × (c.queue.capacity ≡ size)

  turn-sizes :
      (chosen : Chosen) (i : ℕ) (hand : Hand J) (c c' : Crew J)
      → worker_turn chosen i hand c ≡ some c'
      → (length c'.workers ≡ length c.workers) × (c'.queue.capacity ≡ c.queue.capacity)
  unfolding worker_turn
  turn-sizes chosen i entering c c' t = ground (arith, length-set c.workers i looping)
  turn-sizes on_done i looping c c' t = ground (arith, length-set c.workers i returned)
  turn-sizes on_job i looping c c' t = received c.queue.jobs t
    where
      received :
          (jobs : List J)
          → receive i jobs c ≡ some c'
          → (length c'.workers ≡ length c.workers) × (c'.queue.capacity ≡ c.queue.capacity)
      received [] t = ground (arith, length-set c.workers i returned)
      received (j ∷ rest) t = ground (arith, length-set c.workers i (busy j))
  turn-sizes chosen i (busy j) c c' t = ground (arith, length-set c.workers i looping)
  turn-sizes chosen i returned c c' t = cc

  stop-sizes :
      (s : Stopper) (c c' : Crew J)
      → stop_step s c ≡ some c'
      → (length c'.workers ≡ length c.workers) × (c'.queue.capacity ≡ c.queue.capacity)
  unfolding stop_step
  stop-sizes serving c c' t = ground arith
  stop-sizes cancelling c c' t = ground arith
  stop-sizes joining c c' t = ground arith
  stop-sizes stopped c c' t = cc

  pub Reach-HasSizes : {n size : ℕ} {c : Crew J} → Reach n size c → HasSizes n size c
  unfolding start
  Reach-HasSizes {n = n} starts = (length-hired J n, refl)
  Reach-HasSizes (next {c} {c'} r (turns chosen i hand e t)) =
      let (a, b) = Reach-HasSizes r in
      let (a', b') = turn-sizes chosen i hand c c' t in (a' ∙ a, b' ∙ b)
  Reach-HasSizes {n = n} {size = size} (next r (submits j open_q lt e)) =
      subst (HasSizes n size) (sym e) (Reach-HasSizes r)
  Reach-HasSizes (next {c} {c'} r (stops t)) =
      let (a, b) = Reach-HasSizes r in
      let (a', b') = stop-sizes c.stopper c c' t in (a' ∙ a, b' ∙ b)
