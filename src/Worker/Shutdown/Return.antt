-- ===== src/Worker/Shutdown/Return.antt =====
-- The return of `Stop`.
use rapid_proxy.Prelude.{
  ℕ, zero, suc, ◌+◌, ◌*◌, ◌≤◌, ◌<◌, ◌≡◌, refl, ap, subst, arith, true, some, List, [], ◌∷◌, ◌==◌,
  Bool-cases, inl, inr, length, get_elem?, sum_by, sum_by-set, sum_by_mono, sum_by-some,
}
use rapid_proxy.Worker.Shutdown.{
  Hand, entering, looping, returned, busy, joining, stopped, Crew, Chosen, on_done, on_job, leave,
  receive, worker_turn, stop_step, Step, turns, submits, stops, Reach, present, at_work, Done, Inv,
  step-Inv, Reach-Inv,
}

module _ {J : Type 0} where
  -- Every sequence of steps from `c` leads to the return of `Stop`, and can go on until then.
  pub data Returns : Crew J → Type 0 where
    now : {c : Crew J} → c.stopper ≡ stopped → Returns c
    later :
        {c : Crew J} (c1 : Crew J)
        → Step c c1
        → ((c' : Crew J) → Step c c' → Returns c')
        → Returns c

  abbrev pub effort : Hand J → ℕ
  effort entering = 2
  effort looping = 1
  effort (busy j) = 2
  effort returned = 0

  -- A bound on the turns that the workers still have.
  abbrev pub left_of : Crew J → ℕ
  left_of c = sum_by effort c.workers + 2 * length c.queue.jobs

  pub turn-less :
      (chosen : Chosen) (i : ℕ) (hand : Hand J) (c c' : Crew J)
      → get_elem? c.workers i ≡ some hand
      → worker_turn chosen i hand c ≡ some c'
      → (left_of c' < left_of c) × (c'.stopper ≡ c.stopper)
  unfolding worker_turn
  turn-less chosen i entering c c' e t =
      let m = sum_by-set effort c.workers i entering looping e in ground arith
  turn-less on_done i looping c c' e t =
      let m = sum_by-set effort c.workers i looping returned e in ground arith
  turn-less on_job i looping c c' e t = received c.queue.jobs refl t
    where
      received :
          (jobs : List J)
          → c.queue.jobs ≡ jobs
          → receive i jobs c ≡ some c'
          → (left_of c' < left_of c) × (c'.stopper ≡ c.stopper)
      received [] p t = let m = sum_by-set effort c.workers i looping returned e in ground arith
      received (j ∷ rest) p t =
          let m = sum_by-set effort c.workers i looping (busy j) e in
          let n = ap length p in ground arith
  turn-less chosen i (busy j) c c' e t =
      let m = sum_by-set effort c.workers i (busy j) looping e in ground arith
  turn-less chosen i returned c c' e t = cc

  some_turn :
      (i : ℕ) (hand : Hand J) (c : Crew J)
      → c.queue.ctx_done ≡ true
      → 0 < present hand
      → (c' : Crew J) × (worker_turn on_done i hand c ≡ some c')
  unfolding worker_turn
  some_turn i entering c d h = (_, refl)
  some_turn i looping c d h = (leave i c, ground arith)
  some_turn i (busy j) c d h = (_, refl)
  some_turn i returned c d h = absurd (omega arith)

  joining-Done : (c : Crew J) → Inv c → c.stopper ≡ joining → Done joining c
  joining-Done c v p = subst (λ s. Done s c) p v.done

  joining_step : (c : Crew J) → Inv c → c.stopper ≡ joining → (c1 : Crew J) × Step c c1
  unfolding stop_step
  joining_step c v p = elim (Bool-cases (c.wg == 0)) [
    | inl z ↦ (record c { stopper = stopped }, stops (rw p (ground arith)))
    | inr z ↦
        let (i, hand, e, h) = sum_by-some present c.workers (ground (arith, v.waited)) in
        let (c', t) = some_turn i hand c (joining-Done c v p).0 h in (c', turns on_done i hand e t)
  ]

  stopped_after : (c c' : Crew J) → stop_step joining c ≡ some c' → c'.stopper ≡ stopped
  unfolding stop_step
  stopped_after c c' e = ground arith

  after_step :
      (c : Crew J)
      → Inv c
      → c.stopper ≡ joining
      → ((c' : Crew J) → left_of c' < left_of c → Inv c' → c'.stopper ≡ joining → Returns c')
      → (c' : Crew J) → Step c c'
      → Returns c'
  after_step c v p again c' (turns chosen i hand e t) =
      let (less, same) = turn-less chosen i hand c c' e t in
      again c' less (step-Inv v (turns chosen i hand e t)) (rw p at same)
  after_step c v p again c' (submits j open_q lt e) = let q = (joining-Done c v p).1 in cc
  after_step c v p again c' (stops t) =
      now (stopped_after c c' (subst (λ s. stop_step s c ≡ some c') p t))

  joins : (n : ℕ) (c : Crew J) → left_of c < n → Inv c → c.stopper ≡ joining → Returns c
  joins zero c h v p = absurd (omega arith)
  joins (suc n) c h v p =
      let (c1, s) = joining_step c v p in
      later c1 s (after_step c v p (λ c' m. joins n c' (omega (arith, m, h))))

at_work-present : {J : Type 0} (hand : Hand J) → at_work hand ≤ present hand
at_work-present entering = omega arith
at_work-present looping = omega arith
at_work-present returned = omega arith
at_work-present (busy j) = omega arith

-- From every state that workers, callers and a call of `Stop` can reach, with the call waiting for
-- the workers, the call returns after finitely many turns, in whatever order they come, those that
-- execute a job among them. Once it has returned, no worker is active and every worker has returned.
pub stop-Returns :
    {J : Type 0} {num_workers queue_size : ℕ} {c : Crew J}
    → Reach num_workers queue_size c
    → (c.stopper ≡ joining → Returns c)
      × (c.stopper ≡ stopped → (c.active ≡ 0) × (sum_by present c.workers ≡ 0))
stop-Returns {c = c} r =
    let v = Reach-Inv r in
    (
      joins (suc (left_of c)) c (omega arith) v,
      λ p.
          let (a, b, z) = subst (λ s. Done s c) p v.done in
          let few = sum_by_mono at_work present c.workers at_work-present in
          (omega (arith, few, v.counted, v.waited, z), omega (arith, v.waited, z)),
    )
