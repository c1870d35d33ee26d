-- ===== src/Worker/Shutdown.antt =====
-- `Start`, the workers' loop and `Stop` of internal/worker/pool.go, with the wait group and
-- `activeWorkers`, under any interleaving of the workers, the callers and one call of `Stop`. The
-- execution of a job is one turn here; Worker.Race takes it apart.
pub mod Return
pub mod Away
use rapid_proxy.Prelude.{
  ℕ, zero, suc, ◌+◌, ◌-◌, ◌*◌, ◌≤◌, ◌<◌, ◌≡◌, ◌≢◌, refl, sym, ap, subst, arith, Bool, true, false,
  Option, none, some, List, [], ◌∷◌, ◌++◌, ◌==◌, if◌then◌else◌, Bool-cases, inl, inr, ◌⊎◌, length,
  length-append, get_elem?, get_elem?-set_cases, set, sum_by, sum_by-set, get_elem?-sum_by,
  sum_by_mono, sum_by-some,
}
use rapid_proxy.Worker.Queue.{Queue, new_queue, push}

-- Where a worker stands.
pub data Hand (J : Type 0) : Type 0 where
  entering looping returned : Hand J
  busy : J → Hand J

-- Where a call of `Stop` stands.
pub data Stopper : Type 0 where
  serving cancelling joining stopped : Stopper

pub record Crew (J : Type 0) : Type 0 where
  pub queue : Queue J
  pub workers : List (Hand J)
  pub wg : ℕ
  pub active : ℕ
  pub stopper : Stopper

-- The case of a worker's `select` that Go chooses, among those that are ready.
pub data Chosen : Type 0 where
  on_done on_job : Chosen

module _ {J : Type 0} where
  abbrev pub hired : ℕ → List (Hand J)
  hired zero = []
  hired (suc n) = entering ∷ hired n

  unfoldable pub start : ℕ → ℕ → Crew J
  unfolding new_queue
  start num_workers queue_size = record {
    queue = new_queue queue_size;
    workers = hired num_workers;
    wg = num_workers;
    active = 0;
    stopper = serving;
  }

  abbrev pub becomes : ℕ → Hand J → Crew J → Crew J
  becomes i hand c = record c { workers = set c.workers i hand }

  -- The two deferred calls of a worker that returns.
  abbrev pub leave : ℕ → Crew J → Crew J
  leave i c = record (becomes i returned c) { active = c.active - 1; wg = c.wg - 1 }

  abbrev pub receive : ℕ → List J → Crew J → Option (Crew J)
  receive i [] c = if c.queue.closed then some (leave i c) else none
  receive i (j ∷ rest) c =
      some (record (becomes i (busy j) c) { queue = record (c.queue) { jobs = rest } })

  -- A turn of worker `i`; `none` where the case is not ready.
  unfoldable pub worker_turn : Chosen → ℕ → Hand J → Crew J → Option (Crew J)
  worker_turn chosen i entering c = some (record (becomes i looping c) { active = c.active + 1 })
  worker_turn on_done i looping c = if c.queue.ctx_done then some (leave i c) else none
  worker_turn on_job i looping c = receive i c.queue.jobs c
  worker_turn chosen i (busy j) c = some (becomes i looping c)
  worker_turn chosen i returned c = none

  unfoldable pub stop_step : Stopper → Crew J → Option (Crew J)
  stop_step serving c =
      some (record c { queue = record (c.queue) { ctx_done = true }; stopper = cancelling })
  stop_step cancelling c =
      some (record c { queue = record (c.queue) { closed = true }; stopper = joining })
  stop_step joining c = if c.wg == 0 then some (record c { stopper = stopped }) else none
  stop_step stopped c = none

  pub data Step (c c' : Crew J) : Type 0 where
    turns :
        (chosen : Chosen) (i : ℕ) (hand : Hand J)
        → get_elem? c.workers i ≡ some hand
        → worker_turn chosen i hand c ≡ some c'
        → Step c c'
    submits :
        (j : J)
        → c.queue.closed ≡ false
        → length c.queue.jobs < c.queue.capacity
        → c' ≡ record c { queue = push j c.queue }
        → Step c c'
    stops : stop_step c.stopper c ≡ some c' → Step c c'

  pub data Reach (num_workers queue_size : ℕ) : Crew J → Type 0 where
    starts : Reach num_workers queue_size (start num_workers queue_size)
    next :
        {c c' : Crew J}
        → Reach num_workers queue_size c
        → Step c c'
        → Reach num_workers queue_size c'

  -- The worker has not returned.
  abbrev pub present : Hand J → ℕ
  present returned = 0
  present _ = 1

  -- The worker is counted as active.
  abbrev pub at_work : Hand J → ℕ
  at_work looping = 1
  at_work (busy j) = 1
  at_work _ = 0

  abbrev pub Done : Stopper → Crew J → Type 0
  Done serving c = Unit {0}
  Done cancelling c = c.queue.ctx_done ≡ true
  Done joining c = (c.queue.ctx_done ≡ true) × (c.queue.closed ≡ true)
  Done stopped c = (c.queue.ctx_done ≡ true) × (c.queue.closed ≡ true) × (c.wg ≡ 0)

  pub record Inv (c : Crew J) : Type 0 where
    pub waited : c.wg ≡ sum_by present c.workers
    pub counted : c.active ≡ sum_by at_work c.workers
    pub done : Done c.stopper c

hired-sums :
    (J : Type 0) (n : ℕ)
    → (sum_by (present {J = J}) (hired n) ≡ n) × (sum_by (at_work {J = J}) (hired n) ≡ 0)
hired-sums J zero = (refl, refl)
hired-sums J (suc n) = let (a, b) = hired-sums J n in (omega arith, omega arith)

module _ {J : Type 0} where
  -- A turn that leaves the queue's context and its closing alone, and the wait group no larger.
  Done-kept :
      (c c' : Crew J) (s : Stopper)
      → c'.queue.ctx_done ≡ c.queue.ctx_done
      → c'.queue.closed ≡ c.queue.closed
      → c'.wg ≤ c.wg
      → Done s c
      → Done s c'
  Done-kept c c' serving a b w d = tt
  Done-kept c c' cancelling a b w d = ground arith
  Done-kept c c' joining a b w d = ground arith
  Done-kept c c' stopped a b w d = ground arith

  -- Worker `i` goes from one place to another, and is counted for it.
  becomes-Inv :
      (c c' : Crew J) (i : ℕ) (hand hand' : Hand J)
      → Inv c
      → get_elem? c.workers i ≡ some hand
      → c'.workers ≡ set c.workers i hand'
      → c'.stopper ≡ c.stopper
      → c'.queue.ctx_done ≡ c.queue.ctx_done
      → c'.queue.closed ≡ c.queue.closed
      → c'.wg + present hand ≡ c.wg + present hand'
      → present hand' ≤ present hand
      → c'.active + at_work hand ≡ c.active + at_work hand'
      → Inv c'
  becomes-Inv c c' i hand hand' v e w s a b x m y = record {
    waited = rw w (omega (arith, x, v.waited, sum_by-set present c.workers i hand hand' e));
    counted = rw w (omega (arith, y, v.counted, sum_by-set at_work c.workers i hand hand' e));
    done = subst (λ x. Done x c') (sym s) (Done-kept c c' c.stopper a b (omega arith) v.done);
  }

  leave-Inv : (i : ℕ) (c : Crew J) → Inv c → get_elem? c.workers i ≡ some looping → Inv (leave i c)
  leave-Inv i c v e =
      let here = get_elem?-sum_by present c.workers i looping e in
      let there = get_elem?-sum_by at_work c.workers i looping e in
      becomes-Inv c _ i looping returned v e refl refl refl refl (omega (arith, here, v.waited))
        (omega arith) (omega (arith, there, v.counted))

  turn-Inv :
      (chosen : Chosen) (i : ℕ) (hand : Hand J) (c c' : Crew J)
      → Inv c
      → get_elem? c.workers i ≡ some hand
      → worker_turn chosen i hand c ≡ some c'
      → Inv c'
  unfolding worker_turn
  turn-Inv chosen i entering c c' v e t =
      let q : record (becomes i looping c) { active = c.active + 1 } ≡ c' = cc in
      subst Inv q (
        becomes-Inv c _ i entering looping v e refl refl refl refl refl (omega arith) (omega arith))
  turn-Inv on_done i looping c c' v e t = elim (Bool-cases c.queue.ctx_done) [
    | inl d ↦ let q : leave i c ≡ c' = ground arith in subst Inv q (leave-Inv i c v e)
    | inr d ↦ cc (rw d at t)
  ]
  turn-Inv on_job i looping c c' v e t = received c.queue.jobs t
    where
      received : (jobs : List J) → receive i jobs c ≡ some c' → Inv c'
      received [] t = elim (Bool-cases c.queue.closed) [
        | inl d ↦ let q : leave i c ≡ c' = ground arith in subst Inv q (leave-Inv i c v e)
        | inr d ↦ cc (rw d at t)
      ]
      received (j ∷ rest) t =
          let q : record (becomes i (busy j) c) { queue = record (c.queue) { jobs = rest } } ≡ c' =
            cc in
          subst Inv q (
            becomes-Inv c _ i looping (busy j) v e refl refl refl refl refl (omega arith)
              (omega arith))
  turn-Inv chosen i (busy j) c c' v e t =
      let q : becomes i looping c ≡ c' = cc in
      subst Inv q (
        becomes-Inv c _ i (busy j) looping v e refl refl refl refl refl (omega arith) (omega arith))
  turn-Inv chosen i returned c c' v e t = cc

  stop-Inv :
      (s : Stopper) (c c' : Crew J) → c.stopper ≡ s → Inv c → stop_step s c ≡ some c' → Inv c'
  unfolding stop_step
  stop-Inv serving c c' p v t =
      let q : record c { queue = record (c.queue) { ctx_done = true }; stopper = cancelling } ≡ c' =
        cc in
      subst Inv q (record { waited = v.waited; counted = v.counted; done = refl })
  stop-Inv cancelling c c' p v t =
      let q : record c { queue = record (c.queue) { closed = true }; stopper = joining } ≡ c' =
        cc in
      let d = subst (λ x. Done x c) p v.done in
      subst Inv q (record { waited = v.waited; counted = v.counted; done = (d, refl) })
  stop-Inv joining c c' p v t = elim (Bool-cases (c.wg == 0)) [
    | inl z ↦
        let q : record c { stopper = stopped } ≡ c' = ground arith in
        let d = subst (λ x. Done x c) p v.done in
        subst Inv q
          (record { waited = v.waited; counted = v.counted; done = (d.0, d.1, ground arith) })
    | inr z ↦ cc (rw z at t)
  ]
  stop-Inv stopped c c' p v t = cc

  pub step-Inv : {c c' : Crew J} → Inv c → Step c c' → Inv c'
  step-Inv {c} {c'} v (turns chosen i hand e t) = turn-Inv chosen i hand c c' v e t
  step-Inv {c} {c'} v (submits j open_q lt e) = subst Inv (sym e) (record {
    waited = v.waited;
    counted = v.counted;
    done = Done-kept c _ c.stopper refl refl (omega arith) v.done;
  })
  step-Inv {c} {c'} v (stops t) = stop-Inv c.stopper c c' refl v t

  pub Reach-Inv : {n size : ℕ} {c : Crew J} → Reach n size c → Inv c
  unfolding start
  Reach-Inv {n = n} starts =
      let (a, b) = hired-sums J n in record { waited = sym a; counted = sym b; done = tt }
  Reach-Inv (next r s) = step-Inv (Reach-Inv r) s
