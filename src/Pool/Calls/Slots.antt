-- ===== src/Pool/Calls/Slots.antt =====
-- How many jobs a pool executes at a time, and the slots that they hold.
use native.Mathlib.Decide.{ℕ_discrete}
use rapid_proxy.Prelude.{
  ℕ, zero, suc, ◌+◌, ◌<◌, ◌≡◌, ◌≤◌, refl, sym, ap, subst, ◌∙◌, arith, some, List, [], ◌∷◌, inl, inr,
  get_elem?, get_elem?-append_cases, get_elem?-sum_by, length, sum_by, sum_by-set, sum_by_mono,
  some_injective,
}
use rapid_proxy.Client.{ProxyClient}
use rapid_proxy.Client.Slots.{Within, capacity_of}
use rapid_proxy.Client.Interfaces.{RateLimiter, CircuitBreaker}
use rapid_proxy.Worker.{State}
use rapid_proxy.Worker.Race.{Input, Pc, queued, ended, visiting, serving, Job, new_job, step}
use rapid_proxy.Worker.Race
use rapid_proxy.Worker.Race.Slots.{holds, tally, holders, AreFree, step-Inv, begin-Inv}
use rapid_proxy.Worker.Race.Arrivals.{with_job-Inv, step-jobs}
use rapid_proxy.Worker.Shutdown.{
  Hand, busy, entering, looping, Crew, Chosen, on_done, on_job, Stopper, serving, cancelling,
  joining, stopped, becomes, leave, receive, worker_turn, stop_step,
}
use rapid_proxy.Worker.Shutdown.Away.{Reach-HasSizes}
use rapid_proxy.Pool.Calls.{
  tries, Running, opened, IsThrough, Step, arrives, expires, submits, awaits, turns, executes,
  cancels, stops, Reach, opens, next,
}
use rapid_proxy.Pool.Calls.Queueing.{hand_has, is_job, Reach-crew}

module _ {E : Type 0} where
  -- The job has begun and has not ended.
  abbrev pub active : Pc E → ℕ
  active queued = 0
  active (ended r) = 0
  active _ = 1

  holds-active : (k : ℕ) (pc : Pc E) → holds k pc ≤ active pc
  holds-active k queued = omega arith
  holds-active k (ended r) = omega arith
  holds-active k (visiting v start i idx) = ground arith
  holds-active k (serving p idx) = ground arith
  holds-active k pc = omega arith

  active_most : (pc : Pc E) → active pc ≤ 1
  active_most queued = omega arith
  active_most (ended r) = omega arith
  active_most pc = omega arith

-- How many workers have job `k`.
abbrev hands : ℕ → Crew ℕ → ℕ
hands k c = sum_by (hand_has k) c.workers

turn-hands :
    (chosen : Chosen) (i k : ℕ) (hand : Hand ℕ) (c c' : Crew ℕ)
    → get_elem? c.workers i ≡ some hand
    → worker_turn chosen i hand c ≡ some c'
    → hands k c ≤ hands k c' + hand_has k hand
unfolding worker_turn
turn-hands chosen i k entering c c' e t =
    let m = sum_by-set (hand_has k) c.workers i entering looping e in
    let q : record (becomes i looping c) { active = c.active + 1 } ≡ c' = cc in
    subst (λ x. hands k c ≤ hands k x + 0) q (omega (arith, m))
turn-hands on_done i k looping c c' e t =
    let m = sum_by-set (hand_has k) c.workers i looping Hand.returned e in
    let q : leave i c ≡ c' = ground arith in
    subst (λ x. hands k c ≤ hands k x + 0) q (omega (arith, m))
turn-hands on_job i k looping c c' e t = received c.queue.jobs t
  where
    received : (jobs : List ℕ) → receive i jobs c ≡ some c' → hands k c ≤ hands k c' + 0
    received [] t =
        let m = sum_by-set (hand_has k) c.workers i looping Hand.returned e in
        let q : leave i c ≡ c' = ground arith in
        subst (λ x. hands k c ≤ hands k x + 0) q (omega (arith, m))
    received (j ∷ rest) t =
        let m = sum_by-set (hand_has k) c.workers i looping (busy j) e in
        let q : record (becomes i (busy j) c) { queue = record (c.queue) { jobs = rest } } ≡ c' =
          cc in
        subst (λ x. hands k c ≤ hands k x + 0) q (omega (arith, m))
turn-hands chosen i k (busy j) c c' e t =
    let m = sum_by-set (hand_has k) c.workers i (busy j) looping e in
    let q : becomes i looping c ≡ c' = cc in
    subst (λ x. hands k c ≤ hands k x + is_job k j) q (omega (arith, m))
turn-hands chosen i k Hand.returned c c' e t = cc

stop-workers : (s : Stopper) (c c' : Crew ℕ) → stop_step s c ≡ some c' → c'.workers ≡ c.workers
unfolding stop_step
stop-workers serving c c' t = ground arith
stop-workers cancelling c c' t = ground arith
stop-workers joining c c' t = ground arith
stop-workers stopped c c' t = cc

-- The sum over `m` numbers from `o` on.
abbrev range_sum : (ℕ → ℕ) → ℕ → ℕ → ℕ
range_sum w o zero = 0
range_sum w o (suc m) = w o + range_sum w (suc o) m

range_sum-plus :
    (v w : ℕ → ℕ) (o m : ℕ) → range_sum (λ k. v k + w k) o m ≡ range_sum v o m + range_sum w o m
range_sum-plus v w o zero = omega arith
range_sum-plus v w o (suc m) = omega (arith, range_sum-plus v w (suc o) m)

range_sum-none : (o m : ℕ) → range_sum (λ k. 0) o m ≡ 0
range_sum-none o zero = refl
range_sum-none o (suc m) = omega (arith, range_sum-none (suc o) m)

range_sum-is_job :
    (j o m : ℕ)
    → (range_sum (λ k. is_job k j) o m ≤ 1) × (j < o → range_sum (λ k. is_job k j) o m ≡ 0)
range_sum-is_job j o zero = (omega arith, λ h. refl)
range_sum-is_job j o (suc m) = elim (ℕ_discrete j o) [
  | yes p ↦
      let (few, none_more) = range_sum-is_job j (suc o) m in
      let z = none_more (omega (arith, p)) in
      let one : is_job o j ≡ 1 = ground arith in
      (omega (arith, z, one), λ h. absurd (omega (arith, p, h)))
  | no p ↦
      let (few, none_more) = range_sum-is_job j (suc o) m in
      let nil : is_job o j ≡ 0 = ground arith in
      (omega (arith, few, nil), λ h. omega (arith, none_more (omega (arith, h)), nil))
]

range_sum-hand : (hand : Hand ℕ) (o m : ℕ) → range_sum (λ k. hand_has k hand) o m ≤ 1
range_sum-hand (busy j) o m = (range_sum-is_job j o m).0
range_sum-hand entering o m = omega (arith, range_sum-none o m)
range_sum-hand looping o m = omega (arith, range_sum-none o m)
range_sum-hand Hand.returned o m = omega (arith, range_sum-none o m)

-- Each worker has at most one job.
range_sum-hands :
    (ws : List (Hand ℕ)) (o m : ℕ) → range_sum (λ k. sum_by (hand_has k) ws) o m ≤ length ws
range_sum-hands [] o m = omega (arith, range_sum-none o m)
range_sum-hands (hand ∷ ws) o m = omega (
  arith,
  range_sum-plus (λ k. hand_has k hand) (λ k. sum_by (hand_has k) ws) o m,
  range_sum-hand hand o m,
  range_sum-hands ws o m,
)

within_at : (w : ℕ → ℕ) (a i j : ℕ) → i ≡ j → a ≤ w i → a ≤ w j
within_at w a i j e h = omega (arith, ap w e, h)

tally-range_sum :
    {E : Type 0} (jobs : List (Job E)) (w : ℕ → ℕ) (o : ℕ)
    → ((k : ℕ) (job : Job E) → get_elem? jobs k ≡ some job → active job.pc ≤ w (o + k))
    → tally active jobs ≤ range_sum w o (length jobs)
tally-range_sum [] w o h = omega arith
tally-range_sum (job ∷ jobs) w o h =
    let first = within_at w (active job.pc) (o + 0) o (omega arith) (h 0 job refl) in
    let others =
      tally-range_sum jobs w (suc o) (λ k x g.
        within_at w (active x.pc) (o + suc k) (suc o + k) (omega arith) (h (suc k) x g)) in
    omega (arith, first, others)

module _ {L B E : Type 0} where
  -- A job that is active is with a worker.
  abbrev Worked : Running L B E → Type 0
  Worked s =
      (k : ℕ) (job : Job E) → get_elem? s.race.jobs k ≡ some job → active job.pc ≤ hands k s.crew

  through-active :
      (hand : Hand ℕ) (s : Running L B E) (k : ℕ) (job : Job E)
      → IsThrough hand s
      → get_elem? s.race.jobs k ≡ some job
      → hand_has k hand + active job.pc ≤ 1
  through-active (busy j) s k job (job1, r, g1, d) g = elim (ℕ_discrete j k) [
    | yes p ↦
        let same = some_injective job1 job (sym g1 ∙ ap (get_elem? s.race.jobs) p ∙ g) in
        let off = ap active (ap (λ (x : Job E). x.pc) (sym same) ∙ d) in
        let one : hand_has k (busy j) ≤ 1 = ground arith in omega (arith, off, one)
    | no p ↦
        let nil : hand_has k (busy j) ≡ 0 = ground arith in omega (arith, nil, active_most job.pc)
  ]
  through-active entering s k job t g = omega (arith, active_most job.pc)
  through-active looping s k job t g = omega (arith, active_most job.pc)
  through-active Hand.returned s k job t g = omega (arith, active_most job.pc)

module _ {L B E : Type 0} (lim : RateLimiter L E) (brk : CircuitBreaker B E) where
  step-Worked : {s s' : Running L B E} → Step lim brk s s' → Worked s → Worked s'
  step-Worked {s} (arrives h b e) v = subst Worked (sym e) (λ k job g.
      elim (get_elem?-append_cases s.race.jobs (new_job h) k job g) [
        | inl g' ↦ v k job g'
        | inr (p, q) ↦ let off = ap active (ap (λ (x : Job E). x.pc) (sym q)) in omega (arith, off)
      ])
  step-Worked (expires k c x g n e) v = subst Worked (sym e) v
  step-Worked (submits k c b g p n e) v = subst Worked (sym e) v
  step-Worked (tries k c g p n e) v = subst Worked (sym e) v
  step-Worked (awaits k c a g p y e) v = subst Worked (sym e) v
  step-Worked {s} (turns chosen i hand crew g t w e) v = subst Worked (sym e) (λ k job gj.
      let more = turn-hands chosen i k hand s.crew crew g w in
      let little = through-active hand s k job t gj in
      let held = get_elem?-sum_by (hand_has k) s.crew.workers i hand g in
      omega (arith, more, little, held, v k job gj))
  step-Worked {s} (executes i j c job inp w gc gj ne same e) v = subst Worked (sym e) (λ k job' g.
      elim (step-jobs lim brk j k inp s.race job job' gj g) [
        | inl (p, keeps) ↦
            let held = get_elem?-sum_by (hand_has k) s.crew.workers i (busy j) w in
            let one : hand_has k (busy j) ≡ 1 = ground arith in
            omega (arith, held, one, active_most job'.pc)
        | inr (p, g') ↦ v k job' g'
      ])
  step-Worked (cancels d e) v = subst Worked (sym e) v
  step-Worked {s} (stops crew d t e) v = subst Worked (sym e) (λ k job g.
      let same = ap (sum_by (hand_has k)) (stop-workers s.crew.stopper s.crew crew t) in
      omega (arith, same, v k job g))

  step-slots :
      (cs : List (ProxyClient L B E)) {s s' : Running L B E}
      → Step lim brk s s'
      → Race.Slots.Inv cs s.race
      → Race.Slots.Inv cs s'.race
  step-slots cs {s} (arrives h b e) v = rw e (with_job-Inv cs h s.race v)
  step-slots cs (expires k c x g n e) v = rw e v
  step-slots cs (submits k c b g p n e) v = rw e v
  step-slots cs (tries k c g p n e) v = rw e v
  step-slots cs (awaits k c a g p y e) v = rw e v
  step-slots cs (turns chosen i hand crew g t w e) v = rw e v
  step-slots cs {s} (executes i j c job inp w gc gj ne same e) v =
      rw e (step-Inv lim brk cs (j, inp) s.race v)
  step-slots cs (cancels d e) v = rw e v
  step-slots cs (stops crew d t e) v = rw e v

  Reach-Worked :
      {s0 : State L B E} {n size : ℕ} {s : Running L B E} → Reach lim brk s0 n size s → Worked s
  unfolding opened
  Reach-Worked opens = λ k job g. cc
  Reach-Worked (next r st) = step-Worked st (Reach-Worked r)

  Reach-Inv :
      {s0 : State L B E} {n size : ℕ} {s : Running L B E}
      → AreFree s0.clients
      → Reach lim brk s0 n size s
      → Race.Slots.Inv s0.clients s.race
  unfolding opened
  Reach-Inv {s0 = s0} free opens = begin-Inv s0 [] free
  Reach-Inv {s0 = s0} free (next r st) = step-slots s0.clients st (Reach-Inv free r)

  -- In every state that a pool reaches, its workers execute at most as many jobs at a time as there
  -- are workers, however many calls have arrived. If all slots were free at first, each client keeps
  -- its capacity, and its slots in use are those that these jobs hold.
  pub Reach-slots :
      {s0 : State L B E} {n size : ℕ} {s : Running L B E} (k : ℕ) (c' : ProxyClient L B E)
      → AreFree s0.clients
      → Reach lim brk s0 n size s
      → get_elem? s.race.state.clients k ≡ some c'
      → (tally active s.race.jobs ≤ n)
        × (holders k s.race.jobs ≤ tally active s.race.jobs)
        × ((c : ProxyClient L B E) × (get_elem? s0.clients k ≡ some c)
            × (capacity_of c'.concurrency_sem ≡ capacity_of c.concurrency_sem)
            × Within (holders k s.race.jobs) c'.concurrency_sem)
  Reach-slots {s = s} k c' free r g =
      let few =
        tally-range_sum s.race.jobs (λ j. hands j s.crew) 0
          (λ j job gj.
            within_at (λ i. hands i s.crew) (active job.pc) j (0 + j) (omega arith)
              (Reach-Worked r j job gj)) in
      let one_each = range_sum-hands s.crew.workers 0 (length s.race.jobs) in
      (
        omega (arith, few, one_each, (Reach-HasSizes (Reach-crew r)).0),
        sum_by_mono _ _ s.race.jobs (λ job. holds-active k job.pc),
        (Reach-Inv free r).slots k c' g,
      )
