-- ===== src/Pool/Calls/Placing.antt =====
-- Where the job of each call of `DoWithContext` is, and why the call can have returned.
use native.Mathlib.Decide.{ℕ_discrete}
use rapid_proxy.Prelude.{
  ℕ, ◌+◌, ◌≡◌, ◌≤◌, ◌≢◌, ◌⊎◌, refl, sym, ap, subst, ◌∙◌, arith, Bool, true, Option, some, inl, inr,
  get_elem?, get_elem?-set_cases, length, length-set, some_injective, set,
}
use rapid_proxy.Selector.Frame.{get_elem?-lt}
use rapid_proxy.Worker.{Result}
use rapid_proxy.Worker.Queue.{Queue}
use rapid_proxy.Worker.Race.{Pc, queued, ended, Job, result_channel}
use rapid_proxy.Worker.Shutdown.{Hand, busy, Crew}
use rapid_proxy.Pool.Request.{DoResult, received, context_error, worker_pool_closed, panicked}
use rapid_proxy.Pool.Request
use rapid_proxy.Pool.Calls.{
  Stage, submitting, awaiting, rejected, returned, Call, Running, IsThrough,
}
use rapid_proxy.Pool.Calls.Queueing.{tickets, hand_has}

module _ {E : Type 0} where
  -- Why a call can return `d`.
  abbrev pub Explains : Option E → Pc E → Queue ℕ → Bool → DoResult (Result E) E → Type 0
  Explains ctx pc q ctx_done (received r) = result_channel pc ≡ some r
  Explains ctx pc q ctx_done (context_error e) = ctx ≡ some e
  Explains ctx pc q ctx_done worker_pool_closed = q.ctx_done ≡ true
  Explains ctx pc q ctx_done Request.pool_closed = ctx_done ≡ true
  Explains ctx pc q ctx_done panicked = q.closed ≡ true

  -- Where the job of a call is, by the number of its tickets.
  abbrev pub Placed : Stage E → ℕ → Pc E → Type 0
  Placed submitting n pc = (n ≡ 0) × (pc ≡ queued)
  Placed awaiting n pc = (n ≡ 1) ⊎ ((n ≡ 0) × ((r : Result E) × (pc ≡ ended r)))
  Placed rejected n pc = (n ≡ 0) × (pc ≡ queued)
  Placed (returned d) n pc = n ≤ 1

  abbrev pub Justified : Stage E → Option E → Pc E → Queue ℕ → Bool → Type 0
  Justified (returned d) ctx pc q ctx_done = Explains ctx pc q ctx_done d
  Justified _ ctx pc q ctx_done = Unit {0}

  -- What has happened stays: the context's end, the result in the channel and the shutdown.
  pub record Later (ctx ctx' : Option E) (pc pc' : Pc E) (q q' : Queue ℕ) (d d' : Bool)
      : Type 0 where
    pub same_error : (e : E) → ctx ≡ some e → ctx' ≡ some e
    pub same_result : (r : Result E) → result_channel pc ≡ some r → result_channel pc' ≡ some r
    pub still_done : q.ctx_done ≡ true → q'.ctx_done ≡ true
    pub still_closed : q.closed ≡ true → q'.closed ≡ true
    pub still_shut : d ≡ true → d' ≡ true

  pub Later-Justified :
      (st : Stage E) {ctx ctx' : Option E} {pc pc' : Pc E} {q q' : Queue ℕ} {d d' : Bool}
      → Later ctx ctx' pc pc' q q' d d'
      → Justified st ctx pc q d
      → Justified st ctx' pc' q' d'
  Later-Justified submitting l j = tt
  Later-Justified awaiting l j = tt
  Later-Justified rejected l j = tt
  Later-Justified (returned (received r)) l j = l.same_result r j
  Later-Justified (returned (context_error e)) l j = l.same_error e j
  Later-Justified (returned worker_pool_closed) l j = l.still_done j
  Later-Justified (returned Request.pool_closed) l j = l.still_shut j
  Later-Justified (returned panicked) l j = l.still_closed j

module _ {E : Type 0} where
  -- A call of a hand that gives up the job at its end, or has another.
  pub fewer-Placed :
      (st : Stage E) (n n' h : ℕ) (pc : Pc E)
      → n' + h ≡ n
      → (h ≡ 0) ⊎ ((h ≡ 1) × ((r : Result E) × (pc ≡ ended r)))
      → Placed st n pc
      → Placed st n' pc
  fewer-Placed submitting n n' h pc e x p = (omega (arith, e, p.0), p.1)
  fewer-Placed awaiting n n' h pc e (inl z) (inl p) = inl (omega (arith, e, z, p))
  fewer-Placed awaiting n n' h pc e (inr (z, d)) (inl p) = inr (omega (arith, e, z, p), d)
  fewer-Placed awaiting n n' h pc e x (inr (z, d)) = inr (omega (arith, e, z), d)
  fewer-Placed rejected n n' h pc e x p = (omega (arith, e, p.0), p.1)
  fewer-Placed (returned d) n n' h pc e x p = omega (arith, e, p)

  pub same-Later :
      {ctx : Option E} {pc : Pc E} {q q' : Queue ℕ} {d d' : Bool}
      → (q.ctx_done ≡ true → q'.ctx_done ≡ true)
      → (q.closed ≡ true → q'.closed ≡ true)
      → (d ≡ true → d' ≡ true)
      → Later ctx ctx pc pc q q' d d'
  same-Later a b c = record {
    same_error = λ e x. x;
    same_result = λ r x. x;
    still_done = a;
    still_closed = b;
    still_shut = c;
  }

module _ {L B E : Type 0} where
  pub record Inv (s : Running L B E) : Type 0 where
    pub same_length : length s.race.jobs ≡ length s.calls
    pub at_call :
        (k : ℕ) (c : Call E) (job : Job E)
        → get_elem? s.calls k ≡ some c
        → get_elem? s.race.jobs k ≡ some job
        → Placed c.stage (tickets k s.crew) job.pc
          × Justified c.stage c.ctx job.pc s.crew.queue s.ctx_done
    pub unplaced : (k : ℕ) → length s.calls ≤ k → tickets k s.crew ≡ 0
    pub shut_first : s.crew.queue.ctx_done ≡ true → s.ctx_done ≡ true

  pub through :
      (hand : Hand ℕ) (s : Running L B E) (k : ℕ) (job : Job E)
      → IsThrough hand s
      → get_elem? s.race.jobs k ≡ some job
      → (hand_has k hand ≡ 0) ⊎ ((hand_has k hand ≡ 1) × ((r : Result E) × (job.pc ≡ ended r)))
  through (busy j) s k job (job1, r, g1, d) g = elim (ℕ_discrete j k) [
    | yes p ↦
        let same = some_injective job1 job (sym g1 ∙ ap (get_elem? s.race.jobs) p ∙ g) in
        inr (ground arith, (r, ap (λ (x : Job E). x.pc) (sym same) ∙ d))
    | no p ↦ inl (ground arith)
  ]
  through Hand.entering s k job t g = inl refl
  through Hand.looping s k job t g = inl refl
  through Hand.returned s k job t g = inl refl

  -- A step of the workers or of `Stop`.
  pub crew-Inv :
      (s : Running L B E) (crew : Crew ℕ) (hand : Hand ℕ)
      → Inv s
      → IsThrough hand s
      → ((k : ℕ) → tickets k crew + hand_has k hand ≡ tickets k s.crew)
      → (s.crew.queue.ctx_done ≡ true → crew.queue.ctx_done ≡ true)
      → (s.crew.queue.closed ≡ true → crew.queue.closed ≡ true)
      → (crew.queue.ctx_done ≡ true → s.ctx_done ≡ true)
      → Inv (record s { crew = crew })
  crew-Inv s crew hand v t m a b o = record {
    same_length = v.same_length;
    at_call = λ k c job g h.
        let (p, j) = v.at_call k c job g h in
        (
          fewer-Placed c.stage _ _ _ job.pc (m k) (through hand s k job t h) p,
          Later-Justified c.stage (same-Later a b (λ x. x)) j,
        );
    unplaced = λ k le. omega (arith, m k, v.unplaced k le);
    shut_first = o;
  }

  -- A call goes on.
  pub call-Inv :
      (s : Running L B E) (k : ℕ) (c c' : Call E) (crew : Crew ℕ)
      → Inv s
      → get_elem? s.calls k ≡ some c
      → ((i : ℕ) → k ≢ i → tickets i crew ≡ tickets i s.crew)
      → crew.queue.ctx_done ≡ s.crew.queue.ctx_done
      → crew.queue.closed ≡ s.crew.queue.closed
      → ((job : Job E)
          → get_elem? s.race.jobs k ≡ some job
          → Placed c.stage (tickets k s.crew) job.pc
          → Justified c.stage c.ctx job.pc s.crew.queue s.ctx_done
          → Placed c'.stage (tickets k crew) job.pc
            × Justified c'.stage c'.ctx job.pc s.crew.queue s.ctx_done)
      → Inv (record s { calls = set s.calls k c'; crew = crew })
  call-Inv s k c c' crew v g m a b h = record {
    same_length = v.same_length ∙ sym (length-set s.calls k c');
    at_call = λ i x job gi gj. elim (get_elem?-set_cases s.calls k i c' x gi) [
      | inl (p, q) ↦
          let gk : get_elem? s.race.jobs k ≡ some job = rw p gj in
          let (pl, ju) = v.at_call k c job g gk in
          let (pl', ju') = h job gk pl ju in
          rw (q, ← p)
            (pl', Later-Justified c'.stage (same-Later (λ z. rw a z) (λ z. rw b z) (λ z. z)) ju')
      | inr (p, g') ↦
          let (pl, ju) = v.at_call i x job g' gj in
          (
            rw (m i p) pl,
            Later-Justified x.stage (same-Later (λ z. rw a z) (λ z. rw b z) (λ z. z)) ju,
          )
    ];
    unplaced = λ i le.
        let le' = subst (λ n. n ≤ i) (length-set s.calls k c') le in
        let lt = get_elem?-lt s.calls k c g in
        m i (λ p. absurd (omega (arith, le', lt, p))) ∙ v.unplaced i le';
    shut_first = λ z. v.shut_first (rw (← a) z);
  }
