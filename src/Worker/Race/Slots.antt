-- ===== src/Worker/Race/Slots.antt =====
-- The slots of the clients while jobs run interleaved.
use Prim.Native.String.{String}
use rapid_proxy.Prelude.{
  ℕ, ◌≡◌, ◌≢◌, refl, sym, map, ◌∙◌, arith, some, List, [], ◌∷◌, ◌==◌, if◌then◌else◌, set, get_elem?,
  get_elem?-set_cases, length, sum_by, sum_by-set, add64, ◌%◌, Option-cases, inl, inr, All,
  All-get_elem?,
}
use rapid_proxy.Client.{ProxyClient, release_concurrency}
use rapid_proxy.Client.Slots.{
  Kept, Kept-same, Within, Kept-Within, capacity_of, acquire-Kept, release-Kept,
}
use rapid_proxy.Client.Interfaces.{RateLimiter, CircuitBreaker}
use rapid_proxy.Worker.{State, context_error}
use rapid_proxy.Worker.Race.{
  Input, Visit, checking, claiming, limiting, undoing, Serve, chosen, waiting, sleeping, cancelling,
  sending, in_flight, recording, stamping, noting, telling, answering, settling, releasing, Pc,
  queued, selecting, rotating, looping, visiting, serving, refusing, failing, ended, Job, System,
  visit, serve, at_client, settle, loop_head, move, step, run, new_job, failed_at,
}

abbrev pub visit_holds : Visit → ℕ
visit_holds limiting = 1
visit_holds undoing = 1
visit_holds _ = 0

module _ {E : Type 0} where
  -- The slots of client `k` that a job holds at `pc`.
  abbrev pub holds : ℕ → Pc E → ℕ
  holds k (visiting v start i idx) = if idx == k then visit_holds v else 0
  holds k (serving p idx) = if idx == k then 1 else 0
  holds k _ = 0

  -- The sum of a weight over the jobs.
  abbrev pub tally : (Pc E → ℕ) → List (Job E) → ℕ
  tally w = sum_by (λ job. w job.pc)

  -- A weight that is nothing for a queued job.
  pub tally-new :
      (w : Pc E → ℕ) (hosts : List String) → w queued ≡ 0 → tally w (map new_job hosts) ≡ 0
  tally-new w [] z = refl
  tally-new w (h ∷ hosts) z = omega (arith, z, tally-new w hosts z)

  abbrev pub holders : ℕ → List (Job E) → ℕ
  holders k = tally (holds k)

module _ {L B E : Type 0} where
  -- A step of a job from `pc` to `pc'`, seen from the clients.
  abbrev Moved : Pc E → Pc E → List (ProxyClient L B E) → List (ProxyClient L B E) → Type 0
  Moved pc pc' cs cs' =
      (k : ℕ) (c' : ProxyClient L B E)
      → get_elem? cs' k ≡ some c'
      → (c : ProxyClient L B E) × (get_elem? cs k ≡ some c)
        × Kept (holds k pc) (holds k pc') c.concurrency_sem c'.concurrency_sem

  Moved-same :
      (pc pc' : Pc E) (cs : List (ProxyClient L B E))
      → ((k : ℕ) → holds k pc' ≡ holds k pc)
      → Moved pc pc' cs cs
  Moved-same pc pc' cs e k c' g = (c', g, Kept-same _ _ _ _ refl (e k))

  at_client-Moved :
      (idx : ℕ) (f : ProxyClient L B E → ProxyClient L B E × Pc E) (pc : Pc E) (s : State L B E)
      → ((c : ProxyClient L B E)
          → Kept (holds idx pc) (holds idx (f c).1) c.concurrency_sem (f c).0.concurrency_sem)
      → ((k : ℕ) → idx ≢ k → holds k pc ≡ 0)
      → ((c : ProxyClient L B E) (k : ℕ) → idx ≢ k → holds k (f c).1 ≡ 0)
      → Moved pc (at_client idx f pc s).1 s.clients (at_client idx f pc s).0.clients
  unfolding at_client
  at_client-Moved idx f pc s here others others' = elim (Option-cases (get_elem? s.clients idx)) [
    | inl e ↦ rw (e, at_client) (Moved-same pc pc s.clients (λ k. refl))
    | inr (c, e) ↦ rw (e, at_client) (written c e)
  ]
    where
      written :
          (c : ProxyClient L B E)
          → get_elem? s.clients idx ≡ some c
          → Moved pc (f c).1 s.clients (set s.clients idx (f c).0)
      written c e k c' g = elim (get_elem?-set_cases s.clients idx k (f c).0 c' g) [
        | inl (p, q) ↦ (c, rw (← p) e, rw (← p, q) (here c))
        | inr (p, g') ↦ (c', g', Kept-same _ _ _ _ refl (others' c k p ∙ sym (others k p)))
      ]

module _ {L B E : Type 0} (lim : RateLimiter L E) (brk : CircuitBreaker B E) where
  visit-Kept :
      (inp : Input E) (v : Visit) (start i idx : ℕ) (c : ProxyClient L B E)
      → let (c', pc) = visit lim brk inp v start i idx c in
        Kept
          (holds {E = E} idx (visiting v start i idx))
          (holds idx pc)
          c.concurrency_sem
          c'.concurrency_sem
  unfolding visit
  visit-Kept inp checking start i idx c = Kept-same _ _ _ _ (ground arith) (ground arith)
  visit-Kept inp claiming start i idx c = acquire-Kept c _ _ (ground arith) (ground arith)
  visit-Kept inp limiting start i idx c = Kept-same _ _ _ _ (ground arith) (ground arith)
  visit-Kept inp undoing start i idx c = elim (Option-cases (release_concurrency c)) [
    | inl e ↦ rw (e, visit) (Kept-same _ _ _ _ refl (ground arith))
    | inr (c', e) ↦ rw (e, visit) (release-Kept c c' _ _ (ground arith) (ground arith) e)
  ]

  serve-Kept :
      (inp : Input E) (job : Job E) (p : Serve E) (idx : ℕ) (c : ProxyClient L B E)
      → let (c', pc) = serve lim brk inp job p idx c in
        Kept (holds idx (serving p idx)) (holds idx pc) c.concurrency_sem c'.concurrency_sem
  unfolding serve
  serve-Kept inp job waiting idx c = Kept-same _ _ _ _ (ground arith) (ground arith)
  serve-Kept inp job sleeping idx c = Kept-same _ _ _ _ (ground arith) (ground arith)
  serve-Kept inp job sending idx c = Kept-same _ _ _ _ (ground arith) (ground arith)
  serve-Kept inp job in_flight idx c = Kept-same _ _ _ _ (ground arith) (ground arith)
  serve-Kept inp job (recording o) idx c = Kept-same _ _ _ _ (ground arith) (ground arith)
  serve-Kept inp job (stamping o) idx c = Kept-same _ _ _ _ (ground arith) (ground arith)
  serve-Kept inp job (noting o) idx c = Kept-same _ _ _ _ (ground arith) (ground arith)
  serve-Kept inp job (telling o) idx c = Kept-same _ _ _ _ (ground arith) (ground arith)
  serve-Kept inp job (answering o) idx c = Kept-same _ _ _ _ (ground arith) (ground arith)
  serve-Kept inp job (releasing r) idx c = elim (Option-cases (release_concurrency c)) [
    | inl e ↦ rw (e, serve) (Kept-same _ _ _ _ refl (ground arith))
    | inr (c', e) ↦ rw (e, serve) (release-Kept c c' _ _ (ground arith) (ground arith) e)
  ]
  serve-Kept inp job p idx c = Kept-same _ _ _ _ (ground arith) (ground arith)

  loop_head-holds :
      (inp : Input E) (start i : ℕ) (s : State L B E) (k : ℕ)
      → holds k (loop_head inp start i s) ≡ 0
  loop_head-holds inp start i s k = ground arith

  visit-others :
      (inp : Input E) (v : Visit) (start i idx : ℕ) (c : ProxyClient L B E) (k : ℕ)
      → idx ≢ k
      → holds k (visit lim brk inp v start i idx c).1 ≡ 0
  unfolding visit
  visit-others inp checking start i idx c k ne = ground arith
  visit-others inp claiming start i idx c k ne = ground arith
  visit-others inp limiting start i idx c k ne = ground arith
  visit-others inp undoing start i idx c k ne = ground arith

  serve-others :
      (inp : Input E) (job : Job E) (p : Serve E) (idx : ℕ) (c : ProxyClient L B E) (k : ℕ)
      → idx ≢ k
      → holds k (serve lim brk inp job p idx c).1 ≡ 0
  unfolding serve
  serve-others inp job waiting idx c k ne = ground arith
  serve-others inp job sleeping idx c k ne = ground arith
  serve-others inp job (releasing r) idx c k ne = ground arith
  serve-others inp job p idx c k ne = ground arith

  serve-Moved :
      (inp : Input E) (job : Job E) (p : Serve E) (idx : ℕ) (s : State L B E)
      → let (s', pc) = at_client idx (serve lim brk inp job p idx) (serving p idx) s in
        Moved (serving p idx) pc s.clients s'.clients
  serve-Moved inp job p idx s =
      at_client-Moved idx _ _ s (serve-Kept inp job p idx) (λ k ne. ground arith)
        (serve-others inp job p idx)

  move-Moved :
      (inp : Input E) (job : Job E) (pc : Pc E) (s : State L B E)
      → let (s', pc') = move lim brk inp job pc s in Moved pc pc' s.clients s'.clients
  unfolding move settle
  move-Moved inp job queued s = Moved-same queued selecting s.clients (λ k. refl)
  move-Moved inp job selecting s = Moved-same selecting rotating s.clients (λ k. refl)
  move-Moved inp job rotating s =
      Moved-same rotating (looping (add64 s.selector.current_index 1 % length s.clients) 0)
        s.clients (λ k. refl)
  move-Moved inp job (looping start i) s =
      Moved-same (looping start i) (loop_head inp start i s) s.clients
        (λ k. loop_head-holds inp start i s k)
  move-Moved inp job (visiting v start i idx) s =
      at_client-Moved idx _ _ s (visit-Kept inp v start i idx) (λ k ne. ground arith)
        (visit-others inp v start i idx)
  move-Moved inp job (serving chosen idx) s =
      Moved-same (serving chosen idx) (serving waiting idx) s.clients (λ k. refl)
  move-Moved inp job (serving (cancelling url e) idx) s =
      Moved-same (serving (cancelling url e) idx)
        (serving (releasing (failed_at job.started (inp.clock 0) url (context_error e))) idx)
        s.clients (λ k. refl)
  move-Moved inp job (serving (settling r) idx) s = elim (Option-cases r.error) [
    | inl e ↦
        rw (e, settle)
          (Moved-same (serving (settling r) idx) (serving (releasing r) idx) s.clients (λ k. refl))
    | inr (x, e) ↦
        rw (e, settle)
          (Moved-same (serving (settling r) idx) (serving (releasing r) idx) s.clients (λ k. refl))
  ]
  move-Moved inp job (serving p idx) s = serve-Moved inp job p idx s
  move-Moved inp job (refusing e) s = Moved-same (refusing e) (failing e) s.clients (λ k. refl)
  move-Moved inp job (failing e) s =
      Moved-same (failing e) (ended (failed_at job.started (inp.clock 0) "" e)) s.clients
        (λ k. refl)
  move-Moved inp job (ended r) s = Moved-same (ended r) (ended r) s.clients (λ k. refl)

module _ {L B E : Type 0} where
  -- Each client's slots in use are those that the jobs hold, within the capacity that it had in `cs`.
  pub record Inv (cs : List (ProxyClient L B E)) (sys : System L B E) : Type 0 where
    pub slots :
        (k : ℕ) (c' : ProxyClient L B E)
        → get_elem? sys.state.clients k ≡ some c'
        → (c : ProxyClient L B E) × (get_elem? cs k ≡ some c)
          × (capacity_of c'.concurrency_sem ≡ capacity_of c.concurrency_sem)
          × Within (holders k sys.jobs) c'.concurrency_sem

module _ {L B E : Type 0} (lim : RateLimiter L E) (brk : CircuitBreaker B E)
    (cs : List (ProxyClient L B E)) where
  pub step-Inv : (x : ℕ × Input E) (sys : System L B E) → Inv cs sys → Inv cs (step lim brk x sys)
  unfolding step
  step-Inv (j, inp) sys v = elim (Option-cases (get_elem? sys.jobs j)) [
    | inl e ↦ rw (e, step) v
    | inr (job, e) ↦
        rw (e, step)
          (record {
            slots = λ k c' g.
                let (c1, g1, kept) = move-Moved lim brk inp job job.pc sys.state k c' g in
                let (c, g0, same, w) = v.slots k c1 g1 in
                let (w', cap) =
                  Kept-Within _ _ _ _ _ _ kept
                    (sum_by-set (λ job. holds k job.pc) sys.jobs j job _ e) w in
                (c, g0, cap ∙ same, w');
          })
  ]

  pub run-Inv :
      (xs : List (ℕ × Input E)) (sys : System L B E) → Inv cs sys → Inv cs (run lim brk xs sys)
  unfolding run
  run-Inv [] sys v = v
  run-Inv (x ∷ xs) sys v = run-Inv xs (step lim brk x sys) (step-Inv x sys v)

module _ {L B E : Type 0} where
  -- The jobs of these hosts, queued.
  abbrev pub begin : State L B E → List String → System L B E
  begin s hosts = record { state = s; jobs = map new_job hosts }

  abbrev pub AreFree : List (ProxyClient L B E) → Type 0
  AreFree = All (λ c. Within 0 c.concurrency_sem)

  pub begin-Inv :
      (s : State L B E) (hosts : List String) → AreFree s.clients → Inv s.clients (begin s hosts)
  begin-Inv s hosts free = record {
    slots = λ k c g. (
      c,
      g,
      refl,
      rw (tally-new (holds k) hosts refl)
          (All-get_elem? (λ x. Within 0 x.concurrency_sem) s.clients k c free g),
    );
  }

-- Under every interleaving of any jobs, on clients whose slots are free at first, each client keeps
-- its capacity, and its slots in use are exactly those that jobs hold, never more than the capacity.
pub run_slots :
    {L B E : Type 0} (lim : RateLimiter L E) (brk : CircuitBreaker B E) (xs : List (ℕ × Input E))
    (s : State L B E) (hosts : List String) (k : ℕ) (c' : ProxyClient L B E)
    → AreFree s.clients
    → get_elem? (run lim brk xs (begin s hosts)).state.clients k ≡ some c'
    → (c : ProxyClient L B E) × (get_elem? s.clients k ≡ some c)
      × (capacity_of c'.concurrency_sem ≡ capacity_of c.concurrency_sem)
      × Within (holders k (run lim brk xs (begin s hosts)).jobs) c'.concurrency_sem
run_slots lim brk xs s hosts k c' free g =
    (run-Inv lim brk s.clients xs (begin s hosts) (begin-Inv s hosts free)).slots k c' g
