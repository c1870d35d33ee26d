-- ===== src/Worker/Race/Finish.antt =====
-- The end of a job, by the number of its turns.
use Prim.Native.String.{String}
use native.Mathlib.Nat.{mod-lt}
use native.Mathlib.Decide.{ℕ_discrete}
use rapid_proxy.Prelude.{
  get_elem?-sum_by, ℕ, zero, suc, ◌+◌, ◌-◌, ◌*◌, ◌≤◌, ◌<◌, ◌≡◌, refl, sym, ap, subst, ◌∙◌, map,
  arith, Option, none, some, List, [], ◌∷◌, ◌==◌, if◌then◌else◌, add64, get_elem?,
  get_elem?-set_self, get_elem?-set_ne, get_elem?-set_cases, length, Option-cases, inl, inr,
  All-get_elem?,
}
use rapid_proxy.Client.{ProxyClient, Semaphore}
use rapid_proxy.Client.Slots.{Within, release-some}
use rapid_proxy.Client.Interfaces.{RateLimiter, CircuitBreaker}
use rapid_proxy.Selector.{rounds}
use rapid_proxy.Selector.Frame.{get_elem?-lt}
use rapid_proxy.Worker.{State, Result}
use rapid_proxy.Worker.Release.{Unlimited}
use rapid_proxy.Worker.Race.{
  Input, Visit, checking, claiming, limiting, undoing, Serve, chosen, waiting, sleeping, cancelling,
  settling, releasing, Pc, queued, selecting, rotating, looping, visiting, serving, refusing,
  failing, ended, Job, System, visit, serve, at_client, settle, move, starts_at, step_job, step,
  run, new_job,
}
use rapid_proxy.Worker.Race.Slots.{holds, Inv, step-Inv, begin, begin-Inv, AreFree}
use rapid_proxy.Worker.Race.Progress.{
  work, IsInside, CanRelease, Left, Left-refl, at_client-Left, visit-limits, serve-limits,
  move-work,
}

module _ {L B E : Type 0} (lim : RateLimiter L E) (brk : CircuitBreaker B E) where
  move-Left :
      (inp : Input E) (job : Job E) (pc : Pc E) (s : State L B E)
      → Left s (move lim brk inp job pc s).0
  unfolding move settle
  move-Left inp job queued s = Left-refl s _ refl refl
  move-Left inp job selecting s = Left-refl s _ refl refl
  move-Left inp job rotating s = Left-refl s _ refl refl
  move-Left inp job (looping start i) s = Left-refl s _ refl refl
  move-Left inp job (visiting v start i idx) s =
      at_client-Left idx _ _ s (visit-limits lim brk inp v start i idx)
  move-Left inp job (serving chosen idx) s = Left-refl s _ refl refl
  move-Left inp job (serving (cancelling url e) idx) s = Left-refl s _ refl refl
  move-Left inp job (serving (settling r) idx) s = Left-refl s _ (ground arith) (ground arith)
  move-Left inp job (serving p idx) s =
      at_client-Left idx _ _ s (serve-limits lim brk inp job p idx)
  move-Left inp job (refusing e) s = Left-refl s _ refl (ground arith)
  move-Left inp job (failing e) s = Left-refl s _ refl refl
  move-Left inp job (ended r) s = Left-refl s _ refl refl

  visit-IsInside :
      (inp : Input E) (v : Visit) (start i idx n : ℕ) (c : ProxyClient L B E)
      → idx < n
      → IsInside n (visit lim brk inp v start i idx c).1
  unfolding visit
  visit-IsInside inp checking start i idx n c h = ground arith
  visit-IsInside inp claiming start i idx n c h = ground arith
  visit-IsInside inp limiting start i idx n c h = ground arith
  visit-IsInside inp undoing start i idx n c h = ground arith

  serve-IsInside :
      (inp : Input E) (job : Job E) (p : Serve E) (idx n : ℕ) (c : ProxyClient L B E)
      → idx < n
      → IsInside n (serve lim brk inp job p idx c).1
  unfolding serve
  serve-IsInside inp job waiting idx n c h = ground arith
  serve-IsInside inp job sleeping idx n c h = ground arith
  serve-IsInside inp job (releasing r) idx n c h = ground arith
  serve-IsInside inp job p idx n c h = ground arith

  at_client-IsInside :
      (idx n : ℕ) (f : ProxyClient L B E → ProxyClient L B E × Pc E) (pc : Pc E) (s : State L B E)
      → IsInside n pc
      → ((c : ProxyClient L B E) → IsInside n (f c).1)
      → IsInside n (at_client idx f pc s).1
  unfolding at_client
  at_client-IsInside idx n f pc s h k = elim (Option-cases (get_elem? s.clients idx)) [
    | inl e ↦ rw (e, at_client) h
    | inr (c, e) ↦ rw (e, at_client) (k c)
  ]

  move-IsInside :
      (inp : Input E) (job : Job E) (pc : Pc E) (s : State L B E)
      → 0 < length s.clients
      → IsInside (length s.clients) pc
      → IsInside (length s.clients) (move lim brk inp job pc s).1
  unfolding move settle
  move-IsInside inp job (looping start i) s p h =
      let small = mod-lt (add64 start i) p in ground arith
  move-IsInside inp job (visiting v start i idx) s p h =
      at_client-IsInside idx _ _ _ s h (λ c. visit-IsInside inp v start i idx _ c h)
  move-IsInside inp job (serving chosen idx) s p h = h
  move-IsInside inp job (serving (cancelling url e) idx) s p h = h
  move-IsInside inp job (serving (settling r) idx) s p h = h
  move-IsInside inp job (serving q idx) s p h =
      at_client-IsInside idx _ _ _ s h (λ c. serve-IsInside inp job q idx _ c h)
  move-IsInside inp job pc s p h = tt

module _ {E : Type 0} where
  -- The steps of job `j`.
  abbrev pub turns : ℕ → List (ℕ × Input E) → ℕ
  turns j [] = 0
  turns j ((i, inp) ∷ xs) = if i == j then suc (turns j xs) else turns j xs

used :
    (h n : ℕ) (sem : Semaphore) (o : Option Semaphore)
    → h ≤ n
    → h ≡ 1
    → o ≡ some sem
    → Within n o
    → 0 < sem.used
used h n sem o le one q w = let w' = subst (λ x. Within n x) q w in omega (arith, w'.0)

module _ {L B E : Type 0} where
  -- A system in which no job can be stuck.
  pub record Alive (r : ℕ) (cs : List (ProxyClient L B E)) (sys : System L B E) : Type 0 where
    pub slots : Inv cs sys
    pub has_clients : 0 < length sys.state.clients
    pub same_rounds : rounds sys.state.selector.max_retries ≡ r
    pub unlimited :
        (k : ℕ) (c : ProxyClient L B E)
        → get_elem? sys.state.clients k ≡ some c
        → c.domain_limiter ≡ none
    pub inside :
        (j : ℕ) (job : Job E)
        → get_elem? sys.jobs j ≡ some job
        → IsInside (length sys.state.clients) job.pc

  pub Alive-CanRelease :
      (r : ℕ) (cs : List (ProxyClient L B E)) (sys : System L B E) (j k : ℕ) (job : Job E)
      (c : ProxyClient L B E)
      → Alive r cs sys
      → get_elem? sys.jobs j ≡ some job
      → get_elem? sys.state.clients k ≡ some c
      → CanRelease k job.pc c
  Alive-CanRelease r cs sys j k job c v e g h =
      let (c0, g0, same, w) = v.slots.slots k c g in
      release-some c (λ sem q.
        used _ _ sem c.concurrency_sem (get_elem?-sum_by (λ job. holds k job.pc) sys.jobs j job e) h
          q w)

module _ {L B E : Type 0} (lim : RateLimiter L E) (brk : CircuitBreaker B E) (r : ℕ)
    (cs : List (ProxyClient L B E)) where
  pub step-Alive :
      (x : ℕ × Input E) (sys : System L B E) → Alive r cs sys → Alive r cs (step lim brk x sys)
  unfolding step step_job
  step-Alive (j, inp) sys v = elim (Option-cases (get_elem? sys.jobs j)) [
    | inl e ↦ rw (e, step) v
    | inr (job, e) ↦
        let left = move-Left lim brk inp job job.pc sys.state in
        let stays =
          move-IsInside lim brk inp job job.pc sys.state v.has_clients (v.inside j job e) in
        record {
          slots = step-Inv lim brk cs (j, inp) sys v.slots;
          has_clients = rw (e, step) (omega (arith, left.same_length, v.has_clients));
          same_rounds = rw (e, step) (ap rounds left.same_rounds ∙ v.same_rounds);
          unlimited =
              rw (e, step)
                (λ k c' g. let (c, g0, h) = left.same_limits k c' g in h (v.unlimited k c g0));
          inside =
              rw (e, step)
                (λ i y g. elim (get_elem?-set_cases sys.jobs j i _ y g) [
                  | inl (p, q) ↦ rw q (
                      subst (λ n. IsInside n (move lim brk inp job job.pc sys.state).1)
                        (sym left.same_length) stays)
                  | inr (p, g0) ↦
                      subst (λ n. IsInside n y.pc) (sym left.same_length) (v.inside i y g0)
                ]);
        }
  ]

  -- A turn of a job is one step nearer to its end, a turn of another leaves it where it is.
  pub step-work :
      (i j : ℕ) (inp : Input E) (sys : System L B E) (job : Job E)
      → Alive r cs sys
      → get_elem? sys.jobs j ≡ some job
      → (job' : Job E) × (get_elem? (step lim brk (i, inp) sys).jobs j ≡ some job')
        × (work r job'.pc ≤ work r job.pc - (if i == j then 1 else 0))
  unfolding step step_job
  step-work i j inp sys job v e = elim (ℕ_discrete i j) [
    | yes p ↦
        let moved = record job {
          started = starts_at lim brk (inp.clock 0) job job.pc;
          pc = (move lim brk inp job job.pc sys.state).1;
        } in
        (
          moved,
          rw (p, e, step) (get_elem?-set_self sys.jobs j moved (get_elem?-lt sys.jobs j job e)),
          rw p (
              ground (
                arith,
                move-work lim brk inp job job.pc sys.state r v.same_rounds (v.inside j job e)
                    (λ k c g. (Alive-CanRelease r cs sys j k job c v e g, v.unlimited k c g)),
              )),
        )
    | no p ↦ elim (Option-cases (get_elem? sys.jobs i)) [
      | inl n ↦ (job, rw (n, step) e, ground arith)
      | inr (other, n) ↦ (job, rw (n, step) (get_elem?-set_ne sys.jobs _ p ∙ e), ground arith)
    ]
  ]

  run-work :
      (xs : List (ℕ × Input E)) (j : ℕ) (sys : System L B E) (job : Job E)
      → Alive r cs sys
      → get_elem? sys.jobs j ≡ some job
      → (job' : Job E) × (get_elem? (run lim brk xs sys).jobs j ≡ some job')
        × (work r job'.pc ≤ work r job.pc - turns j xs)
  unfolding run
  run-work [] j sys job v e = (job, e, omega arith)
  run-work ((i, inp) ∷ xs) j sys job v e =
      let (job1, e1, w1) = step-work i j inp sys job v e in
      let (job2, e2, w2) =
        run-work xs j (step lim brk (i, inp) sys) job1 (step-Alive (i, inp) sys v) e1 in
      (job2, e2, ground arith)

pub done_working :
    {E : Type 0} (r : ℕ) (pc : Pc E) → work r pc ≤ 0 → (x : Result E) × (pc ≡ ended x)
done_working r queued h = absurd (omega arith)
done_working r selecting h = absurd (omega arith)
done_working r rotating h = absurd (omega arith)
done_working r (looping start i) h = absurd (omega arith)
done_working r (visiting v start i idx) h = absurd (omega arith)
done_working r (serving p idx) h = absurd (ground arith)
done_working r (refusing e) h = absurd (omega arith)
done_working r (failing e) h = absurd (omega arith)
done_working r (ended x) h = (x, refl)

begin-job :
    {E : Type 0} (hosts : List String) (j : ℕ)
    → j < length hosts
    → (job : Job E) × (get_elem? (map new_job hosts) j ≡ some job) × (job.pc ≡ queued)
begin-job [] j h = absurd (omega arith)
begin-job (x ∷ hosts) zero h = (new_job x, refl, refl)
begin-job (x ∷ hosts) (suc j) h = begin-job hosts j (omega arith)

pcs_queued :
    {E : Type 0} (hosts : List String) (j : ℕ) (job : Job E)
    → get_elem? (map new_job hosts) j ≡ some job
    → job.pc ≡ queued
pcs_queued [] j job e = cc
pcs_queued (x ∷ hosts) zero job e = let q : new_job x ≡ job = ground arith in ap (λ y. y.pc) (sym q)
pcs_queued (x ∷ hosts) (suc j) job e = pcs_queued hosts j job e

module _ {L B E : Type 0} where
  pub begin-Alive :
      (s : State L B E) (hosts : List String)
      → AreFree s.clients
      → Unlimited s.clients
      → 0 < length s.clients
      → Alive (rounds s.selector.max_retries) s.clients (begin s hosts)
  begin-Alive s hosts free u p = record {
    slots = begin-Inv s hosts free;
    has_clients = p;
    same_rounds = refl;
    unlimited = λ k c g. All-get_elem? (λ x. x.domain_limiter ≡ none) s.clients k c u g;
    inside = λ j job g. rw (pcs_queued hosts j job g) tt;
  }

at_most_queued :
    {E : Type 0} (r n : ℕ) (pc pc' : Pc E)
    → pc ≡ queued
    → 16 + 5 * r ≤ n
    → work r pc' ≤ work r pc - n
    → work r pc' ≤ 0
at_most_queued r n pc pc' q t w = let w' = subst (λ y. work r pc' ≤ work r y - n) q w in omega arith

-- On a pool with clients, whose slots are free at first and which have no domain limits, each job has
-- ended once it has had `16 + 5 * rounds` turns, whatever the other jobs do before, between and
-- after them, how the limiters and breakers answer and what the attempts come to: no job waits for another.
pub run_finishes :
    {L B E : Type 0} (lim : RateLimiter L E) (brk : CircuitBreaker B E) (xs : List (ℕ × Input E))
    (s : State L B E) (hosts : List String) (j : ℕ)
    → AreFree s.clients
    → Unlimited s.clients
    → 0 < length s.clients
    → j < length hosts
    → 16 + 5 * rounds s.selector.max_retries ≤ turns j xs
    → (job : Job E) × (x : Result E) × (get_elem? (run lim brk xs (begin s hosts)).jobs j
        ≡ some job)
      × (job.pc ≡ ended x)
run_finishes lim brk xs s hosts j free u p h t =
    let (job, e, q) = begin-job hosts j h in
    let r = rounds s.selector.max_retries in
    let (job', e', w) =
      run-work lim brk r s.clients xs j (begin s hosts) job (begin-Alive s hosts free u p) e in
    let (x, d) = done_working r job'.pc (at_most_queued r (turns j xs) job.pc job'.pc q t w) in
    (job', x, e', d)
