-- ===== src/Worker/Race/Arrivals.antt =====
-- Jobs that arrive while others run, and the channels of their results.
use Prim.Native.String.{String}
use native.Mathlib.Decide.{ℕ_discrete}
use rapid_proxy.Prelude.{
  length, length-set, ℕ, ◌<◌, ◌≡◌, ◌≢◌, ◌⊎◌, subst, arith, some, List, [], ◌∷◌, ◌++◌, get_elem?,
  get_elem?-append_cases, get_elem?-set_cases, inl, inr, sum_by-append, sum_by-set,
}
use rapid_proxy.Client.{ProxyClient}
use rapid_proxy.Client.Slots.{Within}
use rapid_proxy.Client.Interfaces.{RateLimiter, CircuitBreaker}
use rapid_proxy.Worker.{State, Result}
use rapid_proxy.Worker.Race.{
  Input, releasing, Pc, serving, ended, Job, System, new_job, at_client, serve, move, settle,
  starts_at, step, step_job, result_channel,
}
use rapid_proxy.Worker.Race.Slots.{Inv, holds, tally}
use rapid_proxy.Worker.Race.Progress.{IsInside, work, move-work}
use rapid_proxy.Worker.Race.Finish.{Alive, Alive-CanRelease, done_working}

module _ {L B E : Type 0} where
  -- One more job.
  abbrev pub with_job : String → System L B E → System L B E
  with_job hostname sys = record sys { jobs = sys.jobs ++ new_job hostname ∷ [] }

  pub with_job-Inv :
      (cs : List (ProxyClient L B E)) (hostname : String) (sys : System L B E)
      → Inv cs sys
      → Inv cs (with_job hostname sys)
  with_job-Inv cs hostname sys v = record {
    slots = λ k c' g.
        let (c, g0, same, w) = v.slots k c' g in
        let same_holders =
          sum_by-append (λ (job : Job E). holds k job.pc) sys.jobs (new_job hostname) in
        (c, g0, same, subst (λ n. Within n c'.concurrency_sem) (omega (arith, same_holders)) w);
  }

  pub with_job-Alive :
      (r : ℕ) (cs : List (ProxyClient L B E)) (hostname : String) (sys : System L B E)
      → Alive r cs sys
      → Alive r cs (with_job hostname sys)
  with_job-Alive r cs hostname sys v = record {
    slots = with_job-Inv cs hostname sys v.slots;
    has_clients = v.has_clients;
    same_rounds = v.same_rounds;
    unlimited = v.unlimited;
    inside = λ j job g. elim (get_elem?-append_cases sys.jobs (new_job hostname) j job g) [
      | inl g' ↦ v.inside j job g'
      | inr (p, q) ↦ subst (λ x. IsInside (length sys.state.clients) x.pc) q tt
    ];
  }

module _ {L B E : Type 0} (lim : RateLimiter L E) (brk : CircuitBreaker B E) where
  -- A result in the channel stays there for its caller, whatever the job still does.
  move-result_channel :
      (inp : Input E) (job : Job E) (pc : Pc E) (s : State L B E) (r : Result E)
      → result_channel pc ≡ some r
      → result_channel (move lim brk inp job pc s).1 ≡ some r
  unfolding move settle serve at_client
  move-result_channel inp job (serving (releasing x) idx) s r e = ground arith
  move-result_channel inp job (ended x) s r e = e
  move-result_channel inp job pc s r e = cc

  -- What a step of job `j` does to the jobs.
  pub step-jobs :
      (j k : ℕ) (inp : Input E) (sys : System L B E) (job job' : Job E)
      → get_elem? sys.jobs j ≡ some job
      → get_elem? (step lim brk (j, inp) sys).jobs k ≡ some job'
      → ((j ≡ k)
          × ((r : Result E) → result_channel job.pc ≡ some r → result_channel job'.pc ≡ some r))
        ⊎ ((j ≢ k) × (get_elem? sys.jobs k ≡ some job'))
  unfolding step step_job
  step-jobs j k inp sys job job' e g =
      elim (get_elem?-set_cases sys.jobs j k _ job' (rw (e, step) at g)) [
        | inl (p, q) ↦ inl (p, λ r h. rw q (move-result_channel inp job job.pc sys.state r h))
        | inr (p, g') ↦ inr (p, g')
      ]

  pub length-step :
      (j : ℕ) (inp : Input E) (sys : System L B E) (job : Job E)
      → get_elem? sys.jobs j ≡ some job
      → length (step lim brk (j, inp) sys).jobs ≡ length sys.jobs
  unfolding step step_job
  length-step j inp sys job e = rw (e, step) (length-set sys.jobs j _)

  -- A step of a job that has not ended leaves the jobs less to do.
  pub step-tally :
      (r : ℕ) (cs : List (ProxyClient L B E)) (j : ℕ) (inp : Input E) (sys : System L B E)
      (job : Job E)
      → Alive r cs sys
      → get_elem? sys.jobs j ≡ some job
      → ((x : Result E) → job.pc ≢ ended x)
      → tally (work r) (step lim brk (j, inp) sys).jobs < tally (work r) sys.jobs
  unfolding step step_job
  step-tally r cs j inp sys job v e h = elim (ℕ_discrete (work r job.pc) 0) [
    | yes z ↦ let (x, d) = done_working r job.pc (omega (arith, z)) in absurd (h x d)
    | no z ↦
        let moved = record job {
          started = starts_at lim brk (inp.clock 0) job job.pc;
          pc = (move lim brk inp job job.pc sys.state).1;
        } in
        let less =
          move-work lim brk inp job job.pc sys.state r v.same_rounds (v.inside j job e)
            (λ k c g. (Alive-CanRelease r cs sys j k job c v e g, v.unlimited k c g)) in
        let sums = sum_by-set (λ (y : Job E). work r y.pc) sys.jobs j job moved e in
        rw (e, step) (omega (arith, less, sums, z))
  ]
