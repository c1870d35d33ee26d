-- ===== src/Worker/Race/Complete.antt =====
-- What the counters say when every job has had its turns.
use Prim.Native.String.{String}
use rapid_proxy.Prelude.{
  sum_by-one, sum_by-plus, ℕ, suc, ◌+◌, ◌*◌, ◌^◌, ◌%◌, ◌≤◌, ◌<◌, ◌≡◌, refl, ap, ◌∙◌, map, arith,
  List, [], ◌∷◌, get_elem?, length, length-set, Option-cases, inl, inr,
}
use rapid_proxy.Client.Interfaces.{RateLimiter, CircuitBreaker}
use rapid_proxy.Selector.{rounds}
use rapid_proxy.Selector.Frame.{get_elem?-lt}
use rapid_proxy.Worker.{State, Result}
use rapid_proxy.Worker.Release.{Unlimited}
use rapid_proxy.Worker.Race.{Input, Pc, ended, System, step_job, step, run, new_job}
use rapid_proxy.Worker.Race.Slots.{tally, begin, AreFree}
use rapid_proxy.Worker.Race.Finish.{turns, run_finishes}
use rapid_proxy.Worker.Race.Counters.{
  begun, succeeded, failed, asked, answered, run-Counts, begin-Counts,
}

length-new :
    (E : Type 0) (hosts : List String) → length (map (new_job {E = E}) hosts) ≡ length hosts
length-new E [] = refl
length-new E (h ∷ hosts) = ap suc (length-new E hosts)

module _ {E : Type 0} where
  ended_result : (r : Result E) → succeeded (ended r) + failed (ended r) ≡ 1
  ended_result r = elim (Option-cases r.error) [ inl q ↦ ground arith | inr (x, q) ↦ ground arith ]

module _ {L B E : Type 0} (lim : RateLimiter L E) (brk : CircuitBreaker B E) where
  length-run :
      (xs : List (ℕ × Input E)) (sys : System L B E)
      → length (run lim brk xs sys).jobs ≡ length sys.jobs
  unfolding run step step_job
  length-run [] sys = refl
  length-run ((j, inp) ∷ xs) sys =
      length-run xs (step lim brk (j, inp) sys) ∙ (elim (Option-cases (get_elem? sys.jobs j)) [
        | inl e ↦ rw (e, step) refl
        | inr (job, e) ↦ rw (e, step) (length-set sys.jobs j _)
      ])

  -- A weight of one for every job that has ended.
  tally-ended :
      (w : Pc E → ℕ) (xs : List (ℕ × Input E)) (s : State L B E) (hosts : List String)
      → ((r : Result E) → w (ended r) ≡ 1)
      → AreFree s.clients
      → Unlimited s.clients
      → 0 < length s.clients
      → ((j : ℕ) → j < length hosts → 16 + 5 * rounds s.selector.max_retries ≤ turns j xs)
      → tally w (run lim brk xs (begin s hosts)).jobs ≡ length hosts
  tally-ended w xs s hosts one free u p t =
      let jobs = (run lim brk xs (begin s hosts)).jobs in
      let n : length jobs ≡ length hosts = length-run xs (begin s hosts) ∙ length-new E hosts in
      sum_by-one (λ job. w job.pc) jobs
        (λ j job e.
          let lt = get_elem?-lt jobs j job e in
          let (job', r, e', q) =
            run_finishes lim brk xs s hosts j free u p (omega (arith, lt, n))
              (t j (omega (arith, lt, n))) in
          let same : job ≡ job' = ground arith in rw (same, q) (one r))
      ∙ n

-- On a pool with clients, whose slots are free at first and which have no domain limits, when
-- every job of a batch has had `16 + 5 * rounds` turns: each has been counted once as a job and
-- once as a success or a failure, and once as a selection and once as what that found, modulo 2 ^
-- 64, however the jobs were interleaved. No increment is lost or doubled.
pub run_counts :
    {L B E : Type 0} (lim : RateLimiter L E) (brk : CircuitBreaker B E) (xs : List (ℕ × Input E))
    (s : State L B E) (hosts : List String)
    → AreFree s.clients
    → Unlimited s.clients
    → 0 < length s.clients
    → ((j : ℕ) → j < length hosts → 16 + 5 * rounds s.selector.max_retries ≤ turns j xs)
    → let s' = (run lim brk xs (begin s hosts)).state in
      (s'.total_jobs % 2 ^ 64 ≡ (s.total_jobs + length hosts) % 2 ^ 64)
      × ((s'.success_jobs + s'.failed_jobs) % 2 ^ 64
          ≡ (s.success_jobs + s.failed_jobs + length hosts) % 2 ^ 64)
      × (s'.selector.total_selections % 2 ^ 64
          ≡ (s.selector.total_selections + length hosts) % 2 ^ 64)
      × ((s'.selector.success_selections + s'.selector.failed_selections) % 2 ^ 64
          ≡ (s.selector.success_selections + s.selector.failed_selections + length hosts) % 2 ^ 64)
run_counts lim brk xs s hosts free u p t =
    let v = run-Counts lim brk s xs (begin s hosts) (begin-Counts lim brk s hosts) in
    let jobs = (run lim brk xs (begin s hosts)).jobs in
    (
      omega (arith, v.total, tally-ended lim brk begun xs s hosts (λ r. refl) free u p t),
      omega (
        arith,
        v.success,
        v.failure,
        sum_by-plus (λ job. succeeded job.pc) (λ job. failed job.pc) jobs,
        tally-ended lim brk (λ pc. succeeded pc + failed pc) xs s hosts ended_result free u p t,
      ),
      omega (arith, v.selections, tally-ended lim brk asked xs s hosts (λ r. refl) free u p t),
      omega (arith, v.answers, tally-ended lim brk answered xs s hosts (λ r. refl) free u p t),
    )
