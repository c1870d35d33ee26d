-- ===== src/Worker/Race/Counters.antt =====
-- The counters of the worker and of the selector while jobs run interleaved.
use Prim.Native.String.{String}
use rapid_proxy.Prelude.{
  sum_by-set, ℕ, ◌+◌, ◌^◌, ◌%◌, ◌≡◌, refl, arith, none, some, List, [], ◌∷◌, Int64, get_elem?,
  Option-cases, inl, inr,
}
use rapid_proxy.Client.{ProxyClient, release_concurrency}
use rapid_proxy.Client.Interfaces.{RateLimiter, CircuitBreaker}
use rapid_proxy.Worker.{State, Result}
use rapid_proxy.Worker.Race.{
  Input, Visit, checking, claiming, limiting, undoing, Serve, chosen, waiting, sleeping, cancelling,
  settling, releasing, Pc, queued, selecting, rotating, looping, visiting, serving, refusing,
  failing, ended, Job, System, visit, serve, at_client, settle, count_job, move, step_job, step,
  run,
}
use rapid_proxy.Worker.Race.Slots.{tally, tally-new, begin}

module _ {E : Type 0} where
  -- The job has been counted in `total_jobs`.
  abbrev pub begun : Pc E → ℕ
  begun queued = 0
  begun _ = 1

  abbrev pub succeeded_with : Result E → ℕ
  succeeded_with r = elim r.error [ none ↦ 1 | some e ↦ 0 ]

  abbrev pub failed_with : Result E → ℕ
  failed_with r = elim r.error [ none ↦ 0 | some e ↦ 1 ]

  -- The job has its result, a response.
  abbrev pub succeeded : Pc E → ℕ
  succeeded (serving (releasing r) idx) = succeeded_with r
  succeeded (ended r) = succeeded_with r
  succeeded _ = 0

  -- The job has its result, an error.
  abbrev pub failed : Pc E → ℕ
  failed (serving (releasing r) idx) = failed_with r
  failed (ended r) = failed_with r
  failed _ = 0

  -- `Select` has been called for the job, and has counted.
  abbrev pub asked : Pc E → ℕ
  asked queued = 0
  asked selecting = 0
  asked _ = 1

  -- And `Select` has counted what it found.
  abbrev pub answered : Pc E → ℕ
  answered (serving chosen idx) = 0
  answered (serving p idx) = 1
  answered (failing e) = 1
  answered (ended r) = 1
  answered _ = 0

-- A counter before and after a step, with the weight of the job that steps.
abbrev Ticks : Int64 → Int64 → ℕ → ℕ → Type 0
Ticks x x' w w' = (x' + w) % 2 ^ 64 ≡ (x + w') % 2 ^ 64

Ticks-sum :
    (x0 x x' w w' n n' : ℕ)
    → Ticks x x' w w'
    → n' + w ≡ n + w'
    → x % 2 ^ 64 ≡ (x0 + n) % 2 ^ 64
    → x' % 2 ^ 64 ≡ (x0 + n') % 2 ^ 64
Ticks-sum x0 x x' w w' n n' t e h = omega arith

module _ {L B E : Type 0} where
  record Counted (s s' : State L B E) (pc pc' : Pc E) : Type 0 where
    total : Ticks s.total_jobs s'.total_jobs (begun pc) (begun pc')
    success : Ticks s.success_jobs s'.success_jobs (succeeded pc) (succeeded pc')
    failure : Ticks s.failed_jobs s'.failed_jobs (failed pc) (failed pc')
    selections :
        Ticks s.selector.total_selections s'.selector.total_selections (asked pc) (asked pc')
    answers :
        Ticks
          (s.selector.success_selections + s.selector.failed_selections)
          (s'.selector.success_selections + s'.selector.failed_selections)
          (answered pc)
          (answered pc')

  -- A step that counts nothing.
  Counted-same :
      (s s' : State L B E) (pc pc' : Pc E)
      → s'.total_jobs ≡ s.total_jobs
      → s'.success_jobs ≡ s.success_jobs
      → s'.failed_jobs ≡ s.failed_jobs
      → s'.selector ≡ s.selector
      → begun pc' ≡ begun pc
      → succeeded pc' ≡ succeeded pc
      → failed pc' ≡ failed pc
      → asked pc' ≡ asked pc
      → answered pc' ≡ answered pc
      → Counted s s' pc pc'
  Counted-same s s' pc pc' a b c d e f g h i = record {
    total = rw (a, e) refl;
    success = rw (b, f) refl;
    failure = rw (c, g) refl;
    selections = rw (d, h) refl;
    answers = rw (d, i) refl;
  }

module _ {L B E : Type 0} (lim : RateLimiter L E) (brk : CircuitBreaker B E) where
  visit-weights :
      (inp : Input E) (v : Visit) (start i idx : ℕ) (c : ProxyClient L B E)
      → let pc = (visit lim brk inp v start i idx c).1 in
        (begun pc ≡ 1) × (succeeded pc ≡ 0) × (failed pc ≡ 0) × (asked pc ≡ 1) × (answered pc ≡ 0)
  unfolding visit
  visit-weights inp checking start i idx c = ground arith
  visit-weights inp claiming start i idx c = ground arith
  visit-weights inp limiting start i idx c = ground arith
  visit-weights inp undoing start i idx c = ground arith

  serve-weights :
      (inp : Input E) (job : Job E) (p : Serve E) (idx : ℕ) (c : ProxyClient L B E)
      → let pc = (serve lim brk inp job p idx c).1 in
        (begun pc ≡ 1)
        × (succeeded pc ≡ succeeded (serving p idx))
        × (failed pc ≡ failed (serving p idx))
        × (asked pc ≡ 1)
        × (answered pc ≡ answered (serving p idx))
  unfolding serve
  serve-weights inp job waiting idx c = ground arith
  serve-weights inp job sleeping idx c = ground arith
  serve-weights inp job (releasing r) idx c = elim (Option-cases (release_concurrency c)) [
    | inl e ↦ rw (e, serve) (refl, refl, refl, refl, refl)
    | inr (c', e) ↦ rw (e, serve) (refl, refl, refl, refl, refl)
  ]
  serve-weights inp job p idx c = (refl, refl, refl, refl, refl)

  at_client-Counted :
      (idx : ℕ) (f : ProxyClient L B E → ProxyClient L B E × Pc E) (pc : Pc E) (s : State L B E)
      → ((c : ProxyClient L B E)
          → (begun (f c).1 ≡ begun pc)
            × (succeeded (f c).1 ≡ succeeded pc)
            × (failed (f c).1 ≡ failed pc)
            × (asked (f c).1 ≡ asked pc)
            × (answered (f c).1 ≡ answered pc))
      → Counted s (at_client idx f pc s).0 pc (at_client idx f pc s).1
  unfolding at_client
  at_client-Counted idx f pc s h = elim (Option-cases (get_elem? s.clients idx)) [
    | inl e ↦
        rw (e, at_client) (Counted-same s s pc pc refl refl refl refl refl refl refl refl refl)
    | inr (c, e) ↦
        let (a, b, x, y, z) = h c in
        rw (e, at_client) (Counted-same s _ pc (f c).1 refl refl refl refl a b x y z)
  ]

  settled-Counted :
      (r : Result E) (idx : ℕ) (s : State L B E)
      → Counted s (count_job r s) (serving (settling r) idx) (serving (releasing r) idx)
  settled-Counted r idx s = elim (Option-cases r.error) [
    | inl e ↦ record {
      total = ground arith;
      success = ground arith;
      failure = ground arith;
      selections = ground arith;
      answers = ground arith;
    }
    | inr (x, e) ↦ record {
      total = ground arith;
      success = ground arith;
      failure = ground arith;
      selections = ground arith;
      answers = ground arith;
    }
  ]

  move-Counted :
      (inp : Input E) (job : Job E) (pc : Pc E) (s : State L B E)
      → Counted s (move lim brk inp job pc s).0 pc (move lim brk inp job pc s).1
  unfolding move settle
  move-Counted inp job queued s = record {
    total = omega arith;
    success = refl;
    failure = refl;
    selections = refl;
    answers = refl;
  }
  move-Counted inp job selecting s = record {
    total = refl;
    success = refl;
    failure = refl;
    selections = omega arith;
    answers = refl;
  }
  move-Counted inp job rotating s = record {
    total = refl;
    success = refl;
    failure = refl;
    selections = refl;
    answers = refl;
  }
  move-Counted inp job (looping start i) s = record {
    total = ground arith;
    success = ground arith;
    failure = ground arith;
    selections = ground arith;
    answers = ground arith;
  }
  move-Counted inp job (visiting v start i idx) s =
      at_client-Counted idx _ _ s (visit-weights inp v start i idx)
  move-Counted inp job (serving chosen idx) s = record {
    total = refl;
    success = refl;
    failure = refl;
    selections = refl;
    answers = omega arith;
  }
  move-Counted inp job (serving (cancelling url e) idx) s = record {
    total = refl;
    success = refl;
    failure = omega arith;
    selections = refl;
    answers = refl;
  }
  move-Counted inp job (serving (settling r) idx) s = settled-Counted r idx s
  move-Counted inp job (serving p idx) s = at_client-Counted idx _ _ s (serve-weights inp job p idx)
  move-Counted inp job (refusing e) s = record {
    total = ground arith;
    success = ground arith;
    failure = ground arith;
    selections = ground arith;
    answers = ground arith;
  }
  move-Counted inp job (failing e) s = record {
    total = refl;
    success = refl;
    failure = omega arith;
    selections = refl;
    answers = refl;
  }
  move-Counted inp job (ended r) s =
      Counted-same s s (ended r) (ended r) refl refl refl refl refl refl refl refl refl

module _ {L B E : Type 0} where
  -- The counters since `s`, by where the jobs are.
  pub record Counts (s : State L B E) (sys : System L B E) : Type 0 where
    pub total : sys.state.total_jobs % 2 ^ 64 ≡ (s.total_jobs + tally begun sys.jobs) % 2 ^ 64
    pub success :
        sys.state.success_jobs % 2 ^ 64 ≡ (s.success_jobs + tally succeeded sys.jobs) % 2 ^ 64
    pub failure : sys.state.failed_jobs % 2 ^ 64 ≡ (s.failed_jobs + tally failed sys.jobs) % 2 ^ 64
    pub selections :
        sys.state.selector.total_selections % 2 ^ 64
        ≡ (s.selector.total_selections + tally asked sys.jobs) % 2 ^ 64
    pub answers :
        (sys.state.selector.success_selections + sys.state.selector.failed_selections) % 2 ^ 64
        ≡ (s.selector.success_selections + s.selector.failed_selections + tally answered sys.jobs)
          % 2 ^ 64

module _ {L B E : Type 0} (lim : RateLimiter L E) (brk : CircuitBreaker B E) (s : State L B E) where
  step-Counts :
      (x : ℕ × Input E) (sys : System L B E) → Counts s sys → Counts s (step lim brk x sys)
  unfolding step step_job
  step-Counts (j, inp) sys v = elim (Option-cases (get_elem? sys.jobs j)) [
    | inl e ↦ rw (e, step) v
    | inr (job, e) ↦
        let m = move-Counted lim brk inp job job.pc sys.state in
        rw (e, step)
          (record {
            total =
                Ticks-sum _ _ _ _ _ _ _ m.total
                  (sum_by-set (λ job. begun job.pc) sys.jobs j job _ e) v.total;
            success =
                Ticks-sum _ _ _ _ _ _ _ m.success
                  (sum_by-set (λ job. succeeded job.pc) sys.jobs j job _ e) v.success;
            failure =
                Ticks-sum _ _ _ _ _ _ _ m.failure
                  (sum_by-set (λ job. failed job.pc) sys.jobs j job _ e) v.failure;
            selections =
                Ticks-sum _ _ _ _ _ _ _ m.selections
                  (sum_by-set (λ job. asked job.pc) sys.jobs j job _ e) v.selections;
            answers =
                Ticks-sum _ _ _ _ _ _ _ m.answers
                  (sum_by-set (λ job. answered job.pc) sys.jobs j job _ e) v.answers;
          })
  ]

  pub run-Counts :
      (xs : List (ℕ × Input E)) (sys : System L B E) → Counts s sys → Counts s (run lim brk xs sys)
  unfolding run
  run-Counts [] sys v = v
  run-Counts (x ∷ xs) sys v = run-Counts xs (step lim brk x sys) (step-Counts x sys v)

  pub begin-Counts : (hosts : List String) → Counts s (begin s hosts)
  begin-Counts hosts = record {
    total = omega (arith, tally-new {E = E} begun hosts refl);
    success = omega (arith, tally-new {E = E} succeeded hosts refl);
    failure = omega (arith, tally-new {E = E} failed hosts refl);
    selections = omega (arith, tally-new {E = E} asked hosts refl);
    answers = omega (arith, tally-new {E = E} answered hosts refl);
  }
