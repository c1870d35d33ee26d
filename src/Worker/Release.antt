-- ===== src/Worker/Release.antt =====
-- `executeJob` as a whole.
use native.Mathlib.Decide.{ℕ_discrete}
use rapid_proxy.Prelude.{
  ℕ, ◌<◌, ◌≡◌, ◌≢◌, refl, ap, ◌∙◌, arith, All, All-get_elem?, none, some, List, add64, set, length,
  get_elem?, get_elem?-set_self, get_elem?-set_ne, inl, inr, ◌⊎◌,
}
use rapid_proxy.Client.{ProxyClient}
use rapid_proxy.Client.Interfaces.{RateLimiter, CircuitBreaker}
use rapid_proxy.Selector.{Selection}
use rapid_proxy.Selector.Frame.{
  Frame, same_client, selected_injective, get_elem?-lt, lt-get_elem?, select-Frame, select-in_range,
}
use rapid_proxy.Worker.{Env, State, Executed, after_select, execute_job}
use rapid_proxy.Worker.Outcomes.{Served, responded, failed, unfinished, limit_domain-Served}

module _ {L B E : Type 0} where
  -- Each client holds the slots that it held.
  abbrev pub Restored : List (ProxyClient L B E) → List (ProxyClient L B E) → Type 0
  Restored cs cs' =
      (k : ℕ) (c : ProxyClient L B E)
      → get_elem? cs k ≡ some c
      → (c' : ProxyClient L B E) × (get_elem? cs' k ≡ some c')
        × (c'.concurrency_sem ≡ c.concurrency_sem)

  -- No client has domain limits.
  abbrev pub Unlimited : List (ProxyClient L B E) → Type 0
  Unlimited cs = All (λ c. c.domain_limiter ≡ none) cs

  -- How the counters account for a job: a response counts as a success, an error as a failure.
  abbrev pub Accounted : State L B E → Executed L B E → Type 0
  Accounted s (s', none) = (s'.success_jobs ≡ s.success_jobs) × (s'.failed_jobs ≡ s.failed_jobs)
  Accounted s (s', some r) =
      ((r.error ≡ none)
        × (r.response ≢ none)
        × (s'.success_jobs ≡ add64 s.success_jobs 1)
        × (s'.failed_jobs ≡ s.failed_jobs))
      ⊎ ((r.error ≢ none)
          × (r.response ≡ none)
          × (s'.success_jobs ≡ s.success_jobs)
          × (s'.failed_jobs ≡ add64 s.failed_jobs 1))

  record Ended (s : State L B E) (out : Executed L B E) : Type 0 where
    counted : out.0.total_jobs ≡ add64 s.total_jobs 1
    accounted : Accounted s out
    finished : Unlimited s.clients → out.1 ≢ none
    released : out.1 ≢ none → Restored s.clients out.0.clients

  -- The state `s1` after the selection, of the state `s` before.
  record Selected (s s1 : State L B E) (found : Selection E) : Type 0 where
    total : s1.total_jobs ≡ add64 s.total_jobs 1
    same_success : s1.success_jobs ≡ s.success_jobs
    same_failed : s1.failed_jobs ≡ s.failed_jobs
    frame : Frame found s.clients s1.clients

  unchanged :
      (s s1 : State L B E) (found : Selection E)
      → Selected s s1 found
      → ((k : ℕ) → found ≢ Selection.selected k)
      → Restored s.clients s1.clients
  unchanged s s1 found v ne k c g =
      let (c', g', kept) = v.frame k c g in (c', g', kept.others (ne k))

  put_back :
      (s s1 : State L B E) (idx : ℕ) (c0 c' : ProxyClient L B E)
      → Selected s s1 (Selection.selected idx)
      → get_elem? s.clients idx ≡ some c0
      → c'.concurrency_sem ≡ c0.concurrency_sem
      → Restored s.clients (set s1.clients idx c')
  put_back s s1 idx c0 c' v g0 same k c g = elim (ℕ_discrete idx k) [
    | yes p ↦
        let (c1, g1, kept) = v.frame idx c0 g0 in
        (
          c',
          rw (← p) (get_elem?-set_self s1.clients idx c' (get_elem?-lt s1.clients idx c1 g1)),
          same
              ∙ ap (λ (x : ProxyClient L B E). x.concurrency_sem)
                  (same_client s.clients idx k c0 c p g0 g),
        )
    | no p ↦
        let (c1, g1, kept) = v.frame k c g in
        (
          c1,
          get_elem?-set_ne s1.clients c' p ∙ g1,
          kept.others (λ h. p (selected_injective idx k h)),
        )
  ]

  Served-Ended :
      (s s1 : State L B E) (idx : ℕ) (c0 : ProxyClient L B E) {out : Executed L B E}
      → Selected s s1 (Selection.selected idx)
      → get_elem? s.clients idx ≡ some c0
      → Served idx c0.concurrency_sem c0.domain_limiter s1 out
      → Ended s out
  Served-Ended s s1 idx c0 v g0 (responded c r same ok given e) = rw e (record {
    counted = v.total;
    finished = λ u. (λ x. cc);
    accounted = inl (ok, given, ground arith, v.same_failed);
    released = λ h. put_back s s1 idx c0 c v g0 same;
  })
  Served-Ended s s1 idx c0 v g0 (failed c r same bad none_given e) = rw e (record {
    counted = v.total;
    finished = λ u. (λ x. cc);
    accounted = inr (bad, none_given, v.same_success, ground arith);
    released = λ h. put_back s s1 idx c0 c v g0 same;
  })
  Served-Ended s s1 idx c0 v g0 (unfinished c n e) = rw e (record {
    counted = v.total;
    finished = λ u. absurd (n (All-get_elem? (λ c. c.domain_limiter ≡ none) s.clients idx c0 u g0));
    accounted = (v.same_success, v.same_failed);
    released = λ h. absurd (h refl);
  })

module _ {L B E : Type 0} (lim : RateLimiter L E) (brk : CircuitBreaker B E) where
  after_select-Ended :
      (env : Env E) (found : Selection E) (s s1 : State L B E)
      → Selected s s1 found
      → ((k : ℕ) → found ≡ Selection.selected k → k < length s.clients)
      → (found ≢ Selection.blocked) × (found ≢ Selection.out_of_range)
      → Ended s (after_select lim brk env found s1)
  unfolding after_select
  after_select-Ended env (Selection.selected idx) s s1 v r b =
      let (c0, g0) = lt-get_elem? s.clients idx (r idx refl) in
      let (c1, g1, kept) = v.frame idx c0 g0 in
      rw (g1, after_select)
        (Served-Ended s s1 idx c0 v g0 (
          rw (← kept.same_domains)
            (limit_domain-Served lim brk env idx c0.concurrency_sem c1 s1 (kept.chosen refl))))
  after_select-Ended env Selection.all_proxies_busy s s1 v r b = record {
    counted = v.total;
    finished = λ u. (λ x. cc);
    accounted = inr ((λ x. cc), refl, v.same_success, ground arith);
    released = λ h. unchanged s s1 _ v (λ k e. cc);
  }
  after_select-Ended env (Selection.cancelled e) s s1 v r b = record {
    counted = v.total;
    finished = λ u. (λ x. cc);
    accounted = inr ((λ x. cc), refl, v.same_success, ground arith);
    released = λ h. unchanged s s1 _ v (λ k e. cc);
  }
  after_select-Ended env Selection.blocked s s1 v r b = record {
    counted = v.total;
    finished = λ u. absurd (b.0 refl);
    accounted = (v.same_success, v.same_failed);
    released = λ h. absurd (h refl);
  }
  after_select-Ended env Selection.out_of_range s s1 v r b = record {
    counted = v.total;
    finished = λ u. absurd (b.1 refl);
    accounted = (v.same_success, v.same_failed);
    released = λ h. absurd (h refl);
  }

  execute_job-Ended :
      (env : Env E) (s : State L B E) → 0 < length s.clients → Ended s (execute_job lim brk env s)
  unfolding execute_job
  execute_job-Ended env s h =
      let (frame, no_block, in_range) =
        select-Frame lim brk env.ctx env.select_clock s.selector s.clients h in
      after_select-Ended env _ s _
        (record { total = refl; same_success = refl; same_failed = refl; frame = frame })
        (λ k e. select-in_range lim brk env.ctx env.select_clock s.selector s.clients k h e)
        (no_block, in_range)

  -- On a pool with clients a job adds one to the jobs (modulo 2 ^ 64). If its call returns, the
  -- result is a response and adds one to the successes, or an error and adds one to the failures;
  -- a call that has not returned has changed neither.
  pub execute_job-accounts :
      (env : Env E) (s : State L B E)
      → 0 < length s.clients
      → let out = execute_job lim brk env s in
        (out.0.total_jobs ≡ add64 s.total_jobs 1) × Accounted s out
  execute_job-accounts env s h =
      let ended = execute_job-Ended env s h in (ended.counted, ended.accounted)

  -- On a pool with clients, none of which has domain limits, every job's call returns and has sent
  -- a result, whatever its context, the clocks and the HTTP client answer.
  pub execute_job-finishes :
      (env : Env E) (s : State L B E)
      → 0 < length s.clients
      → Unlimited s.clients
      → (execute_job lim brk env s).1 ≢ none
  execute_job-finishes env s h u = (execute_job-Ended env s h).finished u

  -- On a pool with clients, once a job's call has returned, client `k` holds as many slots as
  -- before the job, whichever client served it and whatever came of it.
  pub execute_job-restores :
      (env : Env E) (s : State L B E) (k : ℕ) (c : ProxyClient L B E)
      → 0 < length s.clients
      → (execute_job lim brk env s).1 ≢ none
      → get_elem? s.clients k ≡ some c
      → (c' : ProxyClient L B E) × (get_elem? (execute_job lim brk env s).0.clients k ≡ some c')
        × (c'.concurrency_sem ≡ c.concurrency_sem)
  execute_job-restores env s k c h sent g = (execute_job-Ended env s h).released sent k c g
