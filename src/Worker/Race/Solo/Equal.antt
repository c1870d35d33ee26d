-- ===== src/Worker/Race/Solo/Equal.antt =====
-- A job that runs alone against `execute_job`.
use Prim.Native.String.{String}
use rapid_proxy.Prelude.{
  ℕ, suc, ◌<◌, ◌≡◌, ◌≢◌, refl, sym, ap, subst, ◌∙◌, arith, Option, none, some, List, [], ◌∷◌, Int64,
  add64, ◌%◌, some_injective, get_elem?, length, Option-cases, inl, inr, All-get_elem?,
}
use rapid_proxy.Client.{ProxyClient, Outcome}
use rapid_proxy.Client.Interfaces.{RateLimiter, CircuitBreaker}
use rapid_proxy.Selector.{rounds, select, Selection, selected}
use rapid_proxy.Selector.Frame.{get_elem?-lt, lt-get_elem?, select-Frame, select-in_range}
use rapid_proxy.Worker.Release.{Unlimited, execute_job-finishes}
use rapid_proxy.Worker.Race.Slots.{begin}
use rapid_proxy.Worker.{
  JobError, fail, after_select, with_client, limit_domain, perform, State, Result, all_proxies_busy,
  context_error, execute_job,
}
use rapid_proxy.Worker.Race.{
  failed_at, refusal, told, chosen, waiting, looping, serving, refusing, failing, ended, settle,
  move, step_job, step, run,
}
use rapid_proxy.Worker.Race.Solo.{set-same, still, env_of, one, alone, Goes, stays, goes, Goes-then}
use rapid_proxy.Worker.Race.Solo.Choosing.{pc_found, IsBack, loop_from, goes_loop}
use rapid_proxy.Worker.Race.Solo.Serving.{Served, goes_perform}

module _ {L B E : Type 0} (lim : RateLimiter L E) (brk : CircuitBreaker B E) (now : Int64)
    (ctx : Option E) (outcome : Outcome E) (hostname : String) where
  -- The state after `Select` has returned, before it has counted what it found.
  abbrev chosen_from : State L B E → List (ProxyClient L B E) → State L B E
  chosen_from s cs = record s {
    total_jobs = add64 s.total_jobs 1;
    selector = record (s.selector) {
      current_index = add64 s.selector.current_index 1;
      total_selections = add64 s.selector.total_selections 1;
    };
    clients = cs;
  }

  step_chosen :
      (idx : ℕ) (s : State L B E)
      → step lim brk
          (0, (still lim brk now ctx outcome hostname))
          ((one lim brk now ctx outcome hostname) (serving chosen idx) s)
        ≡ (one lim brk now ctx outcome hostname) (serving waiting idx) (told (selected idx) s)
  unfolding step step_job move settle
  step_chosen idx s = refl

  goes_refused :
      (e : JobError E) (s : State L B E)
      → (Served lim brk now ctx outcome hostname)
          (refusing e)
          s
          (fail (told (refusal e) s), some (failed_at now now "" e))
  unfolding step step_job move
  goes_refused e s x h =
      (goes lim brk now ctx outcome hostname) _ (failing e) (ended x) s (told (refusal e) s) _ refl
        ((goes lim brk now ctx outcome hostname) _ (ended (failed_at now now "" e)) (ended x) _
          (fail (told (refusal e) s)) _ refl
          (subst
            (λ y.
              (Goes lim brk now ctx outcome hostname) (ended (failed_at now now "" e))
                (fail (told (refusal e) s)) (ended y) (fail (told (refusal e) s)))
            (some_injective _ x h) ((stays lim brk now ctx outcome hostname) _ _)))

  -- What follows `Select`.
  goes_found :
      (found : Selection E) (s : State L B E)
      → ((idx : ℕ) (c : ProxyClient L B E)
          → found ≡ selected idx
          → get_elem? s.clients idx ≡ some c
          → c.domain_limiter ≡ none)
      → (Served lim brk now ctx outcome hostname)
          ((pc_found lim brk now ctx outcome hostname) found)
          s
          (after_select lim brk
            ((env_of lim brk now ctx outcome hostname) outcome)
            found
            (told found s))
  unfolding after_select with_client limit_domain step step_job move
  goes_found (selected idx) s u = elim (Option-cases (get_elem? s.clients idx)) [
    | inl e ↦ rw (e, with_client) (λ x h. cc)
    | inr (c, e) ↦
        let d = u idx c refl e in
        let lt = get_elem?-lt s.clients idx c e in
        let t : State L B E = told (selected idx) s in
        let q : after_select lim brk ((env_of lim brk now ctx outcome hostname) outcome)
              (selected idx) t
            ≡ perform lim brk ((env_of lim brk now ctx outcome hostname) outcome) idx c t =
          rw (e, d, with_client) refl in
        subst ((Served lim brk now ctx outcome hostname) (serving chosen idx) s) (sym q) (λ x h.
          (goes lim brk now ctx outcome hostname) _ (serving waiting idx) (ended x) s t _
            (step_chosen idx s)
            (subst
              (λ (y : State L B E).
                (Goes lim brk now ctx outcome hostname) (serving waiting idx) y (ended x)
                  (perform lim brk ((env_of lim brk now ctx outcome hostname) outcome) idx c t).0)
              (ap (λ cs. record t { clients = cs }) (set-same s.clients idx c e))
              ((goes_perform lim brk now ctx outcome hostname) idx c t d lt x h)))
  ]
  goes_found Selection.all_proxies_busy s u = goes_refused all_proxies_busy s
  goes_found (Selection.cancelled e) s u = goes_refused (context_error e) s
  goes_found Selection.blocked s u = λ x h. cc
  goes_found Selection.out_of_range s u = λ x h. cc

  found-IsBack :
      (found : Selection E)
      → found ≢ Selection.blocked
      → found ≢ Selection.out_of_range
      → (IsBack lim brk now ctx outcome hostname) found
  found-IsBack (selected idx) b o = tt
  found-IsBack Selection.all_proxies_busy b o = tt
  found-IsBack (Selection.cancelled e) b o = tt
  found-IsBack Selection.blocked b o = absurd (b refl)
  found-IsBack Selection.out_of_range b o = absurd (o refl)

  some_result : (o : Option (Result E)) → o ≢ none → (r : Result E) × (o ≡ some r)
  some_result none h = absurd (h refl)
  some_result (some r) h = (r, refl)

  -- A job that runs alone, with a clock that stands still, on a pool with clients and without
  -- domain limits, ends with the result that `execute_job` gives in the same environment, and
  -- leaves the state that `execute_job` leaves.
  pub run-execute_job :
      (s : State L B E)
      → 0 < length s.clients
      → Unlimited s.clients
      → let (s', sent) =
          execute_job lim brk ((env_of lim brk now ctx outcome hostname) outcome) s in
        (n : ℕ) × (r : Result E) × (sent ≡ some r)
        × (run lim brk ((alone lim brk now ctx outcome hostname) n) (begin s (hostname ∷ []))
            ≡ (one lim brk now ctx outcome hostname) (ended r) s')
  unfolding execute_job select run step step_job move
  run-execute_job s p u =
      let env = (env_of lim brk now ctx outcome hostname) outcome in
      let next = add64 s.selector.current_index 1 in
      let out =
        (loop_from lim brk now ctx outcome hostname) (rounds s.selector.max_retries) 0
          (next % length s.clients) s.clients in
      let s0 = chosen_from s s.clients in
      let s1 = chosen_from s out.0 in
      let (framed, no_block, in_range) =
        select-Frame lim brk (λ k. ctx) (λ k j. now) s.selector s.clients p in
      let looped : (Goes lim brk now ctx outcome hostname) (looping (next % length s.clients) 0) s0
          ((pc_found lim brk now ctx outcome hostname) out.1) s1 =
        (goes_loop lim brk now ctx outcome hostname) (rounds s.selector.max_retries) 0
          (next % length s.clients) s0 (omega arith) (found-IsBack out.1 no_block in_range) in
      let unlimited : (idx : ℕ) (c : ProxyClient L B E)
          → out.1 ≡ selected idx
          → get_elem? s1.clients idx ≡ some c
          → c.domain_limiter ≡ none =
        λ idx c q g.
          let lt = select-in_range lim brk (λ k. ctx) (λ k j. now) s.selector s.clients idx p q in
          let (c0, g0) = lt-get_elem? s.clients idx lt in
          let (c1, g1, kept) = framed idx c0 g0 in
          let same = some_injective c1 c (sym g1 ∙ g) in
          subst (λ (y : ProxyClient L B E). y.domain_limiter ≡ none) same
            (kept.same_domains
              ∙ All-get_elem? (λ (y : ProxyClient L B E). y.domain_limiter ≡ none) s.clients idx c0
                  u g0) in
      let (r, sent) =
        some_result (execute_job lim brk env s).1 (execute_job-finishes lim brk env s p u) in
      let (n, e) =
        (Goes-then lim brk now ctx outcome hostname) _
          ((pc_found lim brk now ctx outcome hostname) out.1) (ended r) s0 s1 _ looped
          (goes_found out.1 s1 unlimited r sent) in
      (suc (suc (suc n)), r, sent, e)
