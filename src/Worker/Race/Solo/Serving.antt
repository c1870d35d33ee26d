-- ===== src/Worker/Race/Solo/Serving.antt =====
-- A job that runs alone, with its client.
use Prim.Native.String.{String}
use rapid_proxy.Prelude.{
  ℕ, ◌<◌, ◌≡◌, refl, sym, ap, subst, ◌∙◌, arith, Option, none, some, Int64, add64,
  get_elem?-set_self, length, leb64, Bool-cases, Option-cases, inl, inr,
}
use rapid_proxy.Client.{
  ProxyClient, Outcome, transport_error, answered, after_outcome, do_request, release_concurrency,
}
use rapid_proxy.Client.Steps.{count_outcome, stamp_outcome, note_error, tell_breaker, error_of}
use rapid_proxy.Client.Interfaces.{RateLimiter, CircuitBreaker}
use rapid_proxy.Worker.{Executed, release_slot, perform, State, Result}
use rapid_proxy.Worker.Race.{
  result_at, count_job, Serve, waiting, sending, in_flight, recording, stamping, noting, telling,
  answering, settling, releasing, Pc, serving, ended, Job, serve, at_client, settle, move, step_job,
  step,
}
use rapid_proxy.Worker.Race.Solo.{at, set-set, still, env_of, one, Goes, stays, goes}

module _ {L B E : Type 0} (lim : RateLimiter L E) (brk : CircuitBreaker B E) (now : Int64)
    (ctx : Option E) (outcome : Outcome E) (hostname : String) where
  abbrev pub at_pc : Pc E → Job E
  at_pc pc = record { hostname = hostname; started = now; pc = pc }

  pub Goes-serve :
      (p : Serve E) (idx : ℕ) (c c1 : ProxyClient L B E) (pc1 pc' : Pc E) (s s' : State L B E)
      → ((s0 : State L B E)
          → settle lim brk (still lim brk now ctx outcome hostname) (at_pc (serving p idx)) p idx s0
            ≡ at_client idx
                (serve lim brk
                  (still lim brk now ctx outcome hostname)
                  (at_pc (serving p idx))
                  p
                  idx)
                (serving p idx)
                s0)
      → idx < length s.clients
      → serve lim brk (still lim brk now ctx outcome hostname) (at_pc (serving p idx)) p idx c
        ≡ (c1, pc1)
      → (Goes lim brk now ctx outcome hostname) pc1 (at idx c1 s) pc' s'
      → (Goes lim brk now ctx outcome hostname) (serving p idx) (at idx c s) pc' s'
  unfolding step step_job move at_client
  Goes-serve p idx c c1 pc1 pc' s s' plain lt e =
      (goes lim brk now ctx outcome hostname) _ pc1 pc' _ (at idx c1 s) s' (
        rw (plain (at idx c s), get_elem?-set_self s.clients idx c lt, at_client, e)
          (ap (λ cs. (one lim brk now ctx outcome hostname) pc1 (record s { clients = cs }))
            (set-set s.clients idx c c1)))

  -- The job has ended with the result and the state of `x`, if `x` has a result.
  abbrev pub Served : Pc E → State L B E → Executed L B E → Type 0
  Served pc s x =
      (r : Result E) → x.1 ≡ some r → (Goes lim brk now ctx outcome hostname) pc s (ended r) x.0

  pub goes_release :
      (idx : ℕ) (c : ProxyClient L B E) (r : Result E) (s : State L B E)
      → idx < length s.clients
      → Served (serving (releasing r) idx) (at idx c s) (release_slot idx c s r)
  unfolding release_slot serve settle
  goes_release idx c r s lt = elim (Option-cases (release_concurrency c)) [
    | inl e ↦
        let q : release_slot idx c s r ≡ (at idx c s, none) = rw (e, release_slot) refl in
        subst (Served (serving (releasing r) idx) (at idx c s)) (sym q) (λ x h. cc)
    | inr (c', e) ↦
        let q : release_slot idx c s r ≡ (at idx c' s, some r) = rw (e, release_slot) refl in
        subst (Served (serving (releasing r) idx) (at idx c s)) (sym q) (λ x h.
          let same : r ≡ x = cc in
          Goes-serve (releasing r) idx c c' (ended x) (ended x) s _ (λ s0. refl) lt
            (rw (e, serve) (ap (λ y. (c', ended y)) same))
            ((stays lim brk now ctx outcome hostname) _ _))
  ]

  abbrev pub counted_at : ProxyClient L B E → ProxyClient L B E
  counted_at c = record c { total_requests = add64 c.total_requests 1 }

  abbrev pub result_for : String → Outcome E → Result E
  result_for url o = result_at now now url o

  pub perform_as :
      (o : Outcome E) (idx : ℕ) (c : ProxyClient L B E) (s : State L B E)
      → perform lim brk ((env_of lim brk now ctx outcome hostname) o) idx c s
        ≡ release_slot idx
            (after_outcome brk (λ k. now) o (counted_at c))
            (count_job (result_for c.proxy_url o) s)
            (result_for c.proxy_url o)
  unfolding perform do_request
  perform_as (transport_error e) idx c s = refl
  perform_as (answered resp) idx c s = refl

  pub step_settle :
      (idx : ℕ) (r : Result E) (s : State L B E)
      → step lim brk
          (0, (still lim brk now ctx outcome hostname))
          ((one lim brk now ctx outcome hostname) (serving (settling r) idx) s)
        ≡ (one lim brk now ctx outcome hostname) (serving (releasing r) idx) (count_job r s)
  unfolding step step_job move settle
  step_settle idx r s = refl

  pub count_at :
      (idx : ℕ) (c : ProxyClient L B E) (r : Result E) (s : State L B E)
      → count_job r (at idx c s) ≡ at idx c (count_job r s)
  count_at idx c r s = elim (Option-cases r.error) [ inl e ↦ rw e refl | inr (x, e) ↦ rw e refl ]

  pub count-clients : (r : Result E) (s : State L B E) → (count_job r s).clients ≡ s.clients
  count-clients r s = elim (Option-cases r.error) [ inl e ↦ rw e refl | inr (x, e) ↦ rw e refl ]

  -- What is recorded of the outcome, access by access.
  abbrev told_all : Outcome E → ProxyClient L B E → ProxyClient L B E
  told_all o c =
      tell_breaker brk (λ k. now) o
        (note_error now (error_of o) (stamp_outcome now o (count_outcome o c)))

  told_all-after_outcome :
      (o : Outcome E) (c : ProxyClient L B E)
      → (told_all o c ≡ after_outcome brk (λ k. now) o c) × ((told_all o c).proxy_url ≡ c.proxy_url)
  unfolding after_outcome
  told_all-after_outcome (transport_error e) c = (refl, refl)
  told_all-after_outcome (answered resp) c = elim (Bool-cases (leb64 400 resp.status_code)) [
    | inl y ↦ rw (y, after_outcome) (refl, refl)
    | inr n ↦ rw (n, after_outcome) (refl, refl)
  ]

  Goes-in_flight :
      (idx : ℕ) (c : ProxyClient L B E) (pc' : Pc E) (s s' : State L B E)
      → idx < length s.clients
      → (Goes lim brk now ctx outcome hostname)
          (serving (settling (result_for c.proxy_url outcome)) idx)
          (at idx (after_outcome brk (λ k. now) outcome c) s)
          pc'
          s'
      → (Goes lim brk now ctx outcome hostname) (serving in_flight idx) (at idx c s) pc' s'
  unfolding serve settle
  Goes-in_flight idx c pc' s s' lt g =
      let o = outcome in
      let c1 = count_outcome o c in
      let c2 = stamp_outcome now o c1 in
      let c3 = note_error now (error_of o) c2 in
      let c4 = tell_breaker brk (λ k. now) o c3 in
      let (same, url) = told_all-after_outcome o c in
      let last =
        subst
          (λ u.
            (Goes lim brk now ctx outcome hostname) (serving (settling (result_for u o)) idx)
              (at idx c4 s) pc' s')
          (sym url)
          (subst
            (λ d.
              (Goes lim brk now ctx outcome hostname)
                (serving (settling (result_for c.proxy_url o)) idx) (at idx d s) pc' s')
            (sym same) g) in
      let told =
        Goes-serve (telling o) idx c3 c4 (serving (answering o) idx) pc' s s' (λ s0. refl) lt refl
          (Goes-serve (answering o) idx c4 c4 (serving (settling (result_for c4.proxy_url o)) idx)
            pc' s s' (λ s0. refl) lt refl last) in
      Goes-serve in_flight idx c c (serving (recording o) idx) pc' s s' (λ s0. refl) lt refl
        (Goes-serve (recording o) idx c c1 (serving (stamping o) idx) pc' s s' (λ s0. refl) lt refl
          (Goes-serve (stamping o) idx c1 c2 (serving (noting o) idx) pc' s s' (λ s0. refl) lt refl
            (Goes-serve (noting o) idx c2 c3 (serving (telling o) idx) pc' s s' (λ s0. refl) lt refl
              told)))

  pub goes_perform :
      (idx : ℕ) (c : ProxyClient L B E) (s : State L B E)
      → c.domain_limiter ≡ none
      → idx < length s.clients
      → Served
          (serving waiting idx)
          (at idx c s)
          (perform lim brk ((env_of lim brk now ctx outcome hostname) outcome) idx c s)
  unfolding serve settle
  goes_perform idx c s d lt =
      let c2 = after_outcome brk (λ k. now) outcome (counted_at c) in
      let r = result_for c.proxy_url outcome in
      subst (Served (serving waiting idx) (at idx c s)) (sym (perform_as outcome idx c s)) (λ x h.
        Goes-serve waiting idx c c (serving sending idx) (ended x) s _ (λ s0. refl) lt
          (ground arith)
          (Goes-serve sending idx c (counted_at c) (serving in_flight idx) (ended x) s _
            (λ s0. refl) lt refl
            (Goes-in_flight idx (counted_at c) (ended x) s _ lt (
              (goes lim brk now ctx outcome hostname) _ (serving (releasing r) idx) (ended x) _
                (at idx c2 (count_job r s)) _
                (step_settle idx r (at idx c2 s)
                  ∙ ap ((one lim brk now ctx outcome hostname) (serving (releasing r) idx))
                      (count_at idx c2 r s))
                (goes_release idx c2 r (count_job r s)
                  (subst (λ cs. idx < length cs) (sym (count-clients r s)) lt) x h)))))
