-- ===== src/Worker/Race/Solo/Rounds.antt =====
-- One round of `Select` in a job that runs alone.
use Prim.Native.String.{String}
use rapid_proxy.Prelude.{
  ℕ, suc, ◌<◌, ◌≡◌, refl, sym, ap, subst, ◌∙◌, arith, false, Option, some, Int64, length,
  Option-cases, Bool-cases, inl, inr,
}
use rapid_proxy.Client.{ProxyClient, Outcome, try_acquire_concurrency, release_concurrency}
use rapid_proxy.Client.Interfaces.{RateLimiter, CircuitBreaker}
use rapid_proxy.Selector.{
  Verdict, take, skip, block, try_client, check_limiter, give_back, breaker_passes,
}
use rapid_proxy.Worker.{State}
use rapid_proxy.Worker.Race.{
  Visit, checking, claiming, limiting, undoing, chosen, Pc, looping, visiting, serving, visit,
}
use rapid_proxy.Worker.Race.Solo.{at, still, one, Goes, stays, goes, step-visit}

module _ {L B E : Type 0} (lim : RateLimiter L E) (brk : CircuitBreaker B E) (now : Int64)
    (ctx : Option E) (outcome : Outcome E) (hostname : String) where
  -- Where a job is after a round with this verdict.
  abbrev pub after_verdict : ℕ → ℕ → ℕ → Verdict → Pc E
  after_verdict start i idx take = serving chosen idx
  after_verdict start i idx skip = looping start (suc i)
  after_verdict start i idx block = visiting undoing start i idx

  -- The job with the client and the verdict `r`.
  abbrev pub Judged :
      ℕ → ℕ → ℕ → Pc E → State L B E → State L B E → ProxyClient L B E × Verdict → Type 0
  Judged start i idx pc s s0 r =
      (Goes lim brk now ctx outcome hostname) pc s (after_verdict start i idx r.1) (at idx r.0 s0)

  pub Goes-visit :
      (v : Visit) (start i idx : ℕ) (c c1 : ProxyClient L B E) (pc1 pc' : Pc E) (s s' : State L B E)
      → idx < length s.clients
      → visit lim brk (still lim brk now ctx outcome hostname) v start i idx c ≡ (c1, pc1)
      → (Goes lim brk now ctx outcome hostname) pc1 (at idx c1 s) pc' s'
      → (Goes lim brk now ctx outcome hostname) (visiting v start i idx) (at idx c s) pc' s'
  Goes-visit v start i idx c c1 pc1 pc' s s' lt e =
      (goes lim brk now ctx outcome hostname) _ pc1 pc' _ (at idx c1 s) s' (
        (step-visit lim brk now ctx outcome hostname) v start i idx c s lt
        ∙ ap (λ r. (one lim brk now ctx outcome hostname) r.1 (at idx r.0 s)) e)

  pub goes_back :
      (start i idx : ℕ) (c : ProxyClient L B E) (s : State L B E)
      → idx < length s.clients
      → Judged start i idx (visiting undoing start i idx) (at idx c s) s (give_back lim brk c)
  unfolding give_back visit
  goes_back start i idx c s lt = elim (Option-cases (release_concurrency c)) [
    | inl e ↦
        let q : give_back lim brk c ≡ (c, block) = rw (e, give_back) refl in
        subst (Judged start i idx _ (at idx c s) s) (sym q)
          ((stays lim brk now ctx outcome hostname) _ _)
    | inr (c', e) ↦
        let q : give_back lim brk c ≡ (c', skip) = rw (e, give_back) refl in
        subst (Judged start i idx _ (at idx c s) s) (sym q) (
          Goes-visit undoing start i idx c c' (looping start (suc i)) _ s _ lt (rw (e, visit) refl)
            ((stays lim brk now ctx outcome hostname) _ _))
  ]

  pub goes_on :
      (start i idx : ℕ) (c : ProxyClient L B E) (s : State L B E)
      → idx < length s.clients
      → Judged start i idx
          (visiting limiting start i idx)
          (at idx c s)
          s
          (check_limiter lim brk now c)
  unfolding check_limiter visit
  goes_on start i idx c s lt = elim (Option-cases c.rate_limiter) [
    | inl e ↦
        let q : check_limiter lim brk now c ≡ (c, take) = ground arith in
        subst (Judged start i idx _ (at idx c s) s) (sym q) (
          Goes-visit limiting start i idx c c (serving chosen idx) _ s _ lt (ground arith)
            ((stays lim brk now ctx outcome hostname) _ _))
    | inr (l, e) ↦
        let charged = record c { rate_limiter = some (lim.try_acquire now l).0 } in
        elim (Bool-cases (lim.try_acquire now l).1) [
          | inl y ↦
              let q : check_limiter lim brk now c ≡ (charged, take) = ground arith in
              subst (Judged start i idx _ (at idx c s) s) (sym q) (
                Goes-visit limiting start i idx c charged (serving chosen idx) _ s _ lt
                  (ground arith) ((stays lim brk now ctx outcome hostname) _ _))
          | inr n ↦
              let q : check_limiter lim brk now c ≡ give_back lim brk charged = ground arith in
              subst (Judged start i idx _ (at idx c s) s) (sym q) (
                Goes-visit limiting start i idx c charged (visiting undoing start i idx) _ s _ lt
                  (ground arith) (goes_back start i idx charged s lt))
        ]
  ]

  pub full_same :
      (c : ProxyClient L B E)
      → (try_acquire_concurrency c).1 ≡ false
      → (try_acquire_concurrency c).0 ≡ c
  unfolding try_acquire_concurrency
  full_same c e = ground arith

  pub goes_round :
      (start i idx : ℕ) (c : ProxyClient L B E) (s : State L B E)
      → idx < length s.clients
      → Judged start i idx
          (visiting checking start i idx)
          (at idx c s)
          s
          (try_client lim brk (λ k. now) c)
  unfolding try_client visit
  goes_round start i idx c s lt = elim (Bool-cases (breaker_passes lim brk now c)) [
    | inr n ↦
        let q : try_client lim brk (λ k. now) c ≡ (c, skip) = rw (n, try_client) refl in
        subst (Judged start i idx _ (at idx c s) s) (sym q) (
          Goes-visit checking start i idx c c (looping start (suc i)) _ s _ lt (rw (n, visit) refl)
            ((stays lim brk now ctx outcome hostname) _ _))
    | inl y ↦
        let held = (try_acquire_concurrency c).0 in
        elim (Bool-cases (try_acquire_concurrency c).1) [
          | inr n ↦
              let q : try_client lim brk (λ k. now) c ≡ (c, skip) = rw (y, n, try_client) refl in
              subst (Judged start i idx _ (at idx c s) s) (sym q) (
                Goes-visit checking start i idx c c (visiting claiming start i idx) _ s _ lt
                  (rw (y, visit) refl)
                  (Goes-visit claiming start i idx c c (looping start (suc i)) _ s _ lt
                    (rw (n, full_same c n, visit) refl)
                    ((stays lim brk now ctx outcome hostname) _ _)))
          | inl g ↦
              let q : try_client lim brk (λ k. now) c ≡ check_limiter lim brk now held =
                rw (y, g, try_client) refl in
              subst (Judged start i idx _ (at idx c s) s) (sym q) (
                Goes-visit checking start i idx c c (visiting claiming start i idx) _ s _ lt
                  (rw (y, visit) refl)
                  (Goes-visit claiming start i idx c held (visiting limiting start i idx) _ s _ lt
                    (rw (g, visit) refl) (goes_on start i idx held s lt)))
        ]
  ]
