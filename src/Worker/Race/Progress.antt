-- ===== src/Worker/Race/Progress.antt =====
-- How many steps a job needs, whatever the other jobs do in between.
use rapid_proxy.Prelude.{
  ℕ, suc, ◌+◌, ◌-◌, ◌*◌, ◌≤◌, ◌<◌, ◌≡◌, refl, ap, arith, none, some, get_elem?, get_elem?-set_cases,
  length, length-set, Option-cases, inl, inr,
}
use rapid_proxy.Client.{ProxyClient, try_acquire_concurrency, release_concurrency}
use rapid_proxy.Client.Interfaces.{RateLimiter, CircuitBreaker}
use rapid_proxy.Selector.{rounds}
use rapid_proxy.Selector.Frame.{lt-get_elem?}
use rapid_proxy.Worker.{State}
use rapid_proxy.Worker.Race.{
  Input, Visit, checking, claiming, limiting, undoing, Serve, chosen, waiting, sleeping, cancelling,
  sending, in_flight, recording, stamping, noting, telling, answering, settling, releasing, Pc,
  queued, selecting, rotating, looping, visiting, serving, refusing, failing, ended, Job, visit,
  serve, at_client, settle, move,
}
use rapid_proxy.Worker.Race.Slots.{holds}

abbrev pub visit_work : Visit → ℕ
visit_work checking = 4
visit_work claiming = 3
visit_work limiting = 2
visit_work undoing = 1

module _ {E : Type 0} where
  abbrev pub serve_work : Serve E → ℕ
  serve_work chosen = 11
  serve_work waiting = 10
  serve_work sleeping = 11
  serve_work (cancelling url e) = 2
  serve_work sending = 9
  serve_work in_flight = 8
  serve_work (recording o) = 7
  serve_work (stamping o) = 6
  serve_work (noting o) = 5
  serve_work (telling o) = 4
  serve_work (answering o) = 3
  serve_work (settling r) = 2
  serve_work (releasing r) = 1

  -- The places where a step is one at the client.
  abbrev IsAt : Serve E → Type 0
  IsAt chosen = ⊥
  IsAt (cancelling url e) = ⊥
  IsAt (settling r) = ⊥
  IsAt _ = Unit {0}

  -- A bound on the steps that a job at `pc` has before it, with `r` rounds for `Select`.
  abbrev pub work : ℕ → Pc E → ℕ
  work r queued = 16 + 5 * r
  work r selecting = 15 + 5 * r
  work r rotating = 14 + 5 * r
  work r (looping start i) = 13 + 5 * (r - i)
  work r (visiting v start i idx) = 13 + 5 * (r - suc i) + visit_work v
  work r (serving p idx) = serve_work p
  work r (refusing e) = 2
  work r (failing e) = 1
  work r (ended x) = 0

  -- The client that a job works on is one of `n`.
  abbrev pub IsInside : ℕ → Pc E → Type 0
  IsInside n (visiting v start i idx) = idx < n
  IsInside n (serving p idx) = idx < n
  IsInside n _ = Unit {0}

module _ {L B E : Type 0} where
  -- What a step leaves alone: the number of clients, the rounds, and where there are no domain limits.
  pub record Left (s s' : State L B E) : Type 0 where
    pub same_length : length s'.clients ≡ length s.clients
    pub same_rounds : s'.selector.max_retries ≡ s.selector.max_retries
    pub same_limits :
        (k : ℕ) (c' : ProxyClient L B E)
        → get_elem? s'.clients k ≡ some c'
        → (c : ProxyClient L B E) × (get_elem? s.clients k ≡ some c)
          × (c.domain_limiter ≡ none → c'.domain_limiter ≡ none)

  pub Left-refl :
      (s s' : State L B E)
      → s'.clients ≡ s.clients
      → s'.selector.max_retries ≡ s.selector.max_retries
      → Left s s'
  Left-refl s s' e q = record {
    same_length = ap length e;
    same_rounds = q;
    same_limits = λ k c g. (c, rw (← e) g, λ h. h);
  }

  pub at_client-Left :
      (idx : ℕ) (f : ProxyClient L B E → ProxyClient L B E × Pc E) (pc : Pc E) (s : State L B E)
      → ((c : ProxyClient L B E) → c.domain_limiter ≡ none → (f c).0.domain_limiter ≡ none)
      → Left s (at_client idx f pc s).0
  unfolding at_client
  at_client-Left idx f pc s h = elim (Option-cases (get_elem? s.clients idx)) [
    | inl e ↦ rw (e, at_client) (Left-refl s s refl refl)
    | inr (c, e) ↦
        rw (e, at_client)
          (record {
            same_length = length-set s.clients idx (f c).0;
            same_rounds = refl;
            same_limits = λ k c' g. elim (get_elem?-set_cases s.clients idx k (f c).0 c' g) [
              | inl (p, q) ↦ (c, rw (← p) e, λ d. rw q (h c d))
              | inr (p, g') ↦ (c', g', λ d. d)
            ];
          })
  ]

  -- A slot that the job holds can be given back.
  abbrev pub CanRelease : ℕ → Pc E → ProxyClient L B E → Type 0
  CanRelease idx pc c =
      holds idx pc ≡ 1 → (c0 : ProxyClient L B E) × (release_concurrency c ≡ some c0)

module _ {L B E : Type 0} (lim : RateLimiter L E) (brk : CircuitBreaker B E) where
  visit-work :
      (inp : Input E) (v : Visit) (start i idx r : ℕ) (c : ProxyClient L B E)
      → CanRelease idx (visiting v start i idx) c
      → work r (visit lim brk inp v start i idx c).1 < work {E = E} r (visiting v start i idx)
  unfolding visit
  visit-work inp checking start i idx r c h = ground arith
  visit-work inp claiming start i idx r c h = ground arith
  visit-work inp limiting start i idx r c h = ground arith
  visit-work inp undoing start i idx r c h = let (c0, e) = h (ground arith) in ground arith

  serve-work :
      (inp : Input E) (job : Job E) (p : Serve E) (idx r : ℕ) (c : ProxyClient L B E)
      → CanRelease idx (serving p idx) c
      → c.domain_limiter ≡ none
      → IsAt p
      → work r (serve lim brk inp job p idx c).1 < serve_work p
  unfolding serve
  serve-work inp job waiting idx r c h d t = ground arith
  serve-work inp job sleeping idx r c h d t = ground arith
  serve-work inp job (releasing x) idx r c h d t = let (c0, e) = h (ground arith) in ground arith
  serve-work inp job sending idx r c h d t = ground arith
  serve-work inp job in_flight idx r c h d t = ground arith
  serve-work inp job (recording o) idx r c h d t = ground arith
  serve-work inp job (stamping o) idx r c h d t = ground arith
  serve-work inp job (noting o) idx r c h d t = ground arith
  serve-work inp job (telling o) idx r c h d t = ground arith
  serve-work inp job (answering o) idx r c h d t = ground arith
  serve-work inp job chosen idx r c h d t = absurd t
  serve-work inp job (cancelling url e) idx r c h d t = absurd t
  serve-work inp job (settling x) idx r c h d t = absurd t

  at_client-work :
      (idx r w : ℕ) (f : ProxyClient L B E → ProxyClient L B E × Pc E) (pc : Pc E) (s : State L B E)
      → idx < length s.clients
      → ((c : ProxyClient L B E) → get_elem? s.clients idx ≡ some c → work r (f c).1 < w)
      → work r (at_client idx f pc s).1 < w
  unfolding at_client
  at_client-work idx r w f pc s lt h =
      let (c, e) = lt-get_elem? s.clients idx lt in rw (e, at_client) (h c e)

  served-work :
      (inp : Input E) (job : Job E) (p : Serve E) (idx : ℕ) (s : State L B E) (r : ℕ)
      → IsAt p
      → idx < length s.clients
      → ((k : ℕ) (c : ProxyClient L B E)
          → get_elem? s.clients k ≡ some c
          → CanRelease k (serving p idx) c × (c.domain_limiter ≡ none))
      → work r (at_client idx (serve lim brk inp job p idx) (serving p idx) s).1 ≤ serve_work p - 1
  served-work inp job p idx s r t x h = omega (
    arith,
    at_client-work idx r (serve_work p) (serve lim brk inp job p idx) (serving p idx) s x
        (λ c g. serve-work inp job p idx r c (h idx c g).0 (h idx c g).1 t),
  )

  pub move-work :
      (inp : Input E) (job : Job E) (pc : Pc E) (s : State L B E) (r : ℕ)
      → rounds s.selector.max_retries ≡ r
      → IsInside (length s.clients) pc
      → ((k : ℕ) (c : ProxyClient L B E)
          → get_elem? s.clients k ≡ some c
          → CanRelease k pc c × (c.domain_limiter ≡ none))
      → work r (move lim brk inp job pc s).1 ≤ work r pc - 1
  unfolding move settle
  move-work inp job queued s r e x h = omega arith
  move-work inp job selecting s r e x h = omega arith
  move-work inp job rotating s r e x h = omega arith
  move-work inp job (looping start i) s r e x h = ground arith
  move-work inp job (visiting v start i idx) s r e x h = ground (
    arith,
    at_client-work idx r (work {E = E} r (visiting v start i idx)) (visit lim brk inp v start i idx)
        (visiting v start i idx) s x (λ c g. visit-work inp v start i idx r c (h idx c g).0),
  )
  move-work inp job (serving chosen idx) s r e x h = omega arith
  move-work inp job (serving (cancelling url y) idx) s r e x h = omega arith
  move-work inp job (serving (settling y) idx) s r e x h = ground arith
  move-work inp job (serving p idx) s r e x h = served-work inp job p idx s r tt x h
  move-work inp job (refusing y) s r e x h = omega arith
  move-work inp job (failing y) s r e x h = omega arith
  move-work inp job (ended y) s r e x h = omega arith

  pub visit-limits :
      (inp : Input E) (v : Visit) (start i idx : ℕ) (c : ProxyClient L B E)
      → c.domain_limiter ≡ none
      → (visit lim brk inp v start i idx c).0.domain_limiter ≡ none
  unfolding visit try_acquire_concurrency release_concurrency
  visit-limits inp checking start i idx c h = ground arith
  visit-limits inp claiming start i idx c h = ground arith
  visit-limits inp limiting start i idx c h = ground arith
  visit-limits inp undoing start i idx c h = ground arith

  pub serve-limits :
      (inp : Input E) (job : Job E) (p : Serve E) (idx : ℕ) (c : ProxyClient L B E)
      → c.domain_limiter ≡ none
      → (serve lim brk inp job p idx c).0.domain_limiter ≡ none
  unfolding serve release_concurrency
  serve-limits inp job waiting idx c h = ground arith
  serve-limits inp job sleeping idx c h = ground arith
  serve-limits inp job (releasing r) idx c h = ground arith
  serve-limits inp job p idx c h = ground arith
