-- ===== src/Worker/Race/Solo/Choosing.antt =====
-- `Select` in a job that runs alone.
use Prim.Native.String.{String}
use rapid_proxy.Prelude.{
  ℕ, zero, suc, ◌+◌, ◌≤◌, ◌<◌, ◌≡◌, refl, sym, ap, subst, ◌∙◌, arith, Option, none, some, List,
  Int64, add64, ◌%◌, get_elem?, length, Option-cases, inl, inr, ◌⊎◌, lt→ltb,
}
use rapid_proxy.Client.{ProxyClient, Outcome}
use rapid_proxy.Client.Interfaces.{RateLimiter, CircuitBreaker}
use rapid_proxy.Selector.{
  rounds, Verdict, take, skip, block, try_client, select_loop, Selection, selected,
}
use rapid_proxy.Selector.Frame.{get_elem?-lt}
use rapid_proxy.Worker.{State, all_proxies_busy, context_error}
use rapid_proxy.Worker.Race.{
  checking, chosen, Pc, queued, looping, visiting, serving, refusing, loop_head, move, step_job,
  step,
}
use rapid_proxy.Worker.Race.Solo.{at, set-same, still, one, Goes, stays, goes, Goes-then}
use rapid_proxy.Worker.Race.Solo.Rounds.{after_verdict, goes_round}

module _ {L B E : Type 0} (lim : RateLimiter L E) (brk : CircuitBreaker B E) (now : Int64)
    (ctx : Option E) (outcome : Outcome E) (hostname : String) where
  -- Where a job is when `Select` has found this.
  abbrev pub pc_found : Selection E → Pc E
  pc_found (selected idx) = serving chosen idx
  pc_found Selection.all_proxies_busy = refusing all_proxies_busy
  pc_found (Selection.cancelled e) = refusing (context_error e)
  pc_found _ = queued

  -- `Select` has returned.
  abbrev pub IsBack : Selection E → Type 0
  IsBack Selection.blocked = ⊥
  IsBack Selection.out_of_range = ⊥
  IsBack _ = Unit {0}

  abbrev pub Chose : Pc E → State L B E → List (ProxyClient L B E) × Selection E → Type 0
  Chose pc s r =
      IsBack r.1
      → (Goes lim brk now ctx outcome hostname) pc s (pc_found r.1) (record s { clients = r.0 })

  pub Verdict-cases : (v : Verdict) → (v ≡ take) ⊎ ((v ≡ skip) ⊎ (v ≡ block))
  Verdict-cases take = inl refl
  Verdict-cases skip = inr (inl refl)
  Verdict-cases block = inr (inr refl)

  pub step_head :
      (start i : ℕ) (s : State L B E)
      → step lim brk
          (0, (still lim brk now ctx outcome hostname))
          ((one lim brk now ctx outcome hostname) (looping start i) s)
        ≡ (one lim brk now ctx outcome hostname)
            (loop_head (still lim brk now ctx outcome hostname) start i s)
            s
  unfolding step step_job move
  step_head start i s = refl

  abbrev pub loop_from :
      ℕ → ℕ → ℕ → List (ProxyClient L B E) → List (ProxyClient L B E) × Selection E
  loop_from r i start cs = select_loop lim brk r i start (λ k. ctx) (λ k j. now) cs

  pub head_end :
      (start i : ℕ) (s : State L B E)
      → rounds s.selector.max_retries ≤ i
      → loop_head (still lim brk now ctx outcome hostname) start i s ≡ refusing all_proxies_busy
  head_end start i s h = ground arith

  pub head_cancelled :
      (start i : ℕ) (s : State L B E) (x : E)
      → ctx ≡ some x
      → i < rounds s.selector.max_retries
      → loop_head (still lim brk now ctx outcome hostname) start i s ≡ refusing (context_error x)
  head_cancelled start i s x d h = rw (lt→ltb i (rounds s.selector.max_retries) h, d) refl

  pub head_on :
      (start i : ℕ) (s : State L B E)
      → ctx ≡ none
      → i < rounds s.selector.max_retries
      → loop_head (still lim brk now ctx outcome hostname) start i s
        ≡ visiting checking start i (add64 start i % length s.clients)
  head_on start i s d h = rw (lt→ltb i (rounds s.selector.max_retries) h, d) refl

  -- One round at the client `c`.
  pub goes_from :
      (r i start : ℕ) (s : State L B E) (c : ProxyClient L B E)
      → let idx = add64 start i % length s.clients in
        ctx ≡ none
        → get_elem? s.clients idx ≡ some c
        → step lim brk
            (0, (still lim brk now ctx outcome hostname))
            ((one lim brk now ctx outcome hostname) (looping start i) s)
          ≡ (one lim brk now ctx outcome hostname) (visiting checking start i idx) s
        → ((s1 : State L B E)
            → s1.selector ≡ s.selector
            → Chose (looping start (suc i)) s1 (loop_from r (suc i) start s1.clients))
        → Chose (looping start i) s (loop_from (suc r) i start s.clients)
  unfolding select_loop
  goes_from r i start s c d g first again =
      let idx = add64 start i % length s.clients in
      let out = try_client lim brk (λ k. now) c in
      let s1 = at idx out.0 s in
      let begun : (Goes lim brk now ctx outcome hostname) (visiting checking start i idx) s
          ((after_verdict lim brk now ctx outcome hostname) start i idx out.1) s1 =
        subst
          (λ (x : State L B E).
            (Goes lim brk now ctx outcome hostname) (visiting checking start i idx) x
              ((after_verdict lim brk now ctx outcome hostname) start i idx out.1) s1)
          (ap (λ cs. record s { clients = cs }) (set-same s.clients idx c g))
          ((goes_round lim brk now ctx outcome hostname) start i idx c s
            (get_elem?-lt s.clients idx c g)) in
      let here = (goes lim brk now ctx outcome hostname) (looping start i) _ _ s s s1 first begun in
      elim (Verdict-cases out.1) [
        | inl v ↦
            let q : loop_from (suc r) i start s.clients ≡ (s1.clients, selected idx) =
              rw (d, g, v, select_loop) refl in
            subst (Chose (looping start i) s) (sym q) (λ b.
              subst
                (λ x.
                  (Goes lim brk now ctx outcome hostname) (looping start i) s
                    ((after_verdict lim brk now ctx outcome hostname) start i idx x) s1)
                v here)
        | inr (inl v) ↦
            let q : loop_from (suc r) i start s.clients ≡ loop_from r (suc i) start s1.clients =
              rw (d, g, v, select_loop)
                (ap (λ x. select_loop lim brk r (suc i) start (λ k. x) (λ k j. now) s1.clients)
                  d) in
            subst (Chose (looping start i) s) (sym q) (λ b.
              (Goes-then lim brk now ctx outcome hostname) _ (looping start (suc i)) _ s s1 _
                (subst
                  (λ x.
                    (Goes lim brk now ctx outcome hostname) (looping start i) s
                      ((after_verdict lim brk now ctx outcome hostname) start i idx x) s1)
                  v here)
                (again s1 refl b))
        | inr (inr v) ↦
            let q : loop_from (suc r) i start s.clients ≡ (s1.clients, Selection.blocked) =
              rw (d, g, v, select_loop) refl in
            subst (Chose (looping start i) s) (sym q) (λ b. absurd b)
      ]

  pub goes_loop :
      (r i start : ℕ) (s : State L B E)
      → rounds s.selector.max_retries ≡ i + r
      → Chose (looping start i) s (loop_from r i start s.clients)
  unfolding select_loop
  goes_loop zero i start s e = λ b.
      (goes lim brk now ctx outcome hostname) _ (refusing all_proxies_busy) _ s s s
        (step_head start i s
          ∙ ap (λ pc. (one lim brk now ctx outcome hostname) pc s)
              (head_end start i s (omega (arith, e))))
        ((stays lim brk now ctx outcome hostname) _ s)
  goes_loop (suc r) i start s e = elim (Option-cases ctx) [
    | inr (x, d) ↦
        let q : loop_from (suc r) i start s.clients ≡ (s.clients, Selection.cancelled x) =
          rw (d, select_loop) refl in
        subst (Chose (looping start i) s) (sym q) (λ b.
          (goes lim brk now ctx outcome hostname) _ (refusing (context_error x)) _ s s s
            (step_head start i s
              ∙ ap (λ pc. (one lim brk now ctx outcome hostname) pc s)
                  (head_cancelled start i s x d (omega (arith, e))))
            ((stays lim brk now ctx outcome hostname) _ s))
    | inl d ↦
        let idx = add64 start i % length s.clients in
        let first =
          step_head start i s
          ∙ ap (λ pc. (one lim brk now ctx outcome hostname) pc s)
              (head_on start i s d (omega (arith, e))) in
        elim (Option-cases (get_elem? s.clients idx)) [
          | inl g ↦
              let q : loop_from (suc r) i start s.clients ≡ (s.clients, Selection.out_of_range) =
                rw (d, g, select_loop) refl in
              subst (Chose (looping start i) s) (sym q) (λ b. absurd b)
          | inr (c, g) ↦ goes_from r i start s c d g first (λ s1 x.
              goes_loop r (suc i) start s1
                (let y = ap (λ y. rounds y.max_retries) x in omega (arith, y, e)))
        ]
  ]
