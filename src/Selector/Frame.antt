-- ===== src/Selector/Frame.antt =====
-- What `Select` leaves behind: the slots of the clients and the counters.
use mathlib.Core.Option
use native.Mathlib.Decide.{ℕ_discrete}
use native.Mathlib.Nat.{mod-lt}
use rapid_proxy.Prelude.{
  ℕ, zero, suc, ◌%◌, ◌<◌, ◌≡◌, ◌≢◌, refl, ap, ◌∙◌, arith, true, false, Option, some, List, [], ◌∷◌,
  Clock, add64, length, get_elem?, set, length-set, get_elem?-set_self, get_elem?-set_ne,
  Option-cases, Bool-cases, inl, inr,
}
use rapid_proxy.Client.{ProxyClient, release_concurrency}
use rapid_proxy.Client.Interfaces.{RateLimiter, CircuitBreaker}
use rapid_proxy.Selector.{
  try_client, count_selection, rounds, select, RoundRobinSelector, select_loop, Selection, selected,
  all_proxies_busy, cancelled, blocked, out_of_range,
}
use rapid_proxy.Selector.Attempt.{is_available, try_client-Attempted}

pub get_elem?-lt :
    {A : Type 0} (xs : List A) (i : ℕ) (x : A) → get_elem? xs i ≡ some x → i < length xs
get_elem?-lt [] i x e = cc
get_elem?-lt (y ∷ ys) zero x e = omega arith
get_elem?-lt (y ∷ ys) (suc i) x e = omega (arith, get_elem?-lt ys i x e)

pub lt-get_elem? :
    {A : Type 0} (xs : List A) (i : ℕ) → i < length xs → (x : A) × (get_elem? xs i ≡ some x)
lt-get_elem? [] i h = absurd (omega arith)
lt-get_elem? (y ∷ ys) zero h = (y, refl)
lt-get_elem? (y ∷ ys) (suc i) h = lt-get_elem? ys i (omega arith)

pub selected_injective :
    {E : Type 0} (i j : ℕ) → ◌≡◌ {A = Selection E} (selected i) (selected j) → i ≡ j
selected_injective i j e = cc

module _ {L B E : Type 0} where
  -- Client `k` before and after: the chosen one holds one slot more, which a release gives back; any
  -- other holds what it held.
  pub record Kept (found : Selection E) (k : ℕ) (c c' : ProxyClient L B E) : Type 0 where
    pub same_url : c'.proxy_url ≡ c.proxy_url
    pub same_domains : c'.domain_limiter ≡ c.domain_limiter
    pub others : found ≢ selected k → c'.concurrency_sem ≡ c.concurrency_sem
    pub chosen :
        found ≡ selected k
        → Option.map (λ d. d.concurrency_sem) (release_concurrency c') ≡ some c.concurrency_sem

  abbrev pub Frame : Selection E → List (ProxyClient L B E) → List (ProxyClient L B E) → Type 0
  Frame found cs cs' =
      (k : ℕ) (c : ProxyClient L B E)
      → get_elem? cs k ≡ some c
      → (c' : ProxyClient L B E) × (get_elem? cs' k ≡ some c') × Kept found k c c'

  Frame-refl :
      (found : Selection E) (cs : List (ProxyClient L B E))
      → ((k : ℕ) → found ≢ selected k)
      → Frame found cs cs
  Frame-refl found cs ne k c g = (
    c,
    g,
    record {
      same_url = refl;
      same_domains = refl;
      others = λ h. refl;
      chosen = λ h. absurd (ne k h);
    },
  )

  pub same_client :
      (cs : List (ProxyClient L B E)) (i k : ℕ) (d c : ProxyClient L B E)
      → i ≡ k
      → get_elem? cs i ≡ some d
      → get_elem? cs k ≡ some c
      → d ≡ c
  same_client cs i k d c p at g = cc

counted :
    {E : Type 0} (found : Selection E) (s : RoundRobinSelector)
    → s.total_selections ≡ add64 s.success_selections s.failed_selections
    → found ≢ blocked
    → found ≢ out_of_range
    → let s' = count_selection found (record s {
      current_index = add64 s.current_index 1;
      total_selections = add64 s.total_selections 1;
    }) in
      (s'.total_selections ≡ add64 s.total_selections 1)
      × (s'.total_selections ≡ add64 s'.success_selections s'.failed_selections)
      × (s'.current_index ≡ add64 s.current_index 1)
counted (selected i) s h nb nr = ground arith
counted all_proxies_busy s h nb nr = ground arith
counted (cancelled e) s h nb nr = ground arith
counted blocked s h nb nr = absurd (nb refl)
counted out_of_range s h nb nr = absurd (nr refl)

module _ {L B E : Type 0} (lim : RateLimiter L E) (brk : CircuitBreaker B E) where
  Frame-take :
      (idx : ℕ) (t : Clock) (d : ProxyClient L B E) (cs : List (ProxyClient L B E))
      → get_elem? cs idx ≡ some d
      → is_available lim brk t d ≡ true
      → Frame (selected idx) cs (set cs idx (try_client lim brk t d).0)
  Frame-take idx t d cs at y k c g = elim (ℕ_discrete idx k) [
    | yes p ↦
        let a = try_client-Attempted lim brk t d in
        let kept : Kept (selected idx) k d (try_client lim brk t d).0 = record {
          same_url = a.same_url;
          same_domains = a.same_domains;
          others = λ h. absurd (h (ap selected p));
          chosen = λ h. a.held y;
        } in
        (
          (try_client lim brk t d).0,
          rw (← p) (get_elem?-set_self cs idx _ (get_elem?-lt cs idx d at)),
          rw (← same_client cs idx k d c p at g) kept,
        )
    | no p ↦ (
      c,
      get_elem?-set_ne cs _ p ∙ g,
      record {
        same_url = refl;
        same_domains = refl;
        others = λ h. refl;
        chosen = λ h. absurd (p (selected_injective idx k h));
      },
    )
  ]

  Frame-skip :
      (idx : ℕ) (t : Clock) (d : ProxyClient L B E) (found : Selection E)
      (cs cs' : List (ProxyClient L B E))
      → get_elem? cs idx ≡ some d
      → is_available lim brk t d ≡ false
      → Frame found (set cs idx (try_client lim brk t d).0) cs'
      → Frame found cs cs'
  Frame-skip idx t d found cs cs' at n f k c g = elim (ℕ_discrete idx k) [
    | yes p ↦
        let a = try_client-Attempted lim brk t d in
        let (c', at', kept) =
          f k (try_client lim brk t d).0
            (rw (← p) (get_elem?-set_self cs idx _ (get_elem?-lt cs idx d at))) in
        (
          c',
          at',
          rw (← same_client cs idx k d c p at g) (record {
            same_url = kept.same_url ∙ a.same_url;
            same_domains = kept.same_domains ∙ a.same_domains;
            others = λ h. kept.others h ∙ a.refused n;
            chosen = λ h. kept.chosen h ∙ ap some (a.refused n);
          }),
        )
    | no p ↦ f k c (get_elem?-set_ne cs _ p ∙ g)
  ]

  select_loop-Frame :
      (r i start : ℕ) (ctx : ℕ → Option E) (t : ℕ → Clock) (cs : List (ProxyClient L B E))
      → 0 < length cs
      → let (cs', found) = select_loop lim brk r i start ctx t cs in
        Frame found cs cs' × (found ≢ blocked) × (found ≢ out_of_range)
  unfolding select_loop
  select_loop-Frame zero i start ctx t cs hp = (Frame-refl _ cs (λ k h. cc), λ h. cc, λ h. cc)
  select_loop-Frame (suc r) i start ctx t cs hp = elim (Option-cases (ctx i)) [
    | inr (e, d) ↦ rw (d, select_loop) (Frame-refl _ cs (λ k h. cc), λ h. cc, λ h. cc)
    | inl d ↦
        let idx = add64 start i % length cs in
        let (c, g) = lt-get_elem? cs idx (mod-lt _ hp) in
        let v = (try_client-Attempted lim brk (t i) c).verdict in
        elim (Bool-cases (is_available lim brk (t i) c)) [
          | inl y ↦ rw (d, g, v, y, select_loop) (Frame-take idx (t i) c cs g y, λ h. cc, λ h. cc)
          | inr n ↦
              let cs1 = set cs idx (try_client lim brk (t i) c).0 in
              let (f, no_block, in_range) =
                select_loop-Frame r (suc i) start ctx t cs1
                  (omega (arith, length-set cs idx (try_client lim brk (t i) c).0)) in
              rw (d, g, v, n, select_loop) (Frame-skip idx (t i) c _ cs _ g n f, no_block, in_range)
        ]
  ]

  -- Whatever `Select` returns, it never blocks in a release nor runs past the clients, the chosen
  -- client holds one slot more, and every other client holds the slots that it held.
  pub select-Frame :
      (ctx : ℕ → Option E) (t : ℕ → Clock) (s : RoundRobinSelector) (cs : List (ProxyClient L B E))
      → 0 < length cs
      → let (s', cs', found) = select lim brk ctx t s cs in
        Frame found cs cs' × (found ≢ blocked) × (found ≢ out_of_range)
  unfolding select
  select-Frame ctx t s cs hp = select_loop-Frame _ 0 _ ctx t cs hp

  -- With at least one client, each call adds one to the selections (modulo 2 ^ 64), which stay the
  -- sum of successes and failures if they were, and moves the index on by one.
  pub select-counters :
      (ctx : ℕ → Option E) (t : ℕ → Clock) (s : RoundRobinSelector) (cs : List (ProxyClient L B E))
      → 0 < length cs
      → s.total_selections ≡ add64 s.success_selections s.failed_selections
      → let s' = (select lim brk ctx t s cs).0 in
        (s'.total_selections ≡ add64 s.total_selections 1)
        × (s'.total_selections ≡ add64 s'.success_selections s'.failed_selections)
        × (s'.current_index ≡ add64 s.current_index 1)
  unfolding select
  select-counters ctx t s cs hp h =
      let (f, no_block, in_range) = select_loop-Frame (rounds s.max_retries) 0 _ ctx t cs hp in
      counted _ s h no_block in_range

  select_loop-in_range :
      (r i start : ℕ) (ctx : ℕ → Option E) (t : ℕ → Clock) (cs : List (ProxyClient L B E)) (k : ℕ)
      → 0 < length cs
      → (select_loop lim brk r i start ctx t cs).1 ≡ selected k
      → k < length cs
  unfolding select_loop
  select_loop-in_range zero i start ctx t cs k hp h = cc
  select_loop-in_range (suc r) i start ctx t cs k hp h = elim (Option-cases (ctx i)) [
    | inr (e, d) ↦ cc (rw (d, select_loop) at h)
    | inl d ↦
        let idx = add64 start i % length cs in
        let (c, g) = lt-get_elem? cs idx (mod-lt _ hp) in
        let v = (try_client-Attempted lim brk (t i) c).verdict in
        let cs1 = set cs idx (try_client lim brk (t i) c).0 in
        let same = length-set cs idx (try_client lim brk (t i) c).0 in
        elim (Bool-cases (is_available lim brk (t i) c)) [
          | inl y ↦
              let e = selected_injective idx k (rw (d, g, v, y, select_loop) at h) in
              rw (← e) (mod-lt _ hp)
          | inr n ↦ rw (← same) (
              select_loop-in_range r (suc i) start ctx t cs1 k (omega arith)
                (rw (d, g, v, n, select_loop) at h))
        ]
  ]

  -- The chosen index is that of a client.
  pub select-in_range :
      (ctx : ℕ → Option E) (t : ℕ → Clock) (s : RoundRobinSelector) (cs : List (ProxyClient L B E))
      (k : ℕ)
      → 0 < length cs
      → (select lim brk ctx t s cs).2 ≡ selected k
      → k < length cs
  unfolding select
  select-in_range ctx t s cs k hp h = select_loop-in_range _ 0 _ ctx t cs k hp h
