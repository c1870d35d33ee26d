-- ===== src/Selector/Choice.antt =====
-- Which client `Select` chooses, and what it leaves behind.
use native.Mathlib.Decide.{dec_lt, ℕ_discrete}
use native.Mathlib.Nat.{mod-lt, mod-eq_of_lt, mod-eq-sub-mod}
use rapid_proxy.Prelude.{
  ℕ, zero, suc, ◌+◌, ◌-◌, ◌%◌, ◌^◌, ◌≤◌, ◌<◌, ◌≡◌, ◌≢◌, refl, sym, subst, ◌∙◌, arith, false, Option,
  none, some, List, Clock, add64, if◌then◌else◌, length, get_elem?, set, lt→ltb, length-set,
  get_elem?-set_ne, Option-cases, Bool-cases, inl, inr, ◌⊎◌,
}
use rapid_proxy.Client.{ProxyClient}
use rapid_proxy.Client.Interfaces.{RateLimiter, CircuitBreaker}
use rapid_proxy.Selector.{
  try_client, select, RoundRobinSelector, select_loop, Selection, selected, all_proxies_busy,
  cancelled, out_of_range,
}
use rapid_proxy.Selector.Attempt.{is_available, try_client-Attempted}

-- The client that round `i` looks at.
abbrev pub visit : ℕ → ℕ → ℕ → ℕ
visit start i n = add64 start i % n

mod-cases : (a n : ℕ) → 0 < n → a < n + n → (a % n ≡ a) ⊎ ((n ≤ a) × (a % n ≡ a - n))
mod-cases a n h l = elim (dec_lt a n) [
  | yes p ↦ inl (mod-eq_of_lt p)
  | no p ↦ inr (omega arith, mod-eq-sub-mod (omega arith) ∙ mod-eq_of_lt (omega arith))
]

-- A rotation looks at no client twice.
pub visit-injective :
    (start i j n : ℕ) → start < n → n < 2 ^ 62 → i < j → j < n → visit start i n ≢ visit start j n
visit-injective start i j n hs hn hi hj e =
    let e' : (start + i) % n ≡ (start + j) % n =
      rw (small (start + i) (omega arith), small (start + j) (omega arith)) at e in
    ground (
      arith,
      mod-cases (start + i) n (omega arith) (omega arith),
      mod-cases (start + j) n (omega arith) (omega arith),
    )
  where
    small : (a : ℕ) → a < 2 ^ 64 → a % 2 ^ 64 ≡ a
    small a h = omega arith

-- A rotation looks at every client.
pub visited :
    (start k n : ℕ) → start < n → k < n → n < 2 ^ 62 → (i : ℕ) × (i < n) × (visit start i n ≡ k)
visited start k n hs hk hn = elim (dec_lt k start) [
  | yes p ↦ (
    k + n - start,
    omega arith,
    rw (small (k + n - start) (omega arith)) (mod-eq-sub-mod (omega arith) ∙ wrapped (omega arith)),
  )
  | no p ↦ (
    k - start,
    omega arith,
    rw (small (k - start) (omega arith), back (omega arith)) (mod-eq_of_lt hk),
  )
]
  where
    small : (i : ℕ) → start + i < 2 ^ 64 → add64 start i ≡ start + i
    small i h = omega arith

    back : start ≤ k → start + (k - start) ≡ k
    back h = omega arith

    wrapped : start + (k + n - start) - n ≡ k → (start + (k + n - start) - n) % n ≡ k
    wrapped e = rw e (mod-eq_of_lt hk)

module _ {L B E : Type 0} (lim : RateLimiter L E) (brk : CircuitBreaker B E) where
  -- The reference: the first available client in rotation, all judged as they stood at the call.
  unfoldable pub first_available :
      ℕ → ℕ → ℕ → (ℕ → Option E) → (ℕ → Clock) → List (ProxyClient L B E) → Selection E
  first_available zero i start ctx t cs = all_proxies_busy
  first_available (suc r) i start ctx t cs =
      let rest = first_available r (suc i) start ctx t cs in
      elim (ctx i) [
        | some e ↦ cancelled e
        | none ↦ elim (get_elem? cs (visit start i (length cs))) [
          | none ↦ out_of_range
          | some c ↦
              if is_available lim brk (t i) c then selected (visit start i (length cs)) else rest
        ]
      ]

  -- The clients of the rounds still to come are as they were.
  abbrev Agree : ℕ → ℕ → ℕ → List (ProxyClient L B E) → List (ProxyClient L B E) → Type 0
  Agree r i start cur cs =
      (j : ℕ)
      → i ≤ j
      → j < i + r
      → get_elem? cur (visit start j (length cs)) ≡ get_elem? cs (visit start j (length cs))

  Agree-set :
      (r i start : ℕ) (c : ProxyClient L B E) (cur cs : List (ProxyClient L B E))
      → start < length cs
      → length cs < 2 ^ 62
      → i + suc r ≤ length cs
      → Agree (suc r) i start cur cs
      → Agree r (suc i) start (set cur (visit start i (length cs)) c) cs
  Agree-set r i start c cur cs hs hn hr a j low high =
      get_elem?-set_ne cur c (visit-injective start i j (length cs) hs hn low (omega arith))
      ∙ a j (omega arith) (omega arith)

  select_loop-first_available :
      (r i start : ℕ) (ctx : ℕ → Option E) (t : ℕ → Clock) (cur cs : List (ProxyClient L B E))
      → start < length cs
      → length cs < 2 ^ 62
      → i + r ≤ length cs
      → length cur ≡ length cs
      → Agree r i start cur cs
      → (select_loop lim brk r i start ctx t cur).1 ≡ first_available r i start ctx t cs
  unfolding select_loop first_available
  select_loop-first_available zero i start ctx t cur cs hs hn hr hl a = refl
  select_loop-first_available (suc r) i start ctx t cur cs hs hn hr hl a =
      elim (Option-cases (ctx i)) [
        | inr (e, d) ↦ rw (d, select_loop, first_available)
        | inl d ↦ elim (Option-cases (get_elem? cs (visit start i (length cs)))) [
          | inl g ↦ rw (d, hl, a i (omega arith) (omega arith), g, select_loop, first_available)
          | inr (c, g) ↦
              let here = a i (omega arith) (omega arith) ∙ g in
              let v = (try_client-Attempted lim brk (t i) c).verdict in
              let cur' = set cur (visit start i (length cs)) (try_client lim brk (t i) c).0 in
              let rest =
                select_loop-first_available r (suc i) start ctx t cur' cs hs hn (omega arith)
                  (length-set cur (visit start i (length cs)) (try_client lim brk (t i) c).0 ∙ hl)
                  (Agree-set r i start (try_client lim brk (t i) c).0 cur cs hs hn hr a) in
              elim (Bool-cases (is_available lim brk (t i) c)) [
                | inl y ↦ rw (d, hl, here, g, v, y, select_loop, first_available, hl)
                | inr n ↦ rw (d, hl, here, g, v, n, select_loop, first_available, hl) rest
              ]
        ]
      ]

  -- With between one and 2 ^ 62 clients, and at most as many rounds, `Select` chooses as the
  -- reference does, which looks for the first available client in the list as it was before the
  -- call, from the client after the one at which the last call started.
  pub select-first_available :
      (ctx : ℕ → Option E) (t : ℕ → Clock) (s : RoundRobinSelector) (cs : List (ProxyClient L B E))
      → 0 < length cs
      → length cs < 2 ^ 62
      → s.max_retries ≤ length cs
      → (select lim brk ctx t s cs).2
        ≡ first_available s.max_retries 0 (add64 s.current_index 1 % length cs) ctx t cs
  unfolding select
  select-first_available ctx t s cs hp hn hr = rw (lt→ltb s.max_retries (2 ^ 63) (omega arith)) (
      select_loop-first_available s.max_retries 0 (add64 s.current_index 1 % length cs) ctx t cs cs
        (mod-lt _ hp) hn (omega arith) refl (λ j low high. refl))

  same : (c c' : ProxyClient L B E) → some c ≡ some c' → c ≡ c'
  same c c' e = cc

  busy_step :
      (r i start : ℕ) (ctx : ℕ → Option E) (t : ℕ → Clock) (cs : List (ProxyClient L B E))
      → first_available (suc r) i start ctx t cs ≡ all_proxies_busy
      → ((c : ProxyClient L B E)
          → get_elem? cs (visit start i (length cs)) ≡ some c
          → is_available lim brk (t i) c ≡ false)
        × (first_available r (suc i) start ctx t cs ≡ all_proxies_busy)
  unfolding first_available
  busy_step r i start ctx t cs h = elim (Option-cases (ctx i)) [
    | inr (e, d) ↦ cc (rw (d, first_available) at h)
    | inl d ↦ elim (Option-cases (get_elem? cs (visit start i (length cs)))) [
      | inl g ↦ cc (rw (d, g, first_available) at h)
      | inr (c, g) ↦ elim (Bool-cases (is_available lim brk (t i) c)) [
        | inl y ↦ cc (rw (d, g, y, first_available) at h)
        | inr n ↦ (
          λ c' g'. subst (λ x. is_available lim brk (t i) x ≡ false) (same c c' (sym g ∙ g')) n,
          rw (d, g, n, first_available) at h,
        )
      ]
    ]
  ]

  busy-refused :
      (r i start : ℕ) (ctx : ℕ → Option E) (t : ℕ → Clock) (cs : List (ProxyClient L B E))
      → first_available r i start ctx t cs ≡ all_proxies_busy
      → (j : ℕ) (c : ProxyClient L B E) → i ≤ j
      → j < i + r
      → get_elem? cs (visit start j (length cs)) ≡ some c
      → is_available lim brk (t j) c ≡ false
  busy-refused zero i start ctx t cs e j c low high g = absurd (omega arith)
  busy-refused (suc r) i start ctx t cs e j c low high g =
      let (here, rest) = busy_step r i start ctx t cs e in
      elim (ℕ_discrete i j) [
        | yes p ↦ subst (λ x. is_available lim brk (t x) c ≡ false) p (here c (rw p g))
        | no p ↦ busy-refused r (suc i) start ctx t cs rest j c (omega arith) (omega arith) g
      ]

  -- With between one and 2 ^ 62 clients, and as many rounds, `Select` reports that all proxies are
  -- busy only if each client `k` has a round that looks at it, and the client, as it was before the
  -- call, was at that round's readings unhealthy, without a free slot or without a token.
  pub select-busy :
      (ctx : ℕ → Option E) (t : ℕ → Clock) (s : RoundRobinSelector) (cs : List (ProxyClient L B E))
      → 0 < length cs
      → length cs < 2 ^ 62
      → s.max_retries ≡ length cs
      → (select lim brk ctx t s cs).2 ≡ all_proxies_busy
      → (k : ℕ) (c : ProxyClient L B E) → k < length cs
      → get_elem? cs k ≡ some c
      → (i : ℕ) × (i < length cs)
        × (visit (add64 s.current_index 1 % length cs) i (length cs) ≡ k)
        × (is_available lim brk (t i) c ≡ false)
  select-busy ctx t s cs hp hn hr e k c hk g =
      let start = add64 s.current_index 1 % length cs in
      let (i, lt, at) = visited start k (length cs) (mod-lt _ hp) hk hn in
      (
        i,
        lt,
        at,
        busy-refused s.max_retries 0 start ctx t cs
            (sym (select-first_available ctx t s cs hp hn (omega arith)) ∙ e) i c (omega arith)
            (omega arith) (rw at g),
      )
