-- ===== src/Selector/Rotation.antt =====
-- Clients that are available are chosen in turn.
use native.Mathlib.Nat.{mod-lt, mod-eq_of_lt, mod-add-mod}
use rapid_proxy.Prelude.{
  ◌≤◌, Bool, true, if◌then◌else◌, length-set, get_elem?-set_ne, ℕ, zero, suc, ◌+◌, ◌%◌, ◌^◌, ◌<◌,
  ◌≡◌, ◌≢◌, refl, sym, ap, ◌∙◌, arith, Option, none, some, List, [], ◌∷◌, Clock, add64, length,
  get_elem?, set, All, All-get_elem?,
}
use rapid_proxy.Client.{ProxyClient}
use rapid_proxy.Selector.Attempt.{is_available, try_client-Attempted}
use rapid_proxy.Client.Interfaces.{RateLimiter, CircuitBreaker}
use rapid_proxy.Selector.{
  RoundRobinSelector, Selection, selected, select, select_loop, try_client, take, skip, rounds,
}
use rapid_proxy.Selector.Frame.{lt-get_elem?}
use rapid_proxy.Selector.Choice.{visit, visit-injective, visited}

at_turn : (a i n : ℕ) → 0 < n → n < 2 ^ 62 → i < n → (a + i) % n ≡ visit (a % n) i n
at_turn a i n p b l =
    let small = mod-lt a p in
    let e : add64 (a % n) i ≡ a % n + i = omega (arith, small, b, l) in
    sym (mod-add-mod a n i) ∙ ap (λ x. x % n) (sym e)

same_choice :
    {E : Type 0} (a b : ℕ)
    → ◌≡◌ {A = Option (Selection E)} (some (selected a)) (some (selected b))
    → a ≡ b
same_choice a b e = cc

module _ {L B E : Type 0} (lim : RateLimiter L E) (brk : CircuitBreaker B E) where
  -- A client that is healthy, with a free slot and a token, at any of the readings.
  abbrev pub IsReady : (ℕ → ℕ → Clock) → ProxyClient L B E → Type 0
  IsReady t c = (m : ℕ) → is_available lim brk (t m 0) c ≡ true

  now :
      (t : ℕ → ℕ → Clock) (m : ℕ) (cs : List (ProxyClient L B E))
      → All (IsReady t) cs
      → All (λ c. is_available lim brk (t m 0) c ≡ true) cs
  now t m [] o = tt
  now t m (c ∷ cs) o = (o.0 m, now t m cs o.1)

  -- The next of the clients.
  abbrev turned : RoundRobinSelector → RoundRobinSelector
  turned s = record s {
    current_index = add64 s.current_index 1;
    total_selections = add64 s.total_selections 1;
    success_selections = add64 s.success_selections 1;
  }

  small_start : (n k : ℕ) → k < n → n < 2 ^ 62 → add64 k 0 % n ≡ k
  small_start n k h b = let e : add64 k 0 ≡ k = omega arith in rw e (mod-eq_of_lt h)

  first_round :
      (r : ℕ) (t : ℕ → Clock) (cs : List (ProxyClient L B E)) (k : ℕ) (c : ProxyClient L B E)
      → 0 < r
      → add64 k 0 % length cs ≡ k
      → get_elem? cs k ≡ some c
      → (try_client lim brk (t 0) c).1 ≡ take
      → select_loop lim brk r 0 k (λ i. none) t cs
        ≡ (set cs k (try_client lim brk (t 0) c).0, selected k)
  unfolding select_loop
  first_round zero t cs k c h e g v = absurd (omega arith)
  first_round (suc r) t cs k c h e g v =
      rw (e, g, v, select_loop) (ap (λ i. (set cs i (try_client lim brk (t 0) c).0, selected i)) e)

  select-ready :
      (t : ℕ → Clock) (s : RoundRobinSelector) (cs : List (ProxyClient L B E))
      (c : ProxyClient L B E)
      → 0 < length cs
      → length cs < 2 ^ 62
      → 0 < rounds s.max_retries
      → get_elem? cs (add64 s.current_index 1 % length cs) ≡ some c
      → is_available lim brk (t 0) c ≡ true
      → select lim brk (λ k. none) t s cs ≡ (
        turned s,
        set cs (add64 s.current_index 1 % length cs) (try_client lim brk (t 0) c).0,
        selected (add64 s.current_index 1 % length cs),
      )
  unfolding select select_loop
  select-ready t s cs c p b r g a =
      let n = length cs in
      let k = add64 s.current_index 1 % n in
      let taken : (try_client lim brk (t 0) c).1 ≡ take =
        (try_client-Attempted lim brk (t 0) c).verdict
        ∙ ap (λ (y : Bool). if y then take else skip) a in
      let found =
        first_round (rounds s.max_retries) t cs k c r (small_start n k (mod-lt _ p) b) g taken in
      rw found refl

  -- The clients that `m` calls choose.
  unfoldable pub choices :
      ℕ → (ℕ → ℕ → Clock) → RoundRobinSelector → List (ProxyClient L B E) → List (Selection E)
  choices zero t s cs = []
  choices (suc m) t s cs =
      let (s', cs', found) = select lim brk (λ k. none) (t m) s cs in found ∷ choices m t s' cs'

  -- The clients whose turns are still to come are as they were.
  abbrev Untouched : ℕ → ℕ → List (ProxyClient L B E) → List (ProxyClient L B E) → Type 0
  Untouched a i cur cs =
      (x : ℕ)
      → i ≤ x
      → x < length cs
      → get_elem? cur (visit (a % length cs) x (length cs))
        ≡ get_elem? cs (visit (a % length cs) x (length cs))

  -- One call, after `i` others.
  next_choice :
      (i a : ℕ) (t : ℕ → Clock) (s : RoundRobinSelector) (cs cur : List (ProxyClient L B E))
      → length cur ≡ length cs
      → length cs < 2 ^ 62
      → i < length cs
      → 0 < rounds s.max_retries
      → All (λ c. is_available lim brk (t 0) c ≡ true) cs
      → s.current_index + 1 ≡ a + i
      → a + i < 2 ^ 64
      → Untouched a i cur cs
      → (cur' : List (ProxyClient L B E)) × (select lim brk (λ k. none) t s cur
          ≡ (turned s, cur', selected (visit (a % length cs) i (length cs))))
        × (length cur' ≡ length cs)
        × Untouched a (suc i) cur' cs
  next_choice i a t s cs cur e b l r o q w same =
      let n = length cs in
      let k = visit (a % n) i n in
      let p : 0 < n = omega arith in
      let index : add64 s.current_index 1 ≡ a + i = omega (arith, q, w) in
      let here : add64 s.current_index 1 % length cur ≡ k =
        ap (λ x. add64 s.current_index 1 % x) e ∙ ap (λ x. x % n) index ∙ at_turn a i n p b l in
      let (c, g) = lt-get_elem? cs k (mod-lt (add64 (a % n) i) p) in
      let g' = ap (get_elem? cur) here ∙ same i (omega arith) l ∙ g in
      let chosen =
        select-ready t s cur c (omega (arith, e, p)) (omega (arith, e, b)) r g'
          (All-get_elem? (λ x. is_available lim brk (t 0) x ≡ true) cs k c o g) in
      let c' = (try_client lim brk (t 0) c).0 in
      (
        set cur k c',
        chosen ∙ ap (λ y. (turned s, set cur y c', selected y)) here,
        length-set cur k c' ∙ e,
        λ x low high.
            get_elem?-set_ne cur c' (visit-injective (a % n) i x n (mod-lt a p) b low high)
            ∙ same x (omega (arith, low)) high,
      )

  choice-turn :
      (m i j a : ℕ) (t : ℕ → ℕ → Clock) (s : RoundRobinSelector) (cs cur : List (ProxyClient L B E))
      → length cur ≡ length cs
      → length cs < 2 ^ 62
      → i + m ≤ length cs
      → 0 < rounds s.max_retries
      → All (IsReady t) cs
      → s.current_index + 1 ≡ a + i
      → a + i + m < 2 ^ 64
      → Untouched a i cur cs
      → j < m
      → get_elem? (choices m t s cur) j
        ≡ some (selected (visit (a % length cs) (i + j) (length cs)))
  unfolding choices
  choice-turn zero i j a t s cs cur e b im r o q w same l = absurd (omega arith)
  choice-turn (suc m) i zero a t s cs cur e b im r o q w same l =
      let (cur', chosen, e', same') =
        next_choice i a (t m) s cs cur e b (omega arith) r (now t m cs o) q (omega arith) same in
      let same_turn : i ≡ i + 0 = omega arith in
      rw chosen (ap (λ x. some (selected (visit (a % length cs) x (length cs)))) same_turn)
  choice-turn (suc m) i (suc j) a t s cs cur e b im r o q w same l =
      let (cur', chosen, e', same') =
        next_choice i a (t m) s cs cur e b (omega arith) r (now t m cs o) q (omega arith) same in
      let q' : add64 s.current_index 1 + 1 ≡ a + suc i = omega (arith, q, w) in
      let same_turn : suc i + j ≡ i + suc j = omega arith in
      rw chosen (
        choice-turn m (suc i) j a t (turned s) cs cur' e' b (omega arith) r o q' (omega arith) same'
          (omega arith)
        ∙ ap (λ x. some (selected (visit (a % length cs) x (length cs)))) same_turn)

  -- Over clients that are all available at first, at any of the calls' readings, with a live context and
  -- at least one round, as many calls as there are clients choose each client exactly once, from
  -- whatever index the selector is at, although each call takes a slot and a token of its client; the
  -- index and the number of clients lie below 2 ^ 62.
  pub choices-once :
      (t : ℕ → ℕ → Clock) (s : RoundRobinSelector) (cs : List (ProxyClient L B E)) (k : ℕ)
      → length cs < 2 ^ 62
      → 0 < rounds s.max_retries
      → All (IsReady t) cs
      → s.current_index < 2 ^ 62
      → k < length cs
      → let out = choices (length cs) t s cs in
        ((j : ℕ) × (j < length cs) × (get_elem? out j ≡ some (selected k)))
        × ((i j : ℕ)
            → i < j
            → j < length cs
            → get_elem? out i ≡ some (selected k)
            → get_elem? out j ≢ some (selected k))
  choices-once t s cs k b r o h l =
      let n = length cs in
      let out = choices n t s cs in
      let start = (s.current_index + 1) % n in
      let p : 0 < n = omega arith in
      let hs = mod-lt (s.current_index + 1) p in
      let turn : (i : ℕ) → i < n → get_elem? out i ≡ some (selected (visit start i n)) = λ i li.
        choice-turn n 0 i (s.current_index + 1) t s cs cs refl b (omega arith) r o (omega arith)
          (omega arith) (λ x low high. refl) li
        ∙ ap (λ x. some (selected (visit start x n))) (omega arith) in
      let (j, lj, at) = visited start k n hs l b in
      (
        (j, lj, turn j lj ∙ ap (λ x. some (selected x)) at),
        λ i m li lm e e'.
            let a = same_choice (visit start i n) k (sym (turn i (omega (arith, li, lm))) ∙ e) in
            let c = same_choice (visit start m n) k (sym (turn m lm) ∙ e') in
            visit-injective start i m n hs b li lm (a ∙ sym c),
      )
