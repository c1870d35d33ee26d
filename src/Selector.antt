-- ===== src/Selector.antt =====
-- internal/selector/selector.go. The clients are shared by pointer with the manager, so `Select`
-- takes their list and returns it; the k-th round of its loop reads the clock at `t k 0` (breaker)
-- and `t k 1` (limiter), and finds the context done with `ctx k`.
pub mod Attempt
pub mod Choice
pub mod Frame
pub mod Rotation
pub mod Slots
use rapid_proxy.Prelude.{
  ℕ, zero, suc, ◌+◌, ◌%◌, ◌^◌, Bool, true, false, not, Option, none, some, List, [], ◌∷◌, Int64,
  Clock, add64, ltb, ltb64, ◌==◌, if◌then◌else◌, length, get_elem?, set,
}
use rapid_proxy.Floats.{Float64}
use rapid_proxy.Client.{ProxyClient, try_acquire_concurrency, release_concurrency}
use rapid_proxy.Client.Interfaces.{RateLimiter, CircuitBreaker}

pub record Config : Type 0 where
  pub max_retries : Int64

abbrev pub default_config : Config
default_config = record { max_retries = 0 }

pub record RoundRobinSelector : Type 0 where
  pub current_index : Int64
  pub max_retries : Int64
  pub total_selections : Int64
  pub success_selections : Int64
  pub failed_selections : Int64

pub record SelectorStats (F : Type 0) : Type 0 where
  pub total_selections : Int64
  pub success_selections : Int64
  pub failed_selections : Int64
  pub success_rate : F

-- What `Select` comes to: a client by its index, one of its two errors, a receive that blocks, or an
-- index out of range.
pub data Selection (E : Type 0) : Type 0 where
  selected : ℕ → Selection E
  all_proxies_busy : Selection E
  cancelled : E → Selection E
  blocked : Selection E
  out_of_range : Selection E

-- `none` is `ErrNoProxies`.
unfoldable pub new_round_robin_selector :
    {C : Type 0} → List C → Option Config → Option RoundRobinSelector
new_round_robin_selector [] config = none
new_round_robin_selector (c ∷ cs) config =
    let given : Config = elim config [ none ↦ default_config | some k ↦ k ] in
    some (record {
      current_index = 0;
      max_retries = if given.max_retries == 0 then length (c ∷ cs) else given.max_retries;
      total_selections = 0;
      success_selections = 0;
      failed_selections = 0;
    })

unfoldable pub get_stats : {F : Type 0} → Float64 F → RoundRobinSelector → SelectorStats F
get_stats fl s = record {
  total_selections = s.total_selections;
  success_selections = s.success_selections;
  failed_selections = s.failed_selections;
  success_rate =
      if ltb64 0 s.total_selections
      then fl.div (fl.of_int s.success_selections) (fl.of_int s.total_selections)
      else fl.literal 0 1;
}

-- What one round of the loop makes of its client.
pub data Verdict : Type 0 where
  take skip block : Verdict

-- The rounds of `for i := 0; i < maxRetries; i++`: none if `maxRetries` is negative.
abbrev pub rounds : Int64 → ℕ
rounds max_retries = if ltb max_retries (2 ^ 63) then max_retries else 0

-- The counters that a return of `Select` bumps.
abbrev pub count_selection : {E : Type 0} → Selection E → RoundRobinSelector → RoundRobinSelector
count_selection (selected i) s = record s { success_selections = add64 s.success_selections 1 }
count_selection all_proxies_busy s = record s { failed_selections = add64 s.failed_selections 1 }
count_selection (cancelled e) s = record s { failed_selections = add64 s.failed_selections 1 }
count_selection _ s = s

module _ {L B E : Type 0} (lim : RateLimiter L E) (brk : CircuitBreaker B E) where
  -- Check 1; a client with no breaker passes.
  unfoldable pub breaker_passes : Int64 → ProxyClient L B E → Bool
  breaker_passes now c = elim c.circuit_breaker [ none ↦ true | some b ↦ brk.is_healthy now b ]

  unfoldable pub give_back : ProxyClient L B E → ProxyClient L B E × Verdict
  give_back c = elim (release_concurrency c) [ none ↦ (c, block) | some c' ↦ (c', skip) ]

  -- Check 3, with the slot held.
  unfoldable pub check_limiter : Int64 → ProxyClient L B E → ProxyClient L B E × Verdict
  unfolding give_back
  check_limiter now c = elim c.rate_limiter [
    | none ↦ (c, take)
    | some l ↦
        let (l', granted) = lim.try_acquire now l in
        let charged = record c { rate_limiter = some l' } in
        if granted then (charged, take) else give_back charged
  ]

  -- The body of the loop after the check of the context.
  unfoldable pub try_client : Clock → ProxyClient L B E → ProxyClient L B E × Verdict
  unfolding check_limiter breaker_passes
  try_client t c =
      let (held, got) = try_acquire_concurrency c in
      if not (breaker_passes (t 0) c)
      then (c, skip)
      else (if not got then (c, skip) else check_limiter (t 1) held)

  unfoldable pub select_loop :
      ℕ
      → ℕ
      → ℕ
      → (ℕ → Option E)
      → (ℕ → Clock)
      → List (ProxyClient L B E)
      → List (ProxyClient L B E) × Selection E
  select_loop zero i start ctx t cs = (cs, all_proxies_busy)
  select_loop (suc r) i start ctx t cs =
      let idx = add64 start i % length cs in
      elim (ctx i) [
        | some e ↦ (cs, cancelled e)
        | none ↦ elim (get_elem? cs idx) [
          | none ↦ (cs, out_of_range)
          | some c ↦ elim ((try_client (t i) c).1) [
            | take ↦ (set cs idx (try_client (t i) c).0, selected idx)
            | block ↦ (set cs idx (try_client (t i) c).0, blocked)
            | skip ↦ select_loop r (suc i) start ctx t (set cs idx (try_client (t i) c).0)
          ]
        ]
      ]

  unfoldable pub select :
      (ℕ → Option E)
      → (ℕ → Clock)
      → RoundRobinSelector
      → List (ProxyClient L B E)
      → RoundRobinSelector × List (ProxyClient L B E) × Selection E
  select ctx t s cs =
      let next = add64 s.current_index 1 in
      let (cs', found) = select_loop (rounds s.max_retries) 0 (next % length cs) ctx t cs in
      (
        count_selection found
            (record s { current_index = next; total_selections = add64 s.total_selections 1 }),
        cs',
        found,
      )
