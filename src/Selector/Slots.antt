-- ===== src/Selector/Slots.antt =====
-- What `Select` does to the slots of the clients.
use mathlib.Core.Option
use native.Mathlib.Decide.{ℕ_discrete}
use rapid_proxy.Prelude.{
  ℕ, ◌<◌, ◌≡◌, ap, arith, Bool, true, false, Option, some, List, Clock, ◌==◌, length, get_elem?,
}
use rapid_proxy.Client.{ProxyClient, Semaphore, release_concurrency}
use rapid_proxy.Client.Interfaces.{RateLimiter, CircuitBreaker}
use rapid_proxy.Selector.{
  RoundRobinSelector, Selection, selected, all_proxies_busy, cancelled, blocked, out_of_range,
  select,
}
use rapid_proxy.Selector.Frame.{Kept, selected_injective, select-Frame}

abbrev pub is_selected : {E : Type 0} → ℕ → Selection E → Bool
is_selected k (selected i) = i == k
is_selected k _ = false

module _ {L B E : Type 0} where
  -- The client's semaphore, after one release if `held`.
  abbrev pub sem_after : Bool → ProxyClient L B E → Option (Option Semaphore)
  sem_after true c = Option.map (λ d. d.concurrency_sem) (release_concurrency c)
  sem_after false c = some c.concurrency_sem

  Kept-sem_after :
      (found : Selection E) (k : ℕ) (c c' : ProxyClient L B E)
      → Kept found k c c'
      → sem_after (is_selected k found) c' ≡ some c.concurrency_sem
  Kept-sem_after (selected i) k c c' v = elim (ℕ_discrete i k) [
    | yes p ↦ let held = v.chosen (ap selected p) in ground arith
    | no p ↦ let same = v.others (λ e. p (selected_injective i k e)) in ground arith
  ]
  Kept-sem_after all_proxies_busy k c c' v = ground (arith, v.others (λ e. cc))
  Kept-sem_after (cancelled e) k c c' v = ground (arith, v.others (λ e. cc))
  Kept-sem_after blocked k c c' v = ground (arith, v.others (λ e. cc))
  Kept-sem_after out_of_range k c c' v = ground (arith, v.others (λ e. cc))

module _ {L B E : Type 0} (lim : RateLimiter L E) (brk : CircuitBreaker B E) where
  -- With at least one client, `Select` takes one slot of the client that it returns and none of
  -- any other: client `k`, after one release if it is the one that was returned, has the slots
  -- that it had.
  pub select-slots :
      (ctx : ℕ → Option E) (t : ℕ → Clock) (s : RoundRobinSelector) (cs : List (ProxyClient L B E))
      (k : ℕ) (c : ProxyClient L B E)
      → 0 < length cs
      → get_elem? cs k ≡ some c
      → let (s', cs', found) = select lim brk ctx t s cs in
        (c' : ProxyClient L B E) × (get_elem? cs' k ≡ some c')
        × (sem_after (is_selected k found) c' ≡ some c.concurrency_sem)
  select-slots ctx t s cs k c h g =
      let (c', g', kept) = (select-Frame lim brk ctx t s cs h).0 k c g in
      (c', g', Kept-sem_after _ k c c' kept)
