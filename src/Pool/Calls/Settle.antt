-- ===== src/Pool/Calls/Settle.antt =====
-- That the calls of `DoWithContext` return, and the requests of batches.
use native.Mathlib.Nat.{add-mul}
use rapid_proxy.Prelude.{ℕ, zero, suc, ◌+◌, ◌*◌, ◌<◌, ◌≡◌, ap, arith, [], inl, inr, length}
use rapid_proxy.Client.Interfaces.{RateLimiter, CircuitBreaker}
use rapid_proxy.Selector.{rounds}
use rapid_proxy.Worker.{State}
use rapid_proxy.Worker.Release.{Unlimited}
use rapid_proxy.Worker.Race.Slots.{AreFree}
use rapid_proxy.Worker.Race.Finish.{Alive, begin-Alive}
use rapid_proxy.Worker.Shutdown.{
  Hand, entering, looping, busy, Crew, Stopper, serving, cancelling, joining, stopped, becomes,
  leave, on_done, on_job, receive, worker_turn, stop_step,
}
use rapid_proxy.Worker.Shutdown
use rapid_proxy.Worker.Shutdown.Away.{Reach-IsOrderly, Reach-HasSizes}
use rapid_proxy.Pool.Calls.{Running, Step, Reach, opens, next, opened}
use rapid_proxy.Pool.Calls.Queueing.{Reach-crew}
use rapid_proxy.Pool.Calls.Results.{Reach-Inv}
use rapid_proxy.Pool.Calls.Measure.{remaining, per_call, arrival, step-remaining, step-running}
use rapid_proxy.Pool.Calls.Going.{IsInner, AllReturned, Fit, goes_on}

module _ {L B E : Type 0} (lim : RateLimiter L E) (brk : CircuitBreaker B E) where
  -- With at most `n` further calls, every sequence of steps ends where all calls are done and no
  -- `Close` waits in `Stop`, and until then one that needs no more calls, no end of a context and no
  -- further `Close` can be taken.
  pub data Settles : ℕ → Running L B E → Type 0 where
    now : {n : ℕ} {s : Running L B E} → AllReturned lim brk s → Settles n s
    later :
        {n : ℕ} {s : Running L B E} (s1 : Running L B E) (st : Step lim brk s s1)
        → IsInner lim brk st
        → ((m : ℕ) (s' : Running L B E) (st' : Step lim brk s s')
            → m + arrival lim brk st' ≡ n
            → Settles m s')
        → Settles n s

abbrev all_left : {L B E : Type 0} → ℕ → ℕ → Running L B E → ℕ
all_left r m s = remaining r s + m * (1 + per_call r)

less_by : (a b m m' x w : ℕ) → a < b + x * w → m' + x ≡ m → a + m' * w < b + m * w
less_by a b m m' x w h e = omega (arith, h, add-mul m' x w, ap (λ (y : ℕ). y * w) e)

module _ {L B E : Type 0} (lim : RateLimiter L E) (brk : CircuitBreaker B E) {s0 : State L B E}
    {n size : ℕ} where
  Reach-Alive :
      {s : Running L B E}
      → AreFree s0.clients
      → Unlimited s0.clients
      → 0 < length s0.clients
      → Reach lim brk s0 n size s
      → Alive (rounds s0.selector.max_retries) s0.clients s.race
  unfolding opened
  Reach-Alive free u p opens = begin-Alive s0 [] free u p
  Reach-Alive free u p (next re st) = step-running lim brk _ _ st (Reach-Alive free u p re)

  settles :
      (fuel m : ℕ) (s : Running L B E)
      → AreFree s0.clients
      → Unlimited s0.clients
      → 0 < length s0.clients
      → 0 < n
      → 0 < size
      → Reach lim brk s0 n size s
      → all_left (rounds s0.selector.max_retries) m s < fuel
      → Settles lim brk m s
  settles zero m s free u p hn hs re h = absurd (omega arith)
  settles (suc fuel) m s free u p hn hs re h =
      let r = rounds s0.selector.max_retries in
      let alive = Reach-Alive free u p re in
      let fit : Fit lim brk r s0.clients n size s = record {
        inv = Reach-Inv lim brk re;
        orderly = Reach-IsOrderly (Reach-crew re);
        sizes = Reach-HasSizes (Reach-crew re);
        alive = alive;
        crew_inv = Shutdown.Reach-Inv (Reach-crew re);
      } in
      elim (goes_on lim brk r s0.clients n size s fit hn hs) [
        | inl all ↦ now all
        | inr (s1, st, inner) ↦ later s1 st inner (λ m' s' st' e.
            let less = step-remaining lim brk r s0.clients alive st' in
            settles fuel m' s' free u p hn hs (next re st') (
              omega (
                arith,
                h,
                less_by (remaining r s') (remaining r s) m m' (arrival lim brk st') (1 + per_call r)
                    less e,
              )))
      ]

  -- From every state that a pool reaches, with workers, a queue with room for a job, clients whose
  -- slots are free at first and no domain limits: however many calls still arrive, blocking or of a
  -- batch, as long as they are finitely many, and however the callers, the workers, the ends of contexts
  -- and `Close` take turns, after finitely many steps every call is done, and `Stop` has returned if
  -- `Close` has begun. Until then some worker, some call or `Stop` can go on, without another call, the
  -- end of a context or the beginning of `Close`: nothing deadlocks.
  pub Reach-Settles :
      (m : ℕ) (s : Running L B E)
      → AreFree s0.clients
      → Unlimited s0.clients
      → 0 < length s0.clients
      → 0 < n
      → 0 < size
      → Reach lim brk s0 n size s
      → Settles lim brk m s
  Reach-Settles m s free u p hn hs re =
      settles (suc (all_left (rounds s0.selector.max_retries) m s)) m s free u p hn hs re
        (omega arith)
