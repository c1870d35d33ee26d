-- ===== src/Manager/Lifecycle/Return.antt =====
-- The return of `Close`, and a second call of it.
use rapid_proxy.Prelude.{
  ℕ, zero, suc, ◌+◌, ◌<◌, ◌≡◌, ◌≢◌, refl, subst, arith, Bool, true, false, Option, none, some,
  Int64, ◌==◌, if◌then◌else◌, Bool-cases, inl, inr,
}
use rapid_proxy.Manager.Lifecycle.{
  Loop, absent, selecting, returned, open_, waiting, closed, panicked, Lifecycle, close_step, leave,
  Step, fires, cleans, sees_done, sees_cancel, closes, Reach, running, Done, Inv, step-Inv,
  Reach-Inv,
}

-- Every sequence of steps from `l` leads to the return of `Close`, and can go on until then.
pub data Returns : Lifecycle → Type 0 where
  now : {l : Lifecycle} → l.closer ≡ closed → Returns l
  later :
      {l : Lifecycle} (l1 : Lifecycle)
      → Step l l1
      → ((l' : Lifecycle) → Step l l' → Returns l')
      → Returns l

abbrev left_of : Lifecycle → ℕ
left_of l = running l.loop + (if l.tick_pending then 1 else 0)

waiting-Done : (l : Lifecycle) → Inv l → l.closer ≡ waiting → Done l waiting
waiting-Done l v p = subst (Done l) p v.done

waiting_step : (l : Lifecycle) → Inv l → l.closer ≡ waiting → (l1 : Lifecycle) × Step l l1
unfolding close_step
waiting_step l v p = elim (Bool-cases (l.wg == 0)) [
  | inl z ↦ (record l { closer = closed }, closes (rw p (ground arith)))
  | inr z ↦
      (leave l, sees_cancel (at_select l.loop (ground (arith, v.counted))) (waiting-Done l v p).0)
]
  where
    at_select : (x : Loop) → running x ≢ 0 → x ≡ selecting
    at_select absent h = absurd (h refl)
    at_select selecting h = refl
    at_select returned h = absurd (h refl)

closed_after : (l l' : Lifecycle) → close_step l waiting ≡ some l' → l'.closer ≡ closed
unfolding close_step
closed_after l l' e = ground arith

after_step :
    (l : Lifecycle)
    → Inv l
    → l.closer ≡ waiting
    → ((l' : Lifecycle) → left_of l' < left_of l → Inv l' → l'.closer ≡ waiting → Returns l')
    → (l' : Lifecycle) → Step l l'
    → Returns l'
unfolding close_step
after_step l v p again l' (fires x y) = let q = (waiting-Done l v p).1 x in cc
after_step l v p again l' (cleans x y) = again _ (ground arith) (step-Inv v (cleans x y)) p
after_step l v p again l' (sees_done x y) = again _ (ground arith) (step-Inv v (sees_done x y)) p
after_step l v p again l' (sees_cancel x y) =
    again _ (ground arith) (step-Inv v (sees_cancel x y)) p
after_step l v p again l' (closes e) = now (closed_after l l' (rw p at e))

waits : (n : ℕ) (l : Lifecycle) → left_of l < n → Inv l → l.closer ≡ waiting → Returns l
waits zero l h v p = absurd (omega arith)
waits (suc n) l h v p =
    let (l1, s) = waiting_step l v p in
    later l1 s (after_step l v p (λ l' m. waits n l' (omega (arith, m, h))))

-- From every state that a manager and one call of its `Close` can reach, with the call waiting for
-- the goroutine, the call returns after finitely many steps of whoever takes them; it never panics,
-- and when it has returned the goroutine no longer runs, so that no cleanup follows.
pub close-Returns :
    {interval : Int64} {l : Lifecycle}
    → Reach interval l
    → (l.closer ≡ waiting → Returns l)
      × (l.closer ≢ panicked)
      × (l.closer ≡ closed → l.loop ≢ selecting)
close-Returns {l = l} r =
    let v = Reach-Inv r in
    (
      waits (suc (left_of l)) l (omega arith) v,
      λ p. subst (Done l) p v.done,
      λ p q. let z = subst (Done l) p v.done in let w = z.0 in ground (arith, v.counted),
    )

abbrev or_stays : Lifecycle → Option Lifecycle → Lifecycle
or_stays l none = l
or_stays l (some l') = l'

-- `n` steps of the call, where it can take them.
unfoldable pub close_steps : ℕ → Lifecycle → Lifecycle
close_steps zero l = l
close_steps (suc n) l = close_steps n (or_stays l (close_step l l.closer))

second_close :
    (has stopped_ pending done cancelled_ : Bool) (n : ℕ) (loop : Loop)
    → n ≡ 0
    → (has ≡ true → done ≡ true)
    → (close_steps 3 (record {
      has_ticker = has;
      ticker_stopped = stopped_;
      tick_pending = pending;
      done_closed = done;
      ctx_done = cancelled_;
      wg = n;
      loop = loop;
      closer = open_;
    })).closer
      ≡ (if has then panicked else closed)
unfolding close_steps close_step
second_close true s p true c n x z h = refl
second_close true s p false c n x z h = cc (h refl)
second_close false s p d c zero x z h = refl
second_close false s p d c (suc n) x z h = absurd (omega arith)

-- On a manager that a first call of `Close` has closed, a second call panics on the closed channel
-- if the cleanup was on, and returns again if it was off.
pub close_steps-again :
    {interval : Int64} {l : Lifecycle}
    → Reach interval l
    → l.closer ≡ closed
    → (close_steps 3 (record l { closer = open_ })).closer
      ≡ (if l.has_ticker then panicked else closed)
close_steps-again {l = l} r p =
    let z = subst (Done l) p (Reach-Inv r).done in
    second_close l.has_ticker l.ticker_stopped l.tick_pending l.done_closed l.ctx_done l.wg l.loop
      z.0 z.1
