-- ===== src/Manager/Lifecycle.antt =====
-- `startCleanup`, `cleanupLoop` and `Close` of internal/connection/manager.go, as steps of the
-- ticker, of the goroutine and of one call of `Close`. What a cleanup does is in the parent module.
pub mod Return
use rapid_proxy.Prelude.{
  ℕ, zero, suc, ◌+◌, ◌-◌, ◌<◌, ◌≡◌, ◌≢◌, refl, subst, arith, Bool, true, false, Option, none, some,
  Int64, le_zero64, ◌==◌, if◌then◌else◌, Bool-cases, inl, inr,
}

pub data Loop : Type 0 where
  absent selecting returned : Loop

-- Where a call of `Close` stands.
pub data Closer : Type 0 where
  open_ cancelled stopped waiting closed panicked : Closer

pub record Lifecycle : Type 0 where
  pub has_ticker : Bool
  pub ticker_stopped : Bool
  pub tick_pending : Bool  -- the ticker's channel holds one tick at most
  pub done_closed : Bool  -- `cleanupDone` is closed
  pub ctx_done : Bool
  pub wg : ℕ
  pub loop : Loop
  pub closer : Closer

-- A manager before `startCleanup`.
abbrev pub fresh : Lifecycle
fresh = record {
  has_ticker = false;
  ticker_stopped = false;
  tick_pending = false;
  done_closed = false;
  ctx_done = false;
  wg = 0;
  loop = absent;
  closer = open_;
}

unfoldable pub start_cleanup : Int64 → Lifecycle → Lifecycle
start_cleanup interval l =
    if le_zero64 interval
    then l
    else record l { has_ticker = true; wg = l.wg + 1; loop = selecting }

-- The next step of `Close`; `none` where it waits or has ended.
unfoldable pub close_step : Lifecycle → Closer → Option Lifecycle
close_step l open_ = some (record l { ctx_done = true; closer = cancelled })
close_step l cancelled = some (
    if l.has_ticker
    then record l { ticker_stopped = true; closer = stopped }
    else record l { closer = waiting })
close_step l stopped = some (
    if l.done_closed
    then record l { closer = panicked }
    else record l { done_closed = true; closer = waiting })
close_step l waiting = if l.wg == 0 then some (record l { closer = closed }) else none
close_step l closed = none
close_step l panicked = none

abbrev pub leave : Lifecycle → Lifecycle
leave l = record l { loop = returned; wg = l.wg - 1 }

pub data Step (l : Lifecycle) : Lifecycle → Type 0 where
  fires : l.has_ticker ≡ true → l.ticker_stopped ≡ false → Step l (record l { tick_pending = true })
  cleans : l.loop ≡ selecting → l.tick_pending ≡ true → Step l (record l { tick_pending = false })
  sees_done : l.loop ≡ selecting → l.done_closed ≡ true → Step l (leave l)
  sees_cancel : l.loop ≡ selecting → l.ctx_done ≡ true → Step l (leave l)
  closes : {l' : Lifecycle} → close_step l l.closer ≡ some l' → Step l l'

pub data Reach (interval : Int64) : Lifecycle → Type 0 where
  starts : Reach interval (start_cleanup interval fresh)
  next : {l l' : Lifecycle} → Reach interval l → Step l l' → Reach interval l'

abbrev pub running : Loop → ℕ
running selecting = 1
running _ = 0

-- What `Close` has done by a place in it.
abbrev pub Done : Lifecycle → Closer → Type 0
Done l open_ = l.done_closed ≡ false
Done l cancelled = (l.done_closed ≡ false) × (l.ctx_done ≡ true)
Done l stopped = (l.done_closed ≡ false) × (l.ctx_done ≡ true) × (l.ticker_stopped ≡ true)
Done l waiting =
    (l.ctx_done ≡ true)
    × (l.has_ticker ≡ true → l.ticker_stopped ≡ true)
    × (l.has_ticker ≡ true → l.done_closed ≡ true)
Done l closed = (l.wg ≡ 0) × (l.has_ticker ≡ true → l.done_closed ≡ true)
Done l panicked = ⊥

pub record Inv (l : Lifecycle) : Type 0 where
  pub counted : l.wg ≡ running l.loop
  pub done : Done l l.closer

fresh-Inv : (interval : Int64) → Inv (start_cleanup interval fresh)
unfolding start_cleanup
fresh-Inv interval = elim (Bool-cases (le_zero64 interval)) [
  | inl e ↦ rw (e, start_cleanup) (record { counted = refl; done = refl })
  | inr e ↦ rw (e, start_cleanup) (record { counted = refl; done = refl })
]

closes-Inv :
    (l l' : Lifecycle)
    → l.wg ≡ running l.loop
    → (c : Closer) → Done l c
    → close_step l c ≡ some l'
    → Inv l'
unfolding close_step
closes-Inv l l' n open_ d e =
    let q : record l { ctx_done = true; closer = cancelled } ≡ l' = cc in
    subst Inv q (record { counted = n; done = (d, refl) })
closes-Inv l l' n cancelled (d, x) e = elim (Bool-cases l.has_ticker) [
  | inl h ↦
      let q : record l { ticker_stopped = true; closer = stopped } ≡ l' = ground arith in
      subst Inv q (record { counted = n; done = (d, x, refl) })
  | inr h ↦
      let q : record l { closer = waiting } ≡ l' = ground arith in
      subst Inv q (record { counted = n; done = (x, (λ y. cc), (λ y. cc)) })
]
closes-Inv l l' n stopped (d, x, s) e =
    let q : record l { done_closed = true; closer = waiting } ≡ l' = ground arith in
    subst Inv q (record { counted = n; done = (x, (λ y. s), (λ y. refl)) })
closes-Inv l l' n waiting d e = elim (Bool-cases (l.wg == 0)) [
  | inl h ↦
      let q : record l { closer = closed } ≡ l' = ground arith in
      subst Inv q (record { counted = n; done = (ground arith, d.2) })
  | inr h ↦ cc (rw h at e)
]
closes-Inv l l' n closed d e = cc
closes-Inv l l' n panicked d e = cc

leave-Done : (l : Lifecycle) (c : Closer) → Done l c → Done (leave l) c
leave-Done l open_ d = d
leave-Done l cancelled d = d
leave-Done l stopped d = d
leave-Done l waiting d = d
leave-Done l closed d = (omega arith, d.1)
leave-Done l panicked d = d

tick-Done :
    (l : Lifecycle) (b : Bool) (c : Closer) → Done l c → Done (record l { tick_pending = b }) c
tick-Done l b open_ d = d
tick-Done l b cancelled d = d
tick-Done l b stopped d = d
tick-Done l b waiting d = d
tick-Done l b closed d = d
tick-Done l b panicked d = d

pub step-Inv : {l l' : Lifecycle} → Inv l → Step l l' → Inv l'
step-Inv {l = l} v (fires h s) = record {
  counted = v.counted;
  done = tick-Done l true l.closer v.done;
}
step-Inv {l = l} v (cleans h s) = record {
  counted = v.counted;
  done = tick-Done l false l.closer v.done;
}
step-Inv {l = l} v (sees_done h s) = record {
  counted = ground arith;
  done = leave-Done l l.closer v.done;
}
step-Inv {l = l} v (sees_cancel h s) = record {
  counted = ground arith;
  done = leave-Done l l.closer v.done;
}
step-Inv {l = l} {l' = l'} v (closes e) = closes-Inv l l' v.counted l.closer v.done e

pub Reach-Inv : {interval : Int64} {l : Lifecycle} → Reach interval l → Inv l
Reach-Inv {interval = interval} starts = fresh-Inv interval
Reach-Inv (next r s) = step-Inv (Reach-Inv r) s
