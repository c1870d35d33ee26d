-- ===== src/CircuitBreaker/Race/Dead.antt =====
-- A dead breaker under racing failures.
use rapid_proxy.Prelude.{
  ℕ, zero, suc, ◌≡◌, ◌∙◌, refl, arith, true, List, [], ◌∷◌, Int64, Clock, sub64, ltb64, get_elem?,
  set, All, All-get_elem?, Option-cases, inl, inr,
}
use rapid_proxy.Floats.{Float64}
use rapid_proxy.CircuitBreaker.{CircuitBreaker, state_dead, is_healthy, can_attempt_recovery}
use rapid_proxy.CircuitBreaker.Race.{
  should_trip, should_degrade, should_recover, Pc, telling, telling_failure, stamping_failure,
  stamping_success, checking, counting, rating, dividing, swapping, changing, resetting_requests,
  resetting_failures, returned, move, System, step, run,
}

-- A call of `RecordFailure` that has not found the breaker healthy in `shouldDegrade`, and is not between
-- the swap of the state and the store of the time of the change.
abbrev pub IsQuiet : Pc → Type 0
IsQuiet (telling f) = f ≡ true
IsQuiet telling_failure = Unit {0}
IsQuiet stamping_failure = Unit {0}
IsQuiet (checking should_degrade) = Unit {0}
IsQuiet (counting should_trip) = Unit {0}
IsQuiet (rating should_trip) = Unit {0}
IsQuiet (dividing should_trip n) = Unit {0}
IsQuiet (swapping s) = s ≡ state_dead
IsQuiet returned = Unit {0}
IsQuiet _ = ⊥

module _ {F : Type 0} (fl : Float64 F) where
  -- Dead since the same time, with the same wait.
  record Same (cb cb' : CircuitBreaker F) : Type 0 where
    dead : cb'.state ≡ state_dead
    since : cb'.last_state_change ≡ cb.last_state_change
    wait : cb'.recovery_timeout ≡ cb.recovery_timeout

  move-IsQuiet :
      (t : Clock) (p : Pc) (cb : CircuitBreaker F)
      → cb.state ≡ state_dead
      → IsQuiet p
      → Same cb (move fl t p cb).0 × IsQuiet (move fl t p cb).1
  unfolding move
  move-IsQuiet t (telling f) cb d q = (record { dead = d; since = refl; wait = refl }, rw q tt)
  move-IsQuiet t telling_failure cb d q = (record { dead = d; since = refl; wait = refl }, tt)
  move-IsQuiet t stamping_failure cb d q = (record { dead = d; since = refl; wait = refl }, tt)
  move-IsQuiet t (checking should_degrade) cb d q =
      (record { dead = d; since = refl; wait = refl }, rw d tt)
  move-IsQuiet t (counting should_trip) cb d q =
      (record { dead = d; since = refl; wait = refl }, ground arith)
  move-IsQuiet t (rating should_trip) cb d q =
      (record { dead = d; since = refl; wait = refl }, ground arith)
  move-IsQuiet t (dividing should_trip n) cb d q =
      (record { dead = d; since = refl; wait = refl }, ground arith)
  move-IsQuiet t (swapping s) cb d q =
      (record { dead = q; since = refl; wait = refl }, rw (d, q) tt)
  move-IsQuiet t returned cb d q = (record { dead = d; since = refl; wait = refl }, tt)
  move-IsQuiet t (checking should_trip) cb d q = absurd q
  move-IsQuiet t (checking should_recover) cb d q = absurd q
  move-IsQuiet t (counting should_degrade) cb d q = absurd q
  move-IsQuiet t (counting should_recover) cb d q = absurd q
  move-IsQuiet t (rating should_degrade) cb d q = absurd q
  move-IsQuiet t (rating should_recover) cb d q = absurd q
  move-IsQuiet t (dividing should_degrade n) cb d q = absurd q
  move-IsQuiet t (dividing should_recover n) cb d q = absurd q
  move-IsQuiet t stamping_success cb d q = absurd q
  move-IsQuiet t (changing s) cb d q = absurd q
  move-IsQuiet t resetting_requests cb d q = absurd q
  move-IsQuiet t resetting_failures cb d q = absurd q

  All-set :
      (ps : List Pc) (i : ℕ) (p : Pc)
      → All (λ x. IsQuiet x) ps
      → IsQuiet p
      → All (λ x. IsQuiet x) (set ps i p)
  All-set [] i p a q = tt
  All-set (x ∷ ps) zero p a q = (q, a.1)
  All-set (x ∷ ps) (suc i) p a q = (a.0, All-set ps i p a.1 q)

  run-Same :
      (xs : List (ℕ × Clock)) (s : System F)
      → s.breaker.state ≡ state_dead
      → All (λ p. IsQuiet p) s.calls
      → Same s.breaker (run fl xs s).breaker
  unfolding run step
  run-Same [] s d q = record { dead = d; since = refl; wait = refl }
  run-Same ((i, t) ∷ xs) s d q = elim (Option-cases (get_elem? s.calls i)) [
    | inl e ↦ rw (e, run, step) (run-Same xs s d q)
    | inr (p, e) ↦
        let (same, quiet) =
          move-IsQuiet t p s.breaker d (All-get_elem? (λ x. IsQuiet x) s.calls i p q e) in
        let later =
          run-Same xs
            (record {
              breaker = (move fl t p s.breaker).0;
              calls = set s.calls i (move fl t p s.breaker).1;
            })
            same.dead (All-set s.calls i _ q quiet) in
        rw (e, run, step)
          (record {
            dead = later.dead;
            since = later.since ∙ same.since;
            wait = later.wait ∙ same.wait;
          })
  ]

  -- Any number of racing calls of `RecordFailure`, none of which has found the breaker healthy in
  -- `shouldDegrade`, or has swapped the state and not yet stored the time of that change, leave a dead
  -- breaker dead, under any interleaving, and do not start its wait again: it admits requests exactly
  -- when more than the recovery timeout has passed since the change that was stored last.
  pub run-dead :
      (xs : List (ℕ × Clock)) (s : System F) (now : Int64)
      → s.breaker.state ≡ state_dead
      → All (λ p. IsQuiet p) s.calls
      → ((run fl xs s).breaker.state ≡ state_dead)
        × (is_healthy now (run fl xs s).breaker
            ≡ ltb64 s.breaker.recovery_timeout (sub64 now s.breaker.last_state_change))
  unfolding is_healthy can_attempt_recovery
  run-dead xs s now d q = let v = run-Same xs s d q in (v.dead, rw (v.dead, v.since, v.wait) refl)
