-- ===== src/Examples/Calls.antt =====
-- A call of `DoWithContext` on a pool with two workers, whose job the first of them has taken, and a
-- request of a batch.
use rapid_proxy.Prelude.{ℕ, ◌≤◌, ◌≡◌, refl, arith, true, false, none, some, [], ◌∷◌, get_elem?}
use rapid_proxy.Floats.{Fraction, fractions}
use rapid_proxy.TokenBucket.{TokenBucket}
use rapid_proxy.CircuitBreaker.{CircuitBreaker}
use rapid_proxy.Worker.Queue.{submit, new_queue, sends, push}
use rapid_proxy.Worker.Race.{Job, new_job}
use rapid_proxy.Worker.Race.Arrivals.{with_job}
use rapid_proxy.Client.Slots.{Within, capacity_of}
use rapid_proxy.Worker.Race.Slots.{tally, holders}
use rapid_proxy.Worker.Shutdown.{Crew, busy, entering, looping, becomes, on_job, start, worker_turn}
use rapid_proxy.Pool.{Client, token_bucket_limiter, health_breaker}
use rapid_proxy.Pool.Calls.{
  Call, Running, Step, tries, rejected, awaiting, submitting, opened, arrives, submits, turns,
  Reach, opens, next,
}
use rapid_proxy.Pool.Calls.Queueing.{tickets}
use rapid_proxy.Pool.Calls.Placing.{Placed, Justified}
use rapid_proxy.Pool.Calls.Results.{Reach-calls}
use rapid_proxy.Pool.Calls.Slots.{active, Reach-slots}
use rapid_proxy.Pool.Calls.Settle.{Settles, Reach-Settles}
use rapid_proxy.Examples.Races.{proxy, state}

abbrev Breaker : Type 0
Breaker = CircuitBreaker Fraction

abbrev waiting : Call ℕ
waiting = record { blocking = true; ctx = none; stage = awaiting }

abbrev asked : Running TokenBucket Breaker ℕ
asked = record {
  race = record { state = state; jobs = new_job "example.com" ∷ [] };
  crew = start 2 1;
  calls = record { blocking = true; ctx = none; stage = submitting } ∷ [];
  ctx_done = false;
}

abbrev queued_crew : Crew ℕ
queued_crew = record (start 2 1) { queue = push 0 (new_queue 1) }

abbrev entered_crew : Crew ℕ
entered_crew = record (becomes 0 looping queued_crew) { active = 1 }

abbrev busy_crew : Crew ℕ
busy_crew = record (becomes 0 (busy 0) entered_crew) { queue = new_queue 1 }

abbrev sent : Running TokenBucket Breaker ℕ
sent = record asked { crew = queued_crew; calls = waiting ∷ [] }

abbrev entered : Running TokenBucket Breaker ℕ
entered = record sent { crew = entered_crew }

abbrev taken : Running TokenBucket Breaker ℕ
taken = record sent { crew = busy_crew }

taken-Reach : Reach token_bucket_limiter (health_breaker fractions) state 2 1 taken
unfolding opened start new_queue worker_turn
taken-Reach =
    next
      (next {s' = entered}
        (next {s' = sent} (next {s' = asked} opens (arrives "example.com" true refl)) (
          submits 0 (record { blocking = true; ctx = none; stage = submitting })
            (sends refl (omega arith)) refl refl refl refl))
        (turns on_job 0 entering entered_crew refl tt refl refl))
      (turns on_job 0 looping busy_crew refl tt refl refl)

-- A request of a batch, while the queue is full.
abbrev crowded : Running TokenBucket Breaker ℕ
crowded = record sent {
  race = with_job "example.org" sent.race;
  calls = waiting ∷ record { blocking = false; ctx = none; stage = submitting } ∷ [];
}

abbrev refused : Running TokenBucket Breaker ℕ
refused = record crowded {
  calls = waiting ∷ record { blocking = false; ctx = none; stage = rejected } ∷ [];
}

refused-Step : Step token_bucket_limiter (health_breaker fractions) crowded refused
unfolding submit new_queue start
refused-Step =
    tries 1 (record { blocking = false; ctx = none; stage = submitting }) refl refl refl refl

Reach-calls_example :
    (job : Job ℕ) × (get_elem? taken.race.jobs 0 ≡ some job)
    × Placed waiting.stage (tickets 0 taken.crew) job.pc
    × Justified waiting.stage waiting.ctx job.pc taken.crew.queue taken.ctx_done
    × (taken.crew.queue.closed ≡ true → taken.ctx_done ≡ true)
    × (taken.crew.queue.ctx_done ≡ true → taken.ctx_done ≡ true)
Reach-calls_example =
    Reach-calls token_bucket_limiter (health_breaker fractions) 0 waiting taken-Reach refl

Reach-Settles_example : Settles token_bucket_limiter (health_breaker fractions) 3 taken
Reach-Settles_example =
    Reach-Settles token_bucket_limiter (health_breaker fractions) 3 taken ((refl, omega arith), tt)
      (refl, tt) (omega arith) (omega arith) (omega arith) taken-Reach

Reach-slots_example :
    (tally active taken.race.jobs ≤ 2)
    × (holders 0 taken.race.jobs ≤ tally active taken.race.jobs)
    × ((c : Client Fraction ℕ) × (get_elem? state.clients 0 ≡ some c)
        × (capacity_of proxy.concurrency_sem ≡ capacity_of c.concurrency_sem)
        × Within (holders 0 taken.race.jobs) proxy.concurrency_sem)
Reach-slots_example =
    Reach-slots token_bucket_limiter (health_breaker fractions) 0 proxy ((refl, omega arith), tt)
      taken-Reach refl
