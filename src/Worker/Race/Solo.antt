-- ===== src/Worker/Race/Solo.antt =====
-- A job that runs alone, with a clock that stands still: what it reads, its system and its steps.
pub mod Rounds
pub mod Choosing
pub mod Serving
pub mod Equal
use Prim.Native.String.{String}
use rapid_proxy.Prelude.{
  ℕ, zero, suc, ◌+◌, ◌≤◌, ◌<◌, ◌≡◌, ◌≢◌, refl, sym, ap, subst, ◌∙◌, arith, Bool, true, false,
  Option, none, some, List, [], ◌∷◌, Int64, add64, ◌%◌, ltb, if◌then◌else◌, some_injective, set,
  get_elem?, get_elem?-set_self, length, length-set, Option-cases, Bool-cases, inl, inr, ◌⊎◌,
  lt→ltb, All-get_elem?,
}
use rapid_proxy.Client.{
  ProxyClient, Outcome, transport_error, answered, after_outcome, do_request,
  try_acquire_concurrency, release_concurrency,
}
use rapid_proxy.Client.Interfaces.{RateLimiter, CircuitBreaker}
use rapid_proxy.Selector.{
  rounds, Verdict, take, skip, block, try_client, check_limiter, give_back, breaker_passes,
  select_loop, select, Selection, selected, count_selection,
}
use rapid_proxy.Selector
use rapid_proxy.Selector.Frame.{get_elem?-lt, lt-get_elem?, select-Frame, select-in_range}
use rapid_proxy.Worker.Release.{Unlimited, execute_job-finishes}
use rapid_proxy.Worker.Race.Slots.{begin}
use rapid_proxy.Worker.{
  JobError, fail, after_select, with_client, limit_domain, Executed, release_slot, perform, State,
  Env, Result, all_proxies_busy, context_error, request_error, execute_job,
}
use rapid_proxy.Worker.Race.{
  result_at, failed_at, refusal, count_job, told, Input, Visit, checking, claiming, limiting,
  undoing, Serve, chosen, waiting, sleeping, cancelling, sending, in_flight, settling, releasing,
  Pc, queued, selecting, rotating, looping, visiting, serving, refusing, failing, ended, Job,
  System, visit, serve, at_client, settle, loop_head, move, step_job, step, run, new_job,
}

abbrev pub plus : ℕ → ℕ → ℕ
plus zero m = m
plus (suc n) m = suc (plus n m)

module _ {L B E : Type 0} where
  -- The state with `c` as client `idx`.
  abbrev pub at : ℕ → ProxyClient L B E → State L B E → State L B E
  at idx c s = record s { clients = set s.clients idx c }

pub set-set : {A : Type 0} (xs : List A) (i : ℕ) (x y : A) → set (set xs i x) i y ≡ set xs i y
set-set [] i x y = refl
set-set (z ∷ xs) zero x y = refl
set-set (z ∷ xs) (suc i) x y = ap (λ t. z ∷ t) (set-set xs i x y)

pub set-same :
    {A : Type 0} (xs : List A) (i : ℕ) (x : A) → get_elem? xs i ≡ some x → set xs i x ≡ xs
set-same [] i x e = refl
set-same (z ∷ xs) zero x e = ground arith
set-same (z ∷ xs) (suc i) x e = ap (λ t. z ∷ t) (set-same xs i x e)

module _ {L B E : Type 0} (lim : RateLimiter L E) (brk : CircuitBreaker B E) (now : Int64)
    (ctx : Option E) (outcome : Outcome E) (hostname : String) where
  abbrev pub still : Input E
  still = record { clock = λ k. now; ctx = ctx; outcome = outcome }

  -- The same as the environment of a job.
  abbrev pub env_of : Outcome E → Env E
  env_of o = record {
    ctx = λ k. ctx;
    select_clock = λ i k. now;
    hostname = hostname;
    waits = [];
    outcome = o;
    do_clock = λ k. now;
    start = now;
    finish = now;
  }

  abbrev pub one : Pc E → State L B E → System L B E
  one pc s = record {
    state = s;
    jobs = record { hostname = hostname; started = now; pc = pc } ∷ [];
  }

  abbrev pub alone : ℕ → List (ℕ × Input E)
  alone zero = []
  alone (suc n) = (0, still) ∷ alone n

  abbrev pub Goes : Pc E → State L B E → Pc E → State L B E → Type 0
  Goes pc s pc' s' = (n : ℕ) × (run lim brk (alone n) (one pc s) ≡ one pc' s')

  pub stays : (pc : Pc E) (s : State L B E) → Goes pc s pc s
  unfolding run
  stays pc s = (0, refl)

  pub goes :
      (pc pc1 pc' : Pc E) (s s1 s' : State L B E)
      → step lim brk (0, still) (one pc s) ≡ one pc1 s1
      → Goes pc1 s1 pc' s'
      → Goes pc s pc' s'
  unfolding run
  goes pc pc1 pc' s s1 s' e (n, g) = (suc n, ap (run lim brk (alone n)) e ∙ g)

  pub step-visit :
      (v : Visit) (start i idx : ℕ) (c : ProxyClient L B E) (s : State L B E)
      → idx < length s.clients
      → step lim brk (0, still) (one (visiting v start i idx) (at idx c s))
        ≡ one
            (visit lim brk still v start i idx c).1
            (at idx (visit lim brk still v start i idx c).0 s)
  unfolding step step_job move at_client
  step-visit v start i idx c s lt =
      let g = get_elem?-set_self s.clients idx c lt in
      let w = set-set s.clients idx c (visit lim brk still v start i idx c).0 in
      rw (g, at_client)
        (ap (λ cs. one (visit lim brk still v start i idx c).1 (record s { clients = cs })) w)

  pub run-alone_more :
      (n m : ℕ) (x : System L B E)
      → run lim brk (alone (plus n m)) x ≡ run lim brk (alone m) (run lim brk (alone n) x)
  unfolding run
  run-alone_more zero m x = refl
  run-alone_more (suc n) m x = run-alone_more n m (step lim brk (0, still) x)

  pub Goes-then :
      (pc pc1 pc' : Pc E) (s s1 s' : State L B E)
      → Goes pc s pc1 s1
      → Goes pc1 s1 pc' s'
      → Goes pc s pc' s'
  Goes-then pc pc1 pc' s s1 s' (n, e) (m, d) =
      (plus n m, run-alone_more n m (one pc s) ∙ (ap (run lim brk (alone m)) e ∙ d))
