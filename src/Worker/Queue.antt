-- ===== src/Worker/Queue.antt =====
-- The job queue of internal/worker/pool.go: `Submit`, `SubmitBlocking`, `Stop` and the workers' loop
-- over a buffered channel. A send on a closed channel panics, and so does a second close.
use rapid_proxy.Prelude.{
  ℕ, ◌≤◌, ◌<◌, ◌≡◌, ◌⊎◌, refl, sym, ap, ◌∙◌, arith, Bool, true, false, Option, none, some, List, [],
  ◌∷◌, ◌++◌, length, length-append, ltb, if◌then◌else◌,
}
use mathlib.Core.List.{append_assoc}

pub record Config : Type 0 where
  pub num_workers : ℕ
  pub queue_size : ℕ

abbrev pub default_config : Config
default_config = record { num_workers = 100; queue_size = 1000 }

pub record Queue (J : Type 0) : Type 0 where
  pub jobs : List J
  pub capacity : ℕ
  pub closed : Bool
  pub ctx_done : Bool

pub data Sent : Type 0 where
  accepted queue_full panicked : Sent

module _ {J : Type 0} where
  unfoldable pub new_queue : ℕ → Queue J
  new_queue capacity = record { jobs = []; capacity = capacity; closed = false; ctx_done = false }

  -- The queue of `NewPool`, with the number of workers.
  abbrev pub new_pool : Option Config → Queue J × ℕ
  new_pool none = (new_queue default_config.queue_size, default_config.num_workers)
  new_pool (some config) = (new_queue config.queue_size, config.num_workers)

  abbrev pub push : J → Queue J → Queue J
  push j q = record q { jobs = q.jobs ++ j ∷ [] }

  unfoldable pub submit : J → Queue J → Queue J × Sent
  submit j q =
      if q.closed
      then (q, panicked)
      else (if ltb (length q.jobs) q.capacity then (push j q, accepted) else (q, queue_full))

  -- The first two steps of `Stop`; `none`: closing a closed channel panics.
  unfoldable pub cancel : Queue J → Queue J
  cancel q = record q { ctx_done = true }

  unfoldable pub close_jobs : Queue J → Option (Queue J)
  close_jobs q = if q.closed then none else some (record q { closed = true })

  -- Both, with nothing between them.
  unfoldable pub stop : Queue J → Option (Queue J)
  unfolding cancel close_jobs
  stop q = close_jobs (cancel q)

-- The ways in which `SubmitBlocking` can return: Go chooses among the cases that are ready, and a
-- send on a closed channel is ready.
pub data SubmitBlocking {J E : Type 0} (ctx : Option E) (q : Queue J) : Type 0 where
  sends : q.closed ≡ false → length q.jobs < q.capacity → SubmitBlocking ctx q
  send_panics : q.closed ≡ true → SubmitBlocking ctx q
  context_ends : (e : E) → ctx ≡ some e → SubmitBlocking ctx q
  pool_closed : q.ctx_done ≡ true → SubmitBlocking ctx q

-- A turn of a worker's loop: it returns since the context is done or the queue closed and empty, or
-- it takes the oldest job.
pub data Turn {J : Type 0} (q : Queue J) : Type 0 where
  returns : (q.ctx_done ≡ true) ⊎ ((q.closed ≡ true) × (q.jobs ≡ [])) → Turn q
  takes : (j : J) (rest : List J) → q.jobs ≡ j ∷ rest → Turn q

-- The queue with the jobs that it has accepted and those that workers have taken, oldest first.
pub record History (J : Type 0) : Type 0 where
  pub queue : Queue J
  pub submitted : List J
  pub taken : List J

-- One event at the queue, by any of the goroutines.
pub data Step {J : Type 0} (h h' : History J) : Type 0 where
  submits :
      (j : J)
      → (submit j h.queue).1 ≡ accepted
      → h' ≡ record {
        queue = (submit j h.queue).0;
        submitted = h.submitted ++ j ∷ [];
        taken = h.taken;
      }
      → Step h h'
  sends_blocking :
      (j : J)
      → h.queue.closed ≡ false
      → length h.queue.jobs < h.queue.capacity
      → h' ≡ record { queue = push j h.queue; submitted = h.submitted ++ j ∷ []; taken = h.taken }
      → Step h h'
  receives :
      (j : J) (rest : List J)
      → h.queue.jobs ≡ j ∷ rest
      → h' ≡ record {
        queue = record (h.queue) { jobs = rest };
        submitted = h.submitted;
        taken = h.taken ++ j ∷ [];
      }
      → Step h h'
  cancels :
      h' ≡ record { queue = cancel h.queue; submitted = h.submitted; taken = h.taken } → Step h h'
  closes :
      (q : Queue J)
      → h.queue.ctx_done ≡ true
      → close_jobs h.queue ≡ some q
      → h' ≡ record { queue = q; submitted = h.submitted; taken = h.taken }
      → Step h h'

pub data Reach {J : Type 0} (capacity : ℕ) : History J → Type 0 where
  begin :
      {h : History J}
      → h ≡ record { queue = new_queue capacity; submitted = []; taken = [] }
      → Reach capacity h
  next : {h h' : History J} → Reach capacity h → Step h h' → Reach capacity h'

pub record Inv {J : Type 0} (capacity : ℕ) (h : History J) : Type 0 where
  pub same_capacity : h.queue.capacity ≡ capacity
  pub bounded : length h.queue.jobs ≤ capacity
  pub fifo : h.submitted ≡ h.taken ++ h.queue.jobs
  pub shut : h.queue.closed ≡ true → h.queue.ctx_done ≡ true

-- The ways in which `Submit` can go.
pub submit_cases :
    {J : Type 0} (j : J) (q : Queue J)
    → ((q.closed ≡ false) × (length q.jobs < q.capacity) × (submit j q ≡ (push j q, accepted)))
      ⊎ ((submit j q ≡ (q, queue_full)) ⊎ ((q.closed ≡ true) × (submit j q ≡ (q, panicked))))
unfolding submit
submit_cases j q = ground arith

submit_accepted :
    {J : Type 0} (j : J) (q : Queue J)
    → (submit j q).1 ≡ accepted
    → (length q.jobs < q.capacity) × ((submit j q).0 ≡ push j q)
unfolding submit
submit_accepted j q e = ground arith

module _ {J : Type 0} {capacity : ℕ} where
  push-Inv :
      (j : J) (h : History J)
      → length h.queue.jobs < h.queue.capacity
      → Inv capacity h
      → Inv capacity
          (record { queue = push j h.queue; submitted = h.submitted ++ j ∷ []; taken = h.taken })
  push-Inv j h lt v = record {
    same_capacity = v.same_capacity;
    bounded = omega (arith, length-append h.queue.jobs (j ∷ []), v.same_capacity);
    fifo = rw v.fifo (append_assoc h.taken h.queue.jobs (j ∷ []));
    shut = v.shut;
  }

  pub Step-Inv : {h h' : History J} → Step h h' → Inv capacity h → Inv capacity h'
  unfolding cancel close_jobs
  Step-Inv {h} (submits j ok e) v =
      let (lt, same) = submit_accepted j h.queue ok in rw (e, same) (push-Inv j h lt v)
  Step-Inv {h} (sends_blocking j open_q lt e) v = rw e (push-Inv j h lt v)
  Step-Inv {h} (receives j rest q e) v = rw e (record {
    same_capacity = v.same_capacity;
    bounded = omega (arith, v.bounded, ap length q);
    fifo = v.fifo ∙ rw q (sym (append_assoc h.taken (j ∷ []) rest));
    shut = v.shut;
  })
  Step-Inv {h} (cancels e) v = rw e (ground arith)
  Step-Inv {h} (closes q d ok e) v = rw e (ground arith)

  -- In every reachable state the queue is within its capacity, closed only if its context is
  -- done, and the accepted jobs are those taken and then those queued, in the order of their
  -- submission: none is lost, doubled or overtaken.
  pub Reach-Inv : {h : History J} → Reach capacity h → Inv capacity h
  unfolding new_queue
  Reach-Inv (begin e) = rw e (ground arith)
  Reach-Inv (next r st) = Step-Inv st (Reach-Inv r)

abbrev pub is_panic : {J E : Type 0} {ctx : Option E} {q : Queue J} → SubmitBlocking ctx q → Bool
is_panic (send_panics h) = true
is_panic _ = false

-- Once the pool is stopped, `Submit` panics for every job, and `SubmitBlocking` can panic.
pub submit-stop :
    {J E : Type 0} (ctx : Option E) (j : J) (q q' : Queue J)
    → stop q ≡ some q'
    → ((submit j q').1 ≡ panicked) × ((b : SubmitBlocking ctx q') × (is_panic b ≡ true))
unfolding stop submit
submit-stop ctx j q q' e = (ground arith, (send_panics (ground arith), refl))
