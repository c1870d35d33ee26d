-- ===== src/Pool/Batch.antt =====
-- `DoBatchWithContext` of rapidproxy/pool.go. Before each submission of the batch, other goroutines act
-- on the queue: workers take jobs, other callers submit theirs, `Stop` cancels the context and closes
-- the channel. Each job that was accepted is awaited: what its goroutine's `select` meets first is an
-- argument.
use rapid_proxy.Prelude.{
  ℕ, ◌+◌, ◌≤◌, ◌<◌, ◌≡◌, ◌≢◌, refl, sym, ap, ◌∙◌, arith, false, Option, none, some, List, [], ◌∷◌,
  ◌++◌, map, length, length-append, All,
}
use mathlib.Core.List.{append_assoc, append-nil}
use rapid_proxy.Worker.Queue.{
  Queue, Sent, accepted, queue_full, panicked, push, submit, cancel, close_jobs,
}

pub data Awaited (R E : Type 0) : Type 0 where
  finished : R → Awaited R E
  context_done : E → Awaited R E
  closed : Awaited R E

pub data BatchResult (R E : Type 0) : Type 0 where
  received : R → BatchResult R E
  context_error : E → BatchResult R E
  pool_closed rejected : BatchResult R E

-- What another goroutine does to the queue. A worker finds the queue empty or takes its oldest job,
-- another caller's job is sent if the queue takes it.
pub data Meanwhile (J : Type 0) : Type 0 where
  job_taken : Meanwhile J
  job_sent : J → Meanwhile J
  context_cancelled queue_closed : Meanwhile J

-- A request of a batch: its job, what the others do before it is submitted, and what is awaited.
pub record Request (J R E : Type 0) : Type 0 where
  pub job : J
  pub before : List (Meanwhile J)
  pub awaited : Awaited R E

module _ {J : Type 0} where
  unfoldable pub without_first : List J → List J
  without_first [] = []
  without_first (j ∷ js) = js

  unfoldable pub meanwhile : List (Meanwhile J) → Queue J → Queue J
  meanwhile [] q = q
  meanwhile (job_taken ∷ es) q = meanwhile es (record q { jobs = without_first q.jobs })
  meanwhile (job_sent j ∷ es) q = meanwhile es (submit j q).0
  meanwhile (context_cancelled ∷ es) q = meanwhile es (cancel q)
  meanwhile (queue_closed ∷ es) q =
      meanwhile es (elim (close_jobs q) [ none ↦ q | some closed_queue ↦ closed_queue ])

  -- The jobs of the other callers, and how many jobs the workers ask for.
  unfoldable pub jobs_sent : List (Meanwhile J) → List J
  jobs_sent [] = []
  jobs_sent (job_sent j ∷ es) = j ∷ jobs_sent es
  jobs_sent (job_taken ∷ es) = jobs_sent es
  jobs_sent (context_cancelled ∷ es) = jobs_sent es
  jobs_sent (queue_closed ∷ es) = jobs_sent es

  unfoldable pub jobs_taken : List (Meanwhile J) → ℕ
  jobs_taken [] = 0
  jobs_taken (job_sent j ∷ es) = jobs_taken es
  jobs_taken (job_taken ∷ es) = 1 + jobs_taken es
  jobs_taken (context_cancelled ∷ es) = jobs_taken es
  jobs_taken (queue_closed ∷ es) = jobs_taken es

  -- From `js`, with `added` at the end, at most `n` jobs have gone from the front.
  abbrev pub Moved : ℕ → List J → List J → List J → Type 0
  Moved n js added js' = (gone : List J) × (gone ++ js' ≡ js ++ added) × (length gone ≤ n)

  Moved-trans :
      (n m : ℕ) (a x b y c : List J) → Moved n a x b → Moved m b y c → Moved (n + m) a (x ++ y) c
  Moved-trans n m a x b y c (g, e, l) (g', e', l') = (
    g ++ g',
    append_assoc g g' c
        ∙ ap (λ z. g ++ z) e'
        ∙ sym (append_assoc g b y)
        ∙ ap (λ z. z ++ y) e
        ∙ append_assoc a x y,
    omega (arith, length-append g g', l, l'),
  )

  Moved-push :
      (n : ℕ) (a : List J) (j : J) (y c : List J) → Moved n (a ++ j ∷ []) y c → Moved n a (j ∷ y) c
  Moved-push n a j y c (g, e, l) = (g, e ∙ append_assoc a (j ∷ []) y, l)

  Moved-without_first : (js : List J) → Moved 1 js [] (without_first js)
  unfolding without_first
  Moved-without_first [] = ([], refl, omega arith)
  Moved-without_first (j ∷ js) = (j ∷ [], sym (append-nil (j ∷ js)), omega arith)

  Moved-length : (n : ℕ) (a x b : List J) → Moved n a x b → length b ≤ length a + length x
  Moved-length n a x b (g, e, l) = omega (arith, length-append g b, length-append a x, ap length e)

  submit-open :
      (j : J) (q : Queue J)
      → q.closed ≡ false
      → length q.jobs < q.capacity
      → submit j q ≡ (push j q, accepted)
  unfolding submit
  submit-open j q open_q h = ground arith

  meanwhile-Moved :
      (es : List (Meanwhile J)) (q : Queue J)
      → q.closed ≡ false
      → All (λ e. e ≢ queue_closed) es
      → length q.jobs + length (jobs_sent es) ≤ q.capacity
      → Moved (jobs_taken es) q.jobs (jobs_sent es) (meanwhile es q).jobs
        × ((meanwhile es q).closed ≡ false)
        × ((meanwhile es q).capacity ≡ q.capacity)
  unfolding meanwhile jobs_sent jobs_taken cancel
  meanwhile-Moved [] q o h l = (([], sym (append-nil q.jobs), omega arith), o, refl)
  meanwhile-Moved (job_taken ∷ es) q o h l =
      let q1 = record q { jobs = without_first q.jobs } in
      let first = Moved-without_first q.jobs in
      let shorter = Moved-length 1 q.jobs [] q1.jobs first in
      let (moved, o', c) = meanwhile-Moved es q1 o h.1 (omega (arith, shorter, l)) in
      (Moved-trans 1 (jobs_taken es) q.jobs [] q1.jobs _ _ first moved, o', c)
  meanwhile-Moved (job_sent j ∷ es) q o h l =
      let sent = ap (λ (x : Queue J × Sent). x.0) (submit-open j q o (omega (arith, l))) in
      let longer = length-append q.jobs (j ∷ []) in
      let (moved, o', c) = meanwhile-Moved es (push j q) o h.1 (omega (arith, longer, l)) in
      rw (sent, meanwhile) (Moved-push (jobs_taken es) q.jobs j (jobs_sent es) _ moved, o', c)
  meanwhile-Moved (context_cancelled ∷ es) q o h l = meanwhile-Moved es (cancel q) o h.1 l
  meanwhile-Moved (queue_closed ∷ es) q o h l = absurd (h.0 refl)

module _ {R E : Type 0} where
  unfoldable pub collect : Awaited R E → BatchResult R E
  collect (finished r) = received r
  collect (context_done e) = context_error e
  collect closed = pool_closed

  -- The result of a request, as its submission went.
  unfoldable pub result_of : Awaited R E → Sent → BatchResult R E
  result_of a accepted = collect a
  result_of a queue_full = rejected
  result_of a panicked = rejected

module _ {J R E : Type 0} where
  -- `none`: the send has panicked.
  unfoldable pub do_batch :
      List (Request J R E) → Queue J → Option (Queue J × List (BatchResult R E))
  do_batch [] q = some (q, [])
  do_batch (r ∷ rs) q =
      let (q', sent) = submit r.job (meanwhile r.before q) in
      let rest = do_batch rs q' in
      elim sent [
        | panicked ↦ none
        | accepted ↦ elim rest [
          | none ↦ none
          | some (q2, out) ↦ some (q2, result_of r.awaited accepted ∷ out)
        ]
        | queue_full ↦ elim rest [
          | none ↦ none
          | some (q2, out) ↦ some (q2, result_of r.awaited queue_full ∷ out)
        ]
      ]

  -- All jobs that are sent while the batch is, in order, and how many the workers ask for.
  unfoldable pub all_sent : List (Request J R E) → List J
  all_sent [] = []
  all_sent (r ∷ rs) = jobs_sent r.before ++ r.job ∷ all_sent rs

  unfoldable pub all_taken : List (Request J R E) → ℕ
  all_taken [] = 0
  all_taken (r ∷ rs) = jobs_taken r.before + all_taken rs

  -- A batch on an open queue that nobody closes meanwhile, with room for its jobs and those that other
  -- callers send before its last one, whether or not the context is cancelled: it does not panic, and no
  -- request is rejected, so the results are those awaited, in the requests' order. Every job of the
  -- batch and of the other callers is queued, in the order of the submissions, and none has left
  -- the queue but from its front and to a worker that asked for one.
  pub do_batch-fits :
      (rs : List (Request J R E)) (q : Queue J)
      → q.closed ≡ false
      → All (λ r. All (λ e. e ≢ queue_closed) r.before) rs
      → length q.jobs + length (all_sent rs) ≤ q.capacity
      → (q' : Queue J) × (do_batch rs q ≡ some (q', map (λ r. collect r.awaited) rs))
        × Moved (all_taken rs) q.jobs (all_sent rs) q'.jobs
  unfolding do_batch result_of all_sent all_taken
  do_batch-fits [] q o h l = (q, refl, ([], sym (append-nil q.jobs), omega arith))
  do_batch-fits (r ∷ rs) q o h l =
      let sizes = length-append (jobs_sent r.before) (r.job ∷ all_sent rs) in
      let (moved, o1, c1) = meanwhile-Moved r.before q o h.0 (omega (arith, sizes, l)) in
      let q1 = meanwhile r.before q in
      let small = Moved-length _ q.jobs (jobs_sent r.before) q1.jobs moved in
      let grown = length-append q1.jobs (r.job ∷ []) in
      let sent = submit-open r.job q1 o1 (omega (arith, sizes, l, small, c1)) in
      let (q2, e, rest) =
        do_batch-fits rs (push r.job q1) o1 h.1 (omega (arith, sizes, l, small, grown, c1)) in
      (
        q2,
        rw
            (
              ap (λ (x : Queue J × Sent). x.1) sent,
              ap (λ (x : Queue J × Sent). x.0) sent,
              e,
              do_batch,
            )
            refl,
        Moved-trans _ (all_taken rs) q.jobs (jobs_sent r.before) q1.jobs _ _ moved
            (Moved-push (all_taken rs) q1.jobs r.job (all_sent rs) q2.jobs rest),
      )
