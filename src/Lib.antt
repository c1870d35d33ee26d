-- ===== src/Lib.antt =====
-- rapid-proxy: requests over a pool of HTTP proxies, each with a token bucket, a circuit breaker, a
-- number of concurrency slots and limits per domain. A caller hands requests to the pool
-- (rapidproxy/pool.go), which queues them as jobs; a worker takes a job (internal/worker), asks the
-- selector for a proxy (internal/selector), sends the request through that proxy's client
-- (internal/connection) and returns the result. The selector skips proxies whose breaker
-- (internal/health) is dead, whose slots are taken, or whose bucket (internal/ratelimit) is empty.
--
-- Which file models what:
--   Prelude         lists, maps and options, the tests on numbers, and int64 as bit patterns: a number
--                   below 2 ^ 64, with wrap-around and signed order written out
--   Floats          float64, a parameter: its operations, with three laws of its comparisons
--   Transport       internal/connection/transport.go: an http.Transport is the record that NewTransport
--                   fills in; setsockopt and RawConn.Control are parameters
--   TokenBucket     internal/ratelimit/token_bucket.go: TryAcquire is try_acquire, maybeRefill is
--                   maybe_refill, Acquire is acquire. One goroutine; TokenBucket.Race has TryAcquire as
--                   a machine that makes one access to shared memory at each step, any number of calls
--                   interleaved by an explicit schedule
--   DomainLimiter   internal/ratelimit/domain_limiter.go
--   SlidingWindow   internal/ratelimit/sliding_window.go; SlidingWindow.Refine and SlidingWindow.Window
--                   compare it with the list of the events
--   CircuitBreaker  internal/health/circuit_breaker.go; CircuitBreaker.Race has RecordFailure and
--                   RecordSuccess as a machine that makes one access to what they share at each step, where
--                   a whole operation of a window counts as one access; CircuitBreaker.Events has
--                   sequences of both calls
--   Client          internal/connection/client.go; Client.Interfaces holds its two interfaces, which the
--                   selector and the worker take as parameters and Pool fills; Client.Steps has what is
--                   recorded of an outcome access by access, for Worker.Race
--   Selector        internal/selector/selector.go: Select is select, one round of its loop try_client
--   Worker          internal/worker/job.go and executeJob of internal/worker/pool.go. Worker.Race has
--                   executeJob with Select in it as a machine that makes one access to what the jobs
--                   share at each step, any number of jobs interleaved by an explicit schedule.
--                   Worker.Queue has the job queue, Worker.Shutdown the workers' loops and Stop, both as
--                   step relations
--   Config          rapidproxy/config.go
--   Manager         internal/connection/manager.go, and internal/metrics/stats.go; Manager.Lifecycle has
--                   the cleanup goroutine and Close as a step relation, Manager.Setters is about
--                   SetRateLimiter and SetRateLimiters
--   Pool            rapidproxy/pool.go: New is new, DoWithContext is Pool.Request.do_with_context,
--                   DoBatchWithContext is Pool.Batch.do_batch, which is told what workers, other callers
--                   and Stop do to the queue before each of its submissions. Pool.Calls puts the parts
--                   together: any number of calls of DoWithContext and of requests of batches with their
--                   contexts, the queue and the workers of Worker.Shutdown, the jobs of Worker.Race and
--                   Close, as a step relation
--   Errors          rapidproxy/errors.go and rapidproxy/result.go, with the error values of
--                   internal/worker/pool.go and internal/selector/selector.go
--   Examples        concrete runs of the theorems
--
-- State is passed explicitly: an operation takes a record and returns the new one with its result. The
-- clock is an argument: an operation that reads it once takes the reading, one that reads it more often
-- takes a Clock, from the number of the reading to nanoseconds since the epoch. Durations and times are
-- int64 patterns. A nil pointer, interface or channel is `none`. A context is what it answers when it is
-- asked. The error of a failed call is a value of a parameter type.
--
-- No loop has fuel: each recurses on its data. Select's loop runs over its number of rounds, Acquire's
-- over the list of the wakes that it meets and is `waiting` at its end, which is no return of the call.
-- The compare-and-swap loops have one round where a goroutine is alone; in TokenBucket.Race a failed swap
-- goes back to the head of its loop. A schedule of TokenBucket.Race, CircuitBreaker.Race or Worker.Race is
-- a list of turns; Pool.Calls.Reach is any sequence of steps.
--
-- Not modelled: net/http and the sockets (a request's outcome is an argument), what url.Parse accepts (an
-- argument), the texts of formatted errors, the goroutines that wait for a batch's results (what each of
-- them meets first is an argument), getters that return a field, GetTransportStats (a constant). In
-- Worker.Race a call of a limiter or of a breaker is one access; of these, TryAcquire is taken apart in
-- TokenBucket.Race, RecordFailure and RecordSuccess in CircuitBreaker.Race, where the wait for the lock of
-- a window is left out: a step never blocks. In Pool.Calls the requests of a batch arrive one by one, Close
-- is called once, and its last part, the manager's Close, is in Manager.Lifecycle. A job queue of size zero, which Validate refuses, would hand jobs over without
-- holding them, and is not modelled. The programs under examples/ only call the library and print.
pub mod Prelude
pub mod Floats
pub mod Transport
pub mod TokenBucket
pub mod DomainLimiter
pub mod SlidingWindow
pub mod CircuitBreaker
pub mod Client
pub mod Config
pub mod Manager
pub mod Selector
pub mod Worker
pub mod Pool
pub mod Errors
pub mod Examples
