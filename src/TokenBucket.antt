-- ===== src/TokenBucket.antt =====
-- internal/ratelimit/token_bucket.go, as one goroutine sees it: a compare-and-swap that no other
-- goroutine disturbs succeeds at its first round. `now` is the operation's reading of the clock.
pub mod Bounds
pub mod Rate
pub mod Blocking
pub mod Race
use rapid_proxy.Floats.{Float64}
use rapid_proxy.Prelude.{
  Bool, true, false, Option, none, some, List, [], ◌∷◌, Int64, add64, sub64, mul64, div64,
  le_zero64, ltb64, leb64, nanos_per_sec, if◌then◌else◌,
}

pub record TokenBucket : Type 0 where
  pub capacity : Int64
  pub refill_rate : Int64
  pub tokens : Int64
  pub last_refill : Int64

abbrev default_capacity : Int64
default_capacity = 10

unfoldable pub new_token_bucket : Int64 → Int64 → Int64 → TokenBucket
new_token_bucket capacity refill_rate now =
    let c = if le_zero64 capacity then default_capacity else capacity in
    let r = if le_zero64 refill_rate then c else refill_rate in
    record { capacity = c; refill_rate = r; tokens = c; last_refill = now }

-- The loop that adds the tokens, up to the capacity.
abbrev pub add_tokens : Int64 → TokenBucket → TokenBucket
add_tokens new_tokens tb =
    let new_count = add64 tb.tokens new_tokens in
    record tb { tokens = if ltb64 tb.capacity new_count then tb.capacity else new_count }

-- `newTokens`, the tokens that the elapsed nanoseconds have earned.
unfoldable pub earned : Int64 → Int64 → Int64
earned elapsed refill_rate = div64 (mul64 elapsed refill_rate) nanos_per_sec

unfoldable pub maybe_refill : Int64 → TokenBucket → TokenBucket
maybe_refill now tb =
    let elapsed = sub64 now tb.last_refill in
    let new_tokens = earned elapsed tb.refill_rate in
    if le_zero64 elapsed
    then tb
    else (if le_zero64 new_tokens
        then tb
        else add_tokens new_tokens (record tb { last_refill = now }))

-- The loop of `TryAcquire`, after the refill.
abbrev pub take_token : TokenBucket → TokenBucket × Bool
take_token tb =
    if le_zero64 tb.tokens then (tb, false) else (record tb { tokens = sub64 tb.tokens 1 }, true)

unfoldable pub try_acquire : Int64 → TokenBucket → TokenBucket × Bool
try_acquire now tb = take_token (maybe_refill now tb)

-- What ends the wait between two attempts: the timer, or the context with its error.
pub data Wake (E : Type 0) : Type 0 where
  timer : Wake E
  ctx_done : E → Wake E

pub data Acquired (E : Type 0) : Type 0 where
  acquired : Acquired E
  cancelled : E → Acquired E
  waiting : Acquired E

-- One entry for each attempt: its reading of the clock, and how the wait after it ends, should the
-- attempt fail. When the list ends the call is still waiting.
unfoldable pub acquire :
    {E : Type 0} → List (Int64 × Wake E) → TokenBucket → TokenBucket × Acquired E
acquire [] tb = (tb, waiting)
acquire ((now, ctx_done e) ∷ rest) tb =
    let (tb', got) = try_acquire now tb in (tb', if got then acquired else cancelled e)
acquire ((now, timer) ∷ rest) tb =
    let tb' = (try_acquire now tb).0 in
    let again = acquire rest tb' in if (try_acquire now tb).1 then (tb', acquired) else again

unfoldable pub available : Int64 → TokenBucket → TokenBucket × Int64
available now tb = let tb' = maybe_refill now tb in (tb', tb'.tokens)

unfoldable pub reset : Int64 → TokenBucket → TokenBucket
reset now tb = record tb { tokens = tb.capacity; last_refill = now }

unfoldable pub set_capacity : Int64 → TokenBucket → TokenBucket
set_capacity capacity tb = if le_zero64 capacity then tb else (record tb {
  capacity = capacity;
  tokens = if leb64 tb.tokens capacity then tb.tokens else capacity;
})

unfoldable pub set_refill_rate : Int64 → TokenBucket → TokenBucket
set_refill_rate rate tb = if le_zero64 rate then tb else record tb { refill_rate = rate }

-- `AcquireWithTimeout`: the error in an attempt's `ctx_done` is that of the deadline. `none`: the
-- call is still waiting.
unfoldable pub acquire_with_timeout :
    {E : Type 0} → List (Int64 × Wake E) → TokenBucket → TokenBucket × Option Bool
unfolding acquire
acquire_with_timeout attempts tb =
    let (tb', got) = acquire attempts tb in
    (tb', elim got [ acquired ↦ some true | cancelled e ↦ some false | waiting ↦ none ])

pub record TokenBucketStats (F : Type 0) : Type 0 where
  pub capacity : Int64
  pub refill_rate : Int64
  pub available : Int64
  pub utilization : F
  pub last_refill : Int64

unfoldable pub stats :
    {F : Type 0} → Float64 F → Int64 → TokenBucket → TokenBucket × TokenBucketStats F
unfolding available
stats fl now tb =
    let (tb', n) = available now tb in
    (
      tb',
      record {
        capacity = tb'.capacity;
        refill_rate = tb'.refill_rate;
        available = n;
        utilization = fl.sub (fl.literal 1 1) (fl.div (fl.of_int n) (fl.of_int tb'.capacity));
        last_refill = tb'.last_refill;
      },
    )
