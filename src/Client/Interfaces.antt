-- ===== src/Client/Interfaces.antt =====
-- The interfaces `RateLimiter` and `CircuitBreaker` of internal/connection/client.go, as records of
-- operations on the implementation's state.
use rapid_proxy.Prelude.{ℕ, Bool, Option, Int64, Clock, List}
use rapid_proxy.TokenBucket.{Wake, Acquired}

pub record RateLimiter (L E : Type 0) : Type 0 where
  pub try_acquire : Int64 → L → L × Bool
  pub acquire : List (Int64 × Wake E) → L → L × Acquired E

pub record CircuitBreaker (B E : Type 0) : Type 0 where
  pub record_success : Clock → B → B
  pub record_failure : Option E → Clock → B → B
  pub is_healthy : Int64 → B → Bool
  pub get_state : B → ℕ
