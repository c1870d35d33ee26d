-- ===== src/Config/Validity.antt =====
-- What a validated configuration guarantees, and what the defaults can still change.
use rapid_proxy.Prelude.{◌<◌, ◌≡◌, ◌↔◌, ◌^◌, arith, false, none, IsPositive, IsNonneg, length}
use rapid_proxy.Floats.{Float64}
use rapid_proxy.Config.{Config, validate, apply_defaults, zero_float, one_float}

-- The int64 fields that `Validate` tests are patterns of one.
pub record InRange {F : Type 0} (c : Config F) : Type 0 where
  pub workers_range : c.num_workers < 2 ^ 64
  pub queue_range : c.queue_size < 2 ^ 64
  pub rate_range : c.rate_limit_per_proxy < 2 ^ 64
  pub concurrent_range : c.max_concurrent_per_proxy < 2 ^ 64

module _ {F : Type 0} (fl : Float64 F) where
  pub record IsValid (c : Config F) : Type 0 where
    pub some_proxy : 0 < length c.proxy_urls
    pub workers_positive : IsPositive c.num_workers
    pub queue_positive : IsPositive c.queue_size
    pub rate_positive : IsPositive c.rate_limit_per_proxy
    pub failure_positive : fl.leb c.failure_threshold (zero_float fl) ≡ false
    pub failure_at_most_one : fl.ltb (one_float fl) c.failure_threshold ≡ false
    pub degraded_positive : fl.leb c.degraded_threshold (zero_float fl) ≡ false
    pub degraded_at_most_one : fl.ltb (one_float fl) c.degraded_threshold ≡ false
    pub concurrent_nonneg : IsNonneg c.max_concurrent_per_proxy
    pub thresholds_apart : fl.leb c.failure_threshold c.degraded_threshold ≡ false

  pub validate_sound : (c : Config F) → InRange c → validate fl c ≡ none → IsValid c
  unfolding validate
  validate_sound c r h = ground arith

  pub validate_complete : (c : Config F) → IsValid c → validate fl c ≡ none
  unfolding validate
  validate_complete c v = ground arith

  -- `Validate` accepts a configuration whose integers are int64 patterns exactly if it is valid.
  pub validate_iff : (c : Config F) → InRange c → (validate fl c ≡ none) ↔ IsValid c
  validate_iff c r = (validate_sound c r, validate_complete c)

  pub defaults_unused :
      (c : Config F)
      → IsValid c
      → let d = apply_defaults fl c in
        (d.num_workers ≡ c.num_workers)
        × (d.queue_size ≡ c.queue_size)
        × (d.rate_limit_per_proxy ≡ c.rate_limit_per_proxy)
        × (d.failure_threshold ≡ c.failure_threshold)
        × (d.degraded_threshold ≡ c.degraded_threshold)
  unfolding apply_defaults
  defaults_unused c v = ground (
    arith,
    fl.le_of_eq c.failure_threshold (zero_float fl),
    fl.le_of_eq c.degraded_threshold (zero_float fl),
  )

  apply_defaults-IsValid : (c : Config F) → IsValid c → IsValid (apply_defaults fl c)
  unfolding apply_defaults
  apply_defaults-IsValid c v = ground (
    arith,
    fl.le_of_eq c.failure_threshold (zero_float fl),
    fl.le_of_eq c.degraded_threshold (zero_float fl),
  )

  -- For a configuration whose integers are int64 patterns and that `Validate` has accepted,
  -- `ApplyDefaults` leaves the workers, the queue, the rate limit and both thresholds as they are,
  -- and its result passes `Validate` again.
  pub validated_defaults :
      (c : Config F)
      → InRange c
      → validate fl c ≡ none
      → let d = apply_defaults fl c in
        (d.num_workers ≡ c.num_workers)
        × (d.queue_size ≡ c.queue_size)
        × (d.rate_limit_per_proxy ≡ c.rate_limit_per_proxy)
        × (d.failure_threshold ≡ c.failure_threshold)
        × (d.degraded_threshold ≡ c.degraded_threshold)
        × (validate fl d ≡ none)
  validated_defaults c r h =
      let v = validate_sound c r h in
      let (w, q, l, f, g) = defaults_unused c v in
      (w, q, l, f, g, validate_complete (apply_defaults fl c) (apply_defaults-IsValid c v))
