-- ===== src/Client/Steps.antt =====
-- `recordSuccess` and `recordFailure` of internal/connection/client.go, one shared access at a time.
use mathlib.Core.Option
use rapid_proxy.Prelude.{Bool, true, Option, none, some, Int64, Clock, add64, leb64, if◌then◌else◌}
use rapid_proxy.Client.{ProxyClient, Outcome, transport_error, answered}
use rapid_proxy.Client.Interfaces.{CircuitBreaker}

-- Whether `Do` calls `recordFailure`.
abbrev pub is_failure : {E : Type 0} → Outcome E → Bool
is_failure (transport_error e) = true
is_failure (answered resp) = leb64 400 resp.status_code

abbrev pub error_of : {E : Type 0} → Outcome E → Option E
error_of (transport_error e) = some e
error_of (answered resp) = none

module _ {L B E : Type 0} where
  abbrev pub count_outcome : Outcome E → ProxyClient L B E → ProxyClient L B E
  count_outcome o c =
      if is_failure o
      then record c { failed_requests = add64 c.failed_requests 1 }
      else record c { success_requests = add64 c.success_requests 1 }

  abbrev pub stamp_outcome : Int64 → Outcome E → ProxyClient L B E → ProxyClient L B E
  stamp_outcome now o c =
      if is_failure o then record c { last_failure = now } else record c { last_success = now }

  abbrev pub note_error : Int64 → Option E → ProxyClient L B E → ProxyClient L B E
  note_error now none c = c
  note_error now (some e) c = record c { last_error = some (e, now) }

  abbrev pub tell_breaker :
      CircuitBreaker B E → Clock → Outcome E → ProxyClient L B E → ProxyClient L B E
  tell_breaker brk t o c =
      if is_failure o
      then record c {
        circuit_breaker = Option.map (brk.record_failure (error_of o) t) c.circuit_breaker;
      }
      else record c { circuit_breaker = Option.map (brk.record_success t) c.circuit_breaker }
