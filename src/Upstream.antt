-- ===== src/Upstream.antt =====
-- internal/types/upstream.go: one backend server with its circuit breaker. The atomic fields are
-- plain fields, and an operation is its run with no other goroutine in between, so that a
-- compare-and-swap finds the value that was loaded before it. 64-bit integers are bit patterns
-- (Prelude/Int64). Each call of time.Now() is an argument, in nanoseconds since 1970.
pub mod Breaker
pub mod Probing
pub mod Racing
use web_server.Prelude.{
  ℕ, ◌+◌, ◌-◌, ◌/◌, ◌%◌, Bool, true, false, List, not, leb, ltb, if◌then◌else◌, two_63, two_64, inc,
  dec, slt, sle,
}

-- The parts of *url.URL that the gateway reads.
pub record Url : Type 0 where
  pub scheme : List ℕ
  pub host : List ℕ

pub data CircuitState : Type 0 where
  circuit_closed circuit_open circuit_half_open : CircuitState

pub record Upstream : Type 0 where
  pub url : Url
  pub healthy : Bool
  pub active_conns : ℕ
  pub weight : ℕ
  pub failure_count : ℕ
  pub circuit_open_until : ℕ  -- Unix seconds
  pub circuit_state : CircuitState
  pub half_open_in_flight : ℕ
  pub cb_failure_threshold : ℕ
  pub cb_open_duration : ℕ  -- nanoseconds
  pub cb_half_open_requests : ℕ

-- time.Time.Unix, and time.Time.Add with a signed duration. An instant before 1970 reads as 1970.
abbrev pub unix : ℕ → ℕ
unix t = t / 1_000_000_000

abbrev pub time_add : ℕ → ℕ → ℕ
time_add t d = if ltb d two_63 then t + d else t + d - two_64

-- `CircuitOpen`.
abbrev blocked_in : CircuitState → ℕ → Upstream → Bool
blocked_in circuit_open now u = slt (unix now) u.circuit_open_until
blocked_in circuit_half_open now u = sle u.cb_half_open_requests u.half_open_in_flight
blocked_in circuit_closed now u = false

unfoldable pub is_circuit_open : ℕ → Upstream → Bool
is_circuit_open now u = blocked_in u.circuit_state now u

-- The limit on probes: at least one.
abbrev pub max_probes : Upstream → ℕ
max_probes u = if sle u.cb_half_open_requests 0 then 1 else u.cb_half_open_requests

-- The second half of `TryHalfOpen`, from `if state == CircuitHalfOpen` on.
abbrev take_probe : Upstream → Upstream × Bool
take_probe u =
    if sle (max_probes u) u.half_open_in_flight
    then (u, false)
    else (record u { half_open_in_flight = inc u.half_open_in_flight }, true)

abbrev try_in : CircuitState → ℕ → Upstream → Upstream × Bool
try_in circuit_open now u =
    if slt (unix now) u.circuit_open_until
    then (u, false)
    else take_probe (record u { circuit_state = circuit_half_open; half_open_in_flight = 0 })
try_in circuit_half_open now u = take_probe u
try_in circuit_closed now u = (u, false)

-- `TryHalfOpen`: the upstream afterwards, and whether the caller may send a probe.
unfoldable pub try_half_open : ℕ → Upstream → Upstream × Bool
try_half_open now u = try_in u.circuit_state now u

abbrev succeed_in : CircuitState → Upstream → Upstream
succeed_in circuit_half_open u = record u {
  half_open_in_flight = dec u.half_open_in_flight;
  circuit_state = circuit_closed;
  healthy = true;
}
succeed_in _ u = u

unfoldable pub record_success : Upstream → Upstream
record_success u = record (succeed_in u.circuit_state u) { failure_count = 0 }

-- `OpenCircuit`.
unfoldable pub open_circuit : ℕ → ℕ → Upstream → Upstream
open_circuit now d u = record u {
  circuit_open_until = unix (time_add now d);
  circuit_state = circuit_open;
}

-- The defaults at the head of `RecordFailure`.
abbrev pub threshold_of : Upstream → ℕ
threshold_of u = if sle u.cb_failure_threshold 0 then 3 else u.cb_failure_threshold

abbrev pub duration_of : Upstream → ℕ
duration_of u = if sle u.cb_open_duration 0 then 30_000_000_000 else u.cb_open_duration

abbrev leave_probe : CircuitState → Upstream → Upstream
leave_probe circuit_half_open u = record u { half_open_in_flight = dec u.half_open_in_flight }
leave_probe _ u = u

-- `RecordFailure`.
unfoldable pub record_failure : ℕ → Upstream → Upstream
unfolding open_circuit
record_failure now u =
    let n = inc u.failure_count in
    let counted = leave_probe u.circuit_state (record u { failure_count = n }) in
    if sle (threshold_of u) n
    then record (open_circuit now (duration_of u) (record counted { healthy = false })) {
      failure_count = 0;
    }
    else counted
