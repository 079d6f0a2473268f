-- ===== src/Upstream/Probing.antt =====
-- What an open circuit lets through: nothing before its time, then a bounded number of probes.
use web_server.Prelude.{
  not, ◌≢◌, ◌↔◌, IsPositive, inc, false, sle, slt, true, ℕ, ◌+◌, ◌-◌, ◌≤◌, ◌<◌, ◌≡◌, List, [], ◌∷◌,
  arith, if◌then◌else◌, length, two_63, min,
}
use web_server.Upstream.{
  duration_of, threshold_of, circuit_closed, is_circuit_open, circuit_open, unix, record_success,
  record_failure, time_add, Upstream, circuit_half_open, try_half_open, max_probes,
}

-- One attempt to send a probe at each of these times: the upstream afterwards, and how many
-- attempts were let through.
pub attempts : List ℕ → Upstream → Upstream × ℕ
attempts [] u = (u, 0)
attempts (t ∷ ts) u =
    let (v, sent) = try_half_open t u in
    let (w, more) = attempts ts v in (w, (if sent then 1 else 0) + more)

-- A half-open upstream with fewer probes in flight than the limit, or as many.
pub record IsProbed (u : Upstream) : Type 0 where
  pub half_open : u.circuit_state ≡ circuit_half_open
  pub limit : u.half_open_in_flight ≤ max_probes u
  pub range : max_probes u < two_63

attempts-count :
    (ts : List ℕ) (u : Upstream)
    → IsProbed u
    → (attempts ts u).1 ≡ min (length ts) (max_probes u - u.half_open_in_flight)
unfolding attempts try_half_open
attempts-count [] u p = omega arith
attempts-count (t ∷ ts) u p = ground (
  arith,
  attempts-count ts u,
  attempts-count ts (record u { half_open_in_flight = u.half_open_in_flight + 1 }),
)

-- An open upstream whose time is up, with a limit in range.
pub record IsExpired (now : ℕ) (u : Upstream) : Type 0 where
  pub opened : u.circuit_state ≡ circuit_open
  pub due : slt (unix now) u.circuit_open_until ≡ false
  pub range : max_probes u < two_63

first_probe :
    (now : ℕ) (u : Upstream)
    → IsExpired now u
    → try_half_open now u
      ≡ (record u { circuit_state = circuit_half_open; half_open_in_flight = 1 }, true)
unfolding try_half_open
first_probe now u e = ground arith

-- When its time is up, an open upstream becomes half-open at the first attempt, and of any number
-- of attempts with no outcome reported in between exactly so many are let through as the limit on
-- probes allows: all of them, or the configured number, which counts as 1 if it is not positive.
pub attempts_count :
    (now : ℕ) (ts : List ℕ) (u : Upstream)
    → IsExpired now u
    → (attempts (now ∷ ts) u).1 ≡ min (length (now ∷ ts)) (max_probes u)
unfolding attempts
attempts_count now ts u e =
    let v : Upstream = record u { circuit_state = circuit_half_open; half_open_in_flight = 1 } in
    let half : IsProbed v = ground arith in
    rw (first_probe now u e) (omega (arith, attempts-count ts v half, IsExpired.range e))

-- The instants at which the upstream is asked.
abbrev pub IsInstant : ℕ → Type 0
IsInstant t = unix t < two_63

-- After the failure that opens the circuit, with the configured time positive and its end in
-- range, a request is let through as a probe exactly from that end on: before it every attempt is
-- turned away.
pub try_half_open-record_failure :
    (u : Upstream) (now later : ℕ)
    → sle (threshold_of u) (inc u.failure_count) ≡ true
    → IsPositive u.cb_open_duration
    → IsInstant (now + u.cb_open_duration)
    → IsInstant later
    → ((try_half_open later (record_failure now u)).1 ≡ true)
      ↔ (unix (now + u.cb_open_duration) ≤ unix later)
unfolding try_half_open record_failure
try_half_open-record_failure u now later h d i j = ground arith

-- `CircuitOpen` agrees with `TryHalfOpen`: in a circuit that is not closed, and with a positive
-- limit, it says that the upstream is blocked exactly when an attempt would be turned away.
pub is_circuit_open-try_half_open :
    (now : ℕ) (u : Upstream)
    → u.circuit_state ≢ circuit_closed
    → IsPositive u.cb_half_open_requests
    → is_circuit_open now u ≡ not (try_half_open now u).1
unfolding is_circuit_open try_half_open
is_circuit_open-try_half_open now u h p = ground arith

-- After the first probe of an expired circuit with no failure counted: its success closes the
-- circuit, with the upstream healthy and nothing counted or in flight. Its failure opens the
-- circuit again for the configured time if the threshold is 1, and otherwise is counted and leaves
-- the upstream half-open with no probe in flight.
pub probe_outcome :
    (now later : ℕ) (u : Upstream)
    → IsExpired now u
    → u.failure_count ≡ 0
    → let v = (try_half_open now u).0 in
      (record_success v ≡ record u {
        circuit_state = circuit_closed;
        half_open_in_flight = 0;
        healthy = true;
        failure_count = 0;
      })
      × (record_failure later v ≡ (
          if sle (threshold_of u) 1
          then record u {
            circuit_state = circuit_open;
            circuit_open_until = unix (time_add later (duration_of u));
            half_open_in_flight = 0;
            healthy = false;
            failure_count = 0;
          }
          else record u {
            circuit_state = circuit_half_open;
            half_open_in_flight = 0;
            failure_count = 1;
          }))
unfolding try_half_open record_success record_failure
probe_outcome now later u e z = ground arith
