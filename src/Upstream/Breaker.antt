-- ===== src/Upstream/Breaker.antt =====
-- When failures open the circuit, and what an open circuit lets through.
use web_server.Prelude.{
  ap, ℕ, ◌+◌, ◌≤◌, ◌<◌, ◌≡◌, refl, false, List, [], ◌∷◌, arith, ltb, if◌then◌else◌, length,
  IsPositive, max, dec_lt, ◌∙◌,
}
use web_server.Upstream.{
  Upstream, circuit_closed, circuit_open, record_success, record_failure, CircuitState, time_add,
  duration_of, unix,
}

-- The outcomes of a run of requests: a success, or a failure at a time.
pub data Report : Type 0 where
  success : Report
  failure : ℕ → Report

abbrev pub apply : Report → Upstream → Upstream
apply success u = record_success u
apply (failure now) u = record_failure now u

unfoldable pub reports : List Report → Upstream → Upstream
reports [] u = u
reports (r ∷ rs) u = reports rs (apply r u)

-- Failures, one at each of these times.
abbrev pub failures : List ℕ → List Report
failures [] = []
failures (t ∷ ts) = failure t ∷ failures ts

-- A closed upstream whose threshold is set.
pub record IsServing (u : Upstream) : Type 0 where
  pub closed : u.circuit_state ≡ circuit_closed
  pub threshold : IsPositive u.cb_failure_threshold
  pub count_below : u.failure_count < u.cb_failure_threshold

-- A failure that does not reach the threshold is counted, and changes nothing else.
failure_below :
    (now : ℕ) (u : Upstream)
    → IsServing u
    → u.failure_count + 1 < u.cb_failure_threshold
    → record_failure now u ≡ record u { failure_count = u.failure_count + 1 }
unfolding record_failure
failure_below now u s h = ground arith

abbrev pub tripped : ℕ → Upstream → Upstream
tripped now u = record u {
  healthy = false;
  failure_count = 0;
  circuit_state = circuit_open;
  circuit_open_until = unix (time_add now (duration_of u));
}

failure_at :
    (now : ℕ) (u : Upstream)
    → IsServing u
    → u.failure_count + 1 ≡ u.cb_failure_threshold
    → record_failure now u ≡ tripped now u
unfolding record_failure
failure_at now u s h = ground arith

counted-IsServing :
    (u : Upstream) (n : ℕ)
    → IsServing u
    → n < u.cb_failure_threshold
    → IsServing (record u { failure_count = n })
counted-IsServing u n s h = record { closed = s.closed; threshold = s.threshold; count_below = h }

reports_below :
    (ts : List ℕ) (u : Upstream)
    → IsServing u
    → u.failure_count + length ts < u.cb_failure_threshold
    → reports (failures ts) u ≡ record u { failure_count = u.failure_count + length ts }
unfolding reports
reports_below [] u s h = ground arith
reports_below (t ∷ ts) u s h =
    ap (reports (failures ts)) (failure_below t u s (omega arith))
    ∙ reports_below ts _ (counted-IsServing u _ s (omega arith)) (omega arith)
    ∙ ground arith

-- In a closed circuit the failures before the threshold are only counted. The failure that
-- reaches it opens the circuit for the configured time, marks the upstream unhealthy and starts
-- the count again; all other fields stay.
pub failures_trip :
    (u : Upstream) (ts : List ℕ) (now : ℕ)
    → IsServing u
    → u.failure_count + length ts + 1 ≡ u.cb_failure_threshold
    → (reports (failures ts) u ≡ record u { failure_count = u.failure_count + length ts })
      × (record_failure now (reports (failures ts) u) ≡ tripped now u)
failures_trip u ts now s h =
    let before = reports_below ts u s (omega arith) in
    (before, rw before (failure_at now _ (counted-IsServing u _ s (omega arith)) (omega arith)))

-- The longest run of failures without a success in between, where `n` came before.
abbrev pub streak : ℕ → List Report → ℕ
streak n [] = n
streak n (success ∷ rs) = max n (streak 0 rs)
streak n (failure t ∷ rs) = streak (n + 1) rs

le-streak : (n : ℕ) (rs : List Report) → n ≤ streak n rs
le-streak n [] = omega arith
le-streak n (success ∷ rs) = omega arith
le-streak n (failure t ∷ rs) = omega (arith, le-streak (n + 1) rs)

apply-open :
    (r : Report) (u : Upstream)
    → u.circuit_state ≡ circuit_open
    → (apply r u).circuit_state ≡ circuit_open
unfolding record_success record_failure
apply-open success u h = ground arith
apply-open (failure now) u h = ground arith

reports-open :
    (rs : List Report) (u : Upstream)
    → u.circuit_state ≡ circuit_open
    → (reports rs u).circuit_state ≡ circuit_open
unfolding reports
reports-open [] u h = h
reports-open (r ∷ rs) u h = reports-open rs (apply r u) (apply-open r u h)

success-IsServing : (u : Upstream) → IsServing u → record_success u ≡ record u { failure_count = 0 }
unfolding record_success
success-IsServing u s = ground arith

-- The state after any run of reports: open if some run of failures has reached the threshold, and
-- closed otherwise.
abbrev pub state_after : ℕ → ℕ → CircuitState
state_after threshold longest = if ltb longest threshold then circuit_closed else circuit_open

-- From a closed circuit, whatever successes and failures are reported, at whatever times: the
-- circuit is open afterwards if the longest run of failures without a success in between, the
-- failures already counted included, has reached the threshold, and closed if it has not.
pub reports-state :
    (rs : List Report) (u : Upstream)
    → IsServing u
    → (reports rs u).circuit_state ≡ state_after u.cb_failure_threshold (streak u.failure_count rs)
unfolding reports
reports-state [] u s = ground arith
reports-state (success ∷ rs) u s =
    ap (λ v. (reports rs v).circuit_state) (success-IsServing u s)
    ∙ reports-state rs _ (counted-IsServing u 0 s (omega arith))
    ∙ ground (arith, le-streak 0 rs)
reports-state (failure now ∷ rs) u s = elim (dec_lt (u.failure_count + 1) u.cb_failure_threshold) [
  | yes p ↦
      ap (λ v. (reports rs v).circuit_state) (failure_below now u s p)
      ∙ reports-state rs _ (counted-IsServing u _ s p)
  | no p ↦
      ap (λ v. (reports rs v).circuit_state) (failure_at now u s (omega arith))
      ∙ reports-open rs _ refl
      ∙ ground (arith, le-streak (u.failure_count + 1) rs)
]
