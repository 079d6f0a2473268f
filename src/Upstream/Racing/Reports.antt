-- ===== src/Upstream/Racing/Reports.antt =====
-- `RecordSuccess` and `RecordFailure` of internal/types/upstream.go as several goroutines run them
-- at once, beside calls of `TryHalfOpen`: each atomic operation is a step of its own.
mod Alone
mod Failing
pub mod Limit
mod Pending
pub mod Tripping
use web_server.Prelude.{
  ℕ, zero, suc, ◌+◌, ◌≡◌, Bool, true, false, List, [], ◌∷◌, if◌then◌else◌, inc, dec, sle,
}
use web_server.Upstream.{
  Upstream, CircuitState, circuit_closed, circuit_open, circuit_half_open, unix, time_add,
  threshold_of, duration_of,
}
use web_server.Upstream.Racing.{Pc, begin, act}

-- Where a call of `RecordSuccess` stands: at the load of the state, at the three steps of a
-- half-open circuit, at the store of 0 failures, and returned.
pub data SuccessPc : Type 0 where
  succeeding leaving closing healing clearing succeeded : SuccessPc

unfoldable pub succeed : SuccessPc → Upstream → Upstream × SuccessPc
succeed succeeding u = elim u.circuit_state [
  | circuit_closed ↦ (u, clearing)
  | circuit_open ↦ (u, clearing)
  | circuit_half_open ↦ (u, leaving)
]
succeed leaving u = (record u { half_open_in_flight = dec u.half_open_in_flight }, closing)
succeed closing u = (record u { circuit_state = circuit_closed }, healing)
succeed healing u = (record u { healthy = true }, clearing)
succeed clearing u = (record u { failure_count = 0 }, succeeded)
succeed succeeded u = (u, succeeded)

-- Where a call of `RecordFailure` stands: at the count, at the load of the state, at the release of
-- a probe, at the test of its count, at the two steps of `OpenCircuit` for the time that it has
-- computed, at the store of 0 failures, and returned.
pub data FailurePc : Type 0 where
  counting : FailurePc
  counted releasing testing : ℕ → FailurePc
  timing tripping resetting failed : FailurePc

unfoldable pub fail : ℕ → FailurePc → Upstream → Upstream × FailurePc
fail now counting u =
    (record u { failure_count = inc u.failure_count }, counted (inc u.failure_count))
fail now (counted n) u = elim u.circuit_state [
  | circuit_closed ↦ (u, testing n)
  | circuit_open ↦ (u, testing n)
  | circuit_half_open ↦ (u, releasing n)
]
fail now (releasing n) u = (record u { half_open_in_flight = dec u.half_open_in_flight }, testing n)
fail now (testing n) u =
    if sle (threshold_of u) n then (record u { healthy = false }, timing) else (u, failed)
fail now timing u =
    (record u { circuit_open_until = unix (time_add now (duration_of u)) }, tripping)
fail now tripping u = (record u { circuit_state = circuit_open }, resetting)
fail now resetting u = (record u { failure_count = 0 }, failed)
fail now failed u = (u, failed)

-- A call of one of the three operations.
pub data Caller : Type 0 where
  trying : Pc → Caller
  success_at : SuccessPc → Caller
  failure_at : FailurePc → Caller

-- The three operations, and their calls before the first step.
pub data Operation : Type 0 where
  an_attempt a_success a_failure : Operation

abbrev pub call_of : Operation → Caller
call_of an_attempt = trying begin
call_of a_success = success_at succeeding
call_of a_failure = failure_at counting

abbrev pub calls_of : List Operation → List Caller
calls_of [] = []
calls_of (o ∷ os) = call_of o ∷ calls_of os

unfoldable pub move : ℕ → Caller → Upstream → Upstream × Caller
move now (trying p) u = let (v, q) = act now p u in (v, trying q)
move now (success_at p) u = let (v, q) = succeed p u in (v, success_at q)
move now (failure_at p) u = let (v, q) = fail now p u in (v, failure_at q)

-- A step of the call at position `i`.
unfoldable pub move_at : ℕ → ℕ → Upstream → List Caller → Upstream × List Caller
move_at i now u [] = (u, [])
move_at zero now u (c ∷ cs) = let (v, d) = move now c u in (v, d ∷ cs)
move_at (suc i) now u (c ∷ cs) = let (v, ds) = move_at i now u cs in (v, c ∷ ds)

-- The upstream and the calls before and after some steps, each at a time of its own.
pub data Reports (u : Upstream) (cs : List Caller) : Upstream → List Caller → Type 0 where
  here : Reports u cs u cs
  next :
      {v w : Upstream} {ds es : List Caller}
      → Reports u cs v ds
      → (i now : ℕ) → move_at i now v ds ≡ (w, es)
      → Reports u cs w es
