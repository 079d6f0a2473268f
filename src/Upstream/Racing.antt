-- ===== src/Upstream/Racing.antt =====
-- `TryHalfOpen` of internal/types/upstream.go as several goroutines run it at once: each load,
-- store and compare-and-swap is a step of its own, and the scheduler chooses whose step is next.
mod Alone
pub mod Bound
pub mod Reports
pub mod Reset
use web_server.Prelude.{
  ℕ, zero, suc, ◌+◌, ◌≡◌, ◌==◌, Bool, true, false, List, [], ◌∷◌, if◌then◌else◌, inc, slt, sle,
  replicate,
}
use web_server.Upstream.{
  Upstream, CircuitState, circuit_closed, circuit_open, circuit_half_open, unix, max_probes,
}

-- Where a call stands: at the load of the state, behind it, before the compare-and-swap of the
-- state, before the store of 0, at the head of the loop, behind its load, and returned.
pub data Pc : Type 0 where
  begin : Pc
  loaded : CircuitState → Pc
  expired : Pc
  won : Pc
  checking : Pc
  saw : ℕ → Pc
  returned : Bool → Pc

abbrev swap_state : CircuitState → Upstream → Upstream × Pc
swap_state circuit_open u = (record u { circuit_state = circuit_half_open }, won)
swap_state _ u = (u, checking)

-- One step of a call, at the time `now`.
unfoldable pub act : ℕ → Pc → Upstream → Upstream × Pc
act now begin u = (u, loaded u.circuit_state)
act now (loaded circuit_open) u =
    if slt (unix now) u.circuit_open_until then (u, returned false) else (u, expired)
act now (loaded circuit_half_open) u = (u, checking)
act now (loaded circuit_closed) u = (u, returned false)
act now expired u = swap_state u.circuit_state u
act now won u = (record u { half_open_in_flight = 0 }, checking)
act now checking u =
    if sle (max_probes u) u.half_open_in_flight
    then (u, returned false)
    else (u, saw u.half_open_in_flight)
act now (saw cur) u =
    if u.half_open_in_flight == cur
    then (record u { half_open_in_flight = inc cur }, returned true)
    else (u, checking)
act now (returned b) u = (u, returned b)

-- A step of the call at position `i`.
unfoldable pub act_at : ℕ → ℕ → Upstream → List Pc → Upstream × List Pc
act_at i now u [] = (u, [])
act_at zero now u (p ∷ ps) = let (u', p') = act now p u in (u', p' ∷ ps)
act_at (suc i) now u (p ∷ ps) = let (u', ps') = act_at i now u ps in (u', p ∷ ps')

-- The calls that may send a probe.
abbrev pub probe : Pc → ℕ
probe (returned true) = 1
probe _ = 0

abbrev pub probes : List Pc → ℕ
probes [] = 0
probes (p ∷ ps) = probe p + probes ps

-- The upstream and the calls before and after some steps, with no outcome reported in between.
pub data Reach (u : Upstream) (ps : List Pc) : Upstream → List Pc → Type 0 where
  here : Reach u ps u ps
  next :
      {v w : Upstream} {qs rs : List Pc}
      → Reach u ps v qs
      → (i now : ℕ) → act_at i now v qs ≡ (w, rs)
      → Reach u ps w rs
