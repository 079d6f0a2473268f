-- ===== src/Upstream/Racing/Reports/Alone.antt =====
-- Calls of `RecordSuccess` and `RecordFailure` that no other interrupts.
use web_server.Prelude.{ℕ, zero, suc, ◌≡◌, arith}
use web_server.Upstream.{Upstream, record_success, record_failure}
use web_server.Upstream.Racing.Reports.{
  Caller, success_at, failure_at, succeeding, succeeded, counting, failed, move, succeed, fail,
}

-- So many steps of one call at one time.
pub moves : ℕ → ℕ → Caller → Upstream → Upstream × Caller
moves zero now c u = (u, c)
moves (suc n) now c u = let (v, d) = move now c u in moves n now d v

-- Without interruption a call of RecordSuccess ends after five steps, one of RecordFailure after
-- seven, with the upstream that the operation as a whole leaves.
pub moves-record_success :
    (now : ℕ) (u : Upstream)
    → (moves 5 now (success_at succeeding) u ≡ (record_success u, success_at succeeded))
      × (moves 7 now (failure_at counting) u ≡ (record_failure now u, failure_at failed))
unfolding moves move succeed fail record_success record_failure
moves-record_success now u = (ground arith, ground arith)
