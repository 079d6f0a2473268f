-- ===== src/Tests/Breaker.antt =====
-- The circuit breaker on one upstream.
use web_server.Prelude.{◌≡◌, refl, [], ◌∷◌, arith}
use web_server.Upstream.{circuit_closed, record_failure}
use web_server.Upstream.Breaker.{success, failure, reports, reports-state}
use web_server.Tests.Data.{backend}

third_failure_opens : (reports (failure 5 ∷ failure 6 ∷ []) backend).circuit_state ≡ circuit_closed
unfolding reports record_failure
third_failure_opens = refl

reports-state_example :
    (reports (failure 5 ∷ failure 6 ∷ success ∷ failure 7 ∷ []) backend).circuit_state
    ≡ circuit_closed
reports-state_example =
    reports-state (failure 5 ∷ failure 6 ∷ success ∷ failure 7 ∷ []) backend (ground arith)
