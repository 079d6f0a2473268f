-- ===== src/Health.antt =====
-- internal/health/checkers.go: the health checks of a route's upstreams. The answer of the HTTP
-- client for an upstream and a path is given: a status, or `none` for an error. Between the ticks of
-- the ticker a round of checks runs. internal/health/health.go answers "OK" to any request.
pub mod Recovery
use web_server.Prelude.{
  ℕ, Bool, true, false, ◌&&◌, leb, ltb, List, [], ◌∷◌, ◌++◌, ◌≡◌, refl, ap, ◌∙◌, map, Option, none,
  some,
}
use web_server.Text.{Bytes}
use web_server.Upstream.{Upstream, Url}

-- The tests of `check` on an answer.
abbrev pub is_healthy : Option ℕ → Bool
is_healthy none = false
is_healthy (some status) = leb 200 status && ltb status 400

unfoldable pub check : (Url → Bytes → Option ℕ) → Bytes → Upstream → Upstream
check client path u = record u { healthy = is_healthy (client u.url path) }

-- The loop over the upstreams, once.
unfoldable pub check_all : (Url → Bytes → Option ℕ) → Bytes → List Upstream → List Upstream
check_all client path us = map (check client path) us

-- The loop of `StartHealthChecks`, with the answers at each tick: a round before each.
unfoldable pub start_health_checks :
    List (Url → Bytes → Option ℕ) → Bytes → List Upstream → List Upstream
start_health_checks [] path us = us
start_health_checks (client ∷ clients) path us =
    start_health_checks clients path (check_all client path us)

check_all-check_all :
    (client client' : Url → Bytes → Option ℕ) (path : Bytes) (us : List Upstream)
    → check_all client path (check_all client' path us) ≡ check_all client path us
unfolding check_all check
check_all-check_all client client' path [] = refl
check_all-check_all client client' path (u ∷ us) =
    ap (◌∷◌ (check client path u)) (check_all-check_all client client' path us)

-- With nothing else in between, only the last round counts: after it the upstreams are as if it had
-- been the only one.
pub start_health_checks-append :
    (clients : List (Url → Bytes → Option ℕ)) (client : Url → Bytes → Option ℕ) (path : Bytes)
    (us : List Upstream)
    → start_health_checks (clients ++ client ∷ []) path us ≡ check_all client path us
unfolding start_health_checks
start_health_checks-append [] client path us = refl
start_health_checks-append (c ∷ clients) client path us =
    start_health_checks-append clients client path (check_all c path us)
    ∙ check_all-check_all client c path us
