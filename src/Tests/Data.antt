-- ===== src/Tests/Data.antt =====
-- Upstreams, balancers and requests for the tests.
use web_server.Prelude.{ℕ, ◌*◌, true, false, [], ◌∷◌, none}
use web_server.Text.{codes}
use web_server.Upstream.{Upstream, circuit_closed, circuit_open}
use web_server.Lb.{Balancer, round_robin, weighted_round_robin, least_connections}
use web_server.Http.Message.{Request}

-- A healthy upstream: 3 failures open its circuit for 30 seconds, and one probe is allowed.
abbrev pub backend : Upstream
backend = record {
  url = record { scheme = codes "http"; host = codes "10.0.0.1:80" };
  healthy = true;
  active_conns = 0;
  weight = 2;
  failure_count = 0;
  circuit_open_until = 0;
  circuit_state = circuit_closed;
  half_open_in_flight = 0;
  cb_failure_threshold = 3;
  cb_open_duration = 30_000_000_000;
  cb_half_open_requests = 1;
}

abbrev pub busy : Upstream
busy = record backend { active_conns = 5; weight = 1 }

-- Open until second 100, and healthy again.
abbrev pub recovering : Upstream
recovering = record backend { circuit_state = circuit_open; circuit_open_until = 100 }

abbrev pub pool : Balancer
pool = record { algorithm = round_robin; targets = backend ∷ busy ∷ []; counter = 0 }

abbrev pub weighted : Balancer
weighted = record pool { algorithm = weighted_round_robin }

abbrev pub least : Balancer
least = record pool { algorithm = least_connections }

-- At the second `s`, whichever upstream asks.
abbrev pub at_second : ℕ → ℕ → ℕ
at_second s i = s * 1_000_000_000

abbrev pub get_request : Request
get_request = record {
  method = codes "GET";
  url_scheme = [];
  url_host = [];
  path = codes "/api/users";
  raw_query = [];
  host = codes "shop.example";
  header = (codes "X-Id", codes "7" ∷ []) ∷ (codes "Upgrade", codes "h2c" ∷ []) ∷ [];
  remote_addr = codes "10.1.1.1:999";
  tls = false;
  body_limit = none;
}
