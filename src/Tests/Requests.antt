-- ===== src/Tests/Requests.antt =====
-- Requests through the proxy.
use web_server.Proxy.Engine.Counted.{counted_as, uncounted_as, answered_as, serve-counted_as}
use web_server.Proxy.Headers.{is_websocket_upgrade}
use web_server.Prelude.{◌/◌, true, ◌+◌, ◌≤◌, ◌≡◌, refl, false, [], ◌∷◌, some, arith}
use web_server.Text.{codes, eqb}
use web_server.Upstream.{Url}
use web_server.Http.Header.{lookup, canonical}
use web_server.Http.Message.{Request}
use web_server.Proxy.Forward.{outbound_request}
use web_server.Proxy.Forward.Laws.{outbound_request-lookup}
use web_server.Proxy.Tunnel.{Network}
use web_server.Proxy.Retry.{is_replay_safe_method}
use web_server.Lb.{next, collect, admit}
use web_server.Lb.Conns.{conns}
use web_server.Proxy.Engine.{Env, Engine, reply, serve}
use web_server.Proxy.Engine.Trace.{total, answers, sends}
use web_server.Proxy.Engine.Attempts.{serve-answers, serve-sends, serve-sends_unsafe}
use web_server.Proxy.Engine.Connections.{serve-conns}
use web_server.Tests.Data.{pool, get_request, at_second}

-- No upstream can be dialled for a tunnel.
abbrev pub unreachable : Network
unreachable = record {
  can_hijack = true;
  hijack = true;
  dial = λ tls host. false;
  write_request = λ r. true;
  read_response = some 101;
  write_response = λ s. true;
  relay = true;
  split_host_port = λ a. some (codes "10.1.1.1", codes "999");
}

-- Every upstream answers 503.
abbrev pub failing : Env
failing = record {
  clock = λ n. at_second 5;
  failure_time = λ n. 6_000_000_000;
  round_trip = λ n r. reply (record { status_code = 503; header = []; trailer = []; body = [] });
  network = unreachable;
  jitter = λ n c. c / 2;
}

abbrev pub engine : Engine
engine = record { route_name = codes "api"; max_retries = 2; max_body_bytes = 0; timeout = 0 }

-- -1, as an int.
abbrev endless : Engine
endless = record engine { max_retries = 0xFFFF_FFFF_FFFF_FFFF }

-- Every upstream refuses a tunnel with 403.
abbrev refusing : Env
refusing = record failing {
  network = record unreachable { dial = λ tls host. true; read_response = some 403 };
}

abbrev upgrade : Request
upgrade = record get_request {
  header =
      (codes "Connection", codes "keep-alive, Upgrade" ∷ [])
      ∷ (codes "Upgrade", codes "websocket" ∷ [])
      ∷ [];
}

abbrev post_request : Request
post_request = record get_request { method = codes "POST" }

abbrev backend_url : Url
backend_url = record { scheme = codes "http"; host = codes "10.0.0.1:80" }

outbound_request-lookup_example :
    lookup
      (codes "X-Id")
      (outbound_request failing.network.split_host_port backend_url get_request).header
    ≡ codes "7" ∷ []
unfolding eqb canonical lookup
outbound_request-lookup_example =
    outbound_request-lookup failing.network.split_host_port backend_url get_request (codes "X-Id")
      refl

serve-answers_example :
    (total answers (serve failing engine get_request pool).1 ≡ 1)
    × (total answers (serve failing engine upgrade pool).1 ≡ 0)
    × (total answers (serve refusing engine upgrade pool).1 ≡ 1)
unfolding is_websocket_upgrade lookup eqb next collect admit
serve-answers_example = (
  serve-answers failing engine get_request pool,
  serve-answers failing engine upgrade pool,
  serve-answers refusing engine upgrade pool,
)

serve-counted_as_example :
    total (counted_as 403) (serve refusing engine upgrade pool).1
      + total (uncounted_as 403) (serve refusing engine upgrade pool).1
    ≡ total (answered_as 403) (serve refusing engine upgrade pool).1
serve-counted_as_example = serve-counted_as refusing engine upgrade pool 403

serve-sends_example :
    (total sends (serve failing engine get_request pool).1 ≤ 3)
    × (total sends (serve failing endless get_request pool).1 ≤ 0)
    × (total sends (serve refusing endless upgrade pool).1 ≤ 1)
unfolding is_websocket_upgrade lookup eqb next collect admit
serve-sends_example = (
  serve-sends failing engine get_request pool,
  serve-sends failing endless get_request pool,
  serve-sends refusing endless upgrade pool,
)

serve-sends_unsafe_example : total sends (serve failing engine post_request pool).1 ≤ 1
serve-sends_unsafe_example =
    serve-sends_unsafe failing engine post_request pool (unfold is_replay_safe_method in refl)

serve-conns_example : conns (serve failing engine get_request pool).0 ≡ conns pool
serve-conns_example = serve-conns failing engine get_request pool (omega arith) (omega arith)
