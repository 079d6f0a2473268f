-- ===== src/Lib.antt =====
-- A verification library for the API gateway and reverse proxy (module
-- github.com/krishnaditya65/web-server).
--
-- Parts. A configuration is read from YAML or translated from an nginx file (internal/config). The
-- router (internal/router) puts the middlewares (internal/middleware) and the global plugins around
-- the gateway, which matches a request to a route and passes it through the route's plugins
-- (internal/plugin) to the route's engine (internal/proxy). The engine asks its load balancer
-- (internal/lb) for an upstream (internal/types), sends the request on, retries, copies the response
-- or tunnels the connection, and reports the outcome to the upstream's circuit breaker. Health
-- checks (internal/health) mark upstreams, and the admin API (internal/admin) reloads the gateway.
--
-- Prelude: names shared by all modules, lists over the native numbers, and 64-bit words. An int,
--   int64, uint64 or time.Duration is its bit pattern, a number below 2 ^ 64, and wraps around.
-- Text, Http: what the code uses of the packages strings, strconv and net/http. Texts are lists of
--   bytes, and ASCII.
-- Upstream: internal/types/upstream.go. Upstream/Breaker is about opening, Upstream/Probing about
--   probes, Upstream/Racing about goroutines that ask for a probe at once, and
--   Upstream/Racing/Reports about those that report outcomes at the same time.
-- Lb: internal/lb. Lb/Candidates, Lb/Scan and Lb/Selection are about which upstream is chosen,
--   Lb/Targets and Lb/Conns about what a call changes, Lb/Window, Lb/Schedule and Lb/Rotation about
--   fair shares, Lb/Probes about probes that are lost.
-- Health: internal/health/checkers.go. Health/Recovery is about the end of an outage.
-- Proxy: internal/proxy. Proxy/Headers is headers.go and upgrade.go, Proxy/Forward request.go,
--   Proxy/Retry retry.go, Proxy/Engine engine.go with several requests at once in
--   Proxy/Engine/Sharing, Proxy/Builder builder.go, Proxy/Tunnel tunnel.go
--   with its goroutines in Proxy/Tunnel/Relay, Proxy/Copier copier.go, Proxy/Gateway gateway.go with
--   internal/plugin/plugin.go.
-- Config: internal/config. Config/Defaults is applyDefaults of config.go, Config/Loading what loads
--   files there; Config/Float64 is the conversion of an int to a float64; Config/Nginx is the lexer and the parser of nginx_parser.go, and
--   Config/Nginx/Translator, with the units of Config/Nginx/Units, is nginx_translator.go, from the
--   innermost blocks (Location) to the file (Server).
-- Plugin: internal/plugin/plugins, a module for each plugin; Plugin/Transform is both transformers,
--   Plugin/Builtin internal/pluginreg.
-- Middleware: internal/middleware. Middleware/Gzip is gzip.go, Middleware/RateLimit ratelimit.go,
--   Middleware/Recorder recorder.go, Middleware/Logging logging.go, Middleware/Wrapping requestid.go,
--   cors.go and recovery.go.
-- Metrics: internal/metrics, the collectors and the label values of the engine's updates.
-- Shutdown: internal/shutdown, what is done at a signal.
-- Router: internal/router, which puts the middlewares and the global plugins around the gateway.
-- Admin: internal/admin, which reads and reloads the gateway.
-- Tests: runs on small data, and each theorem at a concrete input.
--
-- Bounds and fuel. The retry loop recurs on the rounds that are left, of which there are one more
-- than max_retries, or none if that is negative: the loop's own count. The nginx parser recurs on
-- fuel, three rounds for each byte and three more, since each of its rounds takes a token. All else
-- recurs on lists, but for the conversion to a float64, which looks for at most ten bits beyond the
-- 53, since an int has no more. The loop of TryHalfOpen is one of steps, which any number of goroutines take in
-- any order; so are the reports of outcomes, the requests of an engine, and the copies of a tunnel.
--
-- Not modelled: interleavings of goroutines other than those (each other operation runs by itself;
-- atomic fields are plain fields), contexts, timeouts and tickers, the bodies of requests, and TLS,
-- which are input and output or libraries; the registry of metrics, the reading of YAML by viper,
-- the signatures of tokens, addresses and networks, and the division of a float64 by 60, which
-- levels compress/gzip takes, and the calls of the network in a tunnel, which are parameters; timeout.go of internal/middleware, internal/transport and internal/logging, which set
-- up values of libraries.
pub mod Prelude
pub mod Upstream
pub mod Lb
pub mod Text
pub mod Http
pub mod Config
pub mod Proxy
pub mod Metrics
pub mod Middleware
pub mod Plugin
pub mod Health
pub mod Admin
pub mod Router
pub mod Shutdown
pub mod Tests
