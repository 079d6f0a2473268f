-- ===== src/Proxy/Engine.antt =====
-- internal/proxy/engine.go: one request through the engine of a route. What a handler does outside
-- the balancer is the list of its effects, in order; a WebSocket connection is the one of Tunnel, and
-- its acts are one effect. The clock, the transport and the random waits are given for the number of
-- the attempt, and the network for the tunnel.
pub mod Trace
pub mod Connections
pub mod Attempts
pub mod Counted
pub mod Sharing
use web_server.Prelude.{
  ℕ, zero, suc, ◌+◌, Bool, true, false, ◌&&◌, List, [], ◌∷◌, ◌++◌, Option, none, some,
  if◌then◌else◌, ◌==◌, slt, dec, map, two_64,
}
use web_server.Text.{Bytes, codes}
use web_server.Upstream.{Upstream, Url, circuit_closed}
use web_server.Http.Message.{Request, Response}
use web_server.Lb.{Balancer, next, release, mark_failure, mark_success}
use web_server.Proxy.Headers.{is_websocket_upgrade}
use web_server.Proxy.Forward.{outbound_request}
use web_server.Proxy.Tunnel.{Network, Act, handle_websocket}
use web_server.Proxy.Retry.{TransportError, Outcome, responded, failed, should_retry, retry_delay}

pub data Reply : Type 0 where
  reply : Response → Reply
  broken : TransportError → Reply

pub record Env : Type 0 where
  -- time.Now() in the n-th call of Next, at the upstream at a position, and in a RecordFailure.
  pub clock : ℕ → ℕ → ℕ
  pub failure_time : ℕ → ℕ
  pub round_trip : ℕ → Request → Reply
  pub network : Network
  pub jitter : ℕ → ℕ → ℕ

-- The engine's settings, apart from its balancer.
pub record Engine : Type 0 where
  pub route_name : Bytes
  pub max_retries : ℕ  -- int
  pub max_body_bytes : ℕ  -- int64
  pub timeout : ℕ  -- time.Duration; the context that it bounds is not modelled

-- What a request does. The metrics carry the label of the upstream, `none` for "none".
pub data Effect : Type 0 where
  http_error : ℕ → Effect
  sent : Url → Request → Effect
  relayed : Response → Effect
  tunnelled : Url → List Act → Effect
  slept : ℕ → Effect
  count_request : ℕ → Option Bytes → Effect
  observe_duration : Option Bytes → Effect
  count_failure count_circuit count_retry : Bytes → Effect
  set_active : List (Bytes × ℕ) → Effect

-- The upstream behind a pointer. Past the end, where no pointer of the balancer leads, the zero
-- value.
abbrev pub target_in : List Upstream → ℕ → Upstream
target_in [] k = record {
  url = record { scheme = []; host = [] };
  healthy = false;
  active_conns = 0;
  weight = 0;
  failure_count = 0;
  circuit_open_until = 0;
  circuit_state = circuit_closed;
  half_open_in_flight = 0;
  cb_failure_threshold = 0;
  cb_open_duration = 0;
  cb_half_open_requests = 0;
}
target_in (t ∷ ts) zero = t
target_in (t ∷ ts) (suc k) = target_in ts k

-- metrics.UpstreamLabel.
abbrev pub upstream_label : Upstream → Bytes
upstream_label t = t.url.host

-- `updateActiveMetrics`.
abbrev pub active_metrics : Balancer → Effect
active_metrics b = set_active (map (λ t. (upstream_label t, t.active_conns)) b.targets)

abbrev pub count_circuit_if : Bool → Bytes → List Effect
count_circuit_if true label = count_circuit label ∷ []
count_circuit_if false label = []

-- The metrics of a failure, before it is marked.
abbrev pub failure_metrics : Upstream → List Effect
failure_metrics t =
    count_failure (upstream_label t)
    ∷ count_circuit_if (t.failure_count == dec t.cb_failure_threshold) (upstream_label t)

abbrev pub prepend : List Effect → Balancer × List Effect → Balancer × List Effect
prepend es (b, fs) = (b, es ++ fs)

-- The end of the loop, and of the handler.
abbrev pub bad_gateway : Balancer → Balancer × List Effect
bad_gateway b = (b, http_error 502 ∷ count_request 502 none ∷ observe_duration none ∷ [])

-- http.MaxBytesReader around the body, if there is a limit.
abbrev pub limit_body : Engine → Request → Request
limit_body e r =
    if slt 0 e.max_body_bytes then record r { body_limit = some e.max_body_bytes } else r

-- The rounds of `for attempt := 0; attempt <= e.maxRetries; attempt++`.
abbrev pub rounds_of : ℕ → ℕ
rounds_of max_retries = if slt max_retries 0 then 0 else suc max_retries

-- `shouldRetry(...) && attempt < e.maxRetries`.
abbrev pub again : Engine → Request → Outcome → ℕ → Bool
again e r out n = should_retry r out && slt n e.max_retries

module _ (env : Env) (e : Engine) where
  -- Behind time.Sleep: the next upstream and the next attempt, or the end of the loop.
  abbrev pub go_on :
      (Balancer → ℕ → Balancer × List Effect) → Balancer × Option ℕ → Balancer × List Effect
  go_on rest (b, none) = bad_gateway b
  go_on rest (b, some k) = rest b k

  abbrev pub retry :
      (Balancer → ℕ → Balancer × List Effect) → ℕ → Bytes → Balancer → Balancer × List Effect
  retry rest n label b =
      prepend (count_retry label ∷ slept (retry_delay (env.jitter n) n) ∷ [])
        (go_on rest (next (env.clock (suc n)) b))

  -- A failed attempt: `mark_failure` and `release`, then a retry or the error.
  abbrev pub fail :
      (Balancer → ℕ → Balancer × List Effect)
      → ℕ
      → Bool
      → Upstream
      → ℕ
      → Balancer
      → Balancer × List Effect
  fail rest n again t k b =
      let b' = release k (mark_failure (env.failure_time n) k b) in
      prepend (failure_metrics t ++ active_metrics b' ∷ []) (
        if again then retry rest n (upstream_label t) b' else (
          b',
          http_error 502
              ∷ count_request 502 (some (upstream_label t))
              ∷ observe_duration (some (upstream_label t))
              ∷ [],
        ))

  -- What follows the round trip.
  abbrev pub finish :
      (Balancer → ℕ → Balancer × List Effect)
      → Request
      → ℕ
      → Upstream
      → ℕ
      → Balancer
      → Reply
      → Balancer × List Effect
  finish rest r n t k b (broken err) =
      if err.max_bytes
      then (let b' = release k b in (b', http_error 413 ∷ active_metrics b' ∷ []))
      else fail rest n (again e r (failed err) n) t k b
  finish rest r n t k b (reply resp) =
      if again e r (responded resp.status_code) n
      then fail rest n true t k b
      else (let b' = release k (mark_success k b) in
          (
            b',
            relayed resp
                ∷ active_metrics b'
                ∷ count_request resp.status_code (some (upstream_label t))
                ∷ observe_duration (some (upstream_label t))
                ∷ [],
          ))

  -- One round of the loop; `rest` is the loop from the next attempt on.
  unfoldable pub round :
      (Balancer → ℕ → Balancer × List Effect) → Request → ℕ → Balancer → ℕ → Balancer × List Effect
  round rest r n b k =
      let t = target_in b.targets k in
      let out = outbound_request env.network.split_host_port t.url r in
      prepend (sent t.url out ∷ []) (finish rest r n t k b (env.round_trip n out))

  -- The loop, with so many rounds left, from attempt `n` on.
  unfoldable pub attempts : ℕ → Request → ℕ → Balancer → ℕ → Balancer × List Effect
  attempts zero r n b k = bad_gateway b
  attempts (suc rounds) r n b k = round (attempts rounds r (suc n)) r n b k

  abbrev pub tunnel_end : Bool → Upstream → ℕ → Balancer → List Effect → Balancer × List Effect
  tunnel_end true t k b es = (release k (mark_success k b), es)
  tunnel_end false t k b es =
      (release k (mark_failure (env.failure_time 0) k b), es ++ failure_metrics t)

  -- The WebSocket path, behind `handleWebSocket`.
  abbrev pub serve_websocket : Request → Balancer → ℕ → Balancer × List Effect
  serve_websocket r b k =
      let t = target_in b.targets k in
      let tunnel = handle_websocket env.network t.url r in
      let (b', es) = tunnel_end tunnel.0 t k b (tunnelled t.url tunnel.1 ∷ []) in
      (b', es ++ active_metrics b' ∷ [])

  abbrev pub dispatch : Request → Balancer × Option ℕ → Balancer × List Effect
  dispatch r (b, none) = (b, http_error 503 ∷ count_request 503 none ∷ observe_duration none ∷ [])
  dispatch r (b, some k) =
      if is_websocket_upgrade r
      then serve_websocket r b k
      else attempts (rounds_of e.max_retries) r 0 b k

  -- `ServeHTTP`.
  unfoldable pub serve : Request → Balancer → Balancer × List Effect
  serve r b = dispatch (limit_body e r) (next (env.clock 0) b)
