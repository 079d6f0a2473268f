-- ===== src/Proxy/Retry.antt =====
-- internal/proxy/retry.go: which requests are sent again, and how long the gateway waits.
use web_server.Prelude.{ℕ, ◌*◌, ◌^◌, Bool, ◌&&◌, ◌||◌, ◌==◌, min}
use web_server.Text.{Bytes, codes, eqb}
use web_server.Http.Message.{Request}

-- An error of the transport, as errors.As and errors.Is see it: whether its chain holds a net.Error,
-- ECONNRESET, EPIPE, or an http.MaxBytesError.
pub record TransportError : Type 0 where
  pub net_error : Bool
  pub conn_reset : Bool
  pub broken_pipe : Bool
  pub max_bytes : Bool

unfoldable pub is_replay_safe_method : Bytes → Bool
unfolding eqb
is_replay_safe_method m = eqb m (codes "GET") || eqb m (codes "HEAD") || eqb m (codes "OPTIONS")

unfoldable pub is_retryable_transport_error : TransportError → Bool
is_retryable_transport_error e = e.net_error || e.conn_reset || e.broken_pipe

abbrev is_gateway_status : ℕ → Bool
is_gateway_status code = code == 502 || code == 503 || code == 504

-- The result of a round trip: a response by its status, or an error.
pub data Outcome : Type 0 where
  responded : ℕ → Outcome
  failed : TransportError → Outcome

-- `shouldRetry`, whose response and error are one outcome: both calls give exactly one of them.
abbrev worth_retry : Outcome → Bool
worth_retry (responded code) = is_gateway_status code
worth_retry (failed e) = is_retryable_transport_error e

unfoldable pub should_retry : Request → Outcome → Bool
unfolding is_replay_safe_method is_retryable_transport_error
should_retry r out = is_replay_safe_method r.method && worth_retry out

-- The ceiling of `RetryDelay` in nanoseconds: 50ms doubled with each attempt, at most a second.
unfoldable pub retry_ceiling : ℕ → ℕ
retry_ceiling attempt = min 1_000_000_000 (50_000_000 * 2 ^ attempt)

-- `RetryDelay`; `jitter c` is a random share of c, rounded down.
unfoldable pub retry_delay : (ℕ → ℕ) → ℕ → ℕ
unfolding retry_ceiling
retry_delay jitter attempt = jitter (retry_ceiling attempt)
