-- ===== src/Proxy/Tunnel/Counts.antt =====
-- How often handleWebSocket of internal/proxy/tunnel.go answers the client, and how often it writes
-- to the upstream.
use web_server.Prelude.{
  ℕ, ◌+◌, ◌==◌, ◌≤◌, ◌≡◌, refl, Bool, true, false, not, ◌&&◌, ◌||◌, if◌then◌else◌, List, [], ◌∷◌,
  Option, none, some, arith,
}
use web_server.Http.Message.{Request}
use web_server.Upstream.{Url}
use web_server.Proxy.Tunnel.{
  Network, Act, http_error, sent_handshake, answered, uses_tls, handshake, switched,
  handle_websocket,
}

-- One if the client is answered: by the gateway's error, or with the upstream's own answer.
abbrev pub act_answers : Act → ℕ
act_answers (http_error code) = 1
act_answers (answered status) = 1
act_answers _ = 0

-- One if the client is answered with this status.
abbrev pub answered_with : ℕ → Act → ℕ
answered_with code (http_error status) = if status == code then 1 else 0
answered_with code (answered status) = if status == code then 1 else 0
answered_with code _ = 0

-- One if the handshake is written to the upstream.
abbrev pub act_sends : Act → ℕ
act_sends (sent_handshake q) = 1
act_sends _ = 0

unfoldable pub acts_total : (Act → ℕ) → List Act → ℕ
acts_total f [] = 0
acts_total f (a ∷ acts) = f a + acts_total f acts

abbrev pub is_read : Option ℕ → Bool
is_read none = false
is_read (some status) = true

-- The client cannot be taken over, and gets an error, or every call succeeds up to the upstream's
-- answer.
abbrev pub is_answered : Network → Url → Request → Bool
is_answered net url r =
    not net.can_hijack
    || (net.hijack
        && net.dial (uses_tls url.scheme) url.host
        && net.write_request (handshake net url r)
        && is_read net.read_response)

module _ (net : Network) where
  switched-answers :
      (o : Option ℕ) → acts_total act_answers (switched net o).1 ≡ (if is_read o then 1 else 0)
  unfolding acts_total
  switched-answers none = refl
  switched-answers (some status) = ground arith

  -- An attempt at a tunnel answers the client once in these cases, and else not at all.
  pub handle_websocket-answers :
      (url : Url) (r : Request)
      → acts_total act_answers (handle_websocket net url r).1
        ≡ (if is_answered net url r then 1 else 0)
  unfolding handle_websocket acts_total
  handle_websocket-answers url r = ground (arith, switched-answers net.read_response)

  switched-sends : (o : Option ℕ) → acts_total act_sends (switched net o).1 ≡ 0
  unfolding acts_total
  switched-sends none = refl
  switched-sends (some status) = ground arith

  -- It writes at most one handshake.
  pub handle_websocket-sends :
      (url : Url) (r : Request) → acts_total act_sends (handle_websocket net url r).1 ≤ 1
  unfolding handle_websocket acts_total
  handle_websocket-sends url r = ground (arith, switched-sends net.read_response)
