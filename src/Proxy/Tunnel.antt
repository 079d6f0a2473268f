-- ===== src/Proxy/Tunnel.antt =====
-- internal/proxy/tunnel.go and tls.go: a WebSocket connection through the gateway. The network and
-- the package net/http are given: whether each call succeeds, and how the relay ends, whose
-- goroutines are in Relay.
pub mod Counts
pub mod Laws
pub mod Relay
use web_server.Prelude.{
  ℕ, ◌==◌, Bool, true, false, ◌||◌, if◌then◌else◌, List, [], ◌∷◌, ◌++◌, Option, none, some,
}
use web_server.Text.{Bytes, codes, eqb}
use web_server.Http.Header.{set}
use web_server.Http.Message.{Request}
use web_server.Upstream.{Upstream, Url}
use web_server.Proxy.Headers.{remove_hop_by_hop_headers}
use web_server.Proxy.Forward.{rewrite_request, append_forward_headers}

pub record Network : Type 0 where
  pub can_hijack : Bool  -- the type assertion to http.Hijacker
  pub hijack : Bool
  pub dial : Bool → Bytes → Bool  -- with TLS or without
  pub write_request : Request → Bool
  pub read_response : Option ℕ  -- its status
  pub write_response : ℕ → Bool
  pub relay : Bool
  pub split_host_port : Bytes → Option (Bytes × Bytes)

-- What happens to the two connections. A failed write and a failed read are tried too.
pub data Act : Type 0 where
  http_error : ℕ → Act
  open_client open_upstream close_client close_upstream : Act
  sent_handshake : Request → Act
  answered : ℕ → Act
  relayed : Act

-- `dialUpstream`: whether it uses TLS.
abbrev pub uses_tls : Bytes → Bool
uses_tls scheme = eqb scheme (codes "https") || eqb scheme (codes "wss")

module _ (net : Network) where
  -- The request of `writeUpstreamHandshake`.
  unfoldable pub handshake : Url → Request → Request
  handshake url r =
      let out = rewrite_request url r in
      append_forward_headers net.split_host_port (record out {
        header =
            set (codes "Upgrade") (codes "websocket")
              (set (codes "Connection") (codes "Upgrade") (remove_hop_by_hop_headers out.header));
      })

  abbrev pub both_closed : List Act
  both_closed = close_client ∷ close_upstream ∷ []

  -- From the answer of the upstream on: whether there was no error, and the acts.
  abbrev pub passed_on : Bool → Bool × List Act
  passed_on false = (false, both_closed)
  passed_on true = (net.relay, relayed ∷ both_closed)

  abbrev pub tell : Act → Bool × List Act → Bool × List Act
  tell a (b, acts) = (b, a ∷ acts)

  abbrev pub switched : Option ℕ → Bool × List Act
  switched none = (false, both_closed)
  switched (some status) =
      if status == 101
      then tell (answered status) (passed_on (net.write_response status))
      else (false, answered status ∷ both_closed)

  abbrev pub shaken : Bool → Bool × List Act
  shaken false = (false, both_closed)
  shaken true = switched net.read_response

  abbrev pub dialled : Url → Request → Bool → Bool × List Act
  dialled url r false = (false, close_client ∷ [])
  dialled url r true =
      tell open_upstream
        (tell (sent_handshake (handshake url r)) (shaken (net.write_request (handshake url r))))

  abbrev pub hijacked : Url → Request → Bool → Bool × List Act
  hijacked url r false = (false, [])
  hijacked url r true = tell open_client (dialled url r (net.dial (uses_tls url.scheme) url.host))

  -- `handleWebSocket`: whether it ends with no error.
  unfoldable pub handle_websocket : Url → Request → Bool × List Act
  handle_websocket url r =
      if net.can_hijack then hijacked url r net.hijack else (false, http_error 500 ∷ [])
