-- ===== src/Proxy/Forward.antt =====
-- internal/proxy/request.go: the request that an upstream receives.
pub mod Laws
use web_server.Prelude.{Bool, ◌++◌, [], ◌∷◌, Option, none, some, if◌then◌else◌}
use web_server.Text.{Bytes, codes}
use web_server.Http.Header.{Header, get, set}
use web_server.Http.Message.{Request}
use web_server.Upstream.{Url}
use web_server.Proxy.Headers.{remove_hop_by_hop_headers}

-- `rewriteRequest`. The copy of `cloneRequest` is a value here, so that nothing is shared.
unfoldable pub rewrite_request : Url → Request → Request
rewrite_request url r = record r { url_scheme = url.scheme; url_host = url.host; host = url.host }

abbrev join_forwarded : Bytes → Bytes → Bytes
join_forwarded [] ip = ip
join_forwarded (c ∷ prior) ip = (c ∷ prior) ++ codes ", " ++ ip

abbrev forward_for : Option (Bytes × Bytes) → Header → Header
forward_for none h = h
forward_for (some (ip, port)) h =
    set (codes "X-Forwarded-For") (join_forwarded (get (codes "X-Forwarded-For") h) ip) h

abbrev forward_proto : Bool → Header → Header
forward_proto tls h =
    set (codes "X-Forwarded-Proto") (if tls then codes "https" else codes "http") h

abbrev forward_host : Bytes → Header → Header
forward_host [] h = h
forward_host (c ∷ host) h = set (codes "X-Forwarded-Host") (c ∷ host) h

-- net.SplitHostPort is given: the host and the port of an address, or `none` for an error.
module _ (split_host_port : Bytes → Option (Bytes × Bytes)) where
  unfoldable pub append_forward_headers : Request → Request
  unfolding get set
  append_forward_headers r = record r {
    header =
        forward_host r.host
          (forward_proto r.tls (forward_for (split_host_port r.remote_addr) r.header));
  }

  unfoldable pub prepare_outbound_request : Request → Request
  unfolding append_forward_headers remove_hop_by_hop_headers
  prepare_outbound_request r =
      append_forward_headers (record r { header = remove_hop_by_hop_headers r.header })

  -- The request of `forward`, up to the call of the transport.
  unfoldable pub outbound_request : Url → Request → Request
  unfolding rewrite_request prepare_outbound_request
  outbound_request url r = prepare_outbound_request (rewrite_request url r)
