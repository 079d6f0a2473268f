-- ===== src/Proxy/Forward/Laws.antt =====
-- What the upstream receives.
use web_server.Upstream.{Url}
use web_server.Http.Message.{Request}
use web_server.Proxy.Headers.{hop_by_hop_headers, remove_hop_by_hop_headers}
use web_server.Proxy.Headers.Laws.{listed, lookup-remove_hop_by_hop}
use web_server.Proxy.Forward.{
  outbound_request, prepare_outbound_request, rewrite_request, append_forward_headers, forward_for,
  forward_proto, forward_host, join_forwarded,
}
use web_server.Prelude.{
  none, some, ap, ◌∙◌, some, ◌≢◌, arith, true, false, if◌then◌else◌, [], ◌∷◌, Bool, List, Option,
  ◌≡◌, refl,
}
use web_server.Text.{eqb, Bytes, codes}
use web_server.Http.Header.{lookup-set, get, lookup, Header, canonical}

-- The names that the gateway writes itself.
abbrev pub forwarded_headers : List Bytes
forwarded_headers =
    codes "X-Forwarded-For" ∷ codes "X-Forwarded-Proto" ∷ codes "X-Forwarded-Host" ∷ []

lookup-forward_host :
    (host j : Bytes) (h : Header)
    → eqb (canonical (codes "X-Forwarded-Host")) j ≡ false
    → lookup j (forward_host host h) ≡ lookup j h
lookup-forward_host [] j h e = refl
lookup-forward_host (c ∷ host) j h e =
    lookup-set (codes "X-Forwarded-Host") (c ∷ host) j h
    ∙ ap (λ (b : Bool). if b then (c ∷ host) ∷ [] else lookup j h) e

names_differ : eqb (canonical (codes "X-Forwarded-Host")) (codes "X-Forwarded-Proto") ≡ false
unfolding canonical eqb
names_differ = refl

proto_same : eqb (canonical (codes "X-Forwarded-Proto")) (codes "X-Forwarded-Proto") ≡ true
unfolding canonical eqb
proto_same = refl

host_same : eqb (canonical (codes "X-Forwarded-Host")) (codes "X-Forwarded-Host") ≡ true
unfolding canonical eqb
host_same = refl

lookup-forward_host_self :
    (host : Bytes) (h : Header)
    → host ≢ []
    → lookup (codes "X-Forwarded-Host") (forward_host host h) ≡ host ∷ []
lookup-forward_host_self [] h ne = absurd (ne refl)
lookup-forward_host_self (c ∷ host) h ne =
    let name = codes "X-Forwarded-Host" in
    lookup-set name (c ∷ host) name h
    ∙ ap (λ (b : Bool). if b then (c ∷ host) ∷ [] else lookup name h) host_same

lookup-forward_for :
    (peer : Option (Bytes × Bytes)) (j : Bytes) (h : Header)
    → eqb (canonical (codes "X-Forwarded-For")) j ≡ false
    → lookup j (forward_for peer h) ≡ lookup j h
lookup-forward_for none j h e = refl
lookup-forward_for (some (ip, port)) j h e =
    let v = join_forwarded (get (codes "X-Forwarded-For") h) ip in
    lookup-set (codes "X-Forwarded-For") v j h
    ∙ ap (λ (b : Bool). if b then v ∷ [] else lookup j h) e

lookup-forward_proto :
    (tls : Bool) (j : Bytes) (h : Header)
    → eqb (canonical (codes "X-Forwarded-Proto")) j ≡ false
    → lookup j (forward_proto tls h) ≡ lookup j h
lookup-forward_proto tls j h e =
    let v = if tls then codes "https" else codes "http" in
    lookup-set (codes "X-Forwarded-Proto") v j h
    ∙ ap (λ (b : Bool). if b then v ∷ [] else lookup j h) e

module _ (split_host_port : Bytes → Option (Bytes × Bytes)) (url : Url) (r : Request) where
  -- An upstream receives the client's headers, less the hop-by-hop names of the table: any other
  -- name has the client's values, but for the three names that the gateway writes itself.
  pub outbound_request-lookup :
      (k : Bytes)
      → listed k forwarded_headers ≡ false
      → lookup k (outbound_request split_host_port url r).header
        ≡ (if listed k hop_by_hop_headers then [] else lookup k r.header)
  unfolding outbound_request prepare_outbound_request append_forward_headers rewrite_request
  outbound_request-lookup k out =
      let h = remove_hop_by_hop_headers r.header in
      let peer = split_host_port r.remote_addr in
      lookup-forward_host url.host k (forward_proto r.tls (forward_for peer h)) (ground arith)
      ∙ lookup-forward_proto r.tls k (forward_for peer h) (ground arith)
      ∙ lookup-forward_for peer k h (ground arith)
      ∙ lookup-remove_hop_by_hop r.header k

  -- A request to an upstream whose host is not empty goes to that host under its name, with method
  -- and path kept, and X-Forwarded-Proto says by which protocol the client came; X-Forwarded-Host is
  -- the upstream's host again, and not the one that the client asked for.
  pub outbound_request_forwarded :
      url.host ≢ []
      → let q = outbound_request split_host_port url r in
        (q.url_host ≡ url.host)
        × (q.host ≡ url.host)
        × (q.method ≡ r.method)
        × (q.path ≡ r.path)
        × (lookup (codes "X-Forwarded-Proto") q.header
            ≡ (if r.tls then codes "https" else codes "http") ∷ [])
        × (lookup (codes "X-Forwarded-Host") q.header ≡ url.host ∷ [])
  unfolding outbound_request prepare_outbound_request append_forward_headers rewrite_request
  outbound_request_forwarded ne =
      let h = forward_for (split_host_port r.remote_addr) (remove_hop_by_hop_headers r.header) in
      let v = if r.tls then codes "https" else codes "http" in
      (
        refl,
        refl,
        refl,
        refl,
        lookup-forward_host url.host (codes "X-Forwarded-Proto") (forward_proto r.tls h)
              names_differ
            ∙ lookup-set (codes "X-Forwarded-Proto") v (codes "X-Forwarded-Proto") h
            ∙ ap (λ (b : Bool). if b then v ∷ [] else lookup (codes "X-Forwarded-Proto") h)
                proto_same,
        lookup-forward_host_self url.host (forward_proto r.tls h) ne,
      )
