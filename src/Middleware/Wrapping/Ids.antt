-- ===== src/Middleware/Wrapping/Ids.antt =====
-- A request's id on both sides of the gateway, and the headers for browsers.
use web_server.Prelude.{Option, ℕ, ◌≡◌, refl, ap, ◌∙◌, Bool, false, if◌then◌else◌, [], ◌∷◌, ◌++◌}
use web_server.Text.{Bytes, codes, eqb}
use web_server.Http.Header.{Header, canonical, lookup, set, lookup-set}
use web_server.Http.Message.{Request, Response}
use web_server.Upstream.{Url}
use web_server.Proxy.Headers.{hop_by_hop_headers}
use web_server.Proxy.Headers.Laws.{listed}
use web_server.Proxy.Forward.{outbound_request}
use web_server.Proxy.Forward.Laws.{outbound_request-lookup, forwarded_headers}
use web_server.Proxy.Copier.{ResponseWriter, head, body, headers_of, write_response}
use web_server.Proxy.Copier.Laws.{IsMap, lookup-headers_of, ending, write_response-output}
use web_server.Middleware.Wrapping.{returned, Handler, request_id, recovery, cors, cors_headers}

abbrev pub id_name : Bytes
id_name = codes "X-Request-Id"

abbrev pub origin_name : Bytes
origin_name = codes "Access-Control-Allow-Origin"

-- The names as the code writes them, and those that it does not touch.
id_set : (id : Bytes) (h : Header) → lookup id_name (set (codes "X-Request-ID") id h) ≡ id ∷ []
unfolding canonical eqb
id_set id h = lookup-set (codes "X-Request-ID") id id_name h

cors_headers-id : (h : Header) → lookup id_name (cors_headers h) ≡ lookup id_name h
unfolding canonical eqb
cors_headers-id h =
    lookup-set (codes "Access-Control-Allow-Methods") _ id_name _
    ∙ lookup-set (codes "Access-Control-Allow-Headers") _ id_name _
    ∙ lookup-set (codes "Access-Control-Allow-Origin") _ id_name h

cors_headers-origin : (h : Header) → lookup origin_name (cors_headers h) ≡ codes "*" ∷ []
unfolding canonical eqb
cors_headers-origin h =
    lookup-set (codes "Access-Control-Allow-Methods") _ origin_name _
    ∙ lookup-set (codes "Access-Control-Allow-Headers") _ origin_name _
    ∙ lookup-set (codes "Access-Control-Allow-Origin") (codes "*") origin_name h

-- Neither name is one that is removed or rewritten on the way.
id_passes :
    (listed id_name forwarded_headers ≡ false)
    × (listed id_name hop_by_hop_headers ≡ false)
    × (eqb (canonical (codes "Trailer")) id_name ≡ false)
unfolding canonical eqb
id_passes = (refl, refl, refl)

origin_passes :
    (listed origin_name hop_by_hop_headers ≡ false)
    × (eqb (canonical (codes "Trailer")) origin_name ≡ false)
unfolding canonical eqb
origin_passes = (refl, refl)

module _ (split_host_port : Bytes → Option (Bytes × Bytes)) (url : Url)
    (copy : Bytes → Bytes × Bool) (answer : Request → Response) where
  -- A handler that sends the request to an upstream, and its response to the client.
  abbrev pub relaying : Handler
  relaying r w =
      returned (write_response copy (answer (outbound_request split_host_port url r)) w).0

  module _ (http_error : ℕ → ResponseWriter → ResponseWriter) (id : Bytes) (r : Request)
      (w : ResponseWriter) where
    -- What the upstream receives, and answers.
    abbrev pub sent : Request
    sent =
        outbound_request split_host_port url
          (record r { header = set (codes "X-Request-ID") id r.header })

    abbrev pub gateway_header : Header
    gateway_header =
        headers_of (answer sent) (cors_headers (set (codes "X-Request-ID") id w.header))

    wrapped :
        eqb r.method (codes "OPTIONS") ≡ false
        → request_id id (recovery http_error (cors relaying)) r w
          ≡ relaying
              (record r { header = set (codes "X-Request-ID") id r.header })
              (record w { header = cors_headers (set (codes "X-Request-ID") id w.header) })
    wrapped m = rw m refl

    lookup-gateway_header :
        (j : Bytes)
        → IsMap (answer sent).header
        → eqb (canonical (codes "Trailer")) j ≡ false
        → listed j hop_by_hop_headers ≡ false
        → lookup j gateway_header
          ≡ lookup j (cors_headers (set (codes "X-Request-ID") id w.header))
            ++ lookup j (answer sent).header
    lookup-gateway_header j m e l =
        lookup-headers_of (answer sent) j (cors_headers (set (codes "X-Request-ID") id w.header)) m
          e
        ∙ ap
            (λ (b : Bool).
              lookup j (cors_headers (set (codes "X-Request-ID") id w.header))
              ++ (if b then [] else lookup j (answer sent).header))
            l

    -- Through the three middlewares, a request that is not OPTIONS reaches the upstream with the new
    -- id alone, whatever id the client has sent; and the client receives that id, and the origin
    -- `*` for browsers, each followed by those that the upstream's response has: it has two if the
    -- upstream has set its own. The names in the response are canonical and occur once.
    pub request_id_forwarded :
        eqb r.method (codes "OPTIONS") ≡ false
        → IsMap (answer sent).header
        → ((w' : ResponseWriter) × (request_id id (recovery http_error (cors relaying)) r w
              ≡ returned w')
            × (w'.output
                ≡ w.output
                  ++ head (answer sent).status_code gateway_header
                    ∷ body (copy (answer sent).body).0
                    ∷ ending copy (answer sent) w))
          × (lookup id_name sent.header ≡ id ∷ [])
          × (lookup id_name gateway_header ≡ id ∷ lookup id_name (answer sent).header)
          × (lookup origin_name gateway_header
              ≡ codes "*" ∷ lookup origin_name (answer sent).header)
    request_id_forwarded o m = (
      (
        (write_response copy (answer sent)
            (record w { header = cors_headers (set (codes "X-Request-ID") id w.header) })).0,
        wrapped o,
        write_response-output copy (answer sent)
            (record w { header = cors_headers (set (codes "X-Request-ID") id w.header) }),
      ),
      outbound_request-lookup split_host_port url
            (record r { header = set (codes "X-Request-ID") id r.header }) id_name id_passes.0
          ∙ ap
              (λ (b : Bool).
                if b then [] else lookup id_name (set (codes "X-Request-ID") id r.header))
              id_passes.1
          ∙ id_set id r.header,
      lookup-gateway_header id_name m id_passes.2 id_passes.1
          ∙ ap (λ l. l ++ lookup id_name (answer sent).header)
              (cors_headers-id (set (codes "X-Request-ID") id w.header) ∙ id_set id w.header),
      lookup-gateway_header origin_name m origin_passes.1 origin_passes.0
          ∙ ap (λ l. l ++ lookup origin_name (answer sent).header)
              (cors_headers-origin (set (codes "X-Request-ID") id w.header)),
    )
