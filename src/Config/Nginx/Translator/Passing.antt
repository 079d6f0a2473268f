-- ===== src/Config/Nginx/Translator/Passing.antt =====
-- The locations of such a file: proxy_pass of internal/config/nginx_translator.go.
use mathlib.Core.List.{append-nil, append_assoc}
use web_server.Prelude.{
  ℕ, ◌≡◌, ◌≢◌, refl, ap, sym, ◌∙◌, List, [], ◌∷◌, ◌++◌, map, Option, some, All, arith,
}
use web_server.Text.{Bytes, codes, eqb}
use web_server.Text.Scan.{cut_prefix, trim_right_byte, keep_byte, before_byte, after}
use web_server.Config.{Float, RouteConfig, UpstreamConfig}
use web_server.Config.Nginx.Units.{extract_group_name}
use web_server.Config.Nginx.Translator.{Groups, assigned, upstream_nodes, weight_of}
use web_server.Config.Nginx.Translator.Location.{
  Location, with_upstreams, new_location, proxy_pass, pass_to, location_nodes, parse_location_block,
}
use web_server.Config.Nginx.Translator.Server.{
  add_location, add_route, propagate, server_node, server_nodes,
}
use web_server.Config.Nginx.Translator.Site.{
  Backend, Place, backend_nodes, place_nodes, location_lines, upstream_at, route_at, IsPlace,
  at_routes,
}
use web_server.Config.Nginx.Translator.{with_scheme, weight_or}
use web_server.Config.Nginx.Units.{parse_duration_seconds}
use web_server.Config.Nginx.Units.Printed.{parse_duration_seconds-unit, once}
use web_server.Text.{lower}
use web_server.Text.Number.Decimal.{decimal, atoi-decimal}
use web_server.Prelude.{two_63, ◌<◌}

before_byte_none : (b : ℕ) (s : Bytes) → All (λ c. c ≢ b) s → before_byte b s ≡ s
unfolding before_byte
before_byte_none b [] h = refl
before_byte_none b (c ∷ s) h = ground (arith, h.0, before_byte_none b s h.1)

trim_right_byte_none :
    (b c : ℕ) (s : Bytes) → All (λ c. c ≢ b) (c ∷ s) → trim_right_byte b (c ∷ s) ≡ c ∷ s
unfolding trim_right_byte
trim_right_byte_none b c [] h = ground (arith, h.0)
trim_right_byte_none b c (d ∷ s) h = ap (keep_byte b c) (trim_right_byte_none b d s h.1)

module _ (c : ℕ) (s : Bytes) (h : All (λ c. c ≢ b'/') (c ∷ s)) where
  trim_right_byte-target :
      trim_right_byte b'/' (codes "http://" ++ c ∷ s) ≡ codes "http://" ++ c ∷ s
  unfolding trim_right_byte
  trim_right_byte-target =
      ap
        (λ t. keep_byte b'/' b'h' (
          keep_byte b'/' b't' (
            keep_byte b'/' b't' (
              keep_byte b'/' b'p'
                (keep_byte b'/' b':' (keep_byte b'/' b'/' (keep_byte b'/' b'/' t)))))))
        (trim_right_byte_none b'/' c s h)

  extract_group_name-target : extract_group_name (codes "http://" ++ c ∷ s) ≡ c ∷ s
  unfolding extract_group_name after cut_prefix
  extract_group_name-target = before_byte_none b'/' (c ∷ s) h

weight_of-decimal : (w : ℕ) → w < two_63 → weight_of 1 ((codes "weight=" ++ decimal w) ∷ []) ≡ w
unfolding weight_of cut_prefix
weight_of-decimal w r = ap (weight_or 1) (atoi-decimal w r)

pub upstream_nodes-backend_nodes :
    (backends : List Backend) (us : List UpstreamConfig) (algo : Bytes)
    → All (λ b. Backend.weight b < two_63) backends
    → upstream_nodes (backend_nodes backends) (us, algo) ≡ (us ++ map upstream_at backends, algo)
unfolding upstream_nodes eqb
upstream_nodes-backend_nodes [] us algo r = ap (λ l. (l, algo)) (sym (append-nil us))
upstream_nodes-backend_nodes (b ∷ backends) us algo r =
    ap
      (λ w.
        upstream_nodes (backend_nodes backends)
          (us ++ record { url = with_scheme b.address; weight = w } ∷ [], algo))
      (weight_of-decimal b.weight r.0)
    ∙ upstream_nodes-backend_nodes backends (us ++ upstream_at b ∷ []) algo r.1
    ∙ ap (λ l. (l, algo)) (append_assoc us (upstream_at b ∷ []) (map upstream_at backends))

-- A time in seconds.
parse_seconds : (t : ℕ) → t < two_63 → parse_duration_seconds (decimal t ++ codes "s") ≡ t
unfolding lower
parse_seconds t r = parse_duration_seconds-unit t r b's' 1 refl ∙ once t r

module _ (groups : Groups) (c : ℕ) (s : Bytes) (u : UpstreamConfig) (us : List UpstreamConfig)
    (host : Bytes) (body : ℕ) where
  abbrev pub HasGroup : Type 0
  HasGroup = assigned (c ∷ s) groups.upstreams ≡ some (u ∷ us)

  abbrev timed : Location → ℕ → Option (RouteConfig × Bytes)
  timed l t =
      let l' : Location = record l { route = record l.route { timeout_seconds = t } } in
      with_upstreams l' l'.route.upstreams

  -- A location that passes to the group is a route to its addresses.
  parse_location_block-group :
      (p : Place)
      → All (λ d. d ≢ b'/') (c ∷ s)
      → HasGroup
      → p.timeout < two_63
      → parse_location_block groups p.prefix host body (place_nodes (c ∷ s) p)
        ≡ some (route_at host body (u ∷ us) p, c ∷ s)
  unfolding parse_location_block location_nodes eqb
  parse_location_block-group p h g r =
      let l : Location = new_location p.prefix host body in
      let time = parse_duration_seconds (decimal p.timeout ++ codes "s") in
      let passed : proxy_pass groups ((codes "http://" ++ c ∷ s) ∷ []) l
          ≡ pass_to (codes "http://" ++ c ∷ s) (c ∷ s) (some (u ∷ us)) l =
        ap
          (λ t.
            pass_to t (extract_group_name t) (assigned (extract_group_name t) groups.upstreams) l)
          (trim_right_byte-target c s h)
        ∙ ap (λ n. pass_to (codes "http://" ++ c ∷ s) n (assigned n groups.upstreams) l)
            (extract_group_name-target c s h)
        ∙ ap (λ o. pass_to (codes "http://" ++ c ∷ s) (c ∷ s) o l) g in
      ap (λ m. timed m time) passed
      ∙ ap (timed (pass_to (codes "http://" ++ c ∷ s) (c ∷ s) (some (u ∷ us)) l))
          (parse_seconds p.timeout r)

  module _ (parse_float : Bytes → Option Float) (by_60 : Float → Float) where
    pub location_step :
        (p : Place) (algo : Bytes) (routes : List RouteConfig)
        → All (λ d. d ≢ b'/') (c ∷ s)
        → HasGroup
        → IsPlace p
        → server_node parse_float by_60 groups
            (codes "location")
            (p.prefix ∷ [])
            (place_nodes (c ∷ s) p)
            (at_routes host body algo routes)
          ≡ at_routes host body
              (propagate groups algo (c ∷ s))
              (routes ++ route_at host body (u ∷ us) p ∷ [])
    unfolding eqb
    location_step p algo routes h g isp =
        ap (λ o. add_location groups (place_nodes (c ∷ s) p) o (at_routes host body algo routes))
          isp.0
        ∙ ap (λ o. add_route groups o (at_routes host body algo routes))
            (parse_location_block-group p h g isp.1)

    -- From the second location on the algorithm is known.
    pub server_nodes-locations :
        (places : List Place) (routes : List RouteConfig)
        → All (λ d. d ≢ b'/') (c ∷ s)
        → HasGroup
        → All IsPlace places
        → server_nodes parse_float by_60 groups
            (location_lines (c ∷ s) places)
            (at_routes host body (codes "least_conn") routes)
          ≡ at_routes host body
              (codes "least_conn")
              (routes ++ map (route_at host body (u ∷ us)) places)
    unfolding server_nodes
    server_nodes-locations [] routes h g isp =
        ap (at_routes host body (codes "least_conn")) (sym (append-nil routes))
    server_nodes-locations (p ∷ places) routes h g isp =
        ap (server_nodes parse_float by_60 groups (location_lines (c ∷ s) places))
          (location_step p (codes "least_conn") routes h g isp.0)
        ∙ server_nodes-locations places (routes ++ route_at host body (u ∷ us) p ∷ []) h g isp.1
        ∙ ap (at_routes host body (codes "least_conn")) (
            append_assoc routes (route_at host body (u ∷ us) p ∷ [])
              (map (route_at host body (u ∷ us)) places))
