-- ===== src/Tests/Serving.antt =====
-- Routers, reloads, responses and tunnels at concrete inputs.
use web_server.Admin.{Endpoint, post_reload, get_route, get_routes}
use web_server.Admin.Laws.{api_requests, read_last, answers_from, api_requests-server_of}
use web_server.Middleware.Logging.{Entry, logging, logging-total}
use web_server.Upstream.{Url}
use web_server.Prelude.{
  ℕ, ◌+◌, ◌%◌, ◌≡◌, refl, Bool, true, false, ◌∷◌, [], List, ◌++◌, none, some, All, if◌then◌else◌,
  two_64, length,
}
use web_server.Text.{Bytes, codes, eqb}
use web_server.Text.Scan.{contains, join_spaces}
use web_server.Http.Header.{Header, lookup, canonical}
use web_server.Http.Message.{Response}
use web_server.Config.{Config, RouteConfig}
use web_server.Config.Loading.{Files}
use web_server.Config.Nginx.{Nodes, node, no_nodes, more}
use web_server.Config.Nginx.Units.{parse_limit_req_burst}
use web_server.Text.Number.{atoi}
use web_server.Config.Nginx.Translator.{Groups, assigned}
use web_server.Config.Nginx.Translator.Location.{new_location, location_nodes, parse_location_block}
use web_server.Plugin.Builtin.{Libraries, Middleware}
use web_server.Plugin.Builtin.Translated.{IsMade, parse_location_block-IsMade}
use web_server.Proxy.Headers.{hop_by_hop_headers}
use web_server.Proxy.Headers.Laws.{listed}
use web_server.Proxy.Copier.{head, body, ResponseWriter, write_response}
use web_server.Proxy.Copier.Laws.{IsMap, ending, trailers, write_response-lookup}
use web_server.Proxy.Tunnel.Relay.{Move, new_relay, relay}
use web_server.Proxy.Tunnel.Relay.Carried.{IsRelayed}
use web_server.Proxy.Tunnel.Relay.Delivery.{delivered, new_relay-IsRelayed}
use web_server.Admin.Laws.{server_of}
use web_server.Router.Order.{Wrappers}
use web_server.Tests.Data.{get_request}
use web_server.Middleware.Recorder.{
  Inner, Call, write_status_call, write_call, read_from_call, calls, new_recorder,
}
use web_server.Middleware.Recorder.Counts.{total, last_status, missed}
use web_server.Tests.Configs.{config, registry, plugin_list, parse_url, engine_handler}
use web_server.Tests.Files.{files}
use web_server.Tests.Plugins.{single, no_query, empty_query, parse_token}

-- A handler is a text here, and a middleware puts a text in front.
abbrev libraries : Libraries
libraries = record {
  net = single;
  parse_query = no_query;
  encode_query = empty_query;
  parse_token = parse_token;
}

abbrev apply : Middleware → Bytes → Bytes
apply m h = b'm' ∷ h

abbrev groups : Groups
groups = record { upstreams = []; algorithms = [] }

-- proxy_pass http://b; limit_req burst=5; proxy_set_header X-A 1;
abbrev location_block : Nodes
location_block = more (node (codes "proxy_pass") (codes "http://b" ∷ []) no_nodes) (
    more (node (codes "limit_req") (codes "burst=5" ∷ []) no_nodes)
      (more (node (codes "proxy_set_header") (codes "X-A" ∷ codes "1" ∷ []) no_nodes) no_nodes))

abbrev location_route : RouteConfig
unfolding location_nodes eqb
location_route = (location_nodes groups location_block (new_location (codes "/a") [] 0)).route

location_parsed :
    parse_location_block groups (codes "/a") [] 0 location_block ≡ some (location_route, [])
unfolding parse_location_block location_nodes eqb contains join_spaces parse_limit_req_burst atoi
    assigned
location_parsed = refl

parse_location_block-IsMade_example : All (IsMade libraries apply) location_route.plugins
parse_location_block-IsMade_example =
    parse_location_block-IsMade libraries apply groups (codes "/a") [] 0 location_block
      location_parsed

new_relay-IsRelayed_example :
    ((ms : List Move)
      → IsRelayed
          (codes "ab")
          (codes "xyz")
          (relay ms (new_relay (codes "a") (codes "b") (codes "xyz"))))
    × ((ms : List Move) × (relay ms (new_relay (codes "a") (codes "b") (codes "xyz")) ≡ record {
      up = delivered (codes "ab");
      down = delivered (codes "xyz");
      cancelled = false;
      closed = true;
    }))
new_relay-IsRelayed_example = new_relay-IsRelayed (codes "a") (codes "b") (codes "xyz")

abbrev response : Response
response = record {
  status_code = 200;
  header = (codes "Etag", codes "7" ∷ []) ∷ (codes "Upgrade", codes "h2c" ∷ []) ∷ [];
  trailer = (codes "Etag", codes "8" ∷ []) ∷ [];
  body = codes "hello";
}

abbrev writer : ResponseWriter
writer = record { header = (codes "Etag", codes "6" ∷ []) ∷ []; can_flush = true; output = [] }

-- All of the body is written.
abbrev copy_all : Bytes → Bytes × Bool
copy_all b = (b, true)

response-IsMap : IsMap response.header
unfolding canonical lookup eqb
response-IsMap = (refl, (refl, (refl, (refl, tt))))

trailer-IsMap : IsMap response.trailer
unfolding canonical lookup
trailer-IsMap = (refl, (refl, tt))

no_trailer_field : eqb (canonical (codes "Trailer")) (codes "Etag") ≡ false
unfolding canonical eqb
no_trailer_field = refl

write_response-lookup_example :
    (h : Header) × ((write_response copy_all response writer).0.output
      ≡ [] ++ head 200 h ∷ body (codes "hello") ∷ ending copy_all response writer)
    × (lookup (codes "Etag") h
        ≡ lookup (codes "Etag") writer.header
          ++ (if listed (codes "Etag") hop_by_hop_headers
              then []
              else lookup (codes "Etag") response.header))
    × (lookup (codes "Etag") (write_response copy_all response writer).0.header
        ≡ lookup (codes "Etag") h ++ trailers copy_all response writer (codes "Etag"))
write_response-lookup_example =
    write_response-lookup copy_all response writer (codes "Etag") response-IsMap trailer-IsMap
      no_trailer_field

-- The first reload finds a configuration, and the second one none.
abbrev no_files : Files
no_files = record files { viper = λ loaded. none }

abbrev api_run : List (Endpoint × Files)
api_run =
    (post_reload, files)
    ∷ (get_route (codes "r1"), files)
    ∷ (post_reload, no_files)
    ∷ (get_routes, files)
    ∷ []

api_requests-server_of_example :
    api_requests parse_url engine_handler api_run
      (server_of parse_url engine_handler registry config)
    ≡ (
      server_of parse_url engine_handler registry
          (read_last parse_url engine_handler api_run config),
      answers_from parse_url engine_handler registry api_run config,
    )
api_requests-server_of_example =
    api_requests-server_of parse_url engine_handler registry api_run config

abbrev wrappers : Wrappers Bytes
wrappers = record {
  with_request_id = λ h. b'i' ∷ h;
  with_recovery = λ h. b'r' ∷ h;
  with_logging = λ h. b'l' ∷ h;
  with_cors = λ h. b'o' ∷ h;
  with_timeout = λ ns h. b't' ∷ h;
  with_rate_limit = λ cfg h. b'b' ∷ h;
  with_gzip = λ cfg h. b'g' ∷ h;
}

abbrev with_plugins : Config
with_plugins = record config { plugins = plugin_list }

-- A writer that can do nothing but write.
abbrev plain : Inner
plain = record {
  is_flusher = false;
  is_hijacker = false;
  is_pusher = false;
  is_reader_from = false;
  takes = λ b. length b;
}

abbrev handler_calls : List (Call plain)
handler_calls = write_status_call 404 ∷ write_call (codes "abc") ∷ read_from_call (codes "de") ∷ []

logging-total_example :
    let sent = (calls plain handler_calls new_recorder).events in
    (logging plain 5 8 get_request handler_calls true ≡ none)
    × ((e : Entry) × (logging plain 5 8 get_request handler_calls false ≡ some e)
        × (e.status ≡ last_status 200 sent)
        × ((e.bytes + missed plain handler_calls) % two_64 ≡ total sent % two_64))
logging-total_example = logging-total plain 5 8 get_request handler_calls

-- http.Error, as far as it matters here.
abbrev fail_with : ℕ → ResponseWriter → ResponseWriter
fail_with s w = record w { output = w.output ++ head s w.header ∷ [] }

abbrev backend_url : Url
backend_url = record { scheme = codes "http"; host = codes "b" }

no_options : eqb get_request.method (codes "OPTIONS") ≡ false
unfolding eqb
no_options = refl
