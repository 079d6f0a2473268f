-- ===== src/Middleware/Wrapping.antt =====
-- internal/middleware/requestid.go, cors.go and recovery.go: handlers around a handler. The new id
-- and http.Error are given.
pub mod Ids
use web_server.Prelude.{ℕ, if◌then◌else◌, List, [], ◌∷◌, ◌++◌}
use web_server.Text.{Bytes, codes, eqb}
use web_server.Http.Header.{Header, set}
use web_server.Http.Message.{Request}
use web_server.Proxy.Copier.{ResponseWriter, head}

-- How a call of ServeHTTP ends.
pub data Ending : Type 0 where
  returned : ResponseWriter → Ending
  panicked : ResponseWriter → Ending

abbrev pub Handler : Type 0
Handler = Request → ResponseWriter → Ending

abbrev pub request_id : Bytes → Handler → Handler
request_id id next r w =
    next (record r { header = set (codes "X-Request-ID") id r.header })
      (record w { header = set (codes "X-Request-ID") id w.header })

abbrev pub recovered : (ℕ → ResponseWriter → ResponseWriter) → Ending → Ending
recovered http_error (returned w) = returned w
recovered http_error (panicked w) = returned (http_error 500 w)

abbrev pub recovery : (ℕ → ResponseWriter → ResponseWriter) → Handler → Handler
recovery http_error next r w = recovered http_error (next r w)

abbrev pub cors_headers : Header → Header
cors_headers h =
    set (codes "Access-Control-Allow-Methods") (codes "GET, POST, PUT, DELETE, OPTIONS") (
      set (codes "Access-Control-Allow-Headers") (codes "*")
        (set (codes "Access-Control-Allow-Origin") (codes "*") h))

abbrev pub cors : Handler → Handler
cors next r w =
    let w' = record w { header = cors_headers w.header } in
    if eqb r.method (codes "OPTIONS")
    then returned (record w' { output = w'.output ++ head 204 w'.header ∷ [] })
    else next r w'
