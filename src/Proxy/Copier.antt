-- ===== src/Proxy/Copier.antt =====
-- internal/proxy/copier.go: the response of an upstream, written to the client. What io.Copy has
-- written of the body, and whether there was no error, is given.
pub mod Laws
use web_server.Prelude.{ℕ, Bool, true, false, if◌then◌else◌, List, [], ◌∷◌, ◌++◌}
use web_server.Text.{Bytes, codes}
use web_server.Http.Header.{Header, add}
use web_server.Http.Message.{Response}
use web_server.Proxy.Headers.{remove_hop_by_hop_headers}

-- The inner loop over the values of a name, and `copyHeaders`; `copyTrailers` is the same code.
unfoldable pub add_values : Bytes → List Bytes → Header → Header
add_values k [] dst = dst
add_values k (v ∷ vs) dst = add_values k vs (add k v dst)

unfoldable pub copy_headers : Header → Header → Header
copy_headers [] dst = dst
copy_headers ((k, vs) ∷ src) dst = copy_headers src (add_values k vs dst)

unfoldable pub declare_trailers : Header → Header → Header
declare_trailers [] dst = dst
declare_trailers ((key, vs) ∷ trailers) dst =
    declare_trailers trailers (add (codes "Trailer") key dst)

-- What reaches the client: the header with its status, the body, and the trailers with which a
-- writer that can be flushed is.
pub data Output : Type 0 where
  head : ℕ → Header → Output
  body : Bytes → Output
  flushed : Output

pub record ResponseWriter : Type 0 where
  pub header : Header
  pub can_flush : Bool
  pub output : List Output

abbrev pub flush : ResponseWriter → ResponseWriter
flush w = if w.can_flush then record w { output = w.output ++ flushed ∷ [] } else w

abbrev pub finish_response : Header → Bool → ResponseWriter → ResponseWriter × Bool
finish_response trailer false w = (w, false)
finish_response trailer true w = (flush (record w { header = copy_headers trailer w.header }), true)

abbrev pub headers_of : Response → Header → Header
headers_of resp header =
    declare_trailers resp.trailer (copy_headers (remove_hop_by_hop_headers resp.header) header)

-- `writeResponse`: whether there was no error. Without trailers the loop declares none.
unfoldable pub write_response :
    (Bytes → Bytes × Bool) → Response → ResponseWriter → ResponseWriter × Bool
write_response copy resp w =
    let h = headers_of resp w.header in
    let (written, ok) = copy resp.body in
    finish_response resp.trailer ok
      (record w { header = h; output = w.output ++ head resp.status_code h ∷ body written ∷ [] })
