-- ===== src/Http/Message.antt =====
-- http.Request and http.Response, as far as the gateway uses them.
use web_server.Prelude.{ℕ, Bool, Option}
use web_server.Text.{Bytes}
use web_server.Http.Header.{Header}

-- The fields of *http.Request that the gateway reads or writes. `body_limit` is the limit of the
-- http.MaxBytesReader around the body, if there is one; the body itself is passed on unread.
pub record Request : Type 0 where
  pub method : Bytes
  pub url_scheme : Bytes
  pub url_host : Bytes
  pub path : Bytes
  pub raw_query : Bytes
  pub host : Bytes
  pub header : Header
  pub remote_addr : Bytes
  pub tls : Bool
  pub body_limit : Option ℕ

pub record Response : Type 0 where
  pub status_code : ℕ
  pub header : Header
  pub trailer : Header
  pub body : Bytes
