-- ===== src/Plugin/KeyAuth.antt =====
-- internal/plugin/plugins/key_auth.go. The parsing and the encoding of a query by net/url are given;
-- a parsed query is a map like a header, with its keys as they are.
pub mod Laws
use web_server.Prelude.{
  ℕ, Bool, true, false, ◌||◌, if◌then◌else◌, List, [], ◌∷◌, Option, none, some,
}
use web_server.Text.{Bytes, codes, eqb}
use web_server.Http.Header.{Header, get, del, lookup, delete, first}
use web_server.Http.Message.{Request}
use web_server.Config.{Values, Fields, nil, item}
use web_server.Config.Maps.{field_of}
use web_server.Plugin.{Verdict, refuse, forward, items_of, text_items, string_or, bool_val}

pub record KeyAuth : Type 0 where
  pub header : Bytes
  pub query : Bytes
  pub hide_credentials : Bool
  pub keys : List Bytes

-- The keys that are not empty.
unfoldable pub filled : List Bytes → List Bytes
filled [] = []
filled ([] ∷ keys) = filled keys
filled ((c ∷ s) ∷ keys) = (c ∷ s) ∷ filled keys

-- `New`; `none` is the error for a missing or empty list.
abbrev pub with_keys : Fields → Values → Option KeyAuth
with_keys cfg nil = none
with_keys cfg (item v vs) = some (record {
  header = string_or cfg (codes "header") (codes "X-API-Key");
  query = string_or cfg (codes "query") (codes "api_key");
  hide_credentials = bool_val cfg (codes "hide_credentials");
  keys = filled (text_items (item v vs));
})

unfoldable pub new_key_auth : Fields → Option KeyAuth
new_key_auth cfg = with_keys cfg (items_of (field_of (codes "keys") cfg))

unfoldable pub valid_key : Bytes → List Bytes → Bool
valid_key provided [] = false
valid_key provided (k ∷ keys) = eqb provided k || valid_key provided keys

abbrev pub or_query : Bytes → Bytes → Bytes
or_query [] other = other
or_query (c ∷ key) other = c ∷ key

module _ (parse_query : Bytes → Header) (encode_query : Header → Bytes) where
  abbrev pub provided_key : KeyAuth → Request → Bytes
  provided_key p r =
      or_query (get p.header r.header) (first (lookup p.query (parse_query r.raw_query)))

  abbrev pub hide : KeyAuth → Request → Request
  hide p r = record r {
    header = del p.header r.header;
    raw_query = encode_query (delete p.query (parse_query r.raw_query));
  }

  unfoldable pub check_key : KeyAuth → Request → Verdict
  check_key p r =
      if valid_key (provided_key p r) p.keys
      then forward (if p.hide_credentials then hide p r else r)
      else refuse 401
