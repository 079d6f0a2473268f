-- ===== src/Plugin/Transform.antt =====
-- internal/plugin/plugins/request_transformer.go and response_transformer.go: the same changes of a
-- header, of a request before it goes on and of a response before it is written.
pub mod Laws
use web_server.Prelude.{ℕ, Bool, true, false, not, ◌&&◌, if◌then◌else◌, List, [], ◌∷◌, ◌++◌}
use web_server.Text.{Bytes, codes}
use web_server.Http.Header.{Header, get, set, del, insert, delete}
use web_server.Http.Message.{Request}
use web_server.Config.{Fields}
use web_server.Plugin.{Verdict, forward, string_map, string_list}

-- What a transformer does to a header.
pub record Changes : Type 0 where
  pub add_headers : List (Bytes × Bytes)
  pub remove_headers : List Bytes
  pub rename_headers : List (Bytes × Bytes)

-- The three loops.
unfoldable pub remove_all : List Bytes → Header → Header
remove_all [] h = h
remove_all (k ∷ ks) h = remove_all ks (del k h)

abbrev pub rename : Bytes → Bytes → Bytes → Header → Header
rename old new [] h = h
rename old new (c ∷ val) h = del old (set new (c ∷ val) h)

unfoldable pub rename_all : List (Bytes × Bytes) → Header → Header
rename_all [] h = h
rename_all ((old, new) ∷ names) h = rename_all names (rename old new (get old h) h)

unfoldable pub set_all : List (Bytes × Bytes) → Header → Header
set_all [] h = h
set_all ((k, v) ∷ kvs) h = set_all kvs (set k v h)

unfoldable pub apply_changes : Changes → Header → Header
apply_changes c h =
    set_all c.add_headers (rename_all c.rename_headers (remove_all c.remove_headers h))

abbrev pub read_changes : Fields → Changes
read_changes cfg = record {
  add_headers = string_map cfg (codes "add_headers");
  remove_headers = string_list cfg (codes "remove_headers");
  rename_headers = string_map cfg (codes "rename_headers");
}

-- The request transformer also changes the query, whose keys are taken as they are.
pub record RequestTransformer : Type 0 where
  pub changes : Changes
  pub add_query : List (Bytes × Bytes)
  pub remove_query : List Bytes

unfoldable pub new_request_transformer : Fields → RequestTransformer
new_request_transformer cfg = record {
  changes = read_changes cfg;
  add_query = string_map cfg (codes "add_query");
  remove_query = string_list cfg (codes "remove_query");
}

unfoldable pub delete_keys : List Bytes → Header → Header
delete_keys [] q = q
delete_keys (k ∷ ks) q = delete_keys ks (delete k q)

unfoldable pub set_keys : List (Bytes × Bytes) → Header → Header
set_keys [] q = q
set_keys ((k, v) ∷ kvs) q = set_keys kvs (insert k (v ∷ []) q)

abbrev pub changes_query : List (Bytes × Bytes) → List Bytes → Bool
changes_query [] [] = false
changes_query _ _ = true

module _ (parse_query : Bytes → Header) (encode_query : Header → Bytes) where
  unfoldable pub transform_request : RequestTransformer → Request → Verdict
  transform_request p r =
      let q = set_keys p.add_query (delete_keys p.remove_query (parse_query r.raw_query)) in
      forward (record r {
        header = apply_changes p.changes r.header;
        raw_query =
            if changes_query p.add_query p.remove_query then encode_query q else r.raw_query;
      })

-- The writer of the response transformer: its header, and what has reached the writer behind it.
pub data Sent : Type 0 where
  status : ℕ → Header → Sent
  body : Bytes → Header → Sent

pub record TransformWriter : Type 0 where
  pub changes : Changes
  pub wrote_header : Bool
  pub header : Header
  pub sent : List Sent

unfoldable pub new_response_transformer : Fields → Changes
new_response_transformer cfg = read_changes cfg

abbrev pub new_transform_writer : Changes → Header → TransformWriter
new_transform_writer c h = record { changes = c; wrote_header = false; header = h; sent = [] }

-- The test at the head of both methods.
abbrev pub transform_once : TransformWriter → TransformWriter
transform_once t =
    if not t.wrote_header
    then record t { wrote_header = true; header = apply_changes t.changes t.header }
    else t

-- What is sent carries the header as it is then.
unfoldable pub write_header : ℕ → TransformWriter → TransformWriter
write_header s t =
    let t' = transform_once t in record t' { sent = t'.sent ++ status s t'.header ∷ [] }

unfoldable pub write : Bytes → TransformWriter → TransformWriter
write b t = let t' = transform_once t in record t' { sent = t'.sent ++ body b t'.header ∷ [] }
