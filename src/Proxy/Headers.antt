-- ===== src/Proxy/Headers.antt =====
-- internal/proxy/headers.go and upgrade.go: hop-by-hop headers and the test for a WebSocket upgrade.
pub mod Laws
use web_server.Prelude.{
  ℕ, Bool, true, false, ◌&&◌, ◌||◌, not, List, [], ◌∷◌, ◌++◌, ◌==◌, if◌then◌else◌,
}
use web_server.Text.{Bytes, codes, eqb, equal_fold}
use web_server.Http.Message.{Request}
use web_server.Http.Header.{Header, canonical, values, get, del}

-- The keys of `hopByHopHeaders`.
abbrev pub hop_by_hop_headers : List Bytes
hop_by_hop_headers =
    codes "Connection"
    ∷ codes "Proxy-Connection"
    ∷ codes "Keep-Alive"
    ∷ codes "Proxy-Authenticate"
    ∷ codes "Proxy-Authorization"
    ∷ codes "Te"
    ∷ codes "Trailer"
    ∷ codes "Transfer-Encoding"
    ∷ codes "Upgrade"
    ∷ []

abbrev is_blank : ℕ → Bool
is_blank c = c == b' ' || c == b'\t'

-- The two loops of `trimSpaces`: blanks off the front, then off the end.
unfoldable pub trim_start : Bytes → Bytes
trim_start [] = []
trim_start (c ∷ s) = let rest = trim_start s in if is_blank c then rest else c ∷ s

abbrev drop_blank : ℕ → Bytes → Bytes
drop_blank c [] = if is_blank c then [] else c ∷ []
drop_blank c (d ∷ s) = c ∷ d ∷ s

unfoldable pub trim_end : Bytes → Bytes
trim_end [] = []
trim_end (c ∷ s) = drop_blank c (trim_end s)

unfoldable pub trim_spaces : Bytes → Bytes
unfolding trim_start trim_end
trim_spaces s = trim_end (trim_start s)

abbrev keep_token : Bytes → List Bytes → List Bytes
keep_token [] tokens = tokens
keep_token (c ∷ s) tokens = (c ∷ s) ∷ tokens

-- The loop of `splitHeaderTokens`; `part` is v[start:i].
unfoldable pub split_from : Bytes → Bytes → List Bytes
unfolding canonical trim_spaces
split_from part [] = keep_token (canonical (trim_spaces part)) []
split_from part (c ∷ s) =
    let closed = keep_token (canonical (trim_spaces part)) (split_from [] s) in
    let longer = split_from (part ++ c ∷ []) s in if c == b',' then closed else longer

unfoldable pub split_header_tokens : Bytes → List Bytes
unfolding split_from
split_header_tokens v = split_from [] v

abbrev pub del_all : List Bytes → Header → Header
del_all [] h = h
del_all (k ∷ ks) h = del_all ks (del k h)

abbrev pub del_tokens : List Bytes → Header → Header
del_tokens [] h = h
del_tokens (v ∷ vs) h = del_tokens vs (del_all (split_header_tokens v) h)

unfoldable pub remove_hop_by_hop_headers : Header → Header
unfolding split_header_tokens del values
remove_hop_by_hop_headers h =
    let h' = del_all hop_by_hop_headers h in del_tokens (values (codes "Connection") h') h'

abbrev has_token : List Bytes → Bytes → Bool
has_token [] want = false
has_token (t ∷ ts) want = equal_fold t want || has_token ts want

abbrev any_has_token : List Bytes → Bytes → Bool
any_has_token [] want = false
any_has_token (v ∷ vs) want = has_token (split_header_tokens v) want || any_has_token vs want

unfoldable pub header_contains_token : Header → Bytes → Bytes → Bool
unfolding split_header_tokens values equal_fold
header_contains_token h key want = any_has_token (values key h) want

unfoldable pub is_websocket_upgrade : Request → Bool
unfolding header_contains_token get equal_fold
is_websocket_upgrade r =
    header_contains_token r.header (codes "Connection") (codes "upgrade")
    && equal_fold (get (codes "Upgrade") r.header) (codes "websocket")
