-- ===== src/Tests/Compression.antt =====
-- Responses through the compressing writer.
use web_server.Http.Message.{Request}
use web_server.Tests.Data.{get_request}
use web_server.Prelude.{◌≡◌, refl, List, [], ◌∷◌, none, some, true, false, sle, ltb, ◌&&◌}
use web_server.Text.Scan.{trim_space, trim_left, trim_right}
use web_server.Text.{has_prefix, equal_fold, eqb, upper, lower, codes}
use web_server.Config.{GzipConfig}
use web_server.Config.Defaults.{default_content_types}
use web_server.Http.Header.{capitalize, is_token, canonical, lookup, values, get, Header}
use web_server.Middleware.Gzip.{
  Event, serve_gzip, accepts_gzip, any_gzip, split_commas, before_semicolon, any_matches, wildcard,
  match_content_type, before_semicolon, any_matches, match_content_type, Op, write_op,
  write_header_op, Platform,
}
use web_server.Middleware.Gzip.Writing.{payload, is_compressible}
use web_server.Middleware.Gzip.Running.{serve_gzip-payload, serve_gzip_panics}

abbrev short_limit : GzipConfig
short_limit = record {
  enabled = true;
  level = 6;
  min_length = 4;
  content_types = default_content_types;
}

-- The levels of compress/gzip, from -2 to 9, and memory for a gigabyte.
abbrev platform : Platform
platform = record {
  takes_level = λ level. sle 0xFFFF_FFFF_FFFF_FFFE level && sle level 9;
  has_room = λ n. ltb n 1_000_000_000;
}

abbrev html : Header
html = (codes "Content-Type", codes "text/html; charset=utf-8" ∷ []) ∷ []

abbrev image : Header
image = (codes "Content-Type", codes "image/png" ∷ []) ∷ []

abbrev ops : List Op
ops =
    write_header_op 200 ∷ write_op (codes "ab") ∷ write_op (codes "cd") ∷ write_op (codes "e") ∷ []

html-is_compressible : is_compressible short_limit html ≡ true
unfolding match_content_type get values lookup canonical is_token capitalize lower upper eqb
    any_matches before_semicolon trim_space trim_left trim_right equal_fold wildcard has_prefix
html-is_compressible = refl

image-is_compressible : is_compressible short_limit image ≡ false
unfolding match_content_type get values lookup canonical is_token capitalize lower upper eqb
    any_matches before_semicolon trim_space trim_left trim_right equal_fold wildcard has_prefix
image-is_compressible = refl

abbrev modern : Request
modern = record get_request { header = (codes "Accept-Encoding", codes "br, GZIP;q=1.0" ∷ []) ∷ [] }

modern-accepts_gzip : accepts_gzip modern ≡ true
unfolding accepts_gzip any_gzip split_commas get values lookup canonical is_token capitalize lower
    upper eqb trim_space trim_left trim_right equal_fold has_prefix
modern-accepts_gzip = refl

serve_gzip-payload_example :
    (h : Header) × (es : List Event) × (serve_gzip platform short_limit modern html ops
      ≡ some (h, es))
    × (payload es ≡ codes "abcde")
serve_gzip-payload_example =
    serve_gzip-payload platform short_limit modern html ops refl refl refl html-is_compressible

serve_gzip_panics_example :
    serve_gzip platform short_limit modern image
      (write_op (codes "abcd") ∷ write_op (codes "e") ∷ [])
    ≡ none
serve_gzip_panics_example =
    serve_gzip_panics platform short_limit modern image (codes "abcd") (codes "e") []
      modern-accepts_gzip image-is_compressible refl
