-- ===== src/Middleware/Gzip.antt =====
-- internal/middleware/gzip.go: the writer that compresses a response. What reaches the
-- http.ResponseWriter is the list of its events; `zipped` is a Write of the gzip.Writer around it,
-- whose output is that of compress/gzip. The writers of the pool are alike, so that it is only said
-- whether there are any. What the platform does is given.
pub mod Writing
pub mod Running
use web_server.Prelude.{
  ℕ, ltb, ◌==◌, ◌||◌, Bool, true, false, not, if◌then◌else◌, List, [], ◌∷◌, ◌++◌, length, map,
  Option, none, some, slt,
}
use web_server.Text.{Bytes, codes, equal_fold, has_prefix, lower}
use web_server.Text.Scan.{trim_space, extend}
use web_server.Config.{GzipConfig}
use web_server.Http.Header.{Header, get, set, del, add}
use web_server.Http.Message.{Request}

pub data Event : Type 0 where
  status : ℕ → Event
  raw : Bytes → Event
  zipped : Bytes → Event
  zip_end : Event

-- Whether gzip.NewWriterLevel takes a level, and whether there is memory for so many bytes.
pub record Platform : Type 0 where
  pub takes_level : ℕ → Bool
  pub has_room : ℕ → Bool

-- `pool` says whether the writers of the pool are any but nil, as all are when NewWriterLevel, whose
-- error is dropped, refuses the level; `gz` whether the field of that name is set. The underlying writer is its header and events.
pub record GzipWriter : Type 0 where
  pub cfg : GzipConfig
  pub pool : Bool
  pub gz : Bool
  pub buf : Bytes
  pub status_code : ℕ
  pub activated : Bool
  pub headers_sent : Bool
  pub header : Header
  pub events : List Event

-- The part before the first semicolon, or `none` if there is none.
unfoldable pub before_semicolon : Bytes → Option Bytes
before_semicolon [] = none
before_semicolon (c ∷ s) =
    let rest = extend c (before_semicolon s) in if c == b';' then some [] else rest

abbrev pub strip_parameters : Bytes → Option Bytes → Bytes
strip_parameters ct none = ct
strip_parameters ct (some s) = trim_space s

-- `strings.HasSuffix(allowed, "/*")`, and the text without the star.
unfoldable pub wildcard : Bytes → Option Bytes
wildcard [] = none
wildcard (c ∷ []) = none
wildcard (c ∷ d ∷ []) = if c == b'/' then (if d == b'*' then some (c ∷ []) else none) else none
wildcard (c ∷ d ∷ e ∷ s) = extend c (wildcard (d ∷ e ∷ s))

abbrev pub matches_wildcard : Bytes → Option Bytes → Bool
matches_wildcard ct none = false
matches_wildcard ct (some prefix) = has_prefix (map lower ct) (map lower prefix)

-- The loop of `matchContentType`.
unfoldable pub any_matches : Bytes → List Bytes → Bool
any_matches ct [] = false
any_matches ct (allowed ∷ types) =
    equal_fold ct allowed || matches_wildcard ct (wildcard allowed) || any_matches ct types

unfoldable pub match_content_type : List Bytes → Bytes → Bool
match_content_type types [] = false
match_content_type types (c ∷ ct) =
    any_matches (strip_parameters (c ∷ ct) (before_semicolon (c ∷ ct))) types

-- strings.Split at commas, and `acceptsGzip`.
abbrev cons_part : ℕ → List Bytes → List Bytes
cons_part c [] = (c ∷ []) ∷ []
cons_part c (p ∷ ps) = (c ∷ p) ∷ ps

unfoldable pub split_commas : Bytes → List Bytes
split_commas [] = [] ∷ []
split_commas (c ∷ s) =
    let rest = split_commas s in if c == b',' then [] ∷ rest else cons_part c rest

unfoldable pub any_gzip : List Bytes → Bool
any_gzip [] = false
any_gzip (token ∷ tokens) =
    equal_fold (trim_space token) (codes "gzip")
    || has_prefix (map lower (trim_space token)) (codes "gzip;")
    || any_gzip tokens

unfoldable pub accepts_gzip : Request → Bool
accepts_gzip r = any_gzip (split_commas (get (codes "Accept-Encoding") r.header))

-- `WriteHeader`.
unfoldable pub write_header : ℕ → GzipWriter → GzipWriter
write_header s g = record g { status_code = s }

-- An event of the underlying writer.
abbrev pub emit : Event → GzipWriter → GzipWriter
emit e g = record g { events = g.events ++ e ∷ [] }

unfoldable pub flush_headers : GzipWriter → GzipWriter
flush_headers g =
    if g.headers_sent
    then g
    else (let g' : GzipWriter = record g { headers_sent = true } in
        if g.status_code == 0 then g' else emit (status g.status_code) g')

-- `none` is a panic: of `make`, or of a call on a gzip.Writer that is nil.
abbrev pub and_run : (GzipWriter → Option GzipWriter) → Option GzipWriter → Option GzipWriter
and_run f none = none
and_run f (some g) = f g

-- The `if` of `activate`, behind Reset: the response will be compressed.
abbrev pub set_gzip : GzipWriter → GzipWriter
set_gzip g = record g {
  gz = true;
  header =
      add (codes "Vary") (codes "Accept-Encoding")
        (del (codes "Content-Length") (set (codes "Content-Encoding") (codes "gzip") g.header));
}

-- Reset panics on a writer that is nil.
abbrev pub start_gzip : GzipWriter → Option GzipWriter
start_gzip g = if g.pool then some (set_gzip g) else none

abbrev pub choose : GzipWriter → Option GzipWriter
choose g =
    if match_content_type g.cfg.content_types (get (codes "Content-Type") g.header)
    then start_gzip g
    else some g

-- The end of `activate`: what was held back goes on.
abbrev pub write_buf : GzipWriter → GzipWriter
write_buf g = record (emit (if g.gz then zipped g.buf else raw g.buf) g) { buf = [] }

abbrev pub pass_on : GzipWriter → Option GzipWriter
pass_on g = some (write_buf (flush_headers g))

unfoldable pub activate : GzipWriter → Option GzipWriter
activate g =
    if g.activated then some g else and_run pass_on (choose (record g { activated = true }))

-- `Write`.
unfoldable pub write : Bytes → GzipWriter → Option GzipWriter
write b g =
    if g.activated
    then (if g.gz then some (emit (zipped b) g) else none)
    else (let g' : GzipWriter = record g { buf = g.buf ++ b } in
        if slt (length g'.buf) g.cfg.min_length then some g' else activate g')

abbrev pub end_gzip : GzipWriter → GzipWriter
end_gzip g = if g.gz then record (emit zip_end g) { gz = false } else g

abbrev pub write_rest : Bytes → GzipWriter → GzipWriter
write_rest [] g = g
write_rest (c ∷ b) g = emit (raw (c ∷ b)) g

unfoldable pub close : GzipWriter → GzipWriter
close g = if not g.activated then (let g' = flush_headers g in write_rest g'.buf g') else end_gzip g

-- The writer that `Gzip` makes for a request that accepts gzip.
abbrev pub empty_writer : Bool → GzipConfig → Header → GzipWriter
empty_writer pool cfg header = record {
  cfg = cfg;
  pool = pool;
  gz = false;
  buf = [];
  status_code = 0;
  activated = false;
  headers_sent = false;
  header = header;
  events = [];
}

-- `make` panics if the length is negative, or more than there is memory for.
abbrev pub new_writer : Platform → GzipConfig → Header → Option GzipWriter
new_writer platform cfg header =
    if slt cfg.min_length 0
    then none
    else (if platform.has_room cfg.min_length
        then some (empty_writer (platform.takes_level cfg.level) cfg header)
        else none)

-- What a handler does with the writer, and the deferred `close` behind it.
pub data Op : Type 0 where
  write_op : Bytes → Op
  write_header_op : ℕ → Op

abbrev pub step : Op → GzipWriter → Option GzipWriter
step (write_op b) g = write b g
step (write_header_op s) g = some (write_header s g)

unfoldable pub run : List Op → GzipWriter → Option GzipWriter
run [] g = some (close g)
run (op ∷ ops) g = and_run (run ops) (step op g)

unfoldable pub respond : Platform → GzipConfig → Header → List Op → Option GzipWriter
respond platform cfg header ops = and_run (run ops) (new_writer platform cfg header)

-- The handler of `Gzip` for a response that begins with this header: the header and the events in
-- the end.
abbrev pub direct : List Op → List Event
direct [] = []
direct (write_op b ∷ ops) = raw b ∷ direct ops
direct (write_header_op s ∷ ops) = status s ∷ direct ops

abbrev pub outcome : Option GzipWriter → Option (Header × List Event)
outcome none = none
outcome (some g) = some (g.header, g.events)

unfoldable pub serve_gzip :
    Platform → GzipConfig → Request → Header → List Op → Option (Header × List Event)
serve_gzip platform cfg r header ops =
    if accepts_gzip r then outcome (respond platform cfg header ops) else some (header, direct ops)
