-- ===== src/Middleware/Gzip/Writing.antt =====
-- The writer of internal/middleware/gzip.go at a single write: what it holds back and what it has
-- passed on.
use mathlib.Core.Path.{ap₂}
use mathlib.Core.List.{append-nil, append_assoc}
use web_server.Prelude.{
  ℕ, ◌≡◌, ◌&&◌, not, refl, sym, ap, ◌∙◌, ◌⊎◌, inl, inr, Bool, true, false, Bool-cases, List, [],
  ◌∷◌, ◌++◌, length, some, slt, arith, if◌then◌else◌,
}
use web_server.Text.{Bytes, codes}
use web_server.Config.{GzipConfig}
use web_server.Http.Header.{Header, get}
use web_server.Middleware.Gzip.{
  Event, raw, zipped, zip_end, status, GzipWriter, match_content_type, emit, flush_headers, choose,
  write_buf, activate, and_run, pass_on, set_gzip, write, write_rest, close, Op, write_op,
  write_header_op,
}

-- The bytes of a body, compressed or not, before compression.
abbrev pub payload : List Event → Bytes
payload [] = []
payload (raw b ∷ es) = b ++ payload es
payload (zipped b ∷ es) = b ++ payload es
payload (status s ∷ es) = payload es
payload (zip_end ∷ es) = payload es

abbrev pub written : List Op → Bytes
written [] = []
written (write_op b ∷ ops) = b ++ written ops
written (write_header_op s ∷ ops) = written ops

payload-append : (es fs : List Event) → payload (es ++ fs) ≡ payload es ++ payload fs
payload-append [] fs = refl
payload-append (raw b ∷ es) fs =
    ap (◌++◌ b) (payload-append es fs) ∙ sym (append_assoc b (payload es) (payload fs))
payload-append (zipped b ∷ es) fs =
    ap (◌++◌ b) (payload-append es fs) ∙ sym (append_assoc b (payload es) (payload fs))
payload-append (status s ∷ es) fs = payload-append es fs
payload-append (zip_end ∷ es) fs = payload-append es fs

-- The content type at the time of the first decision is one to compress.
abbrev pub is_compressible : GzipConfig → Header → Bool
is_compressible cfg header =
    match_content_type cfg.content_types (get (codes "Content-Type") header)

-- Nothing has been decided, and `ws` is held back.
pub record IsHolding (m : Bool) (ws : Bytes) (g : GzipWriter) : Type 0 where
  pub undecided : g.activated ≡ false
  pub held : g.buf ≡ ws
  pub silent : payload g.events ≡ []
  pub plain : g.gz ≡ false
  pub verdict : is_compressible g.cfg g.header ≡ m
  pub ready : m && not g.pool ≡ false

-- It has been decided, and `ws` has been passed on.
pub record IsPassing (m : Bool) (ws : Bytes) (g : GzipWriter) : Type 0 where
  pub decided : g.activated ≡ true
  pub passed : payload g.events ≡ ws
  pub zips : g.gz ≡ m

payload-status : (es : List Event) (s : ℕ) → payload (es ++ status s ∷ []) ≡ payload es
payload-status es s = payload-append es (status s ∷ []) ∙ append-nil (payload es)

payload-end : (es : List Event) → payload (es ++ zip_end ∷ []) ≡ payload es
payload-end es = payload-append es (zip_end ∷ []) ∙ append-nil (payload es)

payload-data :
    (es : List Event) (z : Bool) (b : Bytes)
    → payload (es ++ (if z then zipped b else raw b) ∷ []) ≡ payload es ++ b
payload-data es true b = payload-append es (zipped b ∷ []) ∙ ap (◌++◌ (payload es)) (append-nil b)
payload-data es false b = payload-append es (raw b ∷ []) ∙ ap (◌++◌ (payload es)) (append-nil b)

flush_headers-payload : (g : GzipWriter) → payload (flush_headers g).events ≡ payload g.events
unfolding flush_headers
flush_headers-payload g = ground (arith, payload-status g.events g.status_code)

flush_headers_kept :
    (g : GzipWriter)
    → ((flush_headers g).activated ≡ g.activated)
      × ((flush_headers g).gz ≡ g.gz)
      × ((flush_headers g).buf ≡ g.buf)
unfolding flush_headers
flush_headers_kept g = (ground arith, ground arith, ground arith)

choose_lem :
    (m : Bool) (g : GzipWriter)
    → is_compressible g.cfg g.header ≡ m
    → g.gz ≡ false
    → m && not g.pool ≡ false
    → (g' : GzipWriter) × (choose g ≡ some g')
      × (g'.gz ≡ m)
      × (g'.activated ≡ g.activated)
      × (g'.buf ≡ g.buf)
      × (g'.events ≡ g.events)
choose_lem true g v z h =
    let made : g.pool ≡ true = ground arith in
    (set_gzip g, rw (v, made) refl, refl, refl, refl, refl)
choose_lem false g v z h = (g, rw v refl, z, refl, refl, refl)

pub activate-IsPassing :
    (m : Bool) (ws : Bytes) (g : GzipWriter)
    → IsHolding m ws g
    → (g' : GzipWriter) × (activate g ≡ some g') × IsPassing m ws g'
unfolding activate
activate-IsPassing m ws g h =
    let g1 : GzipWriter = record g { activated = true } in
    let (g2, chosen, gz2, act2, buf2, ev2) = choose_lem m g1 h.verdict h.plain h.ready in
    let g3 : GzipWriter = flush_headers g2 in
    let (act3, gz3, buf3) = flush_headers_kept g2 in
    let passing : IsPassing m ws (write_buf g3) = record {
      decided = act3 ∙ act2;
      passed =
          payload-data g3.events g3.gz g3.buf
          ∙ ap₂ ◌++◌ (flush_headers-payload g2 ∙ ap payload ev2 ∙ h.silent) (buf3 ∙ buf2 ∙ h.held);
      zips = gz3 ∙ gz2;
    } in
    (write_buf g3, rw (h.undecided) (ap (and_run pass_on) chosen), passing)

write-activate :
    (b : Bytes) (g : GzipWriter)
    → g.activated ≡ false
    → slt (length (g.buf ++ b)) g.cfg.min_length ≡ false
    → write b g ≡ activate (record g { buf = g.buf ++ b })
unfolding write
write-activate b g undecided long = rw (undecided, long) refl

-- A write while nothing has been decided.
pub write-IsHolding :
    (m : Bool) (ws b : Bytes) (g : GzipWriter)
    → IsHolding m ws g
    → (g' : GzipWriter) × (write b g ≡ some g')
      × (IsHolding m (ws ++ b) g' ⊎ IsPassing m (ws ++ b) g')
unfolding write
write-IsHolding m ws b g h =
    let g' : GzipWriter = record g { buf = g.buf ++ b } in
    let h' : IsHolding m (ws ++ b) g' = record {
      undecided = h.undecided;
      held = ap (λ x. x ++ b) h.held;
      silent = h.silent;
      verdict = h.verdict;
      plain = h.plain;
      ready = h.ready;
    } in
    let (g2, passed_on, passing) = activate-IsPassing m (ws ++ b) g' h' in
    elim (Bool-cases (slt (length g'.buf) g.cfg.min_length)) [
      | inl e ↦ (g', rw (h.undecided, e) refl, inl h')
      | inr e ↦ (g2, write-activate b g h.undecided e ∙ passed_on, inr passing)
    ]

-- A write behind the decision to compress.
pub write-IsPassing :
    (ws b : Bytes) (g : GzipWriter)
    → IsPassing true ws g
    → (g' : GzipWriter) × (write b g ≡ some g') × IsPassing true (ws ++ b) g'
unfolding write
write-IsPassing ws b g h = (
  emit (zipped b) g,
  rw (h.decided, h.zips) refl,
  record {
    decided = h.decided;
    passed = payload-data g.events true b ∙ ap (λ x. x ++ b) h.passed;
    zips = h.zips;
  },
)

write_rest-payload :
    (b : Bytes) (g : GzipWriter) → payload (write_rest b g).events ≡ payload g.events ++ b
write_rest-payload [] g = sym (append-nil (payload g.events))
write_rest-payload (c ∷ b) g = payload-data g.events false (c ∷ b)

pub close-IsHolding :
    (m : Bool) (ws : Bytes) (g : GzipWriter) → IsHolding m ws g → payload (close g).events ≡ ws
unfolding close
close-IsHolding m ws g h =
    let rest : payload (write_rest (flush_headers g).buf (flush_headers g)).events ≡ ws =
      write_rest-payload (flush_headers g).buf (flush_headers g)
      ∙ ap₂ ◌++◌ (flush_headers-payload g ∙ h.silent) ((flush_headers_kept g).2 ∙ h.held) in
    let chosen : close g ≡ write_rest (flush_headers g).buf (flush_headers g) =
      ground (arith, h.undecided) in
    ap (λ g. payload g.events) chosen ∙ rest

pub close-IsPassing :
    (m : Bool) (ws : Bytes) (g : GzipWriter) → IsPassing m ws g → payload (close g).events ≡ ws
unfolding close
close-IsPassing m ws g h = ground (arith, payload-end g.events, h.passed, h.decided)
