-- ===== src/Middleware/Gzip/Running.antt =====
-- What a response looks like behind the compressing writer.
use mathlib.Core.List.{append-nil, append_assoc}
use web_server.Prelude.{
  arith, Bool, ◌≡◌, refl, sym, ap, ◌∙◌, inl, inr, true, false, Bool-cases, List, [], ◌∷◌, ◌++◌,
  length, none, some, slt,
}
use web_server.Text.{Bytes}
use web_server.Config.{GzipConfig}
use web_server.Http.Message.{Request}
use web_server.Http.Header.{Header}
use web_server.Middleware.Gzip.{
  outcome, accepts_gzip, direct, serve_gzip, Event, GzipWriter, write_header, write, close,
  new_writer, Op, write_op, write_header_op, and_run, run, respond, Platform, empty_writer,
}
use web_server.Middleware.Gzip.Writing.{
  payload, written, is_compressible, IsHolding, IsPassing, write-IsHolding, write-IsPassing,
  close-IsHolding, close-IsPassing, activate-IsPassing,
}

run-IsPassing :
    (ops : List Op) (ws : Bytes) (g : GzipWriter)
    → IsPassing true ws g
    → (g' : GzipWriter) × (run ops g ≡ some g') × (payload g'.events ≡ ws ++ written ops)
unfolding run write_header
run-IsPassing [] ws g h = (close g, refl, close-IsPassing true ws g h ∙ sym (append-nil ws))
run-IsPassing (write_op b ∷ ops) ws g h =
    let (g1, first, h1) = write-IsPassing ws b g h in
    let (g2, rest, whole) = run-IsPassing ops (ws ++ b) g1 h1 in
    (g2, ap (and_run (run ops)) first ∙ rest, whole ∙ append_assoc ws b (written ops))
run-IsPassing (write_header_op s ∷ ops) ws g h =
    run-IsPassing ops ws (record g { status_code = s })
      (record { decided = h.decided; passed = h.passed; zips = h.zips })

run-IsHolding :
    (ops : List Op) (ws : Bytes) (g : GzipWriter)
    → IsHolding true ws g
    → (g' : GzipWriter) × (run ops g ≡ some g') × (payload g'.events ≡ ws ++ written ops)
unfolding run write_header
run-IsHolding [] ws g h = (close g, refl, close-IsHolding true ws g h ∙ sym (append-nil ws))
run-IsHolding (write_op b ∷ ops) ws g h =
    let (g1, first, state) = write-IsHolding true ws b g h in
    let (g2, rest, whole) : (g' : GzipWriter) × (run ops g1 ≡ some g')
        × (payload g'.events ≡ (ws ++ b) ++ written ops) =
      elim state [
        | inl h1 ↦ run-IsHolding ops (ws ++ b) g1 h1
        | inr h1 ↦ run-IsPassing ops (ws ++ b) g1 h1
      ] in
    (g2, ap (and_run (run ops)) first ∙ rest, whole ∙ append_assoc ws b (written ops))
run-IsHolding (write_header_op s ∷ ops) ws g h =
    run-IsHolding ops ws (record g { status_code = s })
      (record {
        undecided = h.undecided;
        held = h.held;
        silent = h.silent;
        verdict = h.verdict;
        plain = h.plain;
        ready = h.ready;
      })

respond-payload :
    (platform : Platform) (cfg : GzipConfig) (header : Header) (ops : List Op)
    → platform.takes_level cfg.level ≡ true
    → slt cfg.min_length 0 ≡ false
    → platform.has_room cfg.min_length ≡ true
    → is_compressible cfg header ≡ true
    → (g : GzipWriter) × (respond platform cfg header ops ≡ some g)
      × (payload g.events ≡ written ops)
unfolding respond
respond-payload platform cfg header ops level size room m =
    let w = empty_writer (platform.takes_level cfg.level) cfg header in
    let made : new_writer platform cfg header ≡ some w = rw (size, room) refl in
    let (g, done, whole) = run-IsHolding ops [] w (record {
      undecided = refl;
      held = refl;
      silent = refl;
      verdict = m;
      plain = refl;
      ready = rw level refl;
    }) in
    (g, ap (and_run (run ops)) made ∙ done, whole)

payload-direct : (ops : List Op) → payload (direct ops) ≡ written ops
payload-direct [] = refl
payload-direct (write_op b ∷ ops) = ap (◌++◌ b) (payload-direct ops)
payload-direct (write_header_op s ∷ ops) = payload-direct ops

-- With a level that compress/gzip takes and a minimal length that is not negative and for which
-- there is memory, a response whose content type is one to compress is passed on whole, whether or
-- not the client accepts gzip, whatever pieces it is written in, and whether or not it is long enough
-- to be compressed: what reaches the client, before compression, is what the handler has written, in
-- its order.
pub serve_gzip-payload :
    (platform : Platform) (cfg : GzipConfig) (r : Request) (header : Header) (ops : List Op)
    → platform.takes_level cfg.level ≡ true
    → slt cfg.min_length 0 ≡ false
    → platform.has_room cfg.min_length ≡ true
    → is_compressible cfg header ≡ true
    → (h : Header) × (es : List Event) × (serve_gzip platform cfg r header ops ≡ some (h, es))
      × (payload es ≡ written ops)
unfolding serve_gzip
serve_gzip-payload platform cfg r header ops level size room m =
    elim (Bool-cases (accepts_gzip r)) [
      | inl a ↦
          let (g, done, whole) = respond-payload platform cfg header ops level size room m in
          (g.header, g.events, rw a (ap outcome done), whole)
      | inr a ↦ (header, direct ops, rw a refl, payload-direct ops)
    ]

write_again : (ws b : Bytes) (g : GzipWriter) → IsPassing false ws g → write b g ≡ none
unfolding write
write_again ws b g h = rw (h.decided, h.zips) refl

run_panics :
    (pool : Bool) (cfg : GzipConfig) (header : Header) (b c : Bytes) (ops : List Op)
    → is_compressible cfg header ≡ false
    → slt (length b) cfg.min_length ≡ false
    → run (write_op b ∷ write_op c ∷ ops) (empty_writer pool cfg header) ≡ none
unfolding run write
run_panics pool cfg header b c ops m long =
    let g' : GzipWriter = record (empty_writer pool cfg header) { buf = b } in
    let (g2, active, passing) = activate-IsPassing false b g' (record {
      undecided = refl;
      held = refl;
      silent = refl;
      verdict = m;
      plain = refl;
      ready = refl;
    }) in
    let first : write b (empty_writer pool cfg header) ≡ some g2 = rw long active in
    ap (and_run (run (write_op c ∷ ops))) first
    ∙ ap (and_run (run ops)) (write_again b c g2 passing)

respond_panics :
    (platform : Platform) (cfg : GzipConfig) (header : Header) (ops : List Op)
    → run ops (empty_writer (platform.takes_level cfg.level) cfg header) ≡ none
    → respond platform cfg header ops ≡ none
unfolding respond
respond_panics platform cfg header ops h = ground (arith, h)

-- For a client that accepts gzip, a response whose content type is not to be compressed panics at
-- the second write, if the first has the minimal length.
pub serve_gzip_panics :
    (platform : Platform) (cfg : GzipConfig) (r : Request) (header : Header) (b c : Bytes)
    (ops : List Op)
    → accepts_gzip r ≡ true
    → is_compressible cfg header ≡ false
    → slt (length b) cfg.min_length ≡ false
    → serve_gzip platform cfg r header (write_op b ∷ write_op c ∷ ops) ≡ none
unfolding serve_gzip
serve_gzip_panics platform cfg r header b c ops a m long = rw a (
    ap outcome (
      respond_panics platform cfg header (write_op b ∷ write_op c ∷ ops)
        (run_panics (platform.takes_level cfg.level) cfg header b c ops m long)))
