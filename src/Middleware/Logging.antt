-- ===== src/Middleware/Logging.antt =====
-- internal/middleware/logging.go: the line that is logged for a request. What the handler behind it
-- does is the calls that it makes of its writer, and whether it panics after them; a panic passes
-- through `Logging`, whose call of the logger is then not reached.
use web_server.Prelude.{
  ℕ, ◌+◌, ◌-◌, ◌%◌, ◌≡◌, refl, Bool, true, false, if◌then◌else◌, List, Option, none, some, two_64,
}
use web_server.Text.{Bytes, codes}
use web_server.Http.Header.{get}
use web_server.Http.Message.{Request}
use web_server.Middleware.Recorder.{Inner, Call, Recorder, calls, new_recorder}
use web_server.Middleware.Recorder.Counts.{total, last_status, missed, calls-total}

pub record Entry : Type 0 where
  pub method : Bytes
  pub path : Bytes
  pub status : ℕ
  pub bytes : ℕ
  pub latency : ℕ
  pub request_id : Bytes
  pub remote_addr : Bytes

abbrev entry : ℕ → Request → Recorder → Entry
entry latency r recorder = record {
  method = r.method;
  path = r.path;
  status = recorder.status_code;
  bytes = recorder.bytes;
  latency = latency;
  request_id = get (codes "X-Request-ID") r.header;
  remote_addr = r.remote_addr;
}

-- `Logging`, with the readings of the clock before and after the handler.
unfoldable pub logging : (inner : Inner) → ℕ → ℕ → Request → List (Call inner) → Bool → Option Entry
logging inner start now r cs panics =
    if panics then none else some (entry (now - start) r (calls inner cs new_recorder))

-- A request whose handler panics is not logged. Of any other the log says the last status that was
-- written, 200 before any is, and so many bytes that, with those of the `ReadFrom` calls that the
-- writer behind has no method for, they are the bytes that the client gets, up to the wrap-around.
pub logging-total :
    (inner : Inner) (start now : ℕ) (r : Request) (cs : List (Call inner))
    → let sent = (calls inner cs new_recorder).events in
      (logging inner start now r cs true ≡ none)
      × ((e : Entry) × (logging inner start now r cs false ≡ some e)
          × (e.status ≡ last_status 200 sent)
          × ((e.bytes + missed inner cs) % two_64 ≡ total sent % two_64))
unfolding logging
logging-total inner start now r cs =
    let (bytes, status) = calls-total inner cs in
    (refl, (entry (now - start) r (calls inner cs new_recorder), refl, status, bytes))
