-- ===== src/Middleware/Recorder.antt =====
-- internal/middleware/recorder.go: the writer that counts for the log of logging.go. The writer
-- behind it says what it can do, and how much of a piece it writes; an int wraps around.
pub mod Counts
use web_server.Prelude.{
  ℕ, ◌+◌, ◌%◌, Bool, true, false, if◌then◌else◌, List, [], ◌∷◌, ◌++◌, length, min, two_64,
}
use web_server.Text.{Bytes}

pub data Event : Type 0 where
  status : ℕ → Event
  piece : ℕ → Event  -- so many bytes were written
  flushed hijacked pushed : Event

-- The writer behind; `takes` is the number of bytes that it writes of a piece.
pub record Inner : Type 0 where
  pub is_flusher : Bool
  pub is_hijacker : Bool
  pub is_pusher : Bool
  pub is_reader_from : Bool
  pub takes : Bytes → ℕ

pub record Recorder : Type 0 where
  pub status_code : ℕ
  pub bytes : ℕ
  pub events : List Event

abbrev pub new_recorder : Recorder
new_recorder = record { status_code = 200; bytes = 0; events = [] }

abbrev pub log_event : Event → Recorder → Recorder
log_event e r = record r { events = r.events ++ e ∷ [] }

module _ (inner : Inner) where
  abbrev pub write_status : ℕ → Recorder → Recorder
  write_status code r = log_event (status code) (record r { status_code = code })

  abbrev pub counted : ℕ → Recorder → Recorder
  counted n r = log_event (piece n) (record r { bytes = (r.bytes + n) % two_64 })

  abbrev pub write_piece : Bytes → Recorder → Recorder
  write_piece b r = counted (inner.takes b) r

  -- What is not supported is answered by an error, or not at all for `Flush`.
  abbrev pub if_able : Bool → Event → Recorder → Recorder
  if_able able e r = if able then log_event e r else r

  abbrev pub read_from : Bytes → Recorder → Recorder
  read_from src r =
      if inner.is_reader_from
      then counted (inner.takes src) r
      else log_event (piece (inner.takes src)) r

  pub data Call : Type 0 where
    write_status_call : ℕ → Call
    write_call : Bytes → Call
    flush_call hijack_call push_call : Call
    read_from_call : Bytes → Call

  unfoldable pub call : Call → Recorder → Recorder
  call (write_status_call code) r = write_status code r
  call (write_call b) r = write_piece b r
  call flush_call r = if_able inner.is_flusher flushed r
  call hijack_call r = if_able inner.is_hijacker hijacked r
  call push_call r = if_able inner.is_pusher pushed r
  call (read_from_call src) r = read_from src r

  abbrev pub calls : List Call → Recorder → Recorder
  calls [] r = r
  calls (c ∷ cs) r = calls cs (call c r)
