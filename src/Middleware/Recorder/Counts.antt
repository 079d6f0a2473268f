-- ===== src/Middleware/Recorder/Counts.antt =====
-- What the log says of a response.
use mathlib.Core.Path.{subst}
use web_server.Prelude.{
  ℕ, ◌+◌, ◌%◌, ◌≡◌, refl, sym, ap, ◌∙◌, Bool, true, false, Bool-cases, inl, inr, if◌then◌else◌,
  List, [], ◌∷◌, ◌++◌, arith, two_64,
}
use web_server.Middleware.Recorder.{
  Event, status, piece, flushed, hijacked, pushed, Inner, Recorder, new_recorder, if_able, Call,
  write_status_call, write_call, flush_call, hijack_call, push_call, read_from_call, call, calls,
}

-- The bytes that reach the client, and the last status.
abbrev pub total : List Event → ℕ
total [] = 0
total (piece n ∷ es) = n + total es
total (e ∷ es) = total es

abbrev pub last_status : ℕ → List Event → ℕ
last_status s [] = s
last_status s (status code ∷ es) = last_status code es
last_status s (e ∷ es) = last_status s es

total-append : (es : List Event) (e : Event) → total (es ++ e ∷ []) ≡ total es + total (e ∷ [])
total-append [] e = omega arith
total-append (piece n ∷ es) e = omega (arith, total-append es e)
total-append (status s ∷ es) e = total-append es e
total-append (flushed ∷ es) e = total-append es e
total-append (hijacked ∷ es) e = total-append es e
total-append (pushed ∷ es) e = total-append es e

last_status-append :
    (s : ℕ) (es : List Event) (e : Event)
    → last_status s (es ++ e ∷ []) ≡ last_status (last_status s es) (e ∷ [])
last_status-append s [] e = refl
last_status-append s (status code ∷ es) e = last_status-append code es e
last_status-append s (piece n ∷ es) e = last_status-append s es e
last_status-append s (flushed ∷ es) e = last_status-append s es e
last_status-append s (hijacked ∷ es) e = last_status-append s es e
last_status-append s (pushed ∷ es) e = last_status-append s es e

-- What has been written, less `missed` bytes, is what the recorder says, and so is the status.
record IsRecorded (missed : ℕ) (r : Recorder) : Type 0 where
  counted : (r.bytes + missed) % two_64 ≡ total r.events % two_64
  status_is : r.status_code ≡ last_status 200 r.events

module _ (inner : Inner) where
  abbrev missed_by : Call inner → ℕ
  missed_by (read_from_call src) = if inner.is_reader_from then 0 else inner.takes src
  missed_by c = 0

  -- The bytes of all `ReadFrom` calls, if the writer behind has no such method.
  abbrev pub missed : List (Call inner) → ℕ
  missed [] = 0
  missed (c ∷ cs) = missed_by c + missed cs

  -- An event that writes nothing.
  if_able-IsRecorded :
      (able : Bool) (e : Event) (k : ℕ) (r : Recorder)
      → total (e ∷ []) ≡ 0
      → last_status r.status_code (e ∷ []) ≡ r.status_code
      → IsRecorded k r
      → IsRecorded (k + 0) (if_able inner able e r)
  if_able-IsRecorded false e k r z s i = record {
    counted = omega (arith, i.counted);
    status_is = i.status_is;
  }
  if_able-IsRecorded true e k r z s i = record {
    counted = omega (arith, i.counted, total-append r.events e, z);
    status_is = sym (
        last_status-append 200 r.events e ∙ ap (λ s. last_status s (e ∷ [])) (sym i.status_is) ∙ s);
  }

  call-IsRecorded :
      (c : Call inner) (k : ℕ) (r : Recorder)
      → IsRecorded k r
      → IsRecorded (k + missed_by c) (call inner c r)
  unfolding call
  call-IsRecorded (write_status_call code) k r i = record {
    counted = omega (arith, i.counted, total-append r.events (status code));
    status_is = sym (last_status-append 200 r.events (status code));
  }
  call-IsRecorded (write_call b) k r i = record {
    counted = omega (arith, i.counted, total-append r.events (piece (inner.takes b)));
    status_is = i.status_is ∙ sym (last_status-append 200 r.events (piece (inner.takes b)));
  }
  call-IsRecorded flush_call k r i = if_able-IsRecorded inner.is_flusher flushed k r refl refl i
  call-IsRecorded hijack_call k r i = if_able-IsRecorded inner.is_hijacker hijacked k r refl refl i
  call-IsRecorded push_call k r i = if_able-IsRecorded inner.is_pusher pushed k r refl refl i
  call-IsRecorded (read_from_call src) k r i = elim (Bool-cases inner.is_reader_from) [
    | inl e ↦ rw e (record {
      counted = omega (arith, i.counted, total-append r.events (piece (inner.takes src)));
      status_is = i.status_is ∙ sym (last_status-append 200 r.events (piece (inner.takes src)));
    })
    | inr e ↦ rw e (record {
      counted = omega (arith, i.counted, total-append r.events (piece (inner.takes src)));
      status_is = i.status_is ∙ sym (last_status-append 200 r.events (piece (inner.takes src)));
    })
  ]

  calls-IsRecorded :
      (cs : List (Call inner)) (k : ℕ) (r : Recorder)
      → IsRecorded k r
      → IsRecorded (k + missed cs) (calls inner cs r)
  calls-IsRecorded [] k r i = subst (λ n. IsRecorded n r) (omega arith) i
  calls-IsRecorded (c ∷ cs) k r i =
      let next = calls-IsRecorded cs (k + missed_by c) (call inner c r) (call-IsRecorded c k r i) in
      subst (λ n. IsRecorded n (calls inner cs (call inner c r))) (omega arith) next

  -- Whatever a handler does with its writer, the recorder's bytes and those of `ReadFrom` calls that
  -- the writer behind has no method for are, up to the wrap-around, the bytes that the client gets;
  -- its status is the last one that was written, and 200 before any is.
  pub calls-total :
      (cs : List (Call inner))
      → let r = calls inner cs new_recorder in
        ((r.bytes + missed cs) % two_64 ≡ total r.events % two_64)
        × (r.status_code ≡ last_status 200 r.events)
  calls-total cs =
      let start : IsRecorded 0 new_recorder = record { counted = refl; status_is = refl } in
      let i = calls-IsRecorded cs 0 new_recorder start in (omega (arith, i.counted), i.status_is)
