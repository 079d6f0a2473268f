-- ===== src/Proxy/Tunnel/Relay/Carried.antt =====
-- What a tunnel has carried.
use mathlib.Core.List.{append_assoc, append-nil}
use web_server.Prelude.{
  ◌≡◌, refl, sym, ◌∙◌, Bool, true, false, ◌||◌, List, [], ◌∷◌, ◌++◌, arith, Bool-cases, inl, inr,
}
use web_server.Text.{Bytes}
use web_server.Proxy.Tunnel.Relay.{
  Copying, running, drained, broken, Pipe, Relay, Turn, carry, reach_end, break_off, Move, up_turn,
  down_turn, cancel, receive, run_turn, turn_in, is_over, move, client_bytes, relay,
}

-- Of these bytes a copy has written a beginning; while it runs the rest is still to come, and there
-- is no rest when it has reached the end.
abbrev pub IsCarriedIn : Copying → Bytes → Bytes → Bytes → Type 0
IsCarriedIn running input sink source = sink ++ source ≡ input
IsCarriedIn drained input sink source = sink ≡ input
IsCarriedIn broken input sink source = (rest : Bytes) × (sink ++ rest ≡ input)

abbrev pub IsCarried : Bytes → Pipe → Type 0
IsCarried input p = IsCarriedIn p.state input p.sink p.source

run_turn-IsCarried :
    (input sink source : Bytes) (closed : Bool) (turn : Turn)
    → sink ++ source ≡ input
    → IsCarried input
        (run_turn closed turn (record { source = source; sink = sink; state = running }))
run_turn-IsCarried input sink source closed break_off h = (source, h)
run_turn-IsCarried input sink source true carry h = h
run_turn-IsCarried input sink source true reach_end h = h
run_turn-IsCarried input sink [] false carry h = h
run_turn-IsCarried input sink (c ∷ s) false carry h = append_assoc sink (c ∷ []) s ∙ h
run_turn-IsCarried input sink [] false reach_end h = sym (append-nil sink) ∙ h
run_turn-IsCarried input sink (c ∷ s) false reach_end h = h

turn_in-IsCarried :
    (input sink source : Bytes) (state : Copying) (closed : Bool) (turn : Turn)
    → IsCarriedIn state input sink source
    → IsCarried input
        (turn_in state closed turn (record { source = source; sink = sink; state = state }))
turn_in-IsCarried input sink source running closed turn h =
    run_turn-IsCarried input sink source closed turn h
turn_in-IsCarried input sink source drained closed turn h = h
turn_in-IsCarried input sink source broken closed turn h = h

-- Both directions; and the connections are closed only when a goroutine has sent its error.
pub record IsRelayed (client upstream : Bytes) (r : Relay) : Type 0 where
  pub up : IsCarried client r.up
  pub down : IsCarried upstream r.down
  pub ends : r.closed ≡ true → (is_over r.up.state || is_over r.down.state || r.cancelled) ≡ true

-- A copy that is over stays over.
turn_in-is_over :
    (sink source : Bytes) (state : Copying) (closed : Bool) (turn : Turn)
    → is_over state ≡ true
    → is_over
        (turn_in state closed turn (record { source = source; sink = sink; state = state })).state
      ≡ true
turn_in-is_over sink source running closed turn h = cc
turn_in-is_over sink source drained closed turn h = h
turn_in-is_over sink source broken closed turn h = h

or_mono : (a a' b : Bool) → (a ≡ true → a' ≡ true) → (a || b) ≡ true → (a' || b) ≡ true
or_mono true a' b f h = ground (arith, f refl)
or_mono false true b f h = refl
or_mono false false b f h = h

or_mono_right : (a b b' : Bool) → (b ≡ true → b' ≡ true) → (a || b) ≡ true → (a || b') ≡ true
or_mono_right true b b' f h = refl
or_mono_right false b b' f h = f h

move-IsRelayed :
    (client upstream : Bytes) (m : Move) (r : Relay)
    → IsRelayed client upstream r
    → IsRelayed client upstream (move m r)
unfolding move
move-IsRelayed client upstream (up_turn turn) r i = record {
  up = turn_in-IsCarried client r.up.sink r.up.source r.up.state r.closed turn i.up;
  down = i.down;
  ends = λ c.
      or_mono (is_over r.up.state || is_over r.down.state) _ r.cancelled
        (or_mono (is_over r.up.state) _ (is_over r.down.state)
          (turn_in-is_over r.up.sink r.up.source r.up.state r.closed turn))
        (i.ends c);
}
move-IsRelayed client upstream (down_turn turn) r i = record {
  up = i.up;
  down = turn_in-IsCarried upstream r.down.sink r.down.source r.down.state r.closed turn i.down;
  ends = λ c.
      or_mono (is_over r.up.state || is_over r.down.state) _ r.cancelled
        (or_mono_right (is_over r.up.state) (is_over r.down.state) _
          (turn_in-is_over r.down.sink r.down.source r.down.state r.closed turn))
        (i.ends c);
}
move-IsRelayed client upstream cancel r i = record {
  up = i.up;
  down = i.down;
  ends = λ c. ground arith;
}
move-IsRelayed client upstream receive r i =
    elim (Bool-cases (is_over r.up.state || is_over r.down.state || r.cancelled)) [
      | inl e ↦ rw e (record { up = i.up; down = i.down; ends = λ c. e })
      | inr e ↦ rw e i
    ]

pub relay-IsRelayed :
    (client upstream : Bytes) (ms : List Move) (r : Relay)
    → IsRelayed client upstream r
    → IsRelayed client upstream (relay ms r)
unfolding relay
relay-IsRelayed client upstream [] r i = i
relay-IsRelayed client upstream (m ∷ ms) r i =
    relay-IsRelayed client upstream ms (move m r) (move-IsRelayed client upstream m r i)

pub client_bytes_lem :
    (buffered incoming : Bytes) → client_bytes buffered incoming ≡ buffered ++ incoming
client_bytes_lem [] incoming = refl
client_bytes_lem (c ∷ buffered) incoming = refl
