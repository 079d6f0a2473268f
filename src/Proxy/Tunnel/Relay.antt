-- ===== src/Proxy/Tunnel/Relay.antt =====
-- `relayBidirectional` of internal/proxy/tunnel.go: its goroutines as moves in any order. A copy
-- carries a byte, ends at the end of what its side sends, or fails; what it has read and not
-- written then is lost. The function's own move receives the first error and closes both
-- connections; a copy cannot carry anything over a closed one.
pub mod Carried
pub mod Delivery
use web_server.Prelude.{Bool, true, false, not, ◌&&◌, ◌||◌, if◌then◌else◌, List, [], ◌∷◌, ◌++◌}
use web_server.Text.{Bytes}

pub data Copying : Type 0 where
  running drained broken : Copying

-- One io.Copy: what its side still sends, what it has written, and whether it is over.
pub record Pipe : Type 0 where
  pub source : Bytes
  pub sink : Bytes
  pub state : Copying

pub record Relay : Type 0 where
  pub up : Pipe  -- from the client to the upstream
  pub down : Pipe
  pub cancelled : Bool  -- the context is done
  pub closed : Bool

pub data Turn : Type 0 where
  carry reach_end break_off : Turn

pub data Move : Type 0 where
  up_turn : Turn → Move
  down_turn : Turn → Move
  cancel receive : Move

abbrev pub pipe : Bytes → Pipe
pipe source = record { source = source; sink = []; state = running }

abbrev pub carry_byte : Pipe → Bytes → Pipe
carry_byte p [] = p
carry_byte p (c ∷ s) = record p { source = s; sink = p.sink ++ c ∷ [] }

abbrev pub end_of : Pipe → Bytes → Pipe
end_of p [] = record p { state = drained }
end_of p (c ∷ s) = p

abbrev pub run_turn : Bool → Turn → Pipe → Pipe
run_turn closed break_off p = record p { state = broken }
run_turn true turn p = p
run_turn false carry p = carry_byte p p.source
run_turn false reach_end p = end_of p p.source

-- A copy that is over stays so.
abbrev pub turn_in : Copying → Bool → Turn → Pipe → Pipe
turn_in running closed turn p = run_turn closed turn p
turn_in state closed turn p = p

-- Whether a goroutine has sent to the channel.
abbrev pub is_over : Copying → Bool
is_over running = false
is_over _ = true

unfoldable pub move : Move → Relay → Relay
move (up_turn turn) r = record r { up = turn_in r.up.state r.closed turn r.up }
move (down_turn turn) r = record r { down = turn_in r.down.state r.closed turn r.down }
move cancel r = record r { cancelled = true }
move receive r =
    if is_over r.up.state || is_over r.down.state || r.cancelled
    then record r { closed = true }
    else r

-- The client's bytes that the server has buffered come first: the first copy reads its buffer, or
-- the connection, if nothing is buffered.
abbrev pub client_bytes : Bytes → Bytes → Bytes
client_bytes [] incoming = incoming
client_bytes (c ∷ buffered) incoming = (c ∷ buffered) ++ incoming

abbrev pub new_relay : Bytes → Bytes → Bytes → Relay
new_relay buffered incoming from_upstream = record {
  up = pipe (client_bytes buffered incoming);
  down = pipe from_upstream;
  cancelled = false;
  closed = false;
}

unfoldable pub relay : List Move → Relay → Relay
relay [] r = r
relay (m ∷ ms) r = relay ms (move m r)
