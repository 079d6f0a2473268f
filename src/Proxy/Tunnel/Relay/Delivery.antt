-- ===== src/Proxy/Tunnel/Relay/Delivery.antt =====
-- A tunnel that delivers everything.
use mathlib.Core.List.{append_assoc, append-nil}
use web_server.Prelude.{
  ap, length, replicate, ◌≡◌, refl, sym, ◌∙◌, true, false, List, [], ◌∷◌, ◌++◌,
}
use web_server.Text.{Bytes}
use web_server.Proxy.Tunnel.Relay.{
  running, drained, Pipe, Relay, carry, reach_end, Move, up_turn, down_turn, receive, move,
  new_relay, relay,
}
use web_server.Proxy.Tunnel.Relay.Carried.{IsRelayed, relay-IsRelayed, client_bytes_lem}

relay-append : (ms rest : List Move) (r : Relay) → relay (ms ++ rest) r ≡ relay rest (relay ms r)
unfolding relay
relay-append [] rest r = refl
relay-append (m ∷ ms) rest r = relay-append ms rest (move m r)

-- A copy with these bytes to come, of which it has written some.
abbrev copying : Bytes → Bytes → Pipe
copying sink source = record { source = source; sink = sink; state = running }

abbrev both_ways : Pipe → Pipe → Relay
both_ways up down = record { up = up; down = down; cancelled = false; closed = false }

carry_up :
    (source sink : Bytes) (down : Pipe)
    → relay (replicate (length source) (up_turn carry)) (both_ways (copying sink source) down)
      ≡ both_ways (copying (sink ++ source) []) down
unfolding relay move
carry_up [] sink down = ap (λ s. both_ways (copying s []) down) (sym (append-nil sink))
carry_up (c ∷ source) sink down =
    carry_up source (sink ++ c ∷ []) down
    ∙ ap (λ s. both_ways (copying s []) down) (append_assoc sink (c ∷ []) source)

carry_down :
    (source sink : Bytes) (up : Pipe)
    → relay (replicate (length source) (down_turn carry)) (both_ways up (copying sink source))
      ≡ both_ways up (copying (sink ++ source) [])
unfolding relay move
carry_down [] sink up = ap (λ s. both_ways up (copying s [])) (sym (append-nil sink))
carry_down (c ∷ source) sink up =
    carry_down source (sink ++ c ∷ []) up
    ∙ ap (λ s. both_ways up (copying s [])) (append_assoc sink (c ∷ []) source)

-- First the client's bytes, then the upstream's, then both ends.
abbrev all_moves : Bytes → Bytes → List Move
all_moves client upstream =
    replicate (length client) (up_turn carry)
    ++ (replicate (length upstream) (down_turn carry)
        ++ up_turn reach_end ∷ down_turn reach_end ∷ receive ∷ [])

abbrev pub delivered : Bytes → Pipe
delivered input = record { source = []; sink = input; state = drained }

relay-all_moves :
    (client upstream : Bytes)
    → relay (all_moves client upstream) (both_ways (copying [] client) (copying [] upstream))
      ≡ record {
        up = delivered client;
        down = delivered upstream;
        cancelled = false;
        closed = true;
      }
unfolding relay move
relay-all_moves client upstream =
    let ends = up_turn reach_end ∷ down_turn reach_end ∷ receive ∷ [] in
    let downs = replicate (length upstream) (down_turn carry) in
    relay-append (replicate (length client) (up_turn carry)) (downs ++ ends)
      (both_ways (copying [] client) (copying [] upstream))
    ∙ ap (relay (downs ++ ends)) (carry_up client [] (copying [] upstream))
    ∙ relay-append downs ends (both_ways (copying client []) (copying [] upstream))
    ∙ ap (relay ends) (carry_down upstream [] (copying client []))

module _ (buffered incoming from_upstream : Bytes) where
  new_relay-all_moves :
      relay
        (all_moves (buffered ++ incoming) from_upstream)
        (new_relay buffered incoming from_upstream)
      ≡ record {
        up = delivered (buffered ++ incoming);
        down = delivered from_upstream;
        cancelled = false;
        closed = true;
      }
  new_relay-all_moves =
      ap
        (λ c.
          relay (all_moves (buffered ++ incoming) from_upstream)
            (both_ways (copying [] c) (copying [] from_upstream)))
        (client_bytes_lem buffered incoming)
      ∙ relay-all_moves (buffered ++ incoming) from_upstream

  -- In whatever order the goroutines of a tunnel move: what has reached the upstream is a beginning
  -- of what the client has sent, those bytes first that the server had buffered, and what has
  -- reached the client is a beginning of what the upstream's connection still held; a copy that has
  -- come to the end has written all; the connections are closed only after a goroutine has ended.
  -- And there are moves that deliver all bytes of both sides and close the connections.
  pub new_relay-IsRelayed :
      ((ms : List Move)
        → IsRelayed
            (buffered ++ incoming)
            from_upstream
            (relay ms (new_relay buffered incoming from_upstream)))
      × ((ms : List Move) × (relay ms (new_relay buffered incoming from_upstream) ≡ record {
        up = delivered (buffered ++ incoming);
        down = delivered from_upstream;
        cancelled = false;
        closed = true;
      }))
  new_relay-IsRelayed = (
    λ ms.
        relay-IsRelayed (buffered ++ incoming) from_upstream ms
          (new_relay buffered incoming from_upstream)
          (record { up = client_bytes_lem buffered incoming; down = refl; ends = λ c. cc c }),
    (all_moves (buffered ++ incoming) from_upstream, new_relay-all_moves),
  )
