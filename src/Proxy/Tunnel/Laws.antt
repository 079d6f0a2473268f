-- ===== src/Proxy/Tunnel/Laws.antt =====
-- What becomes of the connections of a tunnel.
use mathlib.Core.Path.{subst}
use web_server.Prelude.{
  sym, ℕ, ◌≡◌, refl, Bool, true, false, if◌then◌else◌, List, [], ◌∷◌, Option, none, some, arith,
}
use web_server.Http.Message.{Request}
use web_server.Upstream.{Url}
use web_server.Proxy.Tunnel.{
  Network, Act, http_error, open_client, open_upstream, close_client, close_upstream,
  sent_handshake, answered, relayed, uses_tls, handshake, passed_on, switched, shaken, dialled,
  hijacked, handle_websocket,
}

-- The two connections: not open yet, open, closed; `none` for a fault, such as a use of a connection
-- that is not open, or a second close.
pub data Life : Type 0 where
  unopened opened closed : Life

abbrev pub open_one : Life → Option Life
open_one unopened = some opened
open_one _ = none

abbrev pub close_one : Life → Option Life
close_one opened = some closed
close_one _ = none

abbrev pub use_one : Life → Option Life
use_one opened = some opened
use_one _ = none

abbrev both : Option Life → Option Life → Option (Life × Life)
both (some c) (some u) = some (c, u)
both _ _ = none

abbrev pub watch : Act → Life × Life → Option (Life × Life)
watch (http_error s) (c, u) = some (c, u)
watch open_client (c, u) = both (open_one c) (some u)
watch open_upstream (c, u) = both (some c) (open_one u)
watch close_client (c, u) = both (close_one c) (some u)
watch close_upstream (c, u) = both (some c) (close_one u)
watch (sent_handshake r) (c, u) = both (some c) (use_one u)
watch (answered s) (c, u) = both (use_one c) (use_one u)
watch relayed (c, u) = both (use_one c) (use_one u)

abbrev watch_then :
    (Life × Life → Option (Life × Life)) → Option (Life × Life) → Option (Life × Life)
watch_then f none = none
watch_then f (some s) = f s

abbrev pub watch_all : List Act → Life × Life → Option (Life × Life)
watch_all [] s = some s
watch_all (a ∷ acts) s = watch_then (watch_all acts) (watch a s)

-- No connection is open, and there was no fault.
abbrev pub IsOver : Option (Life × Life) → Type 0
IsOver none = ⊥
IsOver (some (opened, u)) = ⊥
IsOver (some (c, opened)) = ⊥
IsOver (some (c, u)) = Unit

abbrev IsClosing : Bool × List Act → Type 0
IsClosing (b, acts) = watch_all acts (opened, opened) ≡ some (closed, closed)

module _ (net : Network) where
  passed_on-IsClosing : (b : Bool) → IsClosing (passed_on net b)
  passed_on-IsClosing true = refl
  passed_on-IsClosing false = refl

  switched-IsClosing : (o : Option ℕ) → IsClosing (switched net o)
  switched-IsClosing none = refl
  switched-IsClosing (some s) = ground (arith, passed_on-IsClosing (net.write_response s))

  shaken-IsClosing : (b : Bool) → IsClosing (shaken net b)
  shaken-IsClosing true = switched-IsClosing net.read_response
  shaken-IsClosing false = refl

  dialled-IsOver :
      (url : Url) (r : Request) (b : Bool)
      → IsOver (watch_all (dialled net url r b).1 (opened, unopened))
  dialled-IsOver url r false = tt
  dialled-IsOver url r true =
      subst IsOver (sym (shaken-IsClosing (net.write_request (handshake net url r)))) tt

  hijacked-IsOver :
      (url : Url) (r : Request) (b : Bool)
      → IsOver (watch_all (hijacked net url r b).1 (unopened, unopened))
  hijacked-IsOver url r false = tt
  hijacked-IsOver url r true = dialled-IsOver url r (net.dial (uses_tls url.scheme) url.host)

  started-IsOver :
      (url : Url) (r : Request) (b : Bool)
      → IsOver (
          watch_all
            (if b then hijacked net url r net.hijack else (false, http_error 500 ∷ [])).1
            (unopened, unopened))
  started-IsOver url r true = hijacked-IsOver url r net.hijack
  started-IsOver url r false = tt

  -- Whatever the network does and wherever the handshake stops, a tunnel uses a connection only
  -- while it is open, closes each that it has opened, and closes none twice.
  pub handle_websocket-IsOver :
      (url : Url) (r : Request)
      → IsOver (watch_all (handle_websocket net url r).1 (unopened, unopened))
  unfolding handle_websocket
  handle_websocket-IsOver url r = started-IsOver url r net.can_hijack
