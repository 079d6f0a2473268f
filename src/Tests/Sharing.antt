-- ===== src/Tests/Sharing.antt =====
-- Two requests at once.
use web_server.Prelude.{◌≤◌, ℕ, ◌≡◌, refl, [], ◌∷◌, List, some, arith, get_elem?}
use web_server.Text.{eqb}
use web_server.Http.Header.{canonical, lookup}
use web_server.Lb.{Balancer, next, admit, collect, release, mark_success, mark_failure}
use web_server.Lb.Conns.{conns}
use web_server.Proxy.Headers.{is_websocket_upgrade}
use web_server.Proxy.Retry.{should_retry}
use web_server.Proxy.Engine.{Engine}
use web_server.Proxy.Engine.Sharing.{
  Client, Serving, started, stepped, arriving, ended, advance, advance_at,
}
use web_server.Proxy.Engine.Sharing.Counting.{holders, Serving-conns}
use web_server.Proxy.Engine.Sharing.Tally.{plus}
use web_server.Proxy.Engine.Sharing.Ending.{own_steps, Serving-ended}
use web_server.Tests.Data.{pool, get_request}
use web_server.Tests.Requests.{failing, engine}

abbrev once : Engine
once = record engine { max_retries = 0 }

abbrev client : Client
client = record { env = failing; request = get_request; stage = arriving }

abbrev clients : List Client
clients = client ∷ client ∷ []

-- Steps of the requests at these positions.
abbrev steps_at : List ℕ → Balancer → List Client → Balancer × List Client
steps_at [] b cs = (b, cs)
steps_at (i ∷ is) b cs = let (b', ds) = advance_at once i b cs in steps_at is b' ds

steps_at-Serving :
    (is : List ℕ) {b : Balancer} {cs : List Client} (b' : Balancer) (ds : List Client)
    → Serving once b cs b' ds
    → Serving once b cs (steps_at is b' ds).0 (steps_at is b' ds).1
steps_at-Serving [] b' ds r = r
steps_at-Serving (i ∷ is) b' ds r = steps_at-Serving is _ _ (stepped r i refl)

-- The first request ends while the second is in its round trip.
abbrev order : List ℕ
order = 0 ∷ 1 ∷ 0 ∷ 0 ∷ 0 ∷ []

abbrev served : Balancer × List Client
served = steps_at order pool clients

one_holder : holders 0 served.1 ≡ 1
unfolding advance_at advance next admit collect release mark_failure mark_success should_retry
    is_websocket_upgrade eqb canonical lookup
one_holder = refl

Serving-conns_example :
    get_elem? (conns served.0) 0 ≡ plus (holders 0 served.1) (get_elem? (conns pool) 0)
Serving-conns_example =
    Serving-conns once pool clients 0 refl (omega arith) (refl, (refl, tt))
      (steps_at-Serving order pool clients started)

abbrev first : List Client → Client
first [] = client
first (c ∷ cs) = c

first_found : get_elem? served.1 0 ≡ some (first served.1)
unfolding advance_at
first_found = refl

four_steps : 4 ≤ own_steps 0 (steps_at-Serving order pool clients started)
unfolding own_steps steps_at-Serving
four_steps = omega arith

Serving-ended_example : (first served.1).stage ≡ ended
Serving-ended_example =
    Serving-ended once pool clients 0 (omega arith) (refl, (refl, tt))
      (steps_at-Serving order pool clients started) first_found four_steps
