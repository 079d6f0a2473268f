-- ===== src/Tests/Clients.antt =====
-- The rate limiter with buckets that are never refilled.
use web_server.Http.Header.{get, lookup}
use web_server.Http.Message.{Request}
use web_server.Text.Scan.{trim_space, trim_left, trim_right}
use web_server.Tests.Data.{get_request}
use web_server.Middleware.RateLimit.{
  limit_request, cleanup, drop_before, client_ip, first_part, passed,
}
use web_server.Middleware.RateLimit.Visits.{
  Visit, visit, sweep, outcomes, served_alone, outcomes-served_alone,
}
use web_server.Prelude.{Option, some, none}
use web_server.Prelude.{ℕ, zero, suc, ◌≡◌, refl, Bool, true, false, List, [], ◌∷◌}
use web_server.Text.{Bytes, codes, eqb}
use web_server.Middleware.RateLimit.{IpStore, Arrival, find, put, admit_client}
use web_server.Middleware.RateLimit.Clients.{answers}

-- A bucket is the number of its tokens.
abbrev take_token : ℕ → ℕ → ℕ × Bool
take_token t zero = (zero, false)
take_token t (suc n) = (n, true)

abbrev first_ip : Bytes
first_ip = codes "1.1.1.1"

abbrev second_ip : Bytes
second_ip = codes "2.2.2.2"

abbrev arrivals : List Arrival
arrivals =
    record { ip = first_ip; seen = 1; asked = 2 }
    ∷ record { ip = second_ip; seen = 3; asked = 4 }
    ∷ record { ip = first_ip; seen = 5; asked = 6 }
    ∷ []

abbrev store : IpStore ℕ
store = (first_ip, record { limiter = 0; last_seen = 700_000_000_000 }) ∷ []

second_unaffected : answers 1 take_token second_ip arrivals store ≡ true ∷ []
unfolding admit_client find put eqb
second_unaffected = refl

-- Requests from two addresses, and a cleanup eleven minutes after the first.
abbrev host_port : Bytes → Option (Bytes × Bytes)
host_port a = some (a, [])

abbrev from_ip : Bytes → Request
from_ip ip = record get_request { header = []; remote_addr = ip }

abbrev visits : List Visit
visits =
    visit (from_ip first_ip) 1 2
    ∷ visit (from_ip second_ip) 3 4
    ∷ sweep 660_000_000_000
    ∷ visit (from_ip first_ip) 5 6
    ∷ []

abbrev status_200 : Request → ℕ
status_200 r = 200

outcomes-served_alone_example :
    outcomes 1 take_token host_port status_200 first_ip visits []
    ≡ served_alone 1 take_token host_port status_200 first_ip visits none
unfolding find
outcomes-served_alone_example =
    outcomes-served_alone 1 take_token host_port status_200 first_ip visits [] tt

forgotten :
    outcomes 1 take_token host_port status_200 first_ip visits [] ≡ passed 200 ∷ passed 200 ∷ []
unfolding limit_request admit_client cleanup drop_before find put eqb client_ip first_part
    trim_space trim_left trim_right get lookup
forgotten = refl
