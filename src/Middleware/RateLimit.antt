-- ===== src/Middleware/RateLimit.antt =====
-- internal/middleware/ratelimit.go: one token bucket for each client. The bucket is that of
-- golang.org/x/time/rate, given as a type `L` with a new bucket and `Allow` at a time. The map is an
-- association list, and the mutex makes each access a step of its own.
pub mod Clients
pub mod Visits
use web_server.Prelude.{
  ℕ, ◌-◌, ◌==◌, ltb, Bool, true, false, if◌then◌else◌, List, [], ◌∷◌, Option, none, some,
}
use web_server.Text.{Bytes, codes, eqb}
use web_server.Http.Header.{get}
use web_server.Http.Message.{Request}
use web_server.Text.Scan.{trim_space}

-- strings.SplitN(xff, ",", 2)[0].
unfoldable pub first_part : Bytes → Bytes
first_part [] = []
first_part (c ∷ s) = let rest = first_part s in if c == b',' then [] else c ∷ rest

abbrev pub remote_ip : Bytes → Option (Bytes × Bytes) → Bytes
remote_ip addr none = addr
remote_ip addr (some (ip, port)) = ip

abbrev or_remote : Bytes → Bytes → Bytes
or_remote [] remote = remote
or_remote (c ∷ ip) remote = c ∷ ip

-- `clientIP`, with net.SplitHostPort given. An empty field has an empty first part.
unfoldable pub client_ip : (Bytes → Option (Bytes × Bytes)) → Request → Bytes
client_ip split_host_port r =
    or_remote (trim_space (first_part (get (codes "X-Forwarded-For") r.header)))
      (remote_ip r.remote_addr (split_host_port r.remote_addr))

pub record IpEntry (L : Type 0) : Type 0 where
  pub limiter : L
  pub last_seen : ℕ

abbrev pub IpStore : Type 0 → Type 0
IpStore L = List (Bytes × IpEntry L)

-- A request of a client, with the readings of the clock in `get` and in `Allow`.
pub record Arrival : Type 0 where
  pub ip : Bytes
  pub seen : ℕ
  pub asked : ℕ

module _ {L : Type 0} where
  unfoldable pub find : Bytes → IpStore L → Option (IpEntry L)
  find k [] = none
  find k ((j, e) ∷ s) = if eqb j k then some e else find k s

  unfoldable pub put : Bytes → IpEntry L → IpStore L → IpStore L
  put k e [] = (k, e) ∷ []
  put k e ((j, d) ∷ s) = let rest = put k e s in if eqb j k then (k, e) ∷ s else (j, d) ∷ rest

  -- One round of `cleanup`, at a time in nanoseconds.
  unfoldable pub drop_before : ℕ → IpStore L → IpStore L
  drop_before cutoff [] = []
  drop_before cutoff ((j, e) ∷ s) =
      let rest = drop_before cutoff s in if ltb e.last_seen cutoff then rest else (j, e) ∷ rest

  unfoldable pub cleanup : ℕ → IpStore L → IpStore L
  cleanup now s = drop_before (now - 600_000_000_000) s

abbrev pub limiter_of : {L : Type 0} → L → Option (IpEntry L) → L
limiter_of new_limiter none = new_limiter
limiter_of new_limiter (some e) = e.limiter

module _ {L : Type 0} (new_limiter : L) (allow : ℕ → L → L × Bool) where
  -- `get` and `Allow`: the store afterwards, and whether the request is let through; otherwise it
  -- is answered with 429.
  unfoldable pub admit_client : Arrival → IpStore L → IpStore L × Bool
  admit_client a s =
      let (l, ok) = allow a.asked (limiter_of new_limiter (find a.ip s)) in
      (put a.ip (record { limiter = l; last_seen = a.seen }) s, ok)

-- The answer of the handler: a status, or what the handler behind it does.
pub data Limited (A : Type 0) : Type 0 where
  too_many_requests : Limited A
  passed : A → Limited A

abbrev pub answer : {A : Type 0} → Bool → A → Limited A
answer ok a = if ok then passed a else too_many_requests

-- The handler of `NewIPRateLimit`, with the readings of the clock in `get` and in `Allow`.
module _ {L : Type 0} (new_limiter : L) (allow : ℕ → L → L × Bool)
    (split_host_port : Bytes → Option (Bytes × Bytes)) {A : Type 0} (next : Request → A) where
  unfoldable pub limit_request : ℕ → ℕ → Request → IpStore L → IpStore L × Limited A
  limit_request seen asked r s =
      let client : Arrival = record {
        ip = client_ip split_host_port r;
        seen = seen;
        asked = asked;
      } in
      let (s', ok) = admit_client new_limiter allow client s in (s', answer ok (next r))
