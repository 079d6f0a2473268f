-- ===== src/Proxy/Engine/Sharing.antt =====
-- Several requests at once through the engine of internal/proxy/engine.go: each operation of the
-- balancer and each round trip or tunnel is a step of its own, and the scheduler chooses whose step
-- is next.
mod Alone
pub mod Tally
pub mod Counting
pub mod Ending
use web_server.Prelude.{
  ℕ, zero, suc, ◌≡◌, Bool, true, false, List, [], ◌∷◌, Option, none, some, if◌then◌else◌, slt,
}
use web_server.Http.Message.{Request}
use web_server.Lb.{Balancer, next, release, mark_failure, mark_success}
use web_server.Proxy.Headers.{is_websocket_upgrade}
use web_server.Proxy.Forward.{outbound_request}
use web_server.Proxy.Retry.{responded, failed}
use web_server.Proxy.Tunnel.{handle_websocket}
use web_server.Proxy.Engine.{Env, Engine, Reply, reply, broken, again, limit_body, target_in}

-- Where a request stands: before the first Next, in the round trip of an attempt at the upstream at
-- a position, in the tunnel, before MarkFailure, before RecordSuccess, before the Release that a
-- retry follows, before its Next, before the last Release, and at the end.
pub data Stage : Type 0 where
  arriving : Stage
  requesting : ℕ → ℕ → Stage
  tunnelling : ℕ → Stage
  marking : ℕ → ℕ → Bool → Stage
  reporting : ℕ → Stage
  dropping : ℕ → ℕ → Stage
  retrying : ℕ → Stage
  releasing : ℕ → Stage
  ended : Stage

module _ (env : Env) (e : Engine) (r : Request) where
  -- Behind Next.
  abbrev pub entered : Balancer × Option ℕ → Balancer × Stage
  entered (b, none) = (b, ended)
  entered (b, some k) = (
    b,
    if is_websocket_upgrade (limit_body e r)
        then tunnelling k
        else (if slt e.max_retries 0 then ended else requesting 0 k),
  )

  abbrev pub resumed : ℕ → Balancer × Option ℕ → Balancer × Stage
  resumed n (b, none) = (b, ended)
  resumed n (b, some k) = (b, requesting n k)

  -- Behind the round trip.
  abbrev pub replied : ℕ → ℕ → Reply → Stage
  replied n k (broken err) =
      if err.max_bytes then releasing k else marking n k (again e (limit_body e r) (failed err) n)
  replied n k (reply resp) =
      if again e (limit_body e r) (responded resp.status_code) n
      then marking n k true
      else reporting k

  -- One step of a request.
  unfoldable pub advance : Stage → Balancer → Balancer × Stage
  advance arriving b = entered (next (env.clock 0) b)
  advance (requesting n k) b =
      let out =
        outbound_request env.network.split_host_port (target_in b.targets k).url (limit_body e r) in
      (b, replied n k (env.round_trip n out))
  advance (tunnelling k) b = (
    b,
    if (handle_websocket env.network (target_in b.targets k).url (limit_body e r)).0
        then reporting k
        else marking 0 k false,
  )
  advance (marking n k more) b =
      (mark_failure (env.failure_time n) k b, if more then dropping n k else releasing k)
  advance (reporting k) b = (mark_success k b, releasing k)
  advance (dropping n k) b = (release k b, retrying (suc n))
  advance (retrying n) b = resumed n (next (env.clock n) b)
  advance (releasing k) b = (release k b, ended)
  advance ended b = (b, ended)

-- A request with its clock, its transport and where it stands.
pub record Client : Type 0 where
  pub env : Env
  pub request : Request
  pub stage : Stage

-- A step of the request at position `i`.
unfoldable pub advance_at : Engine → ℕ → Balancer → List Client → Balancer × List Client
advance_at e i b [] = (b, [])
advance_at e zero b (c ∷ cs) =
    let (b', s) = advance c.env e c.request c.stage b in (b', record c { stage = s } ∷ cs)
advance_at e (suc i) b (c ∷ cs) = let (b', cs') = advance_at e i b cs in (b', c ∷ cs')

-- The balancer and the requests before and after some steps. New requests are among `cs` from the
-- start, as `arriving`.
pub data Serving (e : Engine) (b : Balancer) (cs : List Client)
    : Balancer → List Client → Type 0 where
  started : Serving e b cs b cs
  stepped :
      {b' b'' : Balancer} {ds es : List Client}
      → Serving e b cs b' ds
      → (i : ℕ) → advance_at e i b' ds ≡ (b'', es)
      → Serving e b cs b'' es
