-- ===== src/Lb/Conns.antt =====
-- The count of active connections: what each operation of a balancer does to it.
use web_server.Prelude.{
  ℕ, zero, suc, ◌≡◌, ◌<◌, refl, ap, ◌∙◌, List, [], ◌∷◌, Option, none, some, arith, modify, map, inc,
  dec, dec-inc, All, map-modify, map-modify_same, two_64,
}
use web_server.Upstream.{Upstream, try_half_open, record_failure, record_success}
use web_server.Lb.{
  Balancer, admit, next, connect, release, release_target, mark_failure, mark_success,
}
use web_server.Lb.Targets.{asked, connect_at, next-targets}

abbrev pub conns_of : Upstream → ℕ
conns_of t = t.active_conns

-- The active connections of all targets.
abbrev pub conns : Balancer → List ℕ
conns b = map conns_of b.targets

abbrev pub add_at : Option ℕ → List ℕ → List ℕ
add_at none cs = cs
add_at (some k) cs = modify cs k inc

admit-conns_of : (now : ℕ) (t : Upstream) → conns_of (admit now t).0 ≡ conns_of t
unfolding admit try_half_open
admit-conns_of now t = ground arith

asked-conns :
    (clock : ℕ → ℕ) (i : ℕ) (ts : List Upstream) → map conns_of (asked clock i ts) ≡ map conns_of ts
asked-conns clock i [] = refl
asked-conns clock i (t ∷ ts) = cc (admit-conns_of (clock i) t, asked-conns clock (suc i) ts)

connect_at-conns :
    (o : Option ℕ) (ts : List Upstream)
    → map conns_of (connect_at o ts) ≡ add_at o (map conns_of ts)
connect_at-conns none ts = refl
connect_at-conns (some k) ts = map-modify conns_of ts k connect inc (λ t. refl)

-- `Next` counts one connection more at the upstream that it returns, and none anywhere if it
-- fails.
pub next-conns :
    (clock : ℕ → ℕ) (b : Balancer) → conns (next clock b).0 ≡ add_at (next clock b).1 (conns b)
next-conns clock b =
    ap (map conns_of) (next-targets clock b)
    ∙ connect_at-conns (next clock b).1 (asked clock 0 b.targets)
    ∙ ap (add_at (next clock b).1) (asked-conns clock 0 b.targets)

release_target-conns : (t : Upstream) → conns_of (release_target t) ≡ dec (conns_of t)
unfolding release_target record_success
release_target-conns t = ground arith

-- `Release` counts one connection less at its upstream.
pub release-conns : (k : ℕ) (b : Balancer) → conns (release k b) ≡ modify (conns b) k dec
unfolding release
release-conns k b = map-modify conns_of b.targets k release_target dec release_target-conns

record_failure-conns : (now : ℕ) (t : Upstream) → conns_of (record_failure now t) ≡ conns_of t
unfolding record_failure
record_failure-conns now t = ground arith

record_success-conns : (t : Upstream) → conns_of (record_success t) ≡ conns_of t
unfolding record_success
record_success-conns t = ground arith

pub mark_failure-conns : (now k : ℕ) (b : Balancer) → conns (mark_failure now k b) ≡ conns b
unfolding mark_failure
mark_failure-conns now k b =
    map-modify_same conns_of b.targets k (record_failure now) (record_failure-conns now)

pub mark_success-conns : (k : ℕ) (b : Balancer) → conns (mark_success k b) ≡ conns b
unfolding mark_success
mark_success-conns k b = map-modify_same conns_of b.targets k record_success record_success-conns

-- The counts are 64-bit words.
abbrev pub AreWords : List ℕ → Type 0
AreWords = All (λ c. c < two_64)

pub modify-dec-inc : (cs : List ℕ) (k : ℕ) → AreWords cs → modify (modify cs k inc) k dec ≡ cs
modify-dec-inc [] k h = refl
modify-dec-inc (c ∷ cs) zero h = ap (λ d. d ∷ cs) (dec-inc c h.0)
modify-dec-inc (c ∷ cs) (suc k) h = ap (◌∷◌ c) (modify-dec-inc cs k h.1)

-- One connection more at `k` than the counts `cs` say.
abbrev pub Holding : Balancer → ℕ → List ℕ → Type 0
Holding b k cs = conns b ≡ modify cs k inc

pub next-Holding :
    (clock : ℕ → ℕ) (b : Balancer) {k : ℕ} {cs : List ℕ}
    → conns b ≡ cs
    → (next clock b).1 ≡ some k
    → Holding (next clock b).0 k cs
next-Holding clock b {k} {cs} c e =
    next-conns clock b ∙ ap (λ o. add_at o (conns b)) e ∙ ap (λ ds. modify ds k inc) c

pub release-Holding :
    (k : ℕ) (b : Balancer) {cs : List ℕ} → AreWords cs → Holding b k cs → conns (release k b) ≡ cs
release-Holding k b {cs} w h =
    release-conns k b ∙ ap (λ ds. modify ds k dec) h ∙ modify-dec-inc cs k w

-- A connection that is taken and released leaves all counts as they were, whether its failure or
-- its success is reported in between.
pub next-release :
    (clock : ℕ → ℕ) (b : Balancer) (k now : ℕ)
    → AreWords (conns b)
    → (next clock b).1 ≡ some k
    → (conns (release k (mark_failure now k (next clock b).0)) ≡ conns b)
      × (conns (release k (mark_success k (next clock b).0)) ≡ conns b)
next-release clock b k now w e =
    let held = next-Holding clock b refl e in
    (
      release-Holding k _ w (mark_failure-conns now k _ ∙ held),
      release-Holding k _ w (mark_success-conns k _ ∙ held),
    )
