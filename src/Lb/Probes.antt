-- ===== src/Lb/Probes.antt =====
-- Probes through a balancer: `Next` asks every upstream for admission, and takes a probe of each
-- half-open one, whichever it returns.
use mathlib.Core.Path.{subst}
use web_server.Prelude.{
  get_elem?-modify_self, get_elem?-modify_ne, ℕ_discrete, ℕ, ◌≡◌, ◌≢◌, ap, ◌∙◌, sym, true, false,
  List, [], ◌∷◌, Option, none, some, arith, get_elem?, modify, inc, All, sle, slt,
}
use web_server.Upstream.{
  Upstream, circuit_closed, circuit_open, circuit_half_open, try_half_open, record_failure,
  record_success, max_probes, unix, threshold_of,
}
use web_server.Lb.{
  Balancer, admit, next, connect, release, release_target, mark_failure, mark_success,
}
use web_server.Lb.Candidates.{available}
use web_server.Lb.Targets.{asked, connect_at, next-targets, get_elem?-asked}
use web_server.Lb.Selection.{next-HasAvailable}

-- The calls that a balancer sees.
pub data Call : Type 0 where
  call_next : (ℕ → ℕ) → Call
  call_release call_success : ℕ → Call
  call_failure : ℕ → ℕ → Call

abbrev pub call : Call → Balancer → Balancer × Option ℕ
call (call_next clock) b = next clock b
call (call_release k) b = (release k b, none)
call (call_success k) b = (mark_success k b, none)
call (call_failure now k) b = (mark_failure now k b, none)

-- The upstreams that a run of calls returns.
unfoldable pub calls : List Call → Balancer → List (Option ℕ)
calls [] b = []
calls (c ∷ cs) b = let (b', o) = call c b in o ∷ calls cs b'

-- A call that reports nothing about the upstream at `j`.
abbrev pub Spares : ℕ → Call → Type 0
Spares j (call_next clock) = Unit
Spares j (call_release k) = k ≢ j
Spares j (call_success k) = k ≢ j
Spares j (call_failure now k) = k ≢ j

-- The upstream at `j` is half-open with all its probes in flight.
abbrev pub IsFull : Upstream → Type 0
IsFull t = (t.circuit_state ≡ circuit_half_open) × (sle (max_probes t) t.half_open_in_flight ≡ true)

abbrev pub FullAt : ℕ → List Upstream → Type 0
FullAt j ts = (t : Upstream) × (get_elem? ts j ≡ some t) × IsFull t

modify-FullAt :
    (ts : List Upstream) (k j : ℕ) (f : Upstream → Upstream)
    → k ≢ j
    → FullAt j ts
    → FullAt j (modify ts k f)
modify-FullAt ts k j f h (t, e, full) = (t, get_elem?-modify_ne ts k j f h ∙ e, full)

connect_at-FullAt :
    (o : Option ℕ) (ts : List Upstream) (j : ℕ) → FullAt j ts → FullAt j (connect_at o ts)
connect_at-FullAt none ts j h = h
connect_at-FullAt (some k) ts j (t, e, full) = elim (ℕ_discrete k j) [
  | yes p ↦ (connect t, rw p (get_elem?-modify_self ts j connect e), full)
  | no p ↦ modify-FullAt ts k j connect p (t, e, full)
]

admit-IsFull : (now : ℕ) (t : Upstream) → IsFull t → IsFull (admit now t).0
unfolding admit try_half_open
admit-IsFull now t h = ground arith

full_unavailable : (now : ℕ) (t : Upstream) → IsFull t → available now t ≡ false
full_unavailable now t h = ground arith

next-FullAt :
    (clock : ℕ → ℕ) (b : Balancer) (j : ℕ)
    → FullAt j b.targets
    → FullAt j (next clock b).0.targets × ((next clock b).1 ≢ some j)
next-FullAt clock b j (t, e, full) = (
  subst (FullAt j) (sym (next-targets clock b)) (
      connect_at-FullAt (next clock b).1 (asked clock 0 b.targets) j
        (_, get_elem?-asked clock 0 b.targets j j (omega arith) e, admit-IsFull (clock j) t full)),
  λ chosen.
      let (s, found, open_to) = next-HasAvailable clock b chosen in
      let same : s ≡ t = cc in
      cc (full_unavailable (clock j) t full, ap (available (clock j)) same),
)

call-FullAt :
    (c : Call) (b : Balancer) (j : ℕ)
    → Spares j c
    → FullAt j b.targets
    → FullAt j (call c b).0.targets × ((call c b).1 ≢ some j)
unfolding release mark_failure mark_success
call-FullAt (call_next clock) b j h full = next-FullAt clock b j full
call-FullAt (call_release k) b j h full =
    (modify-FullAt b.targets k j release_target h full, λ e. cc)
call-FullAt (call_success k) b j h full =
    (modify-FullAt b.targets k j record_success h full, λ e. cc)
call-FullAt (call_failure now k) b j h full =
    (modify-FullAt b.targets k j (record_failure now) h full, λ e. cc)

-- An upstream that is half-open with all its probes in flight is returned by no later `Next`, at
-- whatever times, as long as nothing is reported about it.
pub full_starves :
    (cs : List Call) (b : Balancer) (j : ℕ)
    → All (Spares j) cs
    → FullAt j b.targets
    → All (λ o. o ≢ some j) (calls cs b)
unfolding calls
full_starves [] b j h full = tt
full_starves (c ∷ cs) b j h full =
    let (still, other) = call-FullAt c b j h.0 full in
    (other, full_starves cs (call c b).0 j h.1 still)

-- A healthy upstream that is due for its only probe, passed over.
pub record IsDue (now : ℕ) (t : Upstream) : Type 0 where
  pub up : t.healthy ≡ true
  pub opened : t.circuit_state ≡ circuit_open
  pub time_up : slt (unix now) t.circuit_open_until ≡ false
  pub one_probe : t.cb_half_open_requests ≡ 1

admit-IsDue : (now : ℕ) (t : Upstream) → IsDue now t → IsFull (admit now t).0
unfolding admit try_half_open
admit-IsDue now t h = ground arith

-- When `Next` returns another upstream than one that is due for its single probe, the probe of the
-- latter counts as in flight though none was sent: no later `Next` returns it, as long as nothing
-- is reported about it, however long that is.
pub passed_over_starves :
    (clock : ℕ → ℕ) (b : Balancer) (j k : ℕ) (t : Upstream) (cs : List Call)
    → get_elem? b.targets j ≡ some t
    → IsDue (clock j) t
    → (next clock b).1 ≡ some k
    → k ≢ j
    → All (Spares j) cs
    → All (λ o. o ≢ some j) (calls cs (next clock b).0)
passed_over_starves clock b j k t cs e due chosen other spared =
    full_starves cs (next clock b).0 j spared (
      subst (FullAt j) (sym (next-targets clock b)) (
        connect_at-FullAt (next clock b).1 (asked clock 0 b.targets) j
          (_, get_elem?-asked clock 0 b.targets j j (omega arith) e, admit-IsDue (clock j) t due)))

-- A failed probe that is reported as the gateway reports it, by `MarkFailure` and then `Release`,
-- closes the circuit, marks the upstream healthy and forgets the failure, whenever the failure
-- does not reach the threshold.
pub failed_probe_closes :
    (now : ℕ) (t : Upstream)
    → t.circuit_state ≡ circuit_half_open
    → sle (threshold_of t) (inc t.failure_count) ≡ false
    → let t' = release_target (record_failure now t) in
      (t'.circuit_state ≡ circuit_closed) × (t'.healthy ≡ true) × (t'.failure_count ≡ 0)
unfolding release_target record_failure record_success
failed_probe_closes now t h b = ground arith
