-- ===== src/Middleware/RateLimit/Clients.antt =====
-- internal/middleware/ratelimit.go: the buckets of the clients.
use mathlib.Core.Path.{subst}
use web_server.Prelude.{
  ℕ, ◌+◌, ◌-◌, ◌≤◌, ◌≡◌, refl, ap, ◌∙◌, inl, inr, Bool-cases, Bool, false, if◌then◌else◌, List, [],
  ◌∷◌, some, arith, ltb,
}
use web_server.Text.{Bytes, eqb, eqb_refl, eq_of_eqb}
use web_server.Middleware.RateLimit.{
  IpEntry, IpStore, Arrival, find, put, drop_before, cleanup, limiter_of, admit_client,
}

module _ {L : Type 0} where
  pub find-put_self : (k : Bytes) (e : IpEntry L) (s : IpStore L) → find k (put k e s) ≡ some e
  unfolding find put
  find-put_self k e [] = rw (eqb_refl k) refl
  find-put_self k e ((j, d) ∷ s) = elim (Bool-cases (eqb j k)) [
    | inl h ↦ rw h (rw (eqb_refl k) refl)
    | inr h ↦ rw h (rw h (find-put_self k e s))
  ]

  pub find-put_ne :
      (k i : Bytes) (e : IpEntry L) (s : IpStore L)
      → eqb k i ≡ false
      → find i (put k e s) ≡ find i s
  unfolding find put
  find-put_ne k i e [] n = rw n refl
  find-put_ne k i e ((j, d) ∷ s) n = elim (Bool-cases (eqb j k)) [
    | inl h ↦
        let same : j ≡ k = eq_of_eqb j k h in
        let n' : eqb j i ≡ false = rw same n in rw h (rw (n, n') refl)
    | inr h ↦ rw h (ap (λ o. if eqb j i then some d else o) (find-put_ne k i e s n))
  ]

module _ {L : Type 0} (new_limiter : L) (allow : ℕ → L → L × Bool) where
  -- The answers to one client's requests among all that arrive.
  abbrev pub answers : Bytes → List Arrival → IpStore L → List Bool
  answers ip [] s = []
  answers ip (a ∷ arrivals) s =
      let (s', ok) = admit_client new_limiter allow a s in
      let rest = answers ip arrivals s' in if eqb a.ip ip then ok ∷ rest else rest

  -- The answers of one bucket to the requests of this client alone.
  abbrev pub alone : Bytes → List Arrival → L → List Bool
  alone ip [] l = []
  alone ip (a ∷ arrivals) l =
      let (l', ok) = allow a.asked l in
      let own = ok ∷ alone ip arrivals l' in
      let other = alone ip arrivals l in if eqb a.ip ip then own else other

  -- Whatever other clients send in between, a client's requests are answered as by one bucket that
  -- only it uses: the one that the store holds for it, or a new one.
  pub answers-alone :
      (ip : Bytes) (arrivals : List Arrival) (s : IpStore L)
      → answers ip arrivals s ≡ alone ip arrivals (limiter_of new_limiter (find ip s))
  unfolding admit_client
  answers-alone ip [] s = refl
  answers-alone ip (a ∷ arrivals) s =
      let l : L = limiter_of new_limiter (find a.ip s) in
      let e : IpEntry L = record { limiter = (allow a.asked l).0; last_seen = a.seen } in
      let rest = answers-alone ip arrivals (put a.ip e s) in
      elim (Bool-cases (eqb a.ip ip)) [
        | inl h ↦
            let same : a.ip ≡ ip = eq_of_eqb a.ip ip h in
            let stored : find ip (put a.ip e s) ≡ some e =
              subst (λ k. find k (put a.ip e s) ≡ some e) same (find-put_self a.ip e s) in
            let bucket : l ≡ limiter_of new_limiter (find ip s) =
              ap (λ k. limiter_of new_limiter (find k s)) same in
            rw h (
              ap (◌∷◌ (allow a.asked l).1)
                (rest ∙ ap (λ o. alone ip arrivals (limiter_of new_limiter o)) stored)
              ∙ ap (λ x. (allow a.asked x).1 ∷ alone ip arrivals (allow a.asked x).0) bucket)
        | inr h ↦ rw h (
            rest
            ∙ ap (λ o. alone ip arrivals (limiter_of new_limiter o)) (find-put_ne a.ip ip e s h))
      ]

drop_before-find :
    {L : Type 0} (cutoff : ℕ) (ip : Bytes) (s : IpStore L) {e : IpEntry L}
    → find ip s ≡ some e
    → cutoff ≤ e.last_seen
    → find ip (drop_before cutoff s) ≡ some e
unfolding find drop_before
drop_before-find cutoff ip [] {e} h l = cc
drop_before-find cutoff ip ((j, d) ∷ s) {e} h l = elim (Bool-cases (eqb j ip)) [
  | inl q ↦
      let found : some d ≡ some e = ground (arith, h, q) in
      let same : d ≡ e = cc found in
      let kept : ltb d.last_seen cutoff ≡ false = rw same (ground (arith, l)) in
      rw kept (rw q found)
  | inr q ↦
      let rest : find ip s ≡ some e = ground (arith, h, q) in
      let below = drop_before-find cutoff ip s rest l in
      elim (Bool-cases (ltb d.last_seen cutoff)) [ inl b ↦ rw b below | inr b ↦ rw b (rw q below) ]
]

-- The cleanup keeps the bucket of a client that was seen within the last ten minutes.
pub find-cleanup :
    {L : Type 0} (now : ℕ) (ip : Bytes) (s : IpStore L) {e : IpEntry L}
    → find ip s ≡ some e
    → now ≤ e.last_seen + 600_000_000_000
    → find ip (cleanup now s) ≡ some e
unfolding cleanup
find-cleanup now ip s h l = drop_before-find (now - 600_000_000_000) ip s h (omega arith)
