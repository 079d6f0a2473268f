-- ===== src/Middleware/RateLimit/Visits.antt =====
-- Requests through the handler of `NewIPRateLimit`, with rounds of `cleanup` in between.
use web_server.Prelude.{
  ℕ, ◌-◌, ◌≡◌, refl, ap, sym, ◌∙◌, Bool, Bool-cases, inl, inr, true, false, if◌then◌else◌, ltb,
  List, [], ◌∷◌, Option, none, some, arith,
}
use mathlib.Core.Path.{subst}
use web_server.Text.{Bytes, eqb, eqb_refl, eq_of_eqb}
use web_server.Http.Message.{Request}
use web_server.Middleware.RateLimit.{
  IpEntry, IpStore, find, put, drop_before, cleanup, limiter_of, admit_client, client_ip, Limited,
  answer, limit_request,
}
use web_server.Middleware.RateLimit.Clients.{find-put_self, find-put_ne}

-- A request with the readings of the clock in `get` and in `Allow`, or a round of `cleanup`.
pub data Visit : Type 0 where
  visit : Request → ℕ → ℕ → Visit
  sweep : ℕ → Visit

eqb_ne : (j k : Bytes) → eqb j k ≡ false → eqb k j ≡ false
eqb_ne j k h = elim (Bool-cases (eqb k j)) [
  | inl q ↦
      let same : k ≡ j = eq_of_eqb k j q in
      let equal : eqb j k ≡ true = ap (eqb j) same ∙ eqb_refl j in
      let bad : true ≡ false = sym equal ∙ h in cc
  | inr q ↦ q
]

module _ {L : Type 0} where
  -- What a cleanup does to the entry of a client: one that was not seen for ten minutes is forgotten.
  abbrev pub swept : ℕ → Option (IpEntry L) → Option (IpEntry L)
  swept cutoff none = none
  swept cutoff (some e) = if ltb e.last_seen cutoff then none else some e

  -- Each client has one entry.
  abbrev pub IsUnique : IpStore L → Type 0
  IsUnique [] = Unit
  IsUnique ((j, e) ∷ s) = (find j s ≡ none) × IsUnique s

  find_dropped :
      (cutoff : ℕ) (k : Bytes) (s : IpStore L)
      → find k s ≡ none
      → find k (drop_before cutoff s) ≡ none
  unfolding find drop_before
  find_dropped cutoff k [] h = refl
  find_dropped cutoff k ((j, e) ∷ s) h = elim (Bool-cases (eqb j k)) [
    | inl q ↦ let found : some e ≡ none = sym (ap (λ b. if b then some e else find k s) q) ∙ h in cc
    | inr q ↦
        let rest : find k s ≡ none = ground (arith, h, q) in
        let below = find_dropped cutoff k s rest in
        elim (Bool-cases (ltb e.last_seen cutoff)) [
          | inl b ↦ rw b below
          | inr b ↦ rw b (rw q below)
        ]
  ]

  drop_before-IsUnique : (cutoff : ℕ) (s : IpStore L) → IsUnique s → IsUnique (drop_before cutoff s)
  unfolding drop_before
  drop_before-IsUnique cutoff [] u = tt
  drop_before-IsUnique cutoff ((j, e) ∷ s) u = elim (Bool-cases (ltb e.last_seen cutoff)) [
    | inl b ↦ rw b (drop_before-IsUnique cutoff s u.1)
    | inr b ↦ rw b (find_dropped cutoff j s u.0, drop_before-IsUnique cutoff s u.1)
  ]

  find-drop_before :
      (cutoff : ℕ) (k : Bytes) (s : IpStore L)
      → IsUnique s
      → find k (drop_before cutoff s) ≡ swept cutoff (find k s)
  unfolding find drop_before
  find-drop_before cutoff k [] u = refl
  find-drop_before cutoff k ((j, e) ∷ s) u = elim (Bool-cases (eqb j k)) [
    | inl q ↦
        let same : j ≡ k = eq_of_eqb j k q in
        let gone : find k s ≡ none = subst (λ i. find i s ≡ none) same u.0 in
        elim (Bool-cases (ltb e.last_seen cutoff)) [
          | inl b ↦
              rw (b, q)
                (find_dropped cutoff k s gone ∙ sym (ap (λ t. if t then none else some e) b))
          | inr b ↦ rw b (rw q (sym (ap (λ t. if t then none else some e) b)))
        ]
    | inr q ↦
        let below = find-drop_before cutoff k s u.1 in
        elim (Bool-cases (ltb e.last_seen cutoff)) [
          | inl b ↦ rw (b, q) below
          | inr b ↦ rw b (rw q below)
        ]
  ]

  put-IsUnique : (k : Bytes) (e : IpEntry L) (s : IpStore L) → IsUnique s → IsUnique (put k e s)
  unfolding put find
  put-IsUnique k e [] u = (refl, tt)
  put-IsUnique k e ((j, d) ∷ s) u = elim (Bool-cases (eqb j k)) [
    | inl q ↦ rw q (subst (λ i. find i s ≡ none) (eq_of_eqb j k q) u.0, u.1)
    | inr q ↦ rw q (find-put_ne k j e s (eqb_ne j k q) ∙ u.0, put-IsUnique k e s u.1)
  ]

module _ {L : Type 0} (new_limiter : L) (allow : ℕ → L → L × Bool)
    (split_host_port : Bytes → Option (Bytes × Bytes)) {A : Type 0} (next : Request → A) where
  abbrev client_of : Request → Bytes
  client_of r = client_ip split_host_port r

  -- What the requests of one client are answered, among all that come.
  abbrev pub outcomes : Bytes → List Visit → IpStore L → List (Limited A)
  outcomes ip [] s = []
  outcomes ip (visit r seen asked ∷ visits) s =
      let (s', outcome) = limit_request new_limiter allow split_host_port next seen asked r s in
      let rest = outcomes ip visits s' in if eqb (client_of r) ip then outcome ∷ rest else rest
  outcomes ip (sweep now ∷ visits) s = outcomes ip visits (cleanup now s)

  -- What they are answered by one entry that only this client uses.
  abbrev pub served_alone : Bytes → List Visit → Option (IpEntry L) → List (Limited A)
  served_alone ip [] o = []
  served_alone ip (visit r seen asked ∷ visits) o =
      let (l, ok) = allow asked (limiter_of new_limiter o) in
      let own =
        answer ok (next r)
        ∷ served_alone ip visits (some (record { limiter = l; last_seen = seen })) in
      let other = served_alone ip visits o in if eqb (client_of r) ip then own else other
  served_alone ip (sweep now ∷ visits) o = served_alone ip visits (swept (now - 600_000_000_000) o)

  -- Whatever other clients send in between, and whenever the store is cleaned up, the requests of a
  -- client are answered as by one bucket that only it uses, the one that the store holds for it or
  -- a new one, and which is forgotten by a cleanup if the client was not seen in the ten minutes
  -- before; a request that the bucket does not allow is answered with 429, and every other one
  -- reaches the handler behind unchanged.
  pub outcomes-served_alone :
      (ip : Bytes) (visits : List Visit) (s : IpStore L)
      → IsUnique s
      → outcomes ip visits s ≡ served_alone ip visits (find ip s)
  unfolding limit_request admit_client cleanup
  outcomes-served_alone ip [] s u = refl
  outcomes-served_alone ip (sweep now ∷ visits) s u =
      let cutoff = now - 600_000_000_000 in
      outcomes-served_alone ip visits (drop_before cutoff s) (drop_before-IsUnique cutoff s u)
      ∙ ap (served_alone ip visits) (find-drop_before cutoff ip s u)
  outcomes-served_alone ip (visit r seen asked ∷ visits) s u =
      let k = client_of r in
      let l : L = limiter_of new_limiter (find k s) in
      let e : IpEntry L = record { limiter = (allow asked l).0; last_seen = seen } in
      let rest = outcomes-served_alone ip visits (put k e s) (put-IsUnique k e s u) in
      elim (Bool-cases (eqb k ip)) [
        | inl h ↦
            let same : k ≡ ip = eq_of_eqb k ip h in
            let stored : find ip (put k e s) ≡ some e =
              subst (λ i. find i (put k e s) ≡ some e) same (find-put_self k e s) in
            let bucket : l ≡ limiter_of new_limiter (find ip s) =
              ap (λ i. limiter_of new_limiter (find i s)) same in
            rw h (
              ap (◌∷◌ (answer (allow asked l).1 (next r)))
                (rest ∙ ap (served_alone ip visits) stored)
              ∙ ap
                  (λ x.
                    answer (allow asked x).1 (next r)
                    ∷ served_alone ip visits
                        (some (record { limiter = (allow asked x).0; last_seen = seen })))
                  bucket)
        | inr h ↦ rw h (rest ∙ ap (served_alone ip visits) (find-put_ne k ip e s h))
      ]
