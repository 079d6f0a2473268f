-- ===== src/Plugin/IpRestriction/Laws.antt =====
-- Who passes internal/plugin/plugins/ip_restriction.go.
use mathlib.Core.Path.{subst}
use web_server.Prelude.{
  ◌≢◌, ◌≡◌, ◌↔◌, ◌⊎◌, inl, inr, refl, sym, ap, true, false, Bool-cases, List, [], ◌∷◌, Option, none,
  some,
}
use web_server.Text.{Bytes, codes}
use web_server.Text.Scan.{trim_space}
use web_server.Http.Message.{Request}
use web_server.Config.{Fields}
use web_server.Plugin.{refuse, forward, string_list}
use web_server.Plugin.IpRestriction.{
  Net, IpRestriction, as_cidr, cons_net, parse_cidrs, restriction, new_ip_restriction, in_net,
  contains_ip, parse_client_ip, check_ip, any_nets,
}

module _ (net : Net) where
  open net use {Ip, IpNet, parse_cidr}

  -- The configured text is a network with this address.
  abbrev pub Admits : Option Ip → Bytes → Type 0
  Admits ip s =
      (n : IpNet) × (parse_cidr (as_cidr (trim_space s)) ≡ some n) × (in_net net n ip ≡ true)

  abbrev pub AnyAdmits : Option Ip → List Bytes → Type 0
  AnyAdmits ip [] = ⊥
  AnyAdmits ip (s ∷ ss) = Admits ip s ⊎ AnyAdmits ip ss

  cons_net-inv :
      (o : Option IpNet) (rest : Option (List IpNet)) {ns : List IpNet}
      → cons_net net o rest ≡ some ns
      → (n : IpNet) × (ms : List IpNet) × (o ≡ some n) × (rest ≡ some ms) × (ns ≡ n ∷ ms)
  cons_net-inv none rest h = cc
  cons_net-inv (some n) none h = cc
  cons_net-inv (some n) (some ms) h = (n, ms, refl, refl, cc)

  contains_ip_iff :
      (ss : List Bytes) (ip : Option Ip) {ns : List IpNet}
      → parse_cidrs net ss ≡ some ns
      → (contains_ip net ns ip ≡ true) ↔ AnyAdmits ip ss
  unfolding parse_cidrs contains_ip
  contains_ip_iff [] ip {ns} h =
      let none_left : ns ≡ [] = cc in
      subst (λ l. (contains_ip net l ip ≡ true) ↔ ⊥) (sym none_left) (λ c. cc c, λ a. elim a [ ])
  contains_ip_iff (s ∷ ss) ip {ns} h =
      let (n, ms, parsed, rest, same) =
        cons_net-inv (parse_cidr (as_cidr (trim_space s))) (parse_cidrs net ss) h in
      let ih = contains_ip_iff ss ip rest in
      subst (λ l. (contains_ip net l ip ≡ true) ↔ (Admits ip s ⊎ AnyAdmits ip ss)) (sym same)
        (
          λ c. elim (Bool-cases (in_net net n ip)) [
            | inl a ↦ inl (n, parsed, a)
            | inr b ↦ inr (ih.0 (rw b at c))
          ],
          λ a. elim a [
            | inl (m, q, b) ↦
                let one : m ≡ n = cc (q, parsed) in
                let b' : in_net net n ip ≡ true = subst (λ m. in_net net m ip ≡ true) one b in
                rw b' refl
            | inr b ↦ elim (Bool-cases (in_net net n ip)) [
              | inl c ↦ rw c refl
              | inr c ↦ rw c (ih.1 b)
            ]
          ],
        )

  any_nets-parse_cidrs :
      (ss : List Bytes) {ns : List IpNet}
      → parse_cidrs net ss ≡ some ns
      → ((ss ≡ []) × (any_nets net ns ≡ false)) ⊎ ((ss ≢ []) × (any_nets net ns ≡ true))
  unfolding parse_cidrs
  any_nets-parse_cidrs [] {ns} h =
      let none_left : ns ≡ [] = cc in inl (refl, ap (any_nets net) none_left)
  any_nets-parse_cidrs (s ∷ ss) h =
      let (n, ms, parsed, rest, same) =
        cons_net-inv (parse_cidr (as_cidr (trim_space s))) (parse_cidrs net ss) h in
      inr (λ e. cc e, ap (any_nets net) same)

  restriction-inv :
      (a d : Option (List IpNet)) {p : IpRestriction net}
      → restriction net a d ≡ some p
      → (a ≡ some p.allow_nets) × (d ≡ some p.deny_nets)
  restriction-inv none d h = cc
  restriction-inv (some a) none h = cc
  restriction-inv (some a) (some d) {p} h =
      let same : record { allow_nets = a; deny_nets = d } ≡ p = cc in
      (
        ap (λ (q : IpRestriction net). some q.allow_nets) same,
        ap (λ (q : IpRestriction net). some q.deny_nets) same,
      )

  -- No denied network has the address, and an allowed one has, if any are configured.
  abbrev pub MayPass : Fields → Option Ip → Type 0
  MayPass cfg ip =
      (¬ AnyAdmits ip (string_list cfg (codes "deny")))
      × ((string_list cfg (codes "allow") ≡ []) ⊎ AnyAdmits ip (string_list cfg (codes "allow")))

  -- Of a restriction that could be made, a request goes on unchanged exactly if none of the texts
  -- listed as denied is a network with the client's address, and one of those listed as allowed is,
  -- if there are any; all others are refused with 403. A client without a readable address is in no
  -- network.
  pub check_ip-MayPass :
      (cfg : Fields) (p : IpRestriction net) (r : Request)
      → new_ip_restriction net cfg ≡ some p
      → (MayPass cfg (parse_client_ip net r) × (check_ip net p r ≡ forward r))
        ⊎ ((¬ MayPass cfg (parse_client_ip net r)) × (check_ip net p r ≡ refuse 403))
  unfolding new_ip_restriction check_ip
  check_ip-MayPass cfg p r h =
      let ip = parse_client_ip net r in
      let allows = string_list cfg (codes "allow") in
      let denies = string_list cfg (codes "deny") in
      let (made_allow, made_deny) =
        restriction-inv (parse_cidrs net allows) (parse_cidrs net denies) h in
      let in_allow = contains_ip_iff allows ip made_allow in
      let in_deny = contains_ip_iff denies ip made_deny in
      elim (Bool-cases (contains_ip net p.deny_nets ip)) [
        | inl d ↦ inr (λ m. m.0 (in_deny.0 d), rw d refl)
        | inr d ↦
            let not_denied : AnyAdmits ip denies → ⊥ = λ a. cc (in_deny.1 a, d) in
            elim (any_nets-parse_cidrs allows made_allow) [
              | inl (empty, q) ↦ inl ((not_denied, inl empty), rw (d, q) refl)
              | inr (filled, q) ↦ elim (Bool-cases (contains_ip net p.allow_nets ip)) [
                | inl a ↦ inl ((not_denied, inr (in_allow.0 a)), rw (d, q, a) refl)
                | inr a ↦ inr (
                  λ m. elim m.1 [ inl empty ↦ filled empty | inr b ↦ cc (in_allow.1 b, a) ],
                  rw (d, q, a) refl,
                )
              ]
            ]
      ]
