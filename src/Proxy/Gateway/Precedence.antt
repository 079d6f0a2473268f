-- ===== src/Proxy/Gateway/Precedence.antt =====
-- Which of the suitable routes `match` prefers.
use mathlib.Core.Path.{subst}
use web_server.Prelude.{
  if◌then◌else◌, ◌&&◌, Bool, ◌≡◌, ◌≤◌, ◌<◌, ◌⊎◌, inl, inr, ◌↔◌, refl, true, false, not, ◌++◌, List,
  [], ◌∷◌, some, All, length, arith,
}
use web_server.Text.{Bytes, has_prefix, has_prefix_iff, equal_fold}
use web_server.Http.Message.{Request}
use web_server.Proxy.Gateway.{RouteEntry, has_host, accepts, score, match_route}
use web_server.Proxy.Gateway.Matching.{IsBest, here, there, match_route-IsBest}

host_suits :
    (host asked : Bytes) (p : Bool)
    → ((if has_host host && not (equal_fold host asked) then false else p) ≡ true)
      ↔ (((host ≡ []) ⊎ (equal_fold host asked ≡ true)) × (p ≡ true))
host_suits [] asked p = (λ h. (inl refl, h), λ h. h.1)
host_suits (c ∷ host) asked p = (
  λ h. (inr (ground arith), ground arith),
  λ h. elim h.0 [ inl e ↦ cc | inr e ↦ ground (arith, e, h.1) ],
)

module _ {H : Type 0} where
  -- The route has no host or, up to the case of letters, that of the request, and its prefix is one
  -- of the request's path.
  abbrev pub Suits : Request → RouteEntry H → Type 0
  Suits r e =
      ((e.host ≡ []) ⊎ (equal_fold e.host r.host ≡ true))
      × ((rest : Bytes) × (r.path ≡ e.path_prefix ++ rest))

  accepts_iff : (e : RouteEntry H) (r : Request) → (accepts e r ≡ true) ↔ Suits r e
  accepts_iff e r = (
    λ h.
        let both = (host_suits e.host r.host (has_prefix r.path e.path_prefix)).0 h in
        (both.0, (has_prefix_iff r.path e.path_prefix).0 both.1),
    λ s.
        (host_suits e.host r.host (has_prefix r.path e.path_prefix)).1
          (s.0, (has_prefix_iff r.path e.path_prefix).1 s.1),
  )

  -- A route that `match` may not prefer to `best`.
  abbrev pub Yields : RouteEntry H → RouteEntry H → Type 0
  Yields best e =
      (has_host best.host ≡ false → has_host e.host ≡ false)
      × (has_host e.host ≡ has_host best.host → length e.path_prefix ≤ length best.path_prefix)

  Yields-score :
      (best e : RouteEntry H)
      → length e.path_prefix < 10000
      → length best.path_prefix < 10000
      → score e ≤ score best
      → Yields best e
  Yields-score best e le lb h = (λ b. ground arith, λ b. ground arith)

  abbrev pub IsShort : RouteEntry H → Type 0
  IsShort e = length e.path_prefix < 10000

  best_holds {κ} :
      (P : RouteEntry H → Type κ) (r : Request) (best : RouteEntry H)
      (entries : List (RouteEntry H))
      → IsBest r best entries
      → All P entries
      → P best
  best_holds P r best [] b h = elim b [ ]
  best_holds P r best (e ∷ entries) (here a all) h = h.0
  best_holds P r best (e ∷ entries) (there l b) h = best_holds P r best entries b h.1

  all_below :
      (r : Request) (best : RouteEntry H) (entries : List (RouteEntry H))
      → IsShort best
      → All IsShort entries
      → All (λ e. accepts e r ≡ true → score e ≤ score best) entries
      → All (λ e. Suits r e → Yields best e) entries
  all_below r best [] sb short h = tt
  all_below r best (e ∷ entries) sb short h = (
    λ s. Yields-score best e short.0 sb (h.0 ((accepts_iff e r).1 s)),
    all_below r best entries sb short.1 h.1,
  )

  all_yield :
      (r : Request) (best : RouteEntry H) (entries : List (RouteEntry H))
      → IsShort best
      → IsBest r best entries
      → All IsShort entries
      → All (λ e. Suits r e → Yields best e) entries
  all_yield r best [] sb b h = elim b [ ]
  all_yield r best (e ∷ entries) sb (here a all) h =
      (λ s. (λ b. b, λ b. omega arith), all_below r best entries sb h.1 all)
  all_yield r best (e ∷ entries) sb (there l b) h = (
    λ s. Yields-score best e h.0 sb (omega (arith, l ((accepts_iff e r).1 s))),
    all_yield r best entries sb b h.1,
  )

  best-Suits :
      (r : Request) (best : RouteEntry H) (entries : List (RouteEntry H))
      → IsBest r best entries
      → Suits r best
  best-Suits r best [] b = elim b [ ]
  best-Suits r best (e ∷ entries) (here a all) = (accepts_iff best r).0 a
  best-Suits r best (e ∷ entries) (there l b) = best-Suits r best entries b

  -- If all prefixes are shorter than 10000, the route that `match` returns suits the request; it
  -- has a host if any suitable route has one, and of the suitable routes with a host as of those
  -- without one none has a longer prefix than a returned route of that sort.
  pub match_route-Yields :
      (entries : List (RouteEntry H)) (r : Request) {best : RouteEntry H}
      → All IsShort entries
      → match_route entries r ≡ some best
      → Suits r best × All (λ e. Suits r e → Yields best e) entries
  match_route-Yields entries r {best} short found = elim (match_route-IsBest entries r) [
    | inl (ignored, nothing) ↦ cc (found, nothing)
    | inr (b, is_best, same) ↦
        let e : b ≡ best = cc (found, same) in
        let is_best' : IsBest r best entries = subst (λ b. IsBest r b entries) e is_best in
        (
          best-Suits r best entries is_best',
          all_yield r best entries (best_holds IsShort r best entries is_best' short) is_best'
              short,
        )
  ]
