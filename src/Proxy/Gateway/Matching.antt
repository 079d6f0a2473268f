-- ===== src/Proxy/Gateway/Matching.antt =====
-- The route that `match` chooses.
use web_server.Prelude.{
  dec_lt, ◌∙◌, Bool-cases, ap, ◌≡◌, ◌≤◌, ◌<◌, ◌⊎◌, inl, inr, refl, true, false, List, [], ◌∷◌,
  Option, none, some, All, arith,
}
use web_server.Http.Message.{Request}
use web_server.Proxy.Gateway.{RouteEntry, accepts, score, better, match_from, match_route}

module _ {H : Type 0} where
  -- `best` is a route of the list that accepts the request, no accepting route before it scores as
  -- much, and none behind it scores more.
  pub data IsBest (r : Request) (best : RouteEntry H) : List (RouteEntry H) → Type 0 where
    here :
        {entries : List (RouteEntry H)}
        → accepts best r ≡ true
        → All (λ e. accepts e r ≡ true → score e ≤ score best) entries
        → IsBest r best (best ∷ entries)
    there :
        {e : RouteEntry H} {entries : List (RouteEntry H)}
        → (accepts e r ≡ true → score e < score best)
        → IsBest r best entries
        → IsBest r best (e ∷ entries)

  abbrev pub Ignores : Request → RouteEntry H → Type 0
  Ignores r e = accepts e r ≡ false

  -- What the loop is left with, when it has come with nothing or with `held`.
  abbrev Outcome : Request → Option (RouteEntry H) → List (RouteEntry H) → Type 0
  Outcome r none entries =
      (All (Ignores r) entries × (match_from r none entries ≡ none))
      ⊎ ((best : RouteEntry H) × IsBest r best entries × (match_from r none entries ≡ some best))
  Outcome r (some held) entries =
      (All (λ e. accepts e r ≡ true → score e ≤ score held) entries
        × (match_from r (some held) entries ≡ some held))
      ⊎ ((best : RouteEntry H) × (score held < score best)
          × IsBest r best entries
          × (match_from r (some held) entries ≡ some best))

  better_ignored :
      (r : Request) (held : Option (RouteEntry H)) (e : RouteEntry H)
      → accepts e r ≡ false
      → better r held e ≡ held
  better_ignored r held e h = ground arith

  better_first : (r : Request) (e : RouteEntry H) → accepts e r ≡ true → better r none e ≡ some e
  better_first r e h = ground arith

  better_higher :
      (r : Request) (held e : RouteEntry H)
      → accepts e r ≡ true
      → score held < score e
      → better r (some held) e ≡ some e
  better_higher r held e a h = ground arith

  better_kept :
      (r : Request) (held e : RouteEntry H)
      → score e ≤ score held
      → better r (some held) e ≡ some held
  better_kept r held e h = ground arith

  -- One round of the loop: what the rest comes to, from what is held after the round.
  Outcome-same :
      (r : Request) (held : Option (RouteEntry H)) (e : RouteEntry H)
      (entries : List (RouteEntry H))
      → accepts e r ≡ false
      → Outcome r held entries
      → Outcome r held (e ∷ entries)
  unfolding match_from
  Outcome-same r none e entries a (inl (all, same)) =
      inl ((a, all), ap (λ h. match_from r h entries) (better_ignored r none e a) ∙ same)
  Outcome-same r none e entries a (inr (best, is_best, same)) = inr (
    best,
    there (λ h. cc (a, h)) is_best,
    ap (λ h. match_from r h entries) (better_ignored r none e a) ∙ same,
  )
  Outcome-same r (some held) e entries a (inl (all, same)) = inl (
    (λ h. cc (a, h), all),
    ap (λ h. match_from r h entries) (better_ignored r (some held) e a) ∙ same,
  )
  Outcome-same r (some held) e entries a (inr (best, more, is_best, same)) = inr (
    best,
    more,
    there (λ h. cc (a, h)) is_best,
    ap (λ h. match_from r h entries) (better_ignored r (some held) e a) ∙ same,
  )

  Outcome-first :
      (r : Request) (e : RouteEntry H) (entries : List (RouteEntry H))
      → accepts e r ≡ true
      → Outcome r (some e) entries
      → Outcome r none (e ∷ entries)
  unfolding match_from
  Outcome-first r e entries a (inl (all, same)) =
      inr (e, here a all, ap (λ h. match_from r h entries) (better_first r e a) ∙ same)
  Outcome-first r e entries a (inr (best, more, is_best, same)) = inr (
    best,
    there (λ h. more) is_best,
    ap (λ h. match_from r h entries) (better_first r e a) ∙ same,
  )

  Outcome-higher :
      (r : Request) (held e : RouteEntry H) (entries : List (RouteEntry H))
      → accepts e r ≡ true
      → score held < score e
      → Outcome r (some e) entries
      → Outcome r (some held) (e ∷ entries)
  unfolding match_from
  Outcome-higher r held e entries a l (inl (all, same)) =
      inr (e, l, here a all, ap (λ h. match_from r h entries) (better_higher r held e a l) ∙ same)
  Outcome-higher r held e entries a l (inr (best, more, is_best, same)) = inr (
    best,
    omega (arith, l, more),
    there (λ h. more) is_best,
    ap (λ h. match_from r h entries) (better_higher r held e a l) ∙ same,
  )

  Outcome-kept :
      (r : Request) (held e : RouteEntry H) (entries : List (RouteEntry H))
      → score e ≤ score held
      → Outcome r (some held) entries
      → Outcome r (some held) (e ∷ entries)
  unfolding match_from
  Outcome-kept r held e entries l (inl (all, same)) =
      inl ((λ h. l, all), ap (λ h. match_from r h entries) (better_kept r held e l) ∙ same)
  Outcome-kept r held e entries l (inr (best, more, is_best, same)) = inr (
    best,
    more,
    there (λ h. omega (arith, l, more)) is_best,
    ap (λ h. match_from r h entries) (better_kept r held e l) ∙ same,
  )

  match_from-Outcome :
      (r : Request) (held : Option (RouteEntry H)) (entries : List (RouteEntry H))
      → Outcome r held entries
  unfolding match_from
  match_from-Outcome r none [] = inl (tt, refl)
  match_from-Outcome r (some held) [] = inl (tt, refl)
  match_from-Outcome r none (e ∷ entries) = elim (Bool-cases (accepts e r)) [
    | inl a ↦ Outcome-first r e entries a (match_from-Outcome r (some e) entries)
    | inr a ↦ Outcome-same r none e entries a (match_from-Outcome r none entries)
  ]
  match_from-Outcome r (some held) (e ∷ entries) = elim (Bool-cases (accepts e r)) [
    | inl a ↦ elim (dec_lt (score held) (score e)) [
      | yes l ↦ Outcome-higher r held e entries a l (match_from-Outcome r (some e) entries)
      | no l ↦
          Outcome-kept r held e entries (omega arith) (match_from-Outcome r (some held) entries)
    ]
    | inr a ↦ Outcome-same r (some held) e entries a (match_from-Outcome r (some held) entries)
  ]

  -- When `match` returns a route, it is one of the table's that accepts the request, no accepting
  -- route has a higher score, and none before it has the same; when it returns none, no route of
  -- the table accepts the request.
  pub match_route-IsBest :
      (entries : List (RouteEntry H)) (r : Request)
      → (All (Ignores r) entries × (match_route entries r ≡ none))
        ⊎ ((best : RouteEntry H) × IsBest r best entries × (match_route entries r ≡ some best))
  unfolding match_route
  match_route-IsBest entries r = match_from-Outcome r none entries
