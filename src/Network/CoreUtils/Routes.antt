-- ===== src/Network/CoreUtils/Routes.antt =====
-- About `add_default_routes`: one route for each family, through its first gateway.
use netavark.Prelude.{
  ◌<>◌, ◌≡◌, refl, Bool, true, false, not, Option, List, [], ◌∷◌, ok, inl, inr, arith, take,
  if◌then◌else◌, Bool-cases, ℕ,
}
use netavark.Action.{Action, for_each}
use netavark.Network.Types.{IpNet, is_ipv6}
use netavark.Network.Kernel.{Kernel, Side, TextLib}
use netavark.Network.CoreUtils.{wrapped, default_route, add_routes, add_default_routes}

-- The networks of one family.
abbrev pub of_family : Bool → List IpNet → List IpNet
of_family is_v6 [] = []
of_family true (gw ∷ gws) =
    let rest = of_family true gws in if is_ipv6 gw.addr then gw ∷ rest else rest
of_family false (gw ∷ gws) =
    let rest = of_family false gws in if is_ipv6 gw.addr then rest else gw ∷ rest

-- The first network, and the first of the other family.
abbrev pub firsts : List IpNet → List IpNet
firsts [] = []
firsts (gw ∷ gws) = gw ∷ take 1 (of_family (not (is_ipv6 gw.addr)) gws)

module _ (K : Kernel) (text : TextLib) (side : Side) (metric : Option ℕ) where
  abbrev pub add_one : IpNet → Action K.State Unit
  add_one gw =
      let route = default_route K gw metric in
      wrapped ("add default route " <> text.show_route route) (K.add_route side route)

  -- Both families have a route.
  add_routes_none :
      (gws : List IpNet) (s : K.State) → add_routes K text side true true gws metric s ≡ (ok tt, s)
  unfolding add_routes
  add_routes_none [] s = refl
  add_routes_none (gw ∷ gws) s = elim (Bool-cases (is_ipv6 gw.addr)) [
    | inl e ↦ rw (e, add_routes) (add_routes_none gws s)
    | inr e ↦ rw (e, add_routes) (add_routes_none gws s)
  ]

  -- IPv6 has a route, or IPv4.
  add_routes_v4 :
      (gws : List IpNet) (s : K.State)
      → add_routes K text side false true gws metric s
        ≡ for_each add_one (take 1 (of_family false gws)) s
  unfolding add_routes for_each
  add_routes_v4 [] s = refl
  add_routes_v4 (gw ∷ gws) s = elim (Bool-cases (is_ipv6 gw.addr)) [
    | inl e ↦ rw (e, add_routes) (add_routes_v4 gws s)
    | inr e ↦ ground (arith, e, add_routes_none gws (add_one gw s).1)
  ]

  add_routes_v6 :
      (gws : List IpNet) (s : K.State)
      → add_routes K text side true false gws metric s
        ≡ for_each add_one (take 1 (of_family true gws)) s
  unfolding add_routes for_each
  add_routes_v6 [] s = refl
  add_routes_v6 (gw ∷ gws) s = elim (Bool-cases (is_ipv6 gw.addr)) [
    | inl e ↦ ground (arith, e, add_routes_none gws (add_one gw s).1)
    | inr e ↦ rw (e, add_routes) (add_routes_v6 gws s)
  ]

  -- The default routes are added through the first gateway and the first gateway of the other
  -- family, in this order, up to the first failure; no other route is added.
  pub add_default_routes_lem :
      (gws : List IpNet) (s : K.State)
      → add_default_routes K text side gws metric s ≡ for_each add_one (firsts gws) s
  unfolding add_default_routes add_routes for_each
  add_default_routes_lem [] s = refl
  add_default_routes_lem (gw ∷ gws) s = elim (Bool-cases (is_ipv6 gw.addr)) [
    | inl e ↦ ground (arith, e, add_routes_v4 gws (add_one gw s).1)
    | inr e ↦ ground (arith, e, add_routes_v6 gws (add_one gw s).1)
  ]
