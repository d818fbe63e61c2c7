-- ===== src/Linux/PolicyRoutes/Collect/Laws.antt =====
-- The loops over the routes keep the groups in order.
use network_renderer_contain.Prelude.{
  String, ◌&&◌, not, ◌≡◌, refl, ap, sym, Option, none, some, List, [], ◌∷◌, ◌==◌, string_eq,
  option_eq, pair_eq, mem, lookup, Bool-cases, inl, inr,
}
use network_renderer_contain.Py.Value.{Value, Fields, get, is_true}
use network_renderer_contain.Py.Result.{ok, >>=-eq-ok, ok_inj}
use network_renderer_contain.Py.Ip.{Family, v4, v6}
use network_renderer_contain.Linux.Addressing.{interfaces_of}
use network_renderer_contain.Linux.RouteValues.{route_lists, dst}
use network_renderer_contain.Linux.RouteState.{as_iface}
use network_renderer_contain.Linux.UplinkRoutes.{EthMap, at_name}
use network_renderer_contain.Linux.PolicyRoutes.{lane_of, lane_access}
use network_renderer_contain.Linux.PolicyRoutes.Surfaces.{Interfaces, names_of, Surface}
use network_renderer_contain.Linux.PolicyRoutes.Groups.{
  RouteGroups, filled, append_connected_policy_route, text_or_absent, Found, found_nothing, prefer,
  effective_of,
}
use network_renderer_contain.Linux.PolicyRoutes.Collect.{
  Site, lane_or, surface_of, add_surface, is_passed_over, is_connected, step, add_route, add_routes,
  others_in, site_at, site_groups, groups_in, policy_groups_for_lane,
}
use network_renderer_contain.Linux.PolicyRoutes.Groups.Hops.{
  IsGrouped, append_policy_route-IsGrouped, prefer-IsGrouped, add_filled-IsGrouped,
}

module _ (site : Site) (family : Family) where
  add_surface-IsGrouped :
      (route : Fields) (k : Option String) (surface : Option Surface) (found out : Found)
      → IsGrouped found.groups
      → add_surface site family route k surface found ≡ ok out
      → IsGrouped out.groups
  unfolding add_surface
  add_surface-IsGrouped route k none found out w h = rw (sym (ok_inj _ _ h)) w
  add_surface-IsGrouped route k (some (iface, eth)) found out w h =
      elim (Bool-cases (not site.here && mem k found.preferred)) [
        | inl passed ↦ rw (sym (ok_inj _ _ (rw passed at h))) w
        | inr taken ↦
            let (value, _, h₁) =
              >>=-eq-ok (effective_of family site.node iface route) _ (rw taken at h) in
            let (via, _, h₂) = >>=-eq-ok (text_or_absent value) _ h₁ in
            rw (sym (ok_inj _ _ h₂)) (
              append_policy_route-IsGrouped (prefer site.here k found).groups k via eth
                (prefer-IsGrouped site.here k found w))
      ]

  step-IsGrouped :
      (route route_lane : Fields) (k : Option String) (found out : Found)
      → IsGrouped found.groups
      → step site family route route_lane k found ≡ ok out
      → IsGrouped out.groups
  unfolding step append_connected_policy_route
  step-IsGrouped route route_lane k found out w h =
      elim (Bool-cases (is_passed_over site route route_lane k)) [
        | inl passed ↦ rw (sym (ok_inj _ _ (rw passed at h))) w
        | inr taken ↦ elim (Bool-cases (is_connected route)) [
          | inl connected ↦
              rw (sym (ok_inj _ _ (rw connected at (rw taken at h))))
                (add_filled-IsGrouped found.groups (filled k) (none, site.eth) w)
          | inr remote ↦
              let h' = rw remote at (rw taken at h) in
              elim (Bool-cases (not (is_true (get "policyOnly" route)) && (filled k == none))) [
                | inl bare ↦ rw (sym (ok_inj _ _ (rw bare at h'))) w
                | inr named ↦
                    let (surface, _, h₁) =
                      >>=-eq-ok (surface_of site family route_lane route k) _ (rw named at h') in
                    add_surface-IsGrouped route k surface found out w h₁
              ]
        ]
      ]

  add_route-IsGrouped :
      (route : Fields) (found out : Found)
      → IsGrouped found.groups
      → add_route site family route found ≡ ok out
      → IsGrouped out.groups
  unfolding add_route
  add_route-IsGrouped route found out w h =
      let (own, _, h₁) = >>=-eq-ok (lane_of route) _ h in
      let (route_lane, _, h₂) = >>=-eq-ok (lane_or own site.iface) _ h₁ in
      let (k, _, h₃) = >>=-eq-ok (text_or_absent (dst route)) _ h₂ in
      step-IsGrouped route route_lane k found out w h₃

  add_routes-IsGrouped :
      (routes : List Fields) (found out : Found)
      → IsGrouped found.groups
      → add_routes site family routes found ≡ ok out
      → IsGrouped out.groups
  unfolding add_routes
  add_routes-IsGrouped [] found out w h = rw (sym (ok_inj _ _ h)) w
  add_routes-IsGrouped (route ∷ routes) found out w h =
      let (next, one, later) = >>=-eq-ok (add_route site family route found) _ h in
      add_routes-IsGrouped routes next out (add_route-IsGrouped route found next w one) later

module _ (site : String → Fields → String → Site) (eth_map : EthMap) (interfaces : Interfaces) where
  site_groups-IsGrouped :
      (ifname : String) (value : Value) (device : Option String) (found out : Found × Found)
      → IsGrouped (found.0).groups
      → IsGrouped (found.1).groups
      → site_groups site ifname value device found ≡ ok out
      → IsGrouped (out.0).groups × IsGrouped (out.1).groups
  unfolding site_groups
  site_groups-IsGrouped ifname value none found out w4 w6 h = rw (sym (ok_inj _ _ h)) (w4, w6)
  site_groups-IsGrouped ifname value (some eth) found out w4 w6 h =
      let (iface, _, h₁) = >>=-eq-ok (as_iface value) _ h in
      let (routes, _, h₂) = >>=-eq-ok (route_lists iface) _ h₁ in
      let here = site ifname iface eth in
      let (found4, is4, h₃) = >>=-eq-ok (add_routes here v4 routes.0 found.0) _ h₂ in
      let (found6, is6, h₄) = >>=-eq-ok (add_routes here v6 routes.1 found.1) _ h₃ in
      rw (sym (ok_inj _ _ h₄)) (
        add_routes-IsGrouped here v4 routes.0 found.0 found4 w4 is4,
        add_routes-IsGrouped here v6 routes.1 found.1 found6 w6 is6,
      )

  groups_in-IsGrouped :
      (names : List String) (found out : Found × Found)
      → IsGrouped (found.0).groups
      → IsGrouped (found.1).groups
      → groups_in site eth_map interfaces names found ≡ ok out
      → IsGrouped (out.0).groups × IsGrouped (out.1).groups
  unfolding groups_in
  groups_in-IsGrouped [] found out w4 w6 h = rw (sym (ok_inj _ _ h)) (w4, w6)
  groups_in-IsGrouped (ifname ∷ names) found out w4 w6 h =
      let value = at_name ifname interfaces in
      let (next, one, later) =
        >>=-eq-ok (site_groups site ifname value (lookup ifname eth_map) found) _ h in
      let (n4, n6) =
        site_groups-IsGrouped ifname value (lookup ifname eth_map) found next w4 w6 one in
      groups_in-IsGrouped names next out n4 n6 later

nothing-IsGrouped : IsGrouped []
nothing-IsGrouped = record { keys = refl; hops = tt }

-- Where the routes of a policy table are given, each family has every destination once, and a
-- destination has at least one hop and no hop twice.
pub policy_groups_for_lane-IsGrouped :
    (node : Fields) (eth_map : EthMap) (target : String) (iface : Fields)
    (groups4 groups6 : RouteGroups)
    → policy_groups_for_lane node eth_map target iface ≡ ok (groups4, groups6)
    → IsGrouped groups4 × IsGrouped groups6
unfolding policy_groups_for_lane
policy_groups_for_lane-IsGrouped node eth_map target iface groups4 groups6 h =
    let (target_lane, _, h₁) = >>=-eq-ok (lane_of iface) _ h in
    let (interfaces, _, h₂) = >>=-eq-ok (interfaces_of node) _ h₁ in
    let (others, _, h₃) = >>=-eq-ok (others_in (lane_access target_lane) target interfaces) _ h₂ in
    let (found, is_found, h₄) =
      >>=-eq-ok
        (groups_in (site_at node eth_map target_lane others target) eth_map interfaces
          (names_of interfaces) (found_nothing, found_nothing))
        _ h₃ in
    let (w4, w6) =
      groups_in-IsGrouped (site_at node eth_map target_lane others target) eth_map interfaces
        (names_of interfaces) (found_nothing, found_nothing) found nothing-IsGrouped
        nothing-IsGrouped is_found in
    let same = ok_inj _ _ h₄ in (rw (ap (λ p. p.0) same) at w4, rw (ap (λ p. p.1) same) at w6)
