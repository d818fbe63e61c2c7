-- ===== src/Linux/PolicyRoutes/Returns/Render.antt =====
-- The rules between the sides of a way back, the routes for it, and the whole of `render` of
-- clabgen/s88/CM/linux_policy_routes.py. The fifth phase adds hops to lists that it shares with the
-- lanes, where they are added again or not read any more: here it copies them.
use network_renderer_contain.Prelude.{
  ℕ, String, Bool, true, false, ◌&&◌, not, Option, none, some, List, [], ◌∷◌, ◌++◌, map, ◌==◌,
  nat_eq, string_eq, if◌then◌else◌, mem, keep, lookup,
}
use network_renderer_contain.Py.Value.{Fields, get, is_true, text_of}
use network_renderer_contain.Py.Result.{Result, ok, ◌>>=◌}
use network_renderer_contain.Py.Sort.{sorted}
use network_renderer_contain.Py.Text.{dec}
use network_renderer_contain.Py.Ip.{Family, v4, v6}
use network_renderer_contain.Linux.Addressing.{interfaces_of, peer_in_subnet}
use network_renderer_contain.Linux.RouteValues.{route_lists, dst}
use network_renderer_contain.Linux.Selection.Render.{render_relation_selection_rules}
use network_renderer_contain.Linux.UplinkRoutes.{EthMap}
use network_renderer_contain.Linux.PolicyRoutes.{is_default}
use network_renderer_contain.Linux.PolicyRoutes.Surfaces.{addr_of}
use network_renderer_contain.Linux.PolicyRoutes.Groups.{
  Hop, RouteGroups, hops_of, add_hop, filled, text_or_absent, effective_of, append_policy_route,
}
use network_renderer_contain.Linux.PolicyRoutes.Rules.{ip_command, quietly, dsts_of}
use network_renderer_contain.Linux.PolicyRoutes.Sources.{of_family}
use network_renderer_contain.Linux.PolicyRoutes.Tables.{lane_tables, interface_text}
use network_renderer_contain.Linux.PolicyRoutes.Lanes.{Lane, collect_lanes}
use network_renderer_contain.Linux.PolicyRoutes.Returns.{
  Claimed, default_dst, claims_for, make_claims, claim_lanes, by_priority, Upstream, Downstream,
  Sides, list_at, collect_sides,
}

-- The rules from one upstream side to the table of one downstream side.
unfoldable pub cross_rules : Upstream → Downstream → Claimed → Claimed
cross_rules up down c =
    if up.table == down.table
    then c
    else make_claims v6 up.priority down.table (claims_for v6 down.routes6 up.eths)
        (make_claims v4 up.priority down.table (claims_for v4 down.routes4 up.eths) c)

unfoldable pub cross_downs : Upstream → List Downstream → Claimed → Claimed
cross_downs up [] c = c
cross_downs up (down ∷ downs) c = cross_downs up downs (cross_rules up down c)

unfoldable pub cross_ups : List Upstream → List Downstream → Claimed → Claimed
cross_ups [] downs c = c
cross_ups (up ∷ ups) downs c = cross_ups ups downs (cross_downs up downs c)

-- The accesses that have a side of each kind.
abbrev pub accesses_of : Sides → List String
accesses_of sides = sorted (
    keep (λ a. mem a (map (λ e. e.0) sides.downstream_by_access))
      (map (λ e. e.0) sides.upstream_by_access))

-- The fourth phase.
unfoldable pub cross_all : Sides → List String → Claimed → Claimed
cross_all sides [] c = c
cross_all sides (access ∷ accesses) c = cross_all sides accesses (
    cross_ups (list_at (lookup access sides.upstream_by_access))
      (list_at (lookup access sides.downstream_by_access)) c)

abbrev pub is_explicit : Fields → Option String → Bool
is_explicit route none = false
is_explicit route (some dst) = not (is_true (get "policyOnly" route)) && not (is_default dst)

-- The loop of `_explicit_downstream_route_groups`.
unfoldable pub explicit_in :
    Fields → Fields → String → Family → List Fields → RouteGroups → Result RouteGroups
explicit_in node iface eth family [] groups = ok groups
explicit_in node iface eth family (route ∷ routes) groups =
    let go = explicit_in node iface eth family routes in
    do
      destination ← text_or_absent (dst route)
      elim (is_explicit route (filled destination)) [
        | false ↦ go groups
        | true ↦ do
          value ← effective_of family node iface route
          via ← text_or_absent value
          go (append_policy_route groups destination via eth)
      ]

-- `_explicit_downstream_route_groups`
unfoldable pub explicit_downstream_route_groups :
    Fields → Fields → String → Family → Result RouteGroups
explicit_downstream_route_groups node iface eth family = do
  routes ← route_lists iface
  explicit_in node iface eth family (of_family family routes) []

abbrev pub add_hops : RouteGroups → String → List Hop → RouteGroups
add_hops groups dst [] = groups
add_hops groups dst (hop ∷ hops) = add_hops (add_hop groups dst hop) dst hops

abbrev pub merge : RouteGroups → RouteGroups → RouteGroups
merge groups [] = groups
merge groups ((dst, hops) ∷ rest) = merge (add_hops groups dst hops) rest

-- `f"{via}"`
abbrev pub formatted : Option String → String
formatted none = "None"
formatted (some via) = via

abbrev pub return_route : Family → ℕ → String → Hop → String
return_route family table dst hop = quietly (
    ip_command family
    ∷ " route replace table "
    ∷ dec table
    ∷ " "
    ∷ dst
    ∷ " via "
    ∷ formatted hop.0
    ∷ " dev "
    ∷ hop.1
    ∷ " onlink"
    ∷ [])

unfoldable pub return_routes : Family → ℕ → RouteGroups → List String → List String
return_routes family table groups [] = []
return_routes family table groups (dst ∷ dsts) =
    map (return_route family table dst) (hops_of (lookup dst groups))
    ++ return_routes family table groups dsts

abbrev pub group_routes : Family → ℕ → RouteGroups → List String
group_routes family table groups =
    return_routes family table groups
      (keep (λ dst. not (dst == default_dst family)) (dsts_of groups))

abbrev pub subnet_route : Family → ℕ → String → String → Option String → List String
subnet_route family table subnet eth none = []
subnet_route family table subnet eth (some peer) =
    quietly (
      ip_command family
      ∷ " route replace table "
      ∷ dec table
      ∷ " "
      ∷ subnet
      ∷ " via "
      ∷ peer
      ∷ " dev "
      ∷ eth
      ∷ " onlink"
      ∷ [])
    ∷ []

-- `_add_connected_subnet_route`
unfoldable pub connected_subnet_route : Family → ℕ → Fields → String → Result (List String)
connected_subnet_route family table iface eth =
    elim (interface_text (text_of (addr_of family iface))) [
      | none ↦ ok []
      | some subnet ↦ if is_default subnet then ok [] else (do
        peer ← peer_in_subnet (addr_of family iface)
        ok (subnet_route family table subnet eth (filled peer)))
    ]

-- The routes of an upstream side's table to what is behind one downstream side.
unfoldable pub way_back : Fields → Upstream → Downstream → Result (List String)
way_back node up down = if up.table == down.table then ok [] else (do
  explicit4 ← explicit_downstream_route_groups node down.iface down.eth v4
  explicit6 ← explicit_downstream_route_groups node down.iface down.eth v6
  subnet4 ← connected_subnet_route v4 up.table down.iface down.eth
  subnet6 ← connected_subnet_route v6 up.table down.iface down.eth
  ok (
      group_routes v4 up.table (merge down.routes4 explicit4)
      ++ (group_routes v6 up.table (merge down.routes6 explicit6) ++ (subnet4 ++ subnet6))))

unfoldable pub ways_back_of : Fields → Upstream → List Downstream → Result (List String)
ways_back_of node up [] = ok []
ways_back_of node up (down ∷ downs) = do
  here ← way_back node up down
  later ← ways_back_of node up downs
  ok (here ++ later)

unfoldable pub ways_back_from : Fields → List Upstream → List Downstream → Result (List String)
ways_back_from node [] downs = ok []
ways_back_from node (up ∷ ups) downs = do
  here ← ways_back_of node up downs
  later ← ways_back_from node ups downs
  ok (here ++ later)

-- The fifth phase.
unfoldable pub ways_back : Fields → Sides → List String → Result (List String)
ways_back node sides [] = ok []
ways_back node sides (access ∷ accesses) = do
  here ←
      ways_back_from node (list_at (lookup access sides.upstream_by_access))
        (list_at (lookup access sides.downstream_by_access))
  later ← ways_back node sides accesses
  ok (here ++ later)

abbrev pub no_sides : Sides
no_sides = record { upstream_by_access = []; downstream_by_access = [] }

abbrev pub no_claims : List String → Claimed
no_claims cmds = record { cmds = cmds; claimed4 = []; claimed6 = [] }

-- The third and the fourth phase, behind the commands of the first two.
abbrev pub claim_all : EthMap → List Lane → Sides → List String → Claimed
claim_all eth_map lanes sides cmds =
    cross_all sides (accesses_of sides) (claim_lanes eth_map (by_priority lanes) (no_claims cmds))

unfoldable pub render : Fields → EthMap → Result (List String)
render node eth_map = do
  selection ← render_relation_selection_rules node eth_map
  lanes ← collect_lanes node eth_map
  interfaces ← interfaces_of node
  tables ← lane_tables lanes node eth_map interfaces
  sides ← collect_sides eth_map interfaces (by_priority lanes) no_sides
  back ← ways_back node sides (accesses_of sides)
  ok ((claim_all eth_map lanes sides (selection ++ tables)).cmds ++ back)
