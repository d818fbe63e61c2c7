-- ===== src/Linux/PolicyRoutes/Collect.antt =====
-- The loops that collect the routes of a lane, of clabgen/s88/CM/linux_policy_routes.py.
pub mod Laws
use network_renderer_contain.Prelude.{
  String, Bool, false, ◌&&◌, ◌||◌, not, Option, none, some, List, [], ◌∷◌, ◌==◌, string_eq,
  option_eq, pair_eq, if◌then◌else◌, mem, lookup,
}
use network_renderer_contain.Py.Value.{Value, Fields, field, end, get, is_str, is_true, as_str}
use network_renderer_contain.Py.Result.{Result, ok, ◌>>=◌}
use network_renderer_contain.Py.Ip.{Family, v4, v6}
use network_renderer_contain.Linux.Addressing.{interfaces_of}
use network_renderer_contain.Linux.RouteValues.{route_lists, dst}
use network_renderer_contain.Linux.RouteState.{as_iface}
use network_renderer_contain.Linux.UplinkRoutes.{EthMap, at_name}
use network_renderer_contain.Linux.PolicyRoutes.{
  lane_of, lane_access, is_default_dst, route_matches_ingress,
}
use network_renderer_contain.Linux.PolicyRoutes.Surfaces.{
  Interfaces, names_of, Surface, route_surface_for_lane,
}
use network_renderer_contain.Linux.PolicyRoutes.Groups.{
  RouteGroups, filled, append_policy_route, append_connected_policy_route, text_or_absent, Found,
  found_nothing, prefer, effective_of,
}

-- The addresses of the interfaces of other accesses.
abbrev pub Others : Type 0
Others = List String × List String

abbrev pub is_others : Others → Option String → Bool
is_others others none = false
is_others others (some s) = not (s == "") && (mem s others.0 || mem s others.1)

-- What the loops over the routes of an interface know: the interface and its place.
pub record Site : Type 0 where
  pub node : Fields
  pub eth_map : EthMap
  pub target_lane : Fields
  pub others : Others
  pub ifname : String
  pub iface : Fields
  pub eth : String
  pub here : Bool

-- The route's own lane, or its interface's where it has none.
abbrev pub lane_or : Fields → Fields → Result Fields
lane_or (field k v fs) iface = ok (field k v fs)
lane_or end iface = lane_of iface

-- Where a route leaves; `none` is a route that is passed over.
unfoldable pub surface_of :
    Site → Family → Fields → Fields → Option String → Result (Option Surface)
surface_of site family route_lane route dst =
    if not (is_true (get "policyOnly" route)) && is_default_dst dst
    then ok (some (site.iface, site.eth))
    else if is_others site.others dst
    then ok none
    else route_surface_for_lane site.node site.eth_map site.ifname route_lane route family

unfoldable pub add_surface :
    Site → Family → Fields → Option String → Option Surface → Found → Result Found
add_surface site family route dst none found = ok found
add_surface site family route dst (some (iface, eth)) found =
    if not site.here && mem dst found.preferred then ok found else (do
      value ← effective_of family site.node iface route
      via ← text_or_absent value
      let next = prefer site.here dst found
      ok (record next { groups = append_policy_route next.groups dst via eth }))

-- A route that is not for policy tables alone counts on the lane's own interface only.
abbrev pub is_passed_over : Site → Fields → Fields → Option String → Bool
is_passed_over site route route_lane dst =
    if is_true (get "policyOnly" route)
    then not (route_matches_ingress site.target_lane route_lane dst)
    else not site.here

abbrev pub is_connected : Fields → Bool
is_connected route =
    not (is_true (get "policyOnly" route)) && is_str "connected" (get "proto" route)

unfoldable pub step : Site → Family → Fields → Fields → Option String → Found → Result Found
step site family route route_lane dst found =
    if is_passed_over site route route_lane dst
    then ok found
    else if is_connected route
    then ok (record found { groups = append_connected_policy_route found.groups dst site.eth })
    else if not (is_true (get "policyOnly" route)) && (filled dst == none)
    then ok found
    else (do
      surface ← surface_of site family route_lane route dst
      add_surface site family route dst surface found)

-- The body of the loop over the routes.
unfoldable pub add_route : Site → Family → Fields → Found → Result Found
add_route site family route found = do
  own ← lane_of route
  route_lane ← lane_or own site.iface
  destination ← text_or_absent (dst route)
  step site family route route_lane destination found

unfoldable pub add_routes : Site → Family → List Fields → Found → Result Found
add_routes site family [] found = ok found
add_routes site family (route ∷ routes) found = do
  next ← add_route site family route found
  add_routes site family routes next

abbrev pub add_addr : Value → List String → List String
add_addr v texts = elim (as_str v) [ none ↦ texts | some s ↦ s ∷ texts ]

abbrev pub are_apart : Option String → Option String → Bool
are_apart (some a) (some b) = not (a == b)
are_apart _ _ = false

-- The loop that collects the addresses of the other accesses.
unfoldable pub others_in : Option String → String → Interfaces → Result Others
others_in access target [] = ok ([], [])
others_in access target ((name, v) ∷ rest) =
    let later = others_in access target rest in
    if name == target then later else (do
      iface ← as_iface v
      lane ← lane_of iface
      found ← later
      ok (
          if are_apart access (lane_access lane)
          then (add_addr (get "addr4" iface) found.0, add_addr (get "addr6" iface) found.1)
          else found))

-- What the loop over the interfaces knows at each of them.
abbrev pub site_at : Fields → EthMap → Fields → Others → String → String → Fields → String → Site
site_at node eth_map target_lane others target ifname iface eth = record {
  node = node;
  eth_map = eth_map;
  target_lane = target_lane;
  others = others;
  ifname = ifname;
  iface = iface;
  eth = eth;
  here = ifname == target;
}

-- The body of the loop, on an interface with a device.
unfoldable pub site_groups :
    (String → Fields → String → Site)
    → String
    → Value
    → Option String
    → Found × Found
    → Result (Found × Found)
site_groups site ifname value none found = ok found
site_groups site ifname value (some eth) found = do
  iface ← as_iface value
  routes ← route_lists iface
  found4 ← add_routes (site ifname iface eth) v4 routes.0 found.0
  found6 ← add_routes (site ifname iface eth) v6 routes.1 found.1
  ok (found4, found6)

-- The loop over the interfaces.
unfoldable pub groups_in :
    (String → Fields → String → Site)
    → EthMap
    → Interfaces
    → List String
    → Found × Found
    → Result (Found × Found)
groups_in site eth_map interfaces [] found = ok found
groups_in site eth_map interfaces (ifname ∷ names) found = do
  next ← site_groups site ifname (at_name ifname interfaces) (lookup ifname eth_map) found
  groups_in site eth_map interfaces names next

-- `_policy_groups_for_lane`
unfoldable pub policy_groups_for_lane :
    Fields → EthMap → String → Fields → Result (RouteGroups × RouteGroups)
policy_groups_for_lane node eth_map target target_iface = do
  target_lane ← lane_of target_iface
  interfaces ← interfaces_of node
  others ← others_in (lane_access target_lane) target interfaces
  found ←
      groups_in (site_at node eth_map target_lane others target) eth_map interfaces
        (names_of interfaces) (found_nothing, found_nothing)
  ok ((found.0).groups, (found.1).groups)
