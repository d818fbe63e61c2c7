-- ===== src/Linux/PolicyRoutes/Lanes.antt =====
-- The lanes of a node: the first phase of `render` of clabgen/s88/CM/linux_policy_routes.py.
pub mod Laws
use network_renderer_contain.Prelude.{
  ℕ, String, Bool, true, false, not, Option, none, some, List, [], ◌∷◌, ◌++◌, ◌==◌, string_eq,
  if◌then◌else◌, keep, lookup,
}
use network_renderer_contain.Py.Value.{Fields}
use network_renderer_contain.Py.Result.{Result, ok, ◌>>=◌}
use network_renderer_contain.Py.Ip.{Family, v4, v6}
use network_renderer_contain.Linux.Addressing.{interfaces_of}
use network_renderer_contain.Linux.RouteState.{as_iface}
use network_renderer_contain.Linux.UplinkRoutes.{EthMap, at_name}
use network_renderer_contain.Linux.PolicyRoutes.{is_policy_routing_surface}
use network_renderer_contain.Linux.PolicyRoutes.Surfaces.{
  Interfaces, names_of, source_interfaces_for_lane,
}
use network_renderer_contain.Linux.PolicyRoutes.Groups.{RouteGroups}
use network_renderer_contain.Linux.PolicyRoutes.Collect.{policy_groups_for_lane}
use network_renderer_contain.Linux.PolicyRoutes.Rules.{table_slot, policy_routing_allocation}

-- A lane: its table and the two families of its routes. `lane_ifnames` is one name.
pub record Lane : Type 0 where
  pub slot : ℕ
  pub table_id : ℕ
  pub priority : ℕ
  pub main_suppress_priority : Option ℕ
  pub lane_ifnames : List String
  pub shared_ifnames : List String
  pub routes4 : RouteGroups
  pub routes6 : RouteGroups

abbrev pub routes_of : Family → Lane → RouteGroups
routes_of v4 lane = lane.routes4
routes_of v6 lane = lane.routes6

abbrev pub has_device : EthMap → String → Bool
has_device eth_map name = elim (lookup name eth_map) [ none ↦ false | some eth ↦ true ]

-- The lane of one interface that has a policy table.
unfoldable pub make_lane : Fields → EthMap → String → Fields → String → Result Lane
make_lane node eth_map ifname iface eth = do
  groups ← policy_groups_for_lane node eth_map ifname iface
  slot ← table_slot eth_map eth
  allocation ← policy_routing_allocation iface
  sources ← source_interfaces_for_lane node eth_map ifname iface
  ok (record {
    slot = slot;
    table_id = allocation.table_id;
    priority = allocation.priority;
    main_suppress_priority = allocation.main_suppress_priority;
    lane_ifnames = ifname ∷ [];
    shared_ifnames = keep (λ s. not (s == ifname)) (keep (has_device eth_map) sources);
    routes4 = groups.0;
    routes6 = groups.1;
  })

unfoldable pub interface_lane :
    Fields → EthMap → Interfaces → String → Option String → Result (List Lane)
interface_lane node eth_map interfaces ifname none = ok []
interface_lane node eth_map interfaces ifname (some eth) = do
  iface ← as_iface (at_name ifname interfaces)
  surface ← is_policy_routing_surface iface
  if surface then (do lane ← make_lane node eth_map ifname iface eth; ok (lane ∷ [])) else ok []

unfoldable pub lanes_in : Fields → EthMap → Interfaces → List String → Result (List Lane)
lanes_in node eth_map interfaces [] = ok []
lanes_in node eth_map interfaces (ifname ∷ names) = do
  here ← interface_lane node eth_map interfaces ifname (lookup ifname eth_map)
  later ← lanes_in node eth_map interfaces names
  ok (here ++ later)

-- The first phase.
unfoldable pub collect_lanes : Fields → EthMap → Result (List Lane)
collect_lanes node eth_map = do
  interfaces ← interfaces_of node
  lanes_in node eth_map interfaces (names_of interfaces)
