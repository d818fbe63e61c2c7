-- ===== src/Tests/PolicyRoutes.antt =====
-- A node with a guest lane that has no routes, and a lane with one route of its own.
use network_renderer_contain.Prelude.{
  ℕ, ◌≤◌, String, true, ◌≡◌, refl, none, some, List, [], ◌∷◌, string_eq, pair_eq, mem, Has, inl,
}
use network_renderer_contain.Tests.{dict, object, array}
use network_renderer_contain.Py.Value.{Value, ℤ, pos, str, int, bool, Fields, end}
use network_renderer_contain.Py.Result.{ok}
use network_renderer_contain.Py.Ip.{v4}
use network_renderer_contain.Linux.Addressing.{interfaces_of}
use network_renderer_contain.Linux.UplinkRoutes.{EthMap}
use network_renderer_contain.Linux.PolicyRoutes.{lane_of, is_policy_routing_surface}
use network_renderer_contain.Linux.PolicyRoutes.Surfaces.{Interfaces}
use network_renderer_contain.Linux.PolicyRoutes.Groups.{RouteGroups}
use network_renderer_contain.Linux.PolicyRoutes.Collect.{policy_groups_for_lane}
use network_renderer_contain.Linux.PolicyRoutes.Groups.Hops.{IsGrouped}
use network_renderer_contain.Linux.PolicyRoutes.Collect.Laws.{policy_groups_for_lane-IsGrouped}
use network_renderer_contain.Linux.PolicyRoutes.Rules.{Allocation, policy_routing_allocation}
use network_renderer_contain.Linux.PolicyRoutes.Tables.{rule_add, iif_rule, blackhole}
use network_renderer_contain.Linux.PolicyRoutes.Lanes.{Lane}
use network_renderer_contain.Linux.PolicyRoutes.Returns.{by_priority, claim_lanes}
use network_renderer_contain.Linux.PolicyRoutes.Returns.Render.{
  render, claim_all, no_claims, no_sides,
}
use network_renderer_contain.Linux.PolicyRoutes.Returns.Claims.{IsLedger, claim_all-IsLedger}
use network_renderer_contain.Linux.PolicyRoutes.Returns.Winners.{
  lane_claims, lane_command, claim_lanes-winner,
}
use network_renderer_contain.Linux.PolicyRoutes.Returns.Denial.{IsDenied, render-denies}

abbrev allocation_of : ℕ → ℕ → Value
allocation_of table priority = object (
    ("source", str "control-plane-model")
    ∷ ("tableId", int (pos table))
    ∷ ("priority", int (pos priority))
    ∷ [])

abbrev guest : Fields
guest = dict (
    ("lane", object (("access", str "guest") ∷ ("kind", str "access") ∷ []))
    ∷ ("policyRoutingAllocation", allocation_of 100 1000)
    ∷ [])

abbrev trusted_route : Value
trusted_route = object (
    ("dst", str "10.9.0.0/24")
    ∷ ("via4", str "10.1.0.2")
    ∷ ("policyOnly", bool true)
    ∷ ("lane", object (("access", str "trusted") ∷ []))
    ∷ [])

abbrev trusted : Fields
trusted = dict (
    ("addr4", str "10.1.0.1/30")
    ∷ ("lane", object (("access", str "trusted") ∷ ("kind", str "access") ∷ []))
    ∷ ("policyRoutingAllocation", allocation_of 101 1001)
    ∷ ("routes", object (("ipv4", array (trusted_route ∷ trusted_route ∷ [])) ∷ []))
    ∷ [])

abbrev node : Fields
node =
    dict (
      ("interfaces", object (("guest", Value.obj guest) ∷ ("trusted", Value.obj trusted) ∷ []))
      ∷ [])

abbrev eth_map : EthMap
eth_map = ("guest", "eth1") ∷ ("trusted", "eth2") ∷ []

abbrev trusted_groups : RouteGroups
trusted_groups = ("10.9.0.0/24", (some "10.1.0.2", "eth2") ∷ []) ∷ []

groups_run : policy_groups_for_lane node eth_map "trusted" trusted ≡ ok (trusted_groups, [])
unfolding policy_groups_for_lane lane_of network_renderer_contain.Linux.PolicyRoutes.with_uplinks
    interfaces_of network_renderer_contain.Linux.PolicyRoutes.Collect.others_in
    network_renderer_contain.Linux.PolicyRoutes.Collect.groups_in
    network_renderer_contain.Py.Sort.sorted
    network_renderer_contain.Linux.PolicyRoutes.Collect.site_groups
    network_renderer_contain.Linux.RouteValues.route_lists
    network_renderer_contain.Linux.PolicyRoutes.Collect.add_routes
    network_renderer_contain.Linux.RouteValues.dicts
    network_renderer_contain.Linux.PolicyRoutes.Collect.add_route
    network_renderer_contain.Linux.PolicyRoutes.Collect.step
    network_renderer_contain.Linux.PolicyRoutes.route_matches_ingress
    network_renderer_contain.Linux.PolicyRoutes.Collect.surface_of
    network_renderer_contain.Linux.PolicyRoutes.Surfaces.route_surface_for_lane
    network_renderer_contain.Linux.PolicyRoutes.Surfaces.surface_by_via
    network_renderer_contain.Linux.RouteVia.same_subnet
    network_renderer_contain.Py.Ip.Coerce.interface_of
    network_renderer_contain.Py.Ip.Parse.ip_interface
    network_renderer_contain.Py.Ip.Coerce.address_of network_renderer_contain.Py.Ip.Parse.ip_address
    network_renderer_contain.Py.Ip.contains network_renderer_contain.Py.Ip.network_of
    network_renderer_contain.Linux.PolicyRoutes.Collect.add_surface
    network_renderer_contain.Linux.RouteVia.effective_via4
    network_renderer_contain.Linux.RouteState.local_ips
    network_renderer_contain.Linux.RouteState.local_in
    network_renderer_contain.Linux.RouteState.add_address
    network_renderer_contain.Linux.RouteState.add_text
    network_renderer_contain.Linux.Addressing.conflicts_with_wan_peer
    network_renderer_contain.Linux.Addressing.addr_ip
    network_renderer_contain.Linux.Addressing.conflicts_in
    network_renderer_contain.Linux.Addressing.is_wan_peer
    network_renderer_contain.Linux.Addressing.candidate
    network_renderer_contain.Linux.Addressing.canon_v6
    network_renderer_contain.Linux.Addressing.first_usable
    network_renderer_contain.Linux.Addressing.first_usable_host
    network_renderer_contain.Linux.Addressing.is_network_address
    network_renderer_contain.Linux.Addressing.normalize_l3_addr
    network_renderer_contain.Linux.Addressing.peer_address
    network_renderer_contain.Linux.Addressing.peer_in_subnet
    network_renderer_contain.Linux.PolicyRoutes.Groups.append_connected_policy_route
    network_renderer_contain.Linux.PolicyRoutes.Groups.append_policy_route
    network_renderer_contain.Linux.PolicyRoutes.Groups.prefer
    network_renderer_contain.Linux.PolicyRoutes.Surfaces.surface_by_lane
    network_renderer_contain.Linux.PolicyRoutes.dedupe_from
    network_renderer_contain.Linux.PolicyRoutes.dedupe_strings
    network_renderer_contain.Linux.PolicyRoutes.lane_uplinks
    network_renderer_contain.Linux.PolicyRoutes.same_uplink
    network_renderer_contain.Linux.RouteState.add_loopback
    network_renderer_contain.Linux.RouteState.ip_text
    network_renderer_contain.Linux.RouteState.with_loopback
    network_renderer_contain.Linux.RouteValues.normalize_text
    network_renderer_contain.Linux.RouteVia.accept network_renderer_contain.Linux.RouteVia.effective
    network_renderer_contain.Linux.RouteVia.effective_via6
    network_renderer_contain.Linux.RouteVia.first_choice
    network_renderer_contain.Linux.RouteVia.is_in
    network_renderer_contain.Linux.RouteVia.second_choice
    network_renderer_contain.Py.Ip.Parse.interface_v4
    network_renderer_contain.Py.Ip.Parse.interface_v6
    network_renderer_contain.Py.Ip.Parse.ip_network network_renderer_contain.Py.Ip.Parse.print
    network_renderer_contain.Py.Ip.Parse.print_prefix network_renderer_contain.Py.Ip.masked
    network_renderer_contain.Py.Sort.insert network_renderer_contain.Py.Text.concat
    network_renderer_contain.Py.Text.dec network_renderer_contain.Py.Text.digits
    network_renderer_contain.Py.Text.grouped network_renderer_contain.Py.Text.has_sub
    network_renderer_contain.Py.Text.hex network_renderer_contain.Py.Text.hex_value
    network_renderer_contain.Py.Text.int_of network_renderer_contain.Py.Text.join
    network_renderer_contain.Py.Text.lstrip network_renderer_contain.Py.Text.number
    network_renderer_contain.Py.Text.number_from network_renderer_contain.Py.Text.rstrip_space
    network_renderer_contain.Py.Text.split_on network_renderer_contain.Py.Text.split_once
    network_renderer_contain.Py.Text.strip network_renderer_contain.Py.Value.set_item
groups_run = refl

policy_groups_for_lane-IsGrouped_example : IsGrouped trusted_groups × IsGrouped []
policy_groups_for_lane-IsGrouped_example =
    policy_groups_for_lane-IsGrouped node eth_map "trusted" trusted trusted_groups [] groups_run

abbrev commands : List String
commands =
    "sh -c 'ip route replace table 100 blackhole 0.0.0.0/0 2>/dev/null || true'"
    ∷ "sh -c 'ip rule add iif eth1 priority 1000 table 100 2>/dev/null || true'"
    ∷ "sh -c 'ip -6 rule add iif eth1 priority 1000 table 100 2>/dev/null || true'"
    ∷ "ip route replace table 101 10.9.0.0/24 via 10.1.0.2 dev eth2 onlink"
    ∷ "sh -c 'ip rule add from 10.1.0.0/30 iif eth2 priority 1001 table 101 2>/dev/null || true'"
    ∷ "sh -c 'ip rule add to 10.1.0.0/30 iif eth2 priority 1001 table 101 2>/dev/null || true'" ∷ []

renders : render node eth_map ≡ ok commands
unfolding render network_renderer_contain.Linux.Selection.Render.render_relation_selection_rules
    network_renderer_contain.Linux.Selection.Render.selectors_of
    network_renderer_contain.Linux.Selection.Render.all_objects
    network_renderer_contain.Linux.Selection.Render.validate_all
    network_renderer_contain.Linux.Selection.Render.validate_direction_pairs
    network_renderer_contain.Linux.Selection.Render.check_groups
    network_renderer_contain.Linux.Selection.Render.group_all
    network_renderer_contain.Linux.PolicyRoutes.Lanes.collect_lanes interfaces_of
    network_renderer_contain.Linux.PolicyRoutes.Lanes.lanes_in
    network_renderer_contain.Py.Sort.sorted
    network_renderer_contain.Linux.PolicyRoutes.Lanes.interface_lane is_policy_routing_surface
    lane_of network_renderer_contain.Linux.PolicyRoutes.with_uplinks
    network_renderer_contain.Linux.PolicyRoutes.Lanes.make_lane
    network_renderer_contain.Linux.PolicyRoutes.Collect.policy_groups_for_lane
    network_renderer_contain.Linux.PolicyRoutes.Collect.others_in
    network_renderer_contain.Linux.PolicyRoutes.Collect.groups_in
    network_renderer_contain.Linux.PolicyRoutes.Collect.site_groups
    network_renderer_contain.Linux.RouteValues.route_lists
    network_renderer_contain.Linux.PolicyRoutes.Collect.add_routes
    network_renderer_contain.Linux.RouteValues.dicts
    network_renderer_contain.Linux.PolicyRoutes.Collect.add_route
    network_renderer_contain.Linux.PolicyRoutes.Collect.step
    network_renderer_contain.Linux.PolicyRoutes.route_matches_ingress
    network_renderer_contain.Linux.PolicyRoutes.Rules.table_slot
    network_renderer_contain.Linux.PolicyRoutes.Rules.index policy_routing_allocation
    network_renderer_contain.Linux.PolicyRoutes.Rules.int_field
    network_renderer_contain.Linux.PolicyRoutes.Surfaces.source_interfaces_for_lane
    network_renderer_contain.Linux.PolicyRoutes.Surfaces.uplink_sources
    network_renderer_contain.Linux.PolicyRoutes.Surfaces.forwarding_sources_for_target
    network_renderer_contain.Linux.PolicyRoutes.Surfaces.rule_sources
    network_renderer_contain.Linux.PolicyRoutes.Collect.surface_of
    network_renderer_contain.Linux.PolicyRoutes.Surfaces.route_surface_for_lane
    network_renderer_contain.Linux.PolicyRoutes.Surfaces.surface_by_via
    network_renderer_contain.Linux.RouteVia.same_subnet
    network_renderer_contain.Py.Ip.Coerce.interface_of
    network_renderer_contain.Py.Ip.Parse.ip_interface
    network_renderer_contain.Py.Ip.Coerce.address_of network_renderer_contain.Py.Ip.Parse.ip_address
    network_renderer_contain.Py.Ip.contains network_renderer_contain.Py.Ip.network_of
    network_renderer_contain.Linux.PolicyRoutes.Collect.add_surface
    network_renderer_contain.Linux.RouteVia.effective_via4
    network_renderer_contain.Linux.RouteState.local_ips
    network_renderer_contain.Linux.RouteState.local_in
    network_renderer_contain.Linux.RouteState.add_address
    network_renderer_contain.Linux.RouteState.add_text
    network_renderer_contain.Linux.Addressing.conflicts_with_wan_peer
    network_renderer_contain.Linux.Addressing.addr_ip
    network_renderer_contain.Linux.Addressing.conflicts_in
    network_renderer_contain.Linux.Addressing.is_wan_peer
    network_renderer_contain.Linux.Addressing.normalize_l3_addr
    network_renderer_contain.Linux.RouteState.ip_text
    network_renderer_contain.Linux.RouteState.with_loopback
    network_renderer_contain.Linux.RouteState.add_loopback
    network_renderer_contain.Linux.RouteVia.effective
    network_renderer_contain.Linux.RouteVia.first_choice
    network_renderer_contain.Linux.RouteVia.is_in network_renderer_contain.Py.Ip.Parse.print
    network_renderer_contain.Linux.RouteVia.second_choice
    network_renderer_contain.Linux.RouteVia.accept
    network_renderer_contain.Linux.PolicyRoutes.Tables.lane_tables
    network_renderer_contain.Linux.PolicyRoutes.Tables.lane_table
    network_renderer_contain.Linux.PolicyRoutes.Tables.is_uplink_in
    network_renderer_contain.Linux.PolicyRoutes.Groups.append_policy_route
    network_renderer_contain.Linux.PolicyRoutes.Groups.prefer
    network_renderer_contain.Linux.RouteValues.normalize_text
    network_renderer_contain.Py.Text.has_sub network_renderer_contain.Py.Text.int_of
    network_renderer_contain.Py.Ip.Parse.ip_network
    network_renderer_contain.Py.Ip.Parse.print_prefix
    network_renderer_contain.Linux.PolicyRoutes.Tables.family_table
    network_renderer_contain.Linux.PolicyRoutes.Tables.table_rules
    network_renderer_contain.Linux.PolicyRoutes.Tables.source_rules
    network_renderer_contain.Linux.PolicyRoutes.Tables.policy_rule_commands
    network_renderer_contain.Linux.PolicyRoutes.Sources.source_prefixes_for_interface
    network_renderer_contain.Linux.PolicyRoutes.dedupe_strings
    network_renderer_contain.Linux.PolicyRoutes.Tables.has_default
    network_renderer_contain.Linux.PolicyRoutes.Returns.collect_sides
    network_renderer_contain.Py.Sort.sort_by
    network_renderer_contain.Linux.PolicyRoutes.Returns.sides_of_names
    network_renderer_contain.Linux.PolicyRoutes.Returns.Render.ways_back
    network_renderer_contain.Linux.PolicyRoutes.Rules.render_policy_table
    network_renderer_contain.Linux.PolicyRoutes.Rules.render_group
    network_renderer_contain.Linux.PolicyRoutes.Sources.route_prefixes
    network_renderer_contain.Linux.PolicyRoutes.Tables.prefix_rules
    network_renderer_contain.Linux.PolicyRoutes.Returns.add_sides
    network_renderer_contain.Linux.PolicyRoutes.Returns.Render.ways_back_from
    network_renderer_contain.Linux.PolicyRoutes.Returns.Render.ways_back_of
    network_renderer_contain.Linux.PolicyRoutes.Returns.Render.way_back
    network_renderer_contain.Linux.PolicyRoutes.Returns.Render.cross_all
    network_renderer_contain.Linux.PolicyRoutes.Returns.Render.cross_ups
    network_renderer_contain.Linux.PolicyRoutes.Returns.Render.cross_downs
    network_renderer_contain.Linux.PolicyRoutes.Returns.Render.cross_rules claim_lanes
    network_renderer_contain.Linux.PolicyRoutes.Returns.claim_lane
    network_renderer_contain.Linux.PolicyRoutes.Returns.make_claims
    network_renderer_contain.Linux.PolicyRoutes.Tables.lane_rules
renders = refl

guest_surface : is_policy_routing_surface guest ≡ ok true
unfolding is_policy_routing_surface lane_of network_renderer_contain.Linux.PolicyRoutes.with_uplinks
guest_surface = refl

guest_groups : policy_groups_for_lane node eth_map "guest" guest ≡ ok ([], [])
unfolding policy_groups_for_lane lane_of network_renderer_contain.Linux.PolicyRoutes.with_uplinks
    interfaces_of network_renderer_contain.Linux.PolicyRoutes.Collect.others_in
    network_renderer_contain.Linux.PolicyRoutes.Collect.groups_in
    network_renderer_contain.Py.Sort.sorted
    network_renderer_contain.Linux.PolicyRoutes.Collect.site_groups
    network_renderer_contain.Linux.RouteValues.route_lists
    network_renderer_contain.Linux.PolicyRoutes.Collect.add_routes
    network_renderer_contain.Linux.RouteValues.dicts
    network_renderer_contain.Linux.PolicyRoutes.Collect.add_route
    network_renderer_contain.Linux.PolicyRoutes.Collect.step
    network_renderer_contain.Linux.PolicyRoutes.route_matches_ingress
guest_groups = refl

guest_lane : lane_of guest ≡ ok (dict (("access", str "guest") ∷ ("kind", str "access") ∷ []))
unfolding lane_of network_renderer_contain.Linux.PolicyRoutes.with_uplinks
guest_lane = refl

abbrev interfaces : Interfaces
interfaces = ("guest", Value.obj guest) ∷ ("trusted", Value.obj trusted) ∷ []

interfaces_run : interfaces_of node ≡ ok interfaces
unfolding interfaces_of
interfaces_run = refl

guest-IsDenied : IsDenied node eth_map "guest" "eth1" guest
guest-IsDenied = record {
  interfaces = interfaces;
  is_interfaces = interfaces_run;
  named = refl;
  is_iface = refl;
  device = refl;
  surface = guest_surface;
  groups6 = [];
  empty = guest_groups;
  inward = record {
    fields = guest;
    is_iface = refl;
    kinds = dict (("access", str "guest") ∷ ("kind", str "access") ∷ []);
    is_lane = guest_lane;
    inward = refl;
  };
}

render-denies_example :
    (a : Allocation) × (policy_routing_allocation guest ≡ ok a)
    × (mem (blackhole a.table_id) commands ≡ true)
    × (mem (rule_add v4 (iif_rule "eth1") a.priority a.table_id) commands ≡ true)
render-denies_example =
    render-denies node eth_map "guest" "eth1" guest commands renders guest-IsDenied

-- A lane with this table, whose routes a shared interface reaches.
abbrev sharing : ℕ → ℕ → Lane
sharing table priority = record {
  slot = 1;
  table_id = table;
  priority = priority;
  main_suppress_priority = none;
  lane_ifnames = "trusted" ∷ [];
  shared_ifnames = "guest" ∷ [];
  routes4 = trusted_groups;
  routes6 = [];
}

abbrev lanes : List Lane
lanes = sharing 100 1000 ∷ sharing 101 1001 ∷ []

claim_all-IsLedger_example : IsLedger [] (claim_all eth_map lanes no_sides [])
claim_all-IsLedger_example = claim_all-IsLedger eth_map lanes no_sides []

shared_claim : mem ("10.9.0.0/24", "eth1") (lane_claims eth_map v4 (sharing 100 1000)) ≡ true
unfolding network_renderer_contain.Py.Sort.sorted
shared_claim = refl

claim_lanes-winner_example :
    (w : Lane) × Has w lanes
    × (1000 ≤ w.priority)
    × (mem ("10.9.0.0/24", "eth1") (lane_claims eth_map v4 w) ≡ true)
    × (mem
          (lane_command v4 ("10.9.0.0/24", "eth1") w)
          (claim_lanes eth_map (by_priority lanes) (no_claims [])).cmds
        ≡ true)
claim_lanes-winner_example =
    claim_lanes-winner eth_map lanes [] (sharing 100 1000) v4 ("10.9.0.0/24", "eth1") (inl refl)
      shared_claim
