-- ===== src/Linux/PolicyRoutes/Returns/Denial.antt =====
-- A lane without routes denies, among all commands of a node.
use network_renderer_contain.Prelude.{
  ◌≡◌, ap, sym, ◌∙◌, String, true, some, List, [], ◌++◌, map, string_eq, mem, lookup,
  mem-append_left, mem-append_right, some_inj,
}
use network_renderer_contain.Py.Value.{Fields, as_dict}
use network_renderer_contain.Py.Result.{ok, >>=-eq-ok, ok_inj}
use network_renderer_contain.Py.Sort.{mem-sorted}
use network_renderer_contain.Py.Ip.{v4}
use network_renderer_contain.Linux.Addressing.{interfaces_of}
use network_renderer_contain.Linux.Selection.Render.{render_relation_selection_rules}
use network_renderer_contain.Linux.UplinkRoutes.{EthMap, at_name}
use network_renderer_contain.Linux.PolicyRoutes.{is_policy_routing_surface}
use network_renderer_contain.Linux.PolicyRoutes.Surfaces.{Interfaces, names_of}
use network_renderer_contain.Linux.PolicyRoutes.Groups.{RouteGroups}
use network_renderer_contain.Linux.PolicyRoutes.Collect.{policy_groups_for_lane}
use network_renderer_contain.Linux.PolicyRoutes.Rules.{Allocation, policy_routing_allocation}
use network_renderer_contain.Linux.PolicyRoutes.Tables.{lane_tables, rule_add, iif_rule, blackhole}
use network_renderer_contain.Linux.PolicyRoutes.Lanes.{Lane, collect_lanes, lanes_in}
use network_renderer_contain.Linux.PolicyRoutes.Lanes.Laws.{lanes_in-Has}
use network_renderer_contain.Linux.PolicyRoutes.Tables.Deny.{
  IsInward, lane_table-denies, lane_tables-mem,
}
use network_renderer_contain.Linux.PolicyRoutes.Returns.{by_priority, collect_sides}
use network_renderer_contain.Linux.PolicyRoutes.Returns.Render.{
  ways_back, accesses_of, no_sides, render,
}
use network_renderer_contain.Linux.PolicyRoutes.Returns.Claims.{claim_all-IsLedger}

-- An interface with a device and a policy table that has no IPv4 routes, and that does not face the
-- upstream node.
pub record IsDenied (node : Fields) (eth_map : EthMap) (ifname eth : String) (iface : Fields)
    : Type 0 where
  pub interfaces : Interfaces
  pub is_interfaces : interfaces_of node ≡ ok interfaces
  pub named : mem ifname (map (λ e. e.0) interfaces) ≡ true
  pub is_iface : as_dict (at_name ifname interfaces) ≡ some iface
  pub device : lookup ifname eth_map ≡ some eth
  pub surface : is_policy_routing_surface iface ≡ ok true
  pub groups6 : RouteGroups
  pub empty : policy_groups_for_lane node eth_map ifname iface ≡ ok ([], groups6)
  pub inward : IsInward interfaces ifname

-- The tables of the lanes hold the commands that deny.
lane_tables-denies :
    (node : Fields) (eth_map : EthMap) (ifname eth : String) (iface : Fields)
    (d : IsDenied node eth_map ifname eth iface) (lanes : List Lane) (tables : List String)
    → collect_lanes node eth_map ≡ ok lanes
    → lane_tables lanes node eth_map d.interfaces ≡ ok tables
    → (a : Allocation) × (policy_routing_allocation iface ≡ ok a)
      × (mem (blackhole a.table_id) tables ≡ true)
      × (mem (rule_add v4 (iif_rule eth) a.priority a.table_id) tables ≡ true)
unfolding collect_lanes
lane_tables-denies node eth_map ifname eth iface d lanes tables made rendered =
    let (interfaces, found, h₁) = >>=-eq-ok (interfaces_of node) _ made in
    let same = ok_inj _ _ (sym found ∙ d.is_interfaces) in
    let made' = ap (λ is. lanes_in node eth_map is (names_of is)) (sym same) ∙ h₁ in
    let (lane, has, l) =
      lanes_in-Has node eth_map d.interfaces (names_of d.interfaces) ifname iface eth lanes
        (mem-sorted ifname (map (λ e. e.0) d.interfaces) ∙ d.named) d.device d.is_iface d.surface
        made' in
    let (here, is_here, within) =
      lane_tables-mem node eth_map d.interfaces lanes lane tables has rendered in
    let own = some_inj l.iface iface (sym l.is_iface ∙ d.is_iface) in
    let groups =
      ok_inj _ _ (sym l.groups ∙ ap (policy_groups_for_lane node eth_map ifname) own ∙ d.empty) in
    let (hole, rule) =
      lane_table-denies eth_map d.interfaces ifname eth d.device node lane here d.inward l.name
        (ap (λ g. g.0) groups) is_here in
    let a = l.allocation in
    (
      a,
      ap policy_routing_allocation (sym own) ∙ l.allocated,
      within (blackhole a.table_id) (ap (λ t. mem (blackhole t) here) (sym l.table) ∙ hole),
      within (rule_add v4 (iif_rule eth) a.priority a.table_id) (
          ap (λ p. mem (rule_add v4 (iif_rule eth) p a.table_id) here) (sym l.priority)
          ∙ ap (λ t. mem (rule_add v4 (iif_rule eth) lane.priority t) here) (sym l.table)
          ∙ rule),
    )

-- Where the policy routes of a node are rendered, an interface with a device and a policy table
-- that has no IPv4 routes, and that does not face the upstream node, is denied: its table has an
-- allocation, and among the commands are the black hole of this table and the rule that sends the
-- device's traffic to it.
pub render-denies :
    (node : Fields) (eth_map : EthMap) (ifname eth : String) (iface : Fields) (out : List String)
    → render node eth_map ≡ ok out
    → IsDenied node eth_map ifname eth iface
    → (a : Allocation) × (policy_routing_allocation iface ≡ ok a)
      × (mem (blackhole a.table_id) out ≡ true)
      × (mem (rule_add v4 (iif_rule eth) a.priority a.table_id) out ≡ true)
unfolding render
render-denies node eth_map ifname eth iface out h d =
    let (selection, _, h₁) = >>=-eq-ok (render_relation_selection_rules node eth_map) _ h in
    let (lanes, made, h₂) = >>=-eq-ok (collect_lanes node eth_map) _ h₁ in
    let (interfaces, found, h₃) = >>=-eq-ok (interfaces_of node) _ h₂ in
    let (tables, rendered, h₄) = >>=-eq-ok (lane_tables lanes node eth_map interfaces) _ h₃ in
    let (sides, _, h₅) =
      >>=-eq-ok (collect_sides eth_map interfaces (by_priority lanes) no_sides) _ h₄ in
    let (back, _, h₆) = >>=-eq-ok (ways_back node sides (accesses_of sides)) _ h₅ in
    let same = ok_inj _ _ (sym found ∙ d.is_interfaces) in
    let rendered' = ap (lane_tables lanes node eth_map) (sym same) ∙ rendered in
    let (a, allocated, hole, rule) =
      lane_tables-denies node eth_map ifname eth iface d lanes tables made rendered' in
    let ledger = claim_all-IsLedger eth_map lanes sides (selection ++ tables) in
    let through = λ (cmd : String) (m : mem cmd tables ≡ true).
      ap (mem cmd) (sym (ok_inj _ _ h₆))
      ∙ mem-append_left cmd _ back (ledger.kept cmd (mem-append_right cmd selection tables m)) in
    (a, allocated, through _ hole, through _ rule)
