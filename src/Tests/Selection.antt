-- ===== src/Tests/Selection.antt =====
-- The selectors of one relation, there and back.
use network_renderer_contain.Prelude.{
  String, ◌≡◌, refl, true, List, [], ◌∷◌, Has, keep, length, inl, string_eq,
}
use network_renderer_contain.Py.Value.{ℤ, pos, Value, bool, int, str, obj, Fields}
use network_renderer_contain.Py.Result.{ok}
use network_renderer_contain.Py.Ip.{v4}
use network_renderer_contain.Linux.UplinkRoutes.{EthMap}
use network_renderer_contain.Linux.Selection.{Selector, forward, returned, validate_selector}
use network_renderer_contain.Linux.Selection.Render.{
  validate_direction_pairs, render_relation_selection_rules,
}
use network_renderer_contain.Linux.Selection.Groups.{of_key}
use network_renderer_contain.Linux.Selection.Pairs.{IsMate, validate_direction_pairs-mates}
use network_renderer_contain.Linux.Selection.Bounds.{IsBound, validate_selector-IsBound}
use network_renderer_contain.Linux.Selection.Laws.{IsPaired, render-IsPaired}
use network_renderer_contain.Tests.{dict, object, array}

abbrev policy_route : String → String → Value
policy_route direction dst = object (
    ("policyOnly", bool true)
    ∷ (("dst", str dst)
        ∷ (("relationId", str "web")
            ∷ (("returnBehavior", str "symmetric")
                ∷ (("trafficType", str "http")
                    ∷ ((
                      "intent",
                      object (
                          ("kind", str "relation-policy-reachability")
                          ∷ (("direction", str direction)
                              ∷ (("relationId", str "web")
                                  ∷ (("policyStateOwner", str "pol") ∷ [])))),
                    )
                        ∷ []))))))

abbrev policy_iface : Value
policy_iface = object (
    (
      "policyRoutingAllocation",
      object (
          ("source", str "control-plane-model")
          ∷ (("tableId", int (pos 100)) ∷ (("tableRulePriority", int (pos 2000)) ∷ []))),
    )
    ∷ ((
      "routes",
      object (
          (
            "ipv4",
            array
                (policy_route "forward" "10.2.0.0/16" ∷ (policy_route "return" "10.1.0.0/16" ∷ [])),
          )
          ∷ []),
    )
        ∷ []))

abbrev raw : String → String → String → Fields
raw direction source destination = dict (
    ("authority", str "relation-policy-state-owner")
    ∷ (("family", int (pos 4))
        ∷ (("direction", str direction)
            ∷ (("returnBehavior", str "symmetric")
                ∷ (("relationId", str "web")
                    ∷ (("policyStateOwner", str "pol")
                        ∷ (("service", str "http")
                            ∷ (("trafficType", str "http")
                                ∷ (("tableId", int (pos 100))
                                    ∷ (("priority", int (pos 1000))
                                        ∷ (("relationPriority", int (pos 1))
                                            ∷ (("sourcePrefix", str source)
                                                ∷ (("destinationPrefix", str destination)
                                                    ∷ (("incomingInterface", str "policy")
                                                        ∷ (("policyInterface", str "policy")
                                                            ∷ [])))))))))))))))

abbrev to_raw : Fields
to_raw = raw "forward" "10.1.0.0/16" "10.2.0.0/16"

abbrev back_raw : Fields
back_raw = raw "return" "10.2.0.0/16" "10.1.0.0/16"

abbrev raws : List Value
raws = obj to_raw ∷ (obj back_raw ∷ [])

abbrev node : Fields
node = dict (
    ("interfaces", object (("policy", policy_iface) ∷ []))
    ∷ (("routeSelectionRules", array raws) ∷ []))

abbrev devices : EthMap
devices = ("policy", "eth2") ∷ []

abbrev to : Selector
to = record {
  direction = forward;
  family = v4;
  incoming_runtime = "eth2";
  policy_state_owner = "pol";
  priority = 1000;
  relation_id = "web";
  source = "10.1.0.0/16";
  destination = "10.2.0.0/16";
  table_id = 100;
}

abbrev back : Selector
back = record to { direction = returned; source = "10.2.0.0/16"; destination = "10.1.0.0/16" }

selector_runs : validate_selector node devices to_raw ≡ ok to
unfolding validate_selector network_renderer_contain.Linux.Selection.selector_family
    network_renderer_contain.Linux.Selection.selector_direction
    network_renderer_contain.Linux.Selection.non_empty_string
    network_renderer_contain.Linux.Selection.check_texts
    network_renderer_contain.Linux.Selection.bind_selector
    network_renderer_contain.Linux.Selection.positive_int
    network_renderer_contain.Linux.Selection.prefix_network
    network_renderer_contain.Py.Ip.Parse.ip_network
    network_renderer_contain.Linux.Selection.interface_for_identity
    network_renderer_contain.Linux.Selection.interfaces
    network_renderer_contain.Linux.Selection.matches_in
    network_renderer_contain.Linux.Selection.check_allocation
    network_renderer_contain.Linux.Selection.check_route
    network_renderer_contain.Linux.Selection.family_routes
    network_renderer_contain.Linux.Selection.route_matches_selector
    network_renderer_contain.Py.Ip.Parse.print_prefix
    network_renderer_contain.Py.Ip.Coerce.interface_of
    network_renderer_contain.Py.Ip.Parse.interface_v4
    network_renderer_contain.Py.Ip.Parse.interface_v6
    network_renderer_contain.Py.Ip.Parse.ip_interface network_renderer_contain.Py.Ip.Parse.print
    network_renderer_contain.Py.Ip.masked network_renderer_contain.Py.Ip.network_of
    network_renderer_contain.Py.Text.concat network_renderer_contain.Py.Text.dec
    network_renderer_contain.Py.Text.digits network_renderer_contain.Py.Text.hex
    network_renderer_contain.Py.Text.hex_value network_renderer_contain.Py.Text.join
    network_renderer_contain.Py.Text.number network_renderer_contain.Py.Text.number_from
    network_renderer_contain.Py.Text.split_on network_renderer_contain.Py.Text.split_once
    network_renderer_contain.Py.Value.same
selector_runs = refl

validate_selector-IsBound_example : IsBound node devices to_raw to
validate_selector-IsBound_example = validate_selector-IsBound node devices to_raw to selector_runs

pairs_run : validate_direction_pairs (to ∷ (back ∷ [])) ≡ ok tt
unfolding validate_direction_pairs network_renderer_contain.Linux.Selection.Render.check_groups
    network_renderer_contain.Linux.Selection.Render.group_all
    network_renderer_contain.Linux.Selection.Render.add_selector
    network_renderer_contain.Linux.Selection.Render.check_group
    network_renderer_contain.Linux.Selection.Render.first_with
    network_renderer_contain.Linux.Selection.Render.is_mated
pairs_run = refl

validate_direction_pairs-mates_example :
    ((t : Selector) × Has t (to ∷ (back ∷ [])) × IsMate to t)
    × (length (keep (of_key "web" v4) (to ∷ (back ∷ []))) ≡ 2)
validate_direction_pairs-mates_example =
    validate_direction_pairs-mates (to ∷ (back ∷ [])) to pairs_run (inl refl)

abbrev to_command : String
to_command =
    "sh -c 'ip rule add from 10.1.0.0/16 to 10.2.0.0/16 iif eth2 priority 1000 table 100 2>/dev/null || true'"

abbrev commands : List String
commands =
    to_command
    ∷ ("sh -c 'ip rule add from 10.2.0.0/16 to 10.1.0.0/16 iif eth2 priority 1000 table 100 2>/dev/null || true'"
        ∷ [])

render_runs : render_relation_selection_rules node devices ≡ ok commands
unfolding render_relation_selection_rules
    network_renderer_contain.Linux.Selection.Render.selectors_of
    network_renderer_contain.Linux.Selection.Render.all_objects
    network_renderer_contain.Linux.Selection.Render.validate_all validate_selector
    network_renderer_contain.Linux.Selection.selector_family
    network_renderer_contain.Linux.Selection.selector_direction
    network_renderer_contain.Linux.Selection.non_empty_string
    network_renderer_contain.Linux.Selection.check_texts
    network_renderer_contain.Linux.Selection.bind_selector
    network_renderer_contain.Linux.Selection.positive_int
    network_renderer_contain.Linux.Selection.prefix_network
    network_renderer_contain.Py.Ip.Parse.ip_network
    network_renderer_contain.Linux.Selection.interface_for_identity
    network_renderer_contain.Linux.Selection.interfaces
    network_renderer_contain.Linux.Selection.matches_in
    network_renderer_contain.Linux.Selection.check_allocation
    network_renderer_contain.Linux.Selection.Render.add_selector
    network_renderer_contain.Linux.Selection.Render.check_group
    network_renderer_contain.Linux.Selection.Render.check_groups
    network_renderer_contain.Linux.Selection.Render.first_with
    network_renderer_contain.Linux.Selection.Render.group_all
    network_renderer_contain.Linux.Selection.Render.is_mated
    network_renderer_contain.Linux.Selection.Render.rule_command validate_direction_pairs
    network_renderer_contain.Linux.Selection.check_route
    network_renderer_contain.Linux.Selection.family_routes
    network_renderer_contain.Linux.Selection.route_matches_selector
    network_renderer_contain.Py.Ip.Coerce.interface_of
    network_renderer_contain.Py.Ip.Parse.interface_v4
    network_renderer_contain.Py.Ip.Parse.interface_v6
    network_renderer_contain.Py.Ip.Parse.ip_interface network_renderer_contain.Py.Ip.Parse.print
    network_renderer_contain.Py.Ip.Parse.print_prefix network_renderer_contain.Py.Ip.masked
    network_renderer_contain.Py.Ip.network_of network_renderer_contain.Py.Text.concat
    network_renderer_contain.Py.Text.dec network_renderer_contain.Py.Text.digits
    network_renderer_contain.Py.Text.hex network_renderer_contain.Py.Text.hex_value
    network_renderer_contain.Py.Text.join network_renderer_contain.Py.Text.number
    network_renderer_contain.Py.Text.number_from network_renderer_contain.Py.Text.split_on
    network_renderer_contain.Py.Text.split_once network_renderer_contain.Py.Value.same
render_runs = refl

render-IsPaired_example : IsPaired node devices raws commands to_command
render-IsPaired_example =
    render-IsPaired node devices raws commands to_command refl render_runs refl
