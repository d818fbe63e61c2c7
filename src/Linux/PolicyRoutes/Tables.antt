-- ===== src/Linux/PolicyRoutes/Tables.antt =====
-- The lanes of a node and their policy tables: the first two phases of `render` of
-- clabgen/s88/CM/linux_policy_routes.py.
pub mod Deny
use network_renderer_contain.Prelude.{
  ℕ, String, Bool, true, false, ◌&&◌, ◌||◌, not, Option, none, some, List, [], ◌∷◌, ◌++◌, map, ◌==◌,
  string_eq, if◌then◌else◌, mem, is_nil, keep, lookup,
}
use network_renderer_contain.Py.Value.{
  Value, null, obj, Fields, end, get, get_or, is_str, as_dict, text_of,
}
use network_renderer_contain.Py.Result.{Result, ok, err, type_error, ◌>>=◌, or_raise}
use network_renderer_contain.Py.Text.{concat, dec}
use network_renderer_contain.Py.Ip.{Family, v4, v6, Interface, network_of}
use network_renderer_contain.Py.Ip.Parse.{ip_interface, print_network}
use network_renderer_contain.Linux.Addressing.{interfaces_of}
use network_renderer_contain.Linux.RouteState.{as_iface}
use network_renderer_contain.Linux.UplinkRoutes.{EthMap, at_name}
use network_renderer_contain.Linux.PolicyRoutes.{lane_of, is_default, is_policy_routing_surface}
use network_renderer_contain.Linux.PolicyRoutes.Surfaces.{
  Interfaces, names_of, addr_of, source_interfaces_for_lane,
}
use network_renderer_contain.Linux.PolicyRoutes.Groups.{RouteGroups}
use network_renderer_contain.Linux.PolicyRoutes.Collect.{policy_groups_for_lane}
use network_renderer_contain.Linux.PolicyRoutes.Rules.{
  ip_command, quietly, table_slot, policy_routing_allocation, render_policy_table,
}
use network_renderer_contain.Linux.PolicyRoutes.Sources.{
  source_prefixes_for_interface, dns_outgoing_source_bindings, Binding,
}
use network_renderer_contain.Linux.PolicyRoutes.Lanes.{Lane, routes_of}

abbrev pub rule_add : Family → List String → ℕ → ℕ → String
rule_add family selector priority table = quietly (
    (ip_command family ∷ " rule add " ∷ [])
    ++ (selector ++ (" priority " ∷ dec priority ∷ " table " ∷ dec table ∷ [])))

abbrev pub suppress_rule : Family → List String → ℕ → String
suppress_rule family selector priority = quietly (
    (ip_command family ∷ " rule add " ∷ [])
    ++ (selector ++ (" priority " ∷ dec priority ∷ " table main suppress_prefixlength 0" ∷ [])))

abbrev pub from_rule : String → String → List String
from_rule prefix eth = "from " ∷ prefix ∷ " iif " ∷ eth ∷ []

abbrev pub to_rule : String → String → List String
to_rule prefix eth = "to " ∷ prefix ∷ " iif " ∷ eth ∷ []

abbrev pub iif_rule : String → List String
iif_rule eth = "iif " ∷ eth ∷ []

-- The rules of one source prefix.
abbrev pub main_rules : Family → String → String → Bool → Option ℕ → List String
main_rules family prefix eth destinations none = []
main_rules family prefix eth destinations (some suppress) =
    suppress_rule family (from_rule prefix eth) suppress
    ∷ (if destinations then suppress_rule family (to_rule prefix eth) suppress ∷ [] else [])

unfoldable pub prefix_rules : Lane → Family → String → Bool → List String → List String
prefix_rules lane family eth destinations [] = []
prefix_rules lane family eth destinations (prefix ∷ prefixes) =
    rule_add family (from_rule prefix eth) lane.priority lane.table_id
    ∷ ((if destinations
          then rule_add family (to_rule prefix eth) lane.priority lane.table_id ∷ []
          else [])
        ++ (main_rules family prefix eth destinations lane.main_suppress_priority
            ++ prefix_rules lane family eth destinations prefixes))

-- `_append_policy_rule_commands`, for an interface of the lane itself or one that shares it
unfoldable pub policy_rule_commands : Lane → Family → Fields → String → Bool → Result (List String)
policy_rule_commands lane family source_iface source_eth own = do
  prefixes ← source_prefixes_for_interface source_iface family (not own)
  ok (
      if not (is_nil prefixes)
      then prefix_rules lane family source_eth own prefixes
      else if own
      then rule_add family (iif_rule source_eth) lane.priority lane.table_id ∷ []
      else [])

abbrev pub interface_text : Option String → Option String
interface_text none = none
interface_text (some cidr) = elim (ip_interface cidr) [
  | none ↦ none
  | some i ↦ some (print_network (network_of i))
]

-- `_append_direct_connected_subnet_route`
unfoldable pub direct_route : Family → ℕ → Fields → String → List String
direct_route family table iface eth = elim (interface_text (text_of (addr_of family iface))) [
  | none ↦ []
  | some subnet ↦
      if is_default subnet
      then []
      else quietly (
          ip_command family
          ∷ " route replace table "
          ∷ dec table
          ∷ " "
          ∷ subnet
          ∷ " dev "
          ∷ eth
          ∷ [])
        ∷ []
]

abbrev pub binding_route : Family → Lane → EthMap → Binding → List String
binding_route family lane eth_map b = elim (lookup b.ifname eth_map) [
  | none ↦ []
  | some eth ↦ direct_route family lane.table_id b.iface eth
]

unfoldable pub binding_rules : Family → Lane → EthMap → List Binding → List String
binding_rules family lane eth_map [] = []
binding_rules family lane eth_map (b ∷ bs) =
    binding_route family lane eth_map b
    ++ rule_add family ("from " ∷ b.prefix ∷ []) lane.priority lane.table_id
      ∷ binding_rules family lane eth_map bs

-- `_append_local_origin_source_rules`
unfoldable pub local_origin_rules :
    Family → Lane → Fields → EthMap → List String → Result (List String)
local_origin_rules family lane node eth_map sources = do
  bindings ← dns_outgoing_source_bindings node sources family
  ok (binding_rules family lane eth_map bindings)

-- `_has_default`
unfoldable pub has_default : RouteGroups → Bool
has_default groups = mem "0.0.0.0/0" (map (λ e. e.0) groups) || mem "::/0" (map (λ e. e.0) groups)

-- `interfaces.get(name, {})`
abbrev pub iface_or_empty : String → Interfaces → Value
iface_or_empty name interfaces = elim (lookup name interfaces) [ none ↦ obj end | some v ↦ v ]

-- The loop over the interfaces that send traffic to the table.
unfoldable pub source_rules :
    Lane → Family → EthMap → Interfaces → List String → Result (List String)
source_rules lane family eth_map interfaces [] = ok []
source_rules lane family eth_map interfaces (name ∷ names) = do
  here ← elim (lookup name eth_map) [
    | none ↦ ok []
    | some eth ↦ elim (as_dict (iface_or_empty name interfaces)) [
      | none ↦ ok []
      | some iface ↦ policy_rule_commands lane family iface eth (mem name lane.lane_ifnames)
    ]
  ]
  later ← source_rules lane family eth_map interfaces names
  ok (here ++ later)

-- Whether an interface with a device faces the upstream node.
abbrev pub is_upward : Value → Option String → Result Bool
is_upward value none = ok false
is_upward value (some eth) = do
  iface ← as_iface value
  lane ← lane_of iface
  ok (is_str "access-uplink" (get "kind" lane))

-- Whether the lane's interface does, over `lane_ifnames`.
unfoldable pub is_uplink_in : EthMap → Interfaces → List String → Result Bool
is_uplink_in eth_map interfaces [] = ok false
is_uplink_in eth_map interfaces (name ∷ names) =
    let later = is_uplink_in eth_map interfaces names in
    do
      here ← is_upward (iface_or_empty name interfaces) (lookup name eth_map)
      if here then ok true else later

abbrev pub blackhole : ℕ → String
blackhole table = quietly ("ip route replace table " ∷ dec table ∷ " blackhole 0.0.0.0/0" ∷ [])

-- The rules that send everything from the lane's interfaces to its table.
abbrev pub lane_rule : Family → Lane → Option String → List String
lane_rule family lane none = []
lane_rule family lane (some eth) = rule_add family (iif_rule eth) lane.priority lane.table_id ∷ []

unfoldable pub lane_rules : Family → Lane → EthMap → List String → List String
lane_rules family lane eth_map [] = []
lane_rules family lane eth_map (name ∷ names) =
    lane_rule family lane (lookup name eth_map) ++ lane_rules family lane eth_map names

-- The table of one family, where it has routes, with the rules that lead to it.
unfoldable pub table_rules :
    Family → Lane → Fields → EthMap → Interfaces → Bool → Result (List String)
table_rules family lane node eth_map interfaces is_uplink =
    let defaults = has_default (routes_of family lane) in
    let sources = lane.lane_ifnames ++ lane.shared_ifnames in
    if is_uplink && not defaults then ok [] else (do
      rules ← source_rules lane family eth_map interfaces sources
      origin ← if defaults then local_origin_rules family lane node eth_map sources else ok []
      ok (rules ++ origin))

unfoldable pub family_table :
    Family → Lane → Fields → EthMap → Interfaces → Bool → Result (List String)
family_table family lane node eth_map interfaces is_uplink = do
  rules ← table_rules family lane node eth_map interfaces is_uplink
  ok (render_policy_table family lane.table_id (routes_of family lane) ++ rules)

-- A lane without routes denies by a black hole, so that nothing is answered.
abbrev pub denied4 : Lane → EthMap → Bool → List String
denied4 lane eth_map is_uplink =
    if is_uplink then [] else blackhole lane.table_id ∷ lane_rules v4 lane eth_map lane.lane_ifnames

abbrev pub denied6 : Lane → EthMap → Bool → List String
denied6 lane eth_map is_uplink =
    if is_nil lane.routes4 && not is_uplink
    then lane_rules v6 lane eth_map lane.lane_ifnames
    else []

-- The body of the loop of the second phase.
unfoldable pub lane_table : Lane → Fields → EthMap → Interfaces → Result (List String)
lane_table lane node eth_map interfaces = do
  is_uplink ← is_uplink_in eth_map interfaces lane.lane_ifnames
  table4 ←
      (if is_nil lane.routes4
        then ok (denied4 lane eth_map is_uplink)
        else family_table v4 lane node eth_map interfaces is_uplink)
  table6 ←
      (if is_nil lane.routes6
        then ok (denied6 lane eth_map is_uplink)
        else family_table v6 lane node eth_map interfaces is_uplink)
  ok (table4 ++ table6)

unfoldable pub lane_tables : List Lane → Fields → EthMap → Interfaces → Result (List String)
lane_tables [] node eth_map interfaces = ok []
lane_tables (lane ∷ lanes) node eth_map interfaces = do
  here ← lane_table lane node eth_map interfaces
  later ← lane_tables lanes node eth_map interfaces
  ok (here ++ later)
