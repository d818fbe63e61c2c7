-- ===== src/Linux/PolicyRoutes/Surfaces.antt =====
-- Which interfaces send traffic to the lane of an interface, and where its routes leave, of
-- clabgen/s88/CM/linux_policy_routes.py.
use network_renderer_contain.Prelude.{
  String, Bool, true, false, ◌&&◌, ◌||◌, not, Option, none, some, List, [], ◌∷◌, ◌++◌, map, ◌==◌,
  string_eq, option_eq, if◌then◌else◌, lookup,
}
use network_renderer_contain.Py.Value.{
  Value, str, arr, obj, Fields, nil, elems, get, get_or, is_str, as_dict, text_of,
}
use network_renderer_contain.Py.Result.{Result, ok, err, type_error, ◌>>=◌}
use network_renderer_contain.Py.Iterate.{texts}
use network_renderer_contain.Py.Sort.{sorted}
use network_renderer_contain.Py.Ip.{Family, v4, v6}
use network_renderer_contain.Linux.Addressing.{interfaces_of}
use network_renderer_contain.Linux.RouteValues.{via4, via6}
use network_renderer_contain.Linux.RouteState.{as_iface}
use network_renderer_contain.Linux.RouteVia.{same_subnet}
use network_renderer_contain.Linux.UplinkRoutes.{EthMap, at_name}
use network_renderer_contain.Linux.PolicyRoutes.{
  dict, dedupe_strings, lane_of, lane_access, lane_uplink, same_uplink,
}

abbrev pub Interfaces : Type 0
Interfaces = List (String × Value)

-- `sorted(interfaces.keys())`
abbrev pub names_of : Interfaces → List String
names_of interfaces = sorted (map (λ e. e.0) interfaces)

-- The first key whose value is this text.
unfoldable pub key_of : String → EthMap → Option String
key_of value [] = none
key_of value ((k, v) ∷ m) = if v == value then some k else key_of value m

abbrev pub logical_of : EthMap → Option String → Option String
logical_of eth_map none = none
logical_of eth_map (some name) = elim (lookup name eth_map) [
  | some eth ↦ some name
  | none ↦ key_of name eth_map
]

-- `_logical_interface_for_runtime`
unfoldable pub logical_interface_for_runtime : EthMap → Value → Option String
logical_interface_for_runtime eth_map v = logical_of eth_map (text_of v)

-- `to_iface not in {target_ifname, target_eth}`, where a list or an object cannot be looked up
abbrev pub is_one_of : String → String → Value → Result Bool
is_one_of a b (str s) = ok (s == a || s == b)
is_one_of a b (arr vs) = err (type_error "unhashable type: 'list'")
is_one_of a b (obj fs) = err (type_error "unhashable type: 'dict'")
is_one_of a b _ = ok false

abbrev pub other_than : String → Option String → List String
other_than target none = []
other_than target (some source) = if source == target then [] else source ∷ []

-- The source that one rule adds.
unfoldable pub rule_source : EthMap → String → String → Fields → Result (List String)
rule_source eth_map target eth rule =
    if not (is_str "accept" (get "action" rule)) then ok [] else (do
      to_target ← is_one_of target eth (get "toInterface" rule)
      ok (
          if to_target
          then other_than target (logical_interface_for_runtime eth_map (get "fromInterface" rule))
          else []))

unfoldable pub rule_sources : EthMap → String → String → List Value → Result (List String)
rule_sources eth_map target eth [] = ok []
rule_sources eth_map target eth (v ∷ vs) = do
  here ← elim (as_dict v) [ none ↦ ok [] | some rule ↦ rule_source eth_map target eth rule ]
  later ← rule_sources eth_map target eth vs
  ok (here ++ later)

abbrev pub rules_of : Fields → Value
rules_of node = get_or (arr nil) "rules" (dict (get "forwardingIntent" node))

abbrev pub sources_to : EthMap → String → String → Value → Result (List String)
sources_to eth_map target eth (arr vs) = do
  found ← rule_sources eth_map target eth (elems vs)
  ok (dedupe_strings (texts found))
sources_to eth_map target eth _ = ok []

-- `_forwarding_sources_for_target`
unfoldable pub forwarding_sources_for_target : Fields → EthMap → String → Result (List String)
forwarding_sources_for_target node eth_map target = elim (lookup target eth_map) [
  | none ↦ ok []
  | some eth ↦ sources_to eth_map target eth (rules_of node)
]

-- The interfaces without an access of their own that share an uplink with the lane.
unfoldable pub uplink_sources : Interfaces → String → Fields → List String → Result (List String)
uplink_sources interfaces target target_lane [] = ok []
uplink_sources interfaces target target_lane (ifname ∷ names) =
    let later = uplink_sources interfaces target target_lane names in
    if ifname == target then later else (do
      iface ← as_iface (at_name ifname interfaces)
      lane ← lane_of iface
      rest ← later
      ok (if lane_access lane == none && same_uplink lane target_lane then ifname ∷ rest else rest))

-- `_source_interfaces_for_lane`
unfoldable pub source_interfaces_for_lane : Fields → EthMap → String → Fields → Result (List String)
source_interfaces_for_lane node eth_map target target_iface = do
  target_lane ← lane_of target_iface
  interfaces ← interfaces_of node
  shared ← uplink_sources interfaces target target_lane (names_of interfaces)
  forwarded ← forwarding_sources_for_target node eth_map target
  ok (dedupe_strings (texts (target ∷ (shared ++ forwarded))))

-- An interface with its device.
abbrev pub Surface : Type 0
Surface = Fields × String

abbrev pub addr_of : Family → Fields → Value
addr_of v4 iface = get "addr4" iface
addr_of v6 iface = get "addr6" iface

abbrev pub via_of : Family → Fields → Value
via_of v4 route = via4 route
via_of v6 route = via6 route

-- The first interface in whose network the next hop is.
unfoldable pub surface_by_via :
    Family → EthMap → Interfaces → String → List String → Result (Option Surface)
surface_by_via family eth_map interfaces via [] = ok none
surface_by_via family eth_map interfaces via (ifname ∷ names) =
    let later = surface_by_via family eth_map interfaces via names in
    elim (lookup ifname eth_map) [
      | none ↦ later
      | some eth ↦ do
        iface ← as_iface (at_name ifname interfaces)
        if same_subnet (str via) (addr_of family iface) then ok (some (iface, eth)) else later
    ]

abbrev pub with_device : Fields → Option String → Option Surface
with_device iface none = none
with_device iface (some eth) = some (iface, eth)

-- The first interface with this access and uplink: the outer `none` is that there is no such one.
unfoldable pub surface_by_lane :
    EthMap → Interfaces → String → String → List String → Result (Option (Option Surface))
surface_by_lane eth_map interfaces access uplink [] = ok none
surface_by_lane eth_map interfaces access uplink (ifname ∷ names) = do
  iface ← as_iface (at_name ifname interfaces)
  lane ← lane_of iface
  elim (lane_access lane == some access && lane_uplink lane == some uplink) [
    | true ↦ ok (some (with_device iface (lookup ifname eth_map)))
    | false ↦ surface_by_lane eth_map interfaces access uplink names
  ]

abbrev pub lane_surface :
    EthMap → Interfaces → Option String → Option String → Result (Option (Option Surface))
lane_surface eth_map interfaces (some access) (some uplink) =
    surface_by_lane eth_map interfaces access uplink (names_of interfaces)
lane_surface eth_map interfaces _ _ = ok none

abbrev pub via_surface : Family → EthMap → Interfaces → Option String → Result (Option Surface)
via_surface family eth_map interfaces none = ok none
via_surface family eth_map interfaces (some via) =
    surface_by_via family eth_map interfaces via (names_of interfaces)

abbrev pub fallback_surface : EthMap → String → Value → Option Surface
fallback_surface eth_map fallback v = elim (as_dict v) [
  | none ↦ none
  | some iface ↦ with_device iface (lookup fallback eth_map)
]

-- `_route_surface_for_lane`
unfoldable pub route_surface_for_lane :
    Fields → EthMap → String → Fields → Fields → Family → Result (Option Surface)
route_surface_for_lane node eth_map fallback route_lane route family = do
  interfaces ← interfaces_of node
  by_via ← via_surface family eth_map interfaces (text_of (via_of family route))
  elim by_via [
    | some surface ↦ ok (some surface)
    | none ↦ do
      by_lane ← lane_surface eth_map interfaces (lane_access route_lane) (lane_uplink route_lane)
      elim by_lane [
        | some found ↦ ok found
        | none ↦ ok (fallback_surface eth_map fallback (at_name fallback interfaces))
      ]
  ]
