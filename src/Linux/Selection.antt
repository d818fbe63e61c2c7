-- ===== src/Linux/Selection.antt =====
-- clabgen/s88/CM/relation_selection_rules.py: the rules that select the policy route of a relation.
pub mod Groups
pub mod Pairs
pub mod Bounds
pub mod Laws
pub mod Render
use network_renderer_contain.Prelude.{
  lookup, ℕ, suc, String, Bool, true, false, ◌&&◌, ◌||◌, not, Option, none, some, List, [], ◌∷◌,
  ◌++◌, ◌==◌, nat_eq, string_eq, if◌then◌else◌, leb, ltb, any, keep, length, is_nil, push_new,
  push_all_new,
}
use network_renderer_contain.Py.Value.{
  ℤ, pos, negsuc, Value, null, bool, int, str, arr, obj, nil, end, Fields, get, get_or, as_list,
  as_dict, text_of, is_str, is_num, is_true, is_null, same, entries,
}
use network_renderer_contain.Py.Result.{
  Error, Result, ok, err, contract_error, type_error, ◌>>=◌, ◌>>◌, require, or_raise,
}
use network_renderer_contain.Py.Text.{concat, dec}
use network_renderer_contain.Py.Ip.{Family, v4, v6, same_family, Network, Interface, network_of}
use network_renderer_contain.Py.Ip.Parse.{ip_network, print_network}
use network_renderer_contain.Py.Ip.Coerce.{interface_of}
use network_renderer_contain.Firewall.CpmRules.{family_of}
use network_renderer_contain.Linux.UplinkRoutes.{EthMap}

unfoldable pub non_empty_string : Value → Result String
non_empty_string v = or_raise (contract_error "missing field") (text_of v)

abbrev positive : Value → Option ℕ
positive (int (pos (suc n))) = some (suc n)
positive _ = none

unfoldable pub positive_int : Value → Result ℕ
positive_int v = or_raise (contract_error "must be a positive integer") (positive v)

abbrev all_dicts : List (String × Value) → Option (List (String × Fields))
all_dicts [] = some []
all_dicts ((name, v) ∷ rest) =
    let more = all_dicts rest in
    elim (as_dict v) [
      | none ↦ none
      | some fs ↦ elim more [ none ↦ none | some found ↦ some ((name, fs) ∷ found) ]
    ]

-- `_interfaces`
unfoldable pub interfaces : Fields → Result (List (String × Fields))
interfaces node = do
  fs ←
      or_raise (contract_error "interfaces must be an object")
        (as_dict (get_or (obj end) "interfaces" node))
  or_raise (contract_error "interface entries must be named objects") (all_dicts (entries fs))

-- A value that a set can hold.
abbrev pub hashable : Value → Bool
hashable (arr _) = false
hashable (obj _) = false
hashable _ = true

-- An interface that matches: its logical name, its name at run time and its fields.
pub record Match : Type 0 where
  pub logical : String
  pub target : String
  pub iface : Fields

abbrev identity_matches :
    String → String → Fields → Option String → List Match → Result (List Match)
identity_matches value logical iface none rest = ok rest
identity_matches value logical iface (some target) rest = do
  require (hashable (get "runtimeIfName" iface)) (type_error "unhashable type")
  ok (
      if logical == value || target == value || is_str value (get "runtimeIfName" iface)
      then record { logical = logical; target = target; iface = iface } ∷ rest
      else rest)

unfoldable pub matches_in : EthMap → String → List (String × Fields) → Result (List Match)
matches_in eth_map value [] = ok []
matches_in eth_map value ((logical, iface) ∷ ifaces) = do
  rest ← matches_in eth_map value ifaces
  identity_matches value logical iface (lookup logical eth_map) rest

abbrev the_one {ℓ} : {A : Type ℓ} → List A → Option A
the_one (x ∷ []) = some x
the_one _ = none

-- `_interface_for_identity`
unfoldable pub interface_for_identity : Fields → EthMap → Value → Result Match
interface_for_identity node eth_map identity = do
  value ← non_empty_string identity
  ifaces ← interfaces node
  found ← matches_in eth_map value ifaces
  or_raise (contract_error "must resolve to exactly one CPM interface") (the_one found)

-- `_prefix`
unfoldable pub prefix_network : Value → Family → Result Network
prefix_network v family = do
  raw ← non_empty_string v
  network ← or_raise (contract_error "must be a valid family prefix") (ip_network false raw)
  require (same_family network.family family)
      (contract_error "family does not match selector family")
  require (not (network.prefix == 0))
      (contract_error "default prefixes cannot grant transitive authority")
  ok network

-- `ipaddress.ip_network(v, strict=False)`, where v need not be a text
abbrev network_value : Value → Option Network
network_value (str s) = ip_network false s
network_value v = elim (interface_of v) [ none ↦ none | some i ↦ some (network_of i) ]

abbrev is_destination : String → Value → Bool
is_destination destination v = elim (network_value v) [
  | none ↦ false
  | some n ↦ print_network n == destination
]

-- `_route_matches_selector`
unfoldable pub route_matches_selector : Fields → Fields → String → Bool
route_matches_selector route selector destination = elim (as_dict (get "intent" route)) [
  | none ↦ false
  | some intent ↦
      is_destination destination (get "dst" route)
      && is_true (get "policyOnly" route)
      && same (get "relationId" route) (get "relationId" selector)
      && same (get "returnBehavior" route) (get "returnBehavior" selector)
      && same (get "trafficType" route) (get "trafficType" selector)
      && is_str "relation-policy-reachability" (get "kind" intent)
      && same (get "direction" intent) (get "direction" selector)
      && same (get "relationId" intent) (get "relationId" selector)
      && same (get "policyStateOwner" intent) (get "policyStateOwner" selector)
]

pub data Direction : Type 0 where
  forward returned : Direction

abbrev pub same_direction : Direction → Direction → Bool
same_direction forward forward = true
same_direction returned returned = true
same_direction _ _ = false

pub record Selector : Type 0 where
  pub direction : Direction
  pub family : Family
  pub incoming_runtime : String
  pub policy_state_owner : String
  pub priority : ℕ
  pub relation_id : String
  pub source : String
  pub destination : String
  pub table_id : ℕ

-- The policy interface of a selector allocates the selector's table, behind the selector's priority.
unfoldable pub check_allocation : Fields → ℕ → ℕ → Result (Unit {0})
check_allocation policy_iface table_id priority = do
  allocation ←
      or_raise (contract_error "policy interface lacks a CPM table allocation")
        (as_dict (get "policyRoutingAllocation" policy_iface))
  require (is_str "control-plane-model" (get "source" allocation))
      (contract_error "policy table allocation is not CPM-owned")
  require (is_num table_id (get "tableId" allocation))
      (contract_error "selector table differs from its policy interface allocation")
  table_priority ← positive_int (get "tableRulePriority" allocation)
  require (ltb priority table_priority)
      (contract_error "relation selector must precede the generic policy rule")

abbrev routes_key : Family → String
routes_key v4 = "ipv4"
routes_key v6 = "ipv6"

unfoldable pub family_routes : Fields → Family → Value
family_routes policy_iface family = elim (as_dict (get_or (obj end) "routes" policy_iface)) [
  | none ↦ arr nil
  | some routes ↦ get_or (arr nil) (routes_key family) routes
]

abbrev is_selected : Fields → String → Value → Bool
is_selected selector destination v = elim (as_dict v) [
  | none ↦ false
  | some route ↦ route_matches_selector route selector destination
]

-- Exactly one route of the policy interface is the selector's.
unfoldable pub check_route : Fields → Family → Fields → String → Result (Unit {0})
check_route policy_iface family selector destination = do
  routes ←
      or_raise (contract_error "policy interface routes must be family arrays")
        (as_list (family_routes policy_iface family))
  require (length (keep (is_selected selector destination) routes) == 1)
      (contract_error "selector requires exactly one bounded CPM policy route")

unfoldable pub selector_family : Fields → Result Family
selector_family selector = do
  require (hashable (get "family" selector)) (type_error "unhashable type")
  or_raise (contract_error "family must be 4 or 6") (family_of (get "family" selector))

abbrev direction_of : Value → Option Direction
direction_of v =
    if is_str "forward" v then some forward else if is_str "return" v then some returned else none

unfoldable pub selector_direction : Fields → Result Direction
selector_direction selector = do
  require (hashable (get "direction" selector)) (type_error "unhashable type")
  or_raise (contract_error "direction must be forward or return")
      (direction_of (get "direction" selector))

unfoldable pub check_texts : Fields → Result (Unit {0})
check_texts selector = do
  _ ← non_empty_string (get "service" selector)
  _ ← non_empty_string (get "trafficType" selector)
  ok tt

-- The part of `_validate_selector` that reads the node.
unfoldable pub bind_selector :
    Fields → EthMap → Fields → Direction → Family → String → String → Result Selector
bind_selector node eth_map selector direction family relation_id state_owner = do
  table_id ← positive_int (get "tableId" selector)
  priority ← positive_int (get "priority" selector)
  _ ← positive_int (get "relationPriority" selector)
  source ← prefix_network (get "sourcePrefix" selector) family
  destination ← prefix_network (get "destinationPrefix" selector) family
  incoming ← interface_for_identity node eth_map (get "incomingInterface" selector)
  policy ← interface_for_identity node eth_map (get "policyInterface" selector)
  _ ← check_allocation policy.iface table_id priority
  _ ← check_route policy.iface family selector (print_network destination)
  ok (record {
    direction = direction;
    family = family;
    incoming_runtime = incoming.target;
    policy_state_owner = state_owner;
    priority = priority;
    relation_id = relation_id;
    source = print_network source;
    destination = print_network destination;
    table_id = table_id;
  })

-- `_validate_selector`
unfoldable pub validate_selector : Fields → EthMap → Fields → Result Selector
validate_selector node eth_map selector = do
  require (is_str "relation-policy-state-owner" (get "authority" selector))
      (contract_error "unsupported selector authority")
  family ← selector_family selector
  direction ← selector_direction selector
  require (is_str "symmetric" (get "returnBehavior" selector))
      (contract_error "return behavior must preserve the policy state owner")
  relation_id ← non_empty_string (get "relationId" selector)
  state_owner ← non_empty_string (get "policyStateOwner" selector)
  _ ← check_texts selector
  bind_selector node eth_map selector direction family relation_id state_owner
