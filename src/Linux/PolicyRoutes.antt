-- ===== src/Linux/PolicyRoutes.antt =====
-- clabgen/s88/CM/linux_policy_routes.py: the lane of an interface or a route, and which interfaces
-- have one. Surfaces finds the interfaces that belong together, Groups and Collect the routes of a
-- table; Lanes has the lanes, Rules, Sources, Tables and Returns have the commands.
-- A destination and a next hop are a text or absent here, which the code does not check.
pub mod Surfaces
pub mod Groups
pub mod Collect
pub mod Rules
pub mod Sources
pub mod Lanes
pub mod Tables
pub mod Returns
use network_renderer_contain.Prelude.{
  ℕ, String, Bool, true, false, ◌&&◌, ◌||◌, not, Option, none, some, List, [], ◌∷◌, ◌++◌, map, ◌==◌,
  string_eq, if◌then◌else◌, any, is_nil, mem, push_new, lookup,
}
use Prim.Native.String
use network_renderer_contain.Py.Value.{
  Value, null, str, arr, obj, Fields, field, end, cons, nil, entries, elems, get, get_or, is_str,
  is_true, as_list, as_dict, text_of, truthy, set_item,
}
use network_renderer_contain.Py.Result.{Result, ok, err, type_error, ◌>>=◌, or_raise}
use network_renderer_contain.Py.Iterate.{texts, iterate}
use network_renderer_contain.Py.Sort.{sorted}
use network_renderer_contain.Py.Ip.{Family, v4, v6}
use network_renderer_contain.Linux.Addressing.{interfaces_of}
use network_renderer_contain.Linux.RouteValues.{route_lists, via4, via6}
use network_renderer_contain.Linux.RouteState.{as_iface}
use network_renderer_contain.Linux.RouteVia.{same_subnet}
use network_renderer_contain.Linux.UplinkRoutes.{EthMap, at_name}

-- `_dict`
abbrev pub dict : Value → Fields
dict (obj fs) = fs
dict _ = end

-- The members that are non-empty texts, each once.
unfoldable pub dedupe_from : List String → List Value → List String
dedupe_from result [] = result
dedupe_from result (v ∷ vs) = elim (text_of v) [
  | none ↦ dedupe_from result vs
  | some s ↦ dedupe_from (push_new result s) vs
]

-- `_dedupe_strings`
unfoldable pub dedupe_strings : List Value → List String
unfolding dedupe_from
dedupe_strings vs = dedupe_from [] vs

abbrev pub items_of : List String → Value
items_of [] = arr nil
items_of (s ∷ ss) = elim (items_of ss) [ arr vs ↦ arr (cons (str s) vs) | other ↦ other ]

-- `list(v or [])`
abbrev pub listed : Value → Result (List Value)
listed v = if truthy v then iterate v else ok []

-- The lane with further uplinks, where these are a list that is not empty.
unfoldable pub with_uplinks : Value → Fields → Result Fields
with_uplinks (arr (cons v vs)) lane = do
  before ← listed (get "uplinks" lane)
  ok (set_item "uplinks" (items_of (dedupe_strings (before ++ (v ∷ elems vs)))) lane)
with_uplinks _ lane = ok lane

abbrev pub own_lane : Value → Value → Value
own_lane (obj (field k v fs)) backing = obj (field k v fs)
own_lane value (obj backing) = get "lane" backing
own_lane value _ = value

abbrev pub backing_uplinks : Value → Value
backing_uplinks (obj backing) = get "uplinks" backing
backing_uplinks _ = null

-- `_lane`, of an interface or a route
unfoldable pub lane_of : Fields → Result Fields
lane_of fs = do
  direct ← with_uplinks (get "uplinks" fs) (dict (own_lane (get "lane" fs) (get "backingRef" fs)))
  with_uplinks (backing_uplinks (get "backingRef" fs)) direct

-- `_lane_access`, `_lane_uplink`
abbrev pub lane_access : Fields → Option String
lane_access lane = text_of (get "access" lane)

abbrev pub lane_uplink : Fields → Option String
lane_uplink lane = text_of (get "uplink" lane)

abbrev pub listed_uplinks : Value → List String
listed_uplinks (arr vs) = dedupe_strings (elems vs)
listed_uplinks _ = []

-- `_lane_uplinks`, as the list of the members
unfoldable pub lane_uplinks : Fields → List String
lane_uplinks lane = elim (lane_uplink lane) [
  | none ↦ listed_uplinks (get "uplinks" lane)
  | some u ↦ u ∷ listed_uplinks (get "uplinks" lane)
]

-- `_is_default`
abbrev pub is_default : String → Bool
is_default s = s == "0.0.0.0/0" || s == "::/0"

abbrev pub is_default_dst : Option String → Bool
is_default_dst none = false
is_default_dst (some s) = is_default s

-- `_same_uplink`
unfoldable pub same_uplink : Fields → Fields → Bool
same_uplink left right = any (λ u. mem u (lane_uplinks right)) (lane_uplinks left)

abbrev pub agree : Option String → Option String → Bool
agree (some a) (some b) = a == b
agree _ _ = true

abbrev pub matches_access : Fields → Fields → Option String → Option String → Option String → Bool
matches_access ingress route dst none none =
    not (is_nil (lane_uplinks ingress)) && (is_default_dst dst && same_uplink ingress route)
matches_access ingress route dst none (some b) =
    not (is_nil (lane_uplinks ingress)) && same_uplink ingress route
matches_access ingress route dst (some a) none = is_default_dst dst && same_uplink ingress route
matches_access ingress route dst (some a) (some b) =
    b == a && agree (lane_uplink ingress) (lane_uplink route)

-- `_route_matches_ingress`
unfoldable pub route_matches_ingress : Fields → Fields → Option String → Bool
route_matches_ingress ingress route dst =
    matches_access ingress route dst (lane_access ingress) (lane_access route)

-- `_has_policy_only_routes`
unfoldable pub has_policy_only_routes : Fields → Result Bool
has_policy_only_routes iface = do
  routes ← route_lists iface
  ok (any (λ route. is_true (get "policyOnly" route)) (routes.0 ++ routes.1))

abbrev pub is_dict : Value → Bool
is_dict (obj fs) = true
is_dict _ = false

-- `_is_policy_routing_surface`
unfoldable pub is_policy_routing_surface : Fields → Result Bool
is_policy_routing_surface iface = do
  lane ← lane_of iface
  elim (lane_access lane) [
    | some access ↦ ok true
    | none ↦ if is_nil (lane_uplinks lane) then ok false else (do
      only ← has_policy_only_routes iface
      ok (only && is_dict (get "policyRoutingAllocation" iface)))
  ]
