-- ===== src/Linux/PolicyRoutes/Groups.antt =====
-- The routes of a lane's table, grouped by destination, of clabgen/s88/CM/linux_policy_routes.py.
pub mod Hops
use network_renderer_contain.Prelude.{
  ℕ, String, Bool, true, false, ◌&&◌, ◌||◌, not, Option, none, some, List, [], ◌∷◌, ◌++◌, map, ◌==◌,
  string_eq, option_eq, pair_eq, if◌then◌else◌, mem, push_new, lookup, assign,
}
use network_renderer_contain.Py.Value.{
  Value, null, str, Fields, field, end, get, is_str, is_true, as_str, truthy,
}
use network_renderer_contain.Py.Result.{Result, ok, err, type_error, ◌>>=◌}
use network_renderer_contain.Py.Ip.{Family, v4, v6}
use network_renderer_contain.Linux.Addressing.{interfaces_of}
use network_renderer_contain.Linux.RouteValues.{route_lists, dst, normalize_text}
use network_renderer_contain.Linux.RouteState.{as_iface}
use network_renderer_contain.Linux.RouteVia.{effective_via4, effective_via6}
use network_renderer_contain.Linux.UplinkRoutes.{EthMap, at_name}
use network_renderer_contain.Linux.PolicyRoutes.{
  lane_of, lane_access, is_default, is_default_dst, route_matches_ingress,
}
use network_renderer_contain.Linux.PolicyRoutes.Surfaces.{
  Interfaces, names_of, Surface, route_surface_for_lane,
}

-- `PolicyHop`: a next hop, where there is one, and the device
abbrev pub Hop : Type 0
Hop = Option String × String

-- The hops of each destination.
abbrev pub RouteGroups : Type 0
RouteGroups = List (String × List Hop)

abbrev pub hops_of : Option (List Hop) → List Hop
hops_of none = []
hops_of (some hops) = hops

abbrev pub add_hop : RouteGroups → String → Hop → RouteGroups
add_hop groups dst hop = assign dst (push_new (hops_of (lookup dst groups)) hop) groups

-- A text that is not empty.
abbrev pub filled : Option String → Option String
filled none = none
filled (some s) = if s == "" then none else some s

abbrev pub add_filled : RouteGroups → Option String → Hop → RouteGroups
add_filled groups none hop = groups
add_filled groups (some dst) hop = add_hop groups (normalize_text dst) hop

abbrev pub add_via : RouteGroups → Option String → String → Option String → RouteGroups
add_via groups dst eth none = groups
add_via groups dst eth (some via) = add_filled groups dst (some via, eth)

-- `_append_policy_route`
unfoldable pub append_policy_route :
    RouteGroups → Option String → Option String → String → RouteGroups
append_policy_route groups dst via eth = add_via groups (filled dst) eth (filled via)

-- `_append_connected_policy_route`
unfoldable pub append_connected_policy_route : RouteGroups → Option String → String → RouteGroups
append_connected_policy_route groups dst eth = add_filled groups (filled dst) (none, eth)

-- A destination or a next hop: a text, or absent.
abbrev pub text_or_absent : Value → Result (Option String)
text_or_absent null = ok none
text_or_absent (str s) = ok (some s)
text_or_absent _ = err (type_error "not a text")

-- `routes.pop(dst, None)`
abbrev pub remove {ℓ} : {V : Type ℓ} → String → List (String × V) → List (String × V)
remove k [] = []
remove k ((j, v) ∷ m) = if j == k then m else (j, v) ∷ remove k m

-- The variables of the loop over the routes of one family: the groups and the destinations that the
-- lane's own interface has a route for.
pub record Found : Type 0 where
  pub groups : RouteGroups
  pub preferred : List (Option String)

abbrev pub found_nothing : Found
found_nothing = record { groups = []; preferred = [] }

abbrev pub normalized : Option String → Option String
normalized none = none
normalized (some s) = some (normalize_text s)

abbrev pub remove_dst : Option String → RouteGroups → RouteGroups
remove_dst none groups = groups
remove_dst (some dst) groups = remove dst groups

-- The lane's own route for a destination takes the place of the others.
unfoldable pub prefer : Bool → Option String → Found → Found
prefer here dst found =
    if here && not (is_default_dst dst) && not (mem (normalized dst) found.preferred)
    then record {
      groups = remove_dst (normalized dst) found.groups;
      preferred = normalized dst ∷ found.preferred;
    }
    else found

abbrev pub effective_of : Family → Fields → Fields → Fields → Result Value
effective_of v4 node iface route = effective_via4 node iface route
effective_of v6 node iface route = effective_via6 node iface route
