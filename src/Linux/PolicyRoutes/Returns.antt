-- ===== src/Linux/PolicyRoutes/Returns.antt =====
-- The destination rules of shared interfaces and the way back, the phases before the last of `render` of
-- clabgen/s88/CM/linux_policy_routes.py. Render has the last phase and the
-- whole.
pub mod Render
pub mod Claims
pub mod Advance
pub mod Winners
pub mod Denial
use network_renderer_contain.Prelude.{
  ℕ, String, Bool, true, false, ◌&&◌, ◌||◌, not, Option, none, some, List, [], ◌∷◌, ◌++◌, map, ◌==◌,
  nat_eq, string_eq, pair_eq, option_eq, if◌then◌else◌, leb, mem, is_nil, keep, push_new, lookup,
  assign,
}
use network_renderer_contain.Py.Value.{Value, null, obj, Fields, end, get, is_str, is_true, text_of}
use network_renderer_contain.Py.Result.{Result, ok, err, ◌>>=◌}
use network_renderer_contain.Py.Sort.{sorted, sort_by}
use network_renderer_contain.Py.Text.{concat, dec}
use network_renderer_contain.Py.Ip.{Family, v4, v6}
use network_renderer_contain.Linux.Addressing.{interfaces_of, peer_in_subnet}
use network_renderer_contain.Linux.RouteState.{as_iface}
use network_renderer_contain.Linux.RouteValues.{route_lists, dst}
use network_renderer_contain.Linux.Selection.Render.{render_relation_selection_rules}
use network_renderer_contain.Linux.UplinkRoutes.{EthMap}
use network_renderer_contain.Linux.PolicyRoutes.{lane_of, lane_access, is_default, is_default_dst}
use network_renderer_contain.Linux.PolicyRoutes.Surfaces.{Interfaces, addr_of}
use network_renderer_contain.Linux.PolicyRoutes.Groups.{
  Hop, RouteGroups, hops_of, add_hop, filled, text_or_absent, effective_of, append_policy_route,
}
use network_renderer_contain.Linux.PolicyRoutes.Rules.{ip_command, quietly, dsts_of}
use network_renderer_contain.Linux.PolicyRoutes.Sources.{of_family}
use network_renderer_contain.Linux.PolicyRoutes.Tables.{
  lane_tables, rule_add, to_rule, interface_text, iface_or_empty,
}
use network_renderer_contain.Linux.PolicyRoutes.Lanes.{Lane, routes_of, collect_lanes}

-- A destination with the device that traffic to it comes from.
abbrev pub Claim : Type 0
Claim = String × String

-- The commands so far, with the claims of each family.
pub record Claimed : Type 0 where
  pub cmds : List String
  pub claimed4 : List Claim
  pub claimed6 : List Claim

abbrev pub claims_of : Family → Claimed → List Claim
claims_of v4 c = c.claimed4
claims_of v6 c = c.claimed6

abbrev pub add_claim : Family → Claim → String → Claimed → Claimed
add_claim v4 claim cmd c = record c {
  cmds = c.cmds ++ cmd ∷ [];
  claimed4 = c.claimed4 ++ claim ∷ [];
}
add_claim v6 claim cmd c = record c {
  cmds = c.cmds ++ cmd ∷ [];
  claimed6 = c.claimed6 ++ claim ∷ [];
}

-- A claim is made once: the first lane to make it has the rule.
unfoldable pub make_claim : Family → ℕ → ℕ → Claim → Claimed → Claimed
make_claim family priority table claim c =
    if mem claim (claims_of family c)
    then c
    else add_claim family claim (rule_add family (to_rule claim.0 claim.1) priority table) c

unfoldable pub make_claims : Family → ℕ → ℕ → List Claim → Claimed → Claimed
make_claims family priority table [] c = c
make_claims family priority table (claim ∷ rest) c =
    make_claims family priority table rest (make_claim family priority table claim c)

abbrev pub default_dst : Family → String
default_dst v4 = "0.0.0.0/0"
default_dst v6 = "::/0"

-- The devices of the names that have one.
abbrev pub devices_of : EthMap → List String → List String
devices_of eth_map [] = []
devices_of eth_map (name ∷ names) =
    let later = devices_of eth_map names in
    elim (lookup name eth_map) [ none ↦ later | some eth ↦ eth ∷ later ]

abbrev pub pairs_from : List String → List String → List Claim
pairs_from [] eths = []
pairs_from (dst ∷ dsts) eths = map (λ eth. (dst, eth)) eths ++ pairs_from dsts eths

-- Each destination but the default with each device, in the order of the loops.
abbrev pub claims_for : Family → RouteGroups → List String → List Claim
claims_for family groups eths =
    pairs_from (keep (λ dst. not (dst == default_dst family)) (dsts_of groups)) eths

-- The body of the loop of the third phase.
unfoldable pub claim_lane : EthMap → Lane → Claimed → Claimed
claim_lane eth_map lane c =
    let eths = devices_of eth_map lane.shared_ifnames in
    make_claims v6 lane.priority lane.table_id (claims_for v6 lane.routes6 eths)
      (make_claims v4 lane.priority lane.table_id (claims_for v4 lane.routes4 eths) c)

unfoldable pub claim_lanes : EthMap → List Lane → Claimed → Claimed
claim_lanes eth_map [] c = c
claim_lanes eth_map (lane ∷ lanes) c = claim_lanes eth_map lanes (claim_lane eth_map lane c)

-- `sorted(lanes, key=lambda x: x[2], reverse=True)`
abbrev pub not_below : Lane → Lane → Bool
not_below a b = leb b.priority a.priority

abbrev pub by_priority : List Lane → List Lane
by_priority lanes = sort_by not_below lanes

-- A side of a way back that faces the upstream node, and one that faces downstream.
pub record Upstream : Type 0 where
  pub table : ℕ
  pub priority : ℕ
  pub eths : List String

pub record Downstream : Type 0 where
  pub table : ℕ
  pub priority : ℕ
  pub routes4 : RouteGroups
  pub routes6 : RouteGroups
  pub iface : Fields
  pub eth : String

pub record Sides : Type 0 where
  pub upstream_by_access : List (String × List Upstream)
  pub downstream_by_access : List (String × List Downstream)

abbrev pub list_at {ℓ} : {A : Type ℓ} → Option (List A) → List A
list_at none = []
list_at (some xs) = xs

-- `m.setdefault(k, []).append(x)`
abbrev pub append_at {ℓ} :
    {A : Type ℓ} → String → A → List (String × List A) → List (String × List A)
append_at k x m = assign k (list_at (lookup k m) ++ x ∷ []) m

abbrev pub is_upstream : Value → Bool
is_upstream kind = is_str "access-uplink" kind || is_str "access" kind

abbrev pub is_downstream : Value → Bool
is_downstream kind = is_str "access" kind || is_str "access-edge" kind

unfoldable pub add_sides : EthMap → Lane → String → Value → Fields → String → Sides → Sides
add_sides eth_map lane access kind iface eth sides = record {
  upstream_by_access =
      if is_upstream kind
      then append_at access
          (record {
            table = lane.table_id;
            priority = lane.priority;
            eths = devices_of eth_map lane.lane_ifnames;
          })
          sides.upstream_by_access
      else sides.upstream_by_access;
  downstream_by_access =
      if is_downstream kind
      then append_at access
          (record {
            table = lane.table_id;
            priority = lane.priority;
            routes4 = lane.routes4;
            routes6 = lane.routes6;
            iface = iface;
            eth = eth;
          })
          sides.downstream_by_access
      else sides.downstream_by_access;
}

unfoldable pub sides_of_names : EthMap → Interfaces → Lane → List String → Sides → Result Sides
sides_of_names eth_map interfaces lane [] sides = ok sides
sides_of_names eth_map interfaces lane (name ∷ names) sides =
    let go = sides_of_names eth_map interfaces lane names in
    elim (lookup name eth_map) [
      | none ↦ go sides
      | some eth ↦ do
        iface ← as_iface (iface_or_empty name interfaces)
        fs ← lane_of iface
        elim (lane_access fs) [
          | none ↦ go sides
          | some access ↦ go (add_sides eth_map lane access (get "kind" fs) iface eth sides)
        ]
    ]

-- The sides of the ways back, by access.
unfoldable pub collect_sides : EthMap → Interfaces → List Lane → Sides → Result Sides
collect_sides eth_map interfaces [] sides = ok sides
collect_sides eth_map interfaces (lane ∷ lanes) sides =
    let go = collect_sides eth_map interfaces lanes in
    elim (is_nil lane.routes4 && is_nil lane.routes6) [
      | true ↦ go sides
      | false ↦ do next ← sides_of_names eth_map interfaces lane lane.lane_ifnames sides; go next
    ]
