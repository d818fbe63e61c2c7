-- ===== src/Linux/PolicyRoutes/Rules.antt =====
-- The route and rule commands of a policy table, of clabgen/s88/CM/linux_policy_routes.py.
use network_renderer_contain.Prelude.{
  ℕ, suc, ◌+◌, String, Bool, ◌||◌, Option, none, some, List, [], ◌∷◌, ◌++◌, map, ◌==◌, nat_eq,
  string_eq, pair_eq, if◌then◌else◌, push_all_new, lookup,
}
use network_renderer_contain.Py.Value.{ℤ, pos, Value, null, obj, Fields, field, get, is_str, as_int}
use network_renderer_contain.Py.Result.{
  Result, ok, err, type_error, value_error, ◌>>=◌, ◌>>◌, require, or_raise,
}
use network_renderer_contain.Py.Sort.{sorted, sort_by, text_le}
use network_renderer_contain.Py.Text.{concat, join, dec}
use network_renderer_contain.Py.Ip.{Family, v4, v6}
use network_renderer_contain.Linux.RouteValues.{dst}
use network_renderer_contain.Linux.Selection.{hashable}
use network_renderer_contain.Linux.UplinkRoutes.{EthMap}
use network_renderer_contain.Linux.PolicyRoutes.Groups.{Hop, RouteGroups, hops_of}

abbrev pub ip_command : Family → String
ip_command v4 = "ip"
ip_command v6 = "ip -6"

-- `sh -c '... 2>/dev/null || true'`
abbrev pub quietly : List String → String
quietly parts = concat ("sh -c '" ∷ (parts ++ " 2>/dev/null || true'" ∷ []))

abbrev pub via_key : Option String → String
via_key none = ""
via_key (some via) = via

-- `_hop_sort_key`: the device first
abbrev pub hop_le : Hop → Hop → Bool
hop_le (via, eth) (via', eth') =
    if eth == eth' then text_le (via_key via) (via_key via') else text_le eth eth'

abbrev pub hop_part : Hop → String
hop_part (none, eth) = concat ("dev " ∷ eth ∷ [])
hop_part (some via, eth) = concat ("nexthop via " ∷ via ∷ " dev " ∷ eth ∷ " onlink" ∷ [])

abbrev pub replace_route : Family → ℕ → String → String
replace_route family table dst =
    concat (ip_command family ∷ " route replace table " ∷ dec table ∷ " " ∷ dst ∷ [])

-- `_render_group`
unfoldable pub render_group : Family → ℕ → String → List Hop → String
render_group family table dst ((none, eth) ∷ []) =
    concat (replace_route family table dst ∷ " dev " ∷ eth ∷ [])
render_group family table dst ((some via, eth) ∷ []) =
    concat (replace_route family table dst ∷ " via " ∷ via ∷ " dev " ∷ eth ∷ " onlink" ∷ [])
render_group family table dst hops =
    join " " (replace_route family table dst ∷ map hop_part (sort_by hop_le hops))

-- `names.index(name)`
unfoldable pub index : String → List String → Option ℕ
index name [] = none
index name (n ∷ ns) =
    if n == name then some 0 else elim (index name ns) [ none ↦ none | some i ↦ some (i + 1) ]

abbrev pub devices : EthMap → List String
devices eth_map = sorted (push_all_new [] (map (λ e. e.1) eth_map))

-- `_table_slot`
unfoldable pub table_slot : EthMap → String → Result ℕ
table_slot eth_map eth = elim (index eth (devices eth_map)) [
  | none ↦ err (value_error "is not in list")
  | some i ↦ ok (i + 1)
]

abbrev pub positive : Option ℤ → Option ℕ
positive (some (pos (suc n))) = some (suc n)
positive _ = none

-- `_int_field`; `true` counts as 1, as in Python, and is printed as 1 here.
unfoldable pub int_field : Value → Result ℕ
int_field v = or_raise (value_error "must be a positive integer") (positive (as_int v))

abbrev pub filled_dict : Value → Option Fields
filled_dict (obj (field k v fs)) = some (field k v fs)
filled_dict _ = none

pub record Allocation : Type 0 where
  pub table_id : ℕ
  pub priority : ℕ
  pub main_suppress_priority : Option ℕ

abbrev pub optional_int_field : Value → Result (Option ℕ)
optional_int_field null = ok none
optional_int_field v = do n ← int_field v; ok (some n)

abbrev pub priority_field : Fields → Value
priority_field allocation = elim (as_int (get "tableRulePriority" allocation)) [
  | none ↦ get "priority" allocation
  | some n ↦ get "tableRulePriority" allocation
]

-- `_policy_routing_allocation`
unfoldable pub policy_routing_allocation : Fields → Result Allocation
policy_routing_allocation iface = do
  allocation ←
      or_raise (value_error "lacks CPM policyRoutingAllocation")
        (filled_dict (get "policyRoutingAllocation" iface))
  require (hashable (get "source" allocation)) (type_error "unhashable type")
  require
      (is_str "control-plane-model" (get "source" allocation)
        || is_str "provider-contract" (get "source" allocation))
      (value_error "policyRoutingAllocation.source")
  table ← int_field (get "tableId" allocation)
  priority ← int_field (priority_field allocation)
  suppress ← optional_int_field (get "mainSuppressPriority" allocation)
  ok (record { table_id = table; priority = priority; main_suppress_priority = suppress })

-- `sorted(groups.keys())`
abbrev pub dsts_of : RouteGroups → List String
dsts_of groups = sorted (map (λ e. e.0) groups)

-- `_render_policy_table`
unfoldable pub render_policy_table : Family → ℕ → RouteGroups → List String
render_policy_table family table groups =
    map (λ dst. render_group family table dst (hops_of (lookup dst groups))) (dsts_of groups)
