-- ===== src/Linux/Selection/Render.antt =====
-- `_validate_direction_pairs` and `render_relation_selection_rules` of
-- clabgen/s88/CM/relation_selection_rules.py.
use network_renderer_contain.Prelude.{
  String, Bool, ◌&&◌, Option, none, some, List, [], ◌∷◌, ◌++◌, ◌==◌, nat_eq, string_eq,
  if◌then◌else◌, any, length, push_all_new, map,
}
use network_renderer_contain.Py.Value.{Value, arr, nil, Fields, get_or, as_list, as_dict}
use network_renderer_contain.Py.Result.{Result, ok, contract_error, ◌>>=◌, ◌>>◌, require, or_raise}
use network_renderer_contain.Py.Text.{concat, dec}
use network_renderer_contain.Py.Ip.{Family, v4, v6, same_family}
use network_renderer_contain.Linux.UplinkRoutes.{EthMap}
use network_renderer_contain.Linux.Selection.{
  Direction, forward, returned, same_direction, Selector, validate_selector,
}

-- The selectors of one relation and one family, in the order in which they came.
pub record Group : Type 0 where
  pub relation_id : String
  pub family : Family
  pub members : List Selector

abbrev pub is_key : String → Family → String → Family → Bool
is_key r f r' f' = r == r' && same_family f f'

-- `groups.setdefault(key, []).append(selector)`
unfoldable pub add_selector : Selector → List Group → List Group
add_selector s [] = record { relation_id = s.relation_id; family = s.family; members = s ∷ [] } ∷ []
add_selector s (g ∷ gs) =
    let rest = add_selector s gs in
    if is_key g.relation_id g.family s.relation_id s.family
    then record { relation_id = g.relation_id; family = g.family; members = g.members ++ s ∷ [] }
      ∷ gs
    else g ∷ rest

unfoldable pub group_all : List Selector → List Group → List Group
group_all [] gs = gs
group_all (s ∷ ss) gs = group_all ss (add_selector s gs)

unfoldable pub first_with : Direction → List Selector → Option Selector
first_with d [] = none
first_with d (s ∷ ss) =
    let rest = first_with d ss in if same_direction s.direction d then some s else rest

abbrev pub has_direction : Direction → List Selector → Bool
has_direction d ss = any (λ s. same_direction s.direction d) ss

-- The forward and the return selector of a group hold the same path.
unfoldable pub is_mated : Selector → Selector → Bool
is_mated to back =
    to.source == back.destination
    && to.destination == back.source
    && to.policy_state_owner == back.policy_state_owner

unfoldable pub check_group : List Selector → Result (Unit {0})
check_group group = do
  require (has_direction forward group && has_direction returned group && length group == 2)
      (contract_error "each relation family requires one forward and one return selector")
  to ← or_raise (contract_error "StopIteration") (first_with forward group)
  back ← or_raise (contract_error "StopIteration") (first_with returned group)
  require (is_mated to back)
      (contract_error "forward and return selectors do not share one policy state path")

unfoldable pub check_groups : List Group → Result (Unit {0})
check_groups [] = ok tt
check_groups (g ∷ gs) = do _ ← check_group g.members; check_groups gs

-- `_validate_direction_pairs`
unfoldable pub validate_direction_pairs : List Selector → Result (Unit {0})
validate_direction_pairs ss = check_groups (group_all ss [])

abbrev ip_command : Family → String
ip_command v4 = "ip"
ip_command v6 = "ip -6"

unfoldable pub rule_command : Selector → String
rule_command s = concat (
    "sh -c '"
    ∷ ip_command s.family
    ∷ " rule add from "
    ∷ s.source
    ∷ " to "
    ∷ s.destination
    ∷ " iif "
    ∷ s.incoming_runtime
    ∷ " priority "
    ∷ dec s.priority
    ∷ " table "
    ∷ dec s.table_id
    ∷ " 2>/dev/null || true'"
    ∷ [])

unfoldable pub all_objects : List Value → Option (List Fields)
all_objects [] = some []
all_objects (v ∷ vs) =
    let rest = all_objects vs in
    elim (as_dict v) [
      | none ↦ none
      | some fs ↦ elim rest [ none ↦ none | some found ↦ some (fs ∷ found) ]
    ]

unfoldable pub validate_all : Fields → EthMap → List Fields → Result (List Selector)
validate_all node eth_map [] = ok []
validate_all node eth_map (raw ∷ raws) = do
  s ← validate_selector node eth_map raw
  ss ← validate_all node eth_map raws
  ok (s ∷ ss)

unfoldable pub selectors_of : Fields → EthMap → List Value → Result (List Selector)
selectors_of node eth_map raws = do
  objects ←
      or_raise (contract_error "routeSelectionRules entries must be objects") (all_objects raws)
  validate_all node eth_map objects

unfoldable pub render_relation_selection_rules : Fields → EthMap → Result (List String)
render_relation_selection_rules node eth_map = do
  raws ←
      or_raise (contract_error "routeSelectionRules must be an array")
        (as_list (get_or (arr nil) "routeSelectionRules" node))
  selectors ← selectors_of node eth_map raws
  _ ← validate_direction_pairs selectors
  ok (push_all_new [] (map rule_command selectors))
