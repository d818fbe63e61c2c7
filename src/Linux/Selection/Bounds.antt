-- ===== src/Linux/Selection/Bounds.antt =====
-- What a selector that is valid refers to.
use network_renderer_contain.Prelude.{
  ℕ, zero, suc, ◌<◌, String, ◌≡◌, ◌≢◌, refl, true, false, not, some, ◌==◌, nat_eq, arith, ltb→lt,
}
use network_renderer_contain.Py.Value.{Value, Fields, get, as_dict, is_num, is_str}
use network_renderer_contain.Py.Result.{
  ok_inj, or_raise-eq-ok, ok, contract_error, >>=-eq-ok, require, require-eq-ok, or_raise,
}
use network_renderer_contain.Py.Ip.{Family, same_family, Network}
use network_renderer_contain.Py.Ip.Parse.{ip_network, print_network}
use network_renderer_contain.Linux.UplinkRoutes.{EthMap}
use network_renderer_contain.Linux.Selection.{
  Match, Direction, Selector, non_empty_string, positive_int, prefix_network,
  interface_for_identity, check_allocation, check_route, selector_family, selector_direction,
  check_texts, bind_selector, validate_selector,
}

-- A text that stands for a network of the family, of which not every address is one.
pub record IsBounded (family : Family) (text : String) : Type 0 where
  pub network : Network
  pub printed : text ≡ print_network network
  pub of_family : same_family network.family family ≡ true
  pub no_default : network.prefix ≢ 0

-- The table of the selector is its policy interface's, and it comes before the interface's own rule.
pub record IsAllocated (node : Fields) (eth_map : EthMap) (raw : Fields) (s : Selector)
    : Type 0 where
  pub policy : Match
  pub allocation : Fields
  pub table_priority : ℕ
  pub resolved : interface_for_identity node eth_map (get "policyInterface" raw) ≡ ok policy
  pub allocated : as_dict (get "policyRoutingAllocation" policy.iface) ≡ some allocation
  pub of_table : is_num s.table_id (get "tableId" allocation) ≡ true
  pub of_priority : positive_int (get "tableRulePriority" allocation) ≡ ok table_priority
  pub before : s.priority < table_priority

non_zero : (n : ℕ) → not (n == 0) ≡ true → n ≢ 0
non_zero zero h = cc
non_zero (suc n) h = λ e. omega (arith, e)

prefix_network-bounded :
    (v : Value) (f : Family) (n : Network)
    → prefix_network v f ≡ ok n
    → (same_family n.family f ≡ true) × (n.prefix ≢ 0)
unfolding prefix_network
prefix_network-bounded v f n h =
    let (raw, _, h₁) = >>=-eq-ok (non_empty_string v) _ h in
    let (m, _, h₂) =
      >>=-eq-ok (or_raise (contract_error "must be a valid family prefix") (ip_network false raw)) _
        h₁ in
    let (u, e₃, h₃) = >>=-eq-ok (require (same_family m.family f) _) _ h₂ in
    let (w, e₄, h₄) = >>=-eq-ok (require (not (m.prefix == 0)) _) _ h₃ in
    let same = ok_inj m n h₄ in
    (
      rw (← same) (require-eq-ok _ _ u e₃),
      λ none_left. non_zero m.prefix (require-eq-ok _ _ w e₄) (rw same none_left),
    )

unit_of : (u : Unit {0}) → u ≡ tt
unit_of tt = refl

check_allocation-finds :
    (iface : Fields) (table_id priority : ℕ) (u : Unit {0})
    → check_allocation iface table_id priority ≡ ok u
    → (allocation : Fields) × (table_priority : ℕ) × (as_dict (get "policyRoutingAllocation" iface)
        ≡ some allocation)
      × (is_num table_id (get "tableId" allocation) ≡ true)
      × (positive_int (get "tableRulePriority" allocation) ≡ ok table_priority)
      × (priority < table_priority)
unfolding check_allocation
check_allocation-finds iface table_id priority u h =
    let (allocation, e₁, h₁) =
      >>=-eq-ok (or_raise _ (as_dict (get "policyRoutingAllocation" iface))) _ h in
    let (u₂, e₂, h₂) =
      >>=-eq-ok (require (is_str "control-plane-model" (get "source" allocation)) _) _ h₁ in
    let (u₃, e₃, h₃) = >>=-eq-ok (require (is_num table_id (get "tableId" allocation)) _) _ h₂ in
    let (table_priority, e₄, h₄) =
      >>=-eq-ok (positive_int (get "tableRulePriority" allocation)) _ h₃ in
    (
      allocation,
      table_priority,
      or_raise-eq-ok _ _ _ e₁,
      require-eq-ok _ _ u₃ e₃,
      e₄,
      ltb→lt priority table_priority (require-eq-ok _ _ u h₄),
    )

-- What `bind_selector` gives of its arguments.
pub record IsBound (node : Fields) (eth_map : EthMap) (raw : Fields) (s : Selector) : Type 0 where
  pub source_bounded : IsBounded s.family s.source
  pub destination_bounded : IsBounded s.family s.destination
  pub allocated : IsAllocated node eth_map raw s

bind_selector-IsBound :
    (node : Fields) (eth_map : EthMap) (raw : Fields) (d : Direction) (f : Family)
    (relation_id state_owner : String) (s : Selector)
    → bind_selector node eth_map raw d f relation_id state_owner ≡ ok s
    → IsBound node eth_map raw s
unfolding bind_selector
bind_selector-IsBound node eth_map raw d f relation_id state_owner s h =
    let (table_id, _, h₁) = >>=-eq-ok (positive_int (get "tableId" raw)) _ h in
    let (priority, _, h₂) = >>=-eq-ok (positive_int (get "priority" raw)) _ h₁ in
    let (_, _, h₃) = >>=-eq-ok (positive_int (get "relationPriority" raw)) _ h₂ in
    let (source, es, h₄) = >>=-eq-ok (prefix_network (get "sourcePrefix" raw) f) _ h₃ in
    let (destination, ed, h₅) = >>=-eq-ok (prefix_network (get "destinationPrefix" raw) f) _ h₄ in
    let (incoming, _, h₆) =
      >>=-eq-ok (interface_for_identity node eth_map (get "incomingInterface" raw)) _ h₅ in
    let (policy, ep, h₇) =
      >>=-eq-ok (interface_for_identity node eth_map (get "policyInterface" raw)) _ h₆ in
    let (u, ea, h₈) = >>=-eq-ok (check_allocation policy.iface table_id priority) _ h₇ in
    let (_, _, h₉) = >>=-eq-ok (check_route policy.iface f raw (print_network destination)) _ h₈ in
    let (fs, ns) = prefix_network-bounded (get "sourcePrefix" raw) f source es in
    let (fd, nd) = prefix_network-bounded (get "destinationPrefix" raw) f destination ed in
    let (allocation, table_priority, e₁, e₂, e₃, e₄) =
      check_allocation-finds policy.iface table_id priority u ea in
    rw (← ok_inj _ _ h₉) (record {
      source_bounded = record { network = source; printed = refl; of_family = fs; no_default = ns };
      destination_bounded = record {
        network = destination;
        printed = refl;
        of_family = fd;
        no_default = nd;
      };
      allocated = record {
        policy = policy;
        allocation = allocation;
        table_priority = table_priority;
        resolved = ep;
        allocated = e₁;
        of_table = e₂;
        of_priority = e₃;
        before = e₄;
      };
    })

-- A valid selector names two networks of its family, neither of them the default; its table is the
-- one that its policy interface allocates, and its priority is below that of the table's own rule.
pub validate_selector-IsBound :
    (node : Fields) (eth_map : EthMap) (raw : Fields) (s : Selector)
    → validate_selector node eth_map raw ≡ ok s
    → IsBound node eth_map raw s
unfolding validate_selector
validate_selector-IsBound node eth_map raw s h =
    let (_, _, h₁) =
      >>=-eq-ok (require (is_str "relation-policy-state-owner" (get "authority" raw)) _) _ h in
    let (family, _, h₂) = >>=-eq-ok (selector_family raw) _ h₁ in
    let (direction, _, h₃) = >>=-eq-ok (selector_direction raw) _ h₂ in
    let (_, _, h₄) = >>=-eq-ok (require (is_str "symmetric" (get "returnBehavior" raw)) _) _ h₃ in
    let (relation_id, _, h₅) = >>=-eq-ok (non_empty_string (get "relationId" raw)) _ h₄ in
    let (state_owner, _, h₆) = >>=-eq-ok (non_empty_string (get "policyStateOwner" raw)) _ h₅ in
    let (_, _, h₇) = >>=-eq-ok (check_texts raw) _ h₆ in
    bind_selector-IsBound node eth_map raw direction family relation_id state_owner s h₇
