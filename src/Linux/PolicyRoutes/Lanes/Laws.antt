-- ===== src/Linux/PolicyRoutes/Lanes/Laws.antt =====
-- Every interface with a device and a policy table has a lane.
use network_renderer_contain.Prelude.{
  String, true, ◌≡◌, refl, ap, sym, ◌∙◌, some, List, [], ◌∷◌, ◌==◌, string_eq, mem, lookup, Has,
  Has-append_left, Has-append_right, Bool-cases, inl, inr,
}
use network_renderer_contain.Py.Value.{Fields, as_dict}
use network_renderer_contain.Py.Result.{ok, >>=-eq-ok, ok_inj}
use network_renderer_contain.Linux.UplinkRoutes.{EthMap, at_name}
use network_renderer_contain.Linux.PolicyRoutes.{is_policy_routing_surface}
use network_renderer_contain.Linux.PolicyRoutes.Surfaces.{Interfaces, source_interfaces_for_lane}
use network_renderer_contain.Linux.PolicyRoutes.Collect.{policy_groups_for_lane}
use network_renderer_contain.Linux.PolicyRoutes.Rules.{
  Allocation, table_slot, policy_routing_allocation,
}
use network_renderer_contain.Linux.PolicyRoutes.Lanes.{Lane, make_lane, interface_lane, lanes_in}

-- The interface that a lane is made for, with the table that it is given for it.
pub record IsLane (node : Fields) (eth_map : EthMap) (interfaces : Interfaces) (ifname : String)
    (lane : Lane) : Type 0 where
  pub eth : String
  pub iface : Fields
  pub device : lookup ifname eth_map ≡ some eth
  pub is_iface : as_dict (at_name ifname interfaces) ≡ some iface
  pub surface : is_policy_routing_surface iface ≡ ok true
  pub allocation : Allocation
  pub allocated : policy_routing_allocation iface ≡ ok allocation
  pub table : lane.table_id ≡ allocation.table_id
  pub priority : lane.priority ≡ allocation.priority
  pub name : lane.lane_ifnames ≡ ifname ∷ []
  pub groups : policy_groups_for_lane node eth_map ifname iface ≡ ok (lane.routes4, lane.routes6)

module _ (node : Fields) (eth_map : EthMap) (interfaces : Interfaces) where
  make_lane-IsLane :
      (ifname : String) (iface : Fields) (eth : String) (lane : Lane)
      → lookup ifname eth_map ≡ some eth
      → as_dict (at_name ifname interfaces) ≡ some iface
      → is_policy_routing_surface iface ≡ ok true
      → make_lane node eth_map ifname iface eth ≡ ok lane
      → IsLane node eth_map interfaces ifname lane
  unfolding make_lane
  make_lane-IsLane ifname iface eth lane device is_iface surface h =
      let (groups, is_groups, h₁) =
        >>=-eq-ok (policy_groups_for_lane node eth_map ifname iface) _ h in
      let (slot, _, h₂) = >>=-eq-ok (table_slot eth_map eth) _ h₁ in
      let (allocation, allocated, h₃) = >>=-eq-ok (policy_routing_allocation iface) _ h₂ in
      let (sources, _, h₄) =
        >>=-eq-ok (source_interfaces_for_lane node eth_map ifname iface) _ h₃ in
      let same = sym (ok_inj _ _ h₄) in
      record {
        eth = eth;
        iface = iface;
        device = device;
        is_iface = is_iface;
        surface = surface;
        allocation = allocation;
        allocated = allocated;
        table = ap (λ l. l.table_id) same;
        priority = ap (λ l. l.priority) same;
        name = ap (λ l. l.lane_ifnames) same;
        groups = is_groups ∙ ap (λ l. ok (l.routes4, l.routes6)) (sym same);
      }

  -- An interface with a device and a policy table has its lane among those that are made.
  interface_lane-Has :
      (ifname : String) (iface : Fields) (eth : String) (lanes : List Lane)
      → lookup ifname eth_map ≡ some eth
      → as_dict (at_name ifname interfaces) ≡ some iface
      → is_policy_routing_surface iface ≡ ok true
      → interface_lane node eth_map interfaces ifname (lookup ifname eth_map) ≡ ok lanes
      → (lane : Lane) × Has lane lanes × IsLane node eth_map interfaces ifname lane
  unfolding interface_lane
  interface_lane-Has ifname iface eth lanes device is_iface surface h =
      let h' =
        rw (is_iface, surface) at
          (ap (λ d. interface_lane node eth_map interfaces ifname d) (sym device) ∙ h) in
      let (lane, made, h₁) = >>=-eq-ok (make_lane node eth_map ifname iface eth) _ h' in
      (
        lane,
        rw (sym (ok_inj _ _ h₁)) (inl refl),
        make_lane-IsLane ifname iface eth lane device is_iface surface made,
      )

  pub lanes_in-Has :
      (names : List String) (ifname : String) (iface : Fields) (eth : String) (lanes : List Lane)
      → mem ifname names ≡ true
      → lookup ifname eth_map ≡ some eth
      → as_dict (at_name ifname interfaces) ≡ some iface
      → is_policy_routing_surface iface ≡ ok true
      → lanes_in node eth_map interfaces names ≡ ok lanes
      → (lane : Lane) × Has lane lanes × IsLane node eth_map interfaces ifname lane
  unfolding lanes_in
  lanes_in-Has [] ifname iface eth lanes m device is_iface surface h = absurd (cc)
  lanes_in-Has (name ∷ names) ifname iface eth lanes m device is_iface surface h =
      let (here, first, h₁) =
        >>=-eq-ok (interface_lane node eth_map interfaces name (lookup name eth_map)) _ h in
      let (later, rest, h₂) = >>=-eq-ok (lanes_in node eth_map interfaces names) _ h₁ in
      let whole = ok_inj _ _ h₂ in
      elim (Bool-cases (ifname == name)) [
        | inl same ↦
            let is_name = (string_eq.eqb_iff ifname name).0 same in
            let first' =
              ap (λ n. interface_lane node eth_map interfaces n (lookup n eth_map)) is_name
              ∙ first in
            let (lane, has, is_lane) =
              interface_lane-Has ifname iface eth here device is_iface surface first' in
            (lane, rw (sym whole) (Has-append_left lane here later has), is_lane)
        | inr other ↦
            let (lane, has, is_lane) =
              lanes_in-Has names ifname iface eth later (rw other at m) device is_iface surface
                rest in
            (lane, rw (sym whole) (Has-append_right lane here later has), is_lane)
      ]
