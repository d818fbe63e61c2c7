-- ===== src/Linux/UplinkRoutes/Laws.antt =====
-- The commands of the uplink routes: none twice, and each one renders an uplink route of an
-- interface that has a device.
use mathlib.Core.Path.{subst}
use network_renderer_contain.Prelude.{
  lookup, String, ◌≡◌, ◌≢◌, ap, ◌∙◌, Has, ◌⊎◌, refl, true, not, ◌||◌, some, List, [], ◌∷◌,
  string_eq, All, all_distinct, push_new, push_new-distinct, push_new-All, arith, Bool-cases,
  Option-cases, inl, inr, map,
}
use network_renderer_contain.Py.Value.{Value, null, obj, as_dict, Fields, get, is_str, truthy}
use network_renderer_contain.Py.Result.{ok_inj, ok, or_raise-eq-ok, >>=-eq-ok, Result-cases}
use network_renderer_contain.Py.Sort.{sorted}
use network_renderer_contain.Linux.Addressing.{interfaces_of}
use network_renderer_contain.Linux.RouteValues.{route_lists, dst}
use network_renderer_contain.Linux.RouteState.{as_iface}
use network_renderer_contain.Linux.UplinkRoutes.{
  EthMap, Side, side4, side6, route_command, family_routes, device_routes, interface_routes,
  uplink_in, at_name, key, render_uplink_routes,
}

-- What a command renders.
pub record IsUplink (node : Fields) (eth_map : EthMap) (c : String) : Type 0 where
  pub side : Side
  pub routes : List Fields × List Fields
  pub route : Fields
  pub one_of : ((side ≡ side4) × Has route routes.0) ⊎ ((side ≡ side6) × Has route routes.1)
  pub interfaces : List (String × Value)
  pub of_node : interfaces_of node ≡ ok interfaces
  pub ifname : String
  pub eth : String
  pub iface : Fields
  pub named : lookup ifname interfaces ≡ some (obj iface)
  pub listed : route_lists iface ≡ ok routes
  pub via : Value
  pub device : lookup ifname eth_map ≡ some eth
  pub uplink : is_str "uplink" (get "proto" route) ≡ true
  pub next_hop : side.via node iface route ≡ ok via
  pub has_via : truthy via ≡ true
  pub has_dst : truthy (dst route) ≡ true
  pub command : c ≡ route_command side (dst route) via eth

obj_of : (v : Value) (fs : Fields) → as_dict v ≡ some fs → v ≡ obj fs
obj_of (obj gs) fs h = cc
obj_of _ fs h = cc

no_interface : (iface : Fields) → as_iface null ≢ ok iface
no_interface iface e = cc

-- The interface of a name is the one that the node has under it.
at_name-eq :
    (interfaces : List (String × Value)) (ifname : String) (iface : Fields)
    → as_iface (at_name ifname interfaces) ≡ ok iface
    → lookup ifname interfaces ≡ some (obj iface)
at_name-eq interfaces ifname iface h = elim (Option-cases (lookup ifname interfaces)) [
  | inl missing ↦ absurd (no_interface iface (rw (missing, at_name) at h))
  | inr (v, found) ↦
      found ∙ ap some (obj_of v iface (or_raise-eq-ok _ _ _ (rw (found, at_name) at h)))
]

abbrev IsGood : Fields → EthMap → List String → Type 0
IsGood node eth_map cmds = (all_distinct cmds ≡ true) × All (IsUplink node eth_map) cmds

module _ (node : Fields) (eth_map : EthMap) where
  push-IsGood :
      (cmds : List String) (c : String)
      → IsGood node eth_map cmds
      → IsUplink node eth_map c
      → IsGood node eth_map (push_new cmds c)
  push-IsGood cmds c (d, p) u =
      (push_new-distinct cmds c d, push_new-All (IsUplink node eth_map) cmds c p u)

  module _ (interfaces : List (String × Value)) (of_node : interfaces_of node ≡ ok interfaces)
      (ifname eth : String) (iface : Fields) (all_routes : List Fields × List Fields)
      (device : lookup ifname eth_map ≡ some eth)
      (named : lookup ifname interfaces ≡ some (obj iface))
      (listed : route_lists iface ≡ ok all_routes) where
    abbrev IsOneOf : Side → Fields → Type 0
    IsOneOf side route =
        ((side ≡ side4) × Has route all_routes.0) ⊎ ((side ≡ side6) × Has route all_routes.1)

    family_routes-IsGood :
        (side : Side) (routes : List Fields) (cmds out : List String)
        → ((r : Fields) → Has r routes → IsOneOf side r)
        → family_routes side node iface eth routes cmds ≡ ok out
        → IsGood node eth_map cmds
        → IsGood node eth_map out
    unfolding family_routes
    family_routes-IsGood side [] cmds out within h g = rw (← ok_inj _ _ h) g
    family_routes-IsGood side (route ∷ routes) cmds out within h g =
        let later : ((r : Fields) → Has r routes → IsOneOf side r) = λ r m. within r (inr m) in
        elim (Bool-cases (is_str "uplink" (get "proto" route))) [
          | inr plain ↦ family_routes-IsGood side routes cmds out later (ground arith) g
          | inl uplink ↦ elim (Result-cases (side.via node iface route)) [
            | inr (_, e) ↦ absurd (ground arith)
            | inl (via, e) ↦ elim (Bool-cases (not (truthy via) || not (truthy (dst route)))) [
              | inl skip ↦ family_routes-IsGood side routes cmds out later (ground arith) g
              | inr take ↦
                  family_routes-IsGood side routes
                    (push_new cmds (route_command side (dst route) via eth)) out later
                    (ground arith)
                    (push-IsGood cmds (route_command side (dst route) via eth) g (record {
                      side = side;
                      routes = all_routes;
                      route = route;
                      one_of = within route (inl refl);
                      interfaces = interfaces;
                      of_node = of_node;
                      ifname = ifname;
                      eth = eth;
                      iface = iface;
                      named = named;
                      listed = listed;
                      via = via;
                      device = device;
                      uplink = uplink;
                      next_hop = e;
                      has_via = ground arith;
                      has_dst = ground arith;
                      command = refl;
                    }))
            ]
          ]
        ]

    both_families-IsGood :
        (cmds cmds4 out : List String)
        → family_routes side4 node iface eth all_routes.0 cmds ≡ ok cmds4
        → family_routes side6 node iface eth all_routes.1 cmds4 ≡ ok out
        → IsGood node eth_map cmds
        → IsGood node eth_map out
    both_families-IsGood cmds cmds4 out h4 h6 g =
        family_routes-IsGood side6 all_routes.1 cmds4 out (λ r m. inr (refl, m)) h6
          (family_routes-IsGood side4 all_routes.0 cmds cmds4 (λ r m. inl (refl, m)) h4 g)

  module _ (interfaces : List (String × Value)) (of_node : interfaces_of node ≡ ok interfaces) where
    on_device :
        (ifname eth : String) (cmds out : List String)
        → lookup ifname eth_map ≡ some eth
        → device_routes node eth (at_name ifname interfaces) cmds ≡ ok out
        → IsGood node eth_map cmds
        → IsGood node eth_map out
    unfolding device_routes
    on_device ifname eth cmds out device h g =
        let (iface, is_iface, h₁) = >>=-eq-ok (as_iface (at_name ifname interfaces)) _ h in
        let (routes, listed, h₂) = >>=-eq-ok (route_lists iface) _ h₁ in
        let (cmds4, e, h₃) = >>=-eq-ok (family_routes side4 node iface eth routes.0 cmds) _ h₂ in
        both_families-IsGood interfaces of_node ifname eth iface routes device
          (at_name-eq interfaces ifname iface is_iface) listed cmds cmds4 out e h₃ g

    interface_routes-IsGood :
        (ifname : String) (cmds out : List String)
        → interface_routes node eth_map ifname (at_name ifname interfaces) cmds ≡ ok out
        → IsGood node eth_map cmds
        → IsGood node eth_map out
    unfolding interface_routes
    interface_routes-IsGood ifname cmds out h g = elim (Option-cases (lookup ifname eth_map)) [
      | inl e ↦ subst (IsGood node eth_map) (ground arith) g
      | inr (eth, device) ↦ on_device ifname eth cmds out device (ground arith) g
    ]

    uplink_in-IsGood :
        (names cmds out : List String)
        → uplink_in node eth_map interfaces names cmds ≡ ok out
        → IsGood node eth_map cmds
        → IsGood node eth_map out
    unfolding uplink_in
    uplink_in-IsGood [] cmds out h g = rw (← ok_inj _ _ h) g
    uplink_in-IsGood (ifname ∷ names) cmds out h g =
        let (next, e, h₁) =
          >>=-eq-ok (interface_routes node eth_map ifname (at_name ifname interfaces) cmds) _ h in
        uplink_in-IsGood names next out h₁ (interface_routes-IsGood ifname cmds next e g)

-- The uplink commands that are rendered are all different, and each one is the route command of an
-- uplink route with a next hop and a destination, which an interface of the node lists for that
-- family, on the device of that interface.
pub render_uplink_routes-IsUplink :
    (node : Fields) (eth_map : EthMap) (out : List String)
    → render_uplink_routes node eth_map ≡ ok out
    → (all_distinct out ≡ true) × All (IsUplink node eth_map) out
unfolding render_uplink_routes
render_uplink_routes-IsUplink node eth_map out h =
    let (interfaces, of_node, h₁) = >>=-eq-ok (interfaces_of node) _ h in
    uplink_in-IsGood node eth_map interfaces of_node (sorted (map key interfaces)) [] out h₁
      (refl, tt)
