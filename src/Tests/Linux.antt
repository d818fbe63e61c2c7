-- ===== src/Tests/Linux.antt =====
-- Peers, hosts, next hops and uplink routes of a node with one uplink.
use mathlib.Core.Path.{subst}
use network_renderer_contain.Prelude.{
  ◌+◌, ◌*◌, ◌^◌, ◌≤◌, ◌<◌, ◌⊎◌, ap, sym, ◌∙◌, String, ◌≡◌, ◌≢◌, refl, true, some, List, [], ◌∷◌,
  all_distinct, All, inl, arith, eq_iff, string_eq,
}
use network_renderer_contain.Py.Value.{Value, str, obj, Fields, get}
use network_renderer_contain.Py.Result.{ok}
use network_renderer_contain.Py.Ip.{
  v4, v6, num_addresses, Address, Interface, IsInterface, width, network_of, contains, ip_of,
}
use network_renderer_contain.Py.Ip.Parse.{ip_interface, print}
use network_renderer_contain.Py.Ip.Coerce.{interface_of, address_of}
use network_renderer_contain.Linux.Addressing.{
  peer_in_subnet, peer_address, p2p_address, first_usable, interfaces_of,
}
use network_renderer_contain.Linux.Addressing.Peers.{
  IsPeer, peer_address_total, peer_in_subnet_total,
}
use network_renderer_contain.Linux.Addressing.Hosts.{at, p2p_address_involution, first_usable_least}
use network_renderer_contain.Linux.RouteState.Laws.{Own4, Own6}
use network_renderer_contain.Linux.RouteVia.{effective_via4, effective_via6}
use network_renderer_contain.Linux.RouteVia.Laws.{
  effective_via4-ne-own, effective_via6-ne-own_address, effective_via4-inside,
}
use network_renderer_contain.Linux.UplinkRoutes.{EthMap, render_uplink_routes}
use network_renderer_contain.Linux.UplinkRoutes.Laws.{IsUplink, render_uplink_routes-IsUplink}
use network_renderer_contain.Tests.{dict, object, array}

abbrev interface_text : String
interface_text = "10.0.0.1/31"

-- 10.0.0.1/31
abbrev end_point : Interface
end_point = record { family = v4; number = 167772161; prefix = 31 }

end_point-IsInterface : IsInterface end_point
end_point-IsInterface = record { fits = omega arith; prefix_le = omega arith }

peer_address_total_example : (a : Address) × (peer_address end_point ≡ some a) × IsPeer end_point a
peer_address_total_example = peer_address_total end_point end_point-IsInterface (omega arith)

text_filled : interface_text ≢ ""
text_filled = λ e. ground (arith, eq_iff interface_text "")

text_read : ip_interface interface_text ≡ some end_point
unfolding ip_interface
text_read = refl

peer_in_subnet_total_example :
    (a : Address) × (peer_in_subnet (str interface_text) ≡ ok (some (print a))) × IsPeer end_point a
peer_in_subnet_total_example =
    peer_in_subnet_total interface_text end_point text_filled text_read (omega arith)

abbrev far_end : Address
far_end = record { family = v4; number = 167772160 }

p2p_runs : p2p_address end_point ≡ some far_end
unfolding p2p_address network_renderer_contain.Linux.Addressing.is_pair network_of
    network_renderer_contain.Py.Ip.masked
p2p_runs = refl

p2p_address_involution_example : p2p_address (at end_point far_end) ≡ some (ip_of end_point)
p2p_address_involution_example =
    p2p_address_involution end_point far_end end_point-IsInterface p2p_runs

-- 10.0.0.4/29 and 10.0.0.3
abbrev host : Interface
host = record { family = v4; number = 167772164; prefix = 29 }

host-IsInterface : IsInterface host
host-IsInterface = record { fits = omega arith; prefix_le = omega arith }

abbrev other : Address
other = record { family = v4; number = 167772163 }

other_inside : contains (network_of host) other ≡ true
unfolding contains network_of network_renderer_contain.Py.Ip.masked
other_inside = refl

other_host : other.number ≢ (network_of host).base
unfolding network_of network_renderer_contain.Py.Ip.masked
other_host = λ e. omega (arith, e)

first_usable_least_example :
    (contains (network_of host) (first_usable host) ≡ true)
    × (((num_addresses (network_of host) ≤ 2) × (first_usable host ≡ ip_of host))
        ⊎ ((2 < num_addresses (network_of host))
            × ((first_usable host).number ≢ (network_of host).base)
            × ((first_usable host).number ≤ other.number)))
first_usable_least_example = first_usable_least host other host-IsInterface other_inside other_host

abbrev route4 : Fields
route4 =
    dict (("dst", str "0.0.0.0/0") ∷ (("via4", str "10.0.0.0") ∷ (("proto", str "uplink") ∷ [])))

abbrev route6 : Fields
route6 = dict (("dst", str "::/0") ∷ (("via6", str "fd00::2") ∷ (("proto", str "uplink") ∷ [])))

abbrev wan : Fields
wan = dict (
    ("addr4", str interface_text)
    ∷ (("addr6", str "fd00::3/127")
        ∷ ((
          "routes",
          object (("ipv4", array (obj route4 ∷ [])) ∷ (("ipv6", array (obj route6 ∷ [])) ∷ [])),
        )
            ∷ [])))

abbrev node : Fields
node = dict (("interfaces", object (("wan", obj wan) ∷ [])) ∷ [])

abbrev interfaces : List (String × Value)
interfaces = ("wan", obj wan) ∷ []

via4_runs : effective_via4 node wan route4 ≡ ok (str "10.0.0.0")
unfolding effective_via4 network_renderer_contain.Linux.Addressing.conflicts_with_wan_peer
    network_renderer_contain.Linux.Addressing.addr_ip ip_interface interfaces_of
    network_renderer_contain.Linux.Addressing.conflicts_in
    network_renderer_contain.Linux.Addressing.normalize_l3_addr
    network_renderer_contain.Linux.RouteState.ip_text print
    network_renderer_contain.Linux.RouteState.local_ips
    network_renderer_contain.Linux.RouteState.local_in
    network_renderer_contain.Linux.RouteState.add_address
    network_renderer_contain.Linux.RouteState.add_text
    network_renderer_contain.Linux.Addressing.canon_v6
    network_renderer_contain.Py.Ip.Parse.print_prefix
    network_renderer_contain.Linux.RouteState.with_loopback
    network_renderer_contain.Linux.RouteState.add_loopback
    network_renderer_contain.Linux.RouteVia.effective
    network_renderer_contain.Linux.RouteVia.first_choice
    network_renderer_contain.Linux.RouteVia.is_in
    network_renderer_contain.Linux.RouteVia.second_choice
    network_renderer_contain.Linux.RouteVia.accept
    network_renderer_contain.Linux.RouteVia.same_subnet interface_of address_of
    network_renderer_contain.Py.Ip.Parse.ip_address
    network_renderer_contain.Linux.Addressing.candidate first_usable
    network_renderer_contain.Linux.Addressing.first_usable_host
    network_renderer_contain.Linux.Addressing.is_network_address
    network_renderer_contain.Linux.Addressing.is_wan_peer peer_address peer_in_subnet
    network_renderer_contain.Py.Ip.Parse.interface_v4
    network_renderer_contain.Py.Ip.Parse.interface_v6 contains network_renderer_contain.Py.Ip.masked
    network_of network_renderer_contain.Py.Text.concat network_renderer_contain.Py.Text.dec
    network_renderer_contain.Py.Text.digits network_renderer_contain.Py.Text.hex
    network_renderer_contain.Py.Text.hex_value network_renderer_contain.Py.Text.join
    network_renderer_contain.Py.Text.number network_renderer_contain.Py.Text.number_from
    network_renderer_contain.Py.Text.split_on network_renderer_contain.Py.Text.split_once
via4_runs = refl

via6_runs : effective_via6 node wan route6 ≡ ok (str "fd00::2")
unfolding effective_via6 network_renderer_contain.Linux.RouteState.local_ips interfaces_of
    network_renderer_contain.Linux.RouteState.local_in
    network_renderer_contain.Linux.RouteState.add_address
    network_renderer_contain.Linux.RouteState.add_text
    network_renderer_contain.Linux.Addressing.conflicts_with_wan_peer
    network_renderer_contain.Linux.Addressing.addr_ip ip_interface
    network_renderer_contain.Linux.Addressing.conflicts_in
    network_renderer_contain.Linux.Addressing.normalize_l3_addr
    network_renderer_contain.Linux.RouteState.ip_text
    network_renderer_contain.Linux.Addressing.canon_v6
    network_renderer_contain.Py.Ip.Parse.print_prefix
    network_renderer_contain.Linux.RouteState.with_loopback
    network_renderer_contain.Linux.RouteState.add_loopback
    network_renderer_contain.Linux.RouteVia.effective
    network_renderer_contain.Linux.RouteVia.first_choice
    network_renderer_contain.Linux.Addressing.candidate first_usable
    network_renderer_contain.Linux.Addressing.first_usable_host
    network_renderer_contain.Linux.Addressing.is_network_address
    network_renderer_contain.Linux.Addressing.is_wan_peer peer_address peer_in_subnet
    network_renderer_contain.Linux.RouteVia.accept network_renderer_contain.Linux.RouteVia.is_in
    network_renderer_contain.Linux.RouteVia.same_subnet
    network_renderer_contain.Linux.RouteVia.second_choice address_of interface_of
    network_renderer_contain.Py.Ip.Parse.interface_v4
    network_renderer_contain.Py.Ip.Parse.interface_v6
    network_renderer_contain.Py.Ip.Parse.ip_address print contains
    network_renderer_contain.Py.Ip.masked network_of network_renderer_contain.Py.Text.concat
    network_renderer_contain.Py.Text.dec network_renderer_contain.Py.Text.digits
    network_renderer_contain.Py.Text.hex network_renderer_contain.Py.Text.hex_value
    network_renderer_contain.Py.Text.join network_renderer_contain.Py.Text.number
    network_renderer_contain.Py.Text.number_from network_renderer_contain.Py.Text.split_on
    network_renderer_contain.Py.Text.split_once
via6_runs = refl

interfaces_runs : interfaces_of node ≡ ok interfaces
unfolding interfaces_of
interfaces_runs = refl

own4 : Own4 node "wan" wan "10.0.0.1"
unfolding network_renderer_contain.Linux.Addressing.conflicts_with_wan_peer
    network_renderer_contain.Linux.Addressing.addr_ip ip_interface interfaces_of
    network_renderer_contain.Linux.Addressing.conflicts_in
    network_renderer_contain.Linux.Addressing.normalize_l3_addr
    network_renderer_contain.Linux.RouteState.ip_text print
own4 = record {
  text = interface_text;
  is_text = refl;
  filled = text_filled;
  free = refl;
  gives = refl;
}

-- The peer is none of the node's own addresses.
effective_via4-ne-own_example : ¬ ◌≡◌ {A = String} "10.0.0.0" "10.0.0.1"
effective_via4-ne-own_example =
    effective_via4-ne-own node wan route4 wan interfaces "10.0.0.0" "wan" "10.0.0.1" via4_runs
      interfaces_runs (inl refl) own4

text6_filled : ¬ ◌≡◌ {A = String} "fd00::3/127" ""
text6_filled = λ e. ground (arith, eq_iff "fd00::3/127" "")

own6 : Own6 node "wan" wan "fd00::3"
unfolding network_renderer_contain.Linux.Addressing.conflicts_with_wan_peer
    network_renderer_contain.Linux.Addressing.addr_ip ip_interface interfaces_of
    network_renderer_contain.Linux.Addressing.conflicts_in
    network_renderer_contain.Linux.Addressing.normalize_l3_addr
    network_renderer_contain.Linux.Addressing.canon_v6
    network_renderer_contain.Py.Ip.Parse.print_prefix
    network_renderer_contain.Linux.RouteState.ip_text
own6 = inl (record {
  text = "fd00::3/127";
  is_text = refl;
  filled = text6_filled;
  free = refl;
  gives = refl;
})

abbrev peer6 : Address
peer6 = record { family = v6; number = 253 * 2 ^ 120 + 2 }

abbrev self6 : Address
self6 = record { family = v6; number = 253 * 2 ^ 120 + 3 }

peer6_printed : print peer6 ≡ "fd00::2"
unfolding print
peer6_printed = refl

self6_printed : print self6 ≡ "fd00::3"
unfolding print
self6_printed = refl

effective_via6-ne-own_address_example : peer6 ≢ self6
effective_via6-ne-own_address_example =
    effective_via6-ne-own_address node wan route6 wan interfaces "wan" peer6 self6
      (via6_runs ∙ ap (λ s. ok (str s)) (sym peer6_printed)) interfaces_runs (inl refl)
      (subst (Own6 node "wan" wan) (sym self6_printed) own6)

effective_via4-inside_example :
    (i : Interface) × (a : Address) × (interface_of (get "addr4" wan) ≡ some i)
    × (address_of (str "10.0.0.0") ≡ some a)
    × (contains (network_of i) a ≡ true)
effective_via4-inside_example = effective_via4-inside node wan route4 "10.0.0.0" via4_runs refl

abbrev devices : EthMap
devices = ("wan", "eth1") ∷ []

abbrev commands : List String
commands =
    "ip route replace default via 10.0.0.0 dev eth1 onlink"
    ∷ ("ip -6 route replace default via fd00::2 dev eth1 onlink" ∷ [])

uplink_runs : render_uplink_routes node devices ≡ ok commands
unfolding render_uplink_routes interfaces_of network_renderer_contain.Linux.UplinkRoutes.uplink_in
    network_renderer_contain.Py.Sort.sorted
    network_renderer_contain.Linux.UplinkRoutes.interface_routes
    network_renderer_contain.Linux.UplinkRoutes.device_routes
    network_renderer_contain.Linux.RouteValues.route_lists
    network_renderer_contain.Linux.UplinkRoutes.family_routes
    network_renderer_contain.Linux.RouteValues.dicts effective_via4
    network_renderer_contain.Linux.RouteState.local_ips
    network_renderer_contain.Linux.RouteState.local_in
    network_renderer_contain.Linux.RouteState.add_address
    network_renderer_contain.Linux.RouteState.add_text
    network_renderer_contain.Linux.Addressing.conflicts_with_wan_peer
    network_renderer_contain.Linux.Addressing.addr_ip ip_interface
    network_renderer_contain.Linux.Addressing.candidate
    network_renderer_contain.Linux.Addressing.canon_v6
    network_renderer_contain.Linux.Addressing.conflicts_in first_usable
    network_renderer_contain.Linux.Addressing.first_usable_host
    network_renderer_contain.Linux.Addressing.is_network_address
    network_renderer_contain.Linux.Addressing.is_wan_peer
    network_renderer_contain.Linux.Addressing.normalize_l3_addr peer_address peer_in_subnet
    network_renderer_contain.Linux.RouteState.add_loopback
    network_renderer_contain.Linux.RouteState.ip_text
    network_renderer_contain.Linux.RouteState.with_loopback
    network_renderer_contain.Linux.RouteValues.normalize_prefix
    network_renderer_contain.Linux.RouteValues.normalize_text
    network_renderer_contain.Linux.RouteVia.accept network_renderer_contain.Linux.RouteVia.effective
    effective_via6 network_renderer_contain.Linux.RouteVia.first_choice
    network_renderer_contain.Linux.RouteVia.is_in
    network_renderer_contain.Linux.RouteVia.same_subnet
    network_renderer_contain.Linux.RouteVia.second_choice
    network_renderer_contain.Linux.UplinkRoutes.route_command address_of interface_of
    network_renderer_contain.Py.Ip.Parse.interface_v4
    network_renderer_contain.Py.Ip.Parse.interface_v6
    network_renderer_contain.Py.Ip.Parse.ip_address network_renderer_contain.Py.Ip.Parse.ip_network
    print network_renderer_contain.Py.Ip.Parse.print_prefix contains
    network_renderer_contain.Py.Ip.masked network_of network_renderer_contain.Py.Repr.repr
    network_renderer_contain.Py.Repr.repr_chars network_renderer_contain.Py.Repr.repr_str
    network_renderer_contain.Py.Repr.show network_renderer_contain.Py.Sort.insert
    network_renderer_contain.Py.Text.concat network_renderer_contain.Py.Text.dec
    network_renderer_contain.Py.Text.dec_int network_renderer_contain.Py.Text.digits
    network_renderer_contain.Py.Text.grouped network_renderer_contain.Py.Text.has_sub
    network_renderer_contain.Py.Text.hex network_renderer_contain.Py.Text.hex_value
    network_renderer_contain.Py.Text.int_of network_renderer_contain.Py.Text.join
    network_renderer_contain.Py.Text.lstrip network_renderer_contain.Py.Text.number
    network_renderer_contain.Py.Text.number_from network_renderer_contain.Py.Text.rstrip_space
    network_renderer_contain.Py.Text.split_on network_renderer_contain.Py.Text.split_once
    network_renderer_contain.Py.Text.strip
uplink_runs = refl

render_uplink_routes-IsUplink_example :
    (all_distinct ⦃e = string_eq⦄ commands ≡ true) × All (IsUplink node devices) commands
render_uplink_routes-IsUplink_example =
    render_uplink_routes-IsUplink node devices commands uplink_runs
