-- ===== src/Linux/Addressing.antt =====
-- clabgen/s88/CM/linux_addressing.py: the addresses of an interface's network.
pub mod Peers
pub mod Hosts
use network_renderer_contain.Prelude.{
  ℕ, ◌+◌, ◌-◌, ◌^◌, String, Bool, true, false, ◌&&◌, ◌||◌, not, Option, none, some, List, [], ◌∷◌,
  ◌==◌, nat_eq, string_eq, leb, ltb, if◌then◌else◌,
}
use network_renderer_contain.Py.Value.{
  Value, Fields, str, obj, get, get_or, is_true, is_str, as_dict, truthy, entries, text_of,
}
use network_renderer_contain.Py.Result.{
  Result, ok, err, value_error, attribute_error, type_error, ◌>>=◌, or_raise,
}
use network_renderer_contain.Py.Ip.{
  Family, v4, v6, Address, Interface, Network, network_of, ip_of, contains, broadcast,
  num_addresses,
}
use network_renderer_contain.Py.Ip.Parse.{
  ip_interface, interface_v6, print, print_prefix, print_interface,
}

-- `_is_virtual_interface`
unfoldable pub is_virtual_interface : Fields → Bool
is_virtual_interface iface =
    is_true (get "virtual" iface)
    || is_true (get "logical" iface)
    || is_str "logical" (get "type" iface)
    || is_str "logical" (get "carrier" iface)

-- `_canon_v6`
unfoldable pub canon_v6 : String → String
canon_v6 addr = elim (interface_v6 addr) [ none ↦ addr | some i ↦ print_interface i ]

-- `iface.ip == iface.network.network_address`
abbrev pub is_base : Interface → Bool
is_base i = i.number == (network_of i).base

-- `_is_network_address`
unfoldable pub is_network_address : String → Bool
is_network_address addr = elim (ip_interface addr) [ none ↦ false | some i ↦ is_base i ]

-- A network of one or two addresses, which has no address of its own to spare.
abbrev pub is_small : Network → Bool
is_small n = elim n.family [ v4 ↦ leb 31 n.prefix | v6 ↦ leb 127 n.prefix ]

abbrev pub nth : Network → ℕ → Address
nth n k = record { family = n.family; number = n.base + k }

-- `_first_usable_host`, on an address that is read
unfoldable pub first_usable : Interface → Address
first_usable i =
    if is_small (network_of i)
    then ip_of i
    else if contains (network_of i) (nth (network_of i) 1)
    then nth (network_of i) 1
    else ip_of i

unfoldable pub first_usable_host : String → Result String
first_usable_host addr = do
  iface ← or_raise (value_error "not an interface address") (ip_interface addr)
  ok (print_prefix (first_usable iface) iface.prefix)

-- `_normalize_l3_addr`, on a text
unfoldable pub normalize_l3_addr : String → Fields → Result String
normalize_l3_addr addr iface =
    if addr == ""
    then ok addr
    else if is_str "tenant" (get "kind" iface) && is_network_address addr
    then first_usable_host addr
    else ok addr

-- A network of exactly two addresses.
unfoldable pub is_pair : Network → Bool
is_pair n = elim n.family [ v4 ↦ n.prefix == 31 | v6 ↦ n.prefix == 127 ]

abbrev pub other_end : Interface → Address
other_end i = let n = network_of i in if i.number == n.base then nth n 1 else nth n 0

-- `_p2p_peer`, on an address that is read
unfoldable pub p2p_address : Interface → Option Address
p2p_address i = if is_pair (network_of i) then some (other_end i) else none

abbrev printed : Option Address → Option String
printed none = none
printed (some a) = some (print a)

unfoldable pub p2p_peer : String → Option String
p2p_peer addr = elim (ip_interface addr) [ none ↦ none | some i ↦ printed (p2p_address i) ]

-- `_addr_ip`
unfoldable pub addr_ip : Value → Option String
addr_ip addr = elim (text_of addr) [
  | none ↦ none
  | some s ↦ elim (ip_interface s) [ none ↦ none | some i ↦ some (print (ip_of i)) ]
]

-- The first address from this place in the network on that is not the interface's own.
unfoldable pub candidate : Interface → ℕ → Address
candidate i k = let n = network_of i in if n.base + k == i.number then nth n (k + 1) else nth n k

-- `_peer_in_subnet`, on an address that is read
unfoldable pub peer_address : Interface → Option Address
peer_address i =
    let n = network_of i in
    let above = candidate i 1 in
    let pair = candidate i 0 in
    if leb (num_addresses n) 1 then none else elim n.family [
      | v4 ↦
          if ltb n.prefix 31
          then (if ltb above.number (broadcast n) then some above else none)
          else if contains n pair
          then some pair
          else none
      | v6 ↦
          if ltb n.prefix 127
          then (if contains n above then some above else none)
          else if contains n pair
          then some pair
          else none
    ]

-- A text that is no address raises here.
unfoldable pub peer_in_subnet : Value → Result (Option String)
peer_in_subnet cidr = elim (text_of cidr) [
  | none ↦ ok none
  | some s ↦ elim (ip_interface s) [
    | none ↦ err (value_error "not an interface address")
    | some i ↦ ok (printed (peer_address i))
  ]
]

-- `(node.get("interfaces", {}) or {}).items()`
unfoldable pub interfaces_of : Fields → Result (List (String × Value))
interfaces_of node =
    if truthy (get "interfaces" node)
    then elim (as_dict (get "interfaces" node)) [
      | none ↦ err (attribute_error "interfaces have no attribute 'items'")
      | some fs ↦ ok (entries fs)
    ]
    else ok []

abbrev is_peer : String → Option String → Bool
is_peer ip none = false
is_peer ip (some peer) = ip == peer

-- One other interface: only a WAN interface's peers count.
unfoldable pub is_wan_peer : String → Value → Result Bool
is_wan_peer ip other = elim (as_dict other) [
  | none ↦ ok false
  | some iface ↦
      if is_str "wan" (get "kind" iface)
      then (do
        peer4 ← peer_in_subnet (get "addr4" iface)
        peer6 ← peer_in_subnet (get "addr6" iface)
        ok (is_peer ip peer4 || is_peer ip peer6))
      else ok false
]

-- The loop of `_conflicts_with_wan_peer`, which ends at the first peer with this address.
unfoldable pub conflicts_in : String → String → List (String × Value) → Result Bool
conflicts_in ifname ip [] = ok false
conflicts_in ifname ip ((other, iface) ∷ rest) =
    let later = conflicts_in ifname ip rest in
    if other == ifname
    then later
    else do found ← is_wan_peer ip iface; if found then ok true else later

unfoldable pub conflicts_with_wan_peer : Fields → String → Value → Result Bool
conflicts_with_wan_peer node ifname addr = elim (addr_ip addr) [
  | none ↦ ok false
  | some ip ↦ interfaces_of node >>= conflicts_in ifname ip
]
