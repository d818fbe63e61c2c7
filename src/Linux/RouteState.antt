-- ===== src/Linux/RouteState.antt =====
-- clabgen/s88/CM/linux_route_state.py: the networks and the addresses that a node has itself.
pub mod Laws
use network_renderer_contain.Prelude.{
  String, Bool, true, false, Option, none, some, List, [], ◌∷◌, ◌==◌, string_eq, if◌then◌else◌,
  push_new,
}
use network_renderer_contain.Py.Value.{Value, Fields, obj, end, str, get, get_or, as_dict, text_of}
use network_renderer_contain.Py.Result.{
  Result, ok, err, value_error, attribute_error, type_error, ◌>>=◌, ◌>>◌, or_raise,
}
use network_renderer_contain.Py.Ip.{Interface, network_of, ip_of}
use network_renderer_contain.Py.Ip.Parse.{ip_interface, print, print_network}
use network_renderer_contain.Linux.Addressing.{
  canon_v6, normalize_l3_addr, conflicts_with_wan_peer, interfaces_of,
}

-- A set of texts, in the order in which they came.
abbrev pub Texts : Type 0
Texts = List String

-- `str(ip_interface(text).network)`, and `.ip`
unfoldable pub network_text : String → Result String
network_text s = do
  i ← or_raise (value_error "malformed address") (ip_interface s)
  ok (print_network (network_of i))

unfoldable pub ip_text : String → Result String
ip_text s = do i ← or_raise (value_error "malformed address") (ip_interface s); ok (print (ip_of i))

-- The text `f` of an address that is not a WAN peer's joins the set.
unfoldable pub add_text : Fields → String → (String → Result String) → String → Texts → Result Texts
add_text node ifname f s texts = do
  conflict ← conflicts_with_wan_peer node ifname (str s)
  if conflict then ok texts else do t ← f s; ok (push_new texts t)

-- The body of a loop for one address of an interface, where it is there.
unfoldable pub add_address :
    Fields → String → (String → Result String) → Value → Texts → Result Texts
add_address node ifname f addr texts = elim (text_of addr) [
  | none ↦ ok texts
  | some s ↦ add_text node ifname f s texts
]

-- The same for the loopback, which cannot conflict.
unfoldable pub add_loopback : (String → Result String) → Value → Texts → Result Texts
add_loopback f addr texts = elim (text_of addr) [
  | none ↦ ok texts
  | some s ↦ do t ← f s; ok (push_new texts t)
]

unfoldable pub with_loopback :
    (String → Result String)
    → (String → Result String)
    → Option Fields
    → Texts × Texts
    → Result (Texts × Texts)
with_loopback f g none sets = ok sets
with_loopback f g (some loopback) sets = do
  next4 ← add_loopback f (get "ipv4" loopback) sets.0
  next6 ← add_loopback g (get "ipv6" loopback) sets.1
  ok (next4, next6)

-- `iface.get(...)` on what is no object
abbrev pub as_iface : Value → Result Fields
as_iface v = or_raise (attribute_error "interface has no attribute 'get'") (as_dict v)

abbrev pub loopback_of : Fields → Option Fields
loopback_of node = as_dict (get_or (obj end) "loopback" node)

unfoldable pub connected_in :
    Fields → List (String × Value) → Texts → Texts → Result (Texts × Texts)
connected_in node [] connected4 connected6 = ok (connected4, connected6)
connected_in node ((ifname, value) ∷ rest) connected4 connected6 = do
  iface ← as_iface value
  next4 ← add_address node ifname network_text (get "addr4" iface) connected4
  next6 ← add_address node ifname network_text (get "addr6" iface) connected6
  connected_in node rest next4 next6

-- `_connected_prefixes`
unfoldable pub connected_prefixes : Fields → Result (Texts × Texts)
connected_prefixes node = do
  interfaces ← interfaces_of node
  sets ← connected_in node interfaces [] []
  with_loopback network_text network_text (loopback_of node) sets

abbrev pub ip4_text : Fields → String → Result String
ip4_text iface s = do addr ← normalize_l3_addr s iface; ip_text addr

abbrev pub ip6_text : Fields → String → Result String
ip6_text iface s = do addr ← normalize_l3_addr (canon_v6 s) iface; ip_text addr

abbrev pub canon_text : String → Result String
canon_text s = ip_text (canon_v6 s)

unfoldable pub local_in : Fields → List (String × Value) → Texts → Texts → Result (Texts × Texts)
local_in node [] local4 local6 = ok (local4, local6)
local_in node ((ifname, value) ∷ rest) local4 local6 = do
  iface ← as_iface value
  next4 ← add_address node ifname (ip4_text iface) (get "addr4" iface) local4
  next6 ← add_address node ifname (ip6_text iface) (get "addr6" iface) local6
  both6 ← add_address node ifname canon_text (get "ll6" iface) next6
  local_in node rest next4 both6

-- `_local_ips`
unfoldable pub local_ips : Fields → Result (Texts × Texts)
local_ips node = do
  interfaces ← interfaces_of node
  sets ← local_in node interfaces [] []
  with_loopback ip_text canon_text (loopback_of node) sets
