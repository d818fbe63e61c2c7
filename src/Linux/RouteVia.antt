-- ===== src/Linux/RouteVia.antt =====
-- clabgen/s88/CM/linux_route_via.py: the next hop that a route is rendered with.
pub mod Laws
use network_renderer_contain.Prelude.{
  String, Bool, true, false, ◌&&◌, ◌||◌, not, Option, none, some, List, [], ◌∷◌, ◌==◌, string_eq,
  if◌then◌else◌, mem,
}
use network_renderer_contain.Py.Value.{
  Value, null, bool, int, str, arr, obj, Fields, get, is_str, truthy,
}
use network_renderer_contain.Py.Result.{Result, ok, err, type_error, ◌>>=◌}
use network_renderer_contain.Py.Ip.{Family, v4, v6, Address, Interface, network_of, contains}
use network_renderer_contain.Py.Ip.Coerce.{address_of, interface_of}
use network_renderer_contain.Linux.Addressing.{peer_in_subnet}
use network_renderer_contain.Linux.RouteValues.{via4, via6}
use network_renderer_contain.Linux.RouteState.{Texts, local_ips}

-- `_same_subnet`: what is no address is in no subnet
unfoldable pub same_subnet : Value → Value → Bool
same_subnet gateway iface_addr =
    if not (truthy gateway) || not (truthy iface_addr)
    then false
    else elim (interface_of iface_addr) [
      | none ↦ false
      | some i ↦ elim (address_of gateway) [ none ↦ false | some gw ↦ contains (network_of i) gw ]
    ]

-- `_route_via_is_local`
unfoldable pub route_via_is_local : Fields → Family → Texts → Texts → Bool
route_via_is_local route v4 local4 local6 = elim (via4 route) [ str s ↦ mem s local4 | _ ↦ false ]
route_via_is_local route v6 local4 local6 = elim (via6 route) [ str s ↦ mem s local6 | _ ↦ false ]

-- `via in local`, for a set of texts; lists and objects cannot be looked up.
unfoldable pub is_in : Value → Texts → Result Bool
is_in (str s) texts = ok (mem s texts)
is_in (arr xs) texts = err (type_error "unhashable type: 'list'")
is_in (obj fs) texts = err (type_error "unhashable type: 'dict'")
is_in _ texts = ok false

abbrev pub of_text : Option String → Value
of_text none = null
of_text (some s) = str s

abbrev pub peer_of : Value → Result Value
peer_of addr = do peer ← peer_in_subnet addr; ok (of_text peer)

-- The steps that the two functions share, for the next hop and the address of one family: an own
-- address is dropped, and an uplink without a next hop takes its peer.
unfoldable pub first_choice : Fields → Texts → Value → Value → Result Value
first_choice route locals start addr = do
  own ← is_in start locals
  let given = if own then null else start
  if not (truthy given) && is_str "uplink" (get "proto" route) then peer_of addr else ok given

-- An own address is replaced by the peer.
unfoldable pub second_choice : Texts → Value → Value → Result Value
second_choice locals via addr = do own ← is_in via locals; if own then peer_of addr else ok via

-- What is still an own address, or out of reach, is no next hop.
unfoldable pub accept : Fields → Texts → Value → Value → Result Value
accept iface locals via addr = do
  own ← is_in via locals
  ok (
      if own
      then null
      else if is_str "overlay" (get "kind" iface)
      then via
      else if same_subnet via addr
      then via
      else null)

unfoldable pub effective : Fields → Fields → Texts → Value → Value → Result Value
effective iface route locals start addr = do
  via ← first_choice route locals start addr
  chosen ← second_choice locals via addr
  accept iface locals chosen addr

-- `_effective_via4`, `_effective_via6`
unfoldable pub effective_via4 : Fields → Fields → Fields → Result Value
effective_via4 node iface route = do
  locals ← local_ips node
  effective iface route locals.0 (via4 route) (get "addr4" iface)

unfoldable pub effective_via6 : Fields → Fields → Fields → Result Value
effective_via6 node iface route = do
  locals ← local_ips node
  effective iface route locals.1 (via6 route) (get "addr6" iface)
