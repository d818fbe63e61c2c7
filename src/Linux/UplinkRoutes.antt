-- ===== src/Linux/UplinkRoutes.antt =====
-- clabgen/s88/CM/linux_uplink_routes.py: the commands for the uplink routes of a node.
pub mod Laws
use network_renderer_contain.Prelude.{
  String, Bool, true, false, ◌&&◌, ◌||◌, not, Option, none, some, List, [], ◌∷◌, ◌==◌, string_eq,
  if◌then◌else◌, push_new, map, lookup,
}
use network_renderer_contain.Py.Value.{
  Value, null, str, obj, Fields, find, get, is_str, truthy, as_dict, entries,
}
use network_renderer_contain.Py.Result.{Result, ok, err, type_error, ◌>>=◌, ◌>>◌, or_raise}
use network_renderer_contain.Py.Text.{concat}
use network_renderer_contain.Py.Repr.{show}
use network_renderer_contain.Py.Sort.{sorted}
use network_renderer_contain.Linux.Addressing.{interfaces_of}
use network_renderer_contain.Linux.RouteValues.{route_lists, dst, normalize_prefix}
use network_renderer_contain.Linux.RouteState.{as_iface}
use network_renderer_contain.Linux.RouteVia.{effective_via4, effective_via6}

-- The map from an interface's name to its device.
abbrev pub EthMap : Type 0
EthMap = List (String × String)

-- What differs between the families: the command, the default destination and the next hop.
pub record Side : Type 0 where
  pub ip : String
  pub default_dst : String
  pub via : Fields → Fields → Fields → Result Value

abbrev pub side4 : Side
side4 = record { ip = "ip"; default_dst = "0.0.0.0/0"; via = effective_via4 }

abbrev pub side6 : Side
side6 = record { ip = "ip -6"; default_dst = "::/0"; via = effective_via6 }

unfoldable pub route_command : Side → Value → Value → String → String
route_command side destination via eth =
    if is_str side.default_dst destination
    then concat
        (side.ip ∷ " route replace default via " ∷ show via ∷ " dev " ∷ eth ∷ " onlink" ∷ [])
    else concat (
        side.ip
        ∷ " route replace "
        ∷ show (normalize_prefix destination)
        ∷ " via "
        ∷ show via
        ∷ " dev "
        ∷ eth
        ∷ " onlink"
        ∷ [])

-- The loop over the routes of one family; `seen` is the set of the commands so far.
unfoldable pub family_routes :
    Side → Fields → Fields → String → List Fields → List String → Result (List String)
family_routes side node iface eth [] cmds = ok cmds
family_routes side node iface eth (route ∷ routes) cmds =
    let go = family_routes side node iface eth routes in
    if not (is_str "uplink" (get "proto" route)) then go cmds else do
      via ← side.via node iface route
      let next = push_new cmds (route_command side (dst route) via eth)
      go (if not (truthy via) || not (truthy (dst route)) then cmds else next)

-- The body of the loop over the interfaces, on an interface with a device.
unfoldable pub device_routes : Fields → String → Value → List String → Result (List String)
device_routes node eth value cmds = do
  iface ← as_iface value
  routes ← route_lists iface
  cmds4 ← family_routes side4 node iface eth routes.0 cmds
  family_routes side6 node iface eth routes.1 cmds4

unfoldable pub interface_routes :
    Fields → EthMap → String → Value → List String → Result (List String)
interface_routes node eth_map ifname value cmds = elim (lookup ifname eth_map) [
  | none ↦ ok cmds
  | some eth ↦ device_routes node eth value cmds
]

-- `node["interfaces"][ifname]`, for a name that is a key
abbrev pub at_name : String → List (String × Value) → Value
at_name name interfaces = elim (lookup name interfaces) [ none ↦ null | some v ↦ v ]

unfoldable pub uplink_in :
    Fields → EthMap → List (String × Value) → List String → List String → Result (List String)
uplink_in node eth_map interfaces [] cmds = ok cmds
uplink_in node eth_map interfaces (ifname ∷ names) cmds = do
  next ← interface_routes node eth_map ifname (at_name ifname interfaces) cmds
  uplink_in node eth_map interfaces names next

abbrev key : String × Value → String
key e = e.0

-- `_render_uplink_routes`
unfoldable pub render_uplink_routes : Fields → EthMap → Result (List String)
render_uplink_routes node eth_map = do
  interfaces ← interfaces_of node
  uplink_in node eth_map interfaces (sorted (map key interfaces)) []
