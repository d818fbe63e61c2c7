-- ===== src/Control/Nat.antt =====
-- clabgen/s88/CM/nat.py: forwarding, masquerading and the routes of a NAT node.
pub mod Laws
use network_renderer_contain.Prelude.{
  String, Bool, true, false, ◌||◌, Option, none, some, List, [], ◌∷◌, ◌++◌, map, ◌==◌, string_eq,
  if◌then◌else◌, is_nil,
}
use network_renderer_contain.Py.Value.{
  Value, bool, str, arr, obj, nil, end, elems, Fields, get, get_or, as_dict, as_str, truthy,
}
use network_renderer_contain.Py.Result.{
  Result, ok, err, attribute_error, type_error, ◌>>=◌, or_raise,
}
use network_renderer_contain.Py.Text.{concat, join}
use network_renderer_contain.Py.Repr.{show}
use network_renderer_contain.Control.{list_of, nat_table, nat_rule}

abbrev sysctls : List String
sysctls =
    "sysctl -w net.ipv4.ip_forward=1" ∷ "sysctl -w net.ipv6.conf.all.forwarding=1"
    ∷ "sh -c 'for i in /proc/sys/net/ipv4/conf/*/rp_filter; do echo 0 > \"$i\"; done'" ∷ []

abbrev texts : List Value → Option (List String)
texts [] = some []
texts (v ∷ vs) =
    let rest = texts vs in
    elim (as_str v) [
      | none ↦ none
      | some s ↦ elim rest [ none ↦ none | some found ↦ some (s ∷ found) ]
    ]

-- `",".join(values)`
unfoldable pub joined : List Value → Result String
joined vs = do
  ss ← or_raise (type_error "sequence item: expected str instance") (texts vs)
  ok (join "," ss)

unfoldable pub masquerading : String → List Value → List Value → Result (List String)
masquerading family saddr interfaces =
    if is_nil saddr || is_nil interfaces then ok (nat_table family) else (do
      srcset ← joined saddr
      ok (nat_table family ++ map (λ v. nat_rule family srcset (show v) "masquerade") interfaces))

abbrev route_text : String → Option String → Option String → List String
route_text command (some dst) (some via) =
    concat (command ∷ " route replace " ∷ dst ∷ " via " ∷ via ∷ []) ∷ []
route_text command _ _ = []

-- The routes, each of which must be an object; a route without its two texts has no command.
unfoldable pub route_commands : String → String → List Value → Result (List String)
route_commands command via [] = ok []
route_commands command via (v ∷ vs) = do
  route ← or_raise (attribute_error "object has no attribute 'get'") (as_dict v)
  rest ← route_commands command via vs
  ok (route_text command (as_str (get "dst" route)) (as_str (get via route)) ++ rest)

-- What the loop `for route in value` runs over. The items of a text and the keys of an object are
-- texts, so that the loop over one that is not empty fails at the first of them.
abbrev routes_of : Value → Result (List Value)
routes_of (arr xs) = ok (elems xs)
routes_of (obj end) = ok []
routes_of (str s) = if s == "" then ok [] else err (attribute_error "object has no attribute 'get'")
routes_of (obj _) = err (attribute_error "object has no attribute 'get'")
routes_of _ = err (type_error "object is not iterable")

abbrev masquerading_when : Bool → String → List Value → List Value → Result (List String)
masquerading_when false family saddr interfaces = ok []
masquerading_when true family saddr interfaces = masquerading family saddr interfaces

unfoldable pub nat : Fields → Result (List String)
nat input = do
  let interfaces = list_of "masqueradeInterfaces" input
  nat4 ←
      masquerading_when (truthy (get_or (bool false) "ipv4" input)) "ip" (list_of "saddr4" input)
        interfaces
  nat6 ←
      masquerading_when (truthy (get_or (bool false) "ipv6" input)) "ip6" (list_of "saddr6" input)
        interfaces
  routes4 ← routes_of (get_or (arr nil) "routes_v4" input)
  cmds4 ← route_commands "ip" "via4" routes4
  routes6 ← routes_of (get_or (arr nil) "routes_v6" input)
  cmds6 ← route_commands "ip -6" "via6" routes6
  ok (
      sysctls
      ++ (nat4
          ++ (nat6
              ++ (cmds4 ++ (cmds6 ++ "ip route flush cache" ∷ ("ip -6 route flush cache" ∷ []))))))
