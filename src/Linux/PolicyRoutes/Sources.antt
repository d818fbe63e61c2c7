-- ===== src/Linux/PolicyRoutes/Sources.antt =====
-- The source prefixes of an interface and the source addresses of the resolver, of
-- clabgen/s88/CM/linux_policy_routes.py.
use network_renderer_contain.Prelude.{
  ℕ, String, Bool, true, false, ◌&&◌, ◌||◌, Option, none, some, List, [], ◌∷◌, ◌++◌, nat_eq,
  string_eq, pair_eq, if◌then◌else◌, ltb, mem,
}
use network_renderer_contain.Py.Value.{
  Value, arr, Fields, elems, get, is_str, as_str, as_dict, text_of,
}
use network_renderer_contain.Py.Result.{Result, ok, ◌>>=◌}
use network_renderer_contain.Py.Iterate.{texts}
use network_renderer_contain.Py.Sort.{sorted}
use network_renderer_contain.Py.Text.{concat, dec}
use network_renderer_contain.Py.Ip.{
  Family, v4, v6, width, same_family, Address, network_of, contains,
}
use network_renderer_contain.Py.Ip.Parse.{
  ip_address, ip_interface, ip_network, print, print_network,
}
use network_renderer_contain.Linux.Addressing.{interfaces_of}
use network_renderer_contain.Linux.RouteValues.{route_lists, dst, normalize_text}
use network_renderer_contain.Linux.UplinkRoutes.{at_name}
use network_renderer_contain.Linux.PolicyRoutes.{dict, dedupe_strings, is_default}
use network_renderer_contain.Linux.PolicyRoutes.Surfaces.{Interfaces, addr_of}

-- A network that has room for a source of its own.
abbrev pub own_limit : Family → ℕ
own_limit v4 = 31
own_limit v6 = 127

abbrev pub own_prefix : Family → Option String → List String
own_prefix family none = []
own_prefix family (some addr) = elim (ip_interface addr) [
  | none ↦ []
  | some i ↦ if ltb i.prefix (own_limit family) then print_network (network_of i) ∷ [] else []
]

abbrev pub is_reachable : Fields → Bool
is_reachable route = elim (as_str (get "accessNode" (dict (get "intent" route)))) [
  | none ↦ false
  | some s ↦ true
]

-- The prefix of a route, where it is a network of the family and not the default.
abbrev pub route_prefix : Family → Option String → Option String
route_prefix family none = none
route_prefix family (some dst) =
    if is_default dst then none else elim (ip_network false (normalize_text dst)) [
      | none ↦ none
      | some n ↦ if same_family n.family family then some dst else none
    ]

abbrev pub add_prefix : List String → Option String → List String
add_prefix result none = result
add_prefix result (some dst) = if mem dst result then result else result ++ normalize_text dst ∷ []

-- The loop over the routes.
unfoldable pub route_prefixes : Family → Bool → List Fields → List String → List String
route_prefixes family reachable [] result = result
route_prefixes family reachable (route ∷ routes) result = route_prefixes family reachable routes (
    if is_str "connected" (get "proto" route) || (reachable && is_reachable route)
    then add_prefix result (route_prefix family (text_of (dst route)))
    else result)

abbrev pub of_family {ℓ} : {A : Type ℓ} → Family → A × A → A
of_family v4 p = p.0
of_family v6 p = p.1

-- `_source_prefixes_for_interface`
unfoldable pub source_prefixes_for_interface : Fields → Family → Bool → Result (List String)
source_prefixes_for_interface iface family reachable = do
  routes ← route_lists iface
  ok (
      dedupe_strings (
        texts (
          route_prefixes family reachable (of_family family routes)
            (own_prefix family (text_of (addr_of family iface))))))

-- A source address with the interface in whose network it is.
pub record Binding : Type 0 where
  pub prefix : String
  pub ifname : String
  pub iface : Fields

abbrev pub in_network : Address → Option String → Bool
in_network a none = false
in_network a (some cidr) = elim (ip_interface cidr) [
  | none ↦ false
  | some i ↦ contains (network_of i) a
]

-- The first interface in whose network the address is.
unfoldable pub binding_for : Family → Interfaces → Address → List String → Option Binding
binding_for family interfaces a [] = none
binding_for family interfaces a (ifname ∷ names) =
    let later = binding_for family interfaces a names in
    elim (as_dict (at_name ifname interfaces)) [
      | none ↦ later
      | some iface ↦
          if in_network a (text_of (addr_of family iface))
          then some (record {
            prefix = concat (print a ∷ "/" ∷ dec (width family) ∷ []);
            ifname = ifname;
            iface = iface;
          })
          else later
    ]

abbrev pub outgoing_address : Family → Option String → Option Address
outgoing_address family none = none
outgoing_address family (some s) = elim (ip_address s) [
  | none ↦ none
  | some a ↦ if same_family a.family family then some a else none
]

abbrev pub binding_of : Family → Interfaces → List String → Value → Option Binding
binding_of family interfaces names v = elim (outgoing_address family (text_of v)) [
  | none ↦ none
  | some a ↦ binding_for family interfaces a names
]

-- The loop over the outgoing addresses; `seen` holds the prefixes with their interfaces.
unfoldable pub bindings_in :
    Family → Interfaces → List String → List Value → List (String × String) → List Binding
bindings_in family interfaces names [] seen = []
bindings_in family interfaces names (v ∷ vs) seen =
    let go = bindings_in family interfaces names vs in
    elim (binding_of family interfaces names v) [
      | none ↦ go seen
      | some b ↦ elim (mem (b.prefix, b.ifname) seen) [
        | true ↦ go seen
        | false ↦ b ∷ go ((b.prefix, b.ifname) ∷ seen)
      ]
    ]

abbrev pub outgoing_of : Fields → List Value
outgoing_of node = elim (get "outgoingInterfaces" (dict (get "dns" (dict (get "services" node))))) [
  | arr vs ↦ elems vs
  | _ ↦ []
]

-- `_dns_outgoing_source_bindings`
unfoldable pub dns_outgoing_source_bindings : Fields → List String → Family → Result (List Binding)
dns_outgoing_source_bindings node sources family = do
  interfaces ← interfaces_of node
  ok (bindings_in family interfaces (sorted sources) (outgoing_of node) [])
