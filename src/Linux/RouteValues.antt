-- ===== src/Linux/RouteValues.antt =====
-- clabgen/s88/CM/linux_route_values.py: the routes of an interface and their prefixes.
use network_renderer_contain.Prelude.{
  String, Bool, false, ◌&&◌, Option, none, some, List, [], ◌∷◌, ltb, if◌then◌else◌,
}
use network_renderer_contain.Py.Value.{
  ℤ, pos, Value, str, arr, nil, Fields, end, get, get_or, as_list, as_dict, is_null,
}
use network_renderer_contain.Py.Result.{Result, ok, value_error, ◌>>=◌, or_raise}
use network_renderer_contain.Py.Text.{has_sub, split_once, int_of, concat, dec}
use network_renderer_contain.Py.Ip.{Family, width, same_family}
use network_renderer_contain.Py.Ip.Parse.{ip_network, print, print_network}
use network_renderer_contain.Py.Ip.Coerce.{address_of}

-- The entries that are objects.
unfoldable pub dicts : List Value → List Fields
dicts [] = []
dicts (v ∷ vs) = let rest = dicts vs in elim (as_dict v) [ none ↦ rest | some fs ↦ fs ∷ rest ]

-- `_route_lists`: the IPv4 routes and the IPv6 routes
unfoldable pub route_lists : Fields → Result (List Fields × List Fields)
route_lists iface = do
  routes ←
      (if is_null (get "routes" iface)
        then ok end
        else or_raise (value_error "interface.routes must be an object")
            (as_dict (get "routes" iface)))
  ipv4 ←
      or_raise (value_error "interface.routes.ipv4 must be an array")
        (as_list (get_or (arr nil) "ipv4" routes))
  ipv6 ←
      or_raise (value_error "interface.routes.ipv6 must be an array")
        (as_list (get_or (arr nil) "ipv6" routes))
  ok (dicts ipv4, dicts ipv6)

-- `_dst`, `_via4`, `_via6`
abbrev pub dst : Fields → Value
dst route = get "dst" route

abbrev pub via4 : Fields → Value
via4 route = get "via4" route

abbrev pub via6 : Fields → Value
via6 route = get "via6" route

abbrev is_above_32 : Option ℤ → Bool
is_above_32 (some (pos n)) = ltb 32 n
is_above_32 _ = false

abbrev after_slash : String → Option ℤ
after_slash s = elim (split_once b'/' s).1 [ none ↦ none | some prefix ↦ int_of prefix ]

abbrev as_network : String → String
as_network s = elim (ip_network false s) [ none ↦ s | some n ↦ print_network n ]

-- `_normalize_prefix`, on a text: too long an IPv4 prefix becomes a host's, and what is no network
-- stays as it is.
unfoldable pub normalize_text : String → String
normalize_text s =
    if has_sub "." s && has_sub "/" s && is_above_32 (after_slash s)
    then concat ((split_once b'/' s).0 ∷ "/32" ∷ [])
    else as_network s

unfoldable pub normalize_prefix : Value → Value
normalize_prefix (str s) = str (normalize_text s)
normalize_prefix v = v

-- `_host_prefix`
unfoldable pub host_prefix : Value → Family → Option String
host_prefix value family = elim (address_of value) [
  | none ↦ none
  | some ip ↦
      if same_family ip.family family
      then some (concat (print ip ∷ "/" ∷ dec (width family) ∷ []))
      else none
]
