-- ===== src/Tests.antt =====
-- The theorems applied at concrete inputs, by component. Documents are written as lists.
mod Reservation
mod Tenant
mod Firewall
mod Linux
mod Selection
mod Control
mod Dns
mod DnsAnswer
mod PolicyRoutes
use network_renderer_contain.Prelude.{String, List, [], ◌∷◌}
use network_renderer_contain.Py.Value.{Value, Items, nil, cons, Fields, end, field, arr, obj}

abbrev pub dict : List (String × Value) → Fields
dict [] = end
dict ((k, v) ∷ rest) = field k v (dict rest)

abbrev pub items : List Value → Items
items [] = nil
items (v ∷ vs) = cons v (items vs)

abbrev pub object : List (String × Value) → Value
object entries = obj (dict entries)

abbrev pub array : List Value → Value
array vs = arr (items vs)
