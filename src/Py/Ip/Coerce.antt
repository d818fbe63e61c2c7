-- ===== src/Py/Ip/Coerce.antt =====
-- `ip_address` and `ip_interface` of a value that need not be a text: a number is an address.
use network_renderer_contain.Prelude.{◌^◌, Option, none, some, ltb, if◌then◌else◌}
use network_renderer_contain.Py.Value.{ℤ, pos, negsuc, Value, str, as_int}
use network_renderer_contain.Py.Ip.{v4, v6, width, Address, Interface}
use network_renderer_contain.Py.Ip.Parse.{ip_address, ip_interface}

abbrev of_number : ℤ → Option Address
of_number (negsuc n) = none
of_number (pos n) =
    if ltb n (2 ^ 32)
    then some (record { family = v4; number = n })
    else if ltb n (2 ^ 128)
    then some (record { family = v6; number = n })
    else none

abbrev whole : Address → Interface
whole a = record { family = a.family; number = a.number; prefix = width a.family }

abbrev number_of : Value → Option Address
number_of v = elim (as_int v) [ none ↦ none | some n ↦ of_number n ]

unfoldable pub address_of : Value → Option Address
address_of (str s) = ip_address s
address_of v = number_of v

unfoldable pub interface_of : Value → Option Interface
interface_of (str s) = ip_interface s
interface_of v = elim (number_of v) [ none ↦ none | some a ↦ some (whole a) ]
