-- ===== src/Reservation.antt =====
-- docker-clab-frr-plus-tooling/protected-reservation-materializer.py: the identities and the pool of
-- a protected reservation set. Kea has the Kea configuration, Dns the local data of the resolver and
-- Main the run of the program. The documents that the program reads are arguments.
pub mod Kea
pub mod Dns
pub mod Main
use Prim.Native.String
use network_renderer_contain.Prelude.{
  ℕ, zero, suc, ◌-◌, ◌%◌, ◌^◌, String, Bool, true, false, ◌&&◌, ◌||◌, not, Option, none, some, List,
  [], ◌∷◌, map, ◌==◌, nat_eq, string_eq, leb, ltb, length, all, mem,
}
use network_renderer_contain.Py.Value.{
  ℤ, pos, Value, int, str, Fields, entries, get, is_str, as_str, as_dict, as_int,
}
use network_renderer_contain.Py.Result.{
  Result, ok, err, Error, contract_error, value_error, ◌>>=◌, ◌>>◌, require, or_raise,
}
use network_renderer_contain.Py.Text.{
  codes, number, lower, strip, replace, split_once, concat, join,
}
use network_renderer_contain.Py.Ip.{Family, v4, v6, same_family, width, Address, Network, contains}
use network_renderer_contain.Py.Ip.Parse.{ip_address}

abbrev pub rejected : Error
rejected = contract_error "diagnostic.runtime-reservation-secret-record-invalid"

abbrev pub keys : Fields → List String
keys fs = map (λ e. e.0) (entries fs)

-- `set(value) == {...}` and `set(value).issubset({...})`
abbrev pub has_only : List String → Fields → Bool
has_only names fs = all (λ k. mem k names) (keys fs)

abbrev pub has_exactly : List String → Fields → Bool
has_exactly names fs = has_only names fs && all (λ n. mem n (keys fs)) names

abbrev pub is_alnum : ℕ → Bool
is_alnum c = (leb 48 c && leb c 57) || ((leb 65 c && leb c 90) || (leb 97 c && leb c 122))

abbrev pub is_hex : ℕ → Bool
is_hex c = (leb 48 c && leb c 57) || ((leb 65 c && leb c 70) || (leb 97 c && leb c 102))

-- `IID`
abbrev pub is_iid : List ℕ → Bool
is_iid cs = (length cs == 16) && all is_hex cs

-- `MAC`: this many further pairs of digits behind the first, each with a colon before it
abbrev pub is_mac : ℕ → List ℕ → Bool
is_mac zero (a ∷ (b ∷ [])) = is_hex a && is_hex b
is_mac (suc n) (a ∷ (b ∷ (c ∷ cs))) = (is_hex a && is_hex b) && ((c == b':') && is_mac n cs)
is_mac _ _ = false

-- `DUID`, of an even length
abbrev pub is_duid : List ℕ → Bool
is_duid cs = ((length cs % 2 == 0) && (leb 4 (length cs) && leb (length cs) 260)) && all is_hex cs

-- `value.replace(":", "").replace("-", "")`
abbrev pub compacted : String → String
compacted s = replace b'-' "" (replace b':' "" s)

unfoldable pub normalized_iid : Value → Result ℕ
normalized_iid value = do
  text ← or_raise rejected (as_str value)
  require (is_iid (codes (compacted text))) rejected
  or_raise rejected (number 16 (compacted text))

-- The text in pieces of two characters.
abbrev pub pairs : String → List String
pairs String.[] = []
pairs (String.◌∷◌ c String.[]) = (String.◌∷◌ c "") ∷ []
pairs (String.◌∷◌ c (String.◌∷◌ d s)) = (String.◌∷◌ c (String.◌∷◌ d "")) ∷ pairs s

unfoldable pub normalized_duid : Value → Result String
normalized_duid value = do
  text ← or_raise rejected (as_str value)
  require (is_duid (codes (compacted text))) rejected
  ok (join ":" (map lower (pairs (compacted text))))

abbrev pub Pool : Type 0
Pool = ℕ × ℕ

-- `value.strip()` of the part behind the first dash, where there is one
abbrev pub bound_of : Option String → Option String
bound_of none = none
bound_of (some s) = some (strip s)

abbrev pub filled : String → Result String
filled s = do require (not (s == "")) rejected; ok s

abbrev pub not_address : Error
not_address = value_error "not an address"

unfoldable pub reservation_pool : Family → Network → String → Result Pool
reservation_pool family subnet pool_text = do
  first ← filled (strip (split_once b'-' pool_text).0)
  second ← or_raise rejected (bound_of (split_once b'-' pool_text).1)
  last ← filled second
  start ← or_raise not_address (ip_address first)
  end ← or_raise not_address (ip_address last)
  require (same_family start.family subnet.family && same_family end.family subnet.family) rejected
  require (contains subnet start && (contains subnet end && leb start.number end.number)) rejected
  require (same_family family start.family) rejected
  ok (start.number, end.number)

-- `IPv4Address(v)` and `IPv6Address(v)`, of a text or a number
abbrev pub of_family : Family → Option Address → Option Address
of_family f none = none
of_family f (some a) = elim (same_family a.family f) [ true ↦ some a | false ↦ none ]

abbrev pub of_int : Family → Option ℤ → Option Address
of_int f (some (pos n)) = elim (ltb n (2 ^ width f)) [
  | true ↦ some (record { family = f; number = n })
  | false ↦ none
]
of_int f _ = none

unfoldable pub address_in : Family → Value → Option Address
address_in f (str s) = of_family f (ip_address s)
address_in f v = of_int f (as_int v)

-- An address with the identity that Kea knows its owner by.
pub record Identity : Type 0 where
  pub address : Address
  pub name : String

unfoldable pub validated_ipv4_identity : Value → Result Identity
validated_ipv4_identity value = do
  fs ← or_raise rejected (as_dict value)
  require (has_exactly ("address" ∷ "mac-address" ∷ []) fs) rejected
  address ← or_raise not_address (address_in v4 (get "address" fs))
  mac ← or_raise rejected (as_str (get "mac-address" fs))
  require (is_mac 5 (codes mac)) rejected
  ok (record { address = address; name = lower mac })

abbrev pub is_iaid : Value → Bool
is_iaid (int (pos n)) = leb n 0xFFFFFFFF
is_iaid _ = false

unfoldable pub validated_ipv6_identity : Value → Result Identity
validated_ipv6_identity value = do
  fs ← or_raise rejected (as_dict value)
  require (has_exactly ("address" ∷ "iid" ∷ "iid-stability" ∷ "duid" ∷ "iaid" ∷ []) fs) rejected
  address ← or_raise not_address (address_in v6 (get "address" fs))
  iid ← normalized_iid (get "iid" fs)
  require (is_str "stable" (get "iid-stability" fs)) rejected
  require (address.number % 2 ^ 64 == iid) rejected
  duid ← normalized_duid (get "duid" fs)
  require (is_iaid (get "iaid" fs)) rejected
  ok (record { address = address; name = duid })

-- `HOSTNAME`
abbrev pub is_name_char : ℕ → Bool
is_name_char c = is_alnum c || ((c == b'.') || ((c == b'_') || (c == b'-')))

abbrev pub is_hostname : List ℕ → Bool
is_hostname [] = false
is_hostname (c ∷ cs) = is_alnum c && all is_name_char cs

abbrev pub schema_fields : List String
schema_fields = "id" ∷ "scope" ∷ "ipv4" ∷ "ipv6" ∷ "hostname" ∷ []
