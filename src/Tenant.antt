-- ===== src/Tenant.antt =====
-- docker-clab-frr-plus-tooling/protected-ipv6-materializer.py: one tenant prefix, or one exact
-- address, derived from a protected parent prefix. The text of the source file is an argument.
pub mod Derivation
pub mod Output
use Prim.Native.Nat.{bit_or}
use network_renderer_contain.Prelude.{
  ℕ, ◌+◌, ◌-◌, ◌*◌, ◌^◌, String, Bool, true, ◌&&◌, not, Option, none, some, List, [], ◌∷◌, ◌==◌,
  nat_eq, string_eq, leb, ltb,
}
use network_renderer_contain.Py.Value.{ℤ, pos, negsuc}
use network_renderer_contain.Py.Result.{
  Result, ok, err, contract_error, Error, ◌>>=◌, ◌>>◌, require, or_raise,
}
use network_renderer_contain.Py.Text.{strip, concat}
use network_renderer_contain.Py.Ip.{
  Family, v6, same_family, width, host_count, masked, Address, Network, contains, subnet_of,
}
use network_renderer_contain.Py.Ip.Parse.{ip_network, ip_address, print, print_network}

pub record Args : Type 0 where
  pub source : String
  pub delegated_prefix_length : ℤ
  pub tenant_prefix_length : ℤ
  pub slot : ℤ
  pub interface_identifier : Option String

abbrev pub rejected : Error
rejected = contract_error "diagnostic.runtime-protected-ipv6-invalid"

-- A number from the command line that must not be negative.
abbrev pub natural : ℤ → Result ℕ
natural (pos n) = ok n
natural (negsuc n) = err rejected

-- `ip_network((number, length), strict=True)`
unfoldable pub strict_network : Family → ℕ → ℕ → Result Network
strict_network f x p = do
  require (ltb x (2 ^ width f)) rejected
  require (leb p (width f)) rejected
  require (masked f p x == x) rejected
  ok (record { family = f; base = x; prefix = p })

-- The tenant's prefix in its slot of the parent.
unfoldable pub tenant_network : Network → ℕ → ℕ → Result Network
tenant_network parent length slot = do
  require (leb parent.prefix length && leb length 128) rejected
  require (ltb slot (2 ^ (length - parent.prefix))) rejected
  tenant ← strict_network v6 (parent.base + slot * 2 ^ (128 - length)) length
  require (subnet_of tenant parent) rejected
  ok tenant

-- `IPv6Address(text)`
unfoldable pub ipv6_address : String → Option Address
ipv6_address s = elim (ip_address s) [
  | none ↦ none
  | some a ↦ elim (same_family a.family v6) [ true ↦ some a | _ ↦ none ]
]

-- The host address with this identifier as its low 64 bits.
unfoldable pub host_address : Network → Address → Result Address
host_address tenant identifier = do
  require (tenant.prefix == 64) rejected
  require (ltb identifier.number (2 ^ 64)) rejected
  let address : Address = record { family = v6; number = bit_or tenant.base identifier.number }
  require (contains tenant address) rejected
  ok address

unfoldable pub tenant_text : Network → Option String → Result String
tenant_text tenant none = ok (print_network tenant)
tenant_text tenant (some text) = do
  identifier ← or_raise rejected (ipv6_address text)
  address ← host_address tenant identifier
  ok (concat (print address ∷ "/128" ∷ []))

-- The parent prefix, in the canonical spelling that its network prints as.
unfoldable pub read_parent : String → Result Network
read_parent source = do
  let source_text = strip source
  require (not (source_text == "")) rejected
  parent ← or_raise rejected (ip_network true source_text)
  require (same_family parent.family v6) rejected
  require (print_network parent == source_text) rejected
  ok parent

unfoldable pub derive : Args → Result String
derive args = do
  parent ← read_parent args.source
  delegated ← natural args.delegated_prefix_length
  require (parent.prefix == delegated) rejected
  length ← natural args.tenant_prefix_length
  slot ← natural args.slot
  tenant ← tenant_network parent length slot
  tenant_text tenant args.interface_identifier
