-- ===== src/Py/Ip/Parse/Range.antt =====
-- Every address and network that is read from a text is in range.
use mathlib.Core.Path.{subst}
use network_renderer_contain.Prelude.{
  ℕ, zero, suc, ◌^◌, ◌≤◌, ◌<◌, ◌≡◌, String, Bool, Option, none, some, arith, Option-cases, inl, inr,
  nat_eq,
}
use network_renderer_contain.Py.Text.{number, split_once}
use network_renderer_contain.Py.Ip.{
  Family, v4, v6, width, Address, IsAddress, Interface, IsInterface, Network, IsNetwork, network_of,
}
use network_renderer_contain.Py.Ip.Laws.{network_of-IsNetwork}
use network_renderer_contain.Py.Ip.Parse.{
  parse_v4, parse_v6, mask_length, find_mask, netmask, hostmask, interface, prefix_digits,
  parse_prefix, interface_v4, interface_v6, ip_interface, ip_address, ip_network,
}
use network_renderer_contain.Py.Ip.Parse.Digits.{>>=-eq-some, parse_v4-lt, parse_v6-lt}

pub ip_address-IsAddress : (s : String) (a : Address) → ip_address s ≡ some a → IsAddress a
unfolding ip_address
ip_address-IsAddress s a h = elim (Option-cases (parse_v4 s)) [
  | inr (n, e) ↦ record { fits = ground (arith, parse_v4-lt s n e) }
  | inl e ↦ elim (Option-cases (parse_v6 s)) [
    | inr (n, e') ↦ record { fits = ground (arith, parse_v6-lt s n e') }
    | inl e' ↦ ground arith
  ]
]

find_mask-le : (value : ℕ → ℕ) (p m : ℕ) (q : ℕ) → find_mask value p m ≡ some q → q ≤ p
unfolding find_mask
find_mask-le value zero m q h = ground arith
find_mask-le value (suc p) m q h = ground (arith, find_mask-le value p m q)

mask_length-le : (m p : ℕ) → mask_length m ≡ some p → p ≤ 32
unfolding mask_length
mask_length-le m p h = elim (Option-cases (find_mask netmask 32 m)) [
  | inr (q, e) ↦ ground (arith, find_mask-le netmask 32 m q e)
  | inl e ↦ find_mask-le hostmask 32 m p (ground arith)
]

prefix_digits-le : (f : Family) (s : String) (p : ℕ) → prefix_digits f s ≡ some p → p ≤ width f
unfolding prefix_digits
prefix_digits-le f s p h = elim (Option-cases (number 10 s)) [
  | inl e ↦ ground arith
  | inr (q, e) ↦ ground arith
]

parse_prefix-le : (f : Family) (s : Option String) (p : ℕ) → parse_prefix f s ≡ some p → p ≤ width f
unfolding parse_prefix
parse_prefix-le f none p h = ground arith
parse_prefix-le v4 (some s) p h = elim (Option-cases (prefix_digits v4 s)) [
  | inr (q, e) ↦ ground (arith, prefix_digits-le v4 s q e)
  | inl e ↦ elim (Option-cases (parse_v4 s)) [
    | inl e' ↦ ground arith
    | inr (m, e') ↦ mask_length-le m p (ground arith)
  ]
]
parse_prefix-le v6 (some s) p h = prefix_digits-le v6 s p h

some_inj : (i j : Interface) → some i ≡ some j → i ≡ j
some_inj i j h = cc

interface-IsInterface :
    (f : Family) (n p : ℕ) → n < 2 ^ width f → p ≤ width f → IsInterface (interface f n p)
interface-IsInterface f n p h k = record { fits = h; prefix_le = k }

interface_v4-IsInterface : (s : String) (i : Interface) → interface_v4 s ≡ some i → IsInterface i
unfolding interface_v4
interface_v4-IsInterface s i h =
    let (n, en, h₁) = >>=-eq-some (parse_v4 (split_once b'/' s).0) _ h in
    let (p, ep, h₂) = >>=-eq-some (parse_prefix v4 (split_once b'/' s).1) _ h₁ in
    subst IsInterface (some_inj _ _ h₂) (
      interface-IsInterface v4 n p (parse_v4-lt (split_once b'/' s).0 n en)
        (parse_prefix-le v4 (split_once b'/' s).1 p ep))

interface_v6-IsInterface : (s : String) (i : Interface) → interface_v6 s ≡ some i → IsInterface i
unfolding interface_v6
interface_v6-IsInterface s i h =
    let (n, en, h₁) = >>=-eq-some (parse_v6 (split_once b'/' s).0) _ h in
    let (p, ep, h₂) = >>=-eq-some (parse_prefix v6 (split_once b'/' s).1) _ h₁ in
    subst IsInterface (some_inj _ _ h₂) (
      interface-IsInterface v6 n p (parse_v6-lt (split_once b'/' s).0 n en)
        (parse_prefix-le v6 (split_once b'/' s).1 p ep))

pub ip_interface-IsInterface :
    (s : String) (i : Interface) → ip_interface s ≡ some i → IsInterface i
unfolding ip_interface
ip_interface-IsInterface s i h = elim (Option-cases (interface_v4 s)) [
  | inr (j, e) ↦ interface_v4-IsInterface s i (ground arith)
  | inl e ↦ interface_v6-IsInterface s i (ground arith)
]

-- A network that is read without `strict` is that of the interface of the same text.
pub ip_network-eq-some :
    (strict : Bool) (s : String) (n : Network)
    → ip_network strict s ≡ some n
    → (i : Interface) × (ip_interface s ≡ some i) × (n ≡ network_of i)
unfolding ip_network
ip_network-eq-some strict s n h =
    let (i, e, h₁) = >>=-eq-some (ip_interface s) _ h in (i, e, ground arith)

pub ip_network-IsNetwork :
    (strict : Bool) (s : String) (n : Network) → ip_network strict s ≡ some n → IsNetwork n
ip_network-IsNetwork strict s n h =
    let (i, e, same) = ip_network-eq-some strict s n h in
    rw same (network_of-IsNetwork i (ip_interface-IsInterface s i e))
