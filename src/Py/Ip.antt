-- ===== src/Py/Ip.antt =====
-- The addresses and networks of Python's `ipaddress`: a family, a number and a prefix length. The
-- text forms are in the child `Parse`, what the operations satisfy in `Laws`.
pub mod Parse
pub mod Laws
pub mod Bits
pub mod Coerce
use network_renderer_contain.Prelude.{
  ℕ, ◌+◌, ◌-◌, ◌^◌, ◌%◌, ◌≤◌, ◌<◌, ◌≡◌, Bool, true, false, ◌&&◌, ◌==◌, nat_eq, leb, ltb,
}

pub data Family : Type 0 where
  v4 v6 : Family

abbrev pub width : Family → ℕ
width v4 = 32
width v6 = 128

abbrev pub same_family : Family → Family → Bool
same_family v4 v4 = true
same_family v6 v6 = true
same_family _ _ = false

pub record Address : Type 0 where
  pub family : Family
  pub number : ℕ

-- `ip_interface`: an address with the length of its network's prefix
pub record Interface : Type 0 where
  pub family : Family
  pub number : ℕ
  pub prefix : ℕ

pub record Network : Type 0 where
  pub family : Family
  pub base : ℕ
  pub prefix : ℕ

-- How many addresses a prefix of this length leaves.
abbrev pub host_count : Family → ℕ → ℕ
host_count f p = 2 ^ (width f - p)

abbrev pub num_addresses : Network → ℕ
num_addresses n = host_count n.family n.prefix

-- `number & netmask`
unfoldable pub masked : Family → ℕ → ℕ → ℕ
masked f p x = x - x % host_count f p

-- `iface.network`, `iface.ip`
unfoldable pub network_of : Interface → Network
network_of i = record {
  family = i.family;
  base = masked i.family i.prefix i.number;
  prefix = i.prefix;
}

abbrev pub ip_of : Interface → Address
ip_of i = record { family = i.family; number = i.number }

-- `net.broadcast_address`, as a number
abbrev pub broadcast : Network → ℕ
broadcast n = n.base + (num_addresses n - 1)

-- `a in net`
unfoldable pub contains : Network → Address → Bool
unfolding masked
contains n a = same_family n.family a.family && masked n.family n.prefix a.number == n.base

-- `net.subnet_of(parent)`
unfoldable pub subnet_of : Network → Network → Bool
subnet_of n parent =
    same_family n.family parent.family
    && leb parent.base n.base
    && leb (broadcast n) (broadcast parent)

pub record IsAddress (a : Address) : Type 0 where
  pub fits : a.number < 2 ^ width a.family

pub record IsInterface (i : Interface) : Type 0 where
  pub fits : i.number < 2 ^ width i.family
  pub prefix_le : i.prefix ≤ width i.family

pub record IsNetwork (n : Network) : Type 0 where
  pub fits : n.base < 2 ^ width n.family
  pub prefix_le : n.prefix ≤ width n.family
  pub aligned : n.base % host_count n.family n.prefix ≡ 0
