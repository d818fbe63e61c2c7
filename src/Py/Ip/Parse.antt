-- ===== src/Py/Ip/Parse.antt =====
-- The text forms of addresses, as `ipaddress` reads and writes them. An IPv6 scope (`%eth0`) is
-- refused here, where Python keeps it.
pub mod Digits
pub mod Range
use mathlib.Core.List.{reverse}
use network_renderer_contain.Prelude.{
  ℕ, zero, suc, ◌+◌, ◌-◌, ◌*◌, ◌/◌, ◌%◌, ◌^◌, String, Bool, true, false, ◌||◌, not, ◌≡◌, refl,
  Option, none, some, List, [], ◌∷◌, map, ◌==◌, nat_eq, string_eq, leb, ltb, if◌then◌else◌, length,
}
use network_renderer_contain.Py.Text.{codes, split_on, split_once, dec, hex, number, concat, join}
use network_renderer_contain.Py.Ip.{
  Family, v4, v6, width, Address, Interface, Network, network_of, masked, ip_of,
}

infixl 5 ◌>>=◌ ◌>>◌
abbrev ◌>>=◌ {ℓ κ} : {A : Type ℓ} {B : Type κ} → Option A → (A → Option B) → Option B
none >>= k = none
some a >>= k = k a

abbrev ◌>>◌ {ℓ} : {B : Type ℓ} → Option (Unit {0}) → Option B → Option B
m >> k = m >>= λ _. k

abbrev check : Bool → Option (Unit {0})
check true = some tt
check false = none

-- A decimal octet: one to three digits, no leading zero, at most 255.
parse_octet : String → Option ℕ
unfolding number dec
parse_octet s = do
  n ← number 10 s
  check (leb (length (codes s)) 3)
  check (s == dec n)
  check (leb n 255)
  some n

parse_octets : ℕ → List String → Option ℕ
parse_octets n [] = some n
parse_octets n (s ∷ ss) = do d ← parse_octet s; parse_octets (n * 256 + d) ss

pub parse_v4 : String → Option ℕ
unfolding parse_octets parse_octet split_on
parse_v4 s = let parts = split_on b'.' s in if length parts == 4 then parse_octets 0 parts else none

-- One to four hexadecimal digits.
parse_hextet : String → Option ℕ
unfolding number
parse_hextet s = do check (leb (length (codes s)) 4); number 16 s

parse_hextets : ℕ → List String → Option ℕ
parse_hextets n [] = some n
parse_hextets n (s ∷ ss) = do d ← parse_hextet s; parse_hextets (n * 65536 + d) ss

-- The last part may be an IPv4 address, for two parts.
embed_v4 : List String → Option (List String)
unfolding parse_v4 hex
embed_v4 [] = none
embed_v4 (s ∷ []) =
    if leb 2 (length (split_on b'.' s))
    then (do n ← parse_v4 s; some (hex (n / 65536) ∷ hex (n % 65536) ∷ []))
    else some (s ∷ [])
embed_v4 (s ∷ (t ∷ ss)) = do rest ← embed_v4 (t ∷ ss); some (s ∷ rest)

abbrev is_empty : String → Bool
is_empty s = s == ""

-- The parts before and behind the only empty part inside the list; none if there are two such.
-- `first` holds at the first part, which is not inside.
abbrev skip_at :
    Bool → String → List String × Option (List String) → Option (List String × Option (List String))
skip_at true s (low, none) = some ([], some low)
skip_at true s (low, some hs) = none
skip_at false s (hi, low) = some (s ∷ hi, low)

split_skip : Bool → List String → Option (List String × Option (List String))
split_skip first [] = some ([], none)
split_skip first (s ∷ []) = some (s ∷ [], none)
split_skip true (s ∷ (t ∷ ss)) = do rest ← split_skip false (t ∷ ss); some (s ∷ rest.0, rest.1)
split_skip false (s ∷ (t ∷ ss)) = do rest ← split_skip false (t ∷ ss); skip_at (is_empty s) s rest

-- A leading (or, reversed, trailing) empty part is allowed only beside the skipped one.
drop_edge : List String → Option (List String)
drop_edge [] = some []
drop_edge (s ∷ []) = if is_empty s then some [] else some (s ∷ [])
drop_edge (s ∷ (t ∷ ss)) = if is_empty s then none else some (s ∷ (t ∷ ss))

pow16 : ℕ → ℕ
pow16 k = 65536 ^ k

whole_hextets : List String → Option ℕ
unfolding parse_hextets parse_hextet
whole_hextets parts = do check (length parts == 8); parse_hextets 0 parts

-- The parts on the two sides of a `::`, which stands for at least one part.
join_hextets : List String → List String → Option ℕ
unfolding parse_hextets parse_hextet pow16
join_hextets hi lo = do
  check (ltb (length hi + length lo) 8)
  top ← parse_hextets 0 hi
  bottom ← parse_hextets 0 lo
  some (top * pow16 (8 - length hi) + bottom)

skipped_hextets : List String → List String → Option ℕ
unfolding drop_edge join_hextets
skipped_hextets high low = do
  hi ← drop_edge high
  back ← drop_edge (reverse low)
  join_hextets hi (reverse back)

pub parse_v6 : String → Option ℕ
unfolding embed_v4 split_skip whole_hextets skipped_hextets split_on
parse_v6 s = do
  check (leb 3 (length (split_on b':' s)))
  parts ← embed_v4 (split_on b':' s)
  check (leb (length parts) 9)
  halves ← split_skip true parts
  elim halves.1 [ none ↦ whole_hextets parts | some low ↦ skipped_hextets halves.0 low ]

-- `ip_address(s)`: IPv4 first
unfoldable pub ip_address : String → Option Address
unfolding parse_v4 parse_v6
ip_address s = elim (parse_v4 s) [
  | some n ↦ some (record { family = v4; number = n })
  | none ↦ elim (parse_v6 s) [ none ↦ none | some n ↦ some (record { family = v6; number = n }) ]
]

-- The prefix length that a netmask, or else a hostmask, stands for.
find_mask : (ℕ → ℕ) → ℕ → ℕ → Option ℕ
find_mask value zero m = if value 0 == m then some 0 else none
find_mask value (suc p) m =
    let rest = find_mask value p m in if value (suc p) == m then some (suc p) else rest

abbrev netmask : ℕ → ℕ
netmask p = 2 ^ 32 - 2 ^ (32 - p)

abbrev hostmask : ℕ → ℕ
hostmask p = 2 ^ (32 - p) - 1

mask_length : ℕ → Option ℕ
unfolding find_mask
mask_length m = elim (find_mask netmask 32 m) [ some p ↦ some p | none ↦ find_mask hostmask 32 m ]

prefix_digits : Family → String → Option ℕ
unfolding number
prefix_digits f s = do p ← number 10 s; check (leb p (width f)); some p

parse_prefix : Family → Option String → Option ℕ
unfolding prefix_digits mask_length parse_v4
parse_prefix f none = some (width f)
parse_prefix v4 (some s) = elim (prefix_digits v4 s) [
  | some p ↦ some p
  | none ↦ do m ← parse_v4 s; mask_length m
]
parse_prefix v6 (some s) = prefix_digits v6 s

abbrev pub interface : Family → ℕ → ℕ → Interface
interface f n p = record { family = f; number = n; prefix = p }

-- `IPv4Interface(s)`, `IPv6Interface(s)`
unfoldable pub interface_v4 : String → Option Interface
unfolding parse_v4 parse_prefix split_once
interface_v4 s = do
  n ← parse_v4 (split_once b'/' s).0
  p ← parse_prefix v4 (split_once b'/' s).1
  some (interface v4 n p)

unfoldable pub interface_v6 : String → Option Interface
unfolding parse_v6 parse_prefix split_once
interface_v6 s = do
  n ← parse_v6 (split_once b'/' s).0
  p ← parse_prefix v6 (split_once b'/' s).1
  some (interface v6 n p)

-- `ip_interface(s)`
unfoldable pub ip_interface : String → Option Interface
unfolding interface_v4 interface_v6
ip_interface s = elim (interface_v4 s) [ some i ↦ some i | none ↦ interface_v6 s ]

-- `ip_network(s, strict)`: a strict network has no host bits
unfoldable pub ip_network : Bool → String → Option Network
unfolding ip_interface network_of masked
ip_network strict s = do
  i ← ip_interface s
  check (not strict || (network_of i).base == i.number)
  some (network_of i)

print_v4 : ℕ → String
unfolding dec join
print_v4 n =
    join "." (dec (n / 16777216) ∷ dec (n / 65536 % 256) ∷ dec (n / 256 % 256) ∷ dec (n % 256) ∷ [])

hextets : ℕ → ℕ → List ℕ → List ℕ
hextets zero n out = out
hextets (suc k) n out = hextets k (n / 65536) (n % 65536 ∷ out)

-- The length of the run of zeros that a list begins with.
zeros : List ℕ → ℕ
zeros [] = 0
zeros (h ∷ hs) = let more = zeros hs in if h == 0 then more + 1 else 0

longest : List ℕ → ℕ
unfolding zeros
longest [] = 0
longest (h ∷ hs) =
    let rest = longest hs in if ltb (zeros (h ∷ hs)) rest then rest else zeros (h ∷ hs)

drop : ℕ → List ℕ → List ℕ
drop zero hs = hs
drop (suc n) [] = []
drop (suc n) (h ∷ hs) = drop n hs

-- What stands before and behind the first run of that length.
cut_run : ℕ → List ℕ → List ℕ × List ℕ
unfolding zeros drop
cut_run n [] = ([], [])
cut_run n (h ∷ hs) =
    let rest = cut_run n hs in
    if zeros (h ∷ hs) == n then ([], drop n (h ∷ hs)) else (h ∷ rest.0, rest.1)

print_v6 : ℕ → String
unfolding hextets longest cut_run hex join concat
print_v6 n =
    let hs = hextets 8 n [] in
    let run = longest hs in
    let halves = cut_run run hs in
    if leb 2 run
    then concat (join ":" (map hex halves.0) ∷ "::" ∷ join ":" (map hex halves.1) ∷ [])
    else join ":" (map hex hs)

-- str(address), str(interface), str(network)
unfoldable pub print : Address → String
unfolding print_v4 print_v6
print a = elim a.family [ v4 ↦ print_v4 a.number | v6 ↦ print_v6 a.number ]

unfoldable pub print_prefix : Address → ℕ → String
unfolding print concat dec
print_prefix a p = concat (print a ∷ "/" ∷ dec p ∷ [])

abbrev pub print_interface : Interface → String
print_interface i = print_prefix (ip_of i) i.prefix

abbrev pub print_network : Network → String
print_network n = print_prefix (record { family = n.family; number = n.base }) n.prefix

-- What the two directions give at some inputs.
interface_tests :
    (ip_interface "10.20.0.1/24" ≡ some (interface v4 169082881 24))
    × (ip_interface "10.20.0.1/255.255.0.0" ≡ some (interface v4 169082881 16))
    × (ip_interface "fd00::1:2/64" ≡ some (interface v6 336294682933583715844663186250927243266 64))
    × (ip_interface "::" ≡ some (interface v6 0 128))
    × (ip_interface "1::2::3" ≡ none)
    × (ip_interface "10.20.0.01" ≡ none)
unfolding ip_interface
interface_tests = (refl, refl, refl, refl, refl, refl)

print_tests :
    (print_interface (interface v4 169082881 24) ≡ "10.20.0.1/24")
    × (print_interface (interface v6 336294682933583715844663186250927243266 64) ≡ "fd00::1:2/64")
    × (print_interface (interface v6 1 128) ≡ "::1/128")
unfolding print_prefix
print_tests = (refl, refl, refl)
