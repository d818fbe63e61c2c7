-- ===== src/Reservation/Dns.antt =====
-- The DNS part of docker-clab-frr-plus-tooling/protected-reservation-materializer.py: the local data
-- of the resolver. A dictionary is a list of pairs with distinct keys, a set a list with no member
-- twice; both are read in a sorted order only.
pub mod Owners
pub mod NameLines
pub mod Lines
use network_renderer_contain.Prelude.{
  lookup, assign, ℕ, String, Bool, true, false, ◌&&◌, ◌||◌, not, Option, none, some, List, [], ◌∷◌,
  ◌++◌, map, ◌==◌, nat_eq, string_eq, leb, if◌then◌else◌, mem, all, all_distinct, is_nil, push_new,
}
use network_renderer_contain.Py.Value.{
  Value, str, Fields, get, is_str, as_str, as_dict, is_null, text_of,
}
use network_renderer_contain.Py.Result.{
  Result, ok, err, Error, contract_error, ◌>>=◌, ◌>>◌, require, or_raise,
}
use network_renderer_contain.Py.Sort.{sorted, sort_by}
use network_renderer_contain.Py.Text.{codes, concat, lower}
use network_renderer_contain.Py.Ip.{Family, v4, v6, same_family, Address}
use network_renderer_contain.Py.Ip.Parse.{ip_address, print}
use network_renderer_contain.Reservation.{
  rejected, has_only, not_address, Identity, validated_ipv4_identity, validated_ipv6_identity,
  is_alnum, is_hostname, schema_fields,
}
use network_renderer_contain.Reservation.Kea.{sources}

-- `PUBLICATION_HOSTNAME_MISSING`
abbrev pub hostname_missing : Error
hostname_missing =
    contract_error "diagnostic.protected-reservation-name-publication-hostname-missing"

-- `DNS_NAMESPACE`: labels with a dot behind each. The place is before the first one, inside one or
-- behind a dot.
pub data Place : Type 0 where
  before inside behind : Place

abbrev pub is_label_char : ℕ → Bool
is_label_char c = is_alnum c || ((c == b'_') || (c == b'-'))

abbrev pub next_place : Place → ℕ → Option Place
next_place inside c =
    if c == b'.' then some behind else if is_label_char c then some inside else none
next_place _ c = if is_alnum c then some inside else none

unfoldable pub is_namespace_from : Place → List ℕ → Bool
is_namespace_from behind [] = true
is_namespace_from _ [] = false
is_namespace_from p (c ∷ cs) = elim (next_place p c) [
  | none ↦ false
  | some q ↦ is_namespace_from q cs
]

unfoldable pub is_namespace : String → Bool
unfolding is_namespace_from
is_namespace s = is_namespace_from before (codes s)

-- The addresses of a name, by family.
pub record NameRecords : Type 0 where
  pub ipv4 : List String
  pub ipv6 : List String

abbrev pub no_records : NameRecords
no_records = record { ipv4 = []; ipv6 = [] }

-- The variables of the loop.
pub record Collected : Type 0 where
  pub records_by_name : List (String × NameRecords)
  pub address_owners : List (String × String)
  pub dns_ids : List String

abbrev pub collected_nothing : Collected
collected_nothing = record { records_by_name = []; address_owners = []; dns_ids = [] }

-- `name_records[parsed.version].add(address)`
abbrev pub add_address : Family → String → NameRecords → NameRecords
add_address v4 a r = record r { ipv4 = push_new r.ipv4 a }
add_address v6 a r = record r { ipv6 = push_new r.ipv6 a }

abbrev pub records_of : Option NameRecords → NameRecords
records_of none = no_records
records_of (some r) = r

-- `previous_owner is None or previous_owner == normalized_fqdn`
abbrev pub may_own : String → Option String → Bool
may_own fqdn none = true
may_own fqdn (some owner) = owner == fqdn

abbrev pub claimed : String → Family → String → Collected → Collected
claimed fqdn family address c = record c {
  address_owners = assign address fqdn c.address_owners;
  records_by_name =
      assign fqdn (add_address family address (records_of (lookup fqdn c.records_by_name)))
        c.records_by_name;
}

-- One round of the loop over the addresses of a record.
unfoldable pub claim : String → Collected → String → Result Collected
claim fqdn c address = do
  parsed ← or_raise not_address (ip_address address)
  require (may_own fqdn (lookup address c.address_owners)) rejected
  ok (claimed fqdn parsed.family address c)

unfoldable pub claim_all : String → Collected → List String → Result Collected
claim_all fqdn c [] = ok c
claim_all fqdn c (a ∷ rest) = do c' ← claim fqdn c a; claim_all fqdn c' rest

-- `records_by_name.setdefault(normalized_fqdn, ...)`
unfoldable pub add_name : String → Collected → Collected
add_name fqdn c = record c {
  records_by_name = assign fqdn (records_of (lookup fqdn c.records_by_name)) c.records_by_name;
}

-- The text of the address in a field of the record, which may be absent.
abbrev pub address_text : (Value → Result Identity) → Value → Result (List String)
address_text validated value =
    if is_null value then ok [] else (do i ← validated value; ok (print i.address ∷ []))

abbrev pub chosen : Bool → List String → List String
chosen true addresses = addresses
chosen false addresses = []

-- The addresses for the requested classes: a class of reverse records alone takes both.
unfoldable pub record_addresses : List String → List String → List String → List String
record_addresses classes ipv4 ipv6 =
    let direct = chosen (mem "A" classes) ipv4 ++ chosen (mem "AAAA" classes) ipv6 in
    if mem "PTR" classes && is_nil direct then ipv4 ++ ipv6 else direct

-- The body of the loop.
unfoldable pub collect : String → String → List String → Collected → Value → Result Collected
collect scope namespace classes c entry = do
  fs ← or_raise rejected (as_dict entry)
  require (has_only schema_fields fs) rejected
  require (is_str scope (get "scope" fs)) rejected
  handle ← or_raise rejected (text_of (get "id" fs))
  hostname ← or_raise hostname_missing (text_of (get "hostname" fs))
  require (is_hostname (codes hostname) && not (mem b'.' (codes hostname))) rejected
  let fqdn = lower (concat (hostname ∷ "." ∷ namespace ∷ []))
  ipv4 ← address_text validated_ipv4_identity (get "ipv4" fs)
  ipv6 ← address_text validated_ipv6_identity (get "ipv6" fs)
  let addresses = record_addresses classes ipv4 ipv6
  require (not (is_nil addresses)) rejected
  claim_all fqdn (add_name fqdn (record c { dns_ids = push_new c.dns_ids handle })) addresses

unfoldable pub collect_all :
    String → String → List String → Collected → List Value → Result Collected
collect_all scope namespace classes c [] = ok c
collect_all scope namespace classes c (v ∷ vs) = do
  c' ← collect scope namespace classes c v
  collect_all scope namespace classes c' vs

-- `int(ipaddress.ip_address(value))`, the key that a name's addresses are sorted by
unfoldable pub keyed : List String → Result (List (ℕ × String))
keyed [] = ok []
keyed (s ∷ ss) = do
  a ← or_raise not_address (ip_address s)
  rest ← keyed ss
  ok ((a.number, s) ∷ rest)

abbrev pub before_or_same : ℕ × String → ℕ × String → Bool
before_or_same a b = leb a.0 b.0

abbrev pub data_line : String → String → String → String
data_line fqdn class address =
    concat ("  local-data: \"" ∷ fqdn ∷ " IN " ∷ class ∷ " " ∷ address ∷ "\"" ∷ [])

abbrev pub pointer_line : String → String → String
pointer_line fqdn address = concat ("  local-data-ptr: \"" ∷ address ∷ " " ∷ fqdn ∷ "\"" ∷ [])

abbrev pub asked : Bool → String → List String
asked test line = if test then line ∷ [] else []

abbrev pub address_lines : List String → String → String → String → List String
address_lines classes fqdn class address =
    asked (mem class classes) (data_line fqdn class address)
    ++ asked (mem "PTR" classes) (pointer_line fqdn address)

unfoldable pub lines_of : List String → String → String → List (ℕ × String) → List String
lines_of classes fqdn class [] = []
lines_of classes fqdn class (a ∷ rest) =
    address_lines classes fqdn class a.1 ++ lines_of classes fqdn class rest

-- The lines of a name: its IPv4 addresses and then its IPv6 addresses, each in ascending order.
unfoldable pub name_lines : List String → String → NameRecords → Result (List String)
name_lines classes fqdn r = do
  ipv4 ← keyed r.ipv4
  ipv6 ← keyed r.ipv6
  ok (
      lines_of classes fqdn "A" (sort_by before_or_same ipv4)
      ++ lines_of classes fqdn "AAAA" (sort_by before_or_same ipv6))

unfoldable pub all_lines :
    List String → List (String × NameRecords) → List String → Result (List String)
all_lines classes names [] = ok []
all_lines classes names (fqdn ∷ rest) = do
  lines ← name_lines classes fqdn (records_of (lookup fqdn names))
  later ← all_lines classes names rest
  ok (lines ++ later)

abbrev pub record_classes : List String
record_classes = "A" ∷ "AAAA" ∷ "PTR" ∷ []

unfoldable pub collected_of : String → String → List String → Value → Result Collected
collected_of scope namespace classes source = do
  require (not (scope == "")) rejected
  require (is_namespace namespace) rejected
  require (not (is_nil classes) && all (λ k. mem k record_classes) classes) rejected
  require (all_distinct classes) rejected
  records ← sources source
  collect_all scope namespace classes collected_nothing records

unfoldable pub materialize_dns_lines :
    String → String → List String → Value → Result (List String × List String)
materialize_dns_lines scope namespace classes source = do
  c ← collected_of scope namespace classes source
  lines ← all_lines classes c.records_by_name (sorted (map (λ e. e.0) c.records_by_name))
  ok ("server:" ∷ lines, c.dns_ids)
