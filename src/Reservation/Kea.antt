-- ===== src/Reservation/Kea.antt =====
-- The Kea part of docker-clab-frr-plus-tooling/protected-reservation-materializer.py: the records
-- that are emitted for a source document, and the configuration that they are inserted into.
pub mod Reading
pub mod Records
pub mod Emission
pub mod Insertion
use network_renderer_contain.Prelude.{
  ℕ, String, Bool, true, false, ◌&&◌, ◌||◌, not, Option, none, some, List, [], ◌∷◌, ◌++◌, ◌==◌,
  string_eq, leb, if◌then◌else◌, mem, any,
}
use Prim.Native.String
use network_renderer_contain.Py.Value.{
  ℤ, pos, Value, null, bool, int, str, arr, obj, Fields, field, end, Items, cons, nil, elems, find,
  get, get_or, is_str, as_str, as_dict, as_list, is_null, same, set_item,
}
use network_renderer_contain.Py.Result.{
  Result, ok, err, Error, attribute_error, type_error, key_error, value_error, ◌>>=◌, ◌>>◌, require,
  or_raise,
}
use network_renderer_contain.Py.Text.{codes}
use network_renderer_contain.Py.Ip.{Family, v4, v6, same_family, Address, Network, contains}
use network_renderer_contain.Py.Ip.Parse.{ip_network, print}
use network_renderer_contain.Reservation.{
  rejected, has_only, Pool, reservation_pool, Identity, validated_ipv4_identity,
  validated_ipv6_identity, is_hostname, schema_fields,
}

-- The variables of the loop of `materialize_records`; the sets as the lists of what was added.
pub record Emitted : Type 0 where
  pub records : List Fields
  pub ids : List String
  pub identities : List String
  pub addresses : List String
  pub has_out_of_pool : Bool

abbrev pub emitted_nothing : Emitted
emitted_nothing = record {
  records = [];
  ids = [];
  identities = [];
  addresses = [];
  has_out_of_pool = false;
}

-- What identifies the owner of a record, with its address.
unfoldable pub identity_of : Family → Fields → Result Identity
identity_of v4 fs = validated_ipv4_identity (get "ipv4" fs)
identity_of v6 fs = validated_ipv6_identity (get "ipv6" fs)

-- `hostname is None or (isinstance(hostname, str) and HOSTNAME.fullmatch(hostname))`
abbrev pub checked_hostname : Value → Result (Option String)
checked_hostname null = ok none
checked_hostname (str s) = do require (is_hostname (codes s)) rejected; ok (some s)
checked_hostname _ = err rejected

abbrev pub with_hostname : Option String → Fields
with_hostname none = end
with_hostname (some s) = field "hostname" (str s) end

unfoldable pub emitted_record : Family → Identity → Option String → Fields
emitted_record v4 i hostname =
    field "hw-address" (str i.name)
      (field "ip-address" (str (print i.address)) (with_hostname hostname))
emitted_record v6 i hostname =
    field "duid" (str i.name)
      (field "ip-addresses" (arr (cons (str (print i.address)) nil)) (with_hostname hostname))

abbrev pub in_pool : Pool → Address → Bool
in_pool pool a = leb pool.0 a.number && leb a.number pool.1

unfoldable pub add_record : Family → Pool → String → Identity → Option String → Emitted → Emitted
add_record family pool handle i hostname e = record {
  records = e.records ++ emitted_record family i hostname ∷ [];
  ids = e.ids ++ handle ∷ [];
  identities = e.identities ++ i.name ∷ [];
  addresses = e.addresses ++ print i.address ∷ [];
  has_out_of_pool = e.has_out_of_pool || not (in_pool pool i.address);
}

-- The body of the loop.
unfoldable pub emit : Family → String → Network → Pool → Value → Emitted → Result Emitted
emit family scope network pool entry e = do
  fs ← or_raise rejected (as_dict entry)
  require (has_only schema_fields fs) rejected
  handle ← or_raise rejected (as_str (get "id" fs))
  require (not (handle == "") && not (mem handle e.ids)) rejected
  require (is_str scope (get "scope" fs)) rejected
  hostname ← checked_hostname (get "hostname" fs)
  i ← identity_of family fs
  require (contains network i.address) rejected
  require (not (mem i.name e.identities) && not (mem (print i.address) e.addresses)) rejected
  ok (add_record family pool handle i hostname e)

unfoldable pub emit_all : Family → String → Network → Pool → List Value → Emitted → Result Emitted
emit_all family scope network pool [] e = ok e
emit_all family scope network pool (v ∷ vs) e = do
  e' ← emit family scope network pool v e
  emit_all family scope network pool vs e'

-- The list of a source document, which must not be empty.
abbrev pub sources : Value → Result (List Value)
sources (arr (cons v vs)) = ok (v ∷ elems vs)
sources _ = err rejected

unfoldable pub materialize_records : Family → String → String → String → Value → Result Emitted
materialize_records family scope subnet_text pool_text source = do
  require (not (scope == "")) rejected
  network ← or_raise (value_error "not a network") (ip_network true subnet_text)
  require (same_family family network.family) rejected
  pool ← reservation_pool family network pool_text
  records ← sources source
  emit_all family scope network pool records emitted_nothing

-- `v[key]`
abbrev pub item_of : String → Value → Result Value
item_of key (obj fs) = or_raise (key_error key) (find key fs)
item_of key _ = err (type_error "not subscriptable by a text")

-- `v[0]`
abbrev pub first_of : Value → Result Value
first_of (arr (cons v vs)) = ok v
first_of (str (String.◌∷◌ c s)) = ok (str (String.◌∷◌ c ""))
first_of _ = err (type_error "no first member")

unfoldable pub reservation_address : Family → Value → Result Value
reservation_address v4 r = item_of "ip-address" r
reservation_address v6 r = item_of "ip-addresses" r >>= first_of

abbrev pub identity_key : Family → String
identity_key v4 = "hw-address"
identity_key v6 = "duid"

-- What a set can hold.
abbrev pub is_hashable : Value → Bool
is_hashable (arr vs) = false
is_hashable (obj fs) = false
is_hashable _ = true

-- `{f(r) for r in rs}` of as many members as `rs`: no two of the values are equal.
unfoldable pub all_values : (Value → Result Value) → List Value → Result (List Value)
all_values f [] = ok []
all_values f (r ∷ rs) = do
  v ← f r
  require (is_hashable v) (type_error "unhashable type")
  vs ← all_values f rs
  ok (v ∷ vs)

unfoldable pub distinct_values : List Value → Bool
distinct_values [] = true
distinct_values (v ∷ vs) = not (any (same v) vs) && distinct_values vs

abbrev pub items_of : List Value → Items
items_of [] = nil
items_of (v ∷ vs) = cons v (items_of vs)

abbrev pub objects : List Fields → List Value
objects [] = []
objects (r ∷ rs) = obj r ∷ objects rs

abbrev pub service : Family → String
service v4 = "Dhcp4"
service v6 = "Dhcp6"

abbrev pub subnets_key : Family → String
subnets_key v4 = "subnet4"
subnets_key v6 = "subnet6"

-- The one subnet of the configuration.
abbrev pub only_subnet : Value → Result Fields
only_subnet (arr (cons v nil)) =
    or_raise (attribute_error "a subnet has no attribute 'get'") (as_dict v)
only_subnet _ = err rejected

unfoldable pub updated_subnet : Fields → List Value → Bool → Fields
updated_subnet subnet combined has_out_of_pool =
    set_item "reservations-out-of-pool" (bool has_out_of_pool) (
      set_item "reservations-in-subnet" (bool true)
        (set_item "reservations" (arr (items_of combined)) subnet))

unfoldable pub insert_reservations : Value → Family → List Fields → Bool → Result Value
insert_reservations config family runtime_records has_out_of_pool = do
  root ← or_raise (type_error "not subscriptable by a text") (as_dict config)
  dhcp ← item_of (service family) config
  inner ← or_raise (type_error "not subscriptable by a text") (as_dict dhcp)
  subnets ← item_of (subnets_key family) dhcp
  subnet ← only_subnet subnets
  existing ← or_raise rejected (as_list (get_or (arr nil) "reservations" subnet))
  let combined = existing ++ objects runtime_records
  identities ← all_values (item_of (identity_key family)) combined
  require (distinct_values identities) rejected
  addresses ← all_values (reservation_address family) combined
  require (distinct_values addresses) rejected
  let subnet' = obj (updated_subnet subnet combined has_out_of_pool)
  let dhcp' = obj (set_item (subnets_key family) (arr (cons subnet' nil)) inner)
  ok (obj (set_item (service family) dhcp' root))
