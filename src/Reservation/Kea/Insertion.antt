-- ===== src/Reservation/Kea/Insertion.antt =====
-- What the configuration holds after an insertion.
use network_renderer_contain.Prelude.{
  String, Bool, true, false, ◌≡◌, refl, ap, sym, ◌∙◌, some, List, ◌++◌, ◌==◌, string_eq, eq_iff,
  if◌then◌else◌, arith,
}
use network_renderer_contain.Py.Value.{
  set_item, Value, bool, arr, obj, Fields, field, end, cons, nil, find, get_or, as_dict, as_list,
}
use network_renderer_contain.Py.Result.{
  ok, attribute_error, key_error, require, or_raise, >>=-eq-ok, ok_inj, or_raise-eq-ok,
  require-eq-ok,
}
use network_renderer_contain.Py.Ip.{Family}
use network_renderer_contain.Reservation.{rejected}
use network_renderer_contain.Reservation.Kea.{
  item_of, reservation_address, identity_key, all_values, distinct_values, items_of, objects,
  service, subnets_key, only_subnet, updated_subnet, insert_reservations,
}

-- A key that is set is found with its value, and the others with theirs.
pub find-set_item :
    (j k : String) (v : Value) (fs : Fields)
    → find j (set_item k v fs) ≡ (if k == j then some v else find j fs)
unfolding set_item
find-set_item j k v end = refl
find-set_item j k v (field i w fs) =
    ground (arith, eq_iff k j, eq_iff i k, eq_iff i j, find-set_item j k v fs)

find-set_item_self : (k : String) (v : Value) (fs : Fields) → find k (set_item k v fs) ≡ some v
find-set_item_self k v fs = find-set_item k k v fs ∙ ground (arith, eq_iff k k)

record IsDict (v : Value) (fs : Fields) : Type 0 where
  same : v ≡ obj fs

as_dict-IsDict : (v : Value) (fs : Fields) → as_dict v ≡ some fs → IsDict v fs
as_dict-IsDict (obj gs) fs h = record { same = cc }
as_dict-IsDict _ fs h = absurd (cc)

-- The configuration before and after an insertion of records.
pub record IsInserted (config : Value) (family : Family) (runtime : List Value) (outside : Bool)
    (out : Value) : Type 0 where
  pub root : Fields
  pub dhcp : Fields
  pub subnet : Fields
  pub existing : List Value
  pub root' : Fields
  pub dhcp' : Fields
  pub subnet' : Fields
  pub before : config ≡ obj root
  pub has_service : find (service family) root ≡ some (obj dhcp)
  pub has_subnet : find (subnets_key family) dhcp ≡ some (arr (cons (obj subnet) nil))
  pub has_existing : as_list (get_or (arr nil) "reservations" subnet) ≡ some existing
  pub result : out ≡ obj root'
  pub new_service : find (service family) root' ≡ some (obj dhcp')
  pub new_subnet : find (subnets_key family) dhcp' ≡ some (arr (cons (obj subnet') nil))
  pub reservations : find "reservations" subnet' ≡ some (arr (items_of (existing ++ runtime)))
  pub in_subnet : find "reservations-in-subnet" subnet' ≡ some (bool true)
  pub out_of_pool : find "reservations-out-of-pool" subnet' ≡ some (bool outside)
  pub kept_root : (k : String) → (service family == k) ≡ false → find k root' ≡ find k root
  pub kept_dhcp : (k : String) → (subnets_key family == k) ≡ false → find k dhcp' ≡ find k dhcp
  pub kept_subnet :
      (k : String)
      → ("reservations" == k) ≡ false
      → ("reservations-in-subnet" == k) ≡ false
      → ("reservations-out-of-pool" == k) ≡ false
      → find k subnet' ≡ find k subnet
  pub identities : List Value
  pub identified : all_values (item_of (identity_key family)) (existing ++ runtime) ≡ ok identities
  pub identities_distinct : distinct_values identities ≡ true
  pub addresses : List Value
  pub addressed : all_values (reservation_address family) (existing ++ runtime) ≡ ok addresses
  pub addresses_distinct : distinct_values addresses ≡ true

item_of-eq-ok :
    (key : String) (fs : Fields) (v : Value) → item_of key (obj fs) ≡ ok v → find key fs ≡ some v
item_of-eq-ok key fs v h = or_raise-eq-ok (key_error key) _ v h

only_subnet-eq-ok : (v : Value) (fs : Fields) → only_subnet v ≡ ok fs → v ≡ arr (cons (obj fs) nil)
only_subnet-eq-ok (arr (cons v nil)) fs h =
    let d =
      as_dict-IsDict v fs
        (or_raise-eq-ok (attribute_error "a subnet has no attribute 'get'") _ fs h) in
    ap (λ w. arr (cons w nil)) d.same
only_subnet-eq-ok _ fs h = absurd (cc)

module _ (subnet : Fields) (combined : List Value) (outside : Bool) where
  abbrev listed : Fields
  listed = set_item "reservations" (arr (items_of combined)) subnet

  abbrev inner : Fields
  inner = set_item "reservations-in-subnet" (bool true) listed

  updated-reservations :
      find "reservations" (updated_subnet subnet combined outside) ≡ some (arr (items_of combined))
  unfolding updated_subnet
  updated-reservations =
      find-set_item "reservations" "reservations-out-of-pool" (bool outside) inner
      ∙ find-set_item "reservations" "reservations-in-subnet" (bool true) listed
      ∙ find-set_item_self "reservations" (arr (items_of combined)) subnet

  updated-in_subnet :
      find "reservations-in-subnet" (updated_subnet subnet combined outside) ≡ some (bool true)
  unfolding updated_subnet
  updated-in_subnet =
      find-set_item "reservations-in-subnet" "reservations-out-of-pool" (bool outside) inner
      ∙ find-set_item_self "reservations-in-subnet" (bool true) listed

  updated-out_of_pool :
      find "reservations-out-of-pool" (updated_subnet subnet combined outside) ≡ some (bool outside)
  unfolding updated_subnet
  updated-out_of_pool = find-set_item_self "reservations-out-of-pool" (bool outside) inner

kept :
    (k j : String) (v : Value) (fs : Fields)
    → (k == j) ≡ false
    → find j (set_item k v fs) ≡ find j fs
kept k j v fs other = find-set_item j k v fs ∙ rw other refl

kept_updated :
    (subnet : Fields) (combined : List Value) (outside : Bool) (k : String)
    → ("reservations" == k) ≡ false
    → ("reservations-in-subnet" == k) ≡ false
    → ("reservations-out-of-pool" == k) ≡ false
    → find k (updated_subnet subnet combined outside) ≡ find k subnet
unfolding updated_subnet
kept_updated subnet combined outside k a b c =
    kept "reservations-out-of-pool" k (bool outside) (inner subnet combined outside) c
    ∙ kept "reservations-in-subnet" k (bool true) (listed subnet combined outside) b
    ∙ kept "reservations" k (arr (items_of combined)) subnet a

-- Where records are inserted into a Kea configuration, its one subnet then lists the reservations
-- that it had and the new ones behind them, with the two flags set and every other key as before;
-- no two of the listed reservations have an identity or an address in common.
pub insert_reservations-IsInserted :
    (config : Value) (family : Family) (runtime_records : List Fields) (outside : Bool)
    (out : Value)
    → insert_reservations config family runtime_records outside ≡ ok out
    → IsInserted config family (objects runtime_records) outside out
unfolding insert_reservations
insert_reservations-IsInserted config family runtime_records outside out h =
    let (root, is_root, h₁) = >>=-eq-ok (or_raise _ (as_dict config)) _ h in
    let (dhcp, has_dhcp, h₂) = >>=-eq-ok (item_of (service family) config) _ h₁ in
    let (inner, is_inner, h₃) = >>=-eq-ok (or_raise _ (as_dict dhcp)) _ h₂ in
    let (subnets, has_subnets, h₄) = >>=-eq-ok (item_of (subnets_key family) dhcp) _ h₃ in
    let (subnet, is_subnet, h₅) = >>=-eq-ok (only_subnet subnets) _ h₄ in
    let (existing, is_list, h₆) =
      >>=-eq-ok (or_raise rejected (as_list (get_or (arr nil) "reservations" subnet))) _ h₅ in
    let combined = existing ++ objects runtime_records in
    let (identities, identified, h₇) =
      >>=-eq-ok (all_values (item_of (identity_key family)) combined) _ h₆ in
    let (_, distinct, h₈) = >>=-eq-ok (require (distinct_values identities) rejected) _ h₇ in
    let (addresses, addressed, h₉) =
      >>=-eq-ok (all_values (reservation_address family) combined) _ h₈ in
    let (_, apart, h') = >>=-eq-ok (require (distinct_values addresses) rejected) _ h₉ in
    let before = (as_dict-IsDict config root (or_raise-eq-ok _ _ _ is_root)).same in
    let dhcp_is = (as_dict-IsDict dhcp inner (or_raise-eq-ok _ _ _ is_inner)).same in
    let subnets_is = only_subnet-eq-ok subnets subnet is_subnet in
    let subnet' = updated_subnet subnet combined outside in
    let dhcp' = set_item (subnets_key family) (arr (cons (obj subnet') nil)) inner in
    let root' = set_item (service family) (obj dhcp') root in
    record {
      root = root;
      dhcp = inner;
      subnet = subnet;
      existing = existing;
      root' = root';
      dhcp' = dhcp';
      subnet' = subnet';
      before = before;
      has_service =
          item_of-eq-ok (service family) root dhcp (rw before at has_dhcp) ∙ ap some dhcp_is;
      has_subnet =
          item_of-eq-ok (subnets_key family) inner subnets (rw dhcp_is at has_subnets)
          ∙ ap some subnets_is;
      has_existing = or_raise-eq-ok rejected _ _ is_list;
      result = sym (ok_inj _ _ h');
      new_service = find-set_item_self (service family) (obj dhcp') root;
      new_subnet = find-set_item_self (subnets_key family) (arr (cons (obj subnet') nil)) inner;
      reservations = updated-reservations subnet combined outside;
      in_subnet = updated-in_subnet subnet combined outside;
      out_of_pool = updated-out_of_pool subnet combined outside;
      kept_root = λ k other. kept (service family) k (obj dhcp') root other;
      kept_dhcp = λ k other. kept (subnets_key family) k (arr (cons (obj subnet') nil)) inner other;
      kept_subnet = kept_updated subnet combined outside;
      identities = identities;
      identified = identified;
      identities_distinct = require-eq-ok _ rejected _ distinct;
      addresses = addresses;
      addressed = addressed;
      addresses_distinct = require-eq-ok _ rejected _ apart;
    }
