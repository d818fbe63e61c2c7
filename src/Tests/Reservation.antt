-- ===== src/Tests/Reservation.antt =====
-- Two reservations of one scope, one of them outside the pool, with the names web and db.
use network_renderer_contain.Prelude.{
  String, true, not, ◌≡◌, ◌↔◌, refl, some, List, [], ◌∷◌, map, length, any, mem, ◌⊎◌, string_eq,
}
use network_renderer_contain.Py.Value.{Value, str, bool, Fields}
use network_renderer_contain.Tests.{dict, object, array}
use network_renderer_contain.Py.Result.{ok}
use network_renderer_contain.Py.Ip.{v4}
use network_renderer_contain.Reservation.Kea.{
  Emitted, emitted_record, in_pool, materialize_records, insert_reservations, objects,
}
use network_renderer_contain.Reservation.Kea.Records.{IsMaterialized, materialize_records_iff}
use network_renderer_contain.Reservation.Kea.Emission.{materialize_records-emitted}
use network_renderer_contain.Reservation.Kea.Insertion.{IsInserted, insert_reservations-IsInserted}
use network_renderer_contain.Reservation.Dns.{
  NameRecords, Collected, collected_of, materialize_dns_lines,
}
use network_renderer_contain.Reservation.Dns.Owners.{collected_of-one_owner}
use network_renderer_contain.Reservation.Dns.Lines.{IsDataLine, materialize_dns_lines_iff}
use network_renderer_contain.Reservation.Main.{Args, main, dns_lines, kea_config}
use network_renderer_contain.Reservation.Main.Atomic.{Outcome, main-Outcome}

abbrev entry : String → String → String → String → Value
entry id address mac hostname = object (
    ("id", str id)
    ∷ ("scope", str "lan")
    ∷ ("ipv4", object (("address", str address) ∷ ("mac-address", str mac) ∷ []))
    ∷ ("hostname", str hostname)
    ∷ [])

abbrev source : Value
source = array (
    entry "r1" "10.0.0.12" "02:00:00:00:00:0A" "Web"
    ∷ entry "r2" "10.0.0.5" "02:00:00:00:00:0b" "db"
    ∷ [])

abbrev template : Value
template = object (
    ("Dhcp4", object (("subnet4", array (object (("subnet", str "10.0.0.0/24") ∷ []) ∷ [])) ∷ []))
    ∷ [])

abbrev subnet : String
subnet = "10.0.0.0/24"

abbrev pool : String
pool = "10.0.0.10 - 10.0.0.20"

abbrev classes : List String
classes = "A" ∷ "PTR" ∷ []

abbrev emitted_entry : String → String → String → Fields
emitted_entry mac address hostname =
    dict (("hw-address", str mac) ∷ ("ip-address", str address) ∷ ("hostname", str hostname) ∷ [])

abbrev emitted : Emitted
emitted = record {
  records =
      emitted_entry "02:00:00:00:00:0a" "10.0.0.12" "Web"
      ∷ emitted_entry "02:00:00:00:00:0b" "10.0.0.5" "db"
      ∷ [];
  ids = "r1" ∷ "r2" ∷ [];
  identities = "02:00:00:00:00:0a" ∷ "02:00:00:00:00:0b" ∷ [];
  addresses = "10.0.0.12" ∷ "10.0.0.5" ∷ [];
  has_out_of_pool = true;
}

emits : materialize_records v4 "lan" subnet pool source ≡ ok emitted
unfolding materialize_records network_renderer_contain.Py.Ip.Parse.ip_network
    network_renderer_contain.Reservation.reservation_pool network_renderer_contain.Py.Text.strip
    network_renderer_contain.Py.Ip.Parse.ip_address network_renderer_contain.Py.Ip.contains
    network_renderer_contain.Reservation.Kea.emit_all network_renderer_contain.Reservation.Kea.emit
    network_renderer_contain.Reservation.Kea.identity_of
    network_renderer_contain.Reservation.validated_ipv4_identity
    network_renderer_contain.Reservation.address_in
    network_renderer_contain.Reservation.Kea.add_record network_renderer_contain.Py.Text.lower
    network_renderer_contain.Py.Ip.Parse.print emitted_record
emits = refl

materialize_records_iff_example :
    (materialize_records v4 "lan" subnet pool source ≡ ok emitted)
    ↔ IsMaterialized v4 "lan" subnet pool source emitted
materialize_records_iff_example = materialize_records_iff v4 "lan" subnet pool source emitted

emitted-IsMaterialized : IsMaterialized v4 "lan" subnet pool source emitted
emitted-IsMaterialized = (materialize_records_iff v4 "lan" subnet pool source emitted).0 emits

lan_emitted :
    (emitted.records
      ≡ map (λ r. emitted_record v4 r.identity r.hostname) emitted-IsMaterialized.reserved)
    × (emitted.has_out_of_pool
        ≡ any
            (λ r. not (in_pool emitted-IsMaterialized.pool r.identity.address))
            emitted-IsMaterialized.reserved)
    × (length emitted-IsMaterialized.reserved ≡ length emitted-IsMaterialized.records)
lan_emitted = materialize_records-emitted v4 "lan" subnet pool source emitted emitted-IsMaterialized

abbrev configured : Value
configured = object (
    (
      "Dhcp4",
      object (
          (
            "subnet4",
            array (
                object (
                  ("subnet", str "10.0.0.0/24")
                  ∷ ("reservations", array (objects emitted.records))
                  ∷ ("reservations-in-subnet", bool true)
                  ∷ ("reservations-out-of-pool", bool true)
                  ∷ [])
                ∷ []),
          )
          ∷ []),
    )
    ∷ [])

inserts : insert_reservations template v4 emitted.records true ≡ ok configured
unfolding insert_reservations network_renderer_contain.Reservation.Kea.all_values
    network_renderer_contain.Reservation.Kea.distinct_values network_renderer_contain.Py.Value.same
    network_renderer_contain.Reservation.Kea.reservation_address
    network_renderer_contain.Py.Value.set_item
    network_renderer_contain.Reservation.Kea.updated_subnet
inserts = refl

insert_reservations-IsInserted_example :
    IsInserted template v4 (objects emitted.records) true configured
insert_reservations-IsInserted_example =
    insert_reservations-IsInserted template v4 emitted.records true configured inserts

abbrev collected : Collected
collected = record {
  records_by_name =
      ("web.lab.", record { ipv4 = "10.0.0.12" ∷ []; ipv6 = [] })
      ∷ ("db.lab.", record { ipv4 = "10.0.0.5" ∷ []; ipv6 = [] })
      ∷ [];
  address_owners = ("10.0.0.12", "web.lab.") ∷ ("10.0.0.5", "db.lab.") ∷ [];
  dns_ids = "r1" ∷ "r2" ∷ [];
}

collects : collected_of "lan" "lab." classes source ≡ ok collected
unfolding collected_of network_renderer_contain.Reservation.Dns.is_namespace
    network_renderer_contain.Reservation.Dns.collect_all
    network_renderer_contain.Reservation.Dns.collect
    network_renderer_contain.Reservation.validated_ipv4_identity
    network_renderer_contain.Reservation.address_in network_renderer_contain.Py.Ip.Parse.ip_address
    network_renderer_contain.Reservation.Dns.record_addresses
    network_renderer_contain.Reservation.Dns.claim_all
    network_renderer_contain.Reservation.Dns.claim network_renderer_contain.Py.Ip.Parse.print
    network_renderer_contain.Reservation.Dns.add_name network_renderer_contain.Py.Text.lower
collects = refl

abbrev web : NameRecords
web = record { ipv4 = "10.0.0.12" ∷ []; ipv6 = [] }

collected_of-one_owner_example : ◌≡◌ {A = String} "web.lab." "web.lab."
collected_of-one_owner_example =
    collected_of-one_owner "lan" "lab." classes source collected collects "web.lab." "web.lab."
      "10.0.0.12" web web refl refl refl refl

abbrev lines : List String
lines =
    "server:" ∷ "  local-data: \"db.lab. IN A 10.0.0.5\"" ∷ "  local-data-ptr: \"10.0.0.5 db.lab.\""
    ∷ "  local-data: \"web.lab. IN A 10.0.0.12\"" ∷ "  local-data-ptr: \"10.0.0.12 web.lab.\"" ∷ []

prints : materialize_dns_lines "lan" "lab." classes source ≡ ok (lines, "r1" ∷ "r2" ∷ [])
unfolding materialize_dns_lines collected_of network_renderer_contain.Reservation.Dns.is_namespace
    network_renderer_contain.Reservation.Dns.collect_all
    network_renderer_contain.Reservation.Dns.collect
    network_renderer_contain.Reservation.validated_ipv4_identity
    network_renderer_contain.Reservation.address_in network_renderer_contain.Py.Ip.Parse.ip_address
    network_renderer_contain.Reservation.Dns.record_addresses
    network_renderer_contain.Reservation.Dns.claim_all
    network_renderer_contain.Reservation.Dns.claim network_renderer_contain.Py.Ip.Parse.print
    network_renderer_contain.Reservation.Dns.add_name
    network_renderer_contain.Reservation.Dns.all_lines network_renderer_contain.Py.Sort.sorted
    network_renderer_contain.Py.Text.lower network_renderer_contain.Reservation.Dns.name_lines
    network_renderer_contain.Reservation.Dns.keyed network_renderer_contain.Py.Sort.insert
    network_renderer_contain.Py.Sort.insert_by network_renderer_contain.Py.Sort.sort_by
    network_renderer_contain.Py.Text.concat network_renderer_contain.Py.Text.dec
    network_renderer_contain.Py.Text.digits network_renderer_contain.Py.Text.hex
    network_renderer_contain.Py.Text.hex_value network_renderer_contain.Py.Text.join
    network_renderer_contain.Py.Text.number network_renderer_contain.Py.Text.number_from
    network_renderer_contain.Py.Text.replace network_renderer_contain.Py.Text.split_on
    network_renderer_contain.Reservation.Dns.is_namespace_from
    network_renderer_contain.Reservation.Dns.lines_of
    network_renderer_contain.Reservation.normalized_duid
    network_renderer_contain.Reservation.normalized_iid
    network_renderer_contain.Reservation.validated_ipv6_identity
prints = refl

materialize_dns_lines_iff_example :
    (c : Collected) × (collected_of "lan" "lab." classes source ≡ ok c)
    × ((line : String)
        → (mem line lines ≡ true)
          ↔ ((line ≡ "server:") ⊎ IsDataLine classes c.records_by_name line))
materialize_dns_lines_iff_example =
    materialize_dns_lines_iff "lan" "lab." classes source lines ("r1" ∷ "r2" ∷ []) prints

abbrev args : Args
args = record {
  family = v4;
  scope = "lan";
  subnet = subnet;
  pool = pool;
  source = some source;
  template = template;
  dns_output = some "/run/dns.conf";
  dns_namespace = some "lab.";
  dns_record_class = classes;
  dns_group = some "unbound";
}

runs : main args ≡ record { writes = dns_lines lines ∷ kea_config configured ∷ []; result = ok tt }
unfolding main network_renderer_contain.Reservation.Main.prepared
    network_renderer_contain.Reservation.Main.prepared_kea materialize_records
    network_renderer_contain.Py.Ip.Parse.ip_network
    network_renderer_contain.Reservation.reservation_pool network_renderer_contain.Py.Text.strip
    network_renderer_contain.Py.Ip.Parse.ip_address network_renderer_contain.Py.Ip.contains
    network_renderer_contain.Reservation.Kea.emit_all network_renderer_contain.Reservation.Kea.emit
    network_renderer_contain.Reservation.Kea.identity_of
    network_renderer_contain.Reservation.validated_ipv4_identity
    network_renderer_contain.Reservation.address_in
    network_renderer_contain.Reservation.Kea.add_record network_renderer_contain.Py.Text.lower
    network_renderer_contain.Py.Ip.Parse.print insert_reservations
    network_renderer_contain.Py.Ip.Parse.interface_v4
    network_renderer_contain.Py.Ip.Parse.interface_v6
    network_renderer_contain.Py.Ip.Parse.ip_interface network_renderer_contain.Py.Ip.masked
    network_renderer_contain.Py.Ip.network_of network_renderer_contain.Py.Sort.insert
    network_renderer_contain.Py.Sort.insert_by network_renderer_contain.Py.Sort.sort_by
    network_renderer_contain.Py.Sort.sorted network_renderer_contain.Py.Text.concat
    network_renderer_contain.Py.Text.dec network_renderer_contain.Py.Text.digits
    network_renderer_contain.Py.Text.hex network_renderer_contain.Py.Text.hex_value
    network_renderer_contain.Py.Text.join network_renderer_contain.Py.Text.lstrip
    network_renderer_contain.Py.Text.number network_renderer_contain.Py.Text.number_from
    network_renderer_contain.Py.Text.replace network_renderer_contain.Py.Text.rstrip_space
    network_renderer_contain.Py.Text.split_on network_renderer_contain.Py.Text.split_once
    network_renderer_contain.Py.Value.same network_renderer_contain.Py.Value.set_item
    network_renderer_contain.Reservation.Dns.add_name
    network_renderer_contain.Reservation.Dns.all_lines
    network_renderer_contain.Reservation.Dns.claim
    network_renderer_contain.Reservation.Dns.claim_all
    network_renderer_contain.Reservation.Dns.collect
    network_renderer_contain.Reservation.Dns.collect_all collected_of
    network_renderer_contain.Reservation.Dns.is_namespace
    network_renderer_contain.Reservation.Dns.is_namespace_from
    network_renderer_contain.Reservation.Dns.keyed network_renderer_contain.Reservation.Dns.lines_of
    materialize_dns_lines network_renderer_contain.Reservation.Dns.name_lines
    network_renderer_contain.Reservation.Dns.record_addresses
    network_renderer_contain.Reservation.Kea.all_values
    network_renderer_contain.Reservation.Kea.distinct_values emitted_record
    network_renderer_contain.Reservation.Kea.reservation_address
    network_renderer_contain.Reservation.Kea.updated_subnet
    network_renderer_contain.Reservation.Main.prepared_dns
    network_renderer_contain.Reservation.Main.written
    network_renderer_contain.Reservation.normalized_duid
    network_renderer_contain.Reservation.normalized_iid
    network_renderer_contain.Reservation.validated_ipv6_identity
runs = refl

main-Outcome_example : Outcome args (main args)
main-Outcome_example = main-Outcome args
