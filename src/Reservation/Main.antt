-- ===== src/Reservation/Main.antt =====
-- The run of docker-clab-frr-plus-tooling/protected-reservation-materializer.py. What it writes is
-- a list of writes, which a failure ends; the documents that it reads are arguments.
pub mod Identities
pub mod Atomic
use network_renderer_contain.Prelude.{
  String, Bool, true, false, ◌&&◌, ◌||◌, not, Option, none, some, List, [], ◌∷◌, string_eq, all,
  mem, is_nil, if◌then◌else◌,
}
use network_renderer_contain.Py.Value.{Value}
use network_renderer_contain.Py.Result.{Result, ok, err, Error, ◌>>=◌, ◌>>◌, require, or_raise}
use network_renderer_contain.Py.Ip.{Family}
use network_renderer_contain.Reservation.{rejected}
use network_renderer_contain.Reservation.Kea.{materialize_records, insert_reservations}
use network_renderer_contain.Reservation.Dns.{materialize_dns_lines}

-- The command line, with the documents in the place of their paths.
pub record Args : Type 0 where
  pub family : Family
  pub scope : String
  pub subnet : String
  pub pool : String
  pub source : Option Value
  pub template : Value
  pub dns_output : Option String
  pub dns_namespace : Option String
  pub dns_record_class : List String
  pub dns_group : Option String

pub data Write : Type 0 where
  dns_lines : List String → Write
  kea_config : Value → Write

-- What was written, and whether the program then failed.
pub record Run : Type 0 where
  pub writes : List Write
  pub result : Result (Unit {0})

abbrev pub given : Option String → Bool
given none = false
given (some s) = true

abbrev pub has_source : Option Value → Bool
has_source none = false
has_source (some v) = true

abbrev pub dns_enabled : Args → Bool
dns_enabled args =
    (given args.dns_output || (given args.dns_namespace || given args.dns_group))
    || not (is_nil args.dns_record_class)

-- All of the options, or none.
abbrev pub is_complete : Args → Bool
is_complete args =
    has_source args.source
    && ((given args.dns_output && (given args.dns_namespace && given args.dns_group))
        && not (is_nil args.dns_record_class))

-- `kea_ids == dns_ids`, as sets
abbrev pub same_set : List String → List String → Bool
same_set xs ys = all (λ x. mem x ys) xs && all (λ y. mem y xs) ys

-- The configuration with the reservations of the source, and their identities.
unfoldable pub prepared_kea : Args → Option Value → Result (Value × Option (List String))
prepared_kea args none = ok (args.template, none)
prepared_kea args (some source) = do
  e ← materialize_records args.family args.scope args.subnet args.pool source
  config ← insert_reservations args.template args.family e.records e.has_out_of_pool
  ok (config, some e.ids)

-- The local data, where it is asked for. The namespace and the source are given then.
unfoldable pub prepared_dns :
    Args → Option Value → Option String → Result (Option (List String × List String))
prepared_dns args (some source) (some namespace) =
    if dns_enabled args
    then (do
      lines ← materialize_dns_lines args.scope namespace args.dns_record_class source
      ok (some lines))
    else ok none
prepared_dns args source namespace = if dns_enabled args then err rejected else ok none

-- `kea_ids is not None and dns_ids is not None`, and the sets differ
abbrev pub differ : Option (List String) → List String → Bool
differ none dns_ids = false
differ (some kea_ids) dns_ids = not (same_set kea_ids dns_ids)

-- The writes, with the check between them.
unfoldable pub written : Value → Option (List String) → Option (List String × List String) → Run
written config kea_ids none = record { writes = kea_config config ∷ []; result = ok tt }
written config kea_ids (some (lines, dns_ids)) =
    if differ kea_ids dns_ids
    then record { writes = dns_lines lines ∷ []; result = err rejected }
    else record { writes = dns_lines lines ∷ (kea_config config ∷ []); result = ok tt }

abbrev pub run_of : Result Run → Run
run_of (ok r) = r
run_of (err e) = record { writes = []; result = err e }

unfoldable pub prepared : Args → Result Run
prepared args = do
  require (not (dns_enabled args) || is_complete args) rejected
  kea ← prepared_kea args args.source
  dns ← prepared_dns args args.source args.dns_namespace
  ok (written kea.0 kea.1 dns)

unfoldable pub main : Args → Run
main args = run_of (prepared args)
