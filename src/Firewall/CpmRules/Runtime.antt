-- ===== src/Firewall/CpmRules/Runtime.antt =====
-- `_runtime_destination_rule` of clabgen/s88/CM/cpm_firewall_rules.py: the one rule of a protected
-- IPv6 destination, whose address the container derives from a secret file when it starts.
pub mod Laws
use text.Mathlib.Text.{starts_with}
use network_renderer_contain.Prelude.{
  ℕ, String, Bool, true, false, ◌&&◌, ◌||◌, not, Option, none, some, List, [], ◌∷◌, ◌==◌, string_eq,
  if◌then◌else◌,
}
use network_renderer_contain.Py.Value.{
  ℤ, Value, null, str, arr, obj, nil, Fields, get, as_list, as_dict, as_int, text_of, is_str,
  is_num, is_null, is_false,
}
use network_renderer_contain.Py.Result.{
  Result, ok, err, value_error, Error, ◌>>=◌, ◌>>◌, require, or_raise,
}
use network_renderer_contain.Py.Text.{concat, join, has_sub}
use network_renderer_contain.Py.Repr.{show, json_str, quote}
use network_renderer_contain.Firewall.CpmRules.{identity_comment}

-- `v in (None, [])`
abbrev pub is_absent : Value → Bool
is_absent null = true
is_absent (arr nil) = true
is_absent _ = false

-- The only element of a list.
abbrev pub single : Value → Option Value
single v = elim (as_list v) [
  | none ↦ none
  | some vs ↦ elim vs [ [] ↦ none | w ∷ ws ↦ elim ws [ [] ↦ some w | _ ∷ _ ↦ none ] ]
]

abbrev pub ambiguous : Error
ambiguous = value_error "runtime IPv6 destination owner is missing or ambiguous"

abbrev pub incomplete : Error
incomplete = value_error "incomplete protected runtime IPv6 destination contract"

abbrev pub bad_match : Error
bad_match = value_error "runtime destination transport match is incomplete"

-- The rule translates nothing, keeps the source and lets replies back by their state.
unfoldable pub keeps_addresses : Fields → Bool
keeps_addresses rule =
    is_str "stateful-return" (get "returnBehavior" rule)
    && is_str "none" (get "translationMode" rule)
    && is_str "preserve-source" (get "sourcePreservation" rule)
    && is_false (get "destinationTranslation" rule)

-- A file below the directory of secrets, named without a step back.
unfoldable pub is_secret_file : String → Bool
is_secret_file s =
    starts_with s "/run/secrets/" && not (s == "/run/secrets/") && not (has_sub "/../" s)

-- The destination's part of the rule.
pub record Target : Type 0 where
  pub source_file : String
  pub interface_identifier : String
  pub delegated_length : Value
  pub tenant_length : Value
  pub slot : Value

abbrev number_text : Value → Result Value
number_text v = elim (as_int v) [ none ↦ err incomplete | some n ↦ ok v ]

abbrev as_secret : Value → Result String
as_secret v = do s ← or_raise incomplete (text_of v); require (is_secret_file s) incomplete; ok s

unfoldable pub target_of : Fields → Result Target
target_of destination = do
  require (is_str "protected" (get "sourceClass" destination)) incomplete
  source_file ← as_secret (get "sourceFile" destination)
  identifier ← or_raise incomplete (text_of (get "interfaceIdentifier" destination))
  delegated ← number_text (get "delegatedPrefixLength" destination)
  tenant ← number_text (get "perTenantPrefixLength" destination)
  slot ← number_text (get "slot" destination)
  require (is_num 128 (get "targetPrefixLength" destination)) incomplete
  ok (record {
    source_file = source_file;
    interface_identifier = identifier;
    delegated_length = delegated;
    tenant_length = tenant;
    slot = slot;
  })

-- The protocol and the port of the one match.
pub record Transport : Type 0 where
  pub protocol : String
  pub port : Value

abbrev transport_protocol : Value → Option String
transport_protocol v =
    if is_str "tcp" v then some "tcp" else if is_str "udp" v then some "udp" else none

unfoldable pub transport_of : Value → Result Transport
transport_of matches = do
  one ← or_raise (value_error "runtime destination requires one exact match") (single matches)
  m ← or_raise bad_match (as_dict one)
  require (is_str "ipv6" (get "family" m)) bad_match
  protocol ← or_raise bad_match (transport_protocol (get "proto" m))
  port ← or_raise bad_match (single (get "dports" m))
  require (elim (as_int port) [ none ↦ false | some n ↦ true ]) bad_match
  ok (record { protocol = protocol; port = port })

abbrev materializer : Target → String
materializer t = join " " (
    "clab-protected-ipv6-materializer"
    ∷ "--source"
    ∷ quote t.source_file
    ∷ "--delegated-prefix-length"
    ∷ show t.delegated_length
    ∷ "--tenant-prefix-length"
    ∷ show t.tenant_length
    ∷ "--slot"
    ∷ show t.slot
    ∷ "--interface-identifier"
    ∷ quote t.interface_identifier
    ∷ [])

abbrev statement_prefix : String → String → String → String
statement_prefix from to state = concat (
    "add rule inet fw forward iifname "
    ∷ json_str from
    ∷ " oifname "
    ∷ json_str to
    ∷ state
    ∷ " meta nfproto ipv6 ip6 daddr "
    ∷ [])

abbrev statement_suffix : Transport → String → String → String
statement_suffix t action comment = concat (
    " meta l4proto "
    ∷ t.protocol
    ∷ " "
    ∷ t.protocol
    ∷ " dport "
    ∷ show t.port
    ∷ " counter "
    ∷ action
    ∷ comment
    ∷ [])

-- The shell script that derives the address and adds the rule, as one command.
unfoldable pub runtime_command :
    Target → Transport → String → String → String → String → String → String
runtime_command target transport from to action state comment =
    let statement = concat (
      quote (statement_prefix from to state)
      ∷ "\"$runtime_address\""
      ∷ quote (statement_suffix transport action comment)
      ∷ []) in
    let script = join "\n" (
      "set -eu"
      ∷ concat ("runtime_address=\"$(" ∷ materializer target ∷ ")\"" ∷ [])
      ∷ concat ("nft " ∷ statement ∷ [])
      ∷ []) in
    concat ("sh -eu -c " ∷ quote script ∷ [])

unfoldable pub runtime_rule : Fields → Value → String → String → String → String → Result String
runtime_rule rule raw from to action state = do
  owner ← or_raise ambiguous (single raw)
  require (is_absent (get "destinationPrefixes" rule))
      (value_error "protected runtime and static destinations cannot coexist")
  require (keeps_addresses rule) (value_error "runtime IPv6 destination lacks authority")
  destination ← or_raise (value_error "runtime IPv6 destination is malformed") (as_dict owner)
  target ← target_of destination
  transport ← transport_of (get "matches" rule)
  require (not (identity_comment rule == ""))
      (value_error "runtime destination has no deterministic rule owner")
  ok (runtime_command target transport from to action state (identity_comment rule))

-- `_runtime_destination_rule`
unfoldable pub runtime_destination_rule :
    Fields → String → String → String → String → Result (Option String)
runtime_destination_rule rule from to action state =
    let raw = get "destinationRuntimeAddresses" rule in
    if is_absent raw
    then ok none
    else (do command ← runtime_rule rule raw from to action state; ok (some command))
