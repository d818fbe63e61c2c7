-- ===== src/Tests/Firewall.antt =====
-- The policy firewall of a node with one accepted relation and its return rule.
use network_renderer_contain.Prelude.{
  String, ◌≡◌, ◌⊎◌, refl, true, false, List, [], ◌∷◌, ◌++◌, all_distinct, All, mem, inl, string_eq,
}
use network_renderer_contain.Py.Value.{pos, Value, bool, int, str, obj, Fields, get}
use network_renderer_contain.Py.Result.{ok}
use network_renderer_contain.Firewall.CpmRules.{prefixes_in, established, identity_comment}
use network_renderer_contain.Firewall.CpmRules.Runtime.{
  Target, Transport, runtime_rule, runtime_command,
}
use network_renderer_contain.Firewall.CpmRules.Runtime.Laws.{IsContract, runtime_rule-IsContract}
use network_renderer_contain.Firewall.Rules.{rules_for_cpm_rule}
use network_renderer_contain.Firewall.Rules.Laws.{IsRule, return-IsRule-established}
use network_renderer_contain.Firewall.Policy.{preamble, list_table, render}
use network_renderer_contain.Firewall.Policy.Laws.{IsAsked, render-IsAsked}
use network_renderer_contain.Firewall.Policy.Complete.{render_complete}
use network_renderer_contain.Tests.{dict, object, array}

abbrev accept_rule : Fields
accept_rule = dict (
    ("fromInterface", str "lan0")
    ∷ (("toInterface", str "wan0")
        ∷ (("action", str "accept")
            ∷ (("family", int (pos 4))
                ∷ ((
                  "matches",
                  array (
                      object (("proto", str "tcp") ∷ (("dports", array (int (pos 22) ∷ [])) ∷ []))
                      ∷ []),
                )
                    ∷ [])))))

abbrev accept_commands : List String
accept_commands =
    "nft 'add rule inet fw forward iifname \"lan0\" oifname \"wan0\" tcp dport 22 counter accept'"
    ∷ []

accept_runs : rules_for_cpm_rule accept_rule ≡ ok accept_commands
unfolding rules_for_cpm_rule network_renderer_contain.Firewall.Rules.rules_between
    network_renderer_contain.Firewall.CpmRules.connection_state_expr
    network_renderer_contain.Firewall.CpmRules.Runtime.runtime_destination_rule
    network_renderer_contain.Firewall.Rules.rules_for_families
    network_renderer_contain.Firewall.Rules.family_rules
    network_renderer_contain.Firewall.CpmRules.explicit_match_suffixes
    network_renderer_contain.Firewall.CpmRules.suffixes_in
    network_renderer_contain.Firewall.CpmRules.match_suffix
    network_renderer_contain.Firewall.CpmRules.match_family_applies
    network_renderer_contain.Firewall.CpmRules.suffix_text network_renderer_contain.Py.Text.lower
    network_renderer_contain.Py.Repr.show network_renderer_contain.Firewall.Rules.command
    network_renderer_contain.Py.Text.concat network_renderer_contain.Py.Repr.quote
    network_renderer_contain.Firewall.Rules.base_statement network_renderer_contain.Py.Repr.json_str
    network_renderer_contain.Firewall.CpmRules.Runtime.is_secret_file
    network_renderer_contain.Firewall.CpmRules.Runtime.keeps_addresses runtime_command runtime_rule
    network_renderer_contain.Firewall.CpmRules.Runtime.target_of
    network_renderer_contain.Firewall.CpmRules.Runtime.transport_of
    network_renderer_contain.Firewall.CpmRules.dports_expr
    network_renderer_contain.Firewall.CpmRules.family_prefixes
    network_renderer_contain.Firewall.CpmRules.first_text identity_comment
    network_renderer_contain.Firewall.CpmRules.port_texts
    network_renderer_contain.Firewall.CpmRules.prefix_entry
    network_renderer_contain.Firewall.CpmRules.prefix_expr prefixes_in
    network_renderer_contain.Py.Repr.all_safe network_renderer_contain.Py.Repr.json_chars
    network_renderer_contain.Py.Repr.repr network_renderer_contain.Py.Repr.repr_chars
    network_renderer_contain.Py.Repr.repr_str network_renderer_contain.Py.Text.dec
    network_renderer_contain.Py.Text.dec_int network_renderer_contain.Py.Text.digits
    network_renderer_contain.Py.Text.has_sub network_renderer_contain.Py.Text.hex
    network_renderer_contain.Py.Text.join network_renderer_contain.Py.Text.replace
accept_runs = refl

abbrev return_rule : Fields
return_rule = dict (
    ("fromInterface", str "wan0")
    ∷ (("toInterface", str "lan0")
        ∷ (("action", str "accept")
            ∷ (("family", int (pos 4))
                ∷ (("returnRule", bool true)
                    ∷ (("connectionState", str "established,related") ∷ []))))))

abbrev return_commands : List String
return_commands =
    "nft 'add rule inet fw forward iifname \"wan0\" oifname \"lan0\" ct state established,related counter accept'"
    ∷ []

return_runs : rules_for_cpm_rule return_rule ≡ ok return_commands
unfolding rules_for_cpm_rule network_renderer_contain.Firewall.Rules.rules_between
    network_renderer_contain.Firewall.CpmRules.connection_state_expr
    network_renderer_contain.Firewall.CpmRules.Runtime.runtime_destination_rule
    network_renderer_contain.Firewall.Rules.rules_for_families
    network_renderer_contain.Firewall.Rules.family_rules
    network_renderer_contain.Firewall.CpmRules.explicit_match_suffixes
    network_renderer_contain.Firewall.Rules.command network_renderer_contain.Py.Text.concat
    network_renderer_contain.Py.Repr.quote network_renderer_contain.Firewall.Rules.base_statement
    network_renderer_contain.Py.Repr.json_str
    network_renderer_contain.Firewall.CpmRules.family_prefixes identity_comment
    network_renderer_contain.Firewall.CpmRules.first_text
return_runs = refl

return-IsRule-established_example :
    (return_commands ≡ [])
    ⊎ ((from : String) × (to : String) × All
          (IsRule return_rule from to established)
          return_commands)
return-IsRule-established_example =
    return-IsRule-established return_rule return_commands refl refl return_runs

abbrev prefixes : List Value
prefixes = str "10.0.0.0/8" ∷ (str "fd00::/8" ∷ [])

abbrev tenant_rule : Fields
tenant_rule = dict (
    ("src_tenant", str "client")
    ∷ ("dst_tenant", str "admin")
    ∷ ("action", str "accept")
    ∷ ("matches", array (object (("proto", str "udp") ∷ ("dports", int (pos 53)) ∷ []) ∷ []))
    ∷ [])

abbrev tags : Fields
tags = dict (("lan0", str "client") ∷ ("mgmt0", array (str "admin" ∷ [])) ∷ [])

abbrev rules : List Value
rules = obj accept_rule ∷ obj return_rule ∷ obj tenant_rule ∷ []

abbrev input : Fields
input = dict (("interface_tags", obj tags) ∷ ("rules", array rules) ∷ [])

abbrev tenant_command : String
tenant_command =
    "sh -c \"nft 'nft add rule inet fw forward iifname \"lan0\" oifname \"mgmt0\" udp dport 53 counter accept' 2>/dev/null || true\""

abbrev commands : List String
commands =
    preamble input ++ (accept_commands ++ (return_commands ++ (tenant_command ∷ list_table ∷ [])))

render_runs : render input ≡ ok commands
unfolding render network_renderer_contain.Firewall.Policy.rule_loop
    network_renderer_contain.Firewall.Policy.one_rule rules_for_cpm_rule
    network_renderer_contain.Firewall.Rules.rules_between
    network_renderer_contain.Firewall.CpmRules.connection_state_expr
    network_renderer_contain.Firewall.CpmRules.Runtime.runtime_destination_rule
    network_renderer_contain.Firewall.Rules.rules_for_families
    network_renderer_contain.Firewall.Rules.family_rules
    network_renderer_contain.Firewall.CpmRules.explicit_match_suffixes
    network_renderer_contain.Firewall.CpmRules.suffixes_in
    network_renderer_contain.Firewall.CpmRules.match_suffix
    network_renderer_contain.Firewall.CpmRules.match_family_applies
    network_renderer_contain.Firewall.CpmRules.suffix_text network_renderer_contain.Py.Text.lower
    network_renderer_contain.Py.Repr.show preamble network_renderer_contain.Firewall.Policy.emit_all
    network_renderer_contain.Firewall.Policy.emit
    network_renderer_contain.Firewall.CpmRules.Runtime.is_secret_file
    network_renderer_contain.Firewall.CpmRules.Runtime.keeps_addresses runtime_command runtime_rule
    network_renderer_contain.Firewall.CpmRules.Runtime.target_of
    network_renderer_contain.Firewall.CpmRules.Runtime.transport_of
    network_renderer_contain.Firewall.CpmRules.dports_expr
    network_renderer_contain.Firewall.CpmRules.family_prefixes
    network_renderer_contain.Firewall.CpmRules.first_text identity_comment
    network_renderer_contain.Firewall.CpmRules.port_texts
    network_renderer_contain.Firewall.CpmRules.prefix_entry
    network_renderer_contain.Firewall.CpmRules.prefix_expr prefixes_in
    network_renderer_contain.Firewall.Policy.dports
    network_renderer_contain.Firewall.Policy.emit_matches
    network_renderer_contain.Firewall.Policy.int_values
    network_renderer_contain.Firewall.Policy.legacy_rule
    network_renderer_contain.Firewall.Policy.proto
    network_renderer_contain.Firewall.Policy.rule_for_match
    network_renderer_contain.Firewall.Policy.set_expr
    network_renderer_contain.Firewall.Policy.tagged
    network_renderer_contain.Firewall.Policy.tenant_interfaces
    network_renderer_contain.Firewall.Policy.tenant_rule
    network_renderer_contain.Firewall.Rules.base_statement
    network_renderer_contain.Firewall.Rules.command network_renderer_contain.Py.Repr.all_safe
    network_renderer_contain.Py.Repr.json_chars network_renderer_contain.Py.Repr.json_str
    network_renderer_contain.Py.Repr.quote network_renderer_contain.Py.Repr.repr
    network_renderer_contain.Py.Repr.repr_chars network_renderer_contain.Py.Repr.repr_str
    network_renderer_contain.Py.Sort.insert network_renderer_contain.Py.Sort.sorted
    network_renderer_contain.Py.Text.concat network_renderer_contain.Py.Text.dec
    network_renderer_contain.Py.Text.dec_int network_renderer_contain.Py.Text.digits
    network_renderer_contain.Py.Text.grouped network_renderer_contain.Py.Text.has_sub
    network_renderer_contain.Py.Text.hex network_renderer_contain.Py.Text.int_of
    network_renderer_contain.Py.Text.join network_renderer_contain.Py.Text.lstrip
    network_renderer_contain.Py.Text.replace network_renderer_contain.Py.Text.rstrip_space
    network_renderer_contain.Py.Text.strip
render_runs = refl

render-IsAsked_example :
    (emitted : List String) × (commands ≡ preamble input ++ (emitted ++ list_table ∷ []))
    × (all_distinct emitted ≡ true)
    × All (IsAsked tags rules) emitted
render-IsAsked_example = render-IsAsked input tags commands rules refl refl render_runs

abbrev ssh : String
ssh = "nft 'add rule inet fw forward iifname \"lan0\" oifname \"wan0\" tcp dport 22 counter accept'"

render_complete_example : mem ssh commands ≡ true
render_complete_example =
    render_complete input accept_rule rules accept_commands commands ssh refl (inl refl) accept_runs
      refl render_runs

abbrev destination : Fields
destination = dict (
    ("sourceClass", str "protected")
    ∷ (("sourceFile", str "/run/secrets/prefix")
        ∷ (("interfaceIdentifier", str "::10")
            ∷ (("delegatedPrefixLength", int (pos 48))
                ∷ (("perTenantPrefixLength", int (pos 64))
                    ∷ (("slot", int (pos 5)) ∷ (("targetPrefixLength", int (pos 128)) ∷ [])))))))

abbrev runtime : Fields
runtime = dict (
    ("destinationRuntimeAddresses", array (obj destination ∷ []))
    ∷ (("returnBehavior", str "stateful-return")
        ∷ (("translationMode", str "none")
            ∷ (("sourcePreservation", str "preserve-source")
                ∷ (("destinationTranslation", bool false)
                    ∷ (("relationId", str "web")
                        ∷ ((
                          "matches",
                          array (
                              object (
                                ("family", str "ipv6")
                                ∷ (("proto", str "tcp")
                                    ∷ (("dports", array (int (pos 443) ∷ [])) ∷ [])))
                              ∷ []),
                        )
                            ∷ [])))))))

abbrev target : Target
target = record {
  source_file = "/run/secrets/prefix";
  interface_identifier = "::10";
  delegated_length = int (pos 48);
  tenant_length = int (pos 64);
  slot = int (pos 5);
}

abbrev transport : Transport
transport = record { protocol = "tcp"; port = int (pos 443) }

abbrev runtime_text : String
runtime_text = runtime_command target transport "wan0" "web0" "accept" "" (identity_comment runtime)

runtime_runs :
    runtime_rule runtime (get "destinationRuntimeAddresses" runtime) "wan0" "web0" "accept" ""
    ≡ ok runtime_text
unfolding runtime_rule network_renderer_contain.Firewall.CpmRules.Runtime.keeps_addresses
    network_renderer_contain.Firewall.CpmRules.Runtime.target_of
    network_renderer_contain.Firewall.CpmRules.Runtime.is_secret_file
    network_renderer_contain.Py.Text.has_sub
    network_renderer_contain.Firewall.CpmRules.Runtime.transport_of identity_comment
    network_renderer_contain.Firewall.CpmRules.first_text network_renderer_contain.Py.Text.concat
    network_renderer_contain.Py.Repr.json_str
runtime_runs = refl

runtime_rule-IsContract_example :
    (t : Target) × (p : Transport) × IsContract runtime
      (get "destinationRuntimeAddresses" runtime)
      t
      p
    × (runtime_text ≡ runtime_command t p "wan0" "web0" "accept" "" (identity_comment runtime))
runtime_rule-IsContract_example =
    runtime_rule-IsContract runtime (get "destinationRuntimeAddresses" runtime) "wan0" "web0"
      "accept" "" runtime_text runtime_runs
