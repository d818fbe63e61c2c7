-- ===== src/Firewall/Policy.antt =====
-- clabgen/s88/CM/policy_firewall.py: the commands of a node's policy firewall.
pub mod Laws
pub mod Complete
use network_renderer_contain.Prelude.{
  String, Bool, true, false, ◌&&◌, ◌||◌, not, Option, none, some, List, [], ◌∷◌, ◌++◌, map, ◌==◌,
  string_eq, if◌then◌else◌, is_nil, mem, push_new, push_all_new,
}
use network_renderer_contain.Py.Value.{
  ℤ, Value, null, bool, int, str, arr, obj, nil, end, Fields, get, get_or, as_list, as_dict, as_int,
  text_of, is_str, is_null, truthy, entries,
}
use network_renderer_contain.Py.Result.{
  Result, ok, err, runtime_error, type_error, value_error, ◌>>=◌, ◌>>◌, or_raise,
}
use network_renderer_contain.Py.Text.{concat, join, lower, dec_int, int_of}
use network_renderer_contain.Py.Repr.{show}
use network_renderer_contain.Py.Sort.{sorted}
use network_renderer_contain.Firewall.CpmRules.{action_of}
use network_renderer_contain.Firewall.Rules.{rules_for_cpm_rule}

-- `_proto`
unfoldable pub proto : Fields → Option String
proto m =
    if is_null (get "proto" m)
    then none
    else if lower (show (get "proto" m)) == "any"
    then none
    else some (lower (show (get "proto" m)))

-- `int(raw_port)`
abbrev pub int_value : Value → Result ℤ
int_value (str s) = or_raise (value_error "invalid literal for int()") (int_of s)
int_value v = or_raise (type_error "int() argument") (as_int v)

unfoldable pub int_values : List Value → Result (List ℤ)
int_values [] = ok []
int_values (v ∷ vs) = do n ← int_value v; ns ← int_values vs; ok (n ∷ ns)

-- The ports of a match. A single port prints as it stands, the ports of a list as numbers.
unfoldable pub dports : Fields → Result (List String)
dports m =
    let v = get "dports" m in
    if is_null v then ok [] else elim (as_int v) [
      | some n ↦ ok (show v ∷ [])
      | none ↦ elim (as_list v) [
        | none ↦ err (runtime_error "invalid dports")
        | some vs ↦ do ns ← int_values vs; ok (map dec_int ns)
      ]
    ]

-- `tenant in tags`
abbrev has_text : String → List Value → Bool
has_text t [] = false
has_text t (v ∷ vs) = is_str t v || has_text t vs

abbrev is_tagged : String → Value → Bool
is_tagged tenant (str s) = s == tenant
is_tagged tenant v = elim (as_list v) [ none ↦ false | some vs ↦ has_text tenant vs ]

unfoldable pub tagged : String → List (String × Value) → List String
tagged tenant [] = []
tagged tenant ((ifname, v) ∷ rest) =
    let more = tagged tenant rest in if is_tagged tenant v then ifname ∷ more else more

-- `_tenant_interfaces`
unfoldable pub tenant_interfaces : Fields → String → List String
tenant_interfaces interface_tags tenant = sorted (tagged tenant (entries interface_tags))

abbrev in_quotes : String → String
in_quotes s = concat ("\"" ∷ s ∷ "\"" ∷ [])

-- `_set_expr`
unfoldable pub set_expr : List String → String
set_expr (s ∷ []) = in_quotes s
set_expr ss = concat ("{ " ∷ join ", " (map in_quotes ss) ∷ " }" ∷ [])

abbrev proto_part : Option String → String
proto_part none = ""
proto_part (some p) =
    if p == "icmp" then " meta l4proto icmp" else if p == "" then "" else concat (" " ∷ p ∷ [])

abbrev dports_part : List String → String
dports_part [] = ""
dports_part (p ∷ []) = concat (" dport " ∷ p ∷ [])
dports_part (p ∷ (q ∷ ps)) = concat (" dport { " ∷ join ", " (p ∷ (q ∷ ps)) ∷ " }" ∷ [])

-- `_rule_for_match`
unfoldable pub rule_for_match : List String → List String → Fields → String → Result String
rule_for_match src dst m action = do
  ports ← dports m
  ok (
      concat (
        "sh -c \"nft '"
        ∷ "nft add rule inet fw forward iifname "
        ∷ set_expr src
        ∷ " oifname "
        ∷ set_expr dst
        ∷ proto_part (proto m)
        ∷ dports_part ports
        ∷ " counter "
        ∷ action
        ∷ "' 2>/dev/null || true\""
        ∷ []))

-- The loop over the matches of a rule between tenants; the set of the emitted rules is kept beside
-- the commands, whose other lines are not in it.
pub record Emitted : Type 0 where
  pub cmds : List String
  pub emitted : List String

unfoldable pub emit : Emitted → String → Emitted
emit e rule =
    if mem rule e.emitted
    then e
    else record { cmds = e.cmds ++ rule ∷ []; emitted = e.emitted ++ rule ∷ [] }

unfoldable pub emit_all : Emitted → List String → Emitted
emit_all e [] = e
emit_all e (rule ∷ rules) = emit_all (emit e rule) rules

abbrev pub match_rule : List String → List String → String → Value → Result (Option String)
match_rule src dst action v = elim (as_dict v) [
  | none ↦ ok none
  | some m ↦ do rule ← rule_for_match src dst m action; ok (some rule)
]

abbrev pub emit_opt : Emitted → Option String → Emitted
emit_opt e none = e
emit_opt e (some rule) = emit e rule

unfoldable pub emit_matches :
    List String → List String → String → List Value → Emitted → Result Emitted
emit_matches src dst action [] e = ok e
emit_matches src dst action (v ∷ vs) e = do
  rule ← match_rule src dst action v
  emit_matches src dst action vs (emit_opt e rule)

-- A rule between two tenants that both have interfaces.
unfoldable pub tenant_rule :
    Fields → String → String → List Value → String → Emitted → Result Emitted
tenant_rule tags src_tenant dst_tenant matches action e =
    let src = tenant_interfaces tags src_tenant in
    let dst = tenant_interfaces tags dst_tenant in
    if is_nil src || is_nil dst then ok e else emit_matches src dst action matches e

abbrev with_tenants :
    Fields → Fields → Option String → Option String → Option (List Value) → Emitted → Result Emitted
with_tenants tags rule (some src) (some dst) (some matches) e =
    tenant_rule tags src dst matches (action_of rule) e
with_tenants tags rule _ _ _ e = ok e

unfoldable pub legacy_rule : Fields → Fields → Emitted → Result Emitted
legacy_rule tags rule e =
    with_tenants tags rule (text_of (get "src_tenant" rule)) (text_of (get "dst_tenant" rule))
      (as_list (get_or (arr nil) "matches" rule)) e

-- The body of the loop over the rules.
unfoldable pub one_rule : Fields → Fields → Emitted → Result Emitted
one_rule tags rule e = do
  cpm_rules ← rules_for_cpm_rule rule
  if is_nil cpm_rules then legacy_rule tags rule e else ok (emit_all e cpm_rules)

abbrev pub rule_step : Fields → Value → Emitted → Result Emitted
rule_step tags v e = elim (as_dict v) [ none ↦ ok e | some rule ↦ one_rule tags rule e ]

unfoldable pub rule_loop : Fields → List Value → Emitted → Result Emitted
rule_loop tags [] e = ok e
rule_loop tags (v ∷ vs) e = do next ← rule_step tags v e; rule_loop tags vs next

abbrev rp_filter : List String
rp_filter =
    "sh -c 'echo 0 > /proc/sys/net/ipv4/conf/all/rp_filter 2>/dev/null || true'"
    ∷ "sh -c 'for i in /proc/sys/net/ipv4/conf/*/rp_filter; do echo 0 > $i 2>/dev/null; done || true'"
    ∷ []

abbrev pub add_chain : String
add_chain =
    "sh -c \"nft 'add chain inet fw forward { type filter hook forward priority 0 ; policy drop ; }' 2>/dev/null || true\""

abbrev base_rules : List String
base_rules =
    "sh -c 'nft add table inet fw 2>/dev/null || true'" ∷ add_chain
    ∷ "sh -c 'nft add rule inet fw forward ct state established,related accept 2>/dev/null || true'"
    ∷ "sh -c 'nft add rule inet fw forward ct state invalid drop 2>/dev/null || true'"
    ∷ "sh -c 'nft add rule inet fw forward iifname eth0 drop 2>/dev/null || true'"
    ∷ "sh -c 'nft add rule inet fw forward oifname eth0 drop 2>/dev/null || true'" ∷ []

-- The commands before the rules.
unfoldable pub preamble : Fields → List String
preamble input =
    "echo '[FW] policy firewall starting'"
    ∷ ((if truthy (get "disableRpFilter" input) then rp_filter else []) ++ base_rules)

abbrev pub list_table : String
list_table = "sh -c 'nft list table inet fw 2>/dev/null || true'"

unfoldable pub render : Fields → Result (List String)
render input = do
  tags ←
      or_raise (runtime_error "missing firewall interface_tags")
        (as_dict (get_or (obj end) "interface_tags" input))
  rules ←
      or_raise (runtime_error "missing firewall rules") (as_list (get_or (arr nil) "rules" input))
  out ← rule_loop tags rules (record { cmds = preamble input; emitted = [] })
  ok (out.cmds ++ list_table ∷ [])
