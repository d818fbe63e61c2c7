-- ===== src/Firewall/Rules.antt =====
-- `rules_for_cpm_rule` of clabgen/s88/CM/cpm_firewall_rules.py.
pub mod Laws
pub mod Families
use network_renderer_contain.Prelude.{
  String, Bool, true, false, ◌&&◌, not, Option, none, some, List, [], ◌∷◌, ◌++◌, map, ◌==◌,
  string_eq, if◌then◌else◌, is_nil,
}
use network_renderer_contain.Py.Value.{Value, Fields, get, as_list, text_of, is_str}
use network_renderer_contain.Py.Result.{Result, ok, err, ◌>>=◌}
use network_renderer_contain.Py.Text.{concat}
use network_renderer_contain.Py.Repr.{json_str, quote}
use network_renderer_contain.Py.Ip.{Family, v4, v6}
use network_renderer_contain.Firewall.CpmRules.{
  family_of, family_prefixes, prefix_expr, explicit_match_suffixes, identity_comment,
  connection_state_expr, action_of,
}
use network_renderer_contain.Firewall.CpmRules.Runtime.{runtime_destination_rule}

-- A non-empty list.
abbrev pub is_filled : Value → Bool
is_filled v = elim (as_list v) [ none ↦ false | some vs ↦ not (is_nil vs) ]

abbrev pub families_of : Fields → List Family
families_of rule = elim (family_of (get "family" rule)) [ none ↦ v4 ∷ (v6 ∷ []) | some f ↦ f ∷ [] ]

abbrev pub ip_word : Family → String
ip_word v4 = " ip"
ip_word v6 = " ip6"

abbrev address_part : String → Family → List String → String
address_part word family prefixes =
    if is_nil prefixes then "" else concat (ip_word family ∷ word ∷ prefix_expr prefixes ∷ [])

-- The part of a statement that its matches share.
unfoldable pub base_statement : Fields → String → String → String → Family → String
base_statement rule from to state family = concat (
    "add rule inet fw forward iifname "
    ∷ json_str from
    ∷ " oifname "
    ∷ json_str to
    ∷ state
    ∷ address_part " saddr " family (family_prefixes rule "sourcePrefixes" family)
    ∷ address_part " daddr " family (family_prefixes rule "destinationPrefixes" family)
    ∷ [])

unfoldable pub command : String → String → String → String → String
command base suffix action comment =
    concat ("nft " ∷ quote (concat (base ∷ suffix ∷ " counter " ∷ action ∷ comment ∷ [])) ∷ [])

abbrev pub suffixed : String → String → String → List String → List String
suffixed base action comment [] = []
suffixed base action comment (s ∷ ss) =
    command base s action comment ∷ suffixed base action comment ss

-- Whether destinations are named, but none of the family.
abbrev pub lacks_destination : Fields → Family → Bool
lacks_destination rule family =
    is_filled (get "destinationPrefixes" rule)
    && is_nil (family_prefixes rule "destinationPrefixes" family)

-- The suffixes that the statements of a family end with: those of the matches, of DNS, or none.
abbrev pub suffixes_of : Fields → List String → List String
suffixes_of rule matched =
    if not (is_nil matched)
    then matched
    else if is_filled (get "matches" rule)
    then []
    else if is_str "dns" (get "trafficType" rule)
    then " udp dport 53" ∷ (" tcp dport 53" ∷ [])
    else "" ∷ []

unfoldable pub family_rules :
    Fields → String → String → String → String → Family → Result (List String)
family_rules rule from to action state family = if lacks_destination rule family then ok [] else (do
  matched ← explicit_match_suffixes rule family
  ok (
      suffixed (base_statement rule from to state family) action (identity_comment rule)
        (suffixes_of rule matched)))

unfoldable pub rules_for_families :
    Fields → String → String → String → String → List Family → Result (List String)
rules_for_families rule from to action state [] = ok []
rules_for_families rule from to action state (family ∷ families) = do
  rules ← family_rules rule from to action state family
  rest ← rules_for_families rule from to action state families
  ok (rules ++ rest)

abbrev pub or_families :
    Fields → String → String → String → String → Option String → Result (List String)
or_families rule from to action state (some runtime) = ok (runtime ∷ [])
or_families rule from to action state none =
    rules_for_families rule from to action state (families_of rule)

-- The rules between two interfaces that are named.
unfoldable pub rules_between : Fields → String → String → Result (List String)
rules_between rule from to = do
  state ← connection_state_expr rule
  runtime ← runtime_destination_rule rule from to (action_of rule) state
  or_families rule from to (action_of rule) state runtime

unfoldable pub rules_for_cpm_rule : Fields → Result (List String)
rules_for_cpm_rule rule = elim (text_of (get "fromInterface" rule)) [
  | none ↦ ok []
  | some from ↦ elim (text_of (get "toInterface" rule)) [
    | none ↦ ok []
    | some to ↦ rules_between rule from to
  ]
]
