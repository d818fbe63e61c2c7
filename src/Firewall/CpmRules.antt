-- ===== src/Firewall/CpmRules.antt =====
-- clabgen/s88/CM/cpm_firewall_rules.py: the nftables commands of one forwarding rule. The rule for
-- a protected runtime destination is in the child `Runtime`.
pub mod Runtime
use network_renderer_contain.Prelude.{
  ℕ, String, Bool, true, false, ◌&&◌, ◌||◌, not, Option, none, some, List, [], ◌∷◌, ◌++◌, map, ◌==◌,
  string_eq, if◌then◌else◌, is_nil, mem,
}
use network_renderer_contain.Py.Value.{
  ℤ, Value, null, bool, int, str, arr, obj, Items, nil, Fields, find, get, get_or, as_str, as_list,
  as_dict, as_int, text_of, is_str, is_num, is_null, is_true,
}
use network_renderer_contain.Py.Result.{Result, ok, err, value_error, ◌>>=◌, ◌>>◌, require}
use network_renderer_contain.Py.Text.{concat, join, lower, dec, dec_int, has_sub}
use network_renderer_contain.Py.Repr.{show, json_str, quote}
use network_renderer_contain.Py.Ip.{Family, v4, v6, same_family}

abbrev pub family_number : Family → ℕ
family_number v4 = 4
family_number v6 = 6

-- `v in (4, 6)`
abbrev pub family_of : Value → Option Family
family_of v = if is_num 4 v then some v4 else if is_num 6 v then some v6 else none

abbrev pub or_family : Family → Option Family → Family
or_family d none = d
or_family d (some f) = f

abbrev pub scoped : Family → Option String → Option Family → Option (String × Family)
scoped family none f = none
scoped family (some prefix) f = some (prefix, or_family family f)

-- One entry of a prefix list: a prefix with its family. A text with a colon is IPv6; an object that
-- names no family has the rule's.
unfoldable pub prefix_entry : Family → Value → Option (String × Family)
prefix_entry family (str s) = some (s, if has_sub ":" s then v6 else v4)
prefix_entry family (obj fs) =
    scoped family (text_of (get "prefix" fs)) (family_of (get "family" fs))
prefix_entry family _ = none

abbrev pub add_prefix : Family → Option (String × Family) → List String → List String
add_prefix family none rest = rest
add_prefix family (some (prefix, f)) rest = if same_family f family then prefix ∷ rest else rest

unfoldable pub prefixes_in : Family → List Value → List String
prefixes_in family [] = []
prefixes_in family (value ∷ values) =
    add_prefix family (prefix_entry family value) (prefixes_in family values)

-- `_family_prefixes`
unfoldable pub family_prefixes : Fields → String → Family → List String
family_prefixes rule field family = elim (as_list (get field rule)) [
  | none ↦ []
  | some values ↦ prefixes_in family values
]

abbrev braced : List String → String
braced ss = concat ("{ " ∷ join ", " ss ∷ " }" ∷ [])

-- `_prefix_expr`
unfoldable pub prefix_expr : List String → String
prefix_expr (s ∷ []) = s
prefix_expr ss = braced ss

-- `_match_family_applies`
unfoldable pub match_family_applies : Fields → Family → Bool
match_family_applies m family =
    let v = get_or (str "any") "family" m in
    is_str "any" v
    || is_num (family_number family) v
    || is_str (dec (family_number family)) v
    || (same_family family v4 && (is_str "ipv4" v || is_str "ip" v))
    || (same_family family v6 && (is_str "ipv6" v || is_str "ip6" v))

-- The ports that are numbers, as texts; a Boolean counts as one.
unfoldable pub port_texts : List Value → List String
port_texts [] = []
port_texts (v ∷ vs) =
    let rest = port_texts vs in elim (as_int v) [ none ↦ rest | some n ↦ show v ∷ rest ]

abbrev dports_text : List String → String
dports_text [] = ""
dports_text (p ∷ []) = concat (" dport " ∷ p ∷ [])
dports_text (p ∷ (q ∷ ps)) = concat (" dport " ∷ braced (p ∷ (q ∷ ps)) ∷ [])

abbrev dports_of_list : Value → String
dports_of_list v = elim (as_list v) [ none ↦ "" | some ports ↦ dports_text (port_texts ports) ]

-- `_dports_expr`
unfoldable pub dports_expr : Fields → String
dports_expr m =
    let v = get "dports" m in
    elim (as_int v) [ some n ↦ concat (" dport " ∷ show v ∷ []) | none ↦ dports_of_list v ]

abbrev pub proto_text : Fields → String
proto_text m = let v = get "proto" m in if is_null v || is_str "any" v then "" else lower (show v)

-- `_match_suffix`, for a match that applies to the family
unfoldable pub suffix_text : String → String → Family → Result String
suffix_text proto dports family =
    if proto == "icmp" || proto == "icmpv4"
    then (do
      require (not (proto == "icmpv4") || same_family family v4)
          (value_error "IPv4 ICMP match cannot be rendered for IPv6")
      ok (concat (" meta l4proto " ∷ (if same_family family v6 then "icmpv6" else "icmp") ∷ [])))
    else if proto == "icmpv6" || proto == "ipv6-icmp"
    then (do
      require (same_family family v6) (value_error "IPv6 ICMP match cannot be rendered for IPv4")
      ok " meta l4proto icmpv6")
    else if proto == ""
    then ok dports
    else ok (concat (" " ∷ proto ∷ dports ∷ []))

unfoldable pub match_suffix : Fields → Family → Result (Option String)
match_suffix m family =
    if match_family_applies m family
    then (do suffix ← suffix_text (proto_text m) (dports_expr m) family; ok (some suffix))
    else ok none

abbrev pub cons_some : Option String → List String → List String
cons_some none ss = ss
cons_some (some s) ss = s ∷ ss

abbrev pub match_entry : Value → Family → Result (Option String)
match_entry v family = elim (as_dict v) [ none ↦ ok none | some m ↦ match_suffix m family ]

unfoldable pub suffixes_in : List Value → Family → Result (List String)
suffixes_in [] family = ok []
suffixes_in (v ∷ vs) family = do
  suffix ← match_entry v family
  rest ← suffixes_in vs family
  ok (cons_some suffix rest)

-- `_explicit_match_suffixes`
unfoldable pub explicit_match_suffixes : Fields → Family → Result (List String)
explicit_match_suffixes rule family = elim (as_list (get "matches" rule)) [
  | none ↦ ok []
  | some ms ↦ suffixes_in ms family
]

unfoldable pub first_text : List String → Fields → Option String
first_text [] rule = none
first_text (field ∷ fields) rule =
    let rest = first_text fields rule in
    elim (text_of (get field rule)) [ some s ↦ some s | none ↦ rest ]

abbrev comment_of : Option String → String
comment_of none = ""
comment_of (some s) = concat (" comment " ∷ json_str s ∷ [])

-- `_identity_comment`
unfoldable pub identity_comment : Fields → String
identity_comment rule =
    comment_of (first_text ("relationId" ∷ "policyId" ∷ "sourceRelationId" ∷ "comment" ∷ []) rule)

abbrev pub established : String
established = " ct state established,related"

-- `_connection_state_expr`
unfoldable pub connection_state_expr : Fields → Result String
connection_state_expr rule =
    let state = get "connectionState" rule in
    if is_null state || is_str "" state
    then (if is_true (get "returnRule" rule)
        then err (value_error "reverse return rule carries no connection-state restriction")
        else ok "")
    else if is_str "established,related" state
    then ok established
    else err (value_error "forwarding rule carries unsupported connectionState")

abbrev pub action_of : Fields → String
action_of rule = if is_str "accept" (get "action" rule) then "accept" else "drop"
