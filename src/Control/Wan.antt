-- ===== src/Control/Wan.antt =====
-- clabgen/s88/CM/firewall_wan.py: the filters of the WAN interfaces and the masquerading.
pub mod Laws
use network_renderer_contain.Prelude.{
  String, Bool, true, false, ◌&&◌, not, Option, none, some, List, [], ◌∷◌, ◌++◌, map, if◌then◌else◌,
  is_nil,
}
use network_renderer_contain.Py.Value.{
  Value, bool, arr, obj, nil, end, Fields, get, get_or, as_list, as_dict, text_of, truthy,
}
use network_renderer_contain.Py.Text.{concat, join}
use network_renderer_contain.Py.Repr.{show}
use network_renderer_contain.Control.{list_of, texts_in, nat_table, nat_rule}

-- A command around the name of the interface.
abbrev named : String → String → String → String
named before wan_if after = concat (before ∷ "\"" ∷ wan_if ∷ "\"" ∷ after ∷ [])

-- The filters of one interface, in the order of the chains.
abbrev input_spoof4 : String → String
input_spoof4 wan_if =
    named "nft add rule inet filter input iifname " wan_if
      " ip saddr { 0.0.0.0/8,10.0.0.0/8,100.64.0.0/10,127.0.0.0/8,169.254.0.0/16,172.16.0.0/12,192.168.0.0/16,224.0.0.0/4,240.0.0.0/4 } drop"

abbrev input_spoof6 : String → String
input_spoof6 wan_if =
    named "nft add rule inet filter input iifname " wan_if
      " ip6 saddr { ::1,fc00::/7,fe80::/10 } drop"

abbrev input_ssh : String → String
input_ssh wan_if = named "nft add rule inet filter input iifname != " wan_if " tcp dport 22 accept"

abbrev forward_spoof4 : String → String
forward_spoof4 wan_if =
    named "nft add rule inet filter forward iifname " wan_if
      " ip saddr { 10.0.0.0/8,100.64.0.0/10,172.16.0.0/12,192.168.0.0/16 } drop"

abbrev forward_spoof6 : String → String
forward_spoof6 wan_if =
    named "nft add rule inet filter forward iifname " wan_if " ip6 saddr fc00::/7 drop"

abbrev clamp_mss : String → String
clamp_mss wan_if =
    named "nft add rule inet mangle forward oifname " wan_if
      " tcp flags syn tcp option maxseg size set rt mtu"

unfoldable pub later_filter : String → List String
later_filter wan_if =
    input_spoof4 wan_if
    ∷ input_spoof6 wan_if
    ∷ input_ssh wan_if
    ∷ forward_spoof4 wan_if
    ∷ forward_spoof6 wan_if
    ∷ clamp_mss wan_if
    ∷ []

abbrev pub tables : List String
tables =
    "nft add table inet filter" ∷ "nft flush table inet filter" ∷ "nft add table inet mangle"
    ∷ "nft flush table inet mangle"
    ∷ "nft 'add chain inet filter input { type filter hook input priority 0 ; policy drop ; }'"
    ∷ "nft 'add chain inet filter forward { type filter hook forward priority 0 ; policy accept ; }'"
    ∷ "nft 'add chain inet filter output { type filter hook output priority 0 ; policy accept ; }'"
    ∷ "nft add rule inet filter input iif lo accept"
    ∷ "nft add rule inet filter input ct state established,related accept"
    ∷ "nft add rule inet filter input ct state invalid drop"
    ∷ "nft add rule inet filter input meta l4proto icmpv6 accept" ∷ []

unfoldable pub base_rules : String → List String
base_rules wan_if =
    input_spoof4 wan_if
    ∷ input_spoof6 wan_if
    ∷ input_ssh wan_if
    ∷ "nft add rule inet filter forward ct state established,related accept"
    ∷ "nft add rule inet filter forward ct state invalid drop"
    ∷ forward_spoof4 wan_if
    ∷ forward_spoof6 wan_if
    ∷ "nft add table inet mangle"
    ∷ "nft 'add chain inet mangle forward { type filter hook forward priority mangle ; policy accept ; }'"
    ∷ clamp_mss wan_if
    ∷ []

-- `_render_base_filter`
unfoldable pub base_filter : String → List String
base_filter wan_if = tables ++ base_rules wan_if

-- The state of the loop over the interfaces.
pub record Filtered : Type 0 where
  pub first : Bool
  pub cmds : List String

unfoldable pub filter_interface : Filtered → String → Filtered
filter_interface s wan_if = record {
  first = false;
  cmds = s.cmds ++ (if s.first then base_filter wan_if else later_filter wan_if);
}

abbrev pub filter_named : Filtered → Option String → Filtered
filter_named s none = s
filter_named s (some wan_if) = filter_interface s wan_if

unfoldable pub filter_all : Filtered → List Value → Filtered
filter_all s [] = s
filter_all s (v ∷ vs) = filter_all (filter_named s (text_of v)) vs

-- What `masquerade` asks for.
pub record Masquerade : Type 0 where
  pub oifnames : List String
  pub enable_nat4 : Bool
  pub enable_nat6 : Bool
  pub saddr4 : List String
  pub saddr6 : List String
  pub snat_ip : Value

unfoldable pub masquerade_of : Fields → Masquerade
masquerade_of input =
    let m : Fields = elim (as_dict (get_or (obj end) "masquerade" input)) [
      | none ↦ end
      | some fs ↦ fs
    ] in
    record {
      oifnames = texts_in (list_of "oifnames" m);
      enable_nat4 = truthy (get_or (bool false) "ipv4" m);
      enable_nat6 = truthy (get_or (bool false) "ipv6" m);
      saddr4 = texts_in (list_of "saddr4" m);
      saddr6 = texts_in (list_of "saddr6" m);
      snat_ip = get "snat_ip" m;
    }

abbrev nat_rules : String → List String → List String → String → List String
nat_rules family saddr oifnames action =
    nat_table family ++ map (λ oif. nat_rule family (join "," saddr) oif action) oifnames

abbrev any_of : List String → Bool
any_of ss = not (is_nil ss)

unfoldable pub nat4_commands : Masquerade → String → List String
nat4_commands m action =
    if any_of m.oifnames && m.enable_nat4 && any_of m.saddr4
    then nat_rules "ip" m.saddr4 m.oifnames action
    else []

unfoldable pub nat6_commands : Masquerade → List String
nat6_commands m =
    if any_of m.oifnames && m.enable_nat6 && any_of m.saddr6
    then nat_rules "ip6" m.saddr6 m.oifnames "masquerade"
    else []

abbrev pub snat_action : Value → String
snat_action v = if truthy v then concat ("snat to " ∷ show v ∷ []) else "masquerade"

-- Where there is no WAN interface, the address to translate to is not read.
unfoldable pub wan_commands : Masquerade → List Value → List String
wan_commands m [] = nat4_commands m "masquerade" ++ nat6_commands m
wan_commands m (v ∷ vs) =
    (filter_all (record { first = true; cmds = [] }) (v ∷ vs)).cmds
    ++ (nat4_commands m (snat_action m.snat_ip) ++ nat6_commands m)

abbrev pub wan_commands_of : Masquerade → Option (List Value) → List String
wan_commands_of m none = []
wan_commands_of m (some wan_interfaces) = wan_commands m wan_interfaces

unfoldable pub wan_firewall : Fields → List String
wan_firewall input =
    wan_commands_of (masquerade_of input) (as_list (get_or (arr nil) "wan_interfaces" input))
