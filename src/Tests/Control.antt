-- ===== src/Tests/Control.antt =====
-- The modules of one node's inputs, and the filters of two WAN interfaces.
use network_renderer_contain.Prelude.{
  String, ◌≡◌, refl, true, List, [], ◌∷◌, ◌++◌, All, mem, inl, inr, string_eq,
}
use network_renderer_contain.Py.Value.{Value, null, bool, str, Fields}
use network_renderer_contain.Py.Result.{ok}
use network_renderer_contain.Control.{texts_in}
use network_renderer_contain.Control.Wan.{
  later_filter, masquerade_of, nat4_commands, nat6_commands, snat_action, wan_firewall,
}
use network_renderer_contain.Control.Wan.Laws.{
  all_filters, Within, wan_firewall-filters, wan_firewall-Within,
}
use network_renderer_contain.Control.Dispatch.{all_modules, keys, render_inputs}
use network_renderer_contain.Control.Dispatch.Laws.{
  commands_of_all, IsServed, render_inputs-in_order,
}
use network_renderer_contain.Control.Nat.{nat}
use network_renderer_contain.Control.Nat.Laws.{replace_command, routes_v6, nat-Has}
use network_renderer_contain.Tests.{dict, object, array}

abbrev interfaces : List Value
interfaces = str "wan0" ∷ (str "wan1" ∷ [])

abbrev wan_input : Fields
wan_input = dict (("wan_interfaces", array interfaces) ∷ [])

wan_firewall-filters_example :
    wan_firewall wan_input
    ≡ all_filters (texts_in interfaces)
      ++ (nat4_commands (masquerade_of wan_input) (snat_action (masquerade_of wan_input).snat_ip)
          ++ nat6_commands (masquerade_of wan_input))
wan_firewall-filters_example = wan_firewall-filters wan_input (str "wan0") (str "wan1" ∷ []) refl

wan_firewall-Within_example : Within (later_filter "wan1") (wan_firewall wan_input)
wan_firewall-Within_example =
    wan_firewall-Within wan_input (str "wan1") interfaces "wan1" refl (inr (inl refl)) refl

-- The names stand in another order than the modules'.
abbrev inputs : Fields
inputs = dict (
    ("management_egress", object (("interface", str "eth0") ∷ []))
    ∷ (("forwarding", object (("enable_ipv4", bool true) ∷ [])) ∷ (("unused", null) ∷ [])))

abbrev commands : List String
commands =
    "sysctl -w net.ipv4.ip_forward=1" ∷ "nft add table inet clab_guard"
    ∷ "nft 'add chain inet clab_guard output { type filter hook output priority -300 ; policy accept ; }'"
    ∷ "nft 'add chain inet clab_guard forward { type filter hook forward priority -300 ; policy accept ; }'"
    ∷ "nft add rule inet clab_guard output oifname \"eth0\" drop"
    ∷ "nft add rule inet clab_guard forward oifname \"eth0\" drop" ∷ []

inputs_run : render_inputs inputs ≡ ok commands
unfolding render_inputs network_renderer_contain.Control.Dispatch.render_names
    network_renderer_contain.Control.Dispatch.ordered_input_names
    network_renderer_contain.Py.Sort.sorted network_renderer_contain.Control.Dispatch.input_commands
    network_renderer_contain.Control.Dispatch.module_input
    network_renderer_contain.Control.Dispatch.run_module
    network_renderer_contain.Control.management_egress_guard
    network_renderer_contain.Control.forwarding network_renderer_contain.Control.guard_commands
    network_renderer_contain.Py.Text.concat
inputs_run = refl

render_inputs-in_order_example :
    (commands_of_all inputs all_modules ≡ ok commands) × All (IsServed inputs) (keys inputs)
render_inputs-in_order_example = (render_inputs-in_order inputs commands).0 inputs_run

abbrev route6 : Value
route6 = object (("dst", str "fd00::/48") ∷ (("via6", str "fe80::1") ∷ []))

abbrev nat_input : Fields
nat_input = dict (("routes_v6", array (route6 ∷ [])) ∷ [])

abbrev nat_commands : List String
nat_commands =
    "sysctl -w net.ipv4.ip_forward=1" ∷ "sysctl -w net.ipv6.conf.all.forwarding=1"
    ∷ "sh -c 'for i in /proc/sys/net/ipv4/conf/*/rp_filter; do echo 0 > \"$i\"; done'"
    ∷ "ip -6 route replace fd00::/48 via fe80::1" ∷ "ip route flush cache"
    ∷ "ip -6 route flush cache" ∷ []

nat_runs : nat nat_input ≡ ok nat_commands
unfolding nat network_renderer_contain.Control.Nat.route_commands
    network_renderer_contain.Py.Text.concat
nat_runs = refl

nat-Has_example :
    mem ⦃e = string_eq⦄ (replace_command "ip -6" "fd00::/48" "fe80::1") nat_commands ≡ true
nat-Has_example =
    nat-Has routes_v6 nat_input (dict (("dst", str "fd00::/48") ∷ (("via6", str "fe80::1") ∷ [])))
      (route6 ∷ []) nat_commands "fd00::/48" "fe80::1" refl (inl refl) refl refl nat_runs
