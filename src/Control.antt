-- ===== src/Control.antt =====
-- The control modules of clabgen/s88/CM that build nftables and sysctl commands of their input only,
-- and the dispatch over them.
pub mod Wan
pub mod Nat
pub mod Dispatch
use network_renderer_contain.Prelude.{
  String, Bool, true, false, Option, none, some, List, [], ◌∷◌, ◌++◌, if◌then◌else◌, is_nil,
}
use network_renderer_contain.Py.Value.{
  Value, null, bool, int, str, arr, obj, nil, cons, end, field, Items, elems, Fields, get, get_or,
  as_list, as_str, text_of, truthy,
}
use network_renderer_contain.Py.Result.{Result, ok, err, value_error, type_error, ◌>>=◌, or_raise}
use network_renderer_contain.Py.Text.{concat}

-- The list of a field, or none where it is no list.
abbrev pub list_of : String → Fields → List Value
list_of k input = elim (as_list (get_or (arr nil) k input)) [ none ↦ [] | some vs ↦ vs ]

abbrev pub add_text : Option String → List String → List String
add_text none rest = rest
add_text (some s) rest = s ∷ rest

-- The members that are texts, not empty.
abbrev pub texts_in : List Value → List String
texts_in [] = []
texts_in (v ∷ vs) = add_text (text_of v) (texts_in vs)

-- The commands that make a family's NAT table and its chain; the family is `ip` or `ip6`.
unfoldable pub nat_table : String → List String
nat_table family =
    concat ("nft add table " ∷ family ∷ " nat" ∷ [])
    ∷ concat (
        "nft 'add chain " ∷ family
        ∷ " nat postrouting { type nat hook postrouting priority 101 ; policy accept ; }'" ∷ [])
    ∷ []

-- The rule that translates the sources of a set on their way out of an interface.
unfoldable pub nat_rule : String → String → String → String → String
nat_rule family srcset oif action = concat (
    "nft add rule " ∷ family ∷ " nat postrouting " ∷ family ∷ " saddr { " ∷ srcset ∷ " } oifname \""
    ∷ oif ∷ "\" " ∷ action ∷ [])

-- clabgen/s88/CM/forwarding.py
abbrev when : Bool → List String → List String
when b cs = if b then cs else []

unfoldable pub forwarding : Fields → List String
forwarding input =
    let enable_ipv4 = truthy (get_or (bool false) "enable_ipv4" input) in
    let enable_ipv6 = truthy (get_or (bool false) "enable_ipv6" input) in
    when enable_ipv4 ("sysctl -w net.ipv4.ip_forward=1" ∷ [])
    ++ (when enable_ipv6 ("sysctl -w net.ipv6.conf.all.forwarding=1" ∷ [])
        ++ when (truthy (get_or (bool false) "disable_eth0" input)) (
            when enable_ipv4 (
              "sh -c 'test ! -d /proc/sys/net/ipv4/conf/eth0 || sysctl -w net.ipv4.conf.eth0.forwarding=0'"
              ∷ [])
            ++ when enable_ipv6 (
                "sh -c 'test ! -d /proc/sys/net/ipv6/conf/eth0 || sysctl -w net.ipv6.conf.eth0.forwarding=0'"
                ∷ [])))

-- clabgen/s88/CM/empty.py
unfoldable pub empty : Fields → List String
empty input = []

abbrev drop_out_of : String → String → String
drop_out_of chain interface =
    concat ("nft add rule inet clab_guard " ∷ chain ∷ " oifname \"" ∷ interface ∷ "\" drop" ∷ [])

unfoldable pub guard_commands : String → List String
guard_commands interface =
    "nft add table inet clab_guard"
    ∷ "nft 'add chain inet clab_guard output { type filter hook output priority -300 ; policy accept ; }'"
    ∷ "nft 'add chain inet clab_guard forward { type filter hook forward priority -300 ; policy accept ; }'"
    ∷ drop_out_of "output" interface
    ∷ drop_out_of "forward" interface
    ∷ []

-- clabgen/s88/CM/management_egress_guard.py
unfoldable pub management_egress_guard : Fields → Result (List String)
management_egress_guard input = do
  interface ←
      or_raise (value_error "management interface must be specified, cannot default to eth0")
        (text_of (get "interface" input))
  ok (guard_commands interface)
