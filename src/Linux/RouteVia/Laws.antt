-- ===== src/Linux/RouteVia/Laws.antt =====
-- The next hop of a route is none of the node's own addresses, and outside an overlay it lies in
-- the network of its interface.
use network_renderer_contain.Prelude.{
  String, ◌≡◌, ◌≢◌, ◌⊎◌, Bool, true, false, some, List, string_eq, mem, Has, arith, Bool-cases,
  Option-cases, inl, inr, ap,
}
use network_renderer_contain.Py.Value.{Value, null, Fields, obj, str, get, is_str}
use network_renderer_contain.Py.Result.{ok, >>=-eq-ok, Result-cases}
use network_renderer_contain.Py.Ip.{Address, Interface, network_of, contains}
use network_renderer_contain.Py.Ip.Parse.{print}
use network_renderer_contain.Py.Ip.Coerce.{address_of, interface_of}
use network_renderer_contain.Linux.Addressing.{interfaces_of}
use network_renderer_contain.Linux.RouteValues.{via4, via6}
use network_renderer_contain.Linux.RouteState.{Texts, local_ips}
use network_renderer_contain.Linux.RouteState.Laws.{Own4, Own6, local_ips-Has}
use network_renderer_contain.Linux.RouteVia.{
  same_subnet, is_in, first_choice, second_choice, accept, effective, effective_via4,
  effective_via6,
}

abbrev is_overlay : Fields → Bool
is_overlay iface = is_str "overlay" (get "kind" iface)

-- A usable next hop among these own addresses.
pub record IsUsable (iface : Fields) (locals : Texts) (addr v : Value) : Type 0 where
  pub foreign : is_in v locals ≡ ok false
  pub reached : (is_str "overlay" (get "kind" iface) ≡ true) ⊎ (same_subnet v addr ≡ true)

accept_sound :
    (iface : Fields) (locals : Texts) (via addr v : Value)
    → accept iface locals via addr ≡ ok v
    → (v ≡ null) ⊎ IsUsable iface locals addr v
unfolding accept
accept_sound iface locals via addr v h = elim (Result-cases (is_in via locals)) [
  | inr (_, e) ↦ absurd (ground arith)
  | inl (own, e) ↦ elim (Bool-cases own) [
    | inl mine ↦ inl (ground arith)
    | inr other ↦ elim (Bool-cases (is_overlay iface)) [
      | inl overlay ↦ inr (record { foreign = ground (arith, e, other); reached = inl overlay })
      | inr plain ↦ elim (Bool-cases (same_subnet via addr)) [
        | inl near ↦
            inr
              (record { foreign = ground (arith, e, other); reached = inr (ground (arith, near)) })
        | inr far ↦ inl (ground (arith, e, other, plain, far))
      ]
    ]
  ]
]

foreign_text :
    (iface : Fields) (locals : Texts) (addr : Value) (s t : String)
    → (str s ≡ null) ⊎ IsUsable iface locals addr (str s)
    → mem t locals ≡ true
    → s ≢ t
unfolding is_in
foreign_text iface locals addr s t (inl e) m = λ same. cc
foreign_text iface locals addr s t (inr u) m = λ same. ground (arith, u.foreign)

effective_sound :
    (iface route : Fields) (locals : Texts) (start addr v : Value)
    → effective iface route locals start addr ≡ ok v
    → (v ≡ null) ⊎ IsUsable iface locals addr v
unfolding effective
effective_sound iface route locals start addr v h =
    let (via, _, h₁) = >>=-eq-ok (first_choice route locals start addr) _ h in
    let (chosen, _, h₂) = >>=-eq-ok (second_choice locals via addr) _ h₁ in
    accept_sound iface locals chosen addr v h₂

-- The next hop of an IPv4 route, where it is a text, is none of the IPv4 addresses that an
-- interface of the node has itself and that are no WAN peer's.
pub effective_via4-ne-own :
    (node iface route own : Fields) (interfaces : List (String × Value)) (s ifname t : String)
    → effective_via4 node iface route ≡ ok (str s)
    → interfaces_of node ≡ ok interfaces
    → Has (ifname, obj own) interfaces
    → Own4 node ifname own t
    → s ≢ t
unfolding effective_via4
effective_via4-ne-own node iface route own interfaces s ifname t h e m o =
    let (locals, el, h₁) = >>=-eq-ok (local_ips node) _ h in
    let (has4, _) = local_ips-Has node interfaces locals ifname own t el e m in
    foreign_text iface locals.0 (get "addr4" iface) s t
      (effective_sound iface route locals.0 (via4 route) (get "addr4" iface) (str s) h₁) (has4 o)

effective_via6-ne-own :
    (node iface route own : Fields) (interfaces : List (String × Value)) (s ifname t : String)
    → effective_via6 node iface route ≡ ok (str s)
    → interfaces_of node ≡ ok interfaces
    → Has (ifname, obj own) interfaces
    → Own6 node ifname own t
    → s ≢ t
unfolding effective_via6
effective_via6-ne-own node iface route own interfaces s ifname t h e m o =
    let (locals, el, h₁) = >>=-eq-ok (local_ips node) _ h in
    let (_, has6) = local_ips-Has node interfaces locals ifname own t el e m in
    foreign_text iface locals.1 (get "addr6" iface) s t
      (effective_sound iface route locals.1 (via6 route) (get "addr6" iface) (str s) h₁) (has6 o)

-- The next hop of an IPv6 route, where it is the text that an address prints as, is none of the
-- IPv6 addresses, link-local ones included, that an interface of the node has itself and that are
-- no WAN peer's. A next hop in another spelling is compared as it stands, and is not covered.
pub effective_via6-ne-own_address :
    (node iface route own : Fields) (interfaces : List (String × Value)) (ifname : String)
    (a b : Address)
    → effective_via6 node iface route ≡ ok (str (print a))
    → interfaces_of node ≡ ok interfaces
    → Has (ifname, obj own) interfaces
    → Own6 node ifname own (print b)
    → a ≢ b
effective_via6-ne-own_address node iface route own interfaces ifname a b h e m o = λ same.
    effective_via6-ne-own node iface route own interfaces (print a) ifname (print b) h e m o
      (ap print same)

same_subnet_sound :
    (gateway addr : Value)
    → same_subnet gateway addr ≡ true
    → (i : Interface) × (a : Address) × (interface_of addr ≡ some i)
      × (address_of gateway ≡ some a)
      × (contains (network_of i) a ≡ true)
unfolding same_subnet
same_subnet_sound gateway addr h = elim (Option-cases (interface_of addr)) [
  | inl e ↦ absurd (ground arith)
  | inr (i, e) ↦ elim (Option-cases (address_of gateway)) [
    | inl e' ↦ absurd (ground arith)
    | inr (a, e') ↦ (i, a, e, e', ground arith)
  ]
]

reach :
    (iface : Fields) (locals : Texts) (addr : Value) (s : String)
    → (str s ≡ null) ⊎ IsUsable iface locals addr (str s)
    → is_overlay iface ≡ false
    → same_subnet (str s) addr ≡ true
reach iface locals addr s (inl e) plain = cc
reach iface locals addr s (inr u) plain = ground (arith, u.reached)

-- On an interface that is no overlay, the next hop of an IPv4 route, where it is a text, is an
-- address of the network of the interface's IPv4 address.
pub effective_via4-inside :
    (node iface route : Fields) (s : String)
    → effective_via4 node iface route ≡ ok (str s)
    → is_str "overlay" (get "kind" iface) ≡ false
    → (i : Interface) × (a : Address) × (interface_of (get "addr4" iface) ≡ some i)
      × (address_of (str s) ≡ some a)
      × (contains (network_of i) a ≡ true)
unfolding effective_via4
effective_via4-inside node iface route s h plain =
    let (locals, el, h₁) = >>=-eq-ok (local_ips node) _ h in
    same_subnet_sound (str s) (get "addr4" iface) (
      reach iface locals.0 (get "addr4" iface) s
        (effective_sound iface route locals.0 (via4 route) (get "addr4" iface) (str s) h₁) plain)
