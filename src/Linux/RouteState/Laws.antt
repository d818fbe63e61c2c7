-- ===== src/Linux/RouteState/Laws.antt =====
-- The set of a node's own addresses holds those of each of its interfaces.
use mathlib.Core.Path.{subst}
use network_renderer_contain.Prelude.{
  String, ◌≡◌, ◌≢◌, ◌⊎◌, refl, ap, sym, ◌∙◌, true, false, Option, none, some, List, [], ◌∷◌,
  string_eq, mem, push_new-keeps, push_new-has, Has, arith, Option-cases, inl, inr, eq_iff,
}
use network_renderer_contain.Py.Value.{Value, Fields, obj, str, get, text_of}
use network_renderer_contain.Py.Result.{ok_inj, Result, ok, >>=-eq-ok, Result-cases}
use network_renderer_contain.Linux.Addressing.{conflicts_with_wan_peer, interfaces_of}
use network_renderer_contain.Linux.RouteState.{
  Texts, add_address, add_text, add_loopback, with_loopback, ip4_text, ip6_text, ip_text,
  canon_text, local_in, local_ips, loopback_of,
}

module _ (node : Fields) (ifname : String) (f : String → Result String) where
  add_text-keeps :
      (s : String) (texts next : Texts) (a : String)
      → add_text node ifname f s texts ≡ ok next
      → mem a texts ≡ true
      → mem a next ≡ true
  unfolding add_text
  add_text-keeps s texts next a h k =
      elim (Result-cases (conflicts_with_wan_peer node ifname (str s))) [
        | inr (_, e) ↦ ground arith
        | inl (conflict, e) ↦ elim (Result-cases (f s)) [
          | inl (t, et) ↦ ground (arith, push_new-keeps texts t a)
          | inr (_, et) ↦ ground arith
        ]
      ]

  add_address-keeps :
      (addr : Value) (texts next : Texts) (a : String)
      → add_address node ifname f addr texts ≡ ok next
      → mem a texts ≡ true
      → mem a next ≡ true
  unfolding add_address
  add_address-keeps addr texts next a h k = elim (Option-cases (text_of addr)) [
    | inl e ↦ ground arith
    | inr (s, e) ↦ add_text-keeps s texts next a (ground arith) k
  ]

  add_address-has :
      (s t : String) (texts next : Texts)
      → s ≢ ""
      → conflicts_with_wan_peer node ifname (str s) ≡ ok false
      → f s ≡ ok t
      → add_address node ifname f (str s) texts ≡ ok next
      → mem t next ≡ true
  unfolding add_address add_text
  add_address-has s t texts next filled free e h = ground (arith, eq_iff s "", push_new-has texts t)

-- A text that `f` gives for the address of an interface, where it is there, filled, and not the
-- address of a WAN peer.
pub record IsOwn (node : Fields) (ifname : String) (f : String → Result String) (addr : Value)
    (t : String) : Type 0 where
  pub text : String
  pub is_text : addr ≡ str text
  pub filled : text ≢ ""
  pub free : conflicts_with_wan_peer node ifname (str text) ≡ ok false
  pub gives : f text ≡ ok t

abbrev pub Own4 : Fields → String → Fields → String → Type 0
Own4 node ifname iface t = IsOwn node ifname (ip4_text iface) (get "addr4" iface) t

abbrev pub Own6 : Fields → String → Fields → String → Type 0
Own6 node ifname iface t =
    IsOwn node ifname (ip6_text iface) (get "addr6" iface) t
    ⊎ IsOwn node ifname canon_text (get "ll6" iface) t

add_own :
    (node : Fields) (ifname : String) (f : String → Result String) (addr : Value)
    (texts next : Texts) (t : String)
    → add_address node ifname f addr texts ≡ ok next
    → IsOwn node ifname f addr t
    → mem t next ≡ true
add_own node ifname f addr texts next t h o =
    add_address-has node ifname f o.text t texts next o.filled o.free o.gives (rw o.is_text at h)

-- The sets before and behind one round of the loop.
record Round (node : Fields) (ifname : String) (iface : Fields) (local4 local6 : Texts)
    : Type 0 where
  next4 : Texts
  next6 : Texts
  both6 : Texts
  step4 : add_address node ifname (ip4_text iface) (get "addr4" iface) local4 ≡ ok next4
  step6 : add_address node ifname (ip6_text iface) (get "addr6" iface) local6 ≡ ok next6
  step_ll : add_address node ifname canon_text (get "ll6" iface) next6 ≡ ok both6

pair_inj : (k j : String) (v w : Value) → ◌≡◌ {A = String × Value} (k, v) (j, w) → (k ≡ j) × (v ≡ w)
pair_inj k j v w h = (ap (λ (p : String × Value). p.0) h, ap (λ (p : String × Value). p.1) h)

obj_inj : (fs gs : Fields) → obj fs ≡ obj gs → fs ≡ gs
obj_inj fs gs h = cc

module _ (node : Fields) where
  round :
      (ifname : String) (value : Value) (rest : List (String × Value)) (l4 l6 : Texts)
      (sets : Texts × Texts)
      → local_in node ((ifname, value) ∷ rest) l4 l6 ≡ ok sets
      → (iface : Fields) × (value ≡ obj iface)
        × (r : Round node ifname iface l4 l6) × (local_in node rest r.next4 r.both6 ≡ ok sets)
  unfolding local_in
  round ifname (obj iface) rest l4 l6 sets h =
      let (next4, s4, h₁) =
        >>=-eq-ok (add_address node ifname (ip4_text iface) (get "addr4" iface) l4) _ h in
      let (next6, s6, h₂) =
        >>=-eq-ok (add_address node ifname (ip6_text iface) (get "addr6" iface) l6) _ h₁ in
      let (both6, sl, h₃) =
        >>=-eq-ok (add_address node ifname canon_text (get "ll6" iface) next6) _ h₂ in
      (
        iface,
        refl,
        record {
          next4 = next4;
          next6 = next6;
          both6 = both6;
          step4 = s4;
          step6 = s6;
          step_ll = sl;
        },
        h₃,
      )
  round ifname _ rest l4 l6 sets h = cc

  local_in-keeps :
      (interfaces : List (String × Value)) (l4 l6 : Texts) (sets : Texts × Texts) (a : String)
      → local_in node interfaces l4 l6 ≡ ok sets
      → (mem a l4 ≡ true → mem a sets.0 ≡ true) × (mem a l6 ≡ true → mem a sets.1 ≡ true)
  unfolding local_in
  local_in-keeps [] l4 l6 sets a h = (λ k. ground arith, λ k. ground arith)
  local_in-keeps ((ifname, value) ∷ rest) l4 l6 sets a h =
      let (iface, _, r, h₁) = round ifname value rest l4 l6 sets h in
      let (later4, later6) = local_in-keeps rest r.next4 r.both6 sets a h₁ in
      (
        λ k. later4 (
            add_address-keeps node ifname (ip4_text iface) (get "addr4" iface) l4 r.next4 a r.step4
              k),
        λ k. later6 (
            add_address-keeps node ifname canon_text (get "ll6" iface) r.next6 r.both6 a r.step_ll (
              add_address-keeps node ifname (ip6_text iface) (get "addr6" iface) l6 r.next6 a
                r.step6 k)),
      )

  Round-has6 :
      (ifname : String) (iface : Fields) (l4 l6 : Texts) (r : Round node ifname iface l4 l6)
      (t : String)
      → Own6 node ifname iface t
      → mem t r.both6 ≡ true
  Round-has6 ifname iface l4 l6 r t (inl o) =
      add_address-keeps node ifname canon_text (get "ll6" iface) r.next6 r.both6 t r.step_ll
        (add_own node ifname (ip6_text iface) (get "addr6" iface) l6 r.next6 t r.step6 o)
  Round-has6 ifname iface l4 l6 r t (inr o) =
      add_own node ifname canon_text (get "ll6" iface) r.next6 r.both6 t r.step_ll o

  module _ (ifname : String) (iface : Fields) (t : String) where
    local_in-Has :
        (interfaces : List (String × Value)) (l4 l6 : Texts) (sets : Texts × Texts)
        → local_in node interfaces l4 l6 ≡ ok sets
        → Has (ifname, obj iface) interfaces
        → (Own4 node ifname iface t → mem t sets.0 ≡ true)
          × (Own6 node ifname iface t → mem t sets.1 ≡ true)
    local_in-Has [] l4 l6 sets h m = absurd m
    local_in-Has ((name, value) ∷ rest) l4 l6 sets h (inr m) =
        let (_, _, r, h₁) = round name value rest l4 l6 sets h in
        local_in-Has rest r.next4 r.both6 sets h₁ m
    local_in-Has ((name, value) ∷ rest) l4 l6 sets h (inl same) =
        let (named, is_obj) = pair_inj name ifname value (obj iface) same in
        let (iface', e, r, h₁) = round name value rest l4 l6 sets h in
        let (keeps4, keeps6) = local_in-keeps rest r.next4 r.both6 sets t h₁ in
        let one : iface' ≡ iface = obj_inj _ _ (sym e ∙ is_obj) in
        let here : (P : String → Fields → Type 0) → P ifname iface → P name iface' =
          λ P o. subst (λ n. P n iface') (sym named) (subst (λ i. P ifname i) (sym one) o) in
        (
          λ o. keeps4 (
              add_own node name (ip4_text iface') (get "addr4" iface') l4 r.next4 t r.step4
                (here (λ n i. Own4 node n i t) o)),
          λ o. keeps6 (Round-has6 name iface' l4 l6 r t (here (λ n i. Own6 node n i t) o)),
        )

add_loopback-keeps :
    (f : String → Result String) (addr : Value) (texts next : Texts) (a : String)
    → add_loopback f addr texts ≡ ok next
    → mem a texts ≡ true
    → mem a next ≡ true
unfolding add_loopback
add_loopback-keeps f addr texts next a h k = elim (Option-cases (text_of addr)) [
  | inl e ↦ ground arith
  | inr (s, e) ↦ elim (Result-cases (f s)) [
    | inl (t, et) ↦ ground (arith, push_new-keeps texts t a)
    | inr (_, et) ↦ ground arith
  ]
]

with_loopback-keeps :
    (f g : String → Result String) (loopback : Option Fields) (sets next : Texts × Texts)
    (a : String)
    → with_loopback f g loopback sets ≡ ok next
    → (mem a sets.0 ≡ true → mem a next.0 ≡ true) × (mem a sets.1 ≡ true → mem a next.1 ≡ true)
unfolding with_loopback
with_loopback-keeps f g none sets next a h = (λ k. ground arith, λ k. ground arith)
with_loopback-keeps f g (some loopback) sets next a h =
    let (n4, s4, h₁) = >>=-eq-ok (add_loopback f (get "ipv4" loopback) sets.0) _ h in
    let (n6, s6, h₂) = >>=-eq-ok (add_loopback g (get "ipv6" loopback) sets.1) _ h₁ in
    let same : (n4, n6) ≡ next = ok_inj _ _ h₂ in
    (
      λ k. rw (← same) (add_loopback-keeps f (get "ipv4" loopback) sets.0 n4 a s4 k),
      λ k. rw (← same) (add_loopback-keeps g (get "ipv6" loopback) sets.1 n6 a s6 k),
    )

-- Where the sets of a node's own addresses are returned, they hold every address of each of its
-- interfaces that is not a WAN peer's: `addr4`, `addr6` and `ll6`, in normal form.
pub local_ips-Has :
    (node : Fields) (interfaces : List (String × Value)) (sets : Texts × Texts) (ifname : String)
    (iface : Fields) (t : String)
    → local_ips node ≡ ok sets
    → interfaces_of node ≡ ok interfaces
    → Has (ifname, obj iface) interfaces
    → (Own4 node ifname iface t → mem t sets.0 ≡ true)
      × (Own6 node ifname iface t → mem t sets.1 ≡ true)
unfolding local_ips
local_ips-Has node interfaces sets ifname iface t h e m =
    let (found, ei, h₁) = >>=-eq-ok (interfaces_of node) _ h in
    let same : found ≡ interfaces = ok_inj _ _ (sym ei ∙ e) in
    let (inner, el, h₂) = >>=-eq-ok (local_in node found [] []) _ h₁ in
    let (has4, has6) = local_in-Has node ifname iface t found [] [] inner el (rw same m) in
    let (keeps4, keeps6) =
      with_loopback-keeps ip_text canon_text (loopback_of node) inner sets t h₂ in
    (λ o. keeps4 (has4 o), λ o. keeps6 (has6 o))
