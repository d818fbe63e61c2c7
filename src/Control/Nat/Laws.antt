-- ===== src/Control/Nat/Laws.antt =====
-- The routes of a NAT node: each one that is complete has its command.
use mathlib.Core.Path.{subst}
use network_renderer_contain.Prelude.{
  String, ◌≡◌, refl, sym, ◌∙◌, true, false, some, List, [], ◌∷◌, ◌++◌, string_eq, mem, mem-append,
  Has, arith, inl, inr, eq_refl,
}
use network_renderer_contain.Py.Value.{
  Value, obj, arr, nil, bool, Fields, get, get_or, as_str, as_dict, truthy,
}
use network_renderer_contain.Py.Result.{ok_inj, ok, attribute_error, >>=-eq-ok, or_raise}
use network_renderer_contain.Py.Text.{concat}
use network_renderer_contain.Control.{list_of}
use network_renderer_contain.Control.Nat.{
  sysctls, route_text, route_commands, routes_of, masquerading_when, nat,
}

module _ (c : String) where
  within_left : (xs ys : List String) → mem c xs ≡ true → mem c (xs ++ ys) ≡ true
  within_left xs ys h = ground (arith, mem-append c xs ys, h)

  within_right : (xs ys : List String) → mem c ys ≡ true → mem c (xs ++ ys) ≡ true
  within_right xs ys h = ground (arith, mem-append c xs ys, h)

-- The command of a route, which an address family's command word begins.
abbrev pub replace_command : String → String → String → String
replace_command command dst via = concat (command ∷ " route replace " ∷ dst ∷ " via " ∷ via ∷ [])

module _ (command key : String) (route : Fields) (dst via : String)
    (has_dst : as_str (get "dst" route) ≡ some dst)
    (has_via : as_str (get key route) ≡ some via) where
  own_command :
      (rest : List String)
      → mem
          (replace_command command dst via)
          (route_text command (as_str (get "dst" route)) (as_str (get key route)) ++ rest)
        ≡ true
  own_command rest = rw (has_dst, has_via, eq_refl (replace_command command dst via)) refl

  route_commands-Has :
      (vs : List Value) (cs : List String)
      → route_commands command key vs ≡ ok cs
      → Has (obj route) vs
      → mem (replace_command command dst via) cs ≡ true
  unfolding route_commands
  route_commands-Has [] cs h here = absurd here
  route_commands-Has (v ∷ vs) cs h here =
      let (r, er, h₁) =
        >>=-eq-ok (or_raise (attribute_error "object has no attribute 'get'") (as_dict v)) _ h in
      let (rest, es, h₂) = >>=-eq-ok (route_commands command key vs) _ h₁ in
      let out = ok_inj _ cs h₂ in
      elim here [
        | inl same ↦
            let one : route ≡ r = ok_inj _ _ (rw same at er) in
            subst (λ ds. mem (replace_command command dst via) ds ≡ true) out
              (subst
                (λ q.
                  mem (replace_command command dst via)
                    (route_text command (as_str (get "dst" q)) (as_str (get key q)) ++ rest)
                  ≡ true)
                one (own_command rest))
        | inr later ↦
            subst (λ ds. mem (replace_command command dst via) ds ≡ true) out
              (within_right (replace_command command dst via) _ rest
                (route_commands-Has vs rest es later))
      ]

-- What stands between the parts of the commands.
module _ (c : String) (nat4 nat6 cmds4 cmds6 end : List String) where
  in_routes4 :
      mem c cmds4 ≡ true → mem c (sysctls ++ (nat4 ++ (nat6 ++ (cmds4 ++ (cmds6 ++ end))))) ≡ true
  in_routes4 h =
      within_right c sysctls _
        (within_right c nat4 _ (within_right c nat6 _ (within_left c cmds4 (cmds6 ++ end) h)))

  in_routes6 :
      mem c cmds6 ≡ true → mem c (sysctls ++ (nat4 ++ (nat6 ++ (cmds4 ++ (cmds6 ++ end))))) ≡ true
  in_routes6 h = within_right c sysctls _ (
      within_right c nat4 _
        (within_right c nat6 _ (within_right c cmds4 (cmds6 ++ end) (within_left c cmds6 end h))))

-- The routes of a node and the word of their command.
pub data Routes : Type 0 where
  routes_v4 routes_v6 : Routes

abbrev pub field_of : Routes → String
field_of routes_v4 = "routes_v4"
field_of routes_v6 = "routes_v6"

abbrev pub via_of : Routes → String
via_of routes_v4 = "via4"
via_of routes_v6 = "via6"

abbrev pub word_of : Routes → String
word_of routes_v4 = "ip"
word_of routes_v6 = "ip -6"

abbrev flushes : List String
flushes = "ip route flush cache" ∷ ("ip -6 route flush cache" ∷ [])

on_side :
    (side : Routes) (input route : Fields) (vs vs4 vs6 : List Value)
    (nat4 nat6 cmds4 cmds6 : List String) (dst via : String)
    → routes_of (get_or (arr nil) (field_of side) input) ≡ ok vs
    → Has (obj route) vs
    → as_str (get "dst" route) ≡ some dst
    → as_str (get (via_of side) route) ≡ some via
    → routes_of (get_or (arr nil) "routes_v4" input) ≡ ok vs4
    → route_commands "ip" "via4" vs4 ≡ ok cmds4
    → routes_of (get_or (arr nil) "routes_v6" input) ≡ ok vs6
    → route_commands "ip -6" "via6" vs6 ≡ ok cmds6
    → mem
        (replace_command (word_of side) dst via)
        (sysctls ++ (nat4 ++ (nat6 ++ (cmds4 ++ (cmds6 ++ flushes)))))
      ≡ true
on_side routes_v4 input route vs vs4 vs6 nat4 nat6 cmds4 cmds6 dst via listed here has_dst has_via
      e4 c4 e6 c6 =
    let same : vs ≡ vs4 = ok_inj _ _ (sym listed ∙ e4) in
    in_routes4 (replace_command "ip" dst via) nat4 nat6 cmds4 cmds6 flushes (
      route_commands-Has "ip" "via4" route dst via has_dst has_via vs4 cmds4 c4
        (subst (Has (obj route)) same here))
on_side routes_v6 input route vs vs4 vs6 nat4 nat6 cmds4 cmds6 dst via listed here has_dst has_via
      e4 c4 e6 c6 =
    let same : vs ≡ vs6 = ok_inj _ _ (sym listed ∙ e6) in
    in_routes6 (replace_command "ip -6" dst via) nat4 nat6 cmds4 cmds6 flushes (
      route_commands-Has "ip -6" "via6" route dst via has_dst has_via vs6 cmds6 c6
        (subst (Has (obj route)) same here))

-- Where the commands of a NAT node are returned, every route of either family that has a
-- destination and a next hop as texts has its command among them.
pub nat-Has :
    (side : Routes) (input route : Fields) (vs : List Value) (out : List String) (dst via : String)
    → routes_of (get_or (arr nil) (field_of side) input) ≡ ok vs
    → Has (obj route) vs
    → as_str (get "dst" route) ≡ some dst
    → as_str (get (via_of side) route) ≡ some via
    → nat input ≡ ok out
    → mem (replace_command (word_of side) dst via) out ≡ true
unfolding nat
nat-Has side input route vs out dst via listed here has_dst has_via h =
    let interfaces = list_of "masqueradeInterfaces" input in
    let (nat4, _, h₁) =
      >>=-eq-ok
        (masquerading_when (truthy (get_or (bool false) "ipv4" input)) "ip" (list_of "saddr4" input)
          interfaces)
        _ h in
    let (nat6, _, h₂) =
      >>=-eq-ok
        (masquerading_when (truthy (get_or (bool false) "ipv6" input)) "ip6"
          (list_of "saddr6" input) interfaces)
        _ h₁ in
    let (vs4, e4, h₃) = >>=-eq-ok (routes_of (get_or (arr nil) "routes_v4" input)) _ h₂ in
    let (cmds4, c4, h₄) = >>=-eq-ok (route_commands "ip" "via4" vs4) _ h₃ in
    let (vs6, e6, h₅) = >>=-eq-ok (routes_of (get_or (arr nil) "routes_v6" input)) _ h₄ in
    let (cmds6, c6, h₆) = >>=-eq-ok (route_commands "ip -6" "via6" vs6) _ h₅ in
    subst (λ cs. mem (replace_command (word_of side) dst via) cs ≡ true) (ok_inj _ out h₆)
      (on_side side input route vs vs4 vs6 nat4 nat6 cmds4 cmds6 dst via listed here has_dst has_via
        e4 c4 e6 c6)
