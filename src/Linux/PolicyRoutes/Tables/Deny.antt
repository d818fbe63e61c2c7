-- ===== src/Linux/PolicyRoutes/Tables/Deny.antt =====
-- A lane without routes denies: its table is a black hole that its interface leads to.
use network_renderer_contain.Prelude.{
  String, true, false, ◌≡◌, refl, ap, sym, ◌∙◌, some, List, [], ◌∷◌, ◌++◌, string_eq, if◌then◌else◌,
  mem, is_nil, lookup, Has, mem-append_left, mem-append_right, mem-head, inl, inr,
}
use network_renderer_contain.Py.Value.{Fields, get, is_str, as_dict}
use network_renderer_contain.Py.Result.{ok, >>=-eq-ok, ok_inj}
use network_renderer_contain.Py.Ip.{v4, v6}
use network_renderer_contain.Linux.UplinkRoutes.{EthMap}
use network_renderer_contain.Linux.PolicyRoutes.{lane_of}
use network_renderer_contain.Linux.PolicyRoutes.Surfaces.{Interfaces}
use network_renderer_contain.Linux.PolicyRoutes.Groups.{RouteGroups}
use network_renderer_contain.Linux.PolicyRoutes.Tables.{
  rule_add, iif_rule, iface_or_empty, is_upward, lane_rule, is_uplink_in, blackhole, lane_rules,
  denied4, denied6, family_table, lane_table, lane_tables,
}
use network_renderer_contain.Linux.PolicyRoutes.Lanes.{Lane}

-- The interface does not face the upstream node.
pub record IsInward (interfaces : Interfaces) (ifname : String) : Type 0 where
  pub fields : Fields
  pub is_iface : as_dict (iface_or_empty ifname interfaces) ≡ some fields
  pub kinds : Fields
  pub is_lane : lane_of fields ≡ ok kinds
  pub inward : is_str "access-uplink" (get "kind" kinds) ≡ false

-- Members of a list of two, with more behind it.
in_two :
    (a b : String) (two rest : List String)
    → two ≡ a ∷ b ∷ []
    → (mem a (two ++ rest) ≡ true) × (mem b (two ++ rest) ≡ true)
in_two a b two rest h =
    let second = mem-append_right b (a ∷ []) (b ∷ []) (mem-head b []) in
    (
      mem-append_left a two rest (ap (mem a) h ∙ mem-head a (b ∷ [])),
      mem-append_left b two rest (ap (mem b) h ∙ second),
    )

module _ (eth_map : EthMap) (interfaces : Interfaces) (ifname : String) (eth : String)
    (device : lookup ifname eth_map ≡ some eth) where
  is_uplink_in-inward :
      IsInward interfaces ifname → is_uplink_in eth_map interfaces (ifname ∷ []) ≡ ok false
  unfolding is_uplink_in
  is_uplink_in-inward w =
      let value = iface_or_empty ifname interfaces in
      let upward : is_upward value (lookup ifname eth_map) ≡ ok false =
        ap (is_upward value) device ∙ rw (w.is_iface, w.is_lane) (ap ok w.inward) in
      rw upward refl

  denied :
      (lane : Lane)
      → lane.lane_ifnames ≡ ifname ∷ []
      → denied4 lane eth_map false
        ≡ blackhole lane.table_id ∷ rule_add v4 (iif_rule eth) lane.priority lane.table_id ∷ []
  unfolding lane_rules
  denied lane name =
      ap (λ ns. blackhole lane.table_id ∷ lane_rules v4 lane eth_map ns) name
      ∙ ap (λ d. blackhole lane.table_id ∷ (lane_rule v4 lane d ++ [])) device

  -- The commands that deny: the black hole of the table and the rule that leads to it.
  pub lane_table-denies :
      (node : Fields) (lane : Lane) (out : List String)
      → IsInward interfaces ifname
      → lane.lane_ifnames ≡ ifname ∷ []
      → lane.routes4 ≡ []
      → lane_table lane node eth_map interfaces ≡ ok out
      → (mem (blackhole lane.table_id) out ≡ true)
        × (mem (rule_add v4 (iif_rule eth) lane.priority lane.table_id) out ≡ true)
  unfolding lane_table
  lane_table-denies node lane out w name empty h =
      let (up, is_up, h₁) = >>=-eq-ok (is_uplink_in eth_map interfaces lane.lane_ifnames) _ h in
      let inward =
        ok_inj _ _
          (sym is_up ∙ ap (is_uplink_in eth_map interfaces) name ∙ is_uplink_in-inward w) in
      let (table4, is4, h₂) =
        >>=-eq-ok
          (if is_nil lane.routes4
            then ok (denied4 lane eth_map up)
            else family_table v4 lane node eth_map interfaces up)
          _ h₁ in
      let (table6, _, h₃) =
        >>=-eq-ok
          (if is_nil lane.routes6
            then ok (denied6 lane eth_map up)
            else family_table v6 lane node eth_map interfaces up)
          _ h₂ in
      let branch =
        ap
          (λ (routes : RouteGroups).
            if is_nil routes
            then ok (denied4 lane eth_map up)
            else family_table v4 lane node eth_map interfaces up)
          (sym empty)
        ∙ is4 in
      let denial = sym (ok_inj _ _ branch) ∙ ap (denied4 lane eth_map) inward ∙ denied lane name in
      rw (sym (ok_inj _ _ h₃)) (in_two _ _ table4 table6 denial)

-- The commands of a lane are among those of all.
pub lane_tables-mem :
    (node : Fields) (eth_map : EthMap) (interfaces : Interfaces) (lanes : List Lane) (lane : Lane)
    (out : List String)
    → Has lane lanes
    → lane_tables lanes node eth_map interfaces ≡ ok out
    → (here : List String) × (lane_table lane node eth_map interfaces ≡ ok here)
      × ((cmd : String) → mem cmd here ≡ true → mem cmd out ≡ true)
unfolding lane_tables
lane_tables-mem node eth_map interfaces [] lane out has h = absurd has
lane_tables-mem node eth_map interfaces (l ∷ lanes) lane out has h =
    let (here, first, h₁) = >>=-eq-ok (lane_table l node eth_map interfaces) _ h in
    let (later, rest, h₂) = >>=-eq-ok (lane_tables lanes node eth_map interfaces) _ h₁ in
    let whole = ok_inj _ _ h₂ in
    elim has [
      | inl same ↦ (
        here,
        ap (λ x. lane_table x node eth_map interfaces) (sym same) ∙ first,
        λ cmd m. ap (mem cmd) (sym whole) ∙ mem-append_left cmd here later m,
      )
      | inr there ↦
          let (own, is_own, within) =
            lane_tables-mem node eth_map interfaces lanes lane later there rest in
          (
            own,
            is_own,
            λ cmd m. ap (mem cmd) (sym whole) ∙ mem-append_right cmd here later (within cmd m),
          )
    ]
