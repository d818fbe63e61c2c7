-- ===== src/Linux/PolicyRoutes/Returns/Claims.antt =====
-- The claims of the third and the fourth phase: each once, with one rule.
use network_renderer_contain.Prelude.{
  ℕ, ◌+◌, String, true, false, ◌≡◌, refl, List, [], ◌∷◌, ◌==◌, string_eq, nat_eq, pair_eq, mem,
  all_distinct, all_distinct-append_one, length, length-append, lookup, mem-append_left, Bool-cases,
  inl, inr, arith,
}
use network_renderer_contain.Py.Ip.{Family, v4, v6}
use network_renderer_contain.Linux.UplinkRoutes.{EthMap}
use network_renderer_contain.Linux.PolicyRoutes.Tables.{rule_add, to_rule}
use network_renderer_contain.Linux.PolicyRoutes.Lanes.{Lane}
use network_renderer_contain.Linux.PolicyRoutes.Returns.{
  Claim, Claimed, claims_of, add_claim, make_claim, make_claims, claim_lane, claim_lanes,
  by_priority, Upstream, Downstream, Sides, list_at,
}
use network_renderer_contain.Linux.PolicyRoutes.Returns.Render.{
  cross_rules, cross_downs, cross_ups, accesses_of, cross_all, no_claims, claim_all,
}

-- The commands of the start are there, no claim is twice, and behind the start there is one command
-- for each claim.
pub record IsLedger (start : List String) (c : Claimed) : Type 0 where
  pub kept : (cmd : String) → mem cmd start ≡ true → mem cmd c.cmds ≡ true
  pub distinct4 : all_distinct c.claimed4 ≡ true
  pub distinct6 : all_distinct c.claimed6 ≡ true
  pub counted : length c.cmds ≡ length start + length c.claimed4 + length c.claimed6

module _ (start : List String) where
  add_claim-IsLedger :
      (family : Family) (claim : Claim) (cmd : String) (c : Claimed)
      → IsLedger start c
      → mem claim (claims_of family c) ≡ false
      → IsLedger start (add_claim family claim cmd c)
  add_claim-IsLedger v4 claim cmd c w new = record {
    kept = λ x m. mem-append_left x c.cmds (cmd ∷ []) (w.kept x m);
    distinct4 = all_distinct-append_one c.claimed4 claim w.distinct4 new;
    distinct6 = w.distinct6;
    counted =
        omega (
          arith,
          length-append c.cmds (cmd ∷ []),
          length-append c.claimed4 (claim ∷ []),
          w.counted,
        );
  }
  add_claim-IsLedger v6 claim cmd c w new = record {
    kept = λ x m. mem-append_left x c.cmds (cmd ∷ []) (w.kept x m);
    distinct4 = w.distinct4;
    distinct6 = all_distinct-append_one c.claimed6 claim w.distinct6 new;
    counted =
        omega (
          arith,
          length-append c.cmds (cmd ∷ []),
          length-append c.claimed6 (claim ∷ []),
          w.counted,
        );
  }

  make_claim-IsLedger :
      (family : Family) (priority table : ℕ) (claim : Claim) (c : Claimed)
      → IsLedger start c
      → IsLedger start (make_claim family priority table claim c)
  unfolding make_claim
  make_claim-IsLedger family priority table claim c w =
      elim (Bool-cases (mem claim (claims_of family c))) [
        | inl old ↦ rw old w
        | inr new ↦ rw new (
            add_claim-IsLedger family claim
              (rule_add family (to_rule claim.0 claim.1) priority table) c w new)
      ]

  make_claims-IsLedger :
      (family : Family) (priority table : ℕ) (claims : List Claim) (c : Claimed)
      → IsLedger start c
      → IsLedger start (make_claims family priority table claims c)
  unfolding make_claims
  make_claims-IsLedger family priority table [] c w = w
  make_claims-IsLedger family priority table (claim ∷ rest) c w =
      make_claims-IsLedger family priority table rest _
        (make_claim-IsLedger family priority table claim c w)

  both_families :
      (priority table : ℕ) (claims4 claims6 : List Claim) (c : Claimed)
      → IsLedger start c
      → IsLedger start
          (make_claims v6 priority table claims6 (make_claims v4 priority table claims4 c))
  both_families priority table claims4 claims6 c w =
      make_claims-IsLedger v6 priority table claims6 _
        (make_claims-IsLedger v4 priority table claims4 c w)

  claim_lanes-IsLedger :
      (eth_map : EthMap) (lanes : List Lane) (c : Claimed)
      → IsLedger start c
      → IsLedger start (claim_lanes eth_map lanes c)
  unfolding claim_lanes claim_lane
  claim_lanes-IsLedger eth_map [] c w = w
  claim_lanes-IsLedger eth_map (lane ∷ lanes) c w =
      claim_lanes-IsLedger eth_map lanes _ (both_families lane.priority lane.table_id _ _ c w)

  cross_downs-IsLedger :
      (up : Upstream) (downs : List Downstream) (c : Claimed)
      → IsLedger start c
      → IsLedger start (cross_downs up downs c)
  unfolding cross_downs cross_rules
  cross_downs-IsLedger up [] c w = w
  cross_downs-IsLedger up (down ∷ downs) c w = elim (Bool-cases (up.table == down.table)) [
    | inl same ↦ rw same (cross_downs-IsLedger up downs c w)
    | inr other ↦
        rw other (cross_downs-IsLedger up downs _ (both_families up.priority down.table _ _ c w))
  ]

  cross_ups-IsLedger :
      (ups : List Upstream) (downs : List Downstream) (c : Claimed)
      → IsLedger start c
      → IsLedger start (cross_ups ups downs c)
  unfolding cross_ups
  cross_ups-IsLedger [] downs c w = w
  cross_ups-IsLedger (up ∷ ups) downs c w =
      cross_ups-IsLedger ups downs _ (cross_downs-IsLedger up downs c w)

  pub cross_all-IsLedger :
      (sides : Sides) (accesses : List String) (c : Claimed)
      → IsLedger start c
      → IsLedger start (cross_all sides accesses c)
  unfolding cross_all
  cross_all-IsLedger sides [] c w = w
  cross_all-IsLedger sides (access ∷ accesses) c w = cross_all-IsLedger sides accesses _ (
      cross_ups-IsLedger (list_at (lookup access sides.upstream_by_access))
        (list_at (lookup access sides.downstream_by_access)) c w)

-- After the rules for shared interfaces and for ways back, the commands from before are still
-- there, no pair of a destination and a device is claimed twice, and there is one further command
-- for each claim.
pub claim_all-IsLedger :
    (eth_map : EthMap) (lanes : List Lane) (sides : Sides) (cmds : List String)
    → IsLedger cmds (claim_all eth_map lanes sides cmds)
claim_all-IsLedger eth_map lanes sides cmds = cross_all-IsLedger cmds sides (accesses_of sides) _ (
    claim_lanes-IsLedger cmds eth_map (by_priority lanes) (no_claims cmds)
      (record { kept = λ cmd m. m; distinct4 = refl; distinct6 = refl; counted = omega arith }))
