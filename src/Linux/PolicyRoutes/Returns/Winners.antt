-- ===== src/Linux/PolicyRoutes/Returns/Winners.antt =====
-- Of the lanes that reach a destination from a shared interface, one of the highest priority number
-- has the rule.
use network_renderer_contain.Prelude.{
  ◌≤◌, String, true, false, ◌≡◌, refl, ap, ◌∙◌, List, [], ◌∷◌, string_eq, nat_eq, pair_eq, leb→le,
  mem, All-Has, Has, ◌⊎◌, inl, inr, arith,
}
use network_renderer_contain.Py.Sort.{sort_by-Has, sort_by-from, sort_by-IsSorted, IsSorted}
use network_renderer_contain.Py.Ip.{Family, v4, v6}
use network_renderer_contain.Linux.UplinkRoutes.{EthMap}
use network_renderer_contain.Linux.PolicyRoutes.Tables.{rule_add, to_rule}
use network_renderer_contain.Linux.PolicyRoutes.Lanes.{Lane, routes_of}
use network_renderer_contain.Linux.PolicyRoutes.Returns.{
  Claim, Claimed, claims_of, claims_for, devices_of, claim_lane, claim_lanes, not_below,
  by_priority,
}
use network_renderer_contain.Linux.PolicyRoutes.Returns.Advance.{
  IsAdvanced, after-IsAdvanced, make_claims-IsAdvanced, make_claims-made,
}
use network_renderer_contain.Linux.PolicyRoutes.Returns.Render.{no_claims}

abbrev pub lane_claims : EthMap → Family → Lane → List Claim
lane_claims eth_map f lane =
    claims_for f (routes_of f lane) (devices_of eth_map lane.shared_ifnames)

abbrev pub lane_command : Family → Claim → Lane → String
lane_command f k lane = rule_add f (to_rule k.0 k.1) lane.priority lane.table_id

-- What is claimed has the rule of one of the lanes that came by.
record IsOwned (eth_map : EthMap) (seen : List Lane) (c : Claimed) : Type 0 where
  owned :
      (f : Family) (k : Claim)
      → mem k (claims_of f c) ≡ true
      → (w : Lane) × Has w seen
        × (mem k (lane_claims eth_map f w) ≡ true)
        × (mem (lane_command f k w) c.cmds ≡ true)

module _ (eth_map : EthMap) where
  abbrev Wants : Lane → Family → Claim → Type 0
  Wants lane f k = mem k (lane_claims eth_map f lane) ≡ true

  claim_lane-IsAdvanced :
      (lane : Lane) (c : Claimed)
      → IsAdvanced (Wants lane) lane.priority lane.table_id c (claim_lane eth_map lane c)
  unfolding claim_lane
  claim_lane-IsAdvanced lane c =
      after-IsAdvanced (Wants lane) lane.priority lane.table_id c _ _
        (make_claims-IsAdvanced (Wants lane) lane.priority lane.table_id v4
          (lane_claims eth_map v4 lane) c (λ k m. m))
        (make_claims-IsAdvanced (Wants lane) lane.priority lane.table_id v6
          (lane_claims eth_map v6 lane) _ (λ k m. m))

  claim_lane-made :
      (lane : Lane) (f : Family) (k : Claim) (c : Claimed)
      → mem k (lane_claims eth_map f lane) ≡ true
      → mem k (claims_of f (claim_lane eth_map lane c)) ≡ true
  unfolding claim_lane
  claim_lane-made lane v4 k c m =
      (make_claims-IsAdvanced (Wants lane) lane.priority lane.table_id v6
          (lane_claims eth_map v6 lane) _ (λ k m. m)).claims
        v4 k
        (make_claims-made (Wants lane) lane.priority lane.table_id v4 (lane_claims eth_map v4 lane)
          k c (λ j h. h) m)
  claim_lane-made lane v6 k c m =
      make_claims-made (Wants lane) lane.priority lane.table_id v6 (lane_claims eth_map v6 lane) k _
        (λ j h. h) m

  claim_lanes-cmds :
      (lanes : List Lane) (c : Claimed) (cmd : String)
      → mem cmd c.cmds ≡ true
      → mem cmd (claim_lanes eth_map lanes c).cmds ≡ true
  unfolding claim_lanes
  claim_lanes-cmds [] c cmd m = m
  claim_lanes-cmds (lane ∷ lanes) c cmd m =
      claim_lanes-cmds lanes _ cmd ((claim_lane-IsAdvanced lane c).cmds cmd m)

  claim_lane-IsOwned :
      (lane : Lane) (seen : List Lane) (c : Claimed)
      → IsOwned eth_map seen c
      → IsOwned eth_map (lane ∷ seen) (claim_lane eth_map lane c)
  claim_lane-IsOwned lane seen c w =
      let adv = claim_lane-IsAdvanced lane c in
      record {
        owned = λ f k m. elim (adv.new f k m) [
          | inr (wanted, here) ↦ (lane, inl refl, wanted, here)
          | inl before ↦
              let (winner, has, wanted, held) = w.owned f k before in
              (winner, inr has, wanted, adv.cmds _ held)
        ];
      }

  claim_lanes-winner_from :
      (lanes seen : List Lane) (c : Claimed) (lane : Lane) (f : Family) (k : Claim)
      → IsSorted not_below lanes
      → ((w l : Lane) → Has w seen → Has l lanes → l.priority ≤ w.priority)
      → IsOwned eth_map seen c
      → Has lane lanes
      → mem k (lane_claims eth_map f lane) ≡ true
      → (w : Lane) × (Has w seen ⊎ Has w lanes)
        × (lane.priority ≤ w.priority)
        × (mem k (lane_claims eth_map f w) ≡ true)
        × (mem (lane_command f k w) (claim_lanes eth_map lanes c).cmds ≡ true)
  unfolding claim_lanes
  claim_lanes-winner_from [] seen c lane f k sorted above w has m = absurd has
  claim_lanes-winner_from (l ∷ lanes) seen c lane f k (below, sorted) above w (inl same) m =
      let next = claim_lane eth_map l c in
      let m' = ap (λ x. mem k (lane_claims eth_map f x)) same ∙ m in
      let (winner, by, wanted, held) =
        (claim_lane-IsOwned l seen c w).owned f k (claim_lane-made l f k c m') in
      let kept = claim_lanes-cmds lanes next (lane_command f k winner) held in
      let le = ap (λ x. x.priority) same in
      elim by [
        | inl is_l ↦
            (winner, inr (inl is_l), omega (arith, le, ap (λ x. x.priority) is_l), wanted, kept)
        | inr in_seen ↦ (winner, inl in_seen, above winner lane in_seen (inl same), wanted, kept)
      ]
  claim_lanes-winner_from (l ∷ lanes) seen c lane f k (below, sorted) above w (inr there) m =
      let next = claim_lane eth_map l c in
      let above' : (x y : Lane) → Has x (l ∷ seen) → Has y lanes → y.priority ≤ x.priority =
        λ x y by has. elim by [
          | inl is_l ↦
              let first =
                leb→le y.priority l.priority
                  (All-Has (λ b. not_below l b ≡ true) y lanes below has) in
              omega (arith, first, ap (λ z. z.priority) is_l)
          | inr in_seen ↦ above x y in_seen (inr has)
        ] in
      let (winner, by, le, wanted, held) =
        claim_lanes-winner_from lanes (l ∷ seen) next lane f k sorted above'
          (claim_lane-IsOwned l seen c w) there m in
      (
        winner,
        elim by [
          | inl front ↦ elim front [ inl is_l ↦ inr (inl is_l) | inr in_seen ↦ inl in_seen ]
          | inr later ↦ inr (inr later)
        ],
        le,
        wanted,
        held,
      )

not_below_total : (a b : Lane) → not_below a b ≡ false → not_below b a ≡ true
not_below_total a b h = ground (arith, h)

not_below_trans :
    (a b c : Lane) → not_below a b ≡ true → not_below b c ≡ true → not_below a c ≡ true
not_below_trans a b c h k = ground (arith, h, k)

no_claim :
    (f : Family) (k : Claim) (cmds : List String) → mem k (claims_of f (no_claims cmds)) ≡ true → ⊥
no_claim v4 k cmds h = cc
no_claim v6 k cmds h = cc

-- Where a lane reaches a destination from the device of an interface that shares it, a lane that
-- does so too and whose priority number is as high or higher has its rule for the destination and
-- the device among the commands.
pub claim_lanes-winner :
    (eth_map : EthMap) (lanes : List Lane) (cmds : List String) (lane : Lane) (f : Family)
    (k : Claim)
    → Has lane lanes
    → mem k (lane_claims eth_map f lane) ≡ true
    → (w : Lane) × Has w lanes
      × (lane.priority ≤ w.priority)
      × (mem k (lane_claims eth_map f w) ≡ true)
      × (mem (lane_command f k w) (claim_lanes eth_map (by_priority lanes) (no_claims cmds)).cmds
          ≡ true)
claim_lanes-winner eth_map lanes cmds lane f k has m =
    let nothing : IsOwned eth_map [] (no_claims cmds) = record {
      owned = λ g j held. absurd (no_claim g j cmds held);
    } in
    let (winner, by, le, wanted, held) =
      claim_lanes-winner_from eth_map (by_priority lanes) [] (no_claims cmds) lane f k
        (sort_by-IsSorted not_below not_below_total not_below_trans lanes)
        (λ w l nowhere has'. absurd nowhere) nothing (sort_by-Has not_below lane lanes has) m in
    (
      winner,
      elim by [
        | inl nowhere ↦ absurd nowhere
        | inr there ↦ sort_by-from not_below winner lanes there
      ],
      le,
      wanted,
      held,
    )
