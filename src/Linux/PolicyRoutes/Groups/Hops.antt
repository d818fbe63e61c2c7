-- ===== src/Linux/PolicyRoutes/Groups/Hops.antt =====
-- The groups of a lane: each destination once, with hops of which none comes twice.
use network_renderer_contain.Prelude.{
  String, Bool, true, false, ◌&&◌, not, ◌≡◌, refl, ap, ◌∙◌, Option, none, some, List, [], ◌∷◌, map,
  ◌==◌, string_eq, option_eq, pair_eq, eq_iff, mem, is_nil, all_distinct, push_new,
  push_new-distinct, lookup, assign, All, Bool-cases, Option-cases, inl, inr, arith, some_inj,
}
use network_renderer_contain.Linux.RouteValues.{normalize_text}
use network_renderer_contain.Linux.PolicyRoutes.{is_default_dst}
use network_renderer_contain.Linux.PolicyRoutes.Groups.{
  Hop, RouteGroups, hops_of, add_hop, filled, add_filled, add_via, append_policy_route, remove,
  Found, normalized, remove_dst, prefer,
}

abbrev dsts : RouteGroups → List String
dsts groups = map (λ e. e.0) groups

-- Hops that a table can take: some, and none of them twice.
pub record AreHops (hops : List Hop) : Type 0 where
  pub filled : is_nil hops ≡ false
  pub distinct : all_distinct hops ≡ true

pub record IsGrouped (groups : RouteGroups) : Type 0 where
  pub keys : all_distinct (dsts groups) ≡ true
  pub hops : All (λ e. AreHops e.1) groups

dsts-assign :
    (k : String) (hs : List Hop) (m : RouteGroups) → dsts (assign k hs m) ≡ push_new (dsts m) k
dsts-assign k hs [] = refl
dsts-assign k hs ((j, gs) ∷ m) = ground (arith, dsts-assign k hs m, eq_iff j k, eq_iff k j)

All-assign :
    (k : String) (hs : List Hop) (m : RouteGroups)
    → AreHops hs
    → All (λ e. AreHops e.1) m
    → All (λ e. AreHops e.1) (assign k hs m)
All-assign k hs [] h all = (h, tt)
All-assign k hs ((j, gs) ∷ m) h (g, all) = elim (Bool-cases (j == k)) [
  | inl same ↦ rw same (h, all)
  | inr other ↦ rw other (g, All-assign k hs m h all)
]

All-lookup :
    (k : String) (m : RouteGroups) (hs : List Hop)
    → All (λ e. AreHops e.1) m
    → lookup k m ≡ some hs
    → AreHops hs
All-lookup k [] hs all h = absurd (cc)
All-lookup k ((j, gs) ∷ m) hs (g, all) h = elim (Bool-cases (j == k)) [
  | inl same ↦ rw (some_inj gs hs (rw same at h)) at g
  | inr other ↦ All-lookup k m hs all (rw other at h)
]

pushed-filled : (hs : List Hop) (h : Hop) → is_nil (push_new hs h) ≡ false
pushed-filled [] h = refl
pushed-filled (x ∷ hs) h = elim (Bool-cases (mem h (x ∷ hs))) [
  | inl old ↦ rw old refl
  | inr new ↦ rw new refl
]

held_distinct :
    (k : String) (m : RouteGroups)
    → All (λ e. AreHops e.1) m
    → all_distinct (hops_of (lookup k m)) ≡ true
held_distinct k m all = elim (Option-cases (lookup k m)) [
  | inl missing ↦ rw missing refl
  | inr (hs, found) ↦ rw found (All-lookup k m hs all found).distinct
]

pub add_hop-IsGrouped :
    (groups : RouteGroups) (k : String) (hop : Hop)
    → IsGrouped groups
    → IsGrouped (add_hop groups k hop)
add_hop-IsGrouped groups k hop w =
    let hs = push_new (hops_of (lookup k groups)) hop in
    record {
      keys = ap all_distinct (dsts-assign k hs groups) ∙ push_new-distinct (dsts groups) k w.keys;
      hops =
          All-assign k hs groups
            (record {
              filled = pushed-filled (hops_of (lookup k groups)) hop;
              distinct = push_new-distinct _ hop (held_distinct k groups w.hops);
            })
            w.hops;
    }

pub add_filled-IsGrouped :
    (groups : RouteGroups) (k : Option String) (hop : Hop)
    → IsGrouped groups
    → IsGrouped (add_filled groups k hop)
add_filled-IsGrouped groups none hop w = w
add_filled-IsGrouped groups (some k) hop w = add_hop-IsGrouped groups (normalize_text k) hop w

add_via-IsGrouped :
    (groups : RouteGroups) (k : Option String) (eth : String) (via : Option String)
    → IsGrouped groups
    → IsGrouped (add_via groups k eth via)
add_via-IsGrouped groups k eth none w = w
add_via-IsGrouped groups k eth (some via) w = add_filled-IsGrouped groups k (some via, eth) w

pub append_policy_route-IsGrouped :
    (groups : RouteGroups) (k via : Option String) (eth : String)
    → IsGrouped groups
    → IsGrouped (append_policy_route groups k via eth)
unfolding append_policy_route
append_policy_route-IsGrouped groups k via eth w =
    add_via-IsGrouped groups (filled k) eth (filled via) w

mem-remove :
    (a k : String) (m : RouteGroups) → mem a (dsts m) ≡ false → mem a (dsts (remove k m)) ≡ false
mem-remove a k [] h = h
mem-remove a k ((j, gs) ∷ m) h = ground (arith, mem-remove a k m, h)

keys-remove :
    (k : String) (m : RouteGroups)
    → all_distinct (dsts m) ≡ true
    → all_distinct (dsts (remove k m)) ≡ true
keys-remove k [] h = h
keys-remove k ((j, gs) ∷ m) h = ground (arith, keys-remove k m, mem-remove j k m, h)

All-remove :
    (k : String) (m : RouteGroups) → All (λ e. AreHops e.1) m → All (λ e. AreHops e.1) (remove k m)
All-remove k [] h = h
All-remove k ((j, gs) ∷ m) (g, all) = elim (Bool-cases (j == k)) [
  | inl same ↦ rw same all
  | inr other ↦ rw other (g, All-remove k m all)
]

remove_dst-IsGrouped :
    (k : Option String) (groups : RouteGroups) → IsGrouped groups → IsGrouped (remove_dst k groups)
remove_dst-IsGrouped none groups w = w
remove_dst-IsGrouped (some k) groups w = record {
  keys = keys-remove k groups w.keys;
  hops = All-remove k groups w.hops;
}

pub prefer-IsGrouped :
    (here : Bool) (k : Option String) (found : Found)
    → IsGrouped found.groups
    → IsGrouped (prefer here k found).groups
unfolding prefer
prefer-IsGrouped here k found w =
    elim (Bool-cases (here && not (is_default_dst k) && not (mem (normalized k) found.preferred))) [
      | inl new ↦ rw new (remove_dst-IsGrouped (normalized k) found.groups w)
      | inr old ↦ rw old w
    ]
