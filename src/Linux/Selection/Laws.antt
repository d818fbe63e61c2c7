-- ===== src/Linux/Selection/Laws.antt =====
-- The commands of `render_relation_selection_rules`: each comes from a valid selector of the node,
-- and the command of the way back is there too.
use mathlib.Core.Path.{subst}
use network_renderer_contain.Prelude.{
  String, ◌≡◌, refl, sym, ap, ◌∙◌, true, some, List, [], ◌∷◌, map, ◌==◌, string_eq, Has, mem,
  all_distinct, push_all_new, mem-push_all_new, push_all_new-distinct, Bool-cases, Option-cases,
  arith, inl, inr, eq_iff, eq_refl,
}
use network_renderer_contain.Py.Value.{Value, obj, arr, nil, Fields, get_or, as_list}
use network_renderer_contain.Py.Result.{ok_inj, ok, >>=-eq-ok, or_raise}
use network_renderer_contain.Linux.UplinkRoutes.{EthMap}
use network_renderer_contain.Linux.Selection.{Selector, validate_selector}
use network_renderer_contain.Linux.Selection.Pairs.{IsMate, validate_direction_pairs-mates}
use network_renderer_contain.Linux.Selection.Render.{
  validate_direction_pairs, rule_command, all_objects, validate_all, selectors_of,
  render_relation_selection_rules,
}

module _ (command : Selector → String) where
  Has-mem : (s : Selector) (ss : List Selector) → Has s ss → mem (command s) (map command ss) ≡ true
  Has-mem s [] here = absurd here
  Has-mem s (x ∷ xs) (inl e) = rw (e, eq_refl (command s)) refl
  Has-mem s (x ∷ xs) (inr later) = ground (arith, Has-mem s xs later)

  mem-Has :
      (c : String) (ss : List Selector)
      → mem c (map command ss) ≡ true
      → (s : Selector) × Has s ss × (c ≡ command s)
  mem-Has c [] h = cc
  mem-Has c (x ∷ xs) h = elim (Bool-cases (c == command x)) [
    | inl same ↦ (x, inl refl, (eq_iff c (command x)).0 same)
    | inr other ↦ let (s, there, e) = mem-Has c xs (rw other at h) in (s, inr there, e)
  ]

some_inj : (a b : List Fields) → some a ≡ some b → a ≡ b
some_inj a b h = cc

all_objects-Has :
    (vs : List Value) (fss : List Fields) (fs : Fields)
    → all_objects vs ≡ some fss
    → Has fs fss
    → Has (obj fs) vs
unfolding all_objects
all_objects-Has [] fss fs h here = absurd (subst (Has fs) (sym (some_inj [] fss h)) here)
all_objects-Has (obj x ∷ vs) fss fs h here = elim (Option-cases (all_objects vs)) [
  | inl e ↦ absurd (ground arith)
  | inr (found, e) ↦ elim (subst (Has fs) (sym (some_inj (x ∷ found) fss (rw e at h))) here) [
    | inl same ↦ inl (ap obj same)
    | inr later ↦ inr (all_objects-Has vs found fs e later)
  ]
]
all_objects-Has (v ∷ vs) fss fs h here = absurd (ground arith)

validate_all-Has :
    (node : Fields) (eth_map : EthMap) (raws : List Fields) (ss : List Selector) (s : Selector)
    → validate_all node eth_map raws ≡ ok ss
    → Has s ss
    → (raw : Fields) × Has raw raws × (validate_selector node eth_map raw ≡ ok s)
unfolding validate_all
validate_all-Has node eth_map [] ss s h here = absurd (subst (Has s) (sym (ok_inj [] ss h)) here)
validate_all-Has node eth_map (raw ∷ raws) ss s h here =
    let (x, ex, h₁) = >>=-eq-ok (validate_selector node eth_map raw) _ h in
    let (xs, exs, h₂) = >>=-eq-ok (validate_all node eth_map raws) _ h₁ in
    elim (subst (Has s) (sym (ok_inj (x ∷ xs) ss h₂)) here) [
      | inl same ↦ (raw, inl refl, ex ∙ ap ok same)
      | inr later ↦
          let (found, there, valid) = validate_all-Has node eth_map raws xs s exs later in
          (found, inr there, valid)
    ]

-- A selector in the node's list that is valid.
pub record IsListed (node : Fields) (eth_map : EthMap) (raws : List Value) (s : Selector)
    : Type 0 where
  pub raw : Fields
  pub listed : Has (obj raw) raws
  pub valid : validate_selector node eth_map raw ≡ ok s

selectors_of-IsListed :
    (node : Fields) (eth_map : EthMap) (raws : List Value) (ss : List Selector) (s : Selector)
    → selectors_of node eth_map raws ≡ ok ss
    → Has s ss
    → IsListed node eth_map raws s
unfolding selectors_of
selectors_of-IsListed node eth_map raws ss s h here = elim (Option-cases (all_objects raws)) [
  | inl e ↦ absurd (ground arith)
  | inr (objects, e) ↦
      let (raw, there, valid) = validate_all-Has node eth_map objects ss s (rw e at h) here in
      record { raw = raw; listed = all_objects-Has raws objects raw e there; valid = valid }
]

-- What stands behind a command: two selectors of the node, each the mate of the other's path.
pub record IsPaired (node : Fields) (eth_map : EthMap) (raws : List Value) (cmds : List String)
    (c : String) : Type 0 where
  pub here : Selector
  pub there : Selector
  pub from_here : IsListed node eth_map raws here
  pub from_there : IsListed node eth_map raws there
  pub mate : IsMate here there
  pub command : c ≡ rule_command here
  pub way_back : mem (rule_command there) cmds ≡ true

-- The relation selection commands that are rendered are all different.
pub render-distinct :
    (node : Fields) (eth_map : EthMap) (cmds : List String)
    → render_relation_selection_rules node eth_map ≡ ok cmds
    → all_distinct cmds ≡ true
unfolding render_relation_selection_rules
render-distinct node eth_map cmds h =
    let (raws, _, h₁) =
      >>=-eq-ok (or_raise _ (as_list (get_or (arr nil) "routeSelectionRules" node))) _ h in
    let (ss, _, h₂) = >>=-eq-ok (selectors_of node eth_map raws) _ h₁ in
    let (_, _, h₃) = >>=-eq-ok (validate_direction_pairs ss) _ h₂ in
    subst (λ cs. all_distinct cs ≡ true) (ok_inj (push_all_new [] (map rule_command ss)) cmds h₃)
      (push_all_new-distinct [] (map rule_command ss) refl)

-- A relation selection command that is rendered is the rule of a valid selector in the node's list,
-- and the list has a valid selector of the way back (same relation, family and owner, opposite
-- direction, path turned around) whose rule is among the commands too.
pub render-IsPaired :
    (node : Fields) (eth_map : EthMap) (raws : List Value) (cmds : List String) (c : String)
    → as_list (get_or (arr nil) "routeSelectionRules" node) ≡ some raws
    → render_relation_selection_rules node eth_map ≡ ok cmds
    → mem c cmds ≡ true
    → IsPaired node eth_map raws cmds c
unfolding render_relation_selection_rules
render-IsPaired node eth_map raws cmds c er h m =
    let (ss, es, h₁) = >>=-eq-ok (selectors_of node eth_map raws) _ (rw er at h) in
    let (_, ep, h₂) = >>=-eq-ok (validate_direction_pairs ss) _ h₁ in
    let same = ok_inj (push_all_new [] (map rule_command ss)) cmds h₂ in
    let within = mem-push_all_new c [] (map rule_command ss) in
    let (s, there, e) = mem-Has rule_command c ss (sym within ∙ (rw (← same) at m)) in
    let ((t, there_t, mate), _) = validate_direction_pairs-mates ss s ep there in
    record {
      here = s;
      there = t;
      from_here = selectors_of-IsListed node eth_map raws ss s es there;
      from_there = selectors_of-IsListed node eth_map raws ss t es there_t;
      mate = mate;
      command = e;
      way_back =
          subst (λ cs. mem (rule_command t) cs ≡ true) same
            (mem-push_all_new (rule_command t) [] (map rule_command ss)
              ∙ Has-mem rule_command t ss there_t);
    }
