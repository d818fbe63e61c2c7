-- ===== src/Firewall/Policy/Laws.antt =====
-- The commands of the policy firewall: the fixed preamble, then rules without repetition, each one
-- of which a rule of the input asks for.
use mathlib.Core.Path.{subst}
use mathlib.Core.List.{append_assoc, append-nil}
use network_renderer_contain.Prelude.{
  String, ◌≡◌, refl, ap, sym, ◌∙◌, true, ◌||◌, Option, none, some, List, [], ◌∷◌, ◌++◌, string_eq,
  mem, Has, All, All-append, All-of, all_distinct, all_distinct-append_one, arith, Bool-cases,
  Option-cases, inl, inr, is_nil,
}
use network_renderer_contain.Py.Value.{
  Value, Fields, obj, end, arr, nil, get, get_or, text_of, as_dict, as_list,
}
use network_renderer_contain.Py.Result.{
  ok_inj, ok, runtime_error, >>=-eq-ok, Result-cases, or_raise,
}
use network_renderer_contain.Firewall.CpmRules.{action_of}
use network_renderer_contain.Firewall.Rules.{rules_for_cpm_rule}
use network_renderer_contain.Firewall.Policy.{
  tenant_interfaces, with_tenants, rule_for_match, Emitted, emit, emit_all, match_rule, emit_opt,
  emit_matches, tenant_rule, legacy_rule, one_rule, rule_loop, preamble, list_table, render,
}

nil_of : (cs : List String) → is_nil cs ≡ true → cs ≡ []
nil_of [] h = refl
nil_of (c ∷ cs) h = cc

-- The state of the loops: the preamble and the rules so far, none twice, and all of them P.
pub record IsRun (start : List String) (P : String → Type 0) (e : Emitted) : Type 0 where
  pub shape : e.cmds ≡ start ++ e.emitted
  pub distinct : all_distinct e.emitted ≡ true
  pub each : All P e.emitted

-- A rule of the input asks for this command: as one of its own rules, or, where it has none of its
-- own, as the rule of one of its matches, from the interfaces of its source tenant to those of its
-- destination tenant.
pub data Asks (tags rule : Fields) (c : String) : Type 0 where
  own : (cs : List String) → rules_for_cpm_rule rule ≡ ok cs → mem c cs ≡ true → Asks tags rule c
  between :
      (src dst : String) (matches : List Value) (m : Fields)
      → rules_for_cpm_rule rule ≡ ok []
      → text_of (get "src_tenant" rule) ≡ some src
      → text_of (get "dst_tenant" rule) ≡ some dst
      → as_list (get_or (arr nil) "matches" rule) ≡ some matches
      → Has (obj m) matches
      → rule_for_match (tenant_interfaces tags src) (tenant_interfaces tags dst) m (action_of rule)
        ≡ ok c
      → Asks tags rule c

pub record IsAsked (tags : Fields) (rules : List Value) (c : String) : Type 0 where
  pub rule : Fields
  pub listed : Has (obj rule) rules
  pub asks : Asks tags rule c

obj_of : (v : Value) (fs : Fields) → as_dict v ≡ some fs → v ≡ obj fs
obj_of (obj gs) fs h = cc
obj_of _ fs h = cc

module _ (start : List String) (P : String → Type 0) where
  emit-IsRun : (e : Emitted) (c : String) → IsRun start P e → P c → IsRun start P (emit e c)
  unfolding emit
  emit-IsRun e c r p = elim (Bool-cases (mem c e.emitted)) [
    | inl old ↦ rw old r
    | inr new ↦ rw new (record {
      shape = ap (λ cs. cs ++ c ∷ []) r.shape ∙ append_assoc start e.emitted (c ∷ []);
      distinct = all_distinct-append_one e.emitted c r.distinct new;
      each = All-append P e.emitted (c ∷ []) r.each (p, tt);
    })
  ]

  emit_all-IsRun :
      (cs : List String) (e : Emitted) → IsRun start P e → All P cs → IsRun start P (emit_all e cs)
  unfolding emit_all
  emit_all-IsRun [] e r p = r
  emit_all-IsRun (c ∷ cs) e r (p, ps) = emit_all-IsRun cs (emit e c) (emit-IsRun e c r p) ps

  emit_opt-IsRun :
      (src dst : List String) (action : String) (vs : List Value)
      → ((m : Fields)
          → Has (obj m) vs
          → (c : String) → rule_for_match src dst m action ≡ ok c
          → P c)
      → (v : Value) (rule : Option String) (e : Emitted) → Has v vs
      → match_rule src dst action v ≡ ok rule
      → IsRun start P e
      → IsRun start P (emit_opt e rule)
  emit_opt-IsRun src dst action vs all v none e here h r = r
  emit_opt-IsRun src dst action vs all v (some c) e here h r = elim (Option-cases (as_dict v)) [
    | inl no_dict ↦ absurd (ground arith)
    | inr (m, found) ↦ elim (Result-cases (rule_for_match src dst m action)) [
      | inl (c', made) ↦
          emit-IsRun e c r (all m (subst (λ w. Has w vs) (obj_of v m found) here) c (ground arith))
      | inr (_, failed) ↦ absurd (ground arith)
    ]
  ]

  emit_matches-IsRun :
      (src dst : List String) (action : String) (vs : List Value) (e out : Emitted)
      → ((m : Fields)
          → Has (obj m) vs
          → (c : String) → rule_for_match src dst m action ≡ ok c
          → P c)
      → emit_matches src dst action vs e ≡ ok out
      → IsRun start P e
      → IsRun start P out
  unfolding emit_matches
  emit_matches-IsRun src dst action [] e out all h r = rw (← ok_inj _ _ h) r
  emit_matches-IsRun src dst action (v ∷ vs) e out all h r =
      let (rule, em, h₁) = >>=-eq-ok (match_rule src dst action v) _ h in
      emit_matches-IsRun src dst action vs (emit_opt e rule) out (λ m here. all m (inr here)) h₁
        (emit_opt-IsRun src dst action (v ∷ vs) all v rule e (inl refl) em r)

  with_tenants-IsRun :
      (tags rule : Fields) (src dst : Option String) (matches : Option (List Value))
      (e out : Emitted)
      → ((s d : String) (vs : List Value) (m : Fields) (c : String)
          → src ≡ some s
          → dst ≡ some d
          → matches ≡ some vs
          → Has (obj m) vs
          → rule_for_match (tenant_interfaces tags s) (tenant_interfaces tags d) m (action_of rule)
            ≡ ok c
          → P c)
      → with_tenants tags rule src dst matches e ≡ ok out
      → IsRun start P e
      → IsRun start P out
  unfolding tenant_rule
  with_tenants-IsRun tags rule (some src) (some dst) (some matches) e out all h r =
      elim (Bool-cases
        (is_nil (tenant_interfaces tags src) || is_nil (tenant_interfaces tags dst))) [
          | inl unused ↦ subst (IsRun start P) (ground arith) r
          | inr used ↦
              emit_matches-IsRun (tenant_interfaces tags src) (tenant_interfaces tags dst)
                (action_of rule) matches e out
                (λ m here c. all src dst matches m c refl refl refl here) (ground arith) r
        ]
  with_tenants-IsRun tags rule _ _ _ e out all h r = subst (IsRun start P) (ok_inj _ _ h) r

  pub one_rule-IsRun :
      (tags rule : Fields) (e out : Emitted)
      → ((c : String) → Asks tags rule c → P c)
      → one_rule tags rule e ≡ ok out
      → IsRun start P e
      → IsRun start P out
  unfolding one_rule legacy_rule
  one_rule-IsRun tags rule e out all h r = elim (Result-cases (rules_for_cpm_rule rule)) [
    | inr (_, failed) ↦ absurd (ground arith)
    | inl (cs, made) ↦ elim (Bool-cases (is_nil cs)) [
      | inl none_own ↦
          with_tenants-IsRun tags rule (text_of (get "src_tenant" rule))
            (text_of (get "dst_tenant" rule)) (as_list (get_or (arr nil) "matches" rule)) e out
            (λ src dst vs m c is_src is_dst is_list here made_one. all c (
              between src dst vs m (made ∙ ap ok (nil_of cs none_own)) is_src is_dst is_list here
                made_one))
            (ground arith) r
      | inr some_own ↦
          subst (IsRun start P) (ground arith)
            (emit_all-IsRun cs e r (All-of P cs (λ c here. all c (own cs made here))))
    ]
  ]

rule_loop-IsRun :
    (start : List String) (P : String → Type 0) (tags : Fields) (vs : List Value) (e out : Emitted)
    → ((rule : Fields) → Has (obj rule) vs → (c : String) → Asks tags rule c → P c)
    → rule_loop tags vs e ≡ ok out
    → IsRun start P e
    → IsRun start P out
unfolding rule_loop
rule_loop-IsRun start P tags [] e out all h r = subst (IsRun start P) (ok_inj _ _ h) r
rule_loop-IsRun start P tags (obj rule ∷ vs) e out all h r =
    let (next, step, h₁) = >>=-eq-ok (one_rule tags rule e) _ h in
    rule_loop-IsRun start P tags vs next out (λ later m. all later (inr m)) h₁
      (one_rule-IsRun start P tags rule e next (all rule (inl refl)) step r)
rule_loop-IsRun start P tags (_ ∷ vs) e out all h r =
    rule_loop-IsRun start P tags vs e out (λ later m. all later (inr m)) h r

-- The commands of a policy firewall that is rendered are the fixed preamble, then rules without
-- repetition, each one asked for by a rule of the input, and last the listing of the table. A rule
-- asks for what its own rules function gives and, where it names two tenants, for the rule of each
-- of its matches from an interface tagged with the source tenant to one tagged with the destination
-- tenant.
pub render-IsAsked :
    (input tags : Fields) (out : List String) (vs : List Value)
    → as_dict (get_or (obj end) "interface_tags" input) ≡ some tags
    → as_list (get_or (arr nil) "rules" input) ≡ some vs
    → render input ≡ ok out
    → (emitted : List String) × (out ≡ preamble input ++ (emitted ++ list_table ∷ []))
      × (all_distinct emitted ≡ true)
      × All (IsAsked tags vs) emitted
unfolding render
render-IsAsked input tags out vs et e h =
    let start = preamble input in
    let begun : Emitted = record { cmds = start; emitted = [] } in
    let (tags', et', h₁) =
      >>=-eq-ok
        (or_raise (runtime_error "missing firewall interface_tags")
          (as_dict (get_or (obj end) "interface_tags" input)))
        _ h in
    let (found, ev, h₂) =
      >>=-eq-ok
        (or_raise (runtime_error "missing firewall rules")
          (as_list (get_or (arr nil) "rules" input)))
        _ h₁ in
    let same : found ≡ vs = ground (arith, e, ev) in
    let same_tags : tags' ≡ tags = ground (arith, et, et') in
    let (done, el, h₃) = >>=-eq-ok (rule_loop tags' found begun) _ h₂ in
    let r =
      rule_loop-IsRun start (IsAsked tags vs) tags' found begun done
        (λ rule m c a. record {
          rule = rule;
          listed = rw same at m;
          asks = subst (λ t. Asks t rule c) same_tags a;
        })
        el (record { shape = sym (append-nil start); distinct = refl; each = tt }) in
    (
      done.emitted,
      sym (ok_inj _ _ h₃)
          ∙ ap (λ cs. cs ++ list_table ∷ []) r.shape
          ∙ append_assoc start done.emitted (list_table ∷ []),
      r.distinct,
      r.each,
    )
