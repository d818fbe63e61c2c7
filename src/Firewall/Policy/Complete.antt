-- ===== src/Firewall/Policy/Complete.antt =====
-- Every rule that the input asks for with interfaces of its own is among the commands.
use mathlib.Core.List.{append-nil}
use network_renderer_contain.Prelude.{
  String, ◌≡◌, refl, sym, Bool, true, ◌||◌, Option, none, some, List, [], ◌∷◌, ◌++◌, ◌==◌,
  string_eq, mem, mem-append, Has, arith, Bool-cases, inl, inr, is_nil, eq_iff,
}
use network_renderer_contain.Py.Value.{
  Value, Fields, obj, end, arr, nil, get, get_or, text_of, as_dict, as_list,
}
use network_renderer_contain.Py.Result.{
  ok_inj, ok, runtime_error, >>=-eq-ok, Result-cases, or_raise,
}
use network_renderer_contain.Firewall.CpmRules.{action_of}
use network_renderer_contain.Firewall.Rules.{rules_for_cpm_rule}
use network_renderer_contain.Firewall.Policy.{
  Emitted, emit, emit_all, match_rule, emit_opt, emit_matches, tenant_rule, legacy_rule,
  with_tenants, one_rule, rule_loop, preamble, list_table, render, tenant_interfaces,
}
use network_renderer_contain.Firewall.Policy.Laws.{IsRun, one_rule-IsRun}

-- A command that stands among the commands and in the set.
abbrev IsIn : String → Emitted → Type 0
IsIn c e = (mem c e.emitted ≡ true) × (mem c e.cmds ≡ true)

-- What is in the set has been written.
record IsWritten (e : Emitted) : Type 0 where
  written : (c : String) → mem c e.emitted ≡ true → mem c e.cmds ≡ true

module _ (c : String) where
  emit-keeps : (e : Emitted) (d : String) → mem c e.cmds ≡ true → mem c (emit e d).cmds ≡ true
  unfolding emit
  emit-keeps e d h = ground (arith, mem-append c e.cmds (d ∷ []))

  emit_all-keeps :
      (ds : List String) (e : Emitted) → mem c e.cmds ≡ true → mem c (emit_all e ds).cmds ≡ true
  unfolding emit_all
  emit_all-keeps [] e h = h
  emit_all-keeps (d ∷ ds) e h = emit_all-keeps ds (emit e d) (emit-keeps e d h)

  emit_matches-keeps :
      (src dst : List String) (action : String) (vs : List Value) (e out : Emitted)
      → emit_matches src dst action vs e ≡ ok out
      → mem c e.cmds ≡ true
      → mem c out.cmds ≡ true
  unfolding emit_matches
  emit_matches-keeps src dst action [] e out h m = ground arith
  emit_matches-keeps src dst action (v ∷ vs) e out h m =
      let (rule, _, h₁) = >>=-eq-ok (match_rule src dst action v) _ h in
      emit_matches-keeps src dst action vs (emit_opt e rule) out h₁ (opt rule)
    where
      opt : (rule : Option String) → mem c (emit_opt e rule).cmds ≡ true
      opt none = m
      opt (some d) = emit-keeps e d m

  written_all :
      (ds : List String) (e out : Emitted)
      → ok (emit_all e ds) ≡ ok out
      → mem c e.cmds ≡ true
      → mem c out.cmds ≡ true
  written_all ds e out h m = rw (← ok_inj _ _ h) (emit_all-keeps ds e m)

  with_tenants-keeps :
      (tags rule : Fields) (src dst : Option String) (matches : Option (List Value))
      (e out : Emitted)
      → with_tenants tags rule src dst matches e ≡ ok out
      → mem c e.cmds ≡ true
      → mem c out.cmds ≡ true
  unfolding tenant_rule
  with_tenants-keeps tags rule (some src) (some dst) (some matches) e out h m =
      elim (Bool-cases
        (is_nil (tenant_interfaces tags src) || is_nil (tenant_interfaces tags dst))) [
          | inl unused ↦ ground arith
          | inr used ↦
              emit_matches-keeps (tenant_interfaces tags src) (tenant_interfaces tags dst)
                (action_of rule) matches e out (ground arith) m
        ]
  with_tenants-keeps tags rule _ _ _ e out h m = ground arith

  one_rule-keeps :
      (tags rule : Fields) (e out : Emitted)
      → one_rule tags rule e ≡ ok out
      → mem c e.cmds ≡ true
      → mem c out.cmds ≡ true
  unfolding one_rule legacy_rule
  one_rule-keeps tags rule e out h m = elim (Result-cases (rules_for_cpm_rule rule)) [
    | inr (_, failed) ↦ absurd (ground arith)
    | inl (cs, made) ↦ elim (Bool-cases (is_nil cs)) [
      | inl none_own ↦
          with_tenants-keeps tags rule (text_of (get "src_tenant" rule))
            (text_of (get "dst_tenant" rule)) (as_list (get_or (arr nil) "matches" rule)) e out
            (ground arith) m
      | inr some_own ↦ written_all cs e out (ground arith) m
    ]
  ]

  rule_loop-keeps :
      (tags : Fields) (vs : List Value) (e out : Emitted)
      → rule_loop tags vs e ≡ ok out
      → mem c e.cmds ≡ true
      → mem c out.cmds ≡ true
  unfolding rule_loop
  rule_loop-keeps tags [] e out h m = ground arith
  rule_loop-keeps tags (obj rule ∷ vs) e out h m =
      let (next, step, h₁) = >>=-eq-ok (one_rule tags rule e) _ h in
      rule_loop-keeps tags vs next out h₁ (one_rule-keeps tags rule e next step m)
  rule_loop-keeps tags (_ ∷ vs) e out h m = rule_loop-keeps tags vs e out h m

obj_inj : (fs gs : Fields) → obj fs ≡ obj gs → fs ≡ gs
obj_inj fs gs h = cc

or_true : (b : Bool) → (b || true) ≡ true
or_true b = ground arith

emit-IsWritten : (e : Emitted) (d : String) → IsWritten e → IsWritten (emit e d)
unfolding emit
emit-IsWritten e d w = record {
  written = λ c h.
      ground (arith, w.written c, mem-append c e.emitted (d ∷ []), mem-append c e.cmds (d ∷ []));
}

emit-has : (e : Emitted) (d : String) → IsWritten e → mem d (emit e d).cmds ≡ true
unfolding emit
emit-has e d w = ground (arith, w.written d, mem-append d e.cmds (d ∷ []), eq_iff d d)

emit_all-has :
    (c : String) (ds : List String) (e : Emitted)
    → IsWritten e
    → mem c ds ≡ true
    → mem c (emit_all e ds).cmds ≡ true
unfolding emit_all
emit_all-has c [] e w h = cc
emit_all-has c (d ∷ ds) e w h = elim (Bool-cases (c == d)) [
  | inl same ↦ emit_all-keeps c ds (emit e d) (rw ((eq_iff c d).0 same) (emit-has e d w))
  | inr other ↦ emit_all-has c ds (emit e d) (emit-IsWritten e d w) (ground arith)
]

one_rule-has :
    (c : String) (tags rule : Fields) (cs : List String) (e out : Emitted)
    → rules_for_cpm_rule rule ≡ ok cs
    → mem c cs ≡ true
    → one_rule tags rule e ≡ ok out
    → IsWritten e
    → mem c out.cmds ≡ true
unfolding one_rule
one_rule-has c tags rule [] e out made m h w = cc
one_rule-has c tags rule (d ∷ ds) e out made m h w =
    rw (← ok_inj _ _ (rw made at h)) (emit_all-has c (d ∷ ds) e w m)

IsRun-IsWritten :
    (start : List String) (P : String → Type 0) (e : Emitted) → IsRun start P e → IsWritten e
IsRun-IsWritten start P e r = record {
  written = λ c h. rw (r.shape, mem-append c start e.emitted, h) (or_true (mem c start));
}

module _ (c : String) (tags rule : Fields) (cs : List String)
    (made : rules_for_cpm_rule rule ≡ ok cs) (m : mem c cs ≡ true) where
  rule_loop-Has :
      (start : List String) (vs : List Value) (e out : Emitted)
      → rule_loop tags vs e ≡ ok out
      → Has (obj rule) vs
      → IsRun start (λ _. Unit) e
      → mem c out.cmds ≡ true
  unfolding rule_loop
  rule_loop-Has start [] e out h here r = absurd here
  rule_loop-Has start (obj other ∷ vs) e out h (inl same) r =
      let (next, step, h₁) = >>=-eq-ok (one_rule tags other e) _ h in
      let one : other ≡ rule = obj_inj _ _ same in
      rule_loop-keeps c tags vs next out h₁ (
        one_rule-has c tags rule cs e next made m (rw one at step)
          (IsRun-IsWritten start (λ _. Unit) e r))
  rule_loop-Has start (obj other ∷ vs) e out h (inr here) r =
      let (next, step, h₁) = >>=-eq-ok (one_rule tags other e) _ h in
      rule_loop-Has start vs next out h₁ here
        (one_rule-IsRun start (λ _. Unit) tags other e next (λ _ _. tt) step r)
  rule_loop-Has start (_ ∷ vs) e out h (inr here) r = rule_loop-Has start vs e out h here r
  rule_loop-Has start (_ ∷ vs) e out h (inl same) r = cc

-- Where the firewall is rendered, every command that the rules function gives for a rule of the
-- input is among its commands.
pub render_complete :
    (input rule : Fields) (vs : List Value) (cs out : List String) (c : String)
    → as_list (get_or (arr nil) "rules" input) ≡ some vs
    → Has (obj rule) vs
    → rules_for_cpm_rule rule ≡ ok cs
    → mem c cs ≡ true
    → render input ≡ ok out
    → mem c out ≡ true
unfolding render
render_complete input rule vs cs out c e here made m h =
    let start = preamble input in
    let begun : Emitted = record { cmds = start; emitted = [] } in
    let (tags, _, h₁) =
      >>=-eq-ok
        (or_raise (runtime_error "missing firewall interface_tags")
          (as_dict (get_or (obj end) "interface_tags" input)))
        _ h in
    let (found, ev, h₂) =
      >>=-eq-ok
        (or_raise (runtime_error "missing firewall rules")
          (as_list (get_or (arr nil) "rules" input)))
        _ h₁ in
    let same : found ≡ vs = ground (arith, e, ev) in
    let (done, el, h₃) = >>=-eq-ok (rule_loop tags found begun) _ h₂ in
    let k =
      rule_loop-Has c tags rule cs made m start found begun done el (rw same here)
        (record { shape = sym (append-nil start); distinct = refl; each = tt }) in
    let whole : done.cmds ++ list_table ∷ [] ≡ out = ok_inj _ _ h₃ in
    rw (← whole, mem-append c done.cmds (list_table ∷ []), k) refl
