-- ===== src/Firewall/Rules/Laws.antt =====
-- What the rules of one forwarding rule are: their parts, and what has been checked of the rule.
use mathlib.Core.Path.{subst}
use network_renderer_contain.Prelude.{
  String, ◌≡◌, ◌⊎◌, refl, sym, true, false, none, some, List, [], ◌∷◌, string_eq, Has, All,
  All-append, arith, Bool-cases, Option-cases, inl, inr,
}
use network_renderer_contain.Py.Value.{Fields, get, text_of, is_true}
use network_renderer_contain.Py.Result.{ok_inj, ok, >>=-eq-ok, Result-cases}
use network_renderer_contain.Py.Ip.{Family}
use network_renderer_contain.Firewall.CpmRules.{
  identity_comment, connection_state_expr, established, action_of, explicit_match_suffixes,
}
use network_renderer_contain.Firewall.CpmRules.Runtime.{
  is_absent, runtime_destination_rule, runtime_rule,
}
use network_renderer_contain.Firewall.Rules.{
  families_of, base_statement, command, suffixed, suffixes_of, lacks_destination, family_rules,
  rules_for_families, rules_between, rules_for_cpm_rule,
}

-- One rule of a family: the shared part, a suffix, the action and the owner's comment.
pub record IsRule (rule : Fields) (from to state c : String) : Type 0 where
  pub family : Family
  pub listed : Has family (families_of rule)
  pub suffix : String
  pub matched : List String
  pub suffixes : explicit_match_suffixes rule family ≡ ok matched
  pub member : Has suffix (suffixes_of rule matched)
  pub served : lacks_destination rule family ≡ false
  pub text :
      c
      ≡ command
          (base_statement rule from to state family)
          suffix
          (action_of rule)
          (identity_comment rule)

module _ (rule : Fields) (from to state : String) where
  suffixed-IsRule :
      (family : Family) (matched : List String)
      → Has family (families_of rule)
      → explicit_match_suffixes rule family ≡ ok matched
      → lacks_destination rule family ≡ false
      → (ss : List String) → ((s : String) → Has s ss → Has s (suffixes_of rule matched))
      → All (IsRule rule from to state) (
          suffixed
            (base_statement rule from to state family)
            (action_of rule)
            (identity_comment rule)
            ss)
  suffixed-IsRule family matched m e served [] f = tt
  suffixed-IsRule family matched m e served (s ∷ ss) f = (
    record {
      family = family;
      listed = m;
      suffix = s;
      matched = matched;
      suffixes = e;
      member = f s (inl refl);
      served = served;
      text = refl;
    },
    suffixed-IsRule family matched m e served ss (λ t h. f t (inr h)),
  )

  family_rules-IsRule :
      (family : Family) (rs : List String)
      → Has family (families_of rule)
      → family_rules rule from to (action_of rule) state family ≡ ok rs
      → All (IsRule rule from to state) rs
  unfolding family_rules
  family_rules-IsRule family rs m h = elim (Bool-cases (lacks_destination rule family)) [
    | inl lacks ↦ subst (All (IsRule rule from to state)) (ok_inj [] rs (ground arith)) tt
    | inr served ↦ elim (Result-cases (explicit_match_suffixes rule family)) [
      | inr (_, e) ↦ absurd (ground arith)
      | inl (matched, e) ↦
          subst (All (IsRule rule from to state)) (ok_inj _ rs (ground (arith, e)))
            (suffixed-IsRule family matched m e served (suffixes_of rule matched) (λ s k. k))
    ]
  ]

  rules_for_families-IsRule :
      (families : List Family) (rs : List String)
      → ((f : Family) → Has f families → Has f (families_of rule))
      → rules_for_families rule from to (action_of rule) state families ≡ ok rs
      → All (IsRule rule from to state) rs
  unfolding rules_for_families
  rules_for_families-IsRule [] rs sub h =
      subst (All (IsRule rule from to state)) (ok_inj [] rs h) tt
  rules_for_families-IsRule (family ∷ families) rs sub h =
      let (here, e, h₁) = >>=-eq-ok (family_rules rule from to (action_of rule) state family) _ h in
      let (rest, e', h₂) =
        >>=-eq-ok (rules_for_families rule from to (action_of rule) state families) _ h₁ in
      subst (All (IsRule rule from to state)) (ok_inj _ rs h₂) (
        All-append (IsRule rule from to state) here rest
          (family_rules-IsRule family here (sub family (inl refl)) e)
          (rules_for_families-IsRule families rest (λ f m. sub f (inr m)) e'))

-- What a success of `rules_for_cpm_rule` has rendered: nothing without two named interfaces, the one
-- command of a runtime destination, or the rules of the families.
data Rendered (rule : Fields) (rs : List String) : Type 0 where
  unnamed :
      (text_of (get "fromInterface" rule) ≡ none) ⊎ (text_of (get "toInterface" rule) ≡ none)
      → rs ≡ []
      → Rendered rule rs
  runtime :
      (from to state c : String)
      → connection_state_expr rule ≡ ok state
      → is_absent (get "destinationRuntimeAddresses" rule) ≡ false
      → runtime_rule rule (get "destinationRuntimeAddresses" rule) from to (action_of rule) state
        ≡ ok c
      → rs ≡ c ∷ []
      → Rendered rule rs
  static :
      (from to state : String)
      → text_of (get "fromInterface" rule) ≡ some from
      → text_of (get "toInterface" rule) ≡ some to
      → connection_state_expr rule ≡ ok state
      → is_absent (get "destinationRuntimeAddresses" rule) ≡ true
      → All (IsRule rule from to state) rs
      → Rendered rule rs

rules_between-Rendered :
    (rule : Fields) (from to : String) (rs : List String)
    → text_of (get "fromInterface" rule) ≡ some from
    → text_of (get "toInterface" rule) ≡ some to
    → rules_between rule from to ≡ ok rs
    → Rendered rule rs
unfolding rules_between runtime_destination_rule
rules_between-Rendered rule from to rs ef et h =
    let (state, es, h₁) = >>=-eq-ok (connection_state_expr rule) _ h in
    elim (Bool-cases (is_absent (get "destinationRuntimeAddresses" rule))) [
      | inl absent ↦ static from to state ef et es absent (
          rules_for_families-IsRule rule from to state (families_of rule) rs (λ f m. m)
            (rw absent at h₁))
      | inr given ↦
          elim (Result-cases (
            runtime_rule rule (get "destinationRuntimeAddresses" rule) from to (action_of rule)
              state)) [
                | inl (c, made) ↦
                    runtime from to state c es given made
                      (sym (ok_inj _ _ (rw (given, made) at h₁)))
                | inr (_, failed) ↦ absurd (ground (arith, given, failed, h₁))
              ]
    ]

rules_for_cpm_rule-Rendered :
    (rule : Fields) (rs : List String) → rules_for_cpm_rule rule ≡ ok rs → Rendered rule rs
unfolding rules_for_cpm_rule
rules_for_cpm_rule-Rendered rule rs h = elim (Option-cases (text_of (get "fromInterface" rule))) [
  | inl nowhere ↦ unnamed (inl nowhere) (ground arith)
  | inr (from, ef) ↦ elim (Option-cases (text_of (get "toInterface" rule))) [
    | inl nowhere ↦ unnamed (inr nowhere) (ground arith)
    | inr (to, et) ↦ rules_between-Rendered rule from to rs ef et (ground arith)
  ]
]

connection_state_of_return :
    (rule : Fields) (state : String)
    → is_true (get "returnRule" rule) ≡ true
    → connection_state_expr rule ≡ ok state
    → state ≡ established
unfolding connection_state_expr
connection_state_of_return rule state back h = ground arith

-- Where the rules of a return rule without a runtime destination are given, there are none, or they
-- are static rules that are limited to established and related connections.
pub return-IsRule-established :
    (rule : Fields) (rs : List String)
    → is_true (get "returnRule" rule) ≡ true
    → is_absent (get "destinationRuntimeAddresses" rule) ≡ true
    → rules_for_cpm_rule rule ≡ ok rs
    → (rs ≡ []) ⊎ ((from : String) × (to : String) × All (IsRule rule from to established) rs)
return-IsRule-established rule rs back absent h =
    of_rendered (rules_for_cpm_rule-Rendered rule rs h)
  where
    of_rendered :
        Rendered rule rs
        → (rs ≡ []) ⊎ ((from : String) × (to : String) × All (IsRule rule from to established) rs)
    of_rendered (unnamed _ e) = inl e
    of_rendered (runtime from to state c es given made e) = absurd (ground (arith, given, absent))
    of_rendered (static from to state ef et es _ a) =
        let e = connection_state_of_return rule state back es in
        inr (from, to, subst (λ s. All (IsRule rule from to s) rs) e a)
