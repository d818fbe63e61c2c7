-- ===== src/Linux/PolicyRoutes/Returns/Advance.antt =====
-- How the claims and the commands grow by the rules of one lane.
use mathlib.Core.Path.{subst}
use network_renderer_contain.Prelude.{
  ℕ, String, true, ◌≡◌, refl, ap, sym, ◌∙◌, List, [], ◌∷◌, ◌++◌, ◌==◌, string_eq, nat_eq, pair_eq,
  mem, mem-append, mem-append_left, mem-append_right, mem-head, ◌⊎◌, Bool-cases, inl, inr, arith,
}
use network_renderer_contain.Py.Ip.{Family, v4, v6}
use network_renderer_contain.Linux.PolicyRoutes.Tables.{rule_add, to_rule}
use network_renderer_contain.Linux.PolicyRoutes.Returns.{
  Claim, Claimed, claims_of, add_claim, make_claim, make_claims,
}

-- What the rules of one priority and table add: the claims and commands stay, and what is claimed
-- anew is wanted and has its rule.
pub record IsAdvanced (Wanted : Family → Claim → Type 0) (priority table : ℕ) (c c' : Claimed)
    : Type 0 where
  pub claims :
      (f : Family) (k : Claim) → mem k (claims_of f c) ≡ true → mem k (claims_of f c') ≡ true
  pub cmds : (cmd : String) → mem cmd c.cmds ≡ true → mem cmd c'.cmds ≡ true
  pub new :
      (f : Family) (k : Claim)
      → mem k (claims_of f c') ≡ true
      → (mem k (claims_of f c) ≡ true)
        ⊎ (Wanted f k × (mem (rule_add f (to_rule k.0 k.1) priority table) c'.cmds ≡ true))

added :
    (k claim : Claim) (claims : List Claim)
    → mem k (claims ++ claim ∷ []) ≡ true
    → (mem k claims ≡ true) ⊎ (k ≡ claim)
added k claim claims h = elim (Bool-cases (mem k claims)) [
  | inl old ↦ inl old
  | inr other ↦
      inr ((pair_eq.eqb_iff k claim).0 (ground (arith, mem-append k claims (claim ∷ []), h, other)))
]

module _ (priority table : ℕ) where
  abbrev pub rule : Family → Claim → String
  rule f k = rule_add f (to_rule k.0 k.1) priority table

  add_claim-kept :
      (f g : Family) (claim k : Claim) (cmd : String) (c : Claimed)
      → mem k (claims_of g c) ≡ true
      → mem k (claims_of g (add_claim f claim cmd c)) ≡ true
  add_claim-kept v4 v4 claim k cmd c m = mem-append_left k c.claimed4 (claim ∷ []) m
  add_claim-kept v4 v6 claim k cmd c m = m
  add_claim-kept v6 v4 claim k cmd c m = m
  add_claim-kept v6 v6 claim k cmd c m = mem-append_left k c.claimed6 (claim ∷ []) m

  add_claim-made :
      (f : Family) (claim : Claim) (cmd : String) (c : Claimed)
      → mem claim (claims_of f (add_claim f claim cmd c)) ≡ true
  add_claim-made v4 claim cmd c = mem-append_right claim c.claimed4 (claim ∷ []) (mem-head claim [])
  add_claim-made v6 claim cmd c = mem-append_right claim c.claimed6 (claim ∷ []) (mem-head claim [])

  at_end :
      (f : Family) (claim k : Claim) (cmds : List String)
      → k ≡ claim
      → mem (rule f k) (cmds ++ rule f claim ∷ []) ≡ true
  at_end f claim k cmds same =
      ap (λ j. mem (rule f j) (cmds ++ rule f claim ∷ [])) same
      ∙ mem-append_right (rule f claim) cmds (rule f claim ∷ []) (mem-head (rule f claim) [])

  add_claim-new :
      (f g : Family) (claim k : Claim) (c : Claimed)
      → mem k (claims_of g (add_claim f claim (rule f claim) c)) ≡ true
      → (mem k (claims_of g c) ≡ true)
        ⊎ ((f ≡ g) × (claim ≡ k) × (mem (rule g k) (c.cmds ++ rule f claim ∷ []) ≡ true))
  add_claim-new v4 v4 claim k c m = elim (added k claim c.claimed4 m) [
    | inl old ↦ inl old
    | inr same ↦ inr (refl, sym same, at_end v4 claim k c.cmds same)
  ]
  add_claim-new v4 v6 claim k c m = inl m
  add_claim-new v6 v4 claim k c m = inl m
  add_claim-new v6 v6 claim k c m = elim (added k claim c.claimed6 m) [
    | inl old ↦ inl old
    | inr same ↦ inr (refl, sym same, at_end v6 claim k c.cmds same)
  ]

  add_claim-cmds :
      (f : Family) (claim : Claim) (c : Claimed)
      → (add_claim f claim (rule f claim) c).cmds ≡ c.cmds ++ rule f claim ∷ []
  add_claim-cmds v4 claim c = refl
  add_claim-cmds v6 claim c = refl

  make_claim-made :
      (f : Family) (claim : Claim) (c : Claimed)
      → mem claim (claims_of f (make_claim f priority table claim c)) ≡ true
  unfolding make_claim
  make_claim-made f claim c = elim (Bool-cases (mem claim (claims_of f c))) [
    | inl old ↦ rw old old
    | inr new ↦ rw new (add_claim-made f claim (rule f claim) c)
  ]

module _ (Wanted : Family → Claim → Type 0) (priority table : ℕ) where
  pub same-IsAdvanced : (c : Claimed) → IsAdvanced Wanted priority table c c
  same-IsAdvanced c = record { claims = λ f k m. m; cmds = λ cmd m. m; new = λ f k m. inl m }

  make_claim-IsAdvanced :
      (f : Family) (claim : Claim) (c : Claimed)
      → Wanted f claim
      → IsAdvanced Wanted priority table c (make_claim f priority table claim c)
  unfolding make_claim
  make_claim-IsAdvanced f claim c wanted = elim (Bool-cases (mem claim (claims_of f c))) [
    | inl old ↦ rw old (same-IsAdvanced c)
    | inr new ↦ rw new (record {
      claims = λ g k m. add_claim-kept priority table f g claim k (rule priority table f claim) c m;
      cmds = λ cmd m.
          ap (mem cmd) (add_claim-cmds priority table f claim c)
          ∙ mem-append_left cmd c.cmds (rule priority table f claim ∷ []) m;
      new = λ g k m. elim (add_claim-new priority table f g claim k c m) [
        | inl before ↦ inl before
        | inr (is_g, is_k, here) ↦ inr (
          subst (λ h. Wanted h k) is_g (subst (Wanted f) is_k wanted),
          ap (mem (rule priority table g k)) (add_claim-cmds priority table f claim c) ∙ here,
        )
      ];
    })
  ]

  pub after-IsAdvanced :
      (a b c : Claimed)
      → IsAdvanced Wanted priority table a b
      → IsAdvanced Wanted priority table b c
      → IsAdvanced Wanted priority table a c
  after-IsAdvanced a b c first second = record {
    claims = λ f k m. second.claims f k (first.claims f k m);
    cmds = λ cmd m. second.cmds cmd (first.cmds cmd m);
    new = λ f k m. elim (second.new f k m) [
      | inr here ↦ inr here
      | inl before ↦ elim (first.new f k before) [
        | inl old ↦ inl old
        | inr (wanted, there) ↦ inr (wanted, second.cmds _ there)
      ]
    ];
  }

  pub make_claims-IsAdvanced :
      (f : Family) (claims : List Claim) (c : Claimed)
      → ((k : Claim) → mem k claims ≡ true → Wanted f k)
      → IsAdvanced Wanted priority table c (make_claims f priority table claims c)
  unfolding make_claims
  make_claims-IsAdvanced f [] c wanted = same-IsAdvanced c
  make_claims-IsAdvanced f (claim ∷ rest) c wanted =
      after-IsAdvanced c (make_claim f priority table claim c) _
        (make_claim-IsAdvanced f claim c (wanted claim (mem-head claim rest)))
        (make_claims-IsAdvanced f rest _ (λ k m. wanted k (ground (arith, m))))

  pub make_claims-made :
      (f : Family) (claims : List Claim) (k : Claim) (c : Claimed)
      → ((j : Claim) → mem j claims ≡ true → Wanted f j)
      → mem k claims ≡ true
      → mem k (claims_of f (make_claims f priority table claims c)) ≡ true
  unfolding make_claims
  make_claims-made f [] k c wanted m = absurd (cc)
  make_claims-made f (claim ∷ rest) k c wanted m = elim (Bool-cases (k == claim)) [
    | inl same ↦
        let is_k = (pair_eq.eqb_iff k claim).0 same in
        let next = make_claim f priority table claim c in
        (make_claims-IsAdvanced f rest next (λ j h. wanted j (ground (arith, h)))).claims f k
          (ap (λ j. mem j (claims_of f next)) is_k ∙ make_claim-made priority table f claim c)
    | inr other ↦ make_claims-made f rest k _ (λ j h. wanted j (ground (arith, h))) (rw other at m)
  ]
