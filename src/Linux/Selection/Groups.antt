-- ===== src/Linux/Selection/Groups.antt =====
-- The groups that the selectors are sorted into by relation and family.
use mathlib.Core.List.{append_assoc, append-nil}
use network_renderer_contain.Prelude.{
  String, ◌≡◌, inl, inr, refl, ap, sym, ◌∙◌, Bool, true, false, List, [], ◌∷◌, ◌++◌, ◌==◌, nat_eq,
  string_eq, if◌then◌else◌, keep, arith, Bool-cases, &&-eq-true, eq_iff, eq_refl,
}
use network_renderer_contain.Py.Ip.{Family, v4, v6, same_family}
use network_renderer_contain.Linux.Selection.{Selector}
use network_renderer_contain.Linux.Selection.Render.{Group, is_key, add_selector, group_all}

same_family_refl : (f : Family) → same_family f f ≡ true
same_family_refl v4 = refl
same_family_refl v6 = refl

same_family-eq : (f g : Family) → same_family f g ≡ true → f ≡ g
same_family-eq v4 v4 h = refl
same_family-eq v6 v6 h = refl
same_family-eq v4 v6 h = cc
same_family-eq v6 v4 h = cc

pub is_key_refl : (r : String) (f : Family) → is_key r f r f ≡ true
is_key_refl r f = rw (eq_refl r, same_family_refl f) refl

pub is_key-eq : (r r' : String) (f f' : Family) → is_key r f r' f' ≡ true → (r ≡ r') × (f ≡ f')
is_key-eq r r' f f' h =
    let (a, b) = &&-eq-true (r == r') (same_family f f') h in
    ((eq_iff r r').0 a, same_family-eq f f' b)

-- A key that another key differs from is not the key that the other one is.
other_key :
    (r : String) (f : Family) (r₁ : String) (f₁ : Family) (r₂ : String) (f₂ : Family)
    → is_key r f r₁ f₁ ≡ true
    → is_key r₁ f₁ r₂ f₂ ≡ false
    → is_key r f r₂ f₂ ≡ false
other_key r f r₁ f₁ r₂ f₂ h k = let (er, ef) = is_key-eq r r₁ f f₁ h in rw (er, ef) k

abbrev pub of_key : String → Family → Selector → Bool
of_key r f s = is_key r f s.relation_id s.family

-- The members of the group of a key.
abbrev pub members_of : String → Family → List Group → List Selector
members_of r f [] = []
members_of r f (g ∷ gs) =
    let rest = members_of r f gs in if is_key r f g.relation_id g.family then g.members else rest

members_of-add_selector :
    (r : String) (f : Family) (s : Selector) (gs : List Group)
    → members_of r f (add_selector s gs) ≡ members_of r f gs ++ keep (of_key r f) (s ∷ [])
unfolding add_selector
members_of-add_selector r f s [] = ground arith
members_of-add_selector r f s (g ∷ gs) =
    elim (Bool-cases (is_key g.relation_id g.family s.relation_id s.family)) [
      | inl here ↦
          let (er, ef) = is_key-eq g.relation_id s.relation_id g.family s.family here in
          rw (here, er, ef)
            (elim (Bool-cases (is_key r f s.relation_id s.family)) [
              | inl hit ↦ rw (hit) refl
              | inr miss ↦ rw (miss) (sym (append-nil _))
            ])
      | inr later ↦ rw (later) (elim (Bool-cases (is_key r f g.relation_id g.family)) [
        | inl hit ↦
            rw (hit, other_key r f g.relation_id g.family s.relation_id s.family hit later)
              (sym (append-nil _))
        | inr miss ↦ rw (miss) (members_of-add_selector r f s gs)
      ])
    ]

keep_one :
    (p : Selector → Bool) (s : Selector) (ss : List Selector)
    → keep p (s ∷ []) ++ keep p ss ≡ keep p (s ∷ ss)
keep_one p s ss = elim (Bool-cases (p s)) [ inl hit ↦ rw hit refl | inr miss ↦ rw miss refl ]

pub members_of-group_all :
    (r : String) (f : Family) (ss : List Selector) (gs : List Group)
    → members_of r f (group_all ss gs) ≡ members_of r f gs ++ keep (of_key r f) ss
unfolding group_all
members_of-group_all r f [] gs = sym (append-nil _)
members_of-group_all r f (s ∷ ss) gs =
    members_of-group_all r f ss (add_selector s gs)
    ∙ ap (λ ms. ms ++ keep (of_key r f) ss) (members_of-add_selector r f s gs)
    ∙ append_assoc (members_of r f gs) (keep (of_key r f) (s ∷ [])) (keep (of_key r f) ss)
    ∙ ap (λ ms. members_of r f gs ++ ms) (keep_one (of_key r f) s ss)
