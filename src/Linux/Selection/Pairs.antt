-- ===== src/Linux/Selection/Pairs.antt =====
-- The selectors of a relation stand in pairs: with a rule goes the rule of the way back.
use mathlib.Core.Path.{subst}
use network_renderer_contain.Prelude.{
  String, ◌≡◌, ◌⊎◌, inl, inr, refl, sym, ◌∙◌, Bool, true, ◌&&◌, List, [], ◌∷◌, ◌==◌, nat_eq,
  string_eq, keep, length, Has, arith, Bool-cases, &&-eq-true, eq_iff,
}
use network_renderer_contain.Py.Result.{ok, >>=-eq-ok}
use network_renderer_contain.Py.Ip.{Family}
use network_renderer_contain.Linux.Selection.{Direction, forward, returned, Selector}
use network_renderer_contain.Linux.Selection.Render.{
  Group, is_key, group_all, first_with, is_mated, check_group, check_groups,
  validate_direction_pairs,
}
use network_renderer_contain.Linux.Selection.Groups.{
  of_key, members_of, is_key_refl, is_key-eq, members_of-group_all,
}

-- What the check of a group has found: a forward and a return selector, in either order.
record IsPair (ss : List Selector) : Type 0 where
  to : Selector
  back : Selector
  order : (ss ≡ to ∷ (back ∷ [])) ⊎ (ss ≡ back ∷ (to ∷ []))
  to_forward : to.direction ≡ forward
  back_returned : back.direction ≡ returned
  mated : is_mated to back ≡ true

IsPair-of :
    (a b : Selector) (d e : Direction)
    → a.direction ≡ d
    → b.direction ≡ e
    → check_group (a ∷ (b ∷ [])) ≡ ok tt
    → IsPair (a ∷ (b ∷ []))
unfolding check_group first_with
IsPair-of a b forward forward da db h = absurd (ground arith)
IsPair-of a b forward returned da db h = record {
  to = a;
  back = b;
  order = inl refl;
  to_forward = da;
  back_returned = db;
  mated = ground arith;
}
IsPair-of a b returned forward da db h = record {
  to = b;
  back = a;
  order = inr refl;
  to_forward = db;
  back_returned = da;
  mated = ground arith;
}
IsPair-of a b returned returned da db h = absurd (ground arith)

check_group-IsPair : (ss : List Selector) → check_group ss ≡ ok tt → IsPair ss
unfolding check_group
check_group-IsPair [] h = cc
check_group-IsPair (a ∷ []) h = absurd (ground arith)
check_group-IsPair (a ∷ (b ∷ [])) h = IsPair-of a b a.direction b.direction refl refl h
check_group-IsPair (a ∷ (b ∷ (c ∷ cs))) h = absurd (ground arith)

abbrev pub opposite : Direction → Direction
opposite forward = returned
opposite returned = forward

-- The selector of the way back: the same relation, family and owner, the path turned around.
pub record IsMate (s t : Selector) : Type 0 where
  pub relation_id : t.relation_id ≡ s.relation_id
  pub family : t.family ≡ s.family
  pub direction : t.direction ≡ opposite s.direction
  pub source : t.source ≡ s.destination
  pub destination : t.destination ≡ s.source
  pub policy_state_owner : t.policy_state_owner ≡ s.policy_state_owner

check_groups-member :
    (r : String) (f : Family) (gs : List Group)
    → check_groups gs ≡ ok tt
    → (members_of r f gs ≡ []) ⊎ (check_group (members_of r f gs) ≡ ok tt)
unfolding check_groups
check_groups-member r f [] h = inl refl
check_groups-member r f (g ∷ gs) h =
    let (u, eg, h₁) = >>=-eq-ok (check_group g.members) _ h in
    elim (Bool-cases (is_key r f g.relation_id g.family)) [
      | inl hit ↦ inr (rw hit eg)
      | inr miss ↦ rw miss (check_groups-member r f gs h₁)
    ]

Has-keep :
    (p : Selector → Bool) (s : Selector) (ss : List Selector)
    → p s ≡ true
    → Has s ss
    → Has s (keep p ss)
Has-keep p s [] h here = absurd here
Has-keep p s (x ∷ xs) h (inl e) = rw (e, h) (inl refl)
Has-keep p s (x ∷ xs) h (inr later) = elim (Bool-cases (p x)) [
  | inl hit ↦ rw hit (inr (Has-keep p s xs h later))
  | inr miss ↦ rw miss (Has-keep p s xs h later)
]

keep-Has :
    (p : Selector → Bool) (s : Selector) (ss : List Selector)
    → Has s (keep p ss)
    → Has s ss × (p s ≡ true)
keep-Has p s [] h = absurd h
keep-Has p s (x ∷ xs) h = elim (Bool-cases (p x)) [
  | inl hit ↦ elim (rw hit at h) [
    | inl e ↦ (inl e, rw (← e) hit)
    | inr later ↦ let (there, holds) = keep-Has p s xs later in (inr there, holds)
  ]
  | inr miss ↦ let (there, holds) = keep-Has p s xs (rw miss at h) in (inr there, holds)
]

mates :
    (to back : Selector)
    → is_mated to back ≡ true
    → (to.source ≡ back.destination)
      × (to.destination ≡ back.source)
      × (to.policy_state_owner ≡ back.policy_state_owner)
unfolding is_mated
mates to back h =
    let (ab, c) = &&-eq-true (to.source == back.destination && to.destination == back.source) _ h in
    let (a, b) = &&-eq-true (to.source == back.destination) _ ab in
    ((eq_iff _ _).0 a, (eq_iff _ _).0 b, (eq_iff _ _).0 c)

-- The two selectors of a pair have one key.
same_key :
    (s t : Selector)
    → of_key s.relation_id s.family t ≡ true
    → (t.relation_id ≡ s.relation_id) × (t.family ≡ s.family)
same_key s t h =
    let (er, ef) = is_key-eq s.relation_id t.relation_id s.family t.family h in (sym er, sym ef)

forward-IsMate :
    (to back : Selector)
    → to.direction ≡ forward
    → back.direction ≡ returned
    → is_mated to back ≡ true
    → (of_key to.relation_id to.family back ≡ true → IsMate to back)
      × (of_key back.relation_id back.family to ≡ true → IsMate back to)
forward-IsMate to back df dr m =
    let (es, ed, eo) = mates to back m in
    (
      λ k.
          let (er, ef) = same_key to back k in
          record {
            relation_id = er;
            family = ef;
            direction = rw (df, dr) refl;
            source = sym ed;
            destination = sym es;
            policy_state_owner = sym eo;
          },
      λ k.
          let (er, ef) = same_key back to k in
          record {
            relation_id = er;
            family = ef;
            direction = rw (df, dr) refl;
            source = es;
            destination = ed;
            policy_state_owner = eo;
          },
    )

MateIn : List Selector → Selector → Type 0
MateIn ss s = (t : Selector) × Has t ss × IsMate s t

of_two :
    (x y s : Selector)
    → Has s (x ∷ (y ∷ []))
    → ((t : Selector) → Has t (x ∷ (y ∷ [])) → of_key s.relation_id s.family t ≡ true)
    → (of_key x.relation_id x.family y ≡ true → IsMate x y)
    → (of_key y.relation_id y.family x ≡ true → IsMate y x)
    → MateIn (x ∷ (y ∷ [])) s
unfolding MateIn
of_two x y s (inl e) key m n =
    let same = subst (λ u. of_key u.relation_id u.family y ≡ true → IsMate u y) e m in
    (y, inr (inl refl), same (key y (inr (inl refl))))
of_two x y s (inr (inl e)) key m n =
    let same = subst (λ u. of_key u.relation_id u.family x ≡ true → IsMate u x) e n in
    (x, inl refl, same (key x (inl refl)))
of_two x y s (inr (inr here)) key m n = absurd here

-- A member of a pair has its mate in the pair.
in_pair :
    (ss : List Selector) (s : Selector)
    → IsPair ss
    → Has s ss
    → ((t : Selector) → Has t ss → of_key s.relation_id s.family t ≡ true)
    → MateIn ss s
in_pair ss s pair here key =
    let (m, n) = forward-IsMate pair.to pair.back pair.to_forward pair.back_returned pair.mated in
    elim pair.order [
      | inl e ↦ rw e (of_two pair.to pair.back s (subst (Has s) e here) (λ t h. key t (rw e h)) m n)
      | inr e ↦ rw e (of_two pair.back pair.to s (subst (Has s) e here) (λ t h. key t (rw e h)) n m)
    ]

pair-length : (ss : List Selector) → IsPair ss → length ss ≡ 2
pair-length ss pair = elim pair.order [ inl e ↦ rw e refl | inr e ↦ rw e refl ]

-- Where the pairs of selectors are valid, each selector has its mate among them, and there are
-- exactly two selectors of its relation and family.
pub validate_direction_pairs-mates :
    (ss : List Selector) (s : Selector)
    → validate_direction_pairs ss ≡ ok tt
    → Has s ss
    → ((t : Selector) × Has t ss × IsMate s t)
      × (length (keep (of_key s.relation_id s.family) ss) ≡ 2)
unfolding validate_direction_pairs MateIn
validate_direction_pairs-mates ss s h here =
    let p = of_key s.relation_id s.family in
    let group = members_of-group_all s.relation_id s.family ss [] in
    let mine = Has-keep p s ss (is_key_refl s.relation_id s.family) here in
    elim (check_groups-member s.relation_id s.family (group_all ss []) h) [
      | inl none_there ↦ absurd (subst (Has s) (sym group ∙ none_there) mine)
      | inr checked ↦
          let pair = check_group-IsPair (keep p ss) (rw group at checked) in
          let (t, there, mate) = in_pair (keep p ss) s pair mine (λ u k. (keep-Has p u ss k).1) in
          ((t, (keep-Has p t ss there).0, mate), pair-length (keep p ss) pair)
    ]
