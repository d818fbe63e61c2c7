-- ===== src/Py/Sort.antt =====
-- `sorted` over texts: by code points, with what occurs twice kept.
use Prim.Native.Nat.{Ordering}
use Prim.Native.String.{compare}
use network_renderer_contain.Prelude.{
  String, Bool, true, false, ◌||◌, List, [], ◌∷◌, if◌then◌else◌, mem, string_eq, ◌≡◌, refl, arith,
  ◌==◌, map, All, All-map_imp, Has, ◌⊎◌, inl, inr, Bool-cases, sym,
}

-- s <= t
abbrev pub text_le : String → String → Bool
text_le s t = elim (compare s t) [ Ordering.gt ↦ false | _ ↦ true ]

unfoldable pub insert : String → List String → List String
insert s [] = s ∷ []
insert s (t ∷ ts) = let rest = insert s ts in if text_le s t then s ∷ (t ∷ ts) else t ∷ rest

unfoldable pub sorted : List String → List String
unfolding insert
sorted [] = []
sorted (s ∷ ss) = insert s (sorted ss)

mem-insert : (a s : String) (ts : List String) → mem a (insert s ts) ≡ (a == s || mem a ts)
unfolding insert
mem-insert a s [] = refl
mem-insert a s (t ∷ ts) = ground (arith, mem-insert a s ts)

-- Sorting keeps the elements.
pub mem-sorted : (a : String) (ss : List String) → mem a (sorted ss) ≡ mem a ss
unfolding sorted
mem-sorted a [] = refl
mem-sorted a (s ∷ ss) = ground (arith, mem-insert a s (sorted ss), mem-sorted a ss)

-- `sorted` by a key: `le a b` where a may stand before b. What is equal keeps its order.
module _ {ℓ} {A : Type ℓ} (le : A → A → Bool) where
  unfoldable pub insert_by : A → List A → List A
  insert_by a [] = a ∷ []
  insert_by a (b ∷ bs) = let rest = insert_by a bs in if le a b then a ∷ (b ∷ bs) else b ∷ rest

  unfoldable pub sort_by : List A → List A
  unfolding insert_by
  sort_by [] = []
  sort_by (a ∷ rest) = insert_by a (sort_by rest)

  mem-insert_by :
      (text : A → String) (s : String) (a : A) (bs : List A)
      → mem s (map text (insert_by a bs)) ≡ (s == text a || mem s (map text bs))
  unfolding insert_by
  mem-insert_by text s a [] = refl
  mem-insert_by text s a (b ∷ bs) = ground (arith, mem-insert_by text s a bs)

  pub mem-sort_by :
      (text : A → String) (s : String) (rest : List A)
      → mem s (map text (sort_by rest)) ≡ mem s (map text rest)
  unfolding sort_by
  mem-sort_by text s [] = refl
  mem-sort_by text s (a ∷ rest) =
      ground (arith, mem-insert_by text s a (sort_by rest), mem-sort_by text s rest)

module _ {A : Type 0} (le : A → A → Bool) where
  -- Each element may stand before all behind it.
  abbrev pub IsSorted : List A → Type 0
  IsSorted [] = Unit
  IsSorted (a ∷ rest) = All (λ b. le a b ≡ true) rest × IsSorted rest

  insert_by-All :
      (P : A → Type 0) (a : A) (bs : List A) → P a → All P bs → All P (insert_by le a bs)
  unfolding insert_by
  insert_by-All P a [] p h = (p, tt)
  insert_by-All P a (b ∷ bs) p (q, h) = elim (Bool-cases (le a b)) [
    | inl first ↦ rw first (p, (q, h))
    | inr later ↦ rw later (q, insert_by-All P a bs p h)
  ]

  insert_by-Has : (x a : A) (bs : List A) → (x ≡ a) ⊎ Has x bs → Has x (insert_by le a bs)
  unfolding insert_by
  insert_by-Has x a [] (inl same) = inl (sym same)
  insert_by-Has x a [] (inr there) = absurd there
  insert_by-Has x a (b ∷ bs) h = elim (Bool-cases (le a b)) [
    | inl first ↦ rw first (elim h [ inl same ↦ inl (sym same) | inr there ↦ inr there ])
    | inr later ↦ rw later (elim h [
      | inl same ↦ inr (insert_by-Has x a bs (inl same))
      | inr there ↦ elim there [
        | inl here ↦ inl here
        | inr far ↦ inr (insert_by-Has x a bs (inr far))
      ]
    ])
  ]

  -- Sorting keeps what the list has.
  pub sort_by-Has : (x : A) (rest : List A) → Has x rest → Has x (sort_by le rest)
  unfolding sort_by
  sort_by-Has x [] h = absurd h
  sort_by-Has x (a ∷ rest) (inl same) = insert_by-Has x a (sort_by le rest) (inl (sym same))
  sort_by-Has x (a ∷ rest) (inr later) =
      insert_by-Has x a (sort_by le rest) (inr (sort_by-Has x rest later))

  insert_by-from : (x a : A) (bs : List A) → Has x (insert_by le a bs) → (x ≡ a) ⊎ Has x bs
  unfolding insert_by
  insert_by-from x a [] (inl same) = inl (sym same)
  insert_by-from x a [] (inr there) = absurd there
  insert_by-from x a (b ∷ bs) h = elim (Bool-cases (le a b)) [
    | inl first ↦ elim (rw first at h) [ inl same ↦ inl (sym same) | inr there ↦ inr there ]
    | inr later ↦ elim (rw later at h) [
      | inl here ↦ inr (inl here)
      | inr far ↦ elim (insert_by-from x a bs far) [
        | inl same ↦ inl same
        | inr there ↦ inr (inr there)
      ]
    ]
  ]

  pub sort_by-from : (x : A) (rest : List A) → Has x (sort_by le rest) → Has x rest
  unfolding sort_by
  sort_by-from x [] h = h
  sort_by-from x (a ∷ rest) h = elim (insert_by-from x a (sort_by le rest) h) [
    | inl same ↦ inl (sym same)
    | inr there ↦ inr (sort_by-from x rest there)
  ]

  module _ (total : (a b : A) → le a b ≡ false → le b a ≡ true)
      (trans : (a b c : A) → le a b ≡ true → le b c ≡ true → le a c ≡ true) where
    insert_by-IsSorted : (a : A) (bs : List A) → IsSorted bs → IsSorted (insert_by le a bs)
    unfolding insert_by
    insert_by-IsSorted a [] h = (tt, tt)
    insert_by-IsSorted a (b ∷ bs) (below, h) = elim (Bool-cases (le a b)) [
      | inl first ↦ rw first (
        (
          first,
          All-map_imp (λ y. le b y ≡ true) (λ y. le a y ≡ true) (λ y. trans a b y first) bs below,
        ),
        (below, h),
      )
      | inr later ↦ rw later (
        insert_by-All (λ y. le b y ≡ true) a bs (total a b later) below,
        insert_by-IsSorted a bs h,
      )
    ]

    pub sort_by-IsSorted : (rest : List A) → IsSorted (sort_by le rest)
    unfolding sort_by
    sort_by-IsSorted [] = tt
    sort_by-IsSorted (a ∷ rest) = insert_by-IsSorted a (sort_by le rest) (sort_by-IsSorted rest)
