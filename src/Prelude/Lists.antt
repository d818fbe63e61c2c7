-- ===== src/Prelude/Lists.antt =====
-- Lists over the native numbers, membership tests and predicates by recursion.
use Prim.Native.Nat.{ℕ, zero, suc, ◌+◌, ◌-◌, ◌≤◌}
use mathlib.Core.Path.{◌≡◌, refl, sym, ap, subst}
use mathlib.Core.Logic.{◌⊎◌, inl, inr}
use mathlib.Core.Bool.{Bool, true, false, not, ◌&&◌, ◌||◌}
use mathlib.Core.List.{List, [], ◌∷◌, ◌++◌}
use native.Mathlib.Omega.{arith}
use network_renderer_contain.Prelude.Tests.{if◌then◌else◌, Eq, ◌==◌, Bool-cases}

module _ {ℓ} {A : Type ℓ} where
  abbrev pub length : List A → ℕ
  length [] = 0
  length (x ∷ xs) = suc (length xs)

  pub length-append : (xs ys : List A) → length (xs ++ ys) ≡ length xs + length ys
  length-append [] ys = omega arith
  length-append (x ∷ xs) ys = omega (arith, length-append xs ys)

  -- `[x for x in xs if p(x)]`
  abbrev pub keep : (A → Bool) → List A → List A
  keep p [] = []
  keep p (x ∷ xs) = let rest = keep p xs in if p x then x ∷ rest else rest

  abbrev pub all : (A → Bool) → List A → Bool
  all p [] = true
  all p (x ∷ xs) = p x && all p xs

  abbrev pub any : (A → Bool) → List A → Bool
  any p [] = false
  any p (x ∷ xs) = p x || any p xs

  abbrev pub is_nil : List A → Bool
  is_nil [] = true
  is_nil (x ∷ xs) = false

  abbrev pub All {κ} : (A → Type κ) → List A → Type κ
  All P [] = Unit
  All P (x ∷ xs) = P x × All P xs

  pub All-append {κ} : (P : A → Type κ) (xs ys : List A) → All P xs → All P ys → All P (xs ++ ys)
  All-append P [] ys h k = k
  All-append P (x ∷ xs) ys (h, hs) k = (h, All-append P xs ys hs k)

  pub All-map_imp {κ μ} :
      (P : A → Type κ) (Q : A → Type μ) (f : (x : A) → P x → Q x) (xs : List A)
      → All P xs
      → All Q xs
  All-map_imp P Q f [] h = tt
  All-map_imp P Q f (x ∷ xs) (h, hs) = (f x h, All-map_imp P Q f xs hs)

module _ {ℓ} {A : Type ℓ} ⦃e : Eq A⦄ where
  -- `a in xs`
  abbrev pub mem : A → List A → Bool
  mem a [] = false
  mem a (x ∷ xs) = a == x || mem a xs

  abbrev pub all_distinct : List A → Bool
  all_distinct [] = true
  all_distinct (x ∷ xs) = not (mem x xs) && all_distinct xs

  -- `seen` and the loop `if x not in seen: seen.add(x); out.append(x)`, the set kept as the output.
  abbrev pub push_new : List A → A → List A
  push_new out x = if mem x out then out else out ++ x ∷ []

  abbrev pub push_all_new : List A → List A → List A
  push_all_new out [] = out
  push_all_new out (x ∷ xs) = push_all_new (push_new out x) xs

  pub mem-append : (a : A) (xs ys : List A) → mem a (xs ++ ys) ≡ (mem a xs || mem a ys)
  mem-append a [] ys = refl
  mem-append a (x ∷ xs) ys = ground (arith, mem-append a xs ys)

-- The place of an element, with its equation.
abbrev pub Has : {A : Type 0} → A → List A → Type 0
Has a [] = ⊥
Has a (x ∷ xs) = (x ≡ a) ⊎ Has a xs

module _ {ℓ} {A : Type ℓ} ⦃e : Eq A⦄ where
  pub push_new-keeps : (out : List A) (x a : A) → mem a out ≡ true → mem a (push_new out x) ≡ true
  push_new-keeps out x a h = ground (arith, mem-append a out (x ∷ []))

  pub push_new-has : (out : List A) (x : A) → mem x (push_new out x) ≡ true
  push_new-has out x = elim (Bool-cases (mem x out)) [
    | inl old ↦ rw old old
    | inr new ↦ rw new (ground (arith, mem-append x out (x ∷ []), (e.eqb_iff x x).1 refl, new))
  ]

  pub all_distinct-append_one :
      (xs : List A) (x : A)
      → all_distinct xs ≡ true
      → mem x xs ≡ false
      → all_distinct (xs ++ x ∷ []) ≡ true
  all_distinct-append_one [] x d n = refl
  all_distinct-append_one (y ∷ ys) x d n =
      ground (
        arith,
        all_distinct-append_one ys x,
        mem-append y ys (x ∷ []),
        e.eqb_iff y x,
        e.eqb_iff x y,
      )

  -- A list that grows by new elements only has none twice.
  pub push_new-distinct :
      (out : List A) (x : A) → all_distinct out ≡ true → all_distinct (push_new out x) ≡ true
  push_new-distinct out x d = elim (Bool-cases (mem x out)) [
    | inl old ↦ rw old d
    | inr new ↦ rw new (all_distinct-append_one out x d new)
  ]

  pub push_new-All {κ} :
      (P : A → Type κ) (out : List A) (x : A) → All P out → P x → All P (push_new out x)
  push_new-All P out x h p = elim (Bool-cases (mem x out)) [
    | inl old ↦ rw old h
    | inr new ↦ rw new (All-append P out (x ∷ []) h (p, tt))
  ]

  held : (a x : A) (out : List A) → mem x out ≡ true → mem a out ≡ (mem a out || a == x)
  held a x out old = elim (Bool-cases (a == x)) [
    | inl same ↦ rw ((e.eqb_iff a x).0 same) (rw old refl)
    | inr other ↦ ground arith
  ]

  pub mem-push_new : (a : A) (out : List A) (x : A) → mem a (push_new out x) ≡ (mem a out || a == x)
  mem-push_new a out x = elim (Bool-cases (mem x out)) [
    | inl old ↦ rw old (held a x out old)
    | inr new ↦ rw new (ground (arith, mem-append a out (x ∷ [])))
  ]

  -- The loop keeps the elements of both lists, and gives none twice.
  pub mem-push_all_new :
      (a : A) (out xs : List A) → mem a (push_all_new out xs) ≡ (mem a out || mem a xs)
  mem-push_all_new a out [] = ground arith
  mem-push_all_new a out (x ∷ xs) =
      ground (arith, mem-push_all_new a (push_new out x) xs, mem-push_new a out x)

  pub push_all_new-distinct :
      (out xs : List A) → all_distinct out ≡ true → all_distinct (push_all_new out xs) ≡ true
  push_all_new-distinct out [] d = d
  push_all_new-distinct out (x ∷ xs) d =
      push_all_new-distinct (push_new out x) xs (push_new-distinct out x d)

  -- A property of all members holds of the list, and the other way around.
  pub All-of : (P : A → Type 0) (xs : List A) → ((x : A) → mem x xs ≡ true → P x) → All P xs
  All-of P [] f = tt
  All-of P (x ∷ xs) f =
      (f x (rw ((e.eqb_iff x x).1 refl) refl), All-of P xs (λ y m. f y (ground (arith, m))))

  pub All-mem : (P : A → Type 0) (a : A) (xs : List A) → All P xs → mem a xs ≡ true → P a
  All-mem P a [] h m = cc
  All-mem P a (x ∷ xs) (h, hs) m = elim (Bool-cases (a == x)) [
    | inl same ↦ subst P (sym ((e.eqb_iff a x).0 same)) h
    | inr other ↦ All-mem P a xs hs (rw other at m)
  ]

module _ {ℓ} {A : Type ℓ} where
  abbrev pub take : ℕ → List A → List A
  take zero xs = []
  take (suc n) [] = []
  take (suc n) (x ∷ xs) = x ∷ take n xs

  abbrev pub drop : ℕ → List A → List A
  drop zero xs = xs
  drop (suc n) [] = []
  drop (suc n) (x ∷ xs) = drop n xs

  pub take-append : (xs ys : List A) → take (length xs) (xs ++ ys) ≡ xs
  take-append [] ys = refl
  take-append (x ∷ xs) ys = ap (λ zs. x ∷ zs) (take-append xs ys)

  pub drop-append : (xs ys : List A) → drop (length xs) (xs ++ ys) ≡ ys
  drop-append [] ys = refl
  drop-append (x ∷ xs) ys = drop-append xs ys

  pub length-take : (n : ℕ) (xs : List A) → n ≤ length xs → length (take n xs) ≡ n
  length-take zero xs h = refl
  length-take (suc n) [] h = absurd (omega (arith, h))
  length-take (suc n) (x ∷ xs) h = ap suc (length-take n xs (omega (arith, h)))

  pub length-drop : (n : ℕ) (xs : List A) → length (drop n xs) ≡ length xs - n
  length-drop zero xs = omega arith
  length-drop (suc n) [] = omega arith
  length-drop (suc n) (x ∷ xs) = omega (arith, length-drop n xs)

module _ {ℓ} {A : Type ℓ} ⦃e : Eq A⦄ where
  -- In a list with no element twice, an element is not among those before it.
  pub distinct-append_fresh :
      (xs ys : List A) (x : A) → all_distinct (xs ++ x ∷ ys) ≡ true → mem x xs ≡ false
  distinct-append_fresh [] ys x d = refl
  distinct-append_fresh (z ∷ zs) ys x d =
      ground (
        arith,
        distinct-append_fresh zs ys x,
        mem-append z zs (x ∷ ys),
        e.eqb_iff z x,
        e.eqb_iff x z,
      )

pub Has-append_left : {A : Type 0} (a : A) (xs ys : List A) → Has a xs → Has a (xs ++ ys)
Has-append_left a [] ys h = absurd h
Has-append_left a (x ∷ xs) ys (inl same) = inl same
Has-append_left a (x ∷ xs) ys (inr later) = inr (Has-append_left a xs ys later)

pub Has-append_right : {A : Type 0} (a : A) (xs ys : List A) → Has a ys → Has a (xs ++ ys)
Has-append_right a [] ys h = h
Has-append_right a (x ∷ xs) ys h = inr (Has-append_right a xs ys h)

pub All-Has {κ} : {A : Type 0} (P : A → Type κ) (a : A) (xs : List A) → All P xs → Has a xs → P a
All-Has P a [] all h = absurd h
All-Has P a (x ∷ xs) (p, all) (inl same) = subst P same p
All-Has P a (x ∷ xs) (p, all) (inr later) = All-Has P a xs all later

module _ {ℓ} {A : Type ℓ} ⦃e : Eq A⦄ where
  pub mem-append_left : (a : A) (xs ys : List A) → mem a xs ≡ true → mem a (xs ++ ys) ≡ true
  mem-append_left a xs ys h = ground (arith, mem-append a xs ys, h)

  pub mem-append_right : (a : A) (xs ys : List A) → mem a ys ≡ true → mem a (xs ++ ys) ≡ true
  mem-append_right a xs ys h = ground (arith, mem-append a xs ys, h)

  pub mem-head : (a : A) (xs : List A) → mem a (a ∷ xs) ≡ true
  mem-head a xs = rw ((e.eqb_iff a a).1 refl) refl
