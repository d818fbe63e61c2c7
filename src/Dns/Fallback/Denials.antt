-- ===== src/Dns/Fallback/Denials.antt =====
-- What a decision says that blocks a name, apart from the code's tests.
use network_renderer_contain.Prelude.{
  ℕ, String, Bool, true, false, ◌&&◌, ◌||◌, not, not-eq-true, ◌≡◌, ◌≢◌, ◌↔◌, ◌⊎◌, refl, ap, ◌∙◌,
  none, some, some_inj, List, [], ◌∷◌, ◌++◌, ◌==◌, nat_eq, string_eq, any, Has, arith, Bool-cases,
  Option-cases, inl, inr, eq_iff, nat_beq_iff, &&-eq-true,
}
use network_renderer_contain.Py.Value.{
  Value, bool, str, arr, nil, Fields, get, get_or, as_list, text_of, is_str, truthy,
}
use network_renderer_contain.Py.Text.{concat, dec}
use network_renderer_contain.Dns.{Bytes}
use network_renderer_contain.Dns.Fallback.{
  class_list_has, record_class, canonical_name, same_bytes, ends_with_bytes, is_block, has_class,
  covers, decision_blocks,
}

-- The class of a question's type.
abbrev pub IsClass : ℕ → String → Type 0
IsClass type class =
    ((type ≡ 1) × (class ≡ "A"))
    ⊎ (((type ≡ 28) × (class ≡ "AAAA"))
        ⊎ (((type ≡ 255) × (class ≡ "ANY"))
            ⊎ ((type ≢ 1)
                × (type ≢ 28)
                × (type ≢ 255)
                × (class ≡ concat ("TYPE" ∷ dec type ∷ [])))))

-- A list has this text as a member.
abbrev pub Lists : String → Value → Type 0
Lists expected v = (items : List Value) × (as_list v ≡ some items) × Has (str expected) items

-- A decision that denies a class of a name with the ending of its namespace, without a public fallback.
pub record IsDenial (name : Bytes) (class : String) (d : Fields) : Type 0 where
  pub action : (get "action" d ≡ str "block") ⊎ (get "action" d ≡ str "deny")
  pub no_public : truthy (get_or (bool false) "publicRecursionFallback" d) ≡ false
  pub namespace : String
  pub named : get "namespace" d ≡ str namespace
  pub filled : namespace ≢ ""
  pub front : Bytes
  pub ending : name ≡ front ++ canonical_name namespace
  pub listed :
      Lists class (get_or (arr nil) "allowedRecordClasses" d)
      ⊎ (Lists class (get_or (arr nil) "deniedRecordClasses" d)
          ⊎ Lists "PUBLIC-RECURSION" (get_or (arr nil) "deniedRecordClasses" d))

pub record_class-IsClass : (type : ℕ) → IsClass type (record_class type)
record_class-IsClass type = elim (Bool-cases (type == 1)) [
  | inl a ↦ inl ((nat_beq_iff type 1).0 a, rw a refl)
  | inr not_a ↦ elim (Bool-cases (type == 28)) [
    | inl aaaa ↦ inr (inl ((nat_beq_iff type 28).0 aaaa, rw (not_a, aaaa) refl))
    | inr not_aaaa ↦ elim (Bool-cases (type == 255)) [
      | inl all ↦ inr (inr (inl ((nat_beq_iff type 255).0 all, rw (not_a, not_aaaa, all) refl)))
      | inr not_all ↦ inr (
          inr (
            inr (
              λ e. ground (arith, not_a, nat_beq_iff type 1),
              λ e. ground (arith, not_aaaa, nat_beq_iff type 28),
              λ e. ground (arith, not_all, nat_beq_iff type 255),
              rw (not_a, not_aaaa, not_all) refl,
            )))
    ]
  ]
]

other_type : (type n : ℕ) → type ≢ n → (type == n) ≡ false
other_type type n h = ground (arith, h, nat_beq_iff type n)

pub IsClass-eq : (type : ℕ) (class : String) → IsClass type class → class ≡ record_class type
IsClass-eq type class (inl (e, c)) = c ∙ rw e refl
IsClass-eq type class (inr (inl (e, c))) = c ∙ rw e refl
IsClass-eq type class (inr (inr (inl (e, c)))) = c ∙ rw e refl
IsClass-eq type class (inr (inr (inr (a, b, d, c)))) =
    c ∙ rw (other_type type 1 a, other_type type 28 b, other_type type 255 d) refl

is_str_iff : (t : String) (v : Value) → (is_str t v ≡ true) ↔ (v ≡ str t)
is_str_iff t (str s) = (λ h. ap str ((eq_iff s t).0 h), λ h. (eq_iff s t).1 (cc))
is_str_iff t _ = (λ h. cc, λ h. cc)

any_iff : (e : String) (vs : List Value) → (any (λ v. is_str e v) vs ≡ true) ↔ Has (str e) vs
any_iff e [] = (λ h. cc, λ h. absurd h)
any_iff e (v ∷ vs) = (
  λ h. elim (Bool-cases (is_str e v)) [
    | inl here ↦ inl ((is_str_iff e v).0 here)
    | inr later ↦ inr ((any_iff e vs).0 (rw later at h))
  ],
  λ h. elim h [
    | inl here ↦ rw ((is_str_iff e v).1 here) refl
    | inr later ↦ ground (arith, (any_iff e vs).1 later)
  ],
)

not_true : false ≢ true
not_true e = cc

class_list_iff : (v : Value) (e : String) → (class_list_has v e ≡ true) ↔ Lists e v
unfolding class_list_has
class_list_iff v e = (
  λ h. elim (Option-cases (as_list v)) [
    | inl no_list ↦ absurd (not_true (rw (no_list, class_list_has) at h))
    | inr (items, found) ↦ (items, found, (any_iff e items).0 (rw (found, class_list_has) at h))
  ],
  λ (items, found, here). rw (found, class_list_has) ((any_iff e items).1 here),
)

same_bytes_iff : (xs ys : Bytes) → (same_bytes xs ys ≡ true) ↔ (xs ≡ ys)
same_bytes_iff [] [] = (λ h. refl, λ h. refl)
same_bytes_iff [] (y ∷ ys) = (λ h. cc, λ h. cc)
same_bytes_iff (x ∷ xs) [] = (λ h. cc, λ h. cc)
same_bytes_iff (x ∷ xs) (y ∷ ys) = (
  λ h.
      let (first, rest) = &&-eq-true (x == y) (same_bytes xs ys) h in
      ap (λ z. z ∷ xs) ((nat_beq_iff x y).0 first)
      ∙ ap (λ zs. y ∷ zs) ((same_bytes_iff xs ys).0 rest),
  λ e.
      let first : x ≡ y = cc in
      let rest : xs ≡ ys = cc in rw ((nat_beq_iff x y).1 first, (same_bytes_iff xs ys).1 rest) refl,
)

ends_with_itself : (suffix : Bytes) → ends_with_bytes suffix suffix ≡ true
unfolding ends_with_bytes
ends_with_itself [] = refl
ends_with_itself (c ∷ cs) = rw ((same_bytes_iff (c ∷ cs) (c ∷ cs)).1 refl) refl

ends_with-append : (front suffix : Bytes) → ends_with_bytes (front ++ suffix) suffix ≡ true
unfolding ends_with_bytes
ends_with-append [] suffix = ends_with_itself suffix
ends_with-append (c ∷ front) suffix = ground (arith, ends_with-append front suffix)

ends_with_iff :
    (name suffix : Bytes)
    → (ends_with_bytes name suffix ≡ true) ↔ ((front : Bytes) × (name ≡ front ++ suffix))
unfolding ends_with_bytes
ends_with_iff [] suffix = (
  λ h. ([], (same_bytes_iff [] suffix).0 h),
  λ (front, e). ap (λ n. ends_with_bytes n suffix) e ∙ ends_with-append front suffix,
)
ends_with_iff (c ∷ cs) suffix = (
  λ h. elim (Bool-cases (same_bytes (c ∷ cs) suffix)) [
    | inl whole ↦ ([], (same_bytes_iff (c ∷ cs) suffix).0 whole)
    | inr part ↦
        let (front, e) = (ends_with_iff cs suffix).0 (rw part at h) in
        (c ∷ front, ap (λ bs. c ∷ bs) e)
  ],
  λ (front, e). ap (λ n. ends_with_bytes n suffix) e ∙ ends_with-append front suffix,
)

or_cases : (a b : Bool) → (a || b) ≡ true → (a ≡ true) ⊎ (b ≡ true)
or_cases a b h = ground arith

either : (a b : Bool) → (a ≡ true) ⊎ (b ≡ true) → (a || b) ≡ true
either a b h = ground arith

any_of_three : (a b c : Bool) → (a ≡ true) ⊎ ((b ≡ true) ⊎ (c ≡ true)) → (a || b || c) ≡ true
any_of_three a b c h = ground arith

all_four :
    (a b c d : Bool) → a ≡ true → b ≡ false → c ≡ true → d ≡ true → (a && not b && c && d) ≡ true
all_four a b c d ha hb hc hd = ground arith

no_text : (s : String) → none ≢ some s
no_text s e = cc

text_of_iff : (v : Value) (s : String) → (text_of v ≡ some s) ↔ ((v ≡ str s) × (s ≢ ""))
text_of_iff (str t) s = (
  λ h. elim (Bool-cases (t == "")) [
    | inl empty ↦ absurd (no_text s (rw empty at h))
    | inr filled ↦
        let same = some_inj _ _ (rw filled at h) in
        (ap str same, λ e. ground (arith, filled, eq_iff t "", (eq_iff t "").1 (same ∙ e)))
  ],
  λ (e, filled). let same : t ≡ s = cc in rw same (ground (arith, filled, eq_iff s "")),
)
text_of_iff _ s = (λ h. cc, λ (e, _). cc)

has_class_iff :
    (class : String) (d : Fields)
    → (has_class class d ≡ true) ↔ (
        Lists class (get_or (arr nil) "allowedRecordClasses" d)
        ⊎ (Lists class (get_or (arr nil) "deniedRecordClasses" d)
            ⊎ Lists "PUBLIC-RECURSION" (get_or (arr nil) "deniedRecordClasses" d)))
has_class_iff class d =
    let allowed = get_or (arr nil) "allowedRecordClasses" d in
    let denied = get_or (arr nil) "deniedRecordClasses" d in
    let a = class_list_has allowed class in
    let b = class_list_has denied class in
    let c = class_list_has denied "PUBLIC-RECURSION" in
    (
      λ h. elim (or_cases (a || b) c h) [
        | inr third ↦ inr (inr ((class_list_iff denied "PUBLIC-RECURSION").0 third))
        | inl two ↦ elim (or_cases a b two) [
          | inl first ↦ inl ((class_list_iff allowed class).0 first)
          | inr second ↦ inr (inl ((class_list_iff denied class).0 second))
        ]
      ],
      λ l. elim l [
        | inl first ↦ any_of_three a b c (inl ((class_list_iff allowed class).1 first))
        | inr later ↦ elim later [
          | inl second ↦ any_of_three a b c (inr (inl ((class_list_iff denied class).1 second)))
          | inr third ↦
              any_of_three a b c (inr (inr ((class_list_iff denied "PUBLIC-RECURSION").1 third)))
        ]
      ],
    )

block_iff : (v : Value) → (is_block v ≡ true) ↔ ((v ≡ str "block") ⊎ (v ≡ str "deny"))
block_iff v = (
  λ h. elim (or_cases (is_str "block" v) (is_str "deny" v) h) [
    | inl block ↦ inl ((is_str_iff "block" v).0 block)
    | inr deny ↦ inr ((is_str_iff "deny" v).0 deny)
  ],
  λ a. elim a [
    | inl block ↦ either (is_str "block" v) (is_str "deny" v) (inl ((is_str_iff "block" v).1 block))
    | inr deny ↦ either (is_str "block" v) (is_str "deny" v) (inr ((is_str_iff "deny" v).1 deny))
  ],
)

-- A decision blocks exactly when it is such a denial.
pub decision_blocks_iff :
    (name : Bytes) (class : String) (d : Fields)
    → (decision_blocks name class d ≡ true) ↔ IsDenial name class d
unfolding decision_blocks
decision_blocks_iff name class d =
    let action = is_block (get "action" d) in
    let public = truthy (get_or (bool false) "publicRecursionFallback" d) in
    let namespace = text_of (get "namespace" d) in
    let class_there = has_class class d in
    (
      λ h.
          let (three, listed) =
            &&-eq-true (action && not public && covers name namespace) class_there h in
          let (two, covered) = &&-eq-true (action && not public) (covers name namespace) three in
          let (blocks, not_public) = &&-eq-true action (not public) two in
          elim (Option-cases namespace) [
            | inl missing ↦ absurd (not_true (rw missing at covered))
            | inr (s, found) ↦
                let (named, filled) = (text_of_iff (get "namespace" d) s).0 found in
                let (front, ending) =
                  (ends_with_iff name (canonical_name s)).0 (rw found at covered) in
                record {
                  action = (block_iff (get "action" d)).0 blocks;
                  no_public = not-eq-true public not_public;
                  namespace = s;
                  named = named;
                  filled = filled;
                  front = front;
                  ending = ending;
                  listed = (has_class_iff class d).0 listed;
                }
          ],
      λ r.
          let found = (text_of_iff (get "namespace" d) r.namespace).1 (r.named, r.filled) in
          let ends = (ends_with_iff name (canonical_name r.namespace)).1 (r.front, r.ending) in
          all_four action public (covers name namespace) class_there
            ((block_iff (get "action" d)).1 r.action) r.no_public (ap (covers name) found ∙ ends)
            ((has_class_iff class d).1 r.listed),
    )
