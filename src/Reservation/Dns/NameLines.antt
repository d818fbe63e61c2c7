-- ===== src/Reservation/Dns/NameLines.antt =====
-- The lines of one name.
use network_renderer_contain.Prelude.{
  ℕ, String, Bool, true, false, ◌||◌, ◌≡◌, ◌↔◌, refl, ap, sym, ◌∙◌, List, [], ◌∷◌, map, ◌==◌,
  string_eq, eq_iff, mem, mem-append, Bool-cases, ◌⊎◌, inl, inr, arith,
}
use network_renderer_contain.Py.Result.{ok, or_raise, >>=-eq-ok, ok_inj}
use network_renderer_contain.Py.Sort.{sort_by, mem-sort_by}
use network_renderer_contain.Py.Ip.Parse.{ip_address}
use network_renderer_contain.Reservation.{not_address}
use network_renderer_contain.Reservation.Dns.{
  NameRecords, keyed, before_or_same, data_line, pointer_line, asked, address_lines, lines_of,
  name_lines,
}

abbrev texts : List (ℕ × String) → List String
texts ks = map (λ k. k.1) ks

abbrev key_text : ℕ × String → String
key_text k = k.1

mem-sort_keyed :
    (s : String) (ks : List (ℕ × String))
    → mem s (texts (sort_by before_or_same ks)) ≡ mem s (texts ks)
mem-sort_keyed s ks = mem-sort_by before_or_same key_text s ks

-- The keys are put beside the texts.
texts-keyed : (ss : List String) (ks : List (ℕ × String)) → keyed ss ≡ ok ks → texts ks ≡ ss
unfolding keyed
texts-keyed [] ks h = ap texts (sym (ok_inj _ _ h))
texts-keyed (s ∷ ss) ks h =
    let (a, _, h₁) = >>=-eq-ok (or_raise not_address (ip_address s)) _ h in
    let (rest, is_rest, h₂) = >>=-eq-ok (keyed ss) _ h₁ in
    ap texts (sym (ok_inj _ _ h₂)) ∙ ap (λ ts. s ∷ ts) (texts-keyed ss rest is_rest)

mem-keyed :
    (s : String) (ss : List String) (ks : List (ℕ × String))
    → keyed ss ≡ ok ks
    → mem s (texts (sort_by before_or_same ks)) ≡ mem s ss
mem-keyed s ss ks h = mem-sort_keyed s ks ∙ ap (mem s) (texts-keyed ss ks h)

-- A line of this name, class and address that is asked for.
abbrev pub IsAddressLine : List String → String → String → String → String → Type 0
IsAddressLine classes n class a line =
    ((mem class classes ≡ true) × (line ≡ data_line n class a))
    ⊎ ((mem "PTR" classes ≡ true) × (line ≡ pointer_line n a))

mem_one : (x : String) → mem x (x ∷ []) ≡ true
mem_one x = ground (arith, eq_iff x x)

pub or_left : (a b : Bool) → a ≡ true → (a || b) ≡ true
or_left a b h = ground arith

pub or_right : (a b : Bool) → b ≡ true → (a || b) ≡ true
or_right a b h = ground arith

mem-asked : (b : Bool) (x line : String) → (mem line (asked b x) ≡ true) ↔ ((b ≡ true) × (line ≡ x))
mem-asked true x line =
    (λ h. ground (arith, eq_iff line x, h), λ h. ground (arith, eq_iff line x, h))
mem-asked false x line = (λ h. absurd (cc), λ h. cc)

pub or_cases : (a b : Bool) → (a || b) ≡ true → (a ≡ true) ⊎ (b ≡ true)
or_cases true b h = inl refl
or_cases false b h = inr h

module _ (classes : List String) (n : String) where
  address_lines_iff :
      (class a line : String)
      → (mem line (address_lines classes n class a) ≡ true) ↔ IsAddressLine classes n class a line
  address_lines_iff class a line =
      let first = asked (mem class classes) (data_line n class a) in
      let second = asked (mem "PTR" classes) (pointer_line n a) in
      let split = mem-append line first second in
      (
        λ m. elim (or_cases _ _ (sym split ∙ m)) [
          | inl here ↦ inl ((mem-asked _ _ line).0 here)
          | inr there ↦ inr ((mem-asked _ _ line).0 there)
        ],
        λ h. split ∙ elim h [
          | inl data' ↦
              or_left _ _ ((mem-asked (mem class classes) (data_line n class a) line).1 data')
          | inr pointer ↦
              or_right _ _ ((mem-asked (mem "PTR" classes) (pointer_line n a) line).1 pointer)
        ],
      )

  lines_of-mem :
      (class a line : String) (ks : List (ℕ × String))
      → mem a (texts ks) ≡ true
      → IsAddressLine classes n class a line
      → mem line (lines_of classes n class ks) ≡ true
  unfolding lines_of
  lines_of-mem class a line [] m h = cc
  lines_of-mem class a line (k ∷ ks) m h =
      mem-append line (address_lines classes n class k.1) _ ∙ elim (Bool-cases (a == k.1)) [
        | inl same ↦ or_left _ _ (
            ap (λ b. mem line (address_lines classes n class b)) (sym ((eq_iff a k.1).0 same))
            ∙ (address_lines_iff class a line).1 h)
        | inr other ↦ or_right _ _ (lines_of-mem class a line ks (rw other at m) h)
      ]

  -- A line of a name is one of an address that the name holds.
  pub IsNameLine : NameRecords → String → Type 0
  IsNameLine r line =
      (a : String) × (((mem a r.ipv4 ≡ true) × IsAddressLine classes n "A" a line)
        ⊎ ((mem a r.ipv6 ≡ true) × IsAddressLine classes n "AAAA" a line))

  pub name_lines-mem :
      (r : NameRecords) (line : String) (out : List String)
      → name_lines classes n r ≡ ok out
      → IsNameLine r line
      → mem line out ≡ true
  unfolding name_lines IsNameLine
  name_lines-mem r line out h (a, held) =
      let (ks4, keyed4, h₁) = >>=-eq-ok (keyed r.ipv4) _ h in
      let (ks6, keyed6, h₂) = >>=-eq-ok (keyed r.ipv6) _ h₁ in
      ap (mem line) (sym (ok_inj _ _ h₂)) ∙ mem-append line _ _ ∙ elim held [
        | inl (m, is_line) ↦
            or_left _ _ (lines_of-mem "A" a line _ (mem-keyed a r.ipv4 ks4 keyed4 ∙ m) is_line)
        | inr (m, is_line) ↦
            or_right _ _ (lines_of-mem "AAAA" a line _ (mem-keyed a r.ipv6 ks6 keyed6 ∙ m) is_line)
      ]

  lines_of-only :
      (class line : String) (ks : List (ℕ × String))
      → mem line (lines_of classes n class ks) ≡ true
      → (a : String) × (mem a (texts ks) ≡ true) × IsAddressLine classes n class a line
  unfolding lines_of
  lines_of-only class line [] h = absurd (cc)
  lines_of-only class line (k ∷ ks) h =
      elim (or_cases _ _ (sym (mem-append line (address_lines classes n class k.1) _) ∙ h)) [
        | inl here ↦
            (k.1, rw ((eq_iff k.1 k.1).1 refl) refl, (address_lines_iff class k.1 line).0 here)
        | inr there ↦
            let (a, m, is_line) = lines_of-only class line ks there in (a, or_right _ _ m, is_line)
      ]

  pub name_lines-only :
      (r : NameRecords) (line : String) (out : List String)
      → name_lines classes n r ≡ ok out
      → mem line out ≡ true
      → IsNameLine r line
  unfolding name_lines IsNameLine
  name_lines-only r line out h m =
      let (ks4, keyed4, h₁) = >>=-eq-ok (keyed r.ipv4) _ h in
      let (ks6, keyed6, h₂) = >>=-eq-ok (keyed r.ipv6) _ h₁ in
      let split =
        sym (
          mem-append line (lines_of classes n "A" (sort_by before_or_same ks4))
            (lines_of classes n "AAAA" (sort_by before_or_same ks6)))
        ∙ ap (mem line) (ok_inj _ _ h₂)
        ∙ m in
      elim (or_cases _ _ split) [
        | inl here ↦
            let (a, held, is_line) = lines_of-only "A" line (sort_by before_or_same ks4) here in
            (a, inl (sym (mem-keyed a r.ipv4 ks4 keyed4) ∙ held, is_line))
        | inr there ↦
            let (a, held, is_line) = lines_of-only "AAAA" line (sort_by before_or_same ks6) there in
            (a, inr (sym (mem-keyed a r.ipv6 ks6 keyed6) ∙ held, is_line))
      ]
