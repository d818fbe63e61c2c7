-- ===== src/Reservation/Dns/Lines.antt =====
-- Which lines the local data has.
use network_renderer_contain.Prelude.{
  lookup, String, true, ◌≡◌, ◌↔◌, refl, ap, sym, ◌∙◌, some, List, [], ◌∷◌, map, ◌==◌, string_eq,
  eq_iff, mem, mem-append, Bool-cases, ◌⊎◌, inl, inr, arith,
}
use network_renderer_contain.Py.Value.{Value}
use network_renderer_contain.Py.Result.{ok, >>=-eq-ok, ok_inj}
use network_renderer_contain.Py.Sort.{sorted, mem-sorted}
use network_renderer_contain.Reservation.Dns.{
  NameRecords, Collected, records_of, name_lines, all_lines, collected_of, materialize_dns_lines,
}
use network_renderer_contain.Reservation.Dns.NameLines.{
  or_left, or_right, or_cases, IsNameLine, name_lines-mem, name_lines-only,
}

abbrev names_of : List (String × NameRecords) → List String
names_of m = map (λ e. e.0) m

-- A line of one of the names.
pub record IsDataLine (classes : List String) (names : List (String × NameRecords)) (line : String)
    : Type 0 where
  pub name : String
  pub records : NameRecords
  pub found : lookup name names ≡ some records
  pub of_name : IsNameLine classes name records line

lookup-some :
    (n : String) (m : List (String × NameRecords))
    → mem n (names_of m) ≡ true
    → (r : NameRecords) × (lookup n m ≡ some r)
lookup-some n [] h = absurd (cc)
lookup-some n ((k, r) ∷ m) h = elim (Bool-cases (k == n)) [
  | inl same ↦ (r, rw same refl)
  | inr other ↦
      let (q, found) = lookup-some n m (ground (arith, h, other, eq_iff k n, eq_iff n k)) in
      (q, rw other found)
]

mem-lookup :
    (n : String) (r : NameRecords) (m : List (String × NameRecords))
    → lookup n m ≡ some r
    → mem n (names_of m) ≡ true
mem-lookup n r [] h = cc
mem-lookup n r ((k, q) ∷ m) h = elim (Bool-cases (k == n)) [
  | inl same ↦ ground (arith, same, eq_iff k n, eq_iff n k)
  | inr other ↦ or_right _ _ (mem-lookup n r m (rw other at h))
]

module _ (classes : List String) (names : List (String × NameRecords)) where
  all_lines-mem :
      (ns : List String) (n : String) (r : NameRecords) (line : String) (out : List String)
      → all_lines classes names ns ≡ ok out
      → mem n ns ≡ true
      → lookup n names ≡ some r
      → IsNameLine classes n r line
      → mem line out ≡ true
  unfolding all_lines
  all_lines-mem [] n r line out h m found is_line = cc
  all_lines-mem (k ∷ ns) n r line out h m found is_line =
      let held = records_of (lookup k names) in
      let (lines, first, h₁) = >>=-eq-ok (name_lines classes k held) _ h in
      let (later, rest, h₂) = >>=-eq-ok (all_lines classes names ns) _ h₁ in
      ap (mem line) (sym (ok_inj _ _ h₂))
      ∙ mem-append line lines later
      ∙ elim (Bool-cases (n == k)) [
        | inl same ↦
            let is_k = (eq_iff n k).0 same in
            let first' =
              ap (λ x. name_lines classes x (records_of (lookup x names))) is_k ∙ first in
            or_left _ _ (
              name_lines-mem classes n r line lines
                (ap (λ o. name_lines classes n (records_of o)) (sym found) ∙ first') is_line)
        | inr other ↦
            or_right _ _ (all_lines-mem ns n r line later rest (rw other at m) found is_line)
      ]

  all_lines-only :
      (ns : List String) (line : String) (out : List String)
      → all_lines classes names ns ≡ ok out
      → ((n : String) → mem n ns ≡ true → mem n (names_of names) ≡ true)
      → mem line out ≡ true
      → IsDataLine classes names line
  unfolding all_lines
  all_lines-only [] line out h within m = cc (ap (mem line) (ok_inj _ _ h) ∙ m)
  all_lines-only (k ∷ ns) line out h within m =
      let held = records_of (lookup k names) in
      let (lines, first, h₁) = >>=-eq-ok (name_lines classes k held) _ h in
      let (later, rest, h₂) = >>=-eq-ok (all_lines classes names ns) _ h₁ in
      let split = sym (mem-append line lines later) ∙ ap (mem line) (ok_inj _ _ h₂) ∙ m in
      elim (or_cases _ _ split) [
        | inl here ↦
            let (r, found) = lookup-some k names (within k (or_left _ _ ((eq_iff k k).1 refl))) in
            record {
              name = k;
              records = r;
              found = found;
              of_name =
                  name_lines-only classes k r line lines
                    (ap (λ o. name_lines classes k (records_of o)) (sym found) ∙ first) here;
            }
        | inr there ↦
            all_lines-only ns line later rest (λ n held. within n (or_right _ _ held)) there
      ]

-- Where the lines of the local data are given, a text is one of them exactly when it is the
-- heading, or a line of a requested class for a name and an address that the name holds.
pub materialize_dns_lines_iff :
    (scope namespace : String) (classes : List String) (source : Value) (lines ids : List String)
    → materialize_dns_lines scope namespace classes source ≡ ok (lines, ids)
    → (c : Collected) × (collected_of scope namespace classes source ≡ ok c)
      × ((line : String)
          → (mem line lines ≡ true)
            ↔ ((line ≡ "server:") ⊎ IsDataLine classes c.records_by_name line))
unfolding materialize_dns_lines
materialize_dns_lines_iff scope namespace classes source lines ids h =
    let (c, collected, h₁) = >>=-eq-ok (collected_of scope namespace classes source) _ h in
    let names = c.records_by_name in
    let (body, is_body, h₂) = >>=-eq-ok (all_lines classes names (sorted (names_of names))) _ h₁ in
    let whole : "server:" ∷ body ≡ lines = ap (λ p. p.0) (ok_inj _ _ h₂) in
    (
      c,
      collected,
      λ line. (
        λ m. elim (or_cases _ _ (ap (mem line) whole ∙ m)) [
          | inl head ↦ inl ((eq_iff line "server:").0 head)
          | inr here ↦ inr (
              all_lines-only classes names (sorted (names_of names)) line body is_body
                (λ n held. sym (mem-sorted n (names_of names)) ∙ held) here)
        ],
        λ either. sym (ap (mem line) whole) ∙ elim either [
          | inl head ↦ or_left _ _ ((eq_iff line "server:").1 head)
          | inr d ↦ or_right _ _ (
              all_lines-mem classes names (sorted (names_of names)) d.name d.records line body
                is_body
                (mem-sorted d.name (names_of names) ∙ mem-lookup d.name d.records names d.found)
                d.found d.of_name)
        ],
      ),
    )
