-- ===== src/Dns/Answer/Served.antt =====
-- Where the answers of local records come from.
use network_renderer_contain.Prelude.{
  ◌≡◌, refl, ap, sym, ◌∙◌, String, true, some, List, [], ◌∷◌, ◌++◌, Has, Bool-cases, Option-cases,
  ◌⊎◌, inl, inr,
}
use network_renderer_contain.Py.Value.{Value, str, arr, nil, Fields, get_or, as_dict}
use network_renderer_contain.Py.Result.{
  ok, attribute_error, or_raise, >>=-eq-ok, ok_inj, or_raise-eq-ok,
}
use network_renderer_contain.Py.Iterate.{iterate}
use network_renderer_contain.Py.Ip.{Family, v4, v6}
use network_renderer_contain.Py.Ip.Parse.{ip_address}
use network_renderer_contain.Dns.{Question}
use network_renderer_contain.Dns.Fallback.{same_bytes}
use network_renderer_contain.Dns.Answer.{
  Answer, type_of, packed, one_answer, address_answer, address_answers, is_asked, family_answers,
  record_answers, record_name, answers_of, answers_in,
}

Has-split : {A : Type 0} (a : A) (xs ys : List A) → Has a (xs ++ ys) → Has a xs ⊎ Has a ys
Has-split a [] ys h = inr h
Has-split a (x ∷ xs) ys (inl same) = inl (inl same)
Has-split a (x ∷ xs) ys (inr h) = elim (Has-split a xs ys h) [
  | inl left ↦ inl (inr left)
  | inr right ↦ inr right
]

-- The text of a list that an address is read from.
pub record IsFrom (family : Family) (vs : List Value) (a : Answer) : Type 0 where
  pub text : String
  pub member : Has (str text) vs
  pub is_address : packed family (ip_address text) ≡ some a.address
  pub typed : a.type ≡ type_of family

address_answer-IsFrom :
    (family : Family) (v : Value) (vs : List Value) (a : Answer)
    → Has a (address_answer family v)
    → IsFrom family (v ∷ vs) a
unfolding address_answer
address_answer-IsFrom family (str s) vs a h = elim (Option-cases (packed family (ip_address s))) [
  | inl none_there ↦ absurd (rw none_there at h)
  | inr (address, found) ↦
      let h' : Has a (one_answer family (some address)) = rw found at h in
      elim h' [
        | inl same ↦ record {
          text = s;
          member = inl refl;
          is_address = found ∙ ap (λ x. some x.address) same;
          typed = sym (ap (λ x. x.type) same);
        }
        | inr nothing ↦ absurd nothing
      ]
]
address_answer-IsFrom family _ vs a h = absurd h

address_answers-IsFrom :
    (family : Family) (vs : List Value) (a : Answer)
    → Has a (address_answers family vs)
    → IsFrom family vs a
unfolding address_answers
address_answers-IsFrom family [] a h = absurd h
address_answers-IsFrom family (v ∷ vs) a h =
    elim (Has-split a (address_answer family v) (address_answers family vs) h) [
      | inl here ↦ address_answer-IsFrom family v vs a here
      | inr later ↦
          let f = address_answers-IsFrom family vs a later in
          record {
            text = f.text;
            member = inr f.member;
            is_address = f.is_address;
            typed = f.typed;
          }
    ]

-- The field of a record that lists its addresses.
abbrev pub key_of : Family → String
key_of v4 = "a"
key_of v6 = "aaaa"

pub record IsListed (q : Question) (fields : Fields) (a : Answer) : Type 0 where
  pub family : Family
  pub asked : is_asked family q.type ≡ true
  pub addresses : List Value
  pub listed : iterate (get_or (arr nil) (key_of family) fields) ≡ ok addresses
  pub from : IsFrom family addresses a

family_answers-IsListed :
    (family : Family) (q : Question) (fields : Fields) (found : List Answer) (a : Answer)
    → family_answers family q.type (get_or (arr nil) (key_of family) fields) ≡ ok found
    → Has a found
    → IsListed q fields a
unfolding family_answers
family_answers-IsListed family q fields found a h has = elim (Bool-cases (is_asked family q.type)) [
  | inl asked ↦
      let (addresses, listed, h₁) =
        >>=-eq-ok (iterate (get_or (arr nil) (key_of family) fields)) _ (rw asked at h) in
      record {
        family = family;
        asked = asked;
        addresses = addresses;
        listed = listed;
        from = address_answers-IsFrom family addresses a (rw (sym (ok_inj _ _ h₁)) at has);
      }
  | inr other ↦ absurd (rw (sym (ok_inj _ _ (rw other at h))) at has)
]

record_answers-IsListed :
    (q : Question) (fields : Fields) (found : List Answer) (a : Answer)
    → record_answers q.type fields ≡ ok found
    → Has a found
    → IsListed q fields a
unfolding record_answers
record_answers-IsListed q fields found a h has =
    let (four, is4, h₁) = >>=-eq-ok (family_answers v4 q.type (get_or (arr nil) "a" fields)) _ h in
    let (six, is6, h₂) =
      >>=-eq-ok (family_answers v6 q.type (get_or (arr nil) "aaaa" fields)) _ h₁ in
    elim (Has-split a four six (rw (sym (ok_inj _ _ h₂)) at has)) [
      | inl here ↦ family_answers-IsListed v4 q fields four a is4 here
      | inr here ↦ family_answers-IsListed v6 q fields six a is6 here
    ]

-- A record of the question's name that lists the address.
pub record IsServed (q : Question) (records : List Value) (a : Answer) : Type 0 where
  pub value : Value
  pub here : Has value records
  pub fields : Fields
  pub is_object : as_dict value ≡ some fields
  pub named : same_bytes (record_name fields) q.name ≡ true
  pub listed : IsListed q fields a

answers_of-IsServed :
    (q : Question) (v : Value) (vs : List Value) (found : List Answer) (a : Answer)
    → answers_of q v ≡ ok found
    → Has a found
    → IsServed q (v ∷ vs) a
unfolding answers_of
answers_of-IsServed q v vs found a h has =
    let (fields, is_object, h₁) =
      >>=-eq-ok (or_raise (attribute_error "object has no attribute 'get'") (as_dict v)) _ h in
    elim (Bool-cases (same_bytes (record_name fields) q.name)) [
      | inl named ↦ record {
        value = v;
        here = inl refl;
        fields = fields;
        is_object = or_raise-eq-ok _ (as_dict v) fields is_object;
        named = named;
        listed = record_answers-IsListed q fields found a (rw named at h₁) has;
      }
      | inr other ↦ absurd (rw (sym (ok_inj _ _ (rw other at h₁))) at has)
    ]

pub answers_in-IsServed :
    (q : Question) (records : List Value) (found : List Answer) (a : Answer)
    → answers_in q records ≡ ok found
    → Has a found
    → IsServed q records a
unfolding answers_in
answers_in-IsServed q [] found a h has = absurd (rw (sym (ok_inj _ _ h)) at has)
answers_in-IsServed q (v ∷ records) found a h has =
    let (first, is_first, h₁) = >>=-eq-ok (answers_of q v) _ h in
    let (rest, is_rest, h₂) = >>=-eq-ok (answers_in q records) _ h₁ in
    elim (Has-split a first rest (rw (sym (ok_inj _ _ h₂)) at has)) [
      | inl here ↦ answers_of-IsServed q v records first a is_first here
      | inr later ↦
          let s = answers_in-IsServed q records rest a is_rest later in
          record {
            value = s.value;
            here = inr s.here;
            fields = s.fields;
            is_object = s.is_object;
            named = s.named;
            listed = s.listed;
          }
    ]
