-- ===== src/Dns/Answer/Laws.antt =====
-- What a local answer of the proxy is.
use network_renderer_contain.Prelude.{
  ℕ, zero, suc, ◌≤◌, ◌<◌, ◌≡◌, ◌≢◌, refl, ap, sym, ◌∙◌, true, false, none, some, some_inj, List, [],
  ◌∷◌, ◌++◌, ltb, length, length-append, length-take, length-drop, take, drop, Has, arith,
  Bool-cases, Option-cases, inl, inr,
}
use network_renderer_contain.Py.Value.{Value, arr, nil, Fields, get_or}
use network_renderer_contain.Py.Result.{ok, struct_error, require, require-eq-ok, >>=-eq-ok, ok_inj}
use network_renderer_contain.Py.Iterate.{iterate}
use network_renderer_contain.Dns.{Bytes, encode_name, Question, parse_question}
use network_renderer_contain.Dns.Answer.{
  to_bytes, Answer, answers_in, resources, answer_header, answer_of, answer_question, local_answer,
}
use network_renderer_contain.Dns.Answer.Wire.{parse_question-again}
use network_renderer_contain.Dns.Answer.Served.{IsServed, answers_in-IsServed}

length-to_bytes : (k n : ℕ) → length (to_bytes k n) ≡ k
unfolding to_bytes
length-to_bytes zero n = refl
length-to_bytes (suc k) n = ap suc (length-to_bytes k n)

no_question : (q : Question) → none ≢ some q
no_question q e = cc

parsed_long :
    (query : Bytes) (q : Question) → parse_question query ≡ some q → ltb (length query) 12 ≡ false
unfolding parse_question
parsed_long query q h = elim (Bool-cases (ltb (length query) 12)) [
  | inl short ↦ absurd (no_question q (rw short at h))
  | inr long ↦ long
]

header_size :
    (query : Bytes) (count : ℕ) → 12 ≤ length query → length (answer_header query count) ≡ 12
unfolding answer_header
header_size query count long =
    let zeros : Bytes = 0 ∷ (0 ∷ (0 ∷ (0 ∷ []))) in
    omega (
      arith,
      length-append (take 2 query ++ (129 ∷ (128 ∷ [])))
          (take 2 (drop 4 query) ++ (to_bytes 2 count ++ zeros)),
      length-append (take 2 query) (129 ∷ (128 ∷ [])),
      length-append (take 2 (drop 4 query)) (to_bytes 2 count ++ zeros),
      length-append (to_bytes 2 count) zeros,
      length-to_bytes 2 count,
      length-take 2 query (omega arith),
      length-take 2 (drop 4 query) (omega (arith, length-drop 4 query)),
    )

-- A local answer: its header with the count of the answers, the question of the query, and for each
-- answer a resource record of an address that a record of the configuration lists for the name.
pub record IsLocal (config : Fields) (query out : Bytes) : Type 0 where
  pub question : Question
  pub parsed : parse_question query ≡ some question
  pub records : List Value
  pub listed : iterate (get_or (arr nil) "localRecords" config) ≡ ok records
  pub answers : List Answer
  pub some_answer : 0 < length answers
  pub counted : length answers < 65536
  pub served : (a : Answer) → Has a answers → IsServed question records a
  pub name : Bytes
  pub encoded : encode_name question.name ≡ ok name
  pub whole :
      out
      ≡ answer_header query (length answers)
        ++ (question.wire ++ resources name question.class answers)
  pub same_question : parse_question out ≡ some question

below : (n m : ℕ) → ltb n m ≡ true → n < m
below n m h = ground (arith, h)

not_below : (n m : ℕ) → ltb n m ≡ false → m ≤ n
not_below n m h = ground (arith, h)

no_bytes : (out : Bytes) → none ≢ some out
no_bytes out e = cc

answer_of-IsLocal :
    (config : Fields) (query out : Bytes) (q : Question) (records : List Value)
    (answers : List Answer)
    → parse_question query ≡ some q
    → iterate (get_or (arr nil) "localRecords" config) ≡ ok records
    → answers_in q records ≡ ok answers
    → answer_of query q answers ≡ ok (some out)
    → IsLocal config query out
unfolding answer_of
answer_of-IsLocal config query out q records [] parsed listed found h =
    absurd (no_bytes out (ok_inj _ _ h))
answer_of-IsLocal config query out q records (a ∷ rest) parsed listed found h =
    let (name, encoded, h₁) = >>=-eq-ok (encode_name q.name) _ h in
    let (u, counted, h₂) =
      >>=-eq-ok
        (require (ltb (length (a ∷ rest)) 65536)
          (struct_error "'H' format requires 0 <= number <= 65535"))
        _ h₁ in
    let head = answer_header query (length (a ∷ rest)) in
    let body = resources name q.class (a ∷ rest) in
    let whole = sym (some_inj _ _ (ok_inj _ _ h₂)) in
    let long = not_below (length query) 12 (parsed_long query q parsed) in
    record {
      question = q;
      parsed = parsed;
      records = records;
      listed = listed;
      answers = a ∷ rest;
      some_answer = omega arith;
      counted = below (length (a ∷ rest)) 65536 (require-eq-ok _ _ u counted);
      served = λ x has. answers_in-IsServed q records (a ∷ rest) x found has;
      name = name;
      encoded = encoded;
      whole = whole;
      same_question =
          ap parse_question whole
          ∙ parse_question-again query head body q parsed
              (header_size query (length (a ∷ rest)) long);
    }

-- Where a local answer is given, it is parsed to the question of the query, and holds the count of
-- its answers (one or more) and for each of them a resource record of an address that stands, as a
-- text of the family that is asked for, in a record of the configuration with the question's name.
pub local_answer-IsLocal :
    (config : Fields) (query out : Bytes)
    → local_answer config query ≡ ok (some out)
    → IsLocal config query out
unfolding local_answer answer_question
local_answer-IsLocal config query out h = elim (Option-cases (parse_question query)) [
  | inl unread ↦ absurd (no_bytes out (ok_inj _ _ (rw unread at h)))
  | inr (q, parsed) ↦
      let h' = rw parsed at h in
      let (records, listed, h₁) =
        >>=-eq-ok (iterate (get_or (arr nil) "localRecords" config)) _ h' in
      let (answers, found, h₂) = >>=-eq-ok (answers_in q records) _ h₁ in
      answer_of-IsLocal config query out q records answers parsed listed found h₂
]
