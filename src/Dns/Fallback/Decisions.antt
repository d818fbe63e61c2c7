-- ===== src/Dns/Fallback/Decisions.antt =====
-- When a query has no public fallback.
use mathlib.Core.Path.{subst}
use network_renderer_contain.Prelude.{
  String, ◌≡◌, ◌↔◌, refl, ap, sym, ◌∙◌, true, Option, none, some, List, [], ◌∷◌, Has, arith,
  Bool-cases, inl, inr,
}
use network_renderer_contain.Py.Value.{Value, arr, obj, nil, end, Fields, get_or, as_dict}
use network_renderer_contain.Py.Result.{ok, ok_inj, ◌>>=◌, >>=-eq-ok}
use network_renderer_contain.Dns.{Bytes, Question, parse_question}
use network_renderer_contain.Dns.Fallback.{
  record_class, decision_blocks, blocks_in, decisions_of, fallback_blocks, blocks_question,
  namespace_fallback_blocks,
}
use network_renderer_contain.Dns.Fallback.Denials.{
  IsClass, IsDenial, record_class-IsClass, IsClass-eq, decision_blocks_iff,
}

obj_inj : (a b : Fields) → obj a ≡ obj b → a ≡ b
obj_inj a b h = cc

module _ (name : Bytes) (class : String) where
  blocks_in-finds :
      (vs : List Value)
      → blocks_in name class vs ≡ true
      → (d : Fields) × Has (obj d) vs × (decision_blocks name class d ≡ true)
  unfolding blocks_in
  blocks_in-finds [] h = cc
  blocks_in-finds (obj d ∷ vs) h = elim (Bool-cases (decision_blocks name class d)) [
    | inl blocks ↦ (d, inl refl, blocks)
    | inr passes ↦
        let (later, here, blocks) = blocks_in-finds vs (ground (arith, h, passes)) in
        (later, inr here, blocks)
  ]
  blocks_in-finds (_ ∷ vs) h =
      let (later, here, blocks) = blocks_in-finds vs h in (later, inr here, blocks)

  blocks_in-Has :
      (vs : List Value) (d : Fields)
      → Has (obj d) vs
      → decision_blocks name class d ≡ true
      → blocks_in name class vs ≡ true
  unfolding blocks_in
  blocks_in-Has [] d here b = absurd here
  blocks_in-Has (obj e ∷ vs) d (inl same) b = rw (obj_inj e d same) (ground (arith, b))
  blocks_in-Has (obj e ∷ vs) d (inr later) b = ground (arith, blocks_in-Has vs d later b)
  blocks_in-Has (_ ∷ vs) d (inr later) b = blocks_in-Has vs d later b
  blocks_in-Has (_ ∷ vs) d (inl same) b = cc

-- A decision of the configuration that blocks the question of the query.
pub record IsBlocked (config : Fields) (query : Bytes) : Type 0 where
  pub question : Question
  pub parsed : parse_question query ≡ some question
  pub fallback : Fields
  pub configured : as_dict (get_or (obj end) "namespaceFallback" config) ≡ some fallback
  pub decisions : List Value
  pub listed : decisions_of (get_or (arr nil) "decisions" fallback) ≡ ok decisions
  pub decision : Fields
  pub here : Has (obj decision) decisions
  pub class : String
  pub classified : IsClass question.type class
  pub denies : IsDenial question.name class decision

namespace_fallback_blocks-IsBlocked :
    (config : Fields) (query : Bytes) (o : Option Question) (f : Option Fields)
    → parse_question query ≡ o
    → as_dict (get_or (obj end) "namespaceFallback" config) ≡ f
    → namespace_fallback_blocks config query ≡ ok true
    → IsBlocked config query
unfolding namespace_fallback_blocks
namespace_fallback_blocks-IsBlocked config query none f eo ef h = absurd (ground (arith, eo, h))
namespace_fallback_blocks-IsBlocked config query (some q) none eo ef h =
    absurd (ground (arith, eo, ef, h))
namespace_fallback_blocks-IsBlocked config query (some q) (some fallback) eo ef h =
    let (ds, listed, found) =
      >>=-eq-ok (decisions_of (get_or (arr nil) "decisions" fallback))
        (λ ds. ok (blocks_in q.name (record_class q.type) ds))
        (sym (ap (fallback_blocks q) ef) ∙ sym (ap (blocks_question config) eo) ∙ h) in
    let (d, here, blocks) = blocks_in-finds q.name (record_class q.type) ds (ok_inj _ _ found) in
    record {
      question = q;
      parsed = eo;
      fallback = fallback;
      configured = ef;
      decisions = ds;
      listed = listed;
      decision = d;
      here = here;
      class = record_class q.type;
      classified = record_class-IsClass q.type;
      denies = (decision_blocks_iff q.name (record_class q.type) d).0 blocks;
    }

-- A query is blocked exactly when its question can be read and the configuration lists a decision
-- that denies it: a decision to block or to deny, without public fallback, for a namespace whose
-- canonical text the name ends with, and for the record class of the query or all public recursion.
pub namespace_fallback_blocks_iff :
    (config : Fields) (query : Bytes)
    → (namespace_fallback_blocks config query ≡ ok true) ↔ IsBlocked config query
unfolding namespace_fallback_blocks
namespace_fallback_blocks_iff config query = (
  namespace_fallback_blocks-IsBlocked config query _ _ refl refl,
  λ b.
      let denies =
        subst (λ c. IsDenial b.question.name c b.decision)
          (IsClass-eq b.question.type b.class b.classified) b.denies in
      ap (blocks_question config) b.parsed
      ∙ ap (fallback_blocks b.question) b.configured
      ∙ ap (λ r. r >>= (λ ds. ok (blocks_in b.question.name (record_class b.question.type) ds)))
          b.listed
      ∙ ap ok (
          blocks_in-Has b.question.name (record_class b.question.type) b.decisions b.decision b.here
            ((decision_blocks_iff b.question.name (record_class b.question.type) b.decision).1
              denies)),
)
