-- ===== src/Dns/Fallback.antt =====
-- The failure answer and the namespaces without a public fallback, of
-- clabgen/s88/CM/dns_proxy_protocol.py.
pub mod Laws
pub mod Denials
pub mod Decisions
use network_renderer_contain.Prelude.{
  ℕ, ◌+◌, String, Bool, true, false, ◌&&◌, ◌||◌, not, Option, none, some, List, [], ◌∷◌, ◌++◌, map,
  ◌==◌, nat_eq, string_eq, if◌then◌else◌, ltb, length, is_nil, take, drop, any,
}
use network_renderer_contain.Py.Value.{
  Value, bool, str, arr, obj, nil, end, Fields, elems, get, get_or, as_dict, as_list, text_of,
  is_str, truthy,
}
use network_renderer_contain.Py.Result.{Result, ok, err, type_error, ◌>>=◌}
use network_renderer_contain.Py.Text.{concat, codes, dec}
use network_renderer_contain.Dns.{Bytes, dot, rstrip_dots, lower_code, Question, parse_question}

-- The identifier, the flags of a failure, the count of the questions, no answers, and the question.
unfoldable pub servfail : Bytes → Bytes
servfail query =
    if ltb (length query) 12
    then query
    else (take 2 query
        ++ (129 ∷ (130 ∷ []))
        ++ (take 2 (drop 4 query) ++ (0 ∷ (0 ∷ (0 ∷ (0 ∷ (0 ∷ (0 ∷ []))))))))
      ++ drop 12 query

-- `class_list_has`
unfoldable pub class_list_has : Value → String → Bool
class_list_has value expected = elim (as_list value) [
  | none ↦ false
  | some items ↦ any (λ item. is_str expected item) items
]

abbrev pub record_class : ℕ → String
record_class query_type =
    if query_type == 1
    then "A"
    else if query_type == 28
    then "AAAA"
    else if query_type == 255
    then "ANY"
    else concat ("TYPE" ∷ dec query_type ∷ [])

-- `namespace.rstrip(".").lower() + "."`, for a namespace in ASCII.
unfoldable pub canonical_name : String → Bytes
canonical_name name = map lower_code (rstrip_dots (codes name)) ++ dot ∷ []

abbrev pub same_bytes : Bytes → Bytes → Bool
same_bytes [] [] = true
same_bytes [] (y ∷ ys) = false
same_bytes (x ∷ xs) [] = false
same_bytes (x ∷ xs) (y ∷ ys) = x == y && same_bytes xs ys

-- `name.endswith(suffix)`
unfoldable pub ends_with_bytes : Bytes → Bytes → Bool
ends_with_bytes [] suffix = same_bytes [] suffix
ends_with_bytes (c ∷ cs) suffix = same_bytes (c ∷ cs) suffix || ends_with_bytes cs suffix

abbrev pub is_block : Value → Bool
is_block action = is_str "block" action || is_str "deny" action

abbrev pub has_class : String → Fields → Bool
has_class class decision =
    class_list_has (get_or (arr nil) "allowedRecordClasses" decision) class
    || class_list_has (get_or (arr nil) "deniedRecordClasses" decision) class
    || class_list_has (get_or (arr nil) "deniedRecordClasses" decision) "PUBLIC-RECURSION"

abbrev pub covers : Bytes → Option String → Bool
covers name none = false
covers name (some namespace) = ends_with_bytes name (canonical_name namespace)

-- The body of the loop over the decisions.
unfoldable pub decision_blocks : Bytes → String → Fields → Bool
decision_blocks name class decision =
    is_block (get "action" decision)
    && not (truthy (get_or (bool false) "publicRecursionFallback" decision))
    && covers name (text_of (get "namespace" decision))
    && has_class class decision

unfoldable pub blocks_in : Bytes → String → List Value → Bool
blocks_in name class [] = false
blocks_in name class (obj decision ∷ vs) =
    decision_blocks name class decision || blocks_in name class vs
blocks_in name class (_ ∷ vs) = blocks_in name class vs

-- What the loop runs over: a text or an object has texts only, which are no decisions.
abbrev pub decisions_of : Value → Result (List Value)
decisions_of (arr items) = ok (elems items)
decisions_of (obj fs) = ok []
decisions_of (str s) = ok []
decisions_of _ = err (type_error "object is not iterable")

abbrev pub fallback_blocks : Question → Option Fields → Result Bool
fallback_blocks q none = ok false
fallback_blocks q (some fallback) = do
  decisions ← decisions_of (get_or (arr nil) "decisions" fallback)
  ok (blocks_in q.name (record_class q.type) decisions)

abbrev pub blocks_question : Fields → Option Question → Result Bool
blocks_question config none = ok false
blocks_question config (some q) =
    fallback_blocks q (as_dict (get_or (obj end) "namespaceFallback" config))

unfoldable pub namespace_fallback_blocks : Fields → Bytes → Result Bool
namespace_fallback_blocks config query = blocks_question config (parse_question query)
