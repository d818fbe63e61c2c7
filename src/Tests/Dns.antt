-- ===== src/Tests/Dns.antt =====
-- The question for the address of WWW.lab, and a blocked namespace.
use network_renderer_contain.Prelude.{
  ℕ, ◌+◌, ◌*◌, true, ◌↔◌, length, ◌<◌, ◌≡◌, ◌≢◌, refl, some, [], ◌∷◌, ◌++◌, map, arith,
}
use network_renderer_contain.Py.Result.{ok}
use network_renderer_contain.Dns.{Bytes, dot, encode_name, lower_code, dotted, parse_question}
use network_renderer_contain.Py.Value.{Fields, str, arr, obj, cons, nil, field, end}
use network_renderer_contain.Dns.Fallback.{namespace_fallback_blocks, servfail}
use network_renderer_contain.Dns.Fallback.Laws.{parse_question-servfail}
use network_renderer_contain.Dns.Fallback.Decisions.{IsBlocked, namespace_fallback_blocks_iff}
use network_renderer_contain.Dns.Questions.{IsLabel, parse_question-encode_name}

abbrev www : Bytes
www = 87 ∷ (87 ∷ (87 ∷ []))

abbrev lab : Bytes
lab = 108 ∷ (97 ∷ (98 ∷ []))

letter : (c : ℕ) → 64 < c → c ≢ dot
letter c h = λ e. omega (arith, e, h)

www-IsLabel : IsLabel www
www-IsLabel = record {
  filled = refl;
  short = omega arith;
  ascii = (omega arith, (omega arith, (omega arith, tt)));
  undotted = (letter 87 (omega arith), (letter 87 (omega arith), (letter 87 (omega arith), tt)));
}

lab-IsLabel : IsLabel lab
lab-IsLabel = record {
  filled = refl;
  short = omega arith;
  ascii = (omega arith, (omega arith, (omega arith, tt)));
  undotted = (letter 108 (omega arith), (letter 97 (omega arith), (letter 98 (omega arith), tt)));
}

abbrev header : Bytes
header = 1 ∷ (2 ∷ (1 ∷ (0 ∷ (0 ∷ (1 ∷ (0 ∷ (0 ∷ (0 ∷ (0 ∷ (0 ∷ (0 ∷ [])))))))))))

parse_question-encode_name_example :
    (wire : Bytes) × (encode_name (dotted (www ∷ (lab ∷ []))) ≡ ok wire)
    × (parse_question (header ++ (wire ++ 0 ∷ (1 ∷ (0 ∷ (1 ∷ [])))))
        ≡ some (record {
          name = dotted (map (λ l. map lower_code l) (www ∷ (lab ∷ [])));
          type = 0 * 256 + 1;
          class = 0 * 256 + 1;
          wire = wire ++ 0 ∷ (1 ∷ (0 ∷ (1 ∷ [])));
        }))
parse_question-encode_name_example =
    parse_question-encode_name www (lab ∷ []) header [] 0 1 0 1 (www-IsLabel, (lab-IsLabel, tt))
      refl

abbrev lab_query : Bytes
lab_query = header ++ (3 ∷ lab) ++ (0 ∷ (0 ∷ (1 ∷ (0 ∷ (1 ∷ [])))))

abbrev lab_decision : Fields
lab_decision = field "action" (str "block") (
    field "namespace" (str "LAB.")
      (field "deniedRecordClasses" (arr (cons (str "PUBLIC-RECURSION") nil)) end))

abbrev lab_config : Fields
lab_config =
    field "namespaceFallback" (obj (field "decisions" (arr (cons (obj lab_decision) nil)) end)) end

lab_blocks : namespace_fallback_blocks lab_config lab_query ≡ ok true
unfolding namespace_fallback_blocks parse_question network_renderer_contain.Dns.read_labels
    network_renderer_contain.Dns.Fallback.blocks_in
    network_renderer_contain.Dns.Fallback.decision_blocks
    network_renderer_contain.Dns.Fallback.ends_with_bytes dotted
    network_renderer_contain.Dns.decode_label network_renderer_contain.Dns.Fallback.canonical_name
    network_renderer_contain.Dns.rstrip_dots network_renderer_contain.Dns.Fallback.class_list_has
lab_blocks = refl

parse_question-servfail_example :
    (parse_question (servfail lab_query) ≡ parse_question lab_query)
    × (length (servfail lab_query) ≡ length lab_query)
parse_question-servfail_example = parse_question-servfail lab_query

namespace_fallback_blocks_iff_example :
    (namespace_fallback_blocks lab_config lab_query ≡ ok true) ↔ IsBlocked lab_config lab_query
namespace_fallback_blocks_iff_example = namespace_fallback_blocks_iff lab_config lab_query
