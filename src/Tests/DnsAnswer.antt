-- ===== src/Tests/DnsAnswer.antt =====
-- A query for the address of lab: a local record, and one of two forwarders.
use network_renderer_contain.Prelude.{◌≡◌, refl, ◌⊎◌, none, some, [], ◌∷◌, ◌++◌}
use network_renderer_contain.Py.Value.{Fields, str, arr, obj, cons, nil, field, end}
use network_renderer_contain.Py.Result.{ok}
use network_renderer_contain.Py.Ip.{v4}
use network_renderer_contain.Dns.{Bytes}
use network_renderer_contain.Dns.Answer.{Forwarder, local_answer, forward_udp}
use network_renderer_contain.Dns.Answer.Laws.{IsLocal, local_answer-IsLocal}
use network_renderer_contain.Dns.Answer.Replies.{IsUpstream, forward_udp-IsUpstream}

abbrev lab_query : Bytes
lab_query =
    1 ∷ 2 ∷ 1 ∷ 0 ∷ 0 ∷ 1 ∷ 0 ∷ 0 ∷ 0 ∷ 0 ∷ 0 ∷ 0 ∷ 3 ∷ 76 ∷ 97 ∷ 98 ∷ 0 ∷ 0 ∷ 1 ∷ 0 ∷ 1 ∷ []

abbrev lab_record : Fields
lab_record =
    field "name" (str "Lab.")
      (field "a" (arr (cons (str "10.0.0.1") (cons (str "no address") nil))) end)

abbrev local_config : Fields
local_config = field "localRecords" (arr (cons (obj lab_record) nil)) end

-- The header, the question as it was asked, and the record: the name in lower case, type, class,
-- 60 seconds, and four bytes.
abbrev lab_answer : Bytes
lab_answer =
    (1 ∷ 2 ∷ 129 ∷ 128 ∷ 0 ∷ 1 ∷ 0 ∷ 1 ∷ 0 ∷ 0 ∷ 0 ∷ 0 ∷ [])
    ++ ((3 ∷ 76 ∷ 97 ∷ 98 ∷ 0 ∷ 0 ∷ 1 ∷ 0 ∷ 1 ∷ [])
        ++ (3 ∷ 108 ∷ 97 ∷ 98 ∷ 0 ∷ 0 ∷ 1 ∷ 0 ∷ 1 ∷ 0 ∷ 0 ∷ 0 ∷ 60 ∷ 0 ∷ 4 ∷ 10 ∷ 0 ∷ 0 ∷ 1 ∷ []))

lab_answered : local_answer local_config lab_query ≡ ok (some lab_answer)
unfolding local_answer network_renderer_contain.Dns.Answer.answer_question
    network_renderer_contain.Dns.parse_question network_renderer_contain.Dns.read_labels
    network_renderer_contain.Dns.Answer.answers_in network_renderer_contain.Dns.Answer.answers_of
    network_renderer_contain.Dns.Fallback.canonical_name network_renderer_contain.Dns.rstrip_dots
    network_renderer_contain.Py.Repr.show network_renderer_contain.Dns.dotted
    network_renderer_contain.Dns.decode_label network_renderer_contain.Dns.Answer.record_answers
    network_renderer_contain.Dns.Answer.family_answers network_renderer_contain.Dns.Answer.answer_of
    network_renderer_contain.Dns.Answer.address_answers
    network_renderer_contain.Dns.Answer.address_answer
    network_renderer_contain.Py.Ip.Parse.ip_address network_renderer_contain.Dns.encode_name
    network_renderer_contain.Dns.Answer.answer_header network_renderer_contain.Dns.Answer.resources
    network_renderer_contain.Dns.Answer.to_bytes network_renderer_contain.Dns.encode_part
    network_renderer_contain.Dns.encode_parts network_renderer_contain.Dns.split_dots
    network_renderer_contain.Py.Text.digits network_renderer_contain.Py.Text.hex
    network_renderer_contain.Py.Text.hex_value network_renderer_contain.Py.Text.number
    network_renderer_contain.Py.Text.number_from network_renderer_contain.Py.Text.split_on
lab_answered = refl

local_answer-IsLocal_example : IsLocal local_config lab_query lab_answer
local_answer-IsLocal_example = local_answer-IsLocal local_config lab_query lab_answer lab_answered

abbrev forward_config : Fields
forward_config =
    field "forwarders" (arr (cons (str "fd00::1") (cons (str "192.0.2.53") nil)))
      (field "outgoingInterfaces" (arr (cons (str "192.0.2.1") nil)) end)

-- A forwarder that sends the query back, with a byte behind it.
abbrev echo : Forwarder
echo query family forwarder sources = ok (query ++ 255 ∷ [])

lab_forwarded : forward_udp echo forward_config lab_query v4 ≡ ok (lab_query ++ 255 ∷ [])
unfolding forward_udp local_answer network_renderer_contain.Dns.Answer.answer_question
    network_renderer_contain.Dns.parse_question network_renderer_contain.Dns.read_labels
    network_renderer_contain.Dns.Answer.answers_in network_renderer_contain.Dns.Answer.answer_of
    network_renderer_contain.Dns.Fallback.namespace_fallback_blocks
    network_renderer_contain.Dns.Fallback.blocks_in network_renderer_contain.Dns.Answer.forward
    network_renderer_contain.Dns.Answer.outgoing_sources_for_family
    network_renderer_contain.Dns.Answer.of_family_in network_renderer_contain.Py.Ip.Parse.ip_address
lab_forwarded = refl

forward_udp-IsUpstream_example :
    (local_answer forward_config lab_query ≡ ok (some (lab_query ++ 255 ∷ [])))
    ⊎ ((local_answer forward_config lab_query ≡ ok none)
        × IsUpstream echo forward_config lab_query v4 (lab_query ++ 255 ∷ []))
forward_udp-IsUpstream_example =
    forward_udp-IsUpstream echo forward_config lab_query v4 (lab_query ++ 255 ∷ []) lab_forwarded
