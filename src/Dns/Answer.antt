-- ===== src/Dns/Answer.antt =====
-- The answers from local records, and the choice between them, a failure and a forwarder, of
-- clabgen/s88/CM/dns_proxy_protocol.py. `inet_pton` takes the texts that `ip_address` takes.
pub mod Wire
pub mod Served
pub mod Laws
pub mod Replies
use network_renderer_contain.Prelude.{
  ℕ, zero, suc, ◌+◌, ◌*◌, ◌/◌, ◌%◌, ◌^◌, String, Bool, true, false, ◌&&◌, ◌||◌, Option, none, some,
  List, [], ◌∷◌, ◌++◌, ◌==◌, nat_eq, if◌then◌else◌, ltb, length, take, drop,
}
use network_renderer_contain.Py.Value.{Value, str, arr, nil, Fields, get_or, as_str, as_dict}
use network_renderer_contain.Py.Result.{
  Result, ok, err, attribute_error, struct_error, ◌>>=◌, ◌>>◌, require, or_raise,
}
use network_renderer_contain.Py.Iterate.{iterate}
use network_renderer_contain.Py.Repr.{show}
use network_renderer_contain.Py.Ip.{Family, v4, v6, same_family, Address}
use network_renderer_contain.Py.Ip.Parse.{ip_address}
use network_renderer_contain.Dns.{Bytes, encode_name, Question, parse_question}
use network_renderer_contain.Dns.Fallback.{
  canonical_name, same_bytes, servfail, namespace_fallback_blocks,
}

-- The lowest bytes of a number, the highest one first.
unfoldable pub to_bytes : ℕ → ℕ → Bytes
to_bytes zero n = []
to_bytes (suc k) n = n / 256 ^ k % 256 ∷ to_bytes k n

pub record Answer : Type 0 where
  pub type : ℕ
  pub address : Bytes

abbrev pub type_of : Family → ℕ
type_of v4 = 1
type_of v6 = 28

abbrev pub size_of : Family → ℕ
size_of v4 = 4
size_of v6 = 16

-- `socket.inet_pton`
abbrev pub packed : Family → Option Address → Option Bytes
packed family none = none
packed family (some a) =
    if same_family a.family family then some (to_bytes (size_of family) a.number) else none

abbrev pub one_answer : Family → Option Bytes → List Answer
one_answer family none = []
one_answer family (some address) = record { type = type_of family; address = address } ∷ []

abbrev pub text_answer : Family → Option String → List Answer
text_answer family none = []
text_answer family (some s) = one_answer family (packed family (ip_address s))

-- `add_address_answer`
unfoldable pub address_answer : Family → Value → List Answer
address_answer family v = text_answer family (as_str v)

unfoldable pub address_answers : Family → List Value → List Answer
address_answers family [] = []
address_answers family (v ∷ vs) = address_answer family v ++ address_answers family vs

abbrev pub is_asked : Family → ℕ → Bool
is_asked family query_type = query_type == type_of family || query_type == 255

unfoldable pub family_answers : Family → ℕ → Value → Result (List Answer)
family_answers family query_type v =
    if is_asked family query_type
    then (do vs ← iterate v; ok (address_answers family vs))
    else ok []

-- `add_record_answers`
unfoldable pub record_answers : ℕ → Fields → Result (List Answer)
record_answers query_type fields = do
  four ← family_answers v4 query_type (get_or (arr nil) "a" fields)
  six ← family_answers v6 query_type (get_or (arr nil) "aaaa" fields)
  ok (four ++ six)

abbrev pub record_name : Fields → Bytes
record_name fields = canonical_name (show (get_or (str "") "name" fields))

-- The body of the loop over the records.
unfoldable pub answers_of : Question → Value → Result (List Answer)
answers_of q v = do
  fields ← or_raise (attribute_error "object has no attribute 'get'") (as_dict v)
  if same_bytes (record_name fields) q.name then record_answers q.type fields else ok []

unfoldable pub answers_in : Question → List Value → Result (List Answer)
answers_in q [] = ok []
answers_in q (v ∷ vs) = do here ← answers_of q v; later ← answers_in q vs; ok (here ++ later)

-- A resource record: name, type, class, 60 seconds, and the address with its size.
abbrev pub resource : Bytes → ℕ → Answer → Bytes
resource name class a =
    name
    ++ (to_bytes 2 a.type
        ++ (to_bytes 2 class ++ (to_bytes 4 60 ++ (to_bytes 2 (length a.address) ++ a.address))))

unfoldable pub resources : Bytes → ℕ → List Answer → Bytes
resources name class [] = []
resources name class (a ∷ rest) = resource name class a ++ resources name class rest

-- The identifier, the flags, the count of the questions, that of the answers, and two zeros.
unfoldable pub answer_header : Bytes → ℕ → Bytes
answer_header query count =
    (take 2 query ++ (129 ∷ (128 ∷ [])))
    ++ (take 2 (drop 4 query) ++ (to_bytes 2 count ++ (0 ∷ (0 ∷ (0 ∷ (0 ∷ []))))))

unfoldable pub answer_of : Bytes → Question → List Answer → Result (Option Bytes)
answer_of query q [] = ok none
answer_of query q (a ∷ rest) = do
  name ← encode_name q.name
  require (ltb (length (a ∷ rest)) 65536) (struct_error "'H' format requires 0 <= number <= 65535")
  ok (
      some
        (answer_header query (length (a ∷ rest)) ++ (q.wire ++ resources name q.class (a ∷ rest))))

unfoldable pub answer_question : Fields → Bytes → Option Question → Result (Option Bytes)
answer_question config query none = ok none
answer_question config query (some q) = do
  records ← iterate (get_or (arr nil) "localRecords" config)
  answers ← answers_in q records
  answer_of query q answers

unfoldable pub local_answer : Fields → Bytes → Result (Option Bytes)
local_answer config query = answer_question config query (parse_question query)

-- `address_family(s) == family`, where a text that is no address is passed over
abbrev pub is_family : Family → String → Bool
is_family family s = elim (ip_address s) [ none ↦ false | some a ↦ same_family a.family family ]

-- The members that are texts of an address of the family.
unfoldable pub of_family_in : Family → List Value → List String
of_family_in family [] = []
of_family_in family (v ∷ vs) =
    let later = of_family_in family vs in
    elim (as_str v) [ none ↦ later | some s ↦ if is_family family s then s ∷ later else later ]

-- `outgoing_sources_for_family`
unfoldable pub outgoing_sources_for_family : Fields → Family → Result (List String)
outgoing_sources_for_family config family = do
  vs ← iterate (get_or (arr nil) "outgoingInterfaces" config)
  ok (of_family_in family vs)

-- `query_forwarder` sends the query from one of the sources and waits for the answer.
abbrev pub Forwarder : Type 0
Forwarder = Bytes → Family → String → List String → Result Bytes

abbrev pub ask_first : Forwarder → Bytes → Family → List String → List String → Result Bytes
ask_first query_forwarder query family sources [] = ok (servfail query)
ask_first query_forwarder query family sources (forwarder ∷ rest) =
    query_forwarder query family forwarder sources

unfoldable pub forward : Forwarder → Fields → Bytes → Family → Result Bytes
forward query_forwarder config query family = do
  sources ← outgoing_sources_for_family config family
  forwarders ← iterate (get_or (arr nil) "forwarders" config)
  ask_first query_forwarder query family sources (of_family_in family forwarders)

abbrev pub or_forward : Forwarder → Fields → Bytes → Family → Option Bytes → Result Bytes
or_forward query_forwarder config query family (some answer) = ok answer
or_forward query_forwarder config query family none = do
  blocked ← namespace_fallback_blocks config query
  if blocked then ok (servfail query) else forward query_forwarder config query family

unfoldable pub forward_udp : Forwarder → Fields → Bytes → Family → Result Bytes
forward_udp query_forwarder config query family = do
  answer ← local_answer config query
  or_forward query_forwarder config query family answer
