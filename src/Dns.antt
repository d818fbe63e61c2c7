-- ===== src/Dns.antt =====
-- clabgen/s88/CM/dns_proxy_protocol.py: the names and the questions of DNS messages. A text is the
-- list of its characters' codes, a message the list of its bytes.
pub mod Questions
pub mod Fallback
pub mod Answer
use network_renderer_contain.Prelude.{
  ℕ, zero, suc, ◌+◌, ◌-◌, ◌*◌, ◌/◌, ◌%◌, Bool, true, false, ◌&&◌, ◌||◌, not, Option, none, some,
  List, [], ◌∷◌, ◌++◌, map, ◌==◌, nat_eq, if◌then◌else◌, leb, ltb, length, keep, all, is_nil, take,
  drop,
}
use network_renderer_contain.Py.Result.{Result, ok, err, value_error, ◌>>=◌, ◌>>◌, require}

abbrev pub Bytes : Type 0
Bytes = List ℕ

-- The code of ".".
abbrev pub dot : ℕ
dot = 46

-- `name.rstrip(".")`
unfoldable pub rstrip_dots : Bytes → Bytes
rstrip_dots [] = []
rstrip_dots (c ∷ cs) = let rest = rstrip_dots cs in if is_nil rest && c == dot then [] else c ∷ rest

abbrev pub push_code : ℕ → List Bytes → List Bytes
push_code c [] = (c ∷ []) ∷ []
push_code c (part ∷ parts) = (c ∷ part) ∷ parts

-- `name.split(".")`
unfoldable pub split_dots : Bytes → List Bytes
split_dots [] = [] ∷ []
split_dots (c ∷ cs) = let rest = split_dots cs in if c == dot then [] ∷ rest else push_code c rest

-- `bytes([len(part)]) + part.encode("ascii")`
unfoldable pub encode_part : Bytes → Result Bytes
encode_part part = do
  require (ltb (length part) 256) (value_error "bytes must be in range(0, 256)")
  require (all (λ c. ltb c 128) part) (value_error "ordinal not in range(128)")
  ok (length part ∷ part)

unfoldable pub encode_parts : List Bytes → Result Bytes
encode_parts [] = ok (0 ∷ [])
encode_parts (part ∷ parts) = do
  wire ← encode_part part
  rest ← encode_parts parts
  ok (wire ++ rest)

unfoldable pub encode_name : Bytes → Result Bytes
encode_name name =
    if is_nil (rstrip_dots name) then ok (0 ∷ []) else encode_parts (split_dots (rstrip_dots name))

abbrev pub lower_code : ℕ → ℕ
lower_code c = if leb 65 c && leb c 90 then c + 32 else c

-- `data.decode("ascii", "ignore").lower()`
unfoldable pub decode_label : Bytes → Bytes
decode_label bytes = map lower_code (keep (λ c. ltb c 128) bytes)

-- The labels of a name, and what stands behind it.
pub record Labels : Type 0 where
  pub labels : List Bytes
  pub rest : Bytes

abbrev pub add_label : Bytes → Option Labels → Option Labels
add_label label none = none
add_label label (some l) = some (record { labels = label ∷ l.labels; rest = l.rest })

-- A size byte with one of its two high bits, or beyond the end of the message, is refused.
abbrev pub bad_size : ℕ → Bytes → Bool
bad_size size bytes = not (size / 64 % 4 == 0) || ltb (length bytes) size

-- The loop over the labels. Each one takes a byte or more, so that as much fuel as there are bytes
-- is enough.
unfoldable pub read_labels : ℕ → Bytes → Option Labels
read_labels fuel [] = some (record { labels = []; rest = [] })
read_labels zero (size ∷ bytes) = none
read_labels (suc fuel) (size ∷ bytes) =
    let more = add_label (decode_label (take size bytes)) (read_labels fuel (drop size bytes)) in
    if size == 0
    then some (record { labels = []; rest = bytes })
    else if bad_size size bytes
    then none
    else more

pub record Question : Type 0 where
  pub name : Bytes
  pub type : ℕ
  pub class : ℕ
  pub wire : Bytes

-- `".".join(labels) + "."`
unfoldable pub dotted : List Bytes → Bytes
dotted [] = dot ∷ []
dotted (label ∷ []) = label ++ dot ∷ []
dotted (label ∷ (l ∷ ls)) = label ++ dot ∷ dotted (l ∷ ls)

abbrev pub question_of : Bytes → List Bytes → Bytes → Option Question
question_of body labels (a ∷ (b ∷ (c ∷ (d ∷ rest)))) = some (record {
  name = dotted labels;
  type = a * 256 + b;
  class = c * 256 + d;
  wire = take (length body - length rest) body;
})
question_of body labels _ = none

abbrev pub question_at : Bytes → Option Labels → Option Question
question_at body none = none
question_at body (some l) = question_of body l.labels l.rest

unfoldable pub parse_question : Bytes → Option Question
parse_question query =
    let body = drop 12 query in
    if ltb (length query) 12 then none else question_at body (read_labels (length body) body)
