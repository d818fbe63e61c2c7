-- ===== src/Dns/Questions.antt =====
-- A question that holds an encoded name is read back as that name.
use mathlib.Core.List.{append_assoc, append-nil}
use network_renderer_contain.Prelude.{
  ℕ, zero, suc, ◌+◌, ◌-◌, ◌*◌, ◌<◌, ◌≡◌, ◌≢◌, refl, ap, sym, ◌∙◌, true, false, some, List, [], ◌∷◌,
  ◌++◌, map, ◌==◌, nat_eq, ltb, length, length-append, keep, all, All, is_nil, take, drop,
  take-append, drop-append, arith, nat_beq_iff,
}
use network_renderer_contain.Py.Result.{ok}
use network_renderer_contain.Dns.{
  Bytes, dot, rstrip_dots, push_code, split_dots, encode_part, encode_parts, encode_name,
  lower_code, decode_label, bad_size, read_labels, dotted, parse_question,
}

-- A label of a name: ASCII without a dot, of 1 to 63 characters.
pub record IsLabel (label : Bytes) : Type 0 where
  pub filled : is_nil label ≡ false
  pub short : length label < 64
  pub ascii : All (λ c. c < 128) label
  pub undotted : All (λ c. c ≢ dot) label

-- The labels with their sizes, and the final zero.
pub wire_of : List Bytes → Bytes
wire_of [] = 0 ∷ []
wire_of (label ∷ labels) = (length label ∷ label) ++ wire_of labels

all_ascii : (xs : Bytes) → All (λ c. c < 128) xs → all (λ c. ltb c 128) xs ≡ true
all_ascii [] h = refl
all_ascii (x ∷ xs) (h, hs) = rw (all_ascii xs hs) (ground (arith, h))

ascii_kept : (xs : Bytes) → All (λ c. c < 128) xs → keep (λ c. ltb c 128) xs ≡ xs
ascii_kept [] h = refl
ascii_kept (x ∷ xs) (h, hs) = rw (ascii_kept xs hs) (ground (arith, h))

decode_ascii : (label : Bytes) → IsLabel label → decode_label label ≡ map lower_code label
unfolding decode_label
decode_ascii label l = ap (λ cs. map lower_code cs) (ascii_kept label l.ascii)

filled_size : (label : Bytes) → is_nil label ≡ false → 0 < length label
filled_size [] h = cc
filled_size (c ∷ cs) h = omega arith

other_code : (c : ℕ) → c ≢ dot → (c == dot) ≡ false
other_code c h = ground (arith, h, nat_beq_iff c dot)

pub positive_test : (n : ℕ) → 0 < n → (n == 0) ≡ false
positive_test n h = ground arith

good_size : (label more : Bytes) → IsLabel label → bad_size (length label) (label ++ more) ≡ false
good_size label more l = ground (arith, l.short, length-append label more)

read_labels-wire_of :
    (fuel : ℕ) (labels : List Bytes) (more : Bytes)
    → All IsLabel labels
    → length labels < fuel
    → read_labels fuel (wire_of labels ++ more)
      ≡ some (record { labels = map (λ l. map lower_code l) labels; rest = more })
unfolding read_labels wire_of
read_labels-wire_of zero labels more h k = absurd (omega (arith, k))
read_labels-wire_of (suc fuel) [] more h k = refl
read_labels-wire_of (suc fuel) (label ∷ labels) more (l, ls) k =
    let rest = wire_of labels ++ more in
    let size = filled_size label l.filled in
    let ih = read_labels-wire_of fuel labels more ls (omega (arith, k)) in
    let whole : (label ++ wire_of labels) ++ more ≡ label ++ rest =
      append_assoc label (wire_of labels) more in
    rw whole (
      rw
        (
          take-append label rest,
          drop-append label rest,
          good_size label rest l,
          ih,
          decode_ascii label l,
        )
        (rw (positive_test (length label) size) refl))

encode_label : (label : Bytes) → IsLabel label → encode_part label ≡ ok (length label ∷ label)
unfolding encode_part
encode_label label l = rw (all_ascii label l.ascii) (ground (arith, l.short))

encode_labels :
    (labels : List Bytes) → All IsLabel labels → encode_parts labels ≡ ok (wire_of labels)
unfolding encode_parts wire_of
encode_labels [] h = refl
encode_labels (label ∷ labels) (l, ls) = rw (encode_label label l, encode_labels labels ls) refl

rstrip_label :
    (label rest : Bytes)
    → All (λ c. c ≢ dot) label
    → rstrip_dots (label ++ rest) ≡ label ++ rstrip_dots rest
unfolding rstrip_dots
rstrip_label [] rest h = refl
rstrip_label (c ∷ cs) rest (h, hs) =
    rw (rstrip_label cs rest hs) (ground (arith, h, nat_beq_iff c dot))

-- The labels with dots between them.
joined : Bytes → List Bytes → Bytes
joined label [] = label
joined label (l ∷ ls) = label ++ dot ∷ joined l ls

joined_filled :
    (label : Bytes) (labels : List Bytes)
    → is_nil label ≡ false
    → is_nil (joined label labels) ≡ false
unfolding joined
joined_filled [] labels h = cc
joined_filled (c ∷ cs) [] h = refl
joined_filled (c ∷ cs) (l ∷ ls) h = refl

rstrip_dotted :
    (label : Bytes) (labels : List Bytes)
    → All IsLabel (label ∷ labels)
    → rstrip_dots (dotted (label ∷ labels)) ≡ joined label labels
unfolding dotted joined rstrip_dots
rstrip_dotted label [] (l, ls) = rstrip_label label (dot ∷ []) l.undotted ∙ append-nil label
rstrip_dotted label (next ∷ labels) (l, ls) =
    rstrip_label label (dot ∷ dotted (next ∷ labels)) l.undotted
    ∙ ap (λ cs. label ++ cs)
        (rw (rstrip_dotted next labels ls) (rw (joined_filled next labels ls.0.filled) refl))

-- A text before the first of some parts.
prepend : Bytes → List Bytes → List Bytes
prepend [] parts = parts
prepend (c ∷ cs) parts = push_code c (prepend cs parts)

prepend_part : (label : Bytes) (parts : List Bytes) → prepend label ([] ∷ parts) ≡ label ∷ parts
unfolding prepend
prepend_part [] parts = refl
prepend_part (c ∷ cs) parts = rw (prepend_part cs parts) refl

split_label :
    (label rest : Bytes)
    → All (λ c. c ≢ dot) label
    → split_dots (label ++ rest) ≡ prepend label (split_dots rest)
unfolding split_dots prepend
split_label [] rest h = refl
split_label (c ∷ cs) rest (h, hs) = rw (split_label cs rest hs) (rw (other_code c h) refl)

split_joined :
    (label : Bytes) (labels : List Bytes)
    → All IsLabel (label ∷ labels)
    → split_dots (joined label labels) ≡ label ∷ labels
unfolding joined split_dots
split_joined label [] (l, ls) =
    ap split_dots (sym (append-nil label)) ∙ split_label label [] l.undotted ∙ prepend_part label []
split_joined label (next ∷ labels) (l, ls) =
    split_label label (dot ∷ joined next labels) l.undotted
    ∙ prepend_part label (split_dots (joined next labels))
    ∙ ap (λ parts. label ∷ parts) (split_joined next labels ls)

-- The name that ends in a dot is encoded as its labels.
encode_name-dotted :
    (label : Bytes) (labels : List Bytes)
    → All IsLabel (label ∷ labels)
    → encode_name (dotted (label ∷ labels)) ≡ ok (wire_of (label ∷ labels))
unfolding encode_name
encode_name-dotted label labels h =
    rw (rstrip_dotted label labels h, joined_filled label labels h.0.filled)
      (ap encode_parts (split_joined label labels h) ∙ encode_labels (label ∷ labels) h)

enough : (labels : List Bytes) → length labels < length (wire_of labels)
unfolding wire_of
enough [] = omega arith
enough (label ∷ labels) = omega (arith, enough labels, length-append label (wire_of labels))

-- The bytes up to the end of the two numbers.
pub question_slice :
    (wire more : Bytes) (a b c d : ℕ)
    → take
        (length (wire ++ a ∷ (b ∷ (c ∷ (d ∷ more)))) - length more)
        (wire ++ a ∷ (b ∷ (c ∷ (d ∷ more))))
      ≡ wire ++ a ∷ (b ∷ (c ∷ (d ∷ [])))
question_slice wire more a b c d =
    let four : Bytes = a ∷ (b ∷ (c ∷ (d ∷ []))) in
    let whole : (wire ++ four) ++ more ≡ wire ++ (four ++ more) = append_assoc wire four more in
    let size : length (wire ++ (four ++ more)) - length more ≡ length (wire ++ four) =
      omega (arith, length-append wire (four ++ more), length-append wire four) in
    ap (λ n. take n (wire ++ (four ++ more))) size
    ∙ ap (λ bs. take (length (wire ++ four)) bs) (sym whole)
    ∙ take-append (wire ++ four) more

-- A name of labels (ASCII without a dot, 1 to 63 characters each) has an encoding, and a message
-- with 12 bytes before it and two numbers of two bytes behind it is parsed to the name in lower
-- case, the two numbers and the bytes of the name and the numbers.
pub parse_question-encode_name :
    (label : Bytes) (labels : List Bytes) (header more : Bytes) (a b c d : ℕ)
    → All IsLabel (label ∷ labels)
    → length header ≡ 12
    → (wire : Bytes) × (encode_name (dotted (label ∷ labels)) ≡ ok wire)
      × (parse_question (header ++ (wire ++ a ∷ (b ∷ (c ∷ (d ∷ more)))))
          ≡ some (record {
            name = dotted (map (λ l. map lower_code l) (label ∷ labels));
            type = a * 256 + b;
            class = c * 256 + d;
            wire = wire ++ a ∷ (b ∷ (c ∷ (d ∷ [])));
          }))
unfolding parse_question
parse_question-encode_name label labels header more a b c d h twelve =
    let wire = wire_of (label ∷ labels) in
    let four : Bytes = a ∷ (b ∷ (c ∷ (d ∷ []))) in
    let tail : Bytes = a ∷ (b ∷ (c ∷ (d ∷ more))) in
    let body = wire ++ tail in
    let dropped : drop 12 (header ++ body) ≡ body =
      ap (λ n. drop n (header ++ body)) (sym twelve) ∙ drop-append header body in
    let read =
      read_labels-wire_of (length body) (label ∷ labels) tail h
        (omega (arith, enough (label ∷ labels), length-append wire tail)) in
    let long : ltb (length (header ++ body)) 12 ≡ false =
      ground (arith, length-append header body, twelve) in
    (
      wire,
      encode_name-dotted label labels h,
      rw (long, dropped, read) (rw (question_slice wire more a b c d) refl),
    )
