-- ===== src/Dns/Answer/Wire.antt =====
-- The bytes of a question are read again as that question, whatever stands before and behind them.
use mathlib.Core.List.{append_assoc}
use network_renderer_contain.Prelude.{
  ℕ, zero, suc, ◌-◌, ◌≤◌, ◌≡◌, ◌≢◌, refl, ap, sym, ◌∙◌, true, false, none, some, some_inj, List, [],
  ◌∷◌, ◌++◌, ◌==◌, nat_eq, ltb, length, length-append, length-take, is_nil, take, drop, take-append,
  drop-append, arith, Bool-cases, Option-cases, inl, inr,
}
use network_renderer_contain.Dns.{
  Bytes, Labels, decode_label, bad_size, read_labels, Question, question_of, parse_question,
}
use network_renderer_contain.Dns.Questions.{question_slice}

take-append-drop : (n : ℕ) (bytes : Bytes) → bytes ≡ take n bytes ++ drop n bytes
take-append-drop zero bytes = refl
take-append-drop (suc n) [] = refl
take-append-drop (suc n) (b ∷ bytes) = ap (λ bs. b ∷ bs) (take-append-drop n bytes)

-- The bytes that the labels are read from: they are read again with other bytes behind them.
pub record IsRead (bytes : Bytes) (l : Labels) : Type 0 where
  pub used : Bytes
  pub whole : bytes ≡ used ++ l.rest
  pub again :
      (fuel : ℕ) (more : Bytes)
      → length used ≤ fuel
      → read_labels fuel (used ++ more) ≡ some (record { labels = l.labels; rest = more })

read_zero :
    (fuel size : ℕ) (more : Bytes)
    → (size == 0) ≡ true
    → 1 ≤ fuel
    → read_labels fuel (size ∷ more) ≡ some (record { labels = []; rest = more })
unfolding read_labels
read_zero zero size more z k = absurd (omega (arith, k))
read_zero (suc fuel) size more z k = rw z refl

end_of_name :
    (size : ℕ) (bytes : Bytes)
    → (size == 0) ≡ true
    → IsRead (size ∷ bytes) (record { labels = []; rest = bytes })
end_of_name size bytes z = record {
  used = size ∷ [];
  whole = refl;
  again = λ fuel more k. read_zero fuel size more z k;
}

fits : (size : ℕ) (bytes : Bytes) → bad_size size bytes ≡ false → size ≤ length bytes
fits size bytes h = ground (arith, h)

still_fits :
    (size : ℕ) (bytes others : Bytes)
    → bad_size size bytes ≡ false
    → size ≤ length others
    → bad_size size others ≡ false
still_fits size bytes others h k = ground (arith, h, k)

read_label :
    (fuel size : ℕ) (label rest : Bytes) (labels : List Bytes) (more : Bytes)
    → (size == 0) ≡ false
    → length label ≡ size
    → bad_size size (label ++ rest) ≡ false
    → ((f : ℕ) → suc f ≡ fuel → read_labels f rest ≡ some (record { labels = labels; rest = more }))
    → 1 ≤ fuel
    → read_labels fuel (size ∷ (label ++ rest))
      ≡ some (record { labels = decode_label label ∷ labels; rest = more })
unfolding read_labels
read_label zero size label rest labels more filled full good ih k = absurd (omega (arith, k))
read_label (suc fuel) size label rest labels more filled full good ih k =
    let taken : take size (label ++ rest) ≡ label =
      ap (λ n. take n (label ++ rest)) (sym full) ∙ take-append label rest in
    let dropped : drop size (label ++ rest) ≡ rest =
      ap (λ n. drop n (label ++ rest)) (sym full) ∙ drop-append label rest in
    rw (taken, dropped, ih fuel refl, good, filled) refl

one_label :
    (size : ℕ) (bytes : Bytes) (l : Labels)
    → (size == 0) ≡ false
    → bad_size size bytes ≡ false
    → IsRead (drop size bytes) l
    → IsRead
        (size ∷ bytes)
        (record { labels = decode_label (take size bytes) ∷ l.labels; rest = l.rest })
one_label size bytes l filled good r =
    let label = take size bytes in
    let full : length label ≡ size = length-take size bytes (fits size bytes good) in
    record {
      used = size ∷ (label ++ r.used);
      whole =
          ap (λ bs. size ∷ bs)
            (take-append-drop size bytes
              ∙ ap (λ bs. label ++ bs) r.whole
              ∙ sym (append_assoc label r.used l.rest));
      again = λ fuel more k. rw (append_assoc label r.used more) (
          read_label fuel size label (r.used ++ more) l.labels more filled full
            (still_fits size bytes (label ++ (r.used ++ more)) good
              (omega (arith, length-append label (r.used ++ more), full)))
            (λ f one. r.again f more (omega (arith, one, k, length-append label r.used)))
            (omega (arith, k)));
    }

not_none : (l : Labels) → none ≢ some l
not_none l e = cc

no_question : (q : Question) → none ≢ some q
no_question q e = cc

not_empty : true ≢ false
not_empty = λ e. cc

pub read_labels-IsRead :
    (fuel : ℕ) (bytes : Bytes) (l : Labels)
    → read_labels fuel bytes ≡ some l
    → is_nil l.rest ≡ false
    → IsRead bytes l
unfolding read_labels
read_labels-IsRead fuel [] l h n =
    absurd (not_empty (ap is_nil (ap (λ x. x.rest) (some_inj _ _ h)) ∙ n))
read_labels-IsRead zero (size ∷ bytes) l h n = cc
read_labels-IsRead (suc fuel) (size ∷ bytes) l h n = elim (Bool-cases (size == 0)) [
  | inl z ↦ rw (some_inj _ _ (rw z at h)) at (end_of_name size bytes z)
  | inr filled ↦ elim (Bool-cases (bad_size size bytes)) [
    | inl bad ↦ absurd (not_none l (rw (filled, bad) at h))
    | inr good ↦ elim (Option-cases (read_labels fuel (drop size bytes))) [
      | inl missing ↦ absurd (not_none l (rw (filled, good, missing) at h))
      | inr (m, found) ↦
          let same = some_inj _ _ (rw (filled, good, found) at h) in
          let ih =
            read_labels-IsRead fuel (drop size bytes) m found (ap (λ x. is_nil x.rest) same ∙ n) in
          rw same at (one_label size bytes m filled good ih)
    ]
  ]
]

-- A question that is read from some bytes, with the rest of them.
question_of-again :
    (body used rest more : Bytes) (labels : List Bytes) (q : Question)
    → body ≡ used ++ rest
    → question_of body labels rest ≡ some q
    → (four : Bytes) × (q.wire ≡ used ++ four)
      × (question_of (used ++ (four ++ more)) labels (four ++ more) ≡ some q)
question_of-again body used (a ∷ (b ∷ (c ∷ (d ∷ rest)))) more labels q whole h =
    let four : Bytes = a ∷ (b ∷ (c ∷ (d ∷ []))) in
    let same = some_inj _ _ h in
    let wire = ap (λ x. take (length x - length rest) x) whole ∙ question_slice used rest a b c d in
    (four, sym (ap (λ x. x.wire) same) ∙ wire, rw (question_slice used more a b c d) (rw wire at h))
question_of-again body used [] more labels q whole h = cc
question_of-again body used (a ∷ []) more labels q whole h = cc
question_of-again body used (a ∷ (b ∷ [])) more labels q whole h = cc
question_of-again body used (a ∷ (b ∷ (c ∷ []))) more labels q whole h = cc

rest_filled :
    (body : Bytes) (labels : List Bytes) (rest : Bytes) (q : Question)
    → question_of body labels rest ≡ some q
    → is_nil rest ≡ false
rest_filled body labels [] q h = cc
rest_filled body labels (b ∷ rest) q h = refl

-- The question of a query stands in its bytes: they are parsed to it again behind any twelve bytes.
pub parse_question-again :
    (query header more : Bytes) (q : Question)
    → parse_question query ≡ some q
    → length header ≡ 12
    → parse_question (header ++ (q.wire ++ more)) ≡ some q
unfolding parse_question
parse_question-again query header more q h twelve = elim (Bool-cases (ltb (length query) 12)) [
  | inl short ↦ absurd (no_question q (rw short at h))
  | inr long ↦ elim (Option-cases (read_labels (length (drop 12 query)) (drop 12 query))) [
    | inl missing ↦ absurd (no_question q (rw (long, missing) at h))
    | inr (l, found) ↦
        let is_q = rw (long, found) at h in
        let r =
          read_labels-IsRead _ (drop 12 query) l found (rest_filled _ l.labels l.rest q is_q) in
        let (four, wire, again) =
          question_of-again (drop 12 query) r.used l.rest more l.labels q r.whole is_q in
        let body = r.used ++ (four ++ more) in
        let bytes : q.wire ++ more ≡ body =
          ap (λ bs. bs ++ more) wire ∙ append_assoc r.used four more in
        let dropped : drop 12 (header ++ body) ≡ body =
          ap (λ n. drop n (header ++ body)) (sym twelve) ∙ drop-append header body in
        let big : ltb (length (header ++ body)) 12 ≡ false =
          ground (arith, length-append header body, twelve) in
        let read =
          r.again (length body) (four ++ more)
            (omega (arith, length-append r.used (four ++ more))) in
        rw bytes (rw (big, dropped, read) again)
  ]
]
