-- ===== src/Dns/Fallback/Laws.antt =====
-- A failure answer carries the question of its query.
use network_renderer_contain.Prelude.{
  ℕ, ◌≤◌, ◌≡◌, refl, ap, sym, ◌∙◌, true, false, [], ◌∷◌, ◌++◌, ltb, length, length-append,
  length-take, length-drop, take, drop, drop-append, arith, Bool-cases, inl, inr,
}
use network_renderer_contain.Dns.{Bytes, parse_question}
use network_renderer_contain.Dns.Fallback.{servfail}

not_short : (n : ℕ) → ltb n 12 ≡ false → 12 ≤ n
not_short n h = ground (arith, h)

module _ (query : Bytes) (long : ltb (length query) 12 ≡ false) where
  header : Bytes
  header =
      take 2 query
      ++ (129 ∷ (130 ∷ []))
      ++ (take 2 (drop 4 query) ++ (0 ∷ (0 ∷ (0 ∷ (0 ∷ (0 ∷ (0 ∷ [])))))))

  servfail_long : servfail query ≡ header ++ drop 12 query
  unfolding servfail header
  servfail_long = rw long refl

  header_size : length header ≡ 12
  unfolding header
  header_size =
      let big = not_short (length query) long in
      omega (
        arith,
        length-append (take 2 query ++ (129 ∷ (130 ∷ [])))
            (take 2 (drop 4 query) ++ (0 ∷ (0 ∷ (0 ∷ (0 ∷ (0 ∷ (0 ∷ []))))))),
        length-append (take 2 query) (129 ∷ (130 ∷ [])),
        length-append (take 2 (drop 4 query)) (0 ∷ (0 ∷ (0 ∷ (0 ∷ (0 ∷ (0 ∷ [])))))),
        length-append (129 ∷ (130 ∷ []))
            (take 2 (drop 4 query) ++ (0 ∷ (0 ∷ (0 ∷ (0 ∷ (0 ∷ (0 ∷ []))))))),
        length-append (take 2 query) (
            (129 ∷ (130 ∷ []))
            ++ (take 2 (drop 4 query) ++ (0 ∷ (0 ∷ (0 ∷ (0 ∷ (0 ∷ (0 ∷ [])))))))),
        length-take 2 query (omega arith),
        length-take 2 (drop 4 query) (omega (arith, length-drop 4 query)),
      )

  servfail_rest : drop 12 (servfail query) ≡ drop 12 query
  servfail_rest =
      ap (drop 12) servfail_long
      ∙ ap (λ n. drop n (header ++ drop 12 query)) (sym header_size)
      ∙ drop-append header (drop 12 query)

  length-servfail : length (servfail query) ≡ length query
  length-servfail =
      ap length servfail_long
      ∙ omega (
        arith,
        length-append header (drop 12 query),
        header_size,
        length-drop 12 query,
        not_short (length query) long,
      )

servfail_short : (query : Bytes) → ltb (length query) 12 ≡ true → servfail query ≡ query
unfolding servfail
servfail_short query short = rw short refl

-- A failure answer is as long as the query that it answers, and is parsed to the same question.
pub parse_question-servfail :
    (query : Bytes)
    → (parse_question (servfail query) ≡ parse_question query)
      × (length (servfail query) ≡ length query)
unfolding parse_question
parse_question-servfail query = elim (Bool-cases (ltb (length query) 12)) [
  | inl short ↦
      (ap parse_question (servfail_short query short), ap length (servfail_short query short))
  | inr long ↦
      (rw (length-servfail query long, servfail_rest query long) refl, length-servfail query long)
]
