-- ===== src/Py/Text/Laws.antt =====
-- The fuel that a number is printed with is enough.
use network_renderer_contain.Prelude.{
  ℕ, zero, suc, ◌+◌, ◌/◌, ◌≤◌, ◌<◌, String, ◌≡◌, ◌≢◌, refl, ap, ◌∙◌, arith, nat_eq, ◌==◌,
  Bool-cases, inl, inr, nat_beq_iff,
}
use network_renderer_contain.Py.Text.{digits}

module _ (base : ℕ) (smaller : (n : ℕ) → n ≢ 0 → n / base < n) where
  one_more :
      (fuel n : ℕ) (out : String) → n ≤ fuel → digits base (suc fuel) n out ≡ digits base fuel n out
  unfolding digits
  one_more zero n out h = ground arith
  one_more (suc fuel) n out h = elim (Bool-cases (n == 0)) [
    | inl none_left ↦ rw none_left refl
    | inr some_left ↦
        let less = smaller n (λ e. ground (arith, nat_beq_iff n 0, e, some_left)) in
        rw some_left (one_more fuel (n / base) _ (omega arith))
  ]

  -- With more fuel than the number's own value, the same digits are printed.
  pub digits_enough :
      (extra n : ℕ) (out : String) → digits base (extra + n) n out ≡ digits base n n out
  digits_enough zero n out = ap (λ f. digits base f n out) (omega arith)
  digits_enough (suc extra) n out =
      let step : suc extra + n ≡ suc (extra + n) = omega arith in
      ap (λ f. digits base f n out) step
      ∙ one_more (extra + n) n out (omega arith)
      ∙ digits_enough extra n out

-- The two bases that are printed.
dec_smaller : (n : ℕ) → n ≢ 0 → n / 10 < n
dec_smaller n h = omega (arith, h)

hex_smaller : (n : ℕ) → n ≢ 0 → n / 16 < n
hex_smaller n h = omega (arith, h)

dec_enough : (extra n : ℕ) (out : String) → digits 10 (extra + n) n out ≡ digits 10 n n out
dec_enough = digits_enough 10 dec_smaller

hex_enough : (extra n : ℕ) (out : String) → digits 16 (extra + n) n out ≡ digits 16 n n out
hex_enough = digits_enough 16 hex_smaller
