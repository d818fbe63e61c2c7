-- ===== src/Py/Ip/Parse/Digits.antt =====
-- The numbers that are read from the texts of addresses are in range.
use native.Mathlib.Nat.{pow-suc, pow-zero, mul_assoc, mul_comm, pow-le-pow_right, mul-le-mul_right}
use mathlib.Core.List.{reverse}
use network_renderer_contain.Prelude.{
  ℕ, suc, ◌+◌, ◌-◌, ◌*◌, ◌^◌, ◌≤◌, ◌<◌, ◌≡◌, refl, String, true, Option, none, some, List, [], ◌∷◌,
  ap, sym, ◌∙◌, arith, length, Option-cases, inl, inr, ◌==◌, Bool-cases, nat_beq_iff, nat_eq,
}
use network_renderer_contain.Py.Text.{codes, number_from, number, hex_value, split_on}
use network_renderer_contain.Py.Ip.Laws.{pow-add}
use network_renderer_contain.Py.Ip.Parse.{
  ◌>>=◌, parse_octet, parse_octets, parse_v4, parse_hextet, parse_hextets, parse_v6, pow16,
  join_hextets, whole_hextets, skipped_hextets, embed_v4, split_skip, drop_edge,
}

-- Inversion of a successful bind.
pub >>=-eq-some {ℓ κ} :
    {A : Type ℓ} {B : Type κ} (m : Option A) (f : A → Option B) {b : B}
    → (m >>= f) ≡ some b
    → (a : A) × (m ≡ some a) × (f a ≡ some b)
>>=-eq-some none f h = cc
>>=-eq-some (some a) f h = (a, refl, h)

-- A reader of digits below a base stays below the next power.
grow : (b n d k m : ℕ) → d < b → m < (n * b + d + 1) * b ^ k → m < (n + 1) * b ^ suc k
grow b n d k m lt h =
    let step : n * b + d + 1 ≤ (n + 1) * b = grind arith in
    let flat : (n + 1) * b * b ^ k ≡ (n + 1) * b ^ suc k =
      mul_assoc (n + 1) b (b ^ k)
      ∙ ap (λ t. (n + 1) * t) (mul_comm b (b ^ k) ∙ sym (pow-suc b k)) in
    omega (arith, mul-le-mul_right (b ^ k) step)

number_from_bad :
    (b n c : ℕ) (cs : List ℕ) (m : ℕ) → hex_value c ≡ none → number_from b n (c ∷ cs) ≡ some m → ⊥
unfolding number_from
number_from_bad b n c cs m e h = ground arith

number_from_digit :
    (b n c d : ℕ) (cs : List ℕ) (m : ℕ)
    → hex_value c ≡ some d
    → number_from b n (c ∷ cs) ≡ some m
    → (d < b) × (number_from b (n * b + d) cs ≡ some m)
unfolding number_from
number_from_digit b n c d cs m e h = (ground arith, ground arith)

number_from-lt :
    (b n : ℕ) (cs : List ℕ) (m : ℕ) → number_from b n cs ≡ some m → m < (n + 1) * b ^ length cs
unfolding number_from
number_from-lt b n [] m h = ground (arith, pow-zero b)
number_from-lt b n (c ∷ cs) m h = elim (Option-cases (hex_value c)) [
  | inl e ↦ absurd (number_from_bad b n c cs m e h)
  | inr (d, e) ↦
      let (lt, rest) = number_from_digit b n c d cs m e h in
      grow b n d (length cs) m lt (number_from-lt b (n * b + d) cs m rest)
]

octet-lt : (s : String) (m : ℕ) → parse_octet s ≡ some m → m < 256
unfolding parse_octet
octet-lt s m h = ground arith

parse_octets-lt :
    (n : ℕ) (ss : List String) (m : ℕ) → parse_octets n ss ≡ some m → m < (n + 1) * 256 ^ length ss
unfolding parse_octets
parse_octets-lt n [] m h = ground (arith, pow-zero 256)
parse_octets-lt n (s ∷ ss) m h =
    let (d, e, rest) = >>=-eq-some (parse_octet s) (λ d. parse_octets (n * 256 + d) ss) h in
    grow 256 n d (length ss) m (octet-lt s d e) (parse_octets-lt (n * 256 + d) ss m rest)

octets_of-lt : (ss : List String) (m : ℕ) → length ss ≡ 4 → parse_octets 0 ss ≡ some m → m < 2 ^ 32
octets_of-lt ss m e h = omega (arith, ap (λ k. 256 ^ k) e, parse_octets-lt 0 ss m h)

pub parse_v4-lt : (s : String) (m : ℕ) → parse_v4 s ≡ some m → m < 2 ^ 32
unfolding parse_v4
parse_v4-lt s m h = elim (Bool-cases (length (split_on b'.' s) == 4)) [
  | inl e ↦ octets_of-lt (split_on b'.' s) m ((nat_beq_iff _ _).0 e) (rw e at h)
  | inr e ↦ ground arith
]

number-lt :
    (b k : ℕ) (s : String) (m : ℕ) → 0 < b → length (codes s) ≤ k → number b s ≡ some m → m < b ^ k
unfolding number
number-lt b k s m pos le h =
    let below : m < (0 + 1) * b ^ length (codes s) =
      number_from-lt b 0 (codes s) m (ground arith) in
    omega (arith, pow-le-pow_right pos le)

parse_hextet-lt : (s : String) (m : ℕ) → parse_hextet s ≡ some m → m < 65536
unfolding parse_hextet
parse_hextet-lt s m h = number-lt 16 4 s m (omega arith) (ground arith) (ground arith)

parse_hextets-lt :
    (n : ℕ) (ss : List String) (m : ℕ)
    → parse_hextets n ss ≡ some m
    → m < (n + 1) * 65536 ^ length ss
unfolding parse_hextets
parse_hextets-lt n [] m h = ground (arith, pow-zero 65536)
parse_hextets-lt n (s ∷ ss) m h =
    let (d, e, rest) = >>=-eq-some (parse_hextet s) (λ d. parse_hextets (n * 65536 + d) ss) h in
    grow 65536 n d (length ss) m (parse_hextet-lt s d e)
      (parse_hextets-lt (n * 65536 + d) ss m rest)

whole_hextets-lt : (parts : List String) (m : ℕ) → whole_hextets parts ≡ some m → m < 2 ^ 128
unfolding whole_hextets
whole_hextets-lt parts m h = elim (Bool-cases (length parts == 8)) [
  | inl e ↦
      omega
        (arith, ap (λ k. 65536 ^ k) ((nat_beq_iff _ _).0 e), parse_hextets-lt 0 parts m (rw e at h))
  | inr e ↦ ground arith
]

-- The two groups of a skipped address, side by side.
beside : (i j a b : ℕ) → i + j < 8 → a < 65536 ^ i → b < 65536 ^ j → a * pow16 (8 - i) + b < 2 ^ 128
unfolding pow16
beside i j a b le ha hb =
    let t = 65536 ^ (8 - i) in
    let all_eight : i + (8 - i) ≡ 8 = omega arith in
    let square : 65536 ^ i * t ≡ 65536 ^ 8 =
      sym (pow-add 65536 i (8 - i)) ∙ ap (λ k. 65536 ^ k) all_eight in
    let low : 65536 ^ j ≤ t = pow-le-pow_right (omega arith) (omega arith) in
    omega (arith, mul-le-mul_right t ha)

join_hextets-lt : (hi lo : List String) (m : ℕ) → join_hextets hi lo ≡ some m → m < 2 ^ 128
unfolding join_hextets
join_hextets-lt hi lo m h = elim (Option-cases (parse_hextets 0 hi)) [
  | inl e ↦ ground arith
  | inr (a, e) ↦ elim (Option-cases (parse_hextets 0 lo)) [
    | inl e' ↦ ground arith
    | inr (b, e') ↦ ground (
      arith,
      beside (length hi) (length lo) a b,
      parse_hextets-lt 0 hi a e,
      parse_hextets-lt 0 lo b e',
    )
  ]
]

skipped_hextets-lt :
    (high low : List String) (m : ℕ) → skipped_hextets high low ≡ some m → m < 2 ^ 128
unfolding skipped_hextets
skipped_hextets-lt high low m h = elim (Option-cases (drop_edge high)) [
  | inl e ↦ ground arith
  | inr (hi, e) ↦ elim (Option-cases (drop_edge (reverse low))) [
    | inl e' ↦ ground arith
    | inr (back, e') ↦ join_hextets-lt hi (reverse back) m (ground arith)
  ]
]

halves-lt :
    (parts high : List String) (low : Option (List String)) (m : ℕ)
    → elim low [ none ↦ whole_hextets parts | some hs ↦ skipped_hextets high hs ] ≡ some m
    → m < 2 ^ 128
halves-lt parts high none m h = whole_hextets-lt parts m h
halves-lt parts high (some low) m h = skipped_hextets-lt high low m h

pub parse_v6-lt : (s : String) (m : ℕ) → parse_v6 s ≡ some m → m < 2 ^ 128
unfolding parse_v6
parse_v6-lt s m h = elim (Option-cases (embed_v4 (split_on b':' s))) [
  | inl e ↦ ground arith
  | inr (parts, e) ↦ elim (Option-cases (split_skip true parts)) [
    | inl e' ↦ ground arith
    | inr ((high, low), e') ↦ halves-lt parts high low m (ground arith)
  ]
]
