-- ===== src/Py/Ip/Laws.antt =====
-- What masking, membership and the size of a network satisfy.
use mathlib.Core.Path.{◌≡⟨◌⟩◌, ◌∎}
use native.Mathlib.Nat.{
  mul_comm, mul_assoc, mul-le-mul_right, pow-suc, pow-zero, one-le-pow, mod-lt, mod-eq_of_lt,
  div-add-mod, mul-add-mod_self_left, mul-mod_right, suc-add,
}
use network_renderer_contain.Prelude.{
  ℕ, zero, suc, ◌+◌, ◌-◌, ◌*◌, ◌/◌, ◌%◌, ◌^◌, ◌≤◌, ◌<◌, ◌≡◌, refl, sym, ap, ◌∙◌, arith, ◌↔◌, true,
  &&-eq-true, nat_beq_iff,
}
use network_renderer_contain.Py.Ip.{
  same_family, ip_of, Family, v4, v6, width, host_count, masked, Network, IsNetwork, Address,
  contains, Interface, network_of, IsInterface, num_addresses,
}

pub pow_pos : (k : ℕ) → 0 < 2 ^ k
pow_pos k = one-le-pow k 2 (omega arith)

pub pow-add : (b m n : ℕ) → b ^ (m + n) ≡ b ^ m * b ^ n
pow-add b zero n = grind (arith, pow-zero)
pow-add b (suc m) n =
    b ^ (suc m + n)
    ≡⟨ ap (λ t. b ^ t) (suc-add m n) ⟩ b ^ suc (m + n)
    ≡⟨ pow-suc b (m + n) ⟩ b ^ (m + n) * b
    ≡⟨ ap (λ t. t * b) (pow-add b m n) ⟩ b ^ m * b ^ n * b
    ≡⟨ mul_assoc (b ^ m) (b ^ n) b ⟩ b ^ m * (b ^ n * b)
    ≡⟨ ap (λ t. b ^ m * t) (mul_comm (b ^ n) b) ⟩ b ^ m * (b * b ^ n)
    ≡⟨ sym (mul_assoc (b ^ m) b (b ^ n)) ⟩ b ^ m * b * b ^ n
    ≡⟨ ap (λ t. t * b ^ n) (sym (pow-suc b m)) ⟩ b ^ suc m * b ^ n ∎

pub lt_of_mul_lt : (m a b : ℕ) → m * a < m * b → a < b
lt_of_mul_lt m a b h = grind arith

pub host_count-pos : (f : Family) (p : ℕ) → 0 < host_count f p
host_count-pos f p = pow_pos (width f - p)

pub masked-le : (f : Family) (p x : ℕ) → masked f p x ≤ x
unfolding masked
masked-le f p x = omega arith

pub masked-lt : (f : Family) (p x : ℕ) → x < masked f p x + host_count f p
unfolding masked
masked-lt f p x = omega (arith, mod-lt x (host_count-pos f p))

-- A multiple of m that differs from x by less than m is x with its remainder taken off.
pub round_unique : (m b x : ℕ) → 0 < m → b % m ≡ 0 → b ≤ x → x < b + m → x - x % m ≡ b
round_unique m b x pos al le lt =
    let q = b / m in
    let r = x - b in
    let whole : m * q ≡ b = omega (arith, div-add-mod b m) in
    let rest : (m * q + r) % m ≡ r = mul-add-mod_self_left m q r ∙ mod-eq_of_lt (omega arith) in
    let same : m * q + r ≡ x = omega arith in omega (arith, ap (λ t. t % m) same)

pub masked_aligned : (f : Family) (p x : ℕ) → masked f p x % host_count f p ≡ 0
unfolding masked
masked_aligned f p x =
    let m = host_count f p in
    let whole : x - x % m ≡ m * (x / m) = omega (arith, div-add-mod x m) in
    rw whole (mul-mod_right m (x / m))

pub same_family_iff : (f g : Family) → (same_family f g ≡ true) ↔ (f ≡ g)
same_family_iff v4 v4 = (λ _. refl, λ _. refl)
same_family_iff v4 v6 = (λ h. cc, λ h. cc)
same_family_iff v6 v4 = (λ h. cc, λ h. cc)
same_family_iff v6 v6 = (λ _. refl, λ _. refl)

-- The addresses of a network are those from its base to its broadcast address.
pub contains_of_range :
    (n : Network) (a : Address)
    → IsNetwork n
    → n.family ≡ a.family
    → n.base ≤ a.number
    → a.number < n.base + num_addresses n
    → contains n a ≡ true
unfolding contains masked
contains_of_range n a w f lo hi =
    let m = num_addresses n in
    let e = round_unique m n.base a.number (host_count-pos n.family n.prefix) w.aligned lo hi in
    rw ((same_family_iff n.family a.family).1 f) ((nat_beq_iff _ _).1 e)

pub range_of_contains :
    (n : Network) (a : Address)
    → contains n a ≡ true
    → (n.family ≡ a.family) × (n.base ≤ a.number) × (a.number < n.base + num_addresses n)
unfolding contains
range_of_contains n a h =
    let (f, e) = &&-eq-true _ _ h in
    let base = (nat_beq_iff _ _).0 e in
    let x = a.number in
    (
      (same_family_iff n.family a.family).0 f,
      omega (arith, masked-le n.family n.prefix x),
      omega (arith, masked-lt n.family n.prefix x),
    )

pub network_of-IsNetwork : (i : Interface) → IsInterface i → IsNetwork (network_of i)
unfolding network_of
network_of-IsNetwork i w = record {
  fits = omega (arith, w.fits, masked-le i.family i.prefix i.number);
  prefix_le = w.prefix_le;
  aligned = masked_aligned i.family i.prefix i.number;
}

pub network_of-contains : (i : Interface) → contains (network_of i) (ip_of i) ≡ true
unfolding contains network_of
network_of-contains i = rw ((same_family_iff i.family i.family).1 refl) ((nat_beq_iff _ _).1 refl)

-- A network ends inside the address space.
pub room : (n : Network) → IsNetwork n → n.base + num_addresses n ≤ 2 ^ width n.family
room n w =
    let m = num_addresses n in
    let q = n.base / m in
    let rows = 2 ^ n.prefix in
    let whole : m * q ≡ n.base = omega (arith, div-add-mod n.base m, w.aligned) in
    let square : rows * m ≡ 2 ^ width n.family =
      sym (pow-add 2 n.prefix (width n.family - n.prefix))
      ∙ ap (λ t. 2 ^ t) (omega (arith, w.prefix_le)) in
    let below : m * q < m * rows = omega (arith, w.fits, mul_comm m rows) in
    let row : q < rows = lt_of_mul_lt m q rows below in omega (arith, mul-le-mul_right m row)
