-- ===== src/Linux/Addressing/Hosts.antt =====
-- The other end of a point-to-point link, and the first host of a tenant's network.
use network_renderer_contain.Prelude.{
  ℕ, zero, suc, ◌-◌, ◌^◌, ◌≤◌, ◌<◌, ◌≡◌, ◌≢◌, refl, ap, ◌∙◌, true, false, some, arith, nat_eq,
  Bool-cases, inl, inr, nat_beq_iff, &&-eq-true, ◌⊎◌,
}
use network_renderer_contain.Py.Ip.{
  v4, v6, width, Address, Interface, IsInterface, Network, network_of, ip_of, contains,
  num_addresses,
}
use network_renderer_contain.Py.Ip.Laws.{network_of-contains, range_of_contains, pow_pos, pow-add}
use network_renderer_contain.Linux.Addressing.{
  nth, is_pair, other_end, p2p_address, first_usable, is_small,
}
use network_renderer_contain.Linux.Addressing.Peers.{nth_inside, family_cases, own_range}

abbrev pub at : Interface → Address → Interface
at i a = record i { number = a.number }

-- The network of another address of the network.
network_of-at :
    (i : Interface) (a : Address)
    → contains (network_of i) a ≡ true
    → network_of (at i a) ≡ network_of i
unfolding contains network_of
network_of-at i a h =
    let base = (nat_beq_iff _ _).0 (&&-eq-true _ _ h).1 in
    ap (λ (b : ℕ). record { family = i.family; base = b; prefix = i.prefix }) base

pair_v4 : (n : Network) → n.family ≡ v4 → is_pair n ≡ true → width n.family - n.prefix ≡ 1
unfolding is_pair
pair_v4 n four h = ground (arith, ap width four)

pair_v6 : (n : Network) → n.family ≡ v6 → is_pair n ≡ true → width n.family - n.prefix ≡ 1
unfolding is_pair
pair_v6 n six h = ground (arith, ap width six)

is_pair_size : (n : Network) → is_pair n ≡ true → num_addresses n ≡ 2
unfolding is_pair
is_pair_size n h = elim (family_cases n.family) [
  | inl four ↦ ap (λ k. 2 ^ k) (pair_v4 n four h)
  | inr six ↦ ap (λ k. 2 ^ k) (pair_v6 n six h)
]

other_end_cases :
    (i : Interface)
    → ((i.number ≡ (network_of i).base) × (other_end i ≡ nth (network_of i) 1))
      ⊎ ((i.number ≢ (network_of i).base) × (other_end i ≡ nth (network_of i) 0))
other_end_cases i = ground arith

family_of_network : (i : Interface) → (network_of i).family ≡ i.family
unfolding network_of
family_of_network i = refl

module _ (i : Interface) (w : IsInterface i) (pair : is_pair (network_of i) ≡ true) where
  two : num_addresses (network_of i) ≡ 2
  two = is_pair_size (network_of i) pair

  other_end_inside : contains (network_of i) (other_end i) ≡ true
  other_end_inside = elim (other_end_cases i) [
    | inl (_, e) ↦ rw e (nth_inside i w 1 (omega (arith, two)))
    | inr (_, e) ↦ rw e (nth_inside i w 0 (omega (arith, two)))
  ]

  same_network : network_of (at i (other_end i)) ≡ network_of i
  same_network = network_of-at i (other_end i) other_end_inside

  other_end_back : other_end (at i (other_end i)) ≡ ip_of i
  other_end_back =
      let base = ap (λ (n : Network). n.base) same_network in
      let family = family_of_network (at i (other_end i)) in
      let (lo, hi) = own_range i w in
      elim (other_end_cases i) [
        | inl (e, o) ↦ ground (arith, ap (λ (b : Address). b.number) o)
        | inr (e, o) ↦ ground (arith, ap (λ (b : Address). b.number) o, two)
      ]

-- Where an interface with valid bits has a point-to-point peer, the peer of that peer is the
-- interface's own address.
pub p2p_address_involution :
    (i : Interface) (a : Address)
    → IsInterface i
    → p2p_address i ≡ some a
    → p2p_address (at i a) ≡ some (ip_of i)
unfolding p2p_address
p2p_address_involution i a w h = elim (Bool-cases (is_pair (network_of i))) [
  | inr e ↦ ground arith
  | inl pair ↦
      let same : a ≡ other_end i = ground arith in
      let step : p2p_address (at i (other_end i)) ≡ some (other_end (at i (other_end i))) =
        rw (same_network i w pair, pair) in
      rw same (step ∙ ap some (other_end_back i w pair))
]

first_usable_inside :
    (i : Interface) → IsInterface i → contains (network_of i) (first_usable i) ≡ true
unfolding first_usable
first_usable_inside i w = elim (Bool-cases (is_small (network_of i))) [
  | inl small ↦ rw small (network_of-contains i)
  | inr large ↦ elim (Bool-cases (contains (network_of i) (nth (network_of i) 1))) [
    | inl inside ↦ rw (large, inside) inside
    | inr outside ↦ rw (large, outside) (network_of-contains i)
  ]
]

two_at_most : (k : ℕ) → k ≤ 1 → 2 ^ k ≤ 2
two_at_most zero h = omega arith
two_at_most (suc zero) h = omega arith
two_at_most (suc (suc k)) h = absurd (omega (arith, h))

more_than_two : (k : ℕ) → 2 ≤ k → 2 < 2 ^ k
more_than_two zero h = absurd (omega (arith, h))
more_than_two (suc zero) h = absurd (omega (arith, h))
more_than_two (suc (suc k)) h = omega (arith, pow_pos k, pow-add 2 2 k)

small_bits :
    (n : Network)
    → (n.family ≡ v4) ⊎ (n.family ≡ v6)
    → is_small n ≡ true
    → width n.family - n.prefix ≤ 1
small_bits n (inl four) h = ground (arith, ap width four)
small_bits n (inr six) h = ground (arith, ap width six)

large_bits :
    (n : Network)
    → (n.family ≡ v4) ⊎ (n.family ≡ v6)
    → is_small n ≡ false
    → 2 ≤ width n.family - n.prefix
large_bits n (inl four) h = ground (arith, ap width four)
large_bits n (inr six) h = ground (arith, ap width six)

small_size : (n : Network) → is_small n ≡ true → num_addresses n ≤ 2
small_size n h = two_at_most (width n.family - n.prefix) (small_bits n (family_cases n.family) h)

large_size : (n : Network) → is_small n ≡ false → 2 < num_addresses n
large_size n h = more_than_two (width n.family - n.prefix) (large_bits n (family_cases n.family) h)

-- Where the network of an interface with valid bits has an address besides its base, the first
-- usable host is an address of the network. In a network of two addresses it is the interface's
-- own; in a larger one it is not the base, and no other address of the network besides the base is
-- below it.
pub first_usable_least :
    (i : Interface) (b : Address)
    → IsInterface i
    → contains (network_of i) b ≡ true
    → b.number ≢ (network_of i).base
    → (contains (network_of i) (first_usable i) ≡ true)
      × (((num_addresses (network_of i) ≤ 2) × (first_usable i ≡ ip_of i))
          ⊎ ((2 < num_addresses (network_of i))
              × ((first_usable i).number ≢ (network_of i).base)
              × ((first_usable i).number ≤ b.number)))
unfolding first_usable
first_usable_least i b w inside other = (
  first_usable_inside i w,
  elim (Bool-cases (is_small (network_of i))) [
    | inl small ↦ inl (small_size (network_of i) small, rw small refl)
    | inr large ↦
        let size = large_size (network_of i) large in
        let (_, lo, _) = range_of_contains (network_of i) b inside in
        rw (large, nth_inside i w 1 (omega (arith, size)))
          (inr (size, omega arith, omega (arith, lo, other)))
  ],
)
