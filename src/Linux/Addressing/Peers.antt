-- ===== src/Linux/Addressing/Peers.antt =====
-- The peer that the code picks for an interface, and the first host of a tenant's network.
use native.Mathlib.Nat.{pow-le-pow_right}
use network_renderer_contain.Prelude.{
  ℕ, ◌+◌, ◌-◌, ◌^◌, ◌≤◌, ◌<◌, ◌≡◌, ◌≢◌, refl, ap, ◌∙◌, Bool, true, not, ◌&&◌, ◌||◌, none, some,
  arith, nat_eq, ltb, Bool-cases, inl, inr, ◌⊎◌, ltb→lt, String, eq_iff, string_eq,
}
use network_renderer_contain.Py.Ip.{
  Family, v4, v6, same_family, width, Address, Interface, IsInterface, network_of, contains,
  broadcast, num_addresses,
}
use network_renderer_contain.Py.Ip.Laws.{
  contains_of_range, network_of-IsNetwork, masked-le, masked-lt,
}
use network_renderer_contain.Py.Value.{str}
use network_renderer_contain.Py.Result.{ok}
use network_renderer_contain.Py.Ip.Parse.{ip_interface, print}
use network_renderer_contain.Py.Ip.Parse.Range.{ip_interface-IsInterface}
use network_renderer_contain.Linux.Addressing.{peer_in_subnet, nth, candidate, peer_address}

-- A prefix that leaves k bits free leaves 2 ^ k addresses.
pub room_of : (f : Family) (p k : ℕ) → p + k ≤ width f → 2 ^ k ≤ 2 ^ (width f - p)
room_of f p k h = pow-le-pow_right {n = 2} (omega arith) {i = k} {j = width f - p} (omega arith)

module _ (i : Interface) (w : IsInterface i) where
  size : ℕ
  size = num_addresses (network_of i)

  pub own_range :
      ((network_of i).base ≤ i.number)
      × (i.number < (network_of i).base + num_addresses (network_of i))
  unfolding network_of
  own_range = (masked-le i.family i.prefix i.number, masked-lt i.family i.prefix i.number)

  pub nth_inside :
      (k : ℕ)
      → k < num_addresses (network_of i)
      → contains (network_of i) (nth (network_of i) k) ≡ true
  nth_inside k h =
      contains_of_range (network_of i) (nth (network_of i) k) (network_of-IsNetwork i w) refl
        (omega arith) (omega arith)

  candidate_cases :
      (k : ℕ)
      → ((candidate i k ≡ nth (network_of i) k) ⊎ (candidate i k ≡ nth (network_of i) (k + 1)))
        × ((candidate i k).number ≢ i.number)
  unfolding candidate
  candidate_cases k = (ground arith, ground arith)

  candidate_inside :
      (k : ℕ)
      → k + 1 < num_addresses (network_of i)
      → (contains (network_of i) (candidate i k) ≡ true)
        × ((network_of i).base + k ≤ (candidate i k).number)
        × ((candidate i k).number ≤ (network_of i).base + k + 1)
  candidate_inside k h = elim (candidate_cases k).0 [
    | inl e ↦ rw e (nth_inside k (omega arith), omega arith, omega arith)
    | inr e ↦ rw e (nth_inside (k + 1) h, omega arith, omega arith)
  ]

-- In an IPv4 network of four addresses or more, neither the network's address nor the broadcast one.
abbrev pub is_usable : Interface → Address → Bool
is_usable i a =
    not (same_family i.family v4 && ltb i.prefix 31)
    || (ltb (network_of i).base a.number && ltb a.number (broadcast (network_of i)))

-- A usable address of the interface's network that is not the interface's own.
pub record IsPeer (i : Interface) (a : Address) : Type 0 where
  pub inside : contains (network_of i) a ≡ true
  pub other : a.number ≢ i.number
  pub usable : is_usable i a ≡ true

pub family_cases : (f : Family) → (f ≡ v4) ⊎ (f ≡ v6)
family_cases v4 = inl refl
family_cases v6 = inr refl

module _ (i : Interface) (w : IsInterface i) (room : i.prefix < width i.family) where
  IsPeer-v4 : i.family ≡ v4 → (a : Address) × (peer_address i ≡ some a) × IsPeer i a
  unfolding peer_address network_of
  IsPeer-v4 four = elim (Bool-cases (ltb i.prefix 31)) [
    | inl wide ↦
        let big : 2 ^ 2 ≤ num_addresses (network_of i) =
          room_of i.family i.prefix 2 (omega (arith, ap width four, ltb→lt i.prefix 31 wide)) in
        let (inside, lo, hi) = candidate_inside i w 1 (omega arith) in
        (
          candidate i 1,
          ground (arith, four, wide, big, lo, hi),
          record {
            inside = inside;
            other = (candidate_cases i w 1).1;
            usable = ground (arith, four, big, lo, hi);
          },
        )
    | inr narrow ↦
        let two : 2 ^ 1 ≤ num_addresses (network_of i) =
          room_of i.family i.prefix 1 (omega (arith, room)) in
        let (inside, lo, hi) = candidate_inside i w 0 (omega arith) in
        (
          candidate i 0,
          ground (arith, four, narrow, two, inside),
          record {
            inside = inside;
            other = (candidate_cases i w 0).1;
            usable = ground (arith, narrow);
          },
        )
  ]

  IsPeer-v6 : i.family ≡ v6 → (a : Address) × (peer_address i ≡ some a) × IsPeer i a
  unfolding peer_address network_of
  IsPeer-v6 six = elim (Bool-cases (ltb i.prefix 127)) [
    | inl wide ↦
        let big : 2 ^ 2 ≤ num_addresses (network_of i) =
          room_of i.family i.prefix 2
            (ground (arith, ap width six, ltb→lt i.prefix 127 wide, room)) in
        let (inside, _, _) = candidate_inside i w 1 (omega arith) in
        (
          candidate i 1,
          ground (arith, six, wide, big, inside),
          record { inside = inside; other = (candidate_cases i w 1).1; usable = rw six refl },
        )
    | inr narrow ↦
        let two : 2 ^ 1 ≤ num_addresses (network_of i) =
          room_of i.family i.prefix 1 (omega (arith, room)) in
        let (inside, _, _) = candidate_inside i w 0 (omega arith) in
        (
          candidate i 0,
          ground (arith, six, narrow, two, inside),
          record { inside = inside; other = (candidate_cases i w 0).1; usable = rw six refl },
        )
  ]

  -- An interface with valid bits whose network has a second address has a peer: another address of
  -- the network, in a larger IPv4 network neither the network's address nor the broadcast one.
  pub peer_address_total : (a : Address) × (peer_address i ≡ some a) × IsPeer i a
  peer_address_total = elim (family_cases i.family) [
    | inl four ↦ IsPeer-v4 four
    | inr six ↦ IsPeer-v6 six
  ]

alone : (f : Family) → 2 ^ (width f - width f) ≡ 1
alone v4 = refl
alone v6 = refl

-- An interface of a network of one address has no peer.
pub peer_address-eq-none : (i : Interface) → i.prefix ≡ width i.family → peer_address i ≡ none
unfolding peer_address network_of
peer_address-eq-none i e =
    let one : 2 ^ (width i.family - i.prefix) ≡ 1 =
      ap (λ k. 2 ^ (width i.family - k)) e ∙ alone i.family in
    ground (arith, one)

-- For a text that is read as an interface whose network has a second address, the text of a peer is
-- returned, and no error.
pub peer_in_subnet_total :
    (s : String) (i : Interface)
    → s ≢ ""
    → ip_interface s ≡ some i
    → i.prefix < width i.family
    → (a : Address) × (peer_in_subnet (str s) ≡ ok (some (print a))) × IsPeer i a
unfolding peer_in_subnet
peer_in_subnet_total s i filled read room =
    let (a, e, peer) = peer_address_total i (ip_interface-IsInterface s i read) room in
    (a, ground (arith, eq_iff s "", read, e), peer)
