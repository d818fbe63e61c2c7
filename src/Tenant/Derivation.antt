-- ===== src/Tenant/Derivation.antt =====
-- The arithmetic of slots: each slot of a parent gives a network, inside the parent and apart from
-- those of the other slots.
use native.Mathlib.Nat.{mul-mod_left, div-add-mod, mul-le-mul_right}
use network_renderer_contain.Prelude.{
  ℕ, ◌+◌, ◌-◌, ◌*◌, ◌/◌, ◌%◌, ◌^◌, ◌≤◌, ◌<◌, ◌≡◌, ◌≢◌, sym, ap, ◌∙◌, arith, true, false, Bool-cases,
  inl, inr,
}
use network_renderer_contain.Py.Result.{ok}
use network_renderer_contain.Py.Ip.{
  v6, width, masked, Address, Network, IsNetwork, contains, subnet_of, num_addresses,
}
use network_renderer_contain.Py.Ip.Laws.{
  same_family_iff, contains_of_range, pow_pos, pow-add, room, range_of_contains, lt_of_mul_lt,
}
use network_renderer_contain.Tenant.{strict_network, tenant_network}

abbrev pub tenant : Network → ℕ → ℕ → Network
tenant parent length slot = record {
  family = v6;
  base = parent.base + slot * 2 ^ (128 - length);
  prefix = length;
}

-- A parent with a tenant length and a slot that the code admits.
pub record HasSlot (parent : Network) (length slot : ℕ) : Type 0 where
  pub network : IsNetwork parent
  pub family : parent.family ≡ v6
  pub longer : parent.prefix ≤ length
  pub at_most : length ≤ 128
  pub in_range : slot < 2 ^ (length - parent.prefix)

module _ (parent : Network) (length slot : ℕ) (s : HasSlot parent length slot) where
  parent_size : num_addresses parent ≡ 2 ^ (length - parent.prefix) * 2 ^ (128 - length)
  parent_size = rw s.family (
      ap (λ t. 2 ^ t) (omega (arith, s.longer, s.at_most))
      ∙ pow-add 2 (length - parent.prefix) (128 - length))

  parent_room : parent.base + num_addresses parent ≤ 2 ^ 128
  parent_room =
      let wide : 2 ^ width parent.family ≡ 2 ^ 128 = ap (λ f. 2 ^ width f) s.family in
      omega (arith, room parent s.network)

  slot_room : slot * 2 ^ (128 - length) + 2 ^ (128 - length) ≤ num_addresses parent
  slot_room = omega (arith, parent_size, mul-le-mul_right (2 ^ (128 - length)) s.in_range)

  slot_aligned : (parent.base + slot * 2 ^ (128 - length)) % 2 ^ (128 - length) ≡ 0
  slot_aligned =
      let h = 2 ^ (128 - length) in
      let c = 2 ^ (length - parent.prefix) in
      let q = parent.base / num_addresses parent in
      let whole : parent.base ≡ q * c * h = omega (
        arith,
        div-add-mod parent.base (num_addresses parent),
        s.network.aligned,
        ap (λ (t : ℕ). t * q) parent_size,
      ) in
      let sum : parent.base + slot * h ≡ (q * c + slot) * h = omega arith in
      rw sum (mul-mod_left (q * c + slot) h)

  strict_tenant :
      strict_network v6 (parent.base + slot * 2 ^ (128 - length)) length
      ≡ ok (tenant parent length slot)
  unfolding strict_network masked
  strict_tenant =
      ground (arith, parent_room, slot_room, slot_aligned, s.at_most, pow_pos (128 - length))

  subnet_tenant : subnet_of (tenant parent length slot) parent ≡ true
  unfolding subnet_of
  subnet_tenant =
      rw ((same_family_iff v6 parent.family).1 (sym s.family))
        (ground (arith, slot_room, pow_pos (128 - length)))

  -- For a parent with a tenant length and a slot in range no check fails, and the network starts as
  -- many tenant sizes behind the parent's base as the slot says.
  pub tenant_network_total : tenant_network parent length slot ≡ ok (tenant parent length slot)
  unfolding tenant_network
  tenant_network_total =
      ground (arith, strict_tenant, subnet_tenant, s.longer, s.at_most, s.in_range)

  pub tenant_inside :
      (a : Address) → contains (tenant parent length slot) a ≡ true → contains parent a ≡ true
  tenant_inside a h =
      let (f, lo, hi) = range_of_contains (tenant parent length slot) a h in
      contains_of_range parent a s.network (s.family ∙ f) (omega arith) (omega (arith, slot_room))

  pub tenant-IsNetwork : IsNetwork (tenant parent length slot)
  tenant-IsNetwork = record {
    fits = omega (arith, parent_room, slot_room, pow_pos (128 - length));
    prefix_le = s.at_most;
    aligned = slot_aligned;
  }

pub tenant_network-eq-ok :
    (parent : Network) (length slot : ℕ) (n : Network)
    → tenant_network parent length slot ≡ ok n
    → (n ≡ tenant parent length slot)
      × (parent.prefix ≤ length)
      × (length ≤ 128)
      × (slot < 2 ^ (length - parent.prefix))
unfolding tenant_network strict_network
tenant_network-eq-ok parent length slot n h =
    (ground arith, ground arith, ground arith, ground arith)

-- Where the network of a slot is given for a parent that is an IPv6 network, an address of it is an
-- address of the parent.
pub tenant_network-inside :
    (parent : Network) (length slot : ℕ) (n : Network) (a : Address)
    → IsNetwork parent
    → parent.family ≡ v6
    → tenant_network parent length slot ≡ ok n
    → contains n a ≡ true
    → contains parent a ≡ true
tenant_network-inside parent length slot n a w six h inn =
    let (same, longer, at_most, in_range) = tenant_network-eq-ok parent length slot n h in
    let s : HasSlot parent length slot = record {
      network = w;
      family = six;
      longer = longer;
      at_most = at_most;
      in_range = in_range;
    } in
    tenant_inside parent length slot s a (rw same at inn)

same_slot : (h i j x : ℕ) → i * h ≤ x → x < j * h + h → i ≤ j
same_slot h i j x lo hi =
    let below : h * i < h * (j + 1) = omega arith in omega (arith, lt_of_mul_lt h i (j + 1) below)

slot_of_address :
    (parent : Network) (length i j : ℕ) (n m : Network) (a : Address)
    → tenant_network parent length i ≡ ok n
    → tenant_network parent length j ≡ ok m
    → contains n a ≡ true
    → contains m a ≡ true
    → i ≡ j
slot_of_address parent length i j n m a hn hm inn inm =
    let (en, _, _, _) = tenant_network-eq-ok parent length i n hn in
    let (em, _, _, _) = tenant_network-eq-ok parent length j m hm in
    let (_, lo, hi) = range_of_contains (tenant parent length i) a (rw en at inn) in
    let (_, lo', hi') = range_of_contains (tenant parent length j) a (rw em at inm) in
    let h = 2 ^ (128 - length) in
    let x = a.number - parent.base in
    omega (
      arith,
      same_slot h i j x (omega arith) (omega arith),
      same_slot h j i x (omega arith) (omega arith),
    )

-- The networks of two different slots of one parent have no address in common.
pub slots_disjoint :
    (parent : Network) (length i j : ℕ) (n m : Network) (a : Address)
    → i ≢ j
    → tenant_network parent length i ≡ ok n
    → tenant_network parent length j ≡ ok m
    → contains n a ≡ true
    → contains m a ≡ false
slots_disjoint parent length i j n m a other hn hm inn = elim (Bool-cases (contains m a)) [
  | inl inm ↦ absurd (other (slot_of_address parent length i j n m a hn hm inn inm))
  | inr out ↦ out
]
