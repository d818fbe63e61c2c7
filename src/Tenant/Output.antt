-- ===== src/Tenant/Output.antt =====
-- What a derivation that succeeds has checked, and the address that it prints.
use Prim.Native.Nat.{bit_or}
use network_renderer_contain.Prelude.{
  ℕ, ◌+◌, ◌*◌, ◌^◌, ◌-◌, ◌%◌, ◌<◌, ◌≡◌, refl, ap, ◌∙◌, sym, String, none, some, [], ◌∷◌, true,
  arith, Option-cases, inl, inr, ltb, ◌==◌, nat_eq, nat_beq_iff, eq_iff, ◌↔◌, ltb→lt,
}
use network_renderer_contain.Py.Value.{ℤ, pos}
use network_renderer_contain.Py.Result.{ok_inj, ok, >>=-eq-ok, require, require-eq-ok, or_raise}
use network_renderer_contain.Py.Text.{strip, concat}
use network_renderer_contain.Py.Ip.{v6, Address, Network, IsNetwork, contains, num_addresses}
use network_renderer_contain.Py.Ip.Laws.{contains_of_range, same_family_iff}
use network_renderer_contain.Py.Ip.Bits.{bit_or_of_aligned}
use network_renderer_contain.Py.Ip.Parse.{ip_network, print, print_network}
use network_renderer_contain.Py.Ip.Parse.Range.{ip_network-IsNetwork}
use network_renderer_contain.Tenant.{
  Args, rejected, natural, read_parent, tenant_network, ipv6_address, host_address, tenant_text,
  derive,
}
use network_renderer_contain.Tenant.Derivation.{
  tenant, HasSlot, tenant_network-eq-ok, tenant_network_total, tenant_inside, tenant-IsNetwork,
}

abbrev pub host : Network → Address → Address
host n identifier = record { family = v6; number = n.base + identifier.number }

module _ (n : Network) (identifier : Address) (w : IsNetwork n) (six : n.family ≡ v6)
    (sixty_four : n.prefix ≡ 64) (low : identifier.number < 2 ^ 64) where
  size : num_addresses n ≡ 2 ^ 64
  size = rw (six, sixty_four)

  or_is_sum : bit_or n.base identifier.number ≡ n.base + identifier.number
  or_is_sum =
      bit_or_of_aligned 64 n.base identifier.number (sym (ap (λ m. n.base % m) size) ∙ w.aligned)
        low

  host_inside : contains n (host n identifier) ≡ true
  host_inside = contains_of_range n (host n identifier) w six (omega arith) (omega (arith, size))

  -- In a /64 every identifier of 64 bits has an address, whose host part it is.
  pub host_address_total :
      (host_address n identifier ≡ ok (host n identifier)) × (contains n (host n identifier) ≡ true)
  unfolding host_address
  host_address_total = (rw or_is_sum (ground (arith, host_inside, sixty_four, low)), host_inside)

-- What the code has checked of the source text and the metadata of a derivation.
pub record Checked (args : Args) (parent : Network) (length slot : ℕ) : Type 0 where
  pub source : ip_network true (strip args.source) ≡ some parent
  pub spelling : print_network parent ≡ strip args.source
  pub delegated : args.delegated_prefix_length ≡ pos parent.prefix
  pub tenant_length : args.tenant_prefix_length ≡ pos length
  pub slot_number : args.slot ≡ pos slot
  pub has_slot : HasSlot parent length slot

record IsRead (source : String) (parent : Network) : Type 0 where
  read : ip_network true (strip source) ≡ some parent
  six : parent.family ≡ v6
  spelling : print_network parent ≡ strip source

read_parent_sound :
    (source : String) (parent : Network) → read_parent source ≡ ok parent → IsRead source parent
unfolding read_parent
read_parent_sound source parent h = elim (Option-cases (ip_network true (strip source))) [
  | inl e ↦ ground arith
  | inr (n, e) ↦ record {
    read = ground arith;
    six = ground (arith, same_family_iff n.family v6);
    spelling = ground (arith, eq_iff (print_network n) (strip source));
  }
]

natural-eq-ok : (z : ℤ) (n : ℕ) → natural z ≡ ok n → z ≡ pos n
natural-eq-ok z n h = ground arith

module _ (args : Args) (out : String) where
  -- A derivation of this output: what was checked, and the text of the tenant.
  abbrev pub Derivation : Type 0
  Derivation =
      (parent : Network) × (length : ℕ) × (slot : ℕ) × Checked args parent length slot
      × (tenant_text (tenant parent length slot) args.interface_identifier ≡ ok out)

  pub derive_sound : derive args ≡ ok out → Derivation
  unfolding derive
  derive_sound h =
      let (parent, e, h₁) = >>=-eq-ok (read_parent args.source) _ h in
      let (delegated, ed, h₂) = >>=-eq-ok (natural args.delegated_prefix_length) _ h₁ in
      let (_, er, h₃) = >>=-eq-ok (require (parent.prefix == delegated) rejected) _ h₂ in
      let (length, el, h₄) = >>=-eq-ok (natural args.tenant_prefix_length) _ h₃ in
      let (slot, es, h₅) = >>=-eq-ok (natural args.slot) _ h₄ in
      let (n, en, h₆) = >>=-eq-ok (tenant_network parent length slot) _ h₅ in
      let r = read_parent_sound args.source parent e in
      let (same, longer, most, range) = tenant_network-eq-ok parent length slot n en in
      (
        parent,
        length,
        slot,
        record {
          source = r.read;
          spelling = r.spelling;
          delegated =
              natural-eq-ok _ _ ed
              ∙ ap pos (sym ((nat_beq_iff parent.prefix delegated).0 (require-eq-ok _ _ _ er)));
          tenant_length = natural-eq-ok _ _ el;
          slot_number = natural-eq-ok _ _ es;
          has_slot = record {
            network = ip_network-IsNetwork true (strip args.source) parent r.read;
            family = r.six;
            longer = longer;
            at_most = most;
            in_range = range;
          };
        },
        ap (λ t. tenant_text t args.interface_identifier) (sym same) ∙ h₆,
      )

nothing_read : ip_network true "" ≡ none
unfolding ip_network
nothing_read = refl

module _ (args : Args) (parent : Network) (length slot : ℕ)
    (c : Checked args parent length slot) where
  read_parent_complete : read_parent args.source ≡ ok parent
  unfolding read_parent
  read_parent_complete = ground (
    arith,
    c.source,
    c.spelling,
    nothing_read,
    c.has_slot.family,
    eq_iff (strip args.source) "",
    eq_iff (print_network parent) (strip args.source),
    same_family_iff parent.family v6,
  )

  derive_complete : derive args ≡ tenant_text (tenant parent length slot) args.interface_identifier
  unfolding derive
  derive_complete =
      rw (read_parent_complete, c.delegated, c.tenant_length, c.slot_number)
        (rw (tenant_network_total parent length slot c.has_slot)
          (rw ((nat_beq_iff parent.prefix parent.prefix).1 refl)))

-- The derivation succeeds with an output exactly when every check of the parent's text and of the
-- metadata passes and the text of the tenant in that slot is this output.
pub derive_iff : (args : Args) (out : String) → (derive args ≡ ok out) ↔ Derivation args out
derive_iff args out = (
  derive_sound args out,
  λ d. let (parent, length, slot, c, e) = d in derive_complete args parent length slot c ∙ e,
)

host_address-eq-ok :
    (n : Network) (identifier a : Address)
    → IsNetwork n
    → n.family ≡ v6
    → host_address n identifier ≡ ok a
    → (a ≡ host n identifier) × (identifier.number < 2 ^ 64) × (contains n a ≡ true)
unfolding host_address
host_address-eq-ok n identifier a w six h =
    let (_, e, h₁) = >>=-eq-ok (require (n.prefix == 64) rejected) _ h in
    let (_, l, _) = >>=-eq-ok (require (ltb identifier.number (2 ^ 64)) rejected) _ h₁ in
    let sixty_four = (nat_beq_iff n.prefix 64).0 (require-eq-ok _ _ _ e) in
    let low = ltb→lt _ _ (require-eq-ok _ _ _ l) in
    let (total, inside) = host_address_total n identifier w six sixty_four low in
    let same : a ≡ host n identifier = ok_inj _ _ (sym h ∙ total) in (same, low, rw same inside)

-- The address that a derivation with an interface identifier prints.
pub record IsDerived (args : Args) (text out : String) : Type 0 where
  pub parent : Network
  pub length : ℕ
  pub slot : ℕ
  pub checked : Checked args parent length slot
  pub identifier : Address
  pub read : ipv6_address text ≡ some identifier
  pub address : Address
  pub low : identifier.number < 2 ^ 64
  pub number : address.number ≡ parent.base + slot * 2 ^ (128 - length) + identifier.number
  pub in_tenant : contains (tenant parent length slot) address ≡ true
  pub in_parent : contains parent address ≡ true
  pub printed : out ≡ concat (print address ∷ "/128" ∷ [])

tenant_text_address :
    (n : Network) (text out : String)
    → tenant_text n (some text) ≡ ok out
    → (identifier : Address) × (address : Address) × (ipv6_address text ≡ some identifier)
      × (host_address n identifier ≡ ok address)
      × (out ≡ concat (print address ∷ "/128" ∷ []))
unfolding tenant_text
tenant_text_address n text out h = elim (Option-cases (ipv6_address text)) [
  | inl e ↦ ground arith
  | inr (i, e) ↦
      let read : (or_raise rejected (ipv6_address text)) ≡ ok i = rw e in
      let (a, ea, h₁) = >>=-eq-ok (host_address n i) _ (rw read at h) in (i, a, e, ea, ground arith)
]

-- With an interface identifier, an output that is given is the text of one address: the
-- identifier's, of 64 bits at most, in the slot's network and so in the parent.
pub derive_address :
    (args : Args) (text out : String)
    → args.interface_identifier ≡ some text
    → derive args ≡ ok out
    → IsDerived args text out
derive_address args text out asked h =
    let (parent, length, slot, c, e) = derive_sound args out h in
    let s = c.has_slot in
    let n = tenant parent length slot in
    let (i, a, read, ea, printed) = tenant_text_address n text out (rw asked at e) in
    let w = tenant-IsNetwork parent length slot s in
    let (same, low, inside) = host_address-eq-ok n i a w refl ea in
    record {
      parent = parent;
      length = length;
      slot = slot;
      checked = c;
      identifier = i;
      read = read;
      address = a;
      low = low;
      number = ap (λ (b : Address). b.number) same;
      in_tenant = inside;
      in_parent = tenant_inside parent length slot s a inside;
      printed = printed;
    }
