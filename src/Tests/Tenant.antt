-- ===== src/Tests/Tenant.antt =====
-- The derivation of one tenant's prefix and address.
use network_renderer_contain.Prelude.{ℕ, ◌+◌, ◌*◌, ◌^◌, ◌≡◌, refl, some, arith, true, false}
use network_renderer_contain.Py.Value.{pos}
use network_renderer_contain.Py.Result.{ok}
use network_renderer_contain.Py.Ip.{v6, Address, Network, contains}
use network_renderer_contain.Py.Ip.Parse.{ip_network}
use network_renderer_contain.Tenant.{Args, tenant_network, derive, strict_network}
use network_renderer_contain.Tenant.Derivation.{
  tenant, HasSlot, tenant_network-inside, tenant_network_total, slots_disjoint,
}
use network_renderer_contain.Tenant.Output.{Derivation, derive_iff, derive_address, IsDerived}

abbrev args : Args
args = record {
  source = "fd00:1::/48\n";
  delegated_prefix_length = pos 48;
  tenant_prefix_length = pos 64;
  slot = pos 5;
  interface_identifier = some "::10";
}

abbrev parent : Network
parent = record { family = v6; base = 2 ^ 120 * 253 + 2 ^ 96; prefix = 48 }

runs : derive args ≡ ok "fd00:1:0:5::10/128"
unfolding derive network_renderer_contain.Tenant.read_parent network_renderer_contain.Py.Text.strip
    ip_network network_renderer_contain.Py.Ip.Parse.print_prefix tenant_network strict_network
    network_renderer_contain.Py.Ip.subnet_of network_renderer_contain.Tenant.tenant_text
    network_renderer_contain.Tenant.ipv6_address network_renderer_contain.Py.Ip.Parse.ip_address
    network_renderer_contain.Tenant.host_address contains
runs = refl

derive_iff_example : Derivation args "fd00:1:0:5::10/128"
derive_iff_example = (derive_iff args "fd00:1:0:5::10/128").0 runs

derive_address_example : IsDerived args "::10" "fd00:1:0:5::10/128"
derive_address_example = derive_address args "::10" "fd00:1:0:5::10/128" refl runs

tenant_runs : tenant_network parent 64 5 ≡ ok (tenant parent 64 5)
unfolding tenant_network strict_network network_renderer_contain.Py.Ip.masked
    network_renderer_contain.Py.Ip.subnet_of
tenant_runs = refl

parent_HasSlot : HasSlot parent 64 5
parent_HasSlot = record {
  network = record { fits = omega arith; prefix_le = omega arith; aligned = refl };
  family = refl;
  longer = omega arith;
  at_most = omega arith;
  in_range = omega arith;
}

tenant_network_total_example : tenant_network parent 64 5 ≡ ok (tenant parent 64 5)
tenant_network_total_example = tenant_network_total parent 64 5 parent_HasSlot

abbrev inside : Address
inside = record { family = v6; number = parent.base + 5 * 2 ^ 64 + 16 }

inside_runs : contains (tenant parent 64 5) inside ≡ true
unfolding contains
inside_runs = refl

tenant_network-inside_example : contains parent inside ≡ true
tenant_network-inside_example =
    tenant_network-inside parent 64 5 (tenant parent 64 5) inside parent_HasSlot.network
      parent_HasSlot.family tenant_runs inside_runs

next_runs : tenant_network parent 64 6 ≡ ok (tenant parent 64 6)
unfolding tenant_network strict_network network_renderer_contain.Py.Ip.masked
    network_renderer_contain.Py.Ip.subnet_of
next_runs = refl

other : ¬ ◌≡◌ {A = ℕ} 5 6
other = λ e. omega (arith, e)

slots_disjoint_example : contains (tenant parent 64 6) inside ≡ false
slots_disjoint_example =
    slots_disjoint parent 64 5 6 (tenant parent 64 5) (tenant parent 64 6) inside other tenant_runs
      next_runs inside_runs
